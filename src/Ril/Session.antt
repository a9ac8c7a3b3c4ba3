-- ===== src/Ril/Session.antt =====
-- The class in use: calls of setPreferredNetworkType one behind the other (Ril.Switch), each of
-- which the modem answers before anything else comes, messages from the modem, requests for the
-- status of the SIM card, and the modem's answers to the request for the preferred network type, in
-- any order.
pub mod Tells
pub mod Types
use android_device_samsung_c.Base.{ℕ, List, [], ◌∷◌, ◌++◌, map, Option, none, some, ◌>>=◌}
use android_device_samsung_c.Ril.Parcel.{Parcel}
use android_device_samsung_c.Ril.SimStatus.{get_icc_card_status}
use android_device_samsung_c.Ril.Switch.{Call, serve}
use android_device_samsung_c.Ril.Unsolicited.{
  Phone, Told, ask_icc_card_status, sent, Super, process_unsolicited,
  response_get_preferred_network_type,
}

pub data Event (P : Type 0) : Type 0 where
  call : Call → Event P
  message : P → Event P
  request_status : (result : ℕ) → Event P
  type_answer : P → Event P

-- nt_mode_global and nt_mode_wcdma_pref are constants of the framework.
module _ {P : Type 0} (parcel : Parcel P) (super : Super P)
    (nt_mode_global nt_mode_wcdma_pref : ℕ) where
  unfoldable pub happen : Event P → Phone → Option (Phone × List Told)
  happen (call c) s = do
    (ril, effects) ← serve c s.ril
    some (record s { ril = ril }, map sent effects)
  happen (message p) s =
      let (s', told, ending) = process_unsolicited parcel super s p in some (s', told)
  happen (request_status m) s =
      let (radio, asked) = get_icc_card_status m s.radio in
      some (record s { radio = radio }, map ask_icc_card_status asked)
  happen (type_answer p) s =
      let (ril, ret) =
        response_get_preferred_network_type parcel super nt_mode_global nt_mode_wcdma_pref s.ril
          p in
      some (record s { ril = ril }, [])

  unfoldable pub run_events : List (Event P) → Phone → Option (Phone × List Told)
  run_events [] s = some (s, [])
  run_events (e ∷ events) s = do
    (s, first) ← happen e s
    (s, rest) ← run_events events s
    some (s, first ++ rest)
