-- ===== src/Ril/Unsolicited.antt =====
-- processUnsolicited of configs/ril/SamsungU8500RIL.java: what the modem tells unasked; and
-- responseGetPreferredNetworkType, whose answer is sent to the modem when it connects again. Of the
-- superclass are what decodes an answer, the numbers of three messages, and what a number of a
-- radio state stands for; they are parameters. What the superclass is asked for is a list of
-- effects.
pub mod Acts
pub mod Kept
pub mod Reconnect
use Prim.Native.String.{String}
use android_device_samsung_c.Base.{
  ℕ, ◌==◌, List, [], ◌∷◌, ◌++◌, map, Bool, true, false, Option, none, some, if◌then◌else◌,
}
use android_device_samsung_c.Ril.{Ril, Effect, to_caller, send_prefered_networktype}
use android_device_samsung_c.Ril.Parcel.{Parcel}
use android_device_samsung_c.Ril.SimStatus.{Radio, RadioState, switch_to_radio_state}

-- The fields that the handler uses. Which registrants there are does not change in it.
pub record Phone : Type 0 where
  pub ril : Ril
  pub radio : Radio
  pub cdma_subscription : ℕ
  pub has_icc_status_changed : Bool
  pub has_gsm_broadcast_sms : Bool
  pub has_cat_send_sms_result : Bool

-- execute stands for the command "am " and the string, which may be null; an exception of it is caught.
pub data Told : Type 0 where
  icc_status_changed : Told
  ask_icc_card_status : (message : ℕ) → Told
  broadcast_sms : Option String → Told
  set_radio_power : (on : Bool) → Told
  sent : Effect → Told
  set_cdma_subscription_source : ℕ → Told
  ril_connection_changed : (version : ℕ) → Told
  cat_send_sms_result : List ℕ → Told
  execute : Option String → Told

-- The handler returns, or hands a parcel on to the superclass, or an exception leaves it. What the
-- superclass does with it is not modelled, and is taken to leave the fields of Phone as they are.
pub data Ending (P : Type 0) : Type 0 where
  returned : Ending P
  forwarded : P → Ending P
  thrown : Ending P

pub data Response : Type 0 where
  radio_state_changed new_broadcast_sms ril_connected stk_send_sms_result am : Response
  dun_pin_control_signal data_suspend_resume stk_call_control_result two_mic_state : Response

-- responseVoid, responseInts, responseString, getRadioStateFromInt, and RILConstants.
pub record Super (P : Type 0) : Type 0 where
  pub response_void : P → Option P
  pub response_ints : P → Option (List ℕ × P)
  pub response_string : P → Option (Option String × P)
  pub radio_state_from_int : ℕ → Option RadioState
  pub unsol_response_radio_state_changed : ℕ
  pub unsol_response_new_broadcast_sms : ℕ
  pub unsol_ril_connected : ℕ

abbrev pub Handled : (P : Type 0) → Type 0
Handled P = Phone × List Told × Ending P

abbrev wrong : {P : Type 0} → Phone → Handled P
wrong s = (s, [], thrown)

abbrev pub if_registered : Bool → Told → List Told
if_registered true t = t ∷ []
if_registered false t = []

-- Samsung's numbers of the radio's states
abbrev pub bonus_state : ℕ → ℕ
bonus_state state =
    if state == 2 then 1 else if state == 3 then 10 else if state == 4 then 10 else state

module _ {P : Type 0} (parcel : Parcel P) (super : Super P) where
  unfoldable pub response_of : ℕ → Option Response
  response_of n =
      if n == super.unsol_response_radio_state_changed
      then some radio_state_changed
      else if n == super.unsol_response_new_broadcast_sms
      then some new_broadcast_sms
      else if n == super.unsol_ril_connected
      then some ril_connected
      else if n == 11002
      then some stk_send_sms_result
      else if n == 11010
      then some am
      else if n == 11011
      then some dun_pin_control_signal
      else if n == 11012
      then some data_suspend_resume
      else if n == 11003
      then some stk_call_control_result
      else if n == 11018
      then some two_mic_state
      else none

  -- case RIL_UNSOL_RESPONSE_RADIO_STATE_CHANGED
  unfoldable pub radio_changed : Phone → P → Handled P
  radio_changed s p =
      let (state, p) = parcel.read_int p in
      let icc =
        if state == 4 then if_registered s.has_icc_status_changed icc_status_changed else [] in
      elim (super.radio_state_from_int (bonus_state state)) [
        | none ↦ (s, icc, thrown)
        | some new_state ↦
            let (radio, asked) = switch_to_radio_state new_state s.radio in
            (record s { radio = radio }, icc ++ map ask_icc_card_status asked, returned)
      ]

  -- notifyRegistrantsRilConnectionChanged(((int[])ret)[0])
  abbrev pub connection_changed : List ℕ → List Told
  connection_changed [] = []
  connection_changed (version ∷ rest) = ril_connection_changed version ∷ []

  abbrev pub connection_ending : List ℕ → Ending P
  connection_ending [] = thrown
  connection_ending (version ∷ rest) = returned

  -- case RIL_UNSOL_RIL_CONNECTED
  unfoldable pub connected : Phone → (ret : List ℕ) → Handled P
  connected s ret =
      let (ril, effects) =
        send_prefered_networktype s.ril.preferred_network_type (to_caller none) s.ril in
      (
        record s { ril = ril },
        (set_radio_power false ∷ map sent effects)
            ++ (set_cdma_subscription_source s.cdma_subscription ∷ connection_changed ret),
        connection_ending ret,
      )

  unfoldable pub handled : Response → Phone → P → Handled P
  handled radio_state_changed s p = elim (super.response_void p) [
    | none ↦ wrong s
    | some p' ↦ radio_changed s p'
  ]
  handled new_broadcast_sms s p = elim (super.response_string p) [
    | none ↦ wrong s
    | some (ret, p') ↦ (s, if_registered s.has_gsm_broadcast_sms (broadcast_sms ret), returned)
  ]
  handled ril_connected s p = elim (super.response_ints p) [
    | none ↦ wrong s
    | some (ret, p') ↦ connected s ret
  ]
  handled stk_send_sms_result s p = elim (super.response_ints p) [
    | none ↦ wrong s
    | some (ret, p') ↦
        (s, if_registered s.has_cat_send_sms_result (cat_send_sms_result ret), returned)
  ]
  handled am s p = elim (super.response_string p) [
    | none ↦ wrong s
    | some (ret, p') ↦ (s, execute ret ∷ [], returned)
  ]
  handled dun_pin_control_signal s p = elim (super.response_void p) [
    | none ↦ wrong s
    | some p' ↦ (s, [], returned)
  ]
  handled data_suspend_resume s p = elim (super.response_ints p) [
    | none ↦ wrong s
    | some (ret, p') ↦ (s, [], returned)
  ]
  handled stk_call_control_result s p = elim (super.response_void p) [
    | none ↦ wrong s
    | some p' ↦ (s, [], returned)
  ]
  handled two_mic_state s p = elim (super.response_ints p) [
    | none ↦ wrong s
    | some (ret, p') ↦ (s, [], returned)
  ]

  unfoldable pub process_unsolicited : Phone → P → Handled P
  process_unsolicited s p =
      let (response, p') = parcel.read_int p in
      elim (response_of response) [ none ↦ (s, [], forwarded p) | some r ↦ handled r s p' ]

  -- The answer, or the exception, with what is kept of it. nt_mode_global and nt_mode_wcdma_pref are
  -- constants of Phone.
  unfoldable pub response_get_preferred_network_type :
      (nt_mode_global nt_mode_wcdma_pref : ℕ) → Ril → P → Ril × Option (List ℕ × P)
  response_get_preferred_network_type global wcdma_pref s p = elim (super.response_ints p) [
    | none ↦ (s, none)
    | some ([], p') ↦ (s, none)
    | some (n ∷ ns, p') ↦ (
      record s { preferred_network_type = n },
      some ((if n == global then wcdma_pref else n) ∷ ns, p'),
    )
  ]
