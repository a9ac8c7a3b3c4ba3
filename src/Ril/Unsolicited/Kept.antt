-- ===== src/Ril/Unsolicited/Kept.antt =====
-- What processUnsolicited keeps, over any sequence of messages from the modem and of requests for the
-- status of the SIM card.
use mathlib.Core.List.{append-nil}
use android_device_samsung_c.Base.{ℕ, ◌≡◌, refl, ap, ◌∙◌, sym, subst, List, [], ◌∷◌, ◌++◌, map}
use android_device_samsung_c.Ril.Parcel.{Parcel}
use android_device_samsung_c.Ril.SimStatus.{
  ask, act, run_actions, asked, held, get_icc_card_status, IsPrompt, Keeps, run_actions-Keeps,
}
use android_device_samsung_c.Ril.Unsolicited.{
  Phone, Told, ask_icc_card_status, Super, process_unsolicited,
}
use android_device_samsung_c.Ril.Unsolicited.Acts.{
  Acts, quiet, then-Acts, statuses, statuses-asked, process_unsolicited-Fine,
}

pub data Input (P : Type 0) : Type 0 where
  message : P → Input P
  request_status : (result : ℕ) → Input P

unfoldable pub requested : {P : Type 0} → List (Input P) → List ℕ
requested [] = []
requested (message p ∷ inputs) = requested inputs
requested (request_status m ∷ inputs) = m ∷ requested inputs

module _ {P : Type 0} (parcel : Parcel P) (super : Super P) where
  unfoldable pub take_input : Input P → Phone → Phone × List Told
  take_input (message p) s =
      let (s', told, ending) = process_unsolicited parcel super s p in (s', told)
  take_input (request_status m) s =
      let (radio, asked) = get_icc_card_status m s.radio in
      (record s { radio = radio }, map ask_icc_card_status asked)

  unfoldable pub run_inputs : List (Input P) → Phone → Phone × List Told
  unfolding take_input
  run_inputs [] s = (s, [])
  run_inputs (input ∷ inputs) s =
      let (s, first) = take_input input s in
      let (s, rest) = run_inputs inputs s in (s, first ++ rest)

  input-Acts : (input : Input P) (s : Phone) → Acts s (requested (input ∷ [])) (take_input input s)
  unfolding take_input requested run_actions act asked
  input-Acts (message p) s = process_unsolicited-Fine parcel super s p
  input-Acts (request_status m) s =
      let (radio, ms) = get_icc_card_status m s.radio in
      (
        (ask m ∷ [], refl, ap (λ l. (radio, l)) (append-nil ms ∙ sym (statuses-asked ms))),
        refl,
        refl,
      )

  pub run_inputs-Acts :
      (inputs : List (Input P)) (s : Phone) → Acts s (requested inputs) (run_inputs inputs s)
  unfolding run_inputs requested statuses
  run_inputs-Acts [] s = quiet s [] refl
  run_inputs-Acts (message p ∷ inputs) s =
      let r = take_input (message p) s in
      then-Acts s [] (requested inputs) r (run_inputs inputs r.0) (input-Acts (message p) s)
        (run_inputs-Acts inputs r.0)
  run_inputs-Acts (request_status m ∷ inputs) s =
      let r = take_input (request_status m) s in
      then-Acts s (m ∷ []) (requested inputs) r (run_inputs inputs r.0)
        (input-Acts (request_status m) s) (run_inputs-Acts inputs r.0)

  -- If no request is held while the radio is on: after any messages from the modem, of any kind and
  -- content, exceptions included, and any requests for the status of the SIM card, in any order,
  -- still none is held while the radio is on; the requests passed to the modem, and the one held in
  -- the end, are those that were held and came, in order and each at most once; the last of these
  -- is never lost; and the preferred network type and the CDMA subscription are as before.
  pub run_inputs-Keeps :
      (inputs : List (Input P)) (s : Phone)
      → IsPrompt s.radio
      → let (s', told) = run_inputs inputs s in
        Keeps (held s.radio.pending_get_sim_status ++ requested inputs) (s'.radio, statuses told)
        × (s'.ril.preferred_network_type ≡ s.ril.preferred_network_type)
        × (s'.cdma_subscription ≡ s.cdma_subscription)
  run_inputs-Keeps inputs s prompt =
      let ((actions, asks, runs), type, cdma) = run_inputs-Acts inputs s in
      let keeps = run_actions-Keeps actions s.radio.state s.radio.pending_get_sim_status prompt in
      (
        subst (λ r. Keeps (held s.radio.pending_get_sim_status ++ requested inputs) r) runs
            (subst
              (λ ms.
                Keeps (held s.radio.pending_get_sim_status ++ ms) (run_actions actions s.radio))
              asks keeps),
        type,
        cdma,
      )
