-- ===== src/Ril/Session/Tells.antt =====
-- Which network types a message from the modem makes the class tell it.
use mathlib.Core.List.{append_assoc}
use android_device_samsung_c.Base.{
  ℕ, ◌≡◌, refl, ap, ◌∙◌, sym, List, [], ◌∷◌, ◌++◌, map, Bool, true, false, ◌==◌, Option, none, some,
  if◌then◌else◌,
}
use android_device_samsung_c.Ril.{
  Effect, register, unregister, set_data, request, answer, send_prefered_networktype,
}
use android_device_samsung_c.Ril.Parcel.{Parcel}
use android_device_samsung_c.Ril.SimStatus.{switch_to_radio_state}
use android_device_samsung_c.Ril.Switch.{told}
use android_device_samsung_c.Ril.Unsolicited.Acts.{decoded-case}
use android_device_samsung_c.Ril.Unsolicited.{
  Phone, Told, icc_status_changed, ask_icc_card_status, sent, Super, Handled, Response,
  if_registered, bonus_state, radio_changed, connected, handled, response_of, process_unsolicited,
  radio_state_changed, new_broadcast_sms, ril_connected, stk_send_sms_result, am,
  dun_pin_control_signal, data_suspend_resume, stk_call_control_result, two_mic_state,
  broadcast_sms, cat_send_sms_result, thrown, forwarded,
}

abbrev type_of : Told → List ℕ
type_of (sent (request t reply)) = t ∷ []
type_of t = []

-- The types that the modem is told.
unfoldable pub sent_types : List Told → List ℕ
sent_types [] = []
sent_types (t ∷ told) = type_of t ++ sent_types told

pub sent_types-append : (a b : List Told) → sent_types (a ++ b) ≡ sent_types a ++ sent_types b
unfolding sent_types
sent_types-append [] b = refl
sent_types-append (t ∷ a) b =
    ap (λ l. type_of t ++ l) (sent_types-append a b)
    ∙ sym (append_assoc (type_of t) (sent_types a) (sent_types b))

pub sent_types-sent : (es : List Effect) → sent_types (map sent es) ≡ told es
unfolding sent_types told
sent_types-sent [] = refl
sent_types-sent (request t reply ∷ es) = ap (λ l. t ∷ l) (sent_types-sent es)
sent_types-sent (register i ∷ es) = sent_types-sent es
sent_types-sent (unregister i ∷ es) = sent_types-sent es
sent_types-sent (set_data b ∷ es) = sent_types-sent es
sent_types-sent (answer m ∷ es) = sent_types-sent es

pub sent_types-asked : (ms : List ℕ) → sent_types (map ask_icc_card_status ms) ≡ []
unfolding sent_types
sent_types-asked [] = refl
sent_types-asked (m ∷ ms) = sent_types-asked ms

-- A message changes nothing of the handlers, and tells the modem the types ts.
abbrev pub Tells : {P : Type 0} → Phone → (ts : List ℕ) → Handled P → Type 0
Tells s ts h = (h.0.ril ≡ s.ril) × (sent_types h.1 ≡ ts)

silent : (b : Bool) (t : Told) → type_of t ≡ [] → sent_types (if_registered b t) ≡ []
unfolding sent_types
silent true t e = rw e refl
silent false t e = refl

silent_icc :
    (b has : Bool) → sent_types (if b then if_registered has icc_status_changed else []) ≡ []
unfolding sent_types
silent_icc true has = silent has icc_status_changed refl
silent_icc false has = refl

module _ {P : Type 0} (parcel : Parcel P) (super : Super P) where
  -- What a message says, beside what it does to the radio: the modem has connected, with numbers
  -- that can be decoded, or something else.
  abbrev pub says_connected : Option Response → P → Bool
  says_connected (some ril_connected) p = elim (super.response_ints p) [
    | none ↦ false
    | some ns ↦ true
  ]
  says_connected o p = false

  unfoldable pub is_connection : P → Bool
  is_connection p =
      let (n, payload) = parcel.read_int p in says_connected (response_of parcel super n) payload

  radio_changed-Tells : (s : Phone) (p : P) → Tells s [] (radio_changed parcel super s p)
  unfolding radio_changed
  radio_changed-Tells s p =
      let state = (parcel.read_int p).0 in
      let icc = silent_icc (state == 4) s.has_icc_status_changed in
      decoded-case (λ h. Tells s [] h) (super.radio_state_from_int (bonus_state state)) _ _
        (refl, icc)
        (λ st. (
          refl,
          sent_types-append
                (if state == 4
                  then if_registered s.has_icc_status_changed icc_status_changed
                  else [])
                (map ask_icc_card_status (switch_to_radio_state st s.radio).1)
              ∙ rw (icc) (sent_types-asked (switch_to_radio_state st s.radio).1),
        ))

  connected-Tells :
      (s : Phone) (ret : List ℕ)
      → Tells s (s.ril.preferred_network_type ∷ []) (connected parcel super s ret)
  unfolding connected send_prefered_networktype sent_types
  connected-Tells s [] = (refl, refl)
  connected-Tells s (version ∷ rest) = (refl, refl)

  -- With numbers that can be decoded, or an exception.
  connection-Tells :
      (s : Phone) (o : Option (List ℕ × P))
      → Tells s
          (if (elim o as (λ x. Bool) [ none ↦ false | some ns ↦ true ])
            then s.ril.preferred_network_type ∷ []
            else [])
          (elim o as (λ x. Handled P) [
            | none ↦ (s, [], thrown)
            | some r ↦ connected parcel super s r.0
          ])
  unfolding sent_types
  connection-Tells s none = (refl, refl)
  connection-Tells s (some r) = connected-Tells s r.0

  handled-Tells :
      (r : Response) (s : Phone) (p : P)
      → Tells s
          (if says_connected (some r) p then s.ril.preferred_network_type ∷ [] else [])
          (handled parcel super r s p)
  unfolding handled sent_types
  handled-Tells radio_state_changed s p =
      decoded-case (λ h. Tells s [] h) (super.response_void p) _ _ (refl, refl)
        (λ p'. radio_changed-Tells s p')
  handled-Tells new_broadcast_sms s p =
      decoded-case (λ h. Tells s [] h) (super.response_string p) _ _ (refl, refl)
        (λ r. (refl, silent s.has_gsm_broadcast_sms (broadcast_sms r.0) refl))
  handled-Tells ril_connected s p = connection-Tells s (super.response_ints p)
  handled-Tells stk_send_sms_result s p =
      decoded-case (λ h. Tells s [] h) (super.response_ints p) _ _ (refl, refl)
        (λ r. (refl, silent s.has_cat_send_sms_result (cat_send_sms_result r.0) refl))
  handled-Tells am s p =
      decoded-case (λ h. Tells s [] h) (super.response_string p) _ _ (refl, refl)
        (λ r. (refl, refl))
  handled-Tells dun_pin_control_signal s p =
      decoded-case (λ h. Tells s [] h) (super.response_void p) _ _ (refl, refl) (λ r. (refl, refl))
  handled-Tells data_suspend_resume s p =
      decoded-case (λ h. Tells s [] h) (super.response_ints p) _ _ (refl, refl) (λ r. (refl, refl))
  handled-Tells stk_call_control_result s p =
      decoded-case (λ h. Tells s [] h) (super.response_void p) _ _ (refl, refl) (λ r. (refl, refl))
  handled-Tells two_mic_state s p =
      decoded-case (λ h. Tells s [] h) (super.response_ints p) _ _ (refl, refl) (λ r. (refl, refl))

  message-Tells :
      (s : Phone) (p q : P) (o : Option Response)
      → Tells s
          (if says_connected o q then s.ril.preferred_network_type ∷ [] else [])
          (elim o as (λ x. Handled P) [
            | none ↦ (s, [], forwarded p)
            | some r ↦ handled parcel super r s q
          ])
  unfolding sent_types
  message-Tells s p q none = (refl, refl)
  message-Tells s p q (some r) = handled-Tells r s q

  pub process_unsolicited-Tells :
      (s : Phone) (p : P)
      → Tells s
          (if is_connection p then s.ril.preferred_network_type ∷ [] else [])
          (process_unsolicited parcel super s p)
  unfolding process_unsolicited is_connection
  process_unsolicited-Tells s p =
      let read = parcel.read_int p in message-Tells s p read.1 (response_of parcel super read.0)
