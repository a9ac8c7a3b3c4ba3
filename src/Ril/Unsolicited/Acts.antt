-- ===== src/Ril/Unsolicited/Acts.antt =====
-- A message from the modem acts on the radio as some of the actions of Ril.SimStatus.
use mathlib.Core.List.{append-nil, append_assoc}
use android_device_samsung_c.Base.{
  ℕ, ◌≡◌, refl, ap, ◌∙◌, sym, List, [], ◌∷◌, ◌++◌, map, Bool, true, false, ◌==◌, Option, none, some,
  if◌then◌else◌,
}
use android_device_samsung_c.Ril.{send_prefered_networktype}
use android_device_samsung_c.Ril.Parcel.{Parcel}
use android_device_samsung_c.Ril.SimStatus.{
  Radio, RadioState, Action, ask, switch_to, act, run_actions, asked, switch_to_radio_state,
}
use android_device_samsung_c.Ril.Unsolicited.{
  Phone, Told, icc_status_changed, if_registered, ask_icc_card_status, Response, Super, Handled,
  radio_changed, connected, handled, process_unsolicited, bonus_state, radio_state_changed,
  new_broadcast_sms, ril_connected, stk_send_sms_result, am, execute, dun_pin_control_signal,
  data_suspend_resume, stk_call_control_result, two_mic_state, broadcast_sms, cat_send_sms_result,
  response_of,
}

abbrev pub status_of : Told → List ℕ
status_of (ask_icc_card_status m) = m ∷ []
status_of t = []

unfoldable pub statuses : List Told → List ℕ
statuses [] = []
statuses (t ∷ told) = status_of t ++ statuses told

statuses-append : (a b : List Told) → statuses (a ++ b) ≡ statuses a ++ statuses b
unfolding statuses
statuses-append [] b = refl
statuses-append (t ∷ a) b =
    ap (λ l. status_of t ++ l) (statuses-append a b)
    ∙ sym (append_assoc (status_of t) (statuses a) (statuses b))

pub statuses-asked : (ms : List ℕ) → statuses (map ask_icc_card_status ms) ≡ ms
unfolding statuses
statuses-asked [] = refl
statuses-asked (m ∷ ms) = ap (λ l. m ∷ l) (statuses-asked ms)

statuses-icc :
    (b has : Bool) → statuses (if b then if_registered has icc_status_changed else []) ≡ []
unfolding statuses
statuses-icc true true = refl
statuses-icc true false = refl
statuses-icc false has = refl

statuses-registered :
    (has : Bool) (t : Told) → status_of t ≡ [] → statuses (if_registered has t) ≡ []
unfolding statuses
statuses-registered true t silent = rw silent refl
statuses-registered false t silent = refl

run_actions-append :
    (a b : List Action) (r : Radio)
    → run_actions (a ++ b) r ≡ (
      (run_actions b (run_actions a r).0).0,
      (run_actions a r).1 ++ (run_actions b (run_actions a r).0).1,
    )
unfolding run_actions
run_actions-append [] b r = refl
run_actions-append (x ∷ a) b r = rw (run_actions-append a b (act x r).0) (
    ap (λ l. ((run_actions b (run_actions a (act x r).0).0).0, l))
      (sym (append_assoc (act x r).1 _ _)))

asked-append : (a b : List Action) → asked (a ++ b) ≡ asked a ++ asked b
unfolding asked
asked-append [] b = refl
asked-append (ask m ∷ a) b = ap (λ l. m ∷ l) (asked-append a b)
asked-append (switch_to st ∷ a) b = asked-append a b

-- The radio and the requests that are passed on are those of some actions; ms is what these ask.
-- The other fields stay.
abbrev pub Acts : (s : Phone) (ms : List ℕ) → Phone × List Told → Type 0
Acts s ms r =
    ((actions : List Action) × (asked actions ≡ ms)
      × (run_actions actions s.radio ≡ (r.0.radio, statuses r.1)))
    × (r.0.ril.preferred_network_type ≡ s.ril.preferred_network_type)
    × (r.0.cdma_subscription ≡ s.cdma_subscription)

pub quiet : (s : Phone) (told : List Told) → statuses told ≡ [] → Acts s [] (s, told)
unfolding run_actions asked
quiet s told silent = (([], refl, ap (λ l. (s.radio, l)) (sym silent)), refl, refl)

switched :
    (s : Phone) (st : RadioState) (icc : List Told)
    → statuses icc ≡ []
    → Acts s [] (
      record s { radio = (switch_to_radio_state st s.radio).0 },
      icc ++ map ask_icc_card_status (switch_to_radio_state st s.radio).1,
    )
unfolding run_actions asked act
switched s st icc silent =
    let (radio, asked) = switch_to_radio_state st s.radio in
    (
      (
        switch_to st ∷ [],
        refl,
        ap (λ l. (radio, l))
            (append-nil asked
              ∙ sym (
                  rw (statuses-append icc (map ask_icc_card_status asked), silent)
                    (statuses-asked asked))),
      ),
      refl,
      refl,
    )

registered :
    (s : Phone) (has : Bool) (t : Told) → status_of t ≡ [] → Acts s [] (s, if_registered has t)
registered s has t silent = quiet s (if_registered has t) (statuses-registered has t silent)

pub then-Acts :
    (s : Phone) (ms ms' : List ℕ) (r r' : Phone × List Told)
    → Acts s ms r
    → Acts r.0 ms' r'
    → Acts s (ms ++ ms') (r'.0, r.1 ++ r'.1)
then-Acts s ms ms' r r' ((a, asks, runs), type, cdma) ((b, asks', runs'), type', cdma') = (
  (
    a ++ b,
    rw (asked-append a b, asks, asks') refl,
    rw (run_actions-append a b s.radio, runs, runs', statuses-append r.1 r'.1) refl,
  ),
  type' ∙ type,
  cdma' ∙ cdma,
)

abbrev Fine : {P : Type 0} → Phone → Handled P → Type 0
Fine s h = Acts s [] (h.0, h.1)

-- Where something is decoded, or an exception comes.
pub decoded-case :
    {P A : Type 0} (Q : Handled P → Type 0) (o : Option A) (f : A → Handled P) (w : Handled P)
    → Q w
    → ((a : A) → Q (f a))
    → Q (elim o [ none ↦ w | some a ↦ f a ])
decoded-case Q none f w wrong_fine fine = wrong_fine
decoded-case Q (some a) f w wrong_fine fine = fine a

module _ {P : Type 0} (parcel : Parcel P) (super : Super P) where
  radio_changed-Fine : (s : Phone) (p : P) → Fine s (radio_changed parcel super s p)
  unfolding radio_changed
  radio_changed-Fine s p =
      let state = (parcel.read_int p).0 in
      let silent = statuses-icc (state == 4) s.has_icc_status_changed in
      decoded-case (λ h. Fine s h) (super.radio_state_from_int (bonus_state state)) _ _
        (quiet s _ silent) (λ st. switched s st _ silent)

  connected-Fine : (s : Phone) (ret : List ℕ) → Fine s (connected parcel super s ret)
  unfolding connected send_prefered_networktype statuses run_actions asked
  connected-Fine s [] = (([], refl, refl), refl, refl)
  connected-Fine s (version ∷ rest) = (([], refl, refl), refl, refl)

  handled-Fine : (r : Response) (s : Phone) (p : P) → Fine s (handled parcel super r s p)
  unfolding handled statuses
  handled-Fine radio_state_changed s p =
      decoded-case (λ h. Fine s h) (super.response_void p) _ _ (quiet s [] refl)
        (λ p'. radio_changed-Fine s p')
  handled-Fine new_broadcast_sms s p =
      decoded-case (λ h. Fine s h) (super.response_string p) _ _ (quiet s [] refl)
        (λ r. registered s s.has_gsm_broadcast_sms (broadcast_sms r.0) refl)
  handled-Fine ril_connected s p =
      decoded-case (λ h. Fine s h) (super.response_ints p) _ _ (quiet s [] refl)
        (λ r. connected-Fine s r.0)
  handled-Fine stk_send_sms_result s p =
      decoded-case (λ h. Fine s h) (super.response_ints p) _ _ (quiet s [] refl)
        (λ r. registered s s.has_cat_send_sms_result (cat_send_sms_result r.0) refl)
  handled-Fine am s p =
      decoded-case (λ h. Fine s h) (super.response_string p) _ _ (quiet s [] refl)
        (λ r. quiet s (execute r.0 ∷ []) refl)
  handled-Fine dun_pin_control_signal s p =
      decoded-case (λ h. Fine s h) (super.response_void p) _ _ (quiet s [] refl)
        (λ r. quiet s [] refl)
  handled-Fine data_suspend_resume s p =
      decoded-case (λ h. Fine s h) (super.response_ints p) _ _ (quiet s [] refl)
        (λ r. quiet s [] refl)
  handled-Fine stk_call_control_result s p =
      decoded-case (λ h. Fine s h) (super.response_void p) _ _ (quiet s [] refl)
        (λ r. quiet s [] refl)
  handled-Fine two_mic_state s p =
      decoded-case (λ h. Fine s h) (super.response_ints p) _ _ (quiet s [] refl)
        (λ r. quiet s [] refl)

  pub process_unsolicited-Fine : (s : Phone) (p : P) → Fine s (process_unsolicited parcel super s p)
  unfolding process_unsolicited statuses
  process_unsolicited-Fine s p =
      let read = parcel.read_int p in
      decoded-case (λ h. Fine s h) (response_of parcel super read.0) _ _ (quiet s [] refl)
        (λ r. handled-Fine r s read.1)
