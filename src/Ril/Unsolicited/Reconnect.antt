-- ===== src/Ril/Unsolicited/Reconnect.antt =====
-- What processUnsolicited tells when the modem connects again, and when it reports that the radio
-- is on.
use android_device_samsung_c.Base.{
  ℕ, ◌≡◌, refl, sym, subst, ◌∙◌, ◌⊎◌, inl, inr, List, [], ◌∷◌, ◌++◌, map, false, ◌==◌, ==_refl,
  Option-cases, none, some, if◌then◌else◌,
}
use android_device_samsung_c.Ril.{Ril, request, to_caller, send_prefered_networktype}
use android_device_samsung_c.Ril.Parcel.{Parcel}
use android_device_samsung_c.Ril.SimStatus.{
  Radio, radio_on, held, switch_to_radio_state, ask_pending,
}
use android_device_samsung_c.Ril.Unsolicited.{
  Phone, icc_status_changed, ask_icc_card_status, set_radio_power, sent,
  set_cdma_subscription_source, ril_connection_changed, if_registered, returned, thrown, Response,
  ril_connected, radio_state_changed, Super, Handled, radio_changed, connected, handled,
  response_of, bonus_state, process_unsolicited, response_get_preferred_network_type,
}
use android_device_samsung_c.Ril.Unsolicited.Kept.{Input, run_inputs, run_inputs-Acts}

module _ {P : Type 0} (parcel : Parcel P) (super : Super P) where
  recognized :
      (s : Phone) (p p' : P) (n : ℕ) (r : Response)
      → parcel.read_int p ≡ (n, p')
      → response_of parcel super n ≡ some r
      → process_unsolicited parcel super s p ≡ handled parcel super r s p'
  unfolding process_unsolicited
  recognized s p p' n r reads is = rw (process_unsolicited, reads, is, reads) refl

  preferred :
      (global wcdma : ℕ) (s : Ril) (answer rest : P) (n : ℕ) (ns : List ℕ)
      → super.response_ints answer ≡ some (n ∷ ns, rest)
      → response_get_preferred_network_type parcel super global wcdma s answer ≡ (
        record s { preferred_network_type = n },
        some ((if n == global then wcdma else n) ∷ ns, rest),
      )
  unfolding response_get_preferred_network_type
  preferred global wcdma s answer rest n ns a = rw (response_get_preferred_network_type, a) refl

  -- The modem connects.
  abbrev Connects : (n cdma : ℕ) (versions : List ℕ) → Handled P → Type 0
  Connects n cdma versions h =
      (h.1
        ≡ (set_radio_power false
            ∷ sent (request n (to_caller none))
            ∷ set_cdma_subscription_source cdma
            ∷ [])
          ++ (elim versions [ [] ↦ [] | version ∷ more ↦ ril_connection_changed version ∷ [] ]))
      × (h.2 ≡ (elim versions [ [] ↦ thrown | version ∷ more ↦ returned ]))

  connected-Connects :
      (s : Phone) (versions : List ℕ)
      → Connects s.ril.preferred_network_type s.cdma_subscription versions
          (connected parcel super s versions)
  unfolding connected send_prefered_networktype
  connected-Connects s [] = (refl, refl)
  connected-Connects s (version ∷ more) = (refl, refl)

  handled-connected :
      (s : Phone) (payload end : P) (versions : List ℕ)
      → super.response_ints payload ≡ some (versions, end)
      → handled parcel super ril_connected s payload ≡ connected parcel super s versions
  unfolding handled
  handled-connected s payload end versions v = rw (handled, v) refl

  connects :
      (s : Phone) (n cdma : ℕ) (message payload end : P) (versions : List ℕ)
      → s.ril.preferred_network_type ≡ n
      → s.cdma_subscription ≡ cdma
      → parcel.read_int message ≡ (super.unsol_ril_connected, payload)
      → response_of parcel super super.unsol_ril_connected ≡ some ril_connected
      → super.response_ints payload ≡ some (versions, end)
      → Connects n cdma versions (process_unsolicited parcel super s message)
  connects s n cdma message payload end versions type same m r v =
      let e =
        recognized s message payload super.unsol_ril_connected ril_connected m r
        ∙ handled-connected s payload end versions v in
      subst (λ h. Connects n cdma versions h) (sym e)
        (subst (λ k. Connects k cdma versions (connected parcel super s versions)) type
          (subst
            (λ k.
              Connects s.ril.preferred_network_type k versions (connected parcel super s versions))
            same (connected-Connects s versions)))

  -- A phone hears from the modem which network type it prefers, n; then come any messages from the
  -- modem and any requests for the status of the SIM card; then the modem connects again. Then it
  -- is told to turn the radio off, to prefer n again, and the CDMA subscription, in this order,
  -- even where the caller was told another type than n; and its version is passed on, unless the
  -- message lacks it: then an exception leaves the handler behind the requests.
  pub process_unsolicited-reconnect :
      (nt_mode_global nt_mode_wcdma_pref : ℕ) (s : Phone) (inputs : List (Input P)) (n : ℕ)
      (ns : List ℕ) (answer rest message payload end : P) (versions : List ℕ)
      → super.response_ints answer ≡ some (n ∷ ns, rest)
      → parcel.read_int message ≡ (super.unsol_ril_connected, payload)
      → response_of parcel super super.unsol_ril_connected ≡ some ril_connected
      → super.response_ints payload ≡ some (versions, end)
      → let (ril, ret) =
          response_get_preferred_network_type parcel super nt_mode_global nt_mode_wcdma_pref s.ril
            answer in
        let (s1, before) = run_inputs parcel super inputs (record s { ril = ril }) in
        let (s2, told, ending) = process_unsolicited parcel super s1 message in
        (ret ≡ some ((if n == nt_mode_global then nt_mode_wcdma_pref else n) ∷ ns, rest))
        × (told
            ≡ (set_radio_power false
                ∷ sent (request n (to_caller none))
                ∷ set_cdma_subscription_source s.cdma_subscription
                ∷ [])
              ++ (elim versions [ [] ↦ [] | version ∷ more ↦ ril_connection_changed version ∷ [] ]))
        × (ending ≡ (elim versions [ [] ↦ thrown | version ∷ more ↦ returned ]))
  process_unsolicited-reconnect global wcdma s inputs n ns answer rest message payload end versions
        a m r v =
      let s0 = record s { ril = record s.ril { preferred_network_type = n } } in
      let (acts, type, cdma) = run_inputs-Acts parcel super inputs s0 in
      let (told, ending) =
        connects (run_inputs parcel super inputs s0).0 n s.cdma_subscription message payload end
          versions type cdma m r v in
      rw (preferred global wcdma s.ril answer rest n ns a) (refl, told, ending)

  switched_on :
      (r : Radio)
      → switch_to_radio_state radio_on r ≡ (
        record { state = radio_on; pending_get_sim_status = none },
        held r.pending_get_sim_status,
      )
  unfolding switch_to_radio_state ask_pending
  switched_on r = elim (Option-cases r.pending_get_sim_status) [
    | inl e ↦ rw e refl
    | inr (m, e) ↦ rw e refl
  ]

  bonus : (state : ℕ) → (state ≡ 3) ⊎ (state ≡ 4) → bonus_state state ≡ 10
  bonus state (inl three) = rw three refl
  bonus state (inr four) = rw four refl

  radio_changed-on :
      (s : Phone) (p rest : P) (state : ℕ)
      → (state ≡ 3) ⊎ (state ≡ 4)
      → parcel.read_int p ≡ (state, rest)
      → super.radio_state_from_int 10 ≡ some radio_on
      → radio_changed parcel super s p ≡ (
        record s { radio = record { state = radio_on; pending_get_sim_status = none } },
        (if state == 4 then if_registered s.has_icc_status_changed icc_status_changed else [])
            ++ map ask_icc_card_status (held s.radio.pending_get_sim_status),
        returned,
      )
  unfolding radio_changed
  radio_changed-on s p rest state on reads ten =
      rw (radio_changed, reads, bonus state on, ten, switched_on s.radio, reads) refl

  -- A message that the radio is on, with the number 3 or 4 that the modem uses for it: afterwards
  -- the radio is on, and a request for the status of the SIM card that was held is passed to the
  -- modem, and no longer held; before it the framework is told that the card's status changed
  -- exactly if the number is 4 and there is a registrant.
  pub process_unsolicited-radio_on :
      (s : Phone) (message payload end rest : P) (state : ℕ)
      → (state ≡ 3) ⊎ (state ≡ 4)
      → parcel.read_int message ≡ (super.unsol_response_radio_state_changed, payload)
      → super.response_void payload ≡ some end
      → parcel.read_int end ≡ (state, rest)
      → super.radio_state_from_int 10 ≡ some radio_on
      → process_unsolicited parcel super s message ≡ (
        record s { radio = record { state = radio_on; pending_get_sim_status = none } },
        (if state == 4 then if_registered s.has_icc_status_changed icc_status_changed else [])
            ++ map ask_icc_card_status (held s.radio.pending_get_sim_status),
        returned,
      )
  unfolding handled response_of
  process_unsolicited-radio_on s message payload end rest state on m v reads ten =
      recognized s message payload super.unsol_response_radio_state_changed radio_state_changed m
        (rw (==_refl super.unsol_response_radio_state_changed) refl)
      ∙ (rw (handled, v) refl ∙ radio_changed-on s end rest state on reads ten)
