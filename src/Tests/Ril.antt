-- ===== src/Tests/Ril.antt =====
-- The RIL class on small inputs.
use android_device_samsung_c.Base.{ℕ, ◌≡◌, refl, List, [], ◌∷◌, true, false, some, none, inl, inr}
use android_device_samsung_c.Ril.{
  Ril, need_reconnect, Effect, register, unregister, set_data, request, answer, to_caller,
  to_handler, Network, has_network_type_changed, started, on_receive, handle_message,
  set_preferred_network_type, message_set_preferred_network_type,
}
use android_device_samsung_c.Ril.Switch.{
  Call, serve_all, told, answered, is_careful, last_type, serve_all-served,
}
use android_device_samsung_c.Ril.Steps.{IsIdle, started-IsIdle}
use android_device_samsung_c.Ril.Overlap.{overtaken}
use android_device_samsung_c.Ril.SimStatus.{
  other_state, radio_on, Action, ask, switch_to, act, get_icc_card_status, switch_to_radio_state,
  ask_pending, run_actions,
}

abbrev connected : Network
connected = record {
  active = some (record { is_mobile = true; is_connected = true });
  mobile_data_enabled = true;
  looper = true;
  network_class = some 2;
}

abbrev unconnected : Network
unconnected = record connected { mobile_data_enabled = false }

abbrev first : Call
first = record { network = connected; network_type = 1; message = 71 }

abbrev second : Call
second = record { network = unconnected; network_type = 3; message = 72 }

reconnects : need_reconnect connected ≡ true
unfolding need_reconnect
reconnects = refl

unconnected_sends : need_reconnect unconnected ≡ false
unfolding need_reconnect
unconnected_sends = refl

changed : has_network_type_changed (some 2) 1 ≡ some true
unfolding has_network_type_changed
changed = refl

abbrev three_calls : List Call
three_calls = first ∷ second ∷ first ∷ []

serve_all-served_example :
    (s : Ril) × (e : List Effect) × (serve_all three_calls (started 0) ≡ some (s, e))
    × (told e ≡ 1 ∷ 3 ∷ 1 ∷ [])
    × (answered e ≡ 71 ∷ 72 ∷ 71 ∷ [])
    × (is_careful true e ≡ true)
    × (s.preferred_network_type ≡ 1)
    × IsIdle s
unfolding last_type started
serve_all-served_example = serve_all-served three_calls (started 0) (started-IsIdle 0) (
  inr (reconnects, refl, changed),
  (inl unconnected_sends, (inr (reconnects, refl, changed), record {})),
)

overtaken_example :
    (i : ℕ) × (s1 : Ril) × (set_preferred_network_type connected 1 (some 71) (started 0)
      ≡ some (s1, register i ∷ set_data false ∷ []))
    × (s2 : Ril) × (set_preferred_network_type unconnected 3 (some 72) s1
        ≡ some (s2, request 3 (to_caller (some 72)) ∷ []))
    × (s3 : Ril) × (on_receive true true i s2 ≡ (s3, unregister i ∷ request 1 (to_handler i) ∷ []))
    × (s4 : Ril) × (handle_message message_set_preferred_network_type i s3
        ≡ some (s4, set_data true ∷ answer 71 ∷ []))
    × (s4.preferred_network_type ≡ 1)
overtaken_example =
    overtaken first second (started 0) (started-IsIdle 0) reconnects refl changed unconnected_sends

-- Two requests with the radio not on, of which the second one is passed on.
abbrev asked_twice : List Action
asked_twice = ask 81 ∷ ask 82 ∷ switch_to radio_on ∷ ask 83 ∷ []

twice :
    run_actions asked_twice (record { state = other_state 0; pending_get_sim_status = none })
    ≡ (record { state = radio_on; pending_get_sim_status = none }, 82 ∷ 83 ∷ [])
unfolding run_actions act get_icc_card_status switch_to_radio_state ask_pending
twice = refl
