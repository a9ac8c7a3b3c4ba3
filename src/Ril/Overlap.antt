-- ===== src/Ril/Overlap.antt =====
-- A request to set the preferred network type that comes while another waits for the data
-- connection to be lost.
use android_device_samsung_c.Base.{ℕ, ◌≡◌, refl, [], ◌∷◌, true, false, none, some}
use android_device_samsung_c.Ril.{
  Ril, need_reconnect, register, unregister, set_data, request, answer, to_caller, to_handler,
  has_network_type_changed, on_receive, handle_message, set_preferred_network_type,
  message_set_preferred_network_type,
}
use android_device_samsung_c.Ril.Switch.{Call}
use android_device_samsung_c.Ril.Steps.{IsIdle, call-on, call-off, receive-Has, handle-Has}

-- A call c that turns the data connection off, with no request under way before it, and a call c2
-- that finds it already off, but comes before its loss is broadcast: neither fails, and c2's type
-- goes to the modem at once. The broadcast then still reaches the handler of c, which the class has
-- dropped; it tells the modem c's type behind that of c2, and its answer reaches c's caller with
-- data on again. So the earlier type is the preferred one at last.
pub overtaken :
    (c c2 : Call) (s : Ril)
    → IsIdle s
    → need_reconnect c.network ≡ true
    → c.network.looper ≡ true
    → has_network_type_changed c.network.network_class c.network_type ≡ some true
    → need_reconnect c2.network ≡ false
    → (i : ℕ) × (s1 : Ril) × (set_preferred_network_type c.network c.network_type (some c.message) s
        ≡ some (s1, register i ∷ set_data false ∷ []))
      × (s2 : Ril) × (set_preferred_network_type c2.network c2.network_type (some c2.message) s1
          ≡ some (s2, request c2.network_type (to_caller (some c2.message)) ∷ []))
      × (s3 : Ril) × (on_receive true true i s2
          ≡ (s3, unregister i ∷ request c.network_type (to_handler i) ∷ []))
      × (s4 : Ril) × (handle_message message_set_preferred_network_type i s3
          ≡ some (s4, set_data true ∷ answer c.message ∷ []))
      × (s4.preferred_network_type ≡ c.network_type)
overtaken c c2 s idle on looper changed off =
    let m = some c.message in
    let t = c.network_type in
    let t2 = c2.network_type in
    let (i, s1, e1, h1) = call-on c.network t m s idle on looper changed in
    let s2 = record s1 { handler = none; preferred_network_type = t2 } in
    let (s3, e3, h3) = receive-Has i none t t2 m s2 (h1.0, refl, refl) in
    let (s4, e4, h4) = handle-Has i none 4294967295 t c.message false s3 h3 in
    (i, s1, e1, s2, call-off c2.network t2 (some c2.message) s1 off, s3, e3, s4, e4, h4.2)
