-- ===== src/Ril/Steps.antt =====
-- What each operation on a handler leaves of it, and where a call goes.
use android_device_samsung_c.Base.{
  ℕ, ◌≡◌, refl, ◌∙◌, ap, ==_refl, [], ◌∷◌, ◌++◌, Bool, true, false, Option, none, some, ◌⊎◌, inl,
  inr, if◌then◌else◌, ◌>>=◌,
}
use android_device_samsung_c.Ril.{
  Ril, need_reconnect, started, Handler, register, unregister, set_data, request, answer, to_caller,
  to_handler, Network, Done, put, has_network_type_changed, set_prefered_network_type,
  start_listening, stop_listening, send_prefered_networktype, on_receive, handle_message,
  make_handler, set_preferred_network_type, message_set_preferred_network_type,
}

-- The handler at i is h; the class holds the handler k, and p as preferred type.
abbrev pub Has : ℕ → Handler → (k : Option ℕ) → (p : ℕ) → Ril → Type 0
Has i h k p s = (s.handlers i ≡ h) × (s.handler ≡ k) × (s.preferred_network_type ≡ p)

abbrev pub state : (desired : ℕ) (is_registered : Bool) (response : Option ℕ) → Handler
state d b r = record { desired_network_type = d; is_registered = b; networktype_response = r }

put-same : (i : ℕ) (h : Handler) (s : Ril) → (put i h s).handlers i ≡ h
unfolding put
put-same i h s = rw (==_refl i) refl

start-free :
    (i : ℕ) (s : Ril)
    → (s.handlers i).is_registered ≡ false
    → start_listening i s
      ≡ (put i (record (s.handlers i) { is_registered = true }) s, register i ∷ [])
unfolding start_listening
start-free i s h =
    ap
      (λ b.
        if b
        then (s, [])
        else (put i (record (s.handlers i) { is_registered = true }) s, register i ∷ []))
      h

stop-registered :
    (i : ℕ) (s : Ril)
    → (s.handlers i).is_registered ≡ true
    → stop_listening i s
      ≡ (put i (record (s.handlers i) { is_registered = false }) s, unregister i ∷ [])
unfolding stop_listening
stop-registered i s h =
    ap
      (λ b.
        if b
        then (put i (record (s.handlers i) { is_registered = false }) s, unregister i ∷ [])
        else (s, []))
      h

module _ (i : ℕ) (k : Option ℕ) where
  pub set-Has :
      (t p d : ℕ) (m : Option ℕ) (r : Option ℕ) (s : Ril)
      → Has i (state d false r) k p s
      → (s' : Ril) × (set_prefered_network_type i t m s ≡ (s', register i ∷ set_data false ∷ []))
        × Has i (state t true m) k p s'
  unfolding set_prefered_network_type start_listening put
  set-Has t p d m r s (h, ek, ep) =
      let s1 =
        put i (record (s.handlers i) { desired_network_type = t; networktype_response = m }) s in
      let e1 : s1.handlers i ≡ state t false m =
        put-same i _ s
        ∙ ap (λ (h : Handler). record h { desired_network_type = t; networktype_response = m }) h in
      (
        put i (record (s1.handlers i) { is_registered = true }) s1,
        ap (λ d. (d.0, d.1 ++ (set_data false ∷ [])))
            (start-free i s1 (ap (λ (h : Handler). h.is_registered) e1)),
        (put-same i _ s1 ∙ ap (λ (h : Handler). record h { is_registered = true }) e1, ek, ep),
      )

  after_stop : Done → Done
  after_stop (s, stopped) =
      let (s, sent) =
        send_prefered_networktype (s.handlers i).desired_network_type (to_handler i) s in
      (put i (record (s.handlers i) { desired_network_type = 4294967295 }) s, stopped ++ sent)

  pub receive-Has :
      (t p : ℕ) (m : Option ℕ) (s : Ril)
      → Has i (state t true m) k p s
      → (s' : Ril) × (on_receive true true i s ≡ (s', unregister i ∷ request t (to_handler i) ∷ []))
        × Has i (state 4294967295 false m) k t s'
  unfolding on_receive stop_listening send_prefered_networktype put after_stop
  receive-Has t p m s (h, ek, ep) =
      let s1 = put i (record (s.handlers i) { is_registered = false }) s in
      let e1 : s1.handlers i ≡ state t false m =
        put-same i _ s ∙ ap (λ (h : Handler). record h { is_registered = false }) h in
      let et = ap (λ (h : Handler). h.desired_network_type) e1 in
      let s2 = record s1 { preferred_network_type = (s1.handlers i).desired_network_type } in
      (
        put i (record (s1.handlers i) { desired_network_type = 4294967295 }) s2,
        ap after_stop (stop-registered i s (ap (λ (h : Handler). h.is_registered) h))
            ∙ ap
                (λ t. (
                  put i (record (s1.handlers i) { desired_network_type = 4294967295 }) s2,
                  unregister i ∷ request t (to_handler i) ∷ [],
                ))
                et,
        (
          put-same i _ s2 ∙ ap (λ (h : Handler). record h { desired_network_type = 4294967295 }) e1,
          ek,
          et,
        ),
      )

  pub handle-Has :
      (d p m : ℕ) (b : Bool) (s : Ril)
      → Has i (state d b (some m)) k p s
      → (s' : Ril) × (handle_message message_set_preferred_network_type i s
          ≡ some (s', set_data true ∷ answer m ∷ []))
        × Has i (state d b none) k p s'
  unfolding handle_message put
  handle-Has d p m b s (h, ek, ep) =
      let s' = put i (record (s.handlers i) { networktype_response = none }) s in
      (
        s',
        ap (λ r. r >>= λ m. some (s', set_data true ∷ answer m ∷ []))
            (ap (λ (h : Handler). h.networktype_response) h),
        (put-same i _ s ∙ ap (λ (h : Handler). record h { networktype_response = none }) h, ek, ep),
      )

-- No request is under way: the receiver of the handler that the class holds, if any, is not registered.
pub IsIdle : Ril → Type 0
IsIdle s =
    (s.handler ≡ none) ⊎ ((i : ℕ) × (s.handler ≡ some i) × ((s.handlers i).is_registered ≡ false))

pub started-IsIdle : (network_mode : ℕ) → IsIdle (started network_mode)
unfolding IsIdle started
started-IsIdle p = inl refl

pub none-IsIdle : (s : Ril) → s.handler ≡ none → IsIdle s
unfolding IsIdle
none-IsIdle s h = inl h

pub IsIdle-preferred :
    (s : Ril) (n : ℕ) → IsIdle s → IsIdle (record s { preferred_network_type = n })
unfolding IsIdle
IsIdle-preferred s n idle = idle

pub Has-IsIdle :
    (i t p : ℕ) (r : Option ℕ) (s : Ril) → Has i (state t false r) (some i) p s → IsIdle s
unfolding IsIdle
Has-IsIdle i t p r s (h, ek, ep) = inr (i, ek, ap (λ (h : Handler). h.is_registered) h)

made :
    (s : Ril)
    → IsIdle s
    → (i d : ℕ) × (r : Option ℕ) × Has i
        (state d false r)
        (some i)
        s.preferred_network_type
        (make_handler true s)
unfolding make_handler IsIdle put
made s (inl e) = (s.created, 0, none, rw e (put-same s.created (state 0 false none) s, refl, refl))
made s (inr (i, e, idle)) = (
  i,
  (s.handlers i).desired_network_type,
  (s.handlers i).networktype_response,
  rw e (
    ap (λ b. state (s.handlers i).desired_network_type b (s.handlers i).networktype_response) idle,
    refl,
    refl,
  ),
)

pub call-off :
    (n : Network) (t : ℕ) (r : Option ℕ) (s : Ril)
    → need_reconnect n ≡ false
    → set_preferred_network_type n t r s
      ≡ some (record s { handler = none; preferred_network_type = t }, request t (to_caller r) ∷ [])
unfolding set_preferred_network_type send_prefered_networktype
call-off n t r s off = rw off refl

pub call-on :
    (n : Network) (t : ℕ) (r : Option ℕ) (s : Ril)
    → IsIdle s
    → need_reconnect n ≡ true
    → n.looper ≡ true
    → has_network_type_changed n.network_class t ≡ some true
    → (i : ℕ) × (s' : Ril) × (set_preferred_network_type n t r s
        ≡ some (s', register i ∷ set_data false ∷ []))
      × Has i (state t true r) (some i) s.preferred_network_type s'
unfolding set_preferred_network_type
call-on n t r s idle on looper changed =
    let (i, d, r', has) = made s idle in
    let (s', e, has') =
      set-Has i (some i) t s.preferred_network_type d r r' (make_handler true s) has in
    (
      i,
      s',
      rw (on, looper, changed)
          (ap (λ k. k >>= λ i. some (set_prefered_network_type i t r (make_handler true s))) has.1
            ∙ ap some e),
      has',
    )
