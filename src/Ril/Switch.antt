-- ===== src/Ril/Switch.antt =====
-- Requests to set the preferred network type, one behind the other: the next one comes when the one
-- before is answered.
use android_device_samsung_c.Base.{
  ℕ, ◌≡◌, refl, ◌∙◌, ap, List, [], ◌∷◌, ◌++◌, map, Bool, true, false, ◌&&◌, not, Option, none, some,
  ◌⊎◌, inl, inr, ◌>>=◌, All,
}
use android_device_samsung_c.Ril.Steps.{
  Has, state, IsIdle, Has-IsIdle, none-IsIdle, receive-Has, handle-Has, call-off, call-on,
}
use android_device_samsung_c.Ril.{
  Ril, need_reconnect, Effect, register, unregister, set_data, request, answer, to_caller,
  to_handler, Network, Done, has_network_type_changed, on_receive, handle_message,
  set_preferred_network_type, message_set_preferred_network_type,
}

pub record Call : Type 0 where
  pub network : Network
  pub network_type : ℕ
  pub message : ℕ

-- Behind a call: the loss of the connection, and the modem's answer to the handler, if there is one.
unfoldable pub complete : (handler : Option ℕ) → Ril → (called : List Effect) → Option Done
complete none s called = some (s, called)
complete (some i) s called = do
  let (s, received) = on_receive true true i s
  (s, handled) ← handle_message message_set_preferred_network_type i s
  some (s, called ++ (received ++ handled))

unfoldable pub serve : Call → Ril → Option Done
serve c s = do
  (s, called) ← set_preferred_network_type c.network c.network_type (some c.message) s
  complete s.handler s called

unfoldable pub serve_all : List Call → Ril → Option Done
serve_all [] s = some (s, [])
serve_all (c ∷ calls) s = do
  (s, first) ← serve c s
  (s, rest) ← serve_all calls s
  some (s, first ++ rest)

-- There is no data connection; or there is, the thread has a looper, and the type is another one
-- than that in use.
abbrev pub IsServable : Call → Type 0
IsServable c =
    (need_reconnect c.network ≡ false)
    ⊎ ((need_reconnect c.network ≡ true)
        × (c.network.looper ≡ true)
        × (has_network_type_changed c.network.network_class c.network_type ≡ some true))

-- The types that the modem is told, in order.
unfoldable pub told : List Effect → List ℕ
told [] = []
told (request t reply ∷ es) = t ∷ told es
told (_ ∷ es) = told es

-- The messages that are answered, by the handler or by the modem directly.
unfoldable pub answered : List Effect → List ℕ
answered [] = []
answered (answer m ∷ es) = m ∷ answered es
answered (request t (to_caller (some m)) ∷ es) = m ∷ answered es
answered (_ ∷ es) = answered es

-- Mobile data is turned off before, and on behind, each type that goes to the modem by a handler;
-- and it is on at the end.
unfoldable pub is_careful : (data_on : Bool) → List Effect → Bool
is_careful on [] = on
is_careful on (set_data b ∷ es) = is_careful b es
is_careful on (request t (to_handler i) ∷ es) = not on && is_careful on es
is_careful on (_ ∷ es) = is_careful on es

-- What a call comes to.
pub record IsServed (c : Call) (s : Ril) (effects : List Effect) : Type 0 where
  pub idle : IsIdle s
  pub preferred : s.preferred_network_type ≡ c.network_type
  pub told : told effects ≡ c.network_type ∷ []
  pub answered : answered effects ≡ c.message ∷ []
  pub careful : (es : List Effect) → is_careful true (effects ++ es) ≡ is_careful true es

complete-Has :
    (i t p m : ℕ) (s : Ril) (called : List Effect)
    → Has i (state t true (some m)) (some i) p s
    → (s' : Ril) × (complete (some i) s called
        ≡ some (
          s',
          called ++ (unregister i ∷ request t (to_handler i) ∷ set_data true ∷ answer m ∷ []),
        ))
      × Has i (state 4294967295 false none) (some i) t s'
unfolding complete
complete-Has i t p m s called h =
    let (s2, e2, h2) = receive-Has i (some i) t p (some m) s h in
    let (s3, e3, h3) = handle-Has i (some i) 4294967295 t m false s2 h2 in
    (s3, rw (e2, e3) refl, h3)

pub serve-IsServed :
    (c : Call) (s : Ril)
    → IsIdle s
    → IsServable c
    → (s' : Ril) × (e : List Effect) × (serve c s ≡ some (s', e)) × IsServed c s' e
unfolding serve complete told answered is_careful
serve-IsServed c s idle (inl off) = (
  record s { handler = none; preferred_network_type = c.network_type },
  request c.network_type (to_caller (some c.message)) ∷ [],
  rw (call-off c.network c.network_type (some c.message) s off) refl,
  record {
    idle = none-IsIdle (record s { handler = none; preferred_network_type = c.network_type }) refl;
    preferred = refl;
    told = refl;
    answered = refl;
    careful = λ es. refl;
  },
)
serve-IsServed c s idle (inr (on, looper, changed)) =
    let m = c.message in
    let t = c.network_type in
    let (i, s1, e1, h1) = call-on c.network t (some m) s idle on looper changed in
    let called = register i ∷ set_data false ∷ [] in
    let (s2, e2, h2) = complete-Has i t s.preferred_network_type m s1 called h1 in
    (
      s2,
      called ++ (unregister i ∷ request t (to_handler i) ∷ set_data true ∷ answer m ∷ []),
      ap (λ d. d >>= λ d. complete d.0.handler d.0 d.1) e1
          ∙ ap (λ k. complete k s1 called) h1.1
          ∙ e2,
      record {
        idle = Has-IsIdle i 4294967295 t none s2 h2;
        preferred = h2.2;
        told = refl;
        answered = refl;
        careful = λ es. refl;
      },
    )

told-append : (e e' : List Effect) → told (e ++ e') ≡ told e ++ told e'
unfolding told
told-append [] e' = refl
told-append (register i ∷ e) e' = told-append e e'
told-append (unregister i ∷ e) e' = told-append e e'
told-append (set_data b ∷ e) e' = told-append e e'
told-append (request t reply ∷ e) e' = ap (λ ts. t ∷ ts) (told-append e e')
told-append (answer m ∷ e) e' = told-append e e'

answered-append : (e e' : List Effect) → answered (e ++ e') ≡ answered e ++ answered e'
unfolding answered
answered-append [] e' = refl
answered-append (register i ∷ e) e' = answered-append e e'
answered-append (unregister i ∷ e) e' = answered-append e e'
answered-append (set_data b ∷ e) e' = answered-append e e'
answered-append (request t (to_caller none) ∷ e) e' = answered-append e e'
answered-append (request t (to_caller (some m)) ∷ e) e' = ap (λ ms. m ∷ ms) (answered-append e e')
answered-append (request t (to_handler i) ∷ e) e' = answered-append e e'
answered-append (answer m ∷ e) e' = ap (λ ms. m ∷ ms) (answered-append e e')

unfoldable pub last_type : ℕ → List Call → ℕ
last_type p [] = p
last_type p (c ∷ calls) = last_type c.network_type calls

-- From a state in which no request is under way, calls of setPreferredNetworkType one behind the
-- other, each with no data connection, or with one, a looper and a type that is not in use, never
-- fail, however many: the modem is told their types, each once and in order, and their messages are
-- answered, each once and in order; a type that a handler sends goes out while mobile data is off,
-- and data is on again in the end; the last type is the preferred one, and no request is under way.
pub serve_all-served :
    (calls : List Call) (s : Ril)
    → IsIdle s
    → All IsServable calls
    → (s' : Ril) × (e : List Effect) × (serve_all calls s ≡ some (s', e))
      × (told e ≡ map (λ c. c.network_type) calls)
      × (answered e ≡ map (λ c. c.message) calls)
      × (is_careful true e ≡ true)
      × (s'.preferred_network_type ≡ last_type s.preferred_network_type calls)
      × IsIdle s'
unfolding serve_all told answered is_careful last_type
serve_all-served [] s idle ok = (s, [], refl, refl, refl, refl, refl, idle)
serve_all-served (c ∷ calls) s idle ok =
    let (s1, e1, r1, v) = serve-IsServed c s idle ok.0 in
    let (s2, e2, r2, types, messages, careful, last, idle2) =
      serve_all-served calls s1 v.idle ok.1 in
    (
      s2,
      e1 ++ e2,
      rw (r1, r2) refl,
      told-append e1 e2 ∙ ap (λ ts. ts ++ told e2) v.told ∙ ap (λ ts. c.network_type ∷ ts) types,
      answered-append e1 e2
          ∙ ap (λ ms. ms ++ answered e2) v.answered
          ∙ ap (λ ms. c.message ∷ ms) messages,
      v.careful e2 ∙ careful,
      last ∙ ap (λ p. last_type p calls) v.preferred,
      idle2,
    )
