-- ===== src/Ril/SimStatus.antt =====
-- The status of the SIM card: getIccCardStatus and switchToRadioState of
-- configs/ril/SamsungU8500RIL.java, which hold a request back while the radio is not on. Of the
-- superclass, switchToRadioState sets mState to the new state, and getIccCardStatus asks the modem: a
-- result lists the messages that it is called with, in order. A message is a number.
use android_device_samsung_c.Base.{
  ℕ, ◌≡◌, refl, ap, List, [], ◌∷◌, ◌++◌, Option, none, some, Option-cases, inl, inr, ◌⊎◌, ◌≢◌, sym,
  ◌∙◌, arith,
}

-- RADIO_ON, or another state of the framework's.
pub data RadioState : Type 0 where
  radio_on : RadioState
  other_state : (code : ℕ) → RadioState

pub record Radio : Type 0 where
  pub state : RadioState
  pub pending_get_sim_status : Option ℕ

unfoldable pub get_icc_card_status : (result : ℕ) → Radio → Radio × List ℕ
get_icc_card_status result s = elim s.state [
  | radio_on ↦ (s, result ∷ [])
  | other_state code ↦ (record s { pending_get_sim_status = some result }, [])
]

-- The test behind the state's change.
unfoldable pub ask_pending : RadioState → (pending : Option ℕ) → Radio × List ℕ
ask_pending radio_on (some m) = (record { state = radio_on; pending_get_sim_status = none }, m ∷ [])
ask_pending st pending = (record { state = st; pending_get_sim_status = pending }, [])

unfoldable pub switch_to_radio_state : (new_state : RadioState) → Radio → Radio × List ℕ
unfolding ask_pending
switch_to_radio_state new_state s = ask_pending new_state s.pending_get_sim_status

pub data Action : Type 0 where
  ask : (result : ℕ) → Action
  switch_to : RadioState → Action

unfoldable pub act : Action → Radio → Radio × List ℕ
unfolding get_icc_card_status switch_to_radio_state
act (ask result) s = get_icc_card_status result s
act (switch_to st) s = switch_to_radio_state st s

unfoldable pub run_actions : List Action → Radio → Radio × List ℕ
unfolding act
run_actions [] s = (s, [])
run_actions (a ∷ actions) s =
    let (s, first) = act a s in let (s, rest) = run_actions actions s in (s, first ++ rest)

-- The messages of the callers.
unfoldable pub asked : List Action → List ℕ
asked [] = []
asked (ask m ∷ actions) = m ∷ asked actions
asked (switch_to st ∷ actions) = asked actions

abbrev pub held : Option ℕ → List ℕ
held none = []
held (some m) = m ∷ []

-- The first list is the second without some of its elements.
pub data IsSubsequence : List ℕ → List ℕ → Type 0 where
  done : IsSubsequence [] []
  keep : {x : ℕ} {xs ys : List ℕ} → IsSubsequence xs ys → IsSubsequence (x ∷ xs) (x ∷ ys)
  skip : {y : ℕ} {xs ys : List ℕ} → IsSubsequence xs ys → IsSubsequence xs (y ∷ ys)

abbrev last_or : ℕ → Option ℕ → Option ℕ
last_or x none = some x
last_or x (some y) = some y

unfoldable pub last : List ℕ → Option ℕ
last [] = none
last (x ∷ xs) = last_or x (last xs)

-- Nothing is held back while the radio is on.
abbrev pub IsPrompt : Radio → Type 0
IsPrompt s = (s.pending_get_sim_status ≡ none) ⊎ (s.state ≢ radio_on)

-- What is passed on, and what is held in the end, of the messages that were held or asked.
abbrev pub Keeps : (before : List ℕ) → Radio × List ℕ → Type 0
Keeps before r =
    IsPrompt r.0
    × IsSubsequence (r.1 ++ held r.0.pending_get_sim_status) before
    × (last (r.1 ++ held r.0.pending_get_sim_status) ≡ last before)

last-skip : (x y : ℕ) (xs : List ℕ) → last (x ∷ y ∷ xs) ≡ last (y ∷ xs)
unfolding last
last-skip x y xs = elim (Option-cases (last xs)) [ inl e ↦ rw e refl | inr (z, e) ↦ rw e refl ]

-- A message takes the place of another one that is held.
replaced : (x y : ℕ) (xs : List ℕ) (r : Radio × List ℕ) → Keeps (y ∷ xs) r → Keeps (x ∷ y ∷ xs) r
replaced x y xs r (prompt, kept, e) = (prompt, skip kept, e ∙ sym (last-skip x y xs))

-- A message is passed on before the others.
passed : (m : ℕ) (xs : List ℕ) (r : Radio × List ℕ) → Keeps xs r → Keeps (m ∷ xs) (r.0, m ∷ r.1)
unfolding last
passed m xs r (prompt, kept, e) = (prompt, keep kept, ap (last_or m) e)

other :
    (code : ℕ) (p : Option ℕ)
    → IsPrompt (record { state = other_state code; pending_get_sim_status = p })
other code p = inr (λ e. ground (arith, e))

-- From a radio that is not on, with a request held or not, or that is on with none, whatever
-- requests and changes of the radio's state come: nothing is held while the radio is on; the
-- messages passed to the modem, and the one held in the end, are those that were held and asked
-- for, in order and each at most once; and the last of these is never lost.
pub run_actions-Keeps :
    (actions : List Action) (st : RadioState) (p : Option ℕ)
    → IsPrompt (record { state = st; pending_get_sim_status = p })
    → Keeps
        (held p ++ asked actions)
        (run_actions actions (record { state = st; pending_get_sim_status = p }))
unfolding run_actions asked
run_actions-Keeps [] st none prompt = (prompt, done, refl)
run_actions-Keeps [] st (some m) prompt = (prompt, keep done, refl)
run_actions-Keeps (ask m ∷ actions) radio_on none prompt =
    passed _ _ _ (run_actions-Keeps actions radio_on none prompt)
run_actions-Keeps (ask m ∷ actions) radio_on (some p) (inl e) = absurd (ground (arith, e))
run_actions-Keeps (ask m ∷ actions) radio_on (some p) (inr on) = absurd (on refl)
run_actions-Keeps (ask m ∷ actions) (other_state code) none prompt =
    run_actions-Keeps actions (other_state code) (some m) (other code (some m))
run_actions-Keeps (ask m ∷ actions) (other_state code) (some p) prompt =
    replaced _ _ _ _ (run_actions-Keeps actions (other_state code) (some m) (other code (some m)))
run_actions-Keeps (switch_to radio_on ∷ actions) st none prompt =
    run_actions-Keeps actions radio_on none (inl refl)
run_actions-Keeps (switch_to radio_on ∷ actions) st (some p) prompt =
    passed _ _ _ (run_actions-Keeps actions radio_on none (inl refl))
run_actions-Keeps (switch_to (other_state code) ∷ actions) st p prompt =
    run_actions-Keeps actions (other_state code) p (other code p)
