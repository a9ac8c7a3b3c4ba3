-- ===== src/Strstr/First.antt =====
-- strstr finds the first occurrence, or says that there is none.
use android_device_samsung_c.Base.{
  ℕ, zero, suc, ◌+◌, ◌<◌, ◌≡◌, refl, ◌≢◌, sym, inl, inr, ◌↔◌, ◌⊎◌, Option, none, some, List, [],
  ◌∷◌, ◌++◌, true, Bool-cases, ◌==◌, ==→≡, ==→≢, length, arith,
}
use android_device_samsung_c.Strstr.{strncmp, is_zero, scan, strstr}

-- The string has no zero byte.
abbrev pub IsCString : List ℕ → Type 0
IsCString [] = Unit {0}
IsCString (x ∷ xs) = (x ≢ 0) × IsCString xs

abbrev pub Begins : List ℕ → List ℕ → Type 0
Begins find s = (post : List ℕ) × (find ++ post ≡ s)

-- `find` stands in `s` at offset `i`.
abbrev pub OccursAt : List ℕ → List ℕ → ℕ → Type 0
OccursAt find s zero = Begins find s
OccursAt find [] (suc i) = ⊥
OccursAt find (x ∷ s) (suc i) = OccursAt find s i

-- The answer is the first offset at which `find` stands in `s`, or NULL if there is none.
abbrev pub IsFirst : List ℕ → List ℕ → Option ℕ → Type 0
IsFirst find s none = (i : ℕ) → ¬ OccursAt find s i
IsFirst find s (some i) = OccursAt find s i × ((j : ℕ) → j < i → ¬ OccursAt find s j)

head_eq : (x y : ℕ) (s t : List ℕ) → x ∷ s ≡ y ∷ t → (x ≡ y) × (s ≡ t)
head_eq x y s t e = (cc, cc)

nil_ne : {y : ℕ} {t : List ℕ} → y ∷ t ≢ []
nil_ne e = cc

strncmp-Begins :
    (s find : List ℕ)
    → IsCString find
    → (is_zero (strncmp s find (length find)) ≡ true) ↔ Begins find s
unfolding strncmp
strncmp-Begins s [] c = (λ _. (s, refl), λ _. refl)
strncmp-Begins [] (y ∷ find) c = (λ e. absurd (ground arith), λ b. absurd (nil_ne b.1))
strncmp-Begins (x ∷ s) (y ∷ find) c = elim (Bool-cases (x == y)) [
  | inl same ↦
      let e = ==→≡ x y same in
      let (fwd, back) = strncmp-Begins s find c.1 in
      rw same (
        λ h. let (post, p) = fwd h in (post, cc),
        λ b. back (b.0, (head_eq y x (find ++ b.0) s b.1).1),
      )
  | inr differ ↦
      let ne = ==→≢ x y differ in
      rw differ
        (λ h. absurd (ground arith), λ b. absurd (ne (sym (head_eq y x (find ++ b.0) s b.1).0)))
]

-- The search from offset `i`, whose answer is counted from there.
abbrev IsFirstFrom : List ℕ → List ℕ → ℕ → Option ℕ → Type 0
IsFirstFrom find s i none = (j : ℕ) → ¬ OccursAt find s j
IsFirstFrom find s i (some k) =
    (j : ℕ) × (k ≡ i + j) × OccursAt find s j × ((j' : ℕ) → j' < j → ¬ OccursAt find s j')

-- Where `find` does not stand at the front, the search goes on behind the first byte.
later :
    (find : List ℕ) (x : ℕ) (s : List ℕ) (i : ℕ) (r : Option ℕ)
    → ¬ Begins find (x ∷ s)
    → IsFirstFrom find s (i + 1) r
    → IsFirstFrom find (x ∷ s) i r
later find x s i none miss none_later = elim [ zero ↦ miss | suc j ↦ none_later j ]
later find x s i (some k) miss (j, e, o, first) =
    (suc j, omega arith, o, elim [ zero ↦ λ _. miss | suc j' ↦ λ h. first j' (omega arith) ])

from_start : (find s : List ℕ) (r : Option ℕ) → IsFirstFrom find s 0 r → IsFirst find s r
from_start find s none h = h
from_start find s (some k) (j, e, o, first) = let e' : k ≡ j = omega arith in rw e' (o, first)

scan-IsFirstFrom :
    (c : ℕ) (find : List ℕ) (s : List ℕ) (i : ℕ)
    → IsCString find
    → IsFirstFrom (c ∷ find) s i (scan c find (length find) i s)
unfolding scan
scan-IsFirstFrom c find [] i h = elim [ zero ↦ λ b. nil_ne b.1 | suc j ↦ λ o. o ]
scan-IsFirstFrom c find (x ∷ s) i h =
    let next = later (c ∷ find) x s i (scan c find (length find) (i + 1) s) in
    let rest = scan-IsFirstFrom c find s (i + 1) h in
    let (fwd, back) = strncmp-Begins s find h in
    elim (Bool-cases (x == c)) [
      | inr other ↦
          rw other (next (λ b. ==→≢ x c other (sym (head_eq c x (find ++ b.0) s b.1).0)) rest)
      | inl same ↦ elim (Bool-cases (is_zero (strncmp s find (length find)))) [
        | inl hit ↦
            let (post, p) = fwd hit in
            let e = ==→≡ x c same in
            rw (same, hit) (0, omega arith, (post, cc), λ j' lt. absurd (omega arith))
        | inr miss ↦
            rw (same, miss) (next (λ b. cc (back (b.0, (head_eq c x (find ++ b.0) s b.1).1))) rest)
      ]
    ]

-- For C strings, strstr returns the first offset at which `find` stands in `s`, and NULL exactly
-- when it stands nowhere in `s`; the empty string is found at the front.
pub strstr-IsFirst :
    (s find : List ℕ) → IsCString find → IsFirst find s (strstr (some s) (some find))
unfolding strstr
strstr-IsFirst s [] h = ((s, refl), λ j lt. absurd (omega arith))
strstr-IsFirst s (c ∷ find) h =
    from_start (c ∷ find) s (scan c find (length find) 0 s) (scan-IsFirstFrom c find s 0 h.1)

-- A null pointer for either string gives NULL, and no byte is read.
pub strstr_null : (s find : Option (List ℕ)) → (s ≡ none) ⊎ (find ≡ none) → strstr s find ≡ none
unfolding strstr
strstr_null none find h = refl
strstr_null (some s) none h = refl
strstr_null (some s) (some find) h = ground arith
