-- ===== src/Rle/Decode.antt =====
-- The loop against the list of bytes that a code stands for.
use android_device_samsung_c.Base.{
  ℕ, zero, suc, ◌+◌, ◌-◌, ◌%◌, ◌/◌, ◌≤◌, ◌<◌, ◌≡◌, refl, ◌∙◌, inl, inr, none, some, List, [], ◌∷◌,
  ◌++◌, Bool, true, false, ◌||◌, Bool-cases, ◌==◌, ltb, leb, if◌then◌else◌, replicate, length,
  get_or, length-append, length-replicate, arith,
}
use android_device_samsung_c.Memory.{Mem, within, memset}
use android_device_samsung_c.Memory.Painted.{Painted}
use android_device_samsung_c.Rle.{run_value, run_length, rle_loop}

-- The bytes that a byte of the code stands for: below 128 it is a count of zeros, and from 128 on
-- 128 more than a count of bytes 255.
unfoldable pub run : ℕ → List ℕ
run d = if ltb (d % 256) 128 then replicate (d % 256) 0 else replicate (d % 256 - 128) 255

-- The bytes that a code stands for: its runs up to the first zero byte.
unfoldable pub expand : List ℕ → List ℕ
unfolding run
expand [] = []
expand (d ∷ code) = if d == 0 then [] else run d ++ expand code

-- A run is as long, and of the byte, that the code says.
run_lem : (d : ℕ) → run d ≡ replicate (run_length d) (run_value d)
unfolding run run_length run_value
run_lem d = elim (Bool-cases (ltb (d % 256) 128)) [
  | inl zeros ↦
      let n : d % 256 ≡ d % 128 = ground arith in
      let v : (d / 128 % 2 == 1) ≡ false = ground arith in rw (zeros, n, v) refl
  | inr ones ↦
      let n : d % 256 - 128 ≡ d % 128 = ground arith in
      let v : (d / 128 % 2 == 1) ≡ true = ground arith in rw (ones, n, v) refl
]

-- The code has a zero byte.
unfoldable pub ends : List ℕ → Bool
ends [] = false
ends (d ∷ code) = d == 0 || ends code

get_or-append :
    (xs ys : List ℕ) (i e : ℕ)
    → get_or (xs ++ ys) i e
      ≡ (if ltb i (length xs) then get_or xs i e else get_or ys (i - length xs) e)
get_or-append [] ys i e = let i0 : i - 0 ≡ i = omega arith in rw i0 (ground arith)
get_or-append (x ∷ xs) ys zero e = ground arith
get_or-append (x ∷ xs) ys (suc i) e = get_or-append xs ys i e ∙ ground arith

get_or-replicate : (n a i e : ℕ) → i < n → get_or (replicate n a) i e ≡ a
get_or-replicate zero a i e h = absurd (omega arith)
get_or-replicate (suc n) a zero e h = refl
get_or-replicate (suc n) a (suc i) e h = get_or-replicate n a i e (omega arith)

-- One run.
run-Painted :
    (m : Mem) (p v n : ℕ)
    → p + n ≤ m.size
    → (m' : Mem) × (memset m p v n ≡ some m') × Painted n (λ t old. v) p m m'
unfolding memset
run-Painted m p v n h = (
  record m { byte = λ i. if within p (p + n) i then v else m.byte i },
  ground arith,
  record { size = refl; inside = λ t ht. ground arith; outside = λ i o. ground arith },
)

memset-none : (m : Mem) (p v n : ℕ) → leb (p + n) m.size ≡ false → memset m p v n ≡ none
unfolding memset
memset-none m p v n h = rw h

-- A run, and behind it the list `rest`.
run-then :
    (n v p : ℕ) (rest : List ℕ) (m m1 m' : Mem)
    → Painted n (λ t old. v) p m m1
    → Painted (length rest) (λ t old. get_or rest t old) (p + n) m1 m'
    → Painted
        (length (replicate n v ++ rest))
        (λ t old. get_or (replicate n v ++ rest) t old)
        p
        m
        m'
run-then n v p rest m m1 m' first second =
    let e = length-append (replicate n v) rest in
    let r = length-replicate n v in
    record {
      size = second.size ∙ first.size;
      inside = λ t ht. elim (Bool-cases (ltb t n)) [
        | inl here ↦
            let old = m.byte (p + t) in
            ground (
              arith,
              second.outside (p + t),
              first.inside t,
              get_or-append (replicate n v) rest t old,
              get_or-replicate n v t old,
            )
        | inr later ↦
            let old = m.byte (p + t) in
            let at : p + n + (t - n) ≡ p + t = ground arith in
            ground (
              arith,
              second.inside (t - n),
              first.outside (p + t),
              get_or-append (replicate n v) rest t old,
            )
      ];
      outside = λ i o. ground (arith, second.outside i, first.outside i);
    }

-- With a code that ends, and room for its bytes, the loop returns without a fault; it writes the bytes
-- that the code stands for from `bits` on, and no others.
pub rle_loop-Painted :
    (code : List ℕ) (p : ℕ) (m : Mem)
    → ends code ≡ true
    → p + length (expand code) ≤ m.size
    → (m' : Mem) × (rle_loop code p m ≡ some m')
      × Painted (length (expand code)) (λ t old. get_or (expand code) t old) p m m'
unfolding rle_loop ends expand
rle_loop-Painted [] p m h fits = cc
rle_loop-Painted (d ∷ code) p m h fits = elim (Bool-cases (d == 0)) [
  | inl stop ↦ rw stop (
    m,
    refl,
    record { size = refl; inside = λ t ht. absurd (omega arith); outside = λ i o. refl },
  )
  | inr more ↦
      let n = run_length d in
      let v = run_value d in
      let e = length-append (replicate n v) (expand code) in
      let r = length-replicate n v in
      let room : p + n + length (expand code) ≤ m.size =
        omega (arith, e, r, rw (more, run_lem d) at fits) in
      let (m1, e1, first) = run-Painted m p v n (omega arith) in
      let (m', e', second) =
        rle_loop-Painted code (p + n) m1 (rw more at h) (omega (arith, first.size)) in
      rw (more, run_lem d, e1) (m', e', run-then n v p (expand code) m m1 m' first second)
]

-- Without the room the loop faults: it writes outside the bits.
pub rle_loop-none :
    (code : List ℕ) (p : ℕ) (m : Mem)
    → p ≤ m.size
    → m.size < p + length (expand code)
    → rle_loop code p m ≡ none
unfolding rle_loop expand
rle_loop-none [] p m hp h = refl
rle_loop-none (d ∷ code) p m hp h =
    let n = run_length d in
    let v = run_value d in
    elim (Bool-cases (d == 0)) [
      | inl stop ↦ absurd (omega (arith, rw stop at h))
      | inr more ↦ elim (Bool-cases (leb (p + n) m.size)) [
        | inr full ↦ rw (more, memset-none m p v n full)
        | inl room ↦
            let e = length-append (replicate n v) (expand code) in
            let r = length-replicate n v in
            let (m1, e1, first) = run-Painted m p v n (ground arith) in
            rw (more, e1)
              (rle_loop-none code (p + n) m1 (ground (arith, first.size))
                (omega (arith, first.size, e, r, rw (more, run_lem d) at h)))
      ]
    ]
