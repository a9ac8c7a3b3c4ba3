-- ===== src/Memory/Painted.antt =====
-- What a step of a loop does to a block of memory: it rewrites a stretch of bytes and nothing else.
use android_device_samsung_c.Base.{
  ℕ, zero, suc, ◌+◌, ◌-◌, ◌*◌, ◌≤◌, ◌<◌, ◌≡◌, refl, ◌⊎◌, inl, inr, Option, some, arith, ltb, ◌==◌,
  Bool-cases, if◌then◌else◌, ◌∙◌, ap,
}
use android_device_samsung_c.Memory.{Mem, within, memset, Step, load, store, rows}

abbrev pub write : Mem → ℕ → ℕ → Mem
write m a v = record m { byte = λ i. if i == a then v else m.byte i }

pub store-write : (m : Mem) (a v : ℕ) → a < m.size → store m a v ≡ some (write m a v)
unfolding store
store-write m a v h = ground arith

pub load-byte : (m : Mem) (a : ℕ) → a < m.size → load m a ≡ some (m.byte a)
unfolding load
load-byte m a h = ground arith

-- `m'` is `m` with each byte `t` of the `len` bytes at `d` put through `f t`.
pub record Painted (len : ℕ) (f : ℕ → ℕ → ℕ) (d : ℕ) (m m' : Mem) : Type 0 where
  pub size : m'.size ≡ m.size
  pub inside : (t : ℕ) → t < len → m'.byte (d + t) ≡ f t (m.byte (d + t))
  pub outside : (i : ℕ) → (i < d) ⊎ (d + len ≤ i) → m'.byte i ≡ m.byte i

-- A step that does not fault on a stretch inside the block, and paints it.
abbrev pub Paints : ℕ → (ℕ → ℕ → ℕ) → (Mem → Option Mem) → ℕ → Type 0
Paints len f step d =
    (m : Mem) → d + len ≤ m.size → (m' : Mem) × (step m ≡ some m') × Painted len f d m m'

-- The same for `n` stretches, `ds` bytes apart.
pub record Striped (n len ds : ℕ) (f : ℕ → ℕ → ℕ → ℕ) (d : ℕ) (m m' : Mem) : Type 0 where
  pub size : m'.size ≡ m.size
  pub inside :
      (j t : ℕ) → j < n → t < len → m'.byte (d + j * ds + t) ≡ f j t (m.byte (d + j * ds + t))
  pub outside :
      (i : ℕ) → ((j : ℕ) → j < n → (i < d + j * ds) ⊎ (d + j * ds + len ≤ i)) → m'.byte i ≡ m.byte i

module _ (len ss ds : ℕ) (step : Step) (apart : len ≤ ds) where
  Striped-suc :
      (n d : ℕ) (f : ℕ → ℕ → ℕ → ℕ) (m m1 m' : Mem)
      → Painted len (f 0) d m m1
      → Striped n len ds (λ j. f (suc j)) (d + ds) m1 m'
      → Striped (suc n) len ds f d m m'
  Striped-suc n d f m m1 m' p q = record {
    size = q.size ∙ p.size;
    inside = elim [
      | zero ↦ λ t hj ht.
          let e : d + 0 * ds + t ≡ d + t = omega arith in
          rw e (q.outside (d + t) (λ j h. inl (omega arith)) ∙ p.inside t ht)
      | suc j ↦ λ t hj ht.
          let e : d + suc j * ds + t ≡ d + ds + j * ds + t = omega arith in
          rw e (q.inside j t (omega arith) ht ∙ ap (f (suc j) t) (p.outside _ (inr (omega arith))))
    ];
    outside = λ i away.
        q.outside i (λ j h. ground (arith, away (suc j) (omega arith)))
        ∙ p.outside i (ground (arith, away 0 (omega arith)));
  }

  pub rows-Striped :
      (n s d : ℕ) (f : ℕ → ℕ → ℕ → ℕ)
      → ((j s' d' : ℕ)
          → j < n
          → s' ≡ s + j * ss
          → d' ≡ d + j * ds
          → Paints len (f j) (step s' d') d')
      → (m : Mem) → ((j : ℕ) → j < n → d + j * ds + len ≤ m.size)
      → (m' : Mem) × (rows step ss ds n s d m ≡ some m') × Striped n len ds f d m m'
  unfolding rows
  rows-Striped zero s d f each m fits = (
    m,
    refl,
    record { size = refl; inside = λ j t h. absurd (omega arith); outside = λ i o. refl },
  )
  rows-Striped (suc n) s d f each m fits =
      let (m1, e1, p1) =
        each 0 s d (omega arith) (omega arith) (omega arith) m (omega (arith, fits 0)) in
      let (m', e, q) =
        rows-Striped n (s + ss) (d + ds) (λ j. f (suc j))
          (λ j s' d' h es ed. each (suc j) s' d' (omega arith) (omega arith) (omega arith)) m1
          (λ j h. omega (arith, p1.size, fits (suc j))) in
      (m', rw e1 e, Striped-suc n d f m m1 m' p1 q)

-- A stretch, and another one behind it.
pub Painted-append :
    (a c d : ℕ) (f g : ℕ → ℕ → ℕ) (m m1 m2 : Mem)
    → Painted a f d m m1
    → Painted c g (d + a) m1 m2
    → Painted (a + c) (λ t old. if ltb t a then f t old else g (t - a) old) d m m2
Painted-append a c d f g m m1 m2 p q = record {
  size = q.size ∙ p.size;
  inside = λ t ht. elim (Bool-cases (ltb t a)) [
    | inl here ↦ rw here (q.outside (d + t) (inl (ground arith)) ∙ p.inside t (ground arith))
    | inr later ↦
        let at : d + t ≡ d + a + (t - a) = ground arith in
        rw (later, at)
          (q.inside (t - a) (ground arith)
            ∙ ap (g (t - a)) (p.outside (d + a + (t - a)) (inr (omega arith))))
  ];
  outside = λ i o. q.outside i (ground arith) ∙ p.outside i (ground arith);
}

-- The same bytes, by another description.
pub Painted-ext :
    (n d : ℕ) (f g : ℕ → ℕ → ℕ) (m m' : Mem)
    → ((t : ℕ) (old : ℕ) → t < n → f t old ≡ g t old)
    → Painted n f d m m'
    → Painted n g d m m'
Painted-ext n d f g m m' e p = record {
  size = p.size;
  inside = λ t h. p.inside t h ∙ e t (m.byte (d + t)) h;
  outside = p.outside;
}

-- A stretch inside the block can be zeroed.
pub memset_within :
    (m : Mem) (d n : ℕ)
    → d + n ≤ m.size
    → (m' : Mem) × (memset m d 0 n ≡ some m') × (m'.size ≡ m.size)
unfolding memset
memset_within m d n h =
    (record m { byte = λ i. if within d (d + n) i then 0 else m.byte i }, ground arith, refl)
