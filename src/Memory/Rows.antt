-- ===== src/Memory/Rows.antt =====
-- Pixels of four bytes make a row, and rows make a rectangle of a surface, read at row and column.
use android_device_samsung_c.Base.{
  ℕ, ◌+◌, ◌-◌, ◌*◌, ◌/◌, ◌%◌, ◌≤◌, ◌<◌, ◌≡◌, ◌⊎◌, inl, inr, ap, true, false, ◌&&◌, if◌then◌else◌,
  Bool-cases, arith, some, refl,
}
use android_device_samsung_c.Memory.{Mem, Step, within, rows}
use android_device_samsung_c.Memory.Painted.{Painted, Paints, Striped, rows-Striped}

-- Adjacent pixels are one stretch.
pixels-Painted :
    (n : ℕ) (f : ℕ → ℕ → ℕ → ℕ) (d : ℕ) (m m' : Mem)
    → Striped n 4 4 f d m m'
    → Painted (n * 4) (λ t. f (t / 4) (t % 4)) d m m'
pixels-Painted n f d m m' p = record {
  size = p.size;
  inside = λ t h.
      let e : d + t ≡ d + t / 4 * 4 + t % 4 = omega arith in
      rw e (p.inside (t / 4) (t % 4) (omega arith) (omega arith));
  outside = λ i o. p.outside i (λ j h. ground arith);
}

-- Two rows of a surface do not overlap.
pub below_row : (y y' ds : ℕ) → y < y' → y * ds + ds ≤ y' * ds
below_row y y' ds h = grind arith

same_row : (y y' ds : ℕ) → y ≡ y' → y * ds ≡ y' * ds
same_row y y' ds e = ap (λ (v : ℕ). v * ds) e

-- A byte outside the rectangle lies before or behind each of its rows.
away_from_row :
    (y c ds y0 c0 n len j : ℕ)
    → c < ds
    → c0 + len ≤ ds
    → (within y0 (y0 + n) y && within c0 (c0 + len) c) ≡ false
    → j < n
    → (y * ds + c < y0 * ds + c0 + j * ds) ⊎ (y0 * ds + c0 + j * ds + len ≤ y * ds + c)
away_from_row y c ds y0 c0 n len j hc fits miss h =
    ground (arith, below_row y (y0 + j) ds, below_row (y0 + j) y ds, same_row y (y0 + j) ds)

-- A byte of the rectangle, by its place in the rectangle.
place_in_rect :
    (y c ds y0 c0 n len : ℕ)
    → (within y0 (y0 + n) y && within c0 (c0 + len) c) ≡ true
    → (y - y0 < n) × (c - c0 < len) × (y * ds + c ≡ y0 * ds + c0 + (y - y0) * ds + (c - c0))
place_in_rect y c ds y0 c0 n len hit = ground (arith, same_row y (y0 + (y - y0)) ds)

-- What a striped rewrite does to the byte in row `y` and column `c`.
Striped-at :
    (n len ds y0 c0 : ℕ) (f : ℕ → ℕ → ℕ → ℕ) (d : ℕ) (m m' : Mem)
    → d ≡ y0 * ds + c0
    → c0 + len ≤ ds
    → Striped n len ds f d m m'
    → (y c : ℕ) → c < ds
    → m'.byte (y * ds + c) ≡ (
        if within y0 (y0 + n) y && within c0 (c0 + len) c
        then f (y - y0) (c - c0) (m.byte (y * ds + c))
        else m.byte (y * ds + c))
Striped-at n len ds y0 c0 f d m m' ed fits p y c hc =
    elim (Bool-cases (within y0 (y0 + n) y && within c0 (c0 + len) c)) [
      | inl hit ↦
          let (hj, ht, e) = place_in_rect y c ds y0 c0 n len hit in
          rw (hit, e, ← ed) (p.inside (y - y0) (c - c0) hj ht)
      | inr miss ↦
          rw miss (p.outside _ (λ j h. rw ed (away_from_row y c ds y0 c0 n len j hc fits miss h)))
    ]

module _ (step : Step) (w sx d : ℕ) (f : ℕ → ℕ → ℕ → ℕ) where
  -- The inner loop over the pixels of a row is one step of the loop over the rows.
  pub row-Paints :
      ((c s' d' : ℕ) → c < w → s' ≡ sx + c * 1 → d' ≡ d + c * 4 → Paints 4 (f c) (step s' d') d')
      → Paints (w * 4) (λ t. f (t / 4) (t % 4)) (rows step 1 4 w sx d) d
  row-Paints each m fits =
      let (m', e, p) = rows-Striped 4 1 4 step (omega arith) w sx d f each m (λ j h. omega arith) in
      (m', e, pixels-Painted w f d m m' p)

-- The last byte of a rectangle's row lies in the block.
row_fits :
    (y0 c0 j len ds n h size : ℕ)
    → j < n
    → y0 + n ≤ h
    → c0 + len ≤ ds
    → h * ds ≤ size
    → y0 * ds + c0 + j * ds + len ≤ size
row_fits y0 c0 j len ds n h size hj hn hc hs = grind (arith, below_row (y0 + j) h ds)

-- A loop over the rows of a rectangle at row `y0` and byte column `c0` of a surface with `h` rows.
module _ (step : Step) (n len ss ds s y0 c0 h : ℕ) (f : ℕ → ℕ → ℕ → ℕ) (m : Mem) where
  pub rect-at :
      c0 + len ≤ ds
      → y0 + n ≤ h
      → h * ds ≤ m.size
      → ((j s' d' : ℕ) → j < n → s' ≡ s + j * ss → Paints len (f j) (step s' d') d')
      → (m' : Mem) × (rows step ss ds n s (y0 * ds + c0) m ≡ some m')
        × (m'.size ≡ m.size)
        × ((y c : ℕ)
            → c < ds
            → m'.byte (y * ds + c) ≡ (
                if within y0 (y0 + n) y && within c0 (c0 + len) c
                then f (y - y0) (c - c0) (m.byte (y * ds + c))
                else m.byte (y * ds + c)))
  rect-at hc hn hs each =
      let d = y0 * ds + c0 in
      let (m', e, p) =
        rows-Striped len ss ds step (omega arith) n s d f (λ j s' d' hj es ed. each j s' d' hj es) m
          (λ j hj. row_fits y0 c0 j len ds n h m.size hj hn hc hs) in
      (m', e, p.size, Striped-at n len ds y0 c0 f d m m' refl hc p)
