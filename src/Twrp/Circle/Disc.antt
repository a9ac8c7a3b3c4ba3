-- ===== src/Twrp/Circle/Disc.antt =====
-- The picture that gr_render_circle of recovery/twrp-graphics.c draws.
use android_device_samsung_c.Base.{
  ℕ, ◌+◌, ◌-◌, ◌*◌, ◌/◌, ◌^◌, ◌<◌, ◌≡◌, refl, inr, inl, sym, ◌∙◌, Bool, some, leb, if◌then◌else◌,
  ap, arith, Bool-cases, lt→ltb,
}
use android_device_samsung_c.Memory.{Mem, memset, rows, within}
use android_device_samsung_c.Memory.Painted.{
  Painted, Paints, Striped, rows-Striped, store-write, write,
}
use native.Mathlib.Nat.{add_comm}
use android_device_samsung_c.Memory.Rows.{below_row}
use android_device_samsung_c.Twrp.Circle.{Picture, square, is_covered, dot, line, gr_render_circle}

abbrev ink : (radius px j i old : ℕ) → ℕ
ink radius px j i old = if is_covered radius j i then px else old

cells-Painted :
    (n : ℕ) (f : ℕ → ℕ → ℕ → ℕ) (d : ℕ) (m m' : Mem)
    → Striped n 1 1 f d m m'
    → Painted n (λ t. f t 0) d m m'
cells-Painted n f d m m' p = record {
  size = p.size;
  inside =
      λ t h. let e : d + t ≡ d + t * 1 + 0 = omega arith in rw e (p.inside t 0 h (omega arith));
  outside = λ i o. p.outside i (λ j h. ground arith);
}

dot-Paints :
    (radius px j i s d : ℕ)
    → s ≡ i
    → Paints 1 (λ t old. ink radius px j i old) (dot radius px j s d) d
unfolding dot
dot-Paints radius px j i s d e m fits = elim (Bool-cases (is_covered radius j i)) [
  | inl hit ↦ (
    write m d px,
    rw (e, hit) (store-write m d px (omega arith)),
    record { size = refl; inside = λ t h. rw hit (ground arith); outside = λ k o. ground arith },
  )
  | inr miss ↦ (
    m,
    rw (e, miss) refl,
    record { size = refl; inside = λ t h. rw miss refl; outside = λ k o. refl },
  )
]

line-Paints :
    (radius px j s d : ℕ)
    → s ≡ j
    → Paints (radius * 2 + 1) (λ i old. ink radius px j i old) (line radius px s d) d
unfolding line
line-Paints radius px j s d es m fits =
    let (m', e, p) =
      rows-Striped 1 1 1 (dot radius px j) (omega arith) (radius * 2 + 1) 0 d
        (λ i t old. ink radius px j i old)
        (λ i s' d' h es ed. dot-Paints radius px j i s' d' (omega arith)) m (λ i h. omega arith) in
    (m', rw es e, cells-Painted (radius * 2 + 1) (λ i t old. ink radius px j i old) d m m' p)

-- All the lines, from the first pixel on.
lines-Striped :
    (radius px : ℕ) (m : Mem)
    → m.size ≡ (radius * 2 + 1) * (radius * 2 + 1)
    → (m' : Mem) × (rows (line radius px) 1 (radius * 2 + 1) (radius * 2 + 1) 0 0 m ≡ some m')
      × Striped (radius * 2 + 1) (radius * 2 + 1) (radius * 2 + 1) (ink radius px) 0 m m'
lines-Striped radius px m size =
    rows-Striped (radius * 2 + 1) 1 (radius * 2 + 1) (line radius px) (omega arith) (radius * 2 + 1)
      0 0 (ink radius px) (λ j s d h es ed. line-Paints radius px j s d (omega arith)) m
      (λ j h. omega (arith, size, below_row j (radius * 2 + 1) (radius * 2 + 1) h))

abbrev blank : (n : ℕ) (bits : ℕ → ℕ) → Mem
blank n bits = record { size = n; byte = λ i. if within 0 n i then 0 else bits i }

memset-blank :
    (n : ℕ) (bits : ℕ → ℕ) → memset (record { size = n; byte = bits }) 0 0 n ≡ some (blank n bits)
unfolding memset
memset-blank n bits = ground arith

-- The lines on a picture of zeros, pixel by pixel.
pixels_drawn :
    (radius px : ℕ) (bits : ℕ → ℕ)
    → (m : Mem) × (rows
          (line radius px)
          1
          (radius * 2 + 1)
          (radius * 2 + 1)
          0
          0
          (blank ((radius * 2 + 1) * (radius * 2 + 1)) bits)
        ≡ some m)
      × ((j i : ℕ)
          → j < radius * 2 + 1
          → i < radius * 2 + 1
          → m.byte (j * (radius * 2 + 1) + i) ≡ ink radius px j i 0)
pixels_drawn radius px bits =
    let n = radius * 2 + 1 in
    let (m, e, s) = lines-Striped radius px (blank (n * n) bits) refl in
    (
      m,
      e,
      λ j i hj hi.
          let row = below_row j n n hj in
          let at : j * n + i ≡ 0 + j * n + i = omega arith in
          let zero_there : (if within 0 (n * n) (0 + j * n + i) then 0 else bits (0 + j * n + i))
              ≡ 0 =
            ground arith in
          rw at (s.inside j i hj hi ∙ ap (ink radius px j i) zero_there),
    )

-- The covering is symmetric.
covered_flip : (r j i : ℕ) → is_covered r i j ≡ is_covered r j i
unfolding is_covered
covered_flip r j i = ap (λ (v : ℕ). leb v (r * r + r * 4 / 5)) (add_comm (square r j) (square r i))

-- Within the square of the picture, a point and its mirror images are covered alike.
square_mirror : (r i : ℕ) → i < r * 2 + 1 → square r (r * 2 - i) ≡ square r i
unfolding square
square_mirror r i h =
    let e1 : r * 2 - i - r ≡ r - i = omega arith in
    let e2 : r - (r * 2 - i) ≡ i - r = omega arith in rw (e1, e2) (omega arith)

covered_mirror : (r j i : ℕ) → i < r * 2 + 1 → is_covered r j (r * 2 - i) ≡ is_covered r j i
unfolding is_covered
covered_mirror r j i h =
    ap (λ (v : ℕ). leb (v + square r j) (r * r + r * 4 / 5)) (square_mirror r i h)

-- Where 4 * (radius * 2 + 1) * (radius * 2 + 1) < 2 ^ 31, gr_render_circle does not fault, and
-- makes a square picture of radius * 2 + 1 pixels a side. The pixel in row j and column i holds px,
-- put together from the four bytes, where its squared distance from the middle is at most radius *
-- radius + radius * 4 / 5, and else is zero. The picture is symmetric: the pixels (j, i), (i, j)
-- and (j, radius * 2 - i) are alike.
pub gr_render_circle-symmetric :
    (radius r g b a : ℕ) (bits : ℕ → ℕ)
    → 4 * (radius * 2 + 1) * (radius * 2 + 1) < 2 ^ 31
    → (p : Picture) × (gr_render_circle radius r g b a bits ≡ some p)
      × (p.width ≡ radius * 2 + 1)
      × (p.height ≡ radius * 2 + 1)
      × (p.stride ≡ radius * 2 + 1)
      × ((j i : ℕ)
          → j < p.height
          → i < p.width
          → (p.pixels.byte (j * p.stride + i) ≡ (
              if leb (square radius i + square radius j) (radius * radius + radius * 4 / 5)
              then a * 2 ^ 24 + b * 2 ^ 16 + g * 2 ^ 8 + r
              else 0))
            × (p.pixels.byte (i * p.stride + j) ≡ p.pixels.byte (j * p.stride + i))
            × (p.pixels.byte (j * p.stride + (radius * 2 - i)) ≡ p.pixels.byte (j * p.stride + i)))
unfolding gr_render_circle
gr_render_circle-symmetric radius r g b a bits small =
    let n = radius * 2 + 1 in
    let px = a * 2 ^ 24 + b * 2 ^ 16 + g * 2 ^ 8 + r in
    let (m, e, at) = pixels_drawn radius px bits in
    let of : Bool → ℕ = λ c. if c then px else 0 in
    (
      record { width = n; height = n; stride = n; pixels = m },
      rw (lt→ltb (n * n * 4) (2 ^ 31) (omega arith), memset-blank (n * n) bits, e) refl,
      refl,
      refl,
      refl,
      λ j i hj hi. (
        at j i hj hi,
        at i j hi hj ∙ ap of (covered_flip radius j i) ∙ sym (at j i hj hi),
        at j (radius * 2 - i) hj (omega arith)
            ∙ ap of (covered_mirror radius j i hi)
            ∙ sym (at j i hj hi),
      ),
    )
