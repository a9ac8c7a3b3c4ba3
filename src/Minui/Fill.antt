-- ===== src/Minui/Fill.antt =====
-- gr_fill of recovery/graphics.cpp: which bytes of the surface a filled rectangle changes, and to what.
use android_device_samsung_c.Base.{
  ℕ, ◌+◌, ◌-◌, ◌*◌, ◌/◌, ◌%◌, ◌≤◌, ◌<◌, ◌≡◌, ◌⊎◌, inl, inr, Bool, true, false, Option, Bool-cases,
  if◌then◌else◌, arith, ap, subst, ◌∙◌, sym, ℤ, pos, ◌+ℤ◌, ◌-ℤ◌, -ℤ_parts, ltb_ℤ, leb_ℤ, pos_part,
  neg_part, ◌&&◌, ◌||◌,
}
use android_device_samsung_c.Memory.{Mem, within, rows}
use android_device_samsung_c.Memory.Painted.{Paints}
use android_device_samsung_c.Memory.Rows.{rect-at, row-Paints}
use android_device_samsung_c.Minui.{
  Gr, outside, pixel_at, put_opaque, put_mixed, fill_rows, fill_at, gr_fill,
}
use android_device_samsung_c.Minui.Draws.{Draws, Draws-same, Draws-eq, Draws-ext}
use android_device_samsung_c.Minui.Drawing.{IsValid, tint, opaque-Paints, mixed-Paints}

-- The point lies on the surface.
abbrev pub contains : Gr → ℤ → ℤ → Bool
contains g x y =
    (leb_ℤ (pos 0) x && ltb_ℤ x (pos g.draw.width))
    && (leb_ℤ (pos 0) y && ltb_ℤ y (pos g.draw.height))

-- The pixel in column `x` and row `y` lies in the rectangle with corners (x1, y1) and (x2, y2).
abbrev pub in_rect : (x1 y1 x2 y2 : ℤ) → (x y : ℕ) → Bool
in_rect x1 y1 x2 y2 x y =
    (leb_ℤ x1 (pos x) && ltb_ℤ (pos x) x2) && (leb_ℤ y1 (pos y) && ltb_ℤ (pos y) y2)

-- A rectangle is drawn if its first and last pixel lie on the surface, and else not at all. Byte `c` of
-- a row belongs to the pixel in column `c / 4`.
abbrev pub filled : Gr → (x1 y1 x2 y2 : ℤ) → (y c old : ℕ) → ℕ
filled g x1 y1 x2 y2 y c old =
    if (contains g x1 y1 && contains g (x2 -ℤ pos 1) (y2 -ℤ pos 1)) && in_rect x1 y1 x2 y2 (c / 4) y
    then tint g g.current_a (c % 4) old
    else old

-- What the test of the corners says in numbers.
pub corners_inside :
    (g : Gr) (x1 y1 x2 y2 : ℤ)
    → (outside g x1 y1 || outside g (x2 -ℤ pos 1) (y2 -ℤ pos 1)) ≡ false
    → (neg_part x1 ≡ 0)
      × (pos_part x1 < g.draw.width)
      × (neg_part y1 ≡ 0)
      × (pos_part y1 < g.draw.height)
      × (neg_part x2 ≡ 0)
      × (pos_part x2 ≤ g.draw.width)
      × (neg_part y2 ≡ 0)
      × (pos_part y2 ≤ g.draw.height)
unfolding outside
corners_inside g x1 y1 x2 y2 h = ground (arith, -ℤ_parts x2 (pos 1), -ℤ_parts y2 (pos 1))

pub contains-corners :
    (g : Gr) (x1 y1 x2 y2 : ℤ) (b : Bool)
    → (outside g x1 y1 || outside g (x2 -ℤ pos 1) (y2 -ℤ pos 1)) ≡ b
    → (contains g x1 y1 && contains g (x2 -ℤ pos 1) (y2 -ℤ pos 1)) ≡ (if b then false else true)
unfolding outside
contains-corners g x1 y1 x2 y2 b h = ground arith

-- The stretch of a row between two columns, by the columns of its bytes.
rect-in_rect :
    (x1 y1 x2 y2 : ℤ) (y c : ℕ) (f : ℕ → ℕ → ℕ) (old : ℕ)
    → neg_part x1 ≡ 0
    → neg_part y1 ≡ 0
    → neg_part x2 ≡ 0
    → neg_part y2 ≡ 0
    → (if within (pos_part y1) (pos_part y1 + (pos_part y2 - pos_part y1)) y
          && within (pos_part x1 * 4) (pos_part x1 * 4 + (pos_part x2 - pos_part x1) * 4) c
        then f ((c - pos_part x1 * 4) % 4) old
        else old)
      ≡ (if in_rect x1 y1 x2 y2 (c / 4) y then f (c % 4) old else old)
rect-in_rect x1 y1 x2 y2 y c f old nx1 ny1 nx2 ny2 = ground arith

opacity : (a : ℕ) → a < 256 → (a ≡ 0) ⊎ ((a ≡ 255) ⊎ ((0 < a) × (a < 255)))
opacity a h = grind arith

module _ (g : Gr) (v : IsValid g) (x1 y1 x2 y2 : ℤ) where
  -- The loops over a rectangle that lies on the surface.
  fill_rows-Draws :
      (px : ℕ → Mem → Option Mem)
      → ((d : ℕ) → Paints 4 (tint g g.current_a) (px d) d)
      → (outside g x1 y1 || outside g (x2 -ℤ pos 1) (y2 -ℤ pos 1)) ≡ false
      → Draws g
          (λ y c old. if in_rect x1 y1 x2 y2 (c / 4) y then tint g g.current_a (c % 4) old else old)
          (fill_rows g px x1 y1 x2 y2)
  unfolding fill_rows pixel_at
  fill_rows-Draws px each inside =
      let (nx1, hx1, ny1, hy1, nx2, hx2, ny2, hy2) = corners_inside g x1 y1 x2 y2 inside in
      let s = v.surface in
      let rb = g.draw.row_bytes in
      let w = pos_part x2 - pos_part x1 in
      let n = pos_part y2 - pos_part y1 in
      let c0 = pos_part x1 * 4 in
      let start : pixel_at g x1 y1 ≡ pos_part y1 * rb + c0 =
        ap (λ (b : ℕ). pos_part y1 * rb + pos_part x1 * b) s.pixel in
      let (m', e, size, at) =
        rect-at (λ y d. rows (λ x. px) 1 4 w (pos_part x1) d) n (w * 4) 1 rb (pos_part y1)
          (pos_part y1) c0 g.draw.height (λ _ t. tint g g.current_a (t % 4)) g.draw.bytes
          (omega arith) (omega arith) s.block
          (λ j s' d' hj es.
            row-Paints (λ x. px) w (pos_part x1) d' (λ _. tint g g.current_a)
              (λ c s'' d'' hc _ _. each d'')) in
      record {
        final = m';
        returns = rw (start, e);
        size = size;
        at = λ y c hy hc.
            at y c hc
            ∙ rect-in_rect x1 y1 x2 y2 y c (tint g g.current_a) (g.draw.bytes.byte (y * rb + c)) nx1
                ny1 nx2 ny2;
      }

  tint_opaque : g.current_a ≡ 255 → (d : ℕ) → Paints 4 (tint g g.current_a) (put_opaque g d) d
  tint_opaque e d = subst (λ a. Paints 4 (tint g a) (put_opaque g d) d) (sym e) (opaque-Paints g d)

  fill_at-Draws : Draws g (filled g x1 y1 x2 y2) (fill_at g x1 y1 x2 y2)
  unfolding fill_at
  fill_at-Draws = elim (Bool-cases (outside g x1 y1 || outside g (x2 -ℤ pos 1) (y2 -ℤ pos 1))) [
    | inl out ↦
        let no = contains-corners g x1 y1 x2 y2 true out in
        Draws-eq (Draws-same g _ (λ y c old. rw no)) (rw out)
    | inr in_ ↦
        let on = contains-corners g x1 y1 x2 y2 false in_ in
        elim (opacity g.current_a v.alpha) [
          | inl none_ ↦ Draws-eq (Draws-same g _ (λ y c old. ground arith)) (ground arith)
          | inr (inl full) ↦
              Draws-eq
                (Draws-ext (fill_rows-Draws (put_opaque g) (tint_opaque full) in_)
                  (λ y c old. rw on))
                (ground arith)
          | inr (inr (some_, part)) ↦
              Draws-eq
                (Draws-ext
                  (fill_rows-Draws (put_mixed g g.current_a)
                    (λ d. mixed-Paints g g.current_a d some_ (omega arith)) in_)
                  (λ y c old. rw on))
                (ground arith)
        ]
  ]

-- On a valid state gr_fill never accesses memory outside the surface. With the overscan offsets
-- added to its corners, it draws the rectangle with the current colour and opacity, in exactly the
-- pixels between the corners, if the first and the last pixel lie on the surface; else it draws
-- nothing. The size of the block, the fourth byte of each pixel, the padding of the rows and the
-- rest of the state stay.
pub gr_fill-Draws :
    (g : Gr) (x1 y1 x2 y2 : ℤ)
    → IsValid g
    → Draws g
        (filled g
          (x1 +ℤ pos g.overscan_offset_x)
          (y1 +ℤ pos g.overscan_offset_y)
          (x2 +ℤ pos g.overscan_offset_x)
          (y2 +ℤ pos g.overscan_offset_y))
        (gr_fill g x1 y1 x2 y2)
unfolding gr_fill
gr_fill-Draws g x1 y1 x2 y2 v =
    fill_at-Draws g v (x1 +ℤ pos g.overscan_offset_x) (y1 +ℤ pos g.overscan_offset_y)
      (x2 +ℤ pos g.overscan_offset_x) (y2 +ℤ pos g.overscan_offset_y)
