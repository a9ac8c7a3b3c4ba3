-- ===== src/Minui/Blit.antt =====
-- gr_blit of recovery/graphics.cpp.
pub mod Negative
use android_device_samsung_c.Base.{
  ℕ, suc, ◌+◌, ◌-◌, ◌*◌, ◌/◌, ◌^◌, ◌≤◌, ◌<◌, ◌≡◌, refl, ◌∙◌, ap, subst, inl, inr, true, false, ◌&&◌,
  ◌||◌, none, some, Bool-cases, ◌==◌, if◌then◌else◌, ◌>>=◌, arith, ℤ, pos, negsuc, pos_part, ◌+ℤ◌,
  ◌-ℤ◌, pos-+ℤ, +ℤ_parts,
}
use android_device_samsung_c.Memory.{Mem, within, rows, memcpy}
use android_device_samsung_c.Memory.Painted.{Paints}
use android_device_samsung_c.Memory.Rows.{rect-at, below_row}
use android_device_samsung_c.Minui.{
  Gr, GrSurface, with_bytes, outside, pixel_at, to_size, scale, blit_rows, blit_at, gr_blit,
}
use android_device_samsung_c.Minui.Drawing.{IsSurface, IsValid}
use android_device_samsung_c.Minui.Draws.{Draws, Draws-same, Draws-eq, Draws-ext}
use android_device_samsung_c.Minui.Fill.{contains, contains-corners, corners_inside}
use android_device_samsung_c.Minui.Mask.{in_box}

-- The box of `w` by `h` pixels at (dx, dy), the overscan offsets added, takes the pixels of the
-- source at (sx, sy), if its first and last pixel lie on the surface; else nothing is drawn.
abbrev pub blitted : Gr → GrSurface → (sx sy w h : ℕ) → (dx dy : ℤ) → (y c old : ℕ) → ℕ
blitted g source sx sy w h dx dy y c old =
    if (contains g dx dy && contains g (dx +ℤ pos w -ℤ pos 1) (dy +ℤ pos h -ℤ pos 1))
      && in_box dx dy w h (c / 4) y
    then source.bytes.byte (
        sy * source.row_bytes
        + sx * 4
        + (y - pos_part dy) * source.row_bytes
        + (c - pos_part dx * 4))
    else old

memcpy-Paints :
    (src : Mem) (s d n : ℕ)
    → s + n ≤ src.size
    → Paints n (λ t old. src.byte (s + t)) (λ m. memcpy m d src s n) d
unfolding memcpy
memcpy-Paints src s d n h m fits = (
  record m { byte = λ i. if within d (d + n) i then src.byte (s + (i - d)) else m.byte i },
  ground arith,
  record { size = refl; inside = λ t ht. ground arith; outside = λ i o. ground arith },
)

scale_pos : (a n : ℕ) → scale (pos a) n ≡ pos (a * n)
scale_pos a n = ground arith

to_size_pos : (n : ℕ) → n < 2 ^ 32 → to_size (pos n) ≡ n
unfolding to_size
to_size_pos n h = omega arith

pub row_le : (h rb size : ℕ) → 0 < h → h * rb ≤ size → rb ≤ size
row_le h rb size p q = grind arith

-- A rectangle of the source lies in its block.
source_fits :
    (sy sx j w h rb hs size : ℕ)
    → j < h
    → sy + h ≤ hs
    → sx * 4 + w * 4 ≤ rb
    → hs * rb ≤ size
    → sy * rb + sx * 4 + j * rb + w * 4 ≤ size
source_fits sy sx j w h rb hs size hj hh hw hsz = grind (arith, below_row (sy + j) hs rb)

module _ (g : Gr) (source : GrSurface) (v : IsValid g) (vs : IsSurface source) where
  blit_rows-Draws :
      (sx sy w h : ℕ) (dx dy : ℤ)
      → sx + w ≤ source.width
      → sy + h ≤ source.height
      → (outside g dx dy || outside g (dx +ℤ pos w -ℤ pos 1) (dy +ℤ pos h -ℤ pos 1)) ≡ false
      → Draws g
          (λ y c old.
            if in_box dx dy w h (c / 4) y
            then source.bytes.byte (
                sy * source.row_bytes
                + sx * 4
                + (y - pos_part dy) * source.row_bytes
                + (c - pos_part dx * 4))
            else old)
          (blit_rows g source.bytes source.row_bytes
              (w * 4)
              h
              (pos (sy * source.row_bytes + sx * 4))
              (pixel_at g dx dy)
            >>= λ m. some (with_bytes g m))
  unfolding blit_rows pixel_at
  blit_rows-Draws sx sy w h dx dy hw hh inside =
      let (nx, hx, ny, hy, nx2, hx2, ny2, hy2) =
        corners_inside g dx dy (dx +ℤ pos w) (dy +ℤ pos h) inside in
      let s = v.surface in
      let rb = g.draw.row_bytes in
      let srb = source.row_bytes in
      let s0 = sy * srb + sx * 4 in
      let start : pixel_at g dx dy ≡ pos_part dy * rb + pos_part dx * 4 =
        ap (λ (b : ℕ). pos_part dy * rb + pos_part dx * b) s.pixel in
      let (m', e, size, at) =
        rect-at (λ s d m. memcpy m d source.bytes s (w * 4)) h (w * 4) srb rb s0 (pos_part dy)
          (pos_part dx * 4) g.draw.height (λ j t old. source.bytes.byte (s0 + j * srb + t))
          g.draw.bytes (omega (arith, +ℤ_parts dx (pos w))) (omega (arith, +ℤ_parts dy (pos h)))
          s.block
          (λ j s' d' hj es.
            subst
              (λ a.
                Paints (w * 4) (λ t old. source.bytes.byte (a + t))
                  (λ m. memcpy m d' source.bytes s' (w * 4)) d')
              es
              (memcpy-Paints source.bytes s' d' (w * 4) (
                omega (
                  arith,
                  source_fits sy sx j w h srb source.height source.bytes.size hj hh
                      (omega (arith, vs.row)) vs.block,
                )))) in
      record {
        final = m';
        returns = rw (start, e);
        size = size;
        at = λ y c hy hc. at y c hc ∙ ground arith;
      }

  -- The length of a row, as the size_t that memcpy is given.
  row_size :
      (dx dy : ℤ) (w h : ℕ)
      → (outside g dx dy || outside g (dx +ℤ pos w -ℤ pos 1) (dy +ℤ pos h -ℤ pos 1)) ≡ false
      → to_size (scale (pos w) source.pixel_bytes) ≡ w * 4
  row_size dx dy w h inside =
      let (nx, hx, ny, hy, nx2, hx2, ny2, hy2) =
        corners_inside g dx dy (dx +ℤ pos w) (dy +ℤ pos h) inside in
      let s = v.surface in
      let four = ap (λ (b : ℕ). w * b) vs.pixel in
      let room = row_le g.draw.height g.draw.row_bytes g.draw.bytes.size (omega arith) s.block in
      let small : w * 4 < 2 ^ 32 = omega (arith, +ℤ_parts dx (pos w), s.row, s.addressable) in
      ap to_size (scale_pos w source.pixel_bytes ∙ ap pos four) ∙ to_size_pos (w * 4) small

  -- The source pointer of the first row.
  source_start :
      (sx sy : ℕ)
      → scale (pos sy) source.row_bytes +ℤ scale (pos sx) source.pixel_bytes
        ≡ pos (sy * source.row_bytes + sx * 4)
  source_start sx sy =
      rw (scale_pos sy source.row_bytes, scale_pos sx source.pixel_bytes)
        (pos-+ℤ _ _ ∙ ap (λ (b : ℕ). pos (sy * source.row_bytes + sx * b)) vs.pixel)

  blit_at-Draws :
      (sx sy w h : ℕ) (dx dy : ℤ)
      → sx + w ≤ source.width
      → sy + h ≤ source.height
      → Draws g
          (blitted g source sx sy w h dx dy)
          (blit_at g source (pos sx) (pos sy) (pos w) (pos h) dx dy)
  unfolding blit_at
  blit_at-Draws sx sy w h dx dy hw hh =
      let out = outside g dx dy || outside g (dx +ℤ pos w -ℤ pos 1) (dy +ℤ pos h -ℤ pos 1) in
      elim (Bool-cases out) [
        | inl off ↦
            let no = contains-corners g dx dy (dx +ℤ pos w) (dy +ℤ pos h) true off in
            Draws-eq (Draws-same g _ (λ y c old. rw no)) (rw off)
        | inr on ↦
            let yes_ = contains-corners g dx dy (dx +ℤ pos w) (dy +ℤ pos h) false on in
            Draws-eq (Draws-ext (blit_rows-Draws sx sy w h dx dy hw hh on) (λ y c old. rw yes_))
              (rw (on, row_size dx dy w h on, source_start sx sy))
      ]

-- On a valid state, with a box inside a source of the same pixel size, gr_blit never accesses memory
-- outside the two surfaces, and it copies the box to the given point with the overscan offsets added,
-- exactly as `blitted` says of each byte: all of it or, if its first or last pixel does not lie on the
-- surface, nothing. Nothing else changes.
pub gr_blit-Draws :
    (g : Gr) (source : GrSurface) (sx sy w h : ℕ) (dx dy : ℤ)
    → IsValid g
    → IsSurface source
    → sx + w ≤ source.width
    → sy + h ≤ source.height
    → Draws g
        (blitted g source sx sy w h (dx +ℤ pos g.overscan_offset_x) (dy +ℤ pos g.overscan_offset_y))
        (gr_blit g (some source) (pos sx) (pos sy) (pos w) (pos h) dx dy)
unfolding gr_blit
gr_blit-Draws g source sx sy w h dx dy v vs hw hh =
    let same : (g.draw.pixel_bytes == source.pixel_bytes) ≡ true =
      ground (arith, v.surface.pixel, vs.pixel) in
    Draws-eq
      (blit_at-Draws g source v vs sx sy w h (dx +ℤ pos g.overscan_offset_x)
        (dy +ℤ pos g.overscan_offset_y) hw hh)
      (rw same)
