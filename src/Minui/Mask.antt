-- ===== src/Minui/Mask.antt =====
-- A mask of bytes that text_blend of recovery/graphics.cpp draws in the current colour.
use android_device_samsung_c.Base.{
  ℕ, ◌+◌, ◌-◌, ◌*◌, ◌/◌, ◌%◌, ◌≤◌, ◌<◌, ◌≡◌, ◌∙◌, ap, subst, Bool, false, ◌&&◌, ◌||◌, some, ltb,
  if◌then◌else◌, ◌>>=◌, arith, ℤ, pos, ◌+ℤ◌, ◌-ℤ◌, leb_ℤ, pos_part, neg_part, +ℤ_parts,
}
use android_device_samsung_c.Memory.{Mem, within, rows}
use android_device_samsung_c.Memory.Painted.{Paints}
use android_device_samsung_c.Memory.Rows.{rect-at, row-Paints}
use android_device_samsung_c.Minui.{
  Gr, with_bytes, outside, pixel_at, put_text_px, text_alpha, text_blend,
}
use android_device_samsung_c.Minui.Drawing.{IsValid, tint, text_px-Paints}
use android_device_samsung_c.Minui.Draws.{Draws}
use android_device_samsung_c.Minui.Fill.{corners_inside}

-- The mask of `w` by `h` bytes at `src_p` lies in its block.
abbrev pub MaskFits : Mem → (src_p src_row_bytes w h : ℕ) → Type 0
MaskFits src src_p srb w h = (j : ℕ) → j < h → src_p + j * srb + w ≤ src.size

-- The pixel in column `x` and row `y` lies in the box of `w` by `h` pixels at (x0, y0).
abbrev pub in_box : (x0 y0 : ℤ) → (w h x y : ℕ) → Bool
in_box x0 y0 w h x y =
    (leb_ℤ x0 (pos x) && ltb x (pos_part x0 + w)) && (leb_ℤ y0 (pos y) && ltb y (pos_part y0 + h))

-- A mask drawn at (x0, y0): the pixel of the box in column `i` and row `j` takes the opacity of
-- byte `i` of row `j` of the mask.
abbrev pub masked : Gr → Mem → (src_p srb : ℕ) → (x0 y0 : ℤ) → (w h : ℕ) → (y c old : ℕ) → ℕ
masked g src src_p srb x0 y0 w h y c old =
    if in_box x0 y0 w h (c / 4) y
    then tint g (text_alpha g (src.byte (src_p + (y - pos_part y0) * srb + (c / 4 - pos_part x0))))
        (c % 4) old
    else old

-- The stretch of a row, by the pixels of its bytes.
rect-in_box :
    (x0 y0 : ℤ) (w h y c : ℕ) (f : ℕ → ℕ → ℕ → ℕ) (old : ℕ)
    → neg_part x0 ≡ 0
    → neg_part y0 ≡ 0
    → (if within (pos_part y0) (pos_part y0 + h) y
          && within (pos_part x0 * 4) (pos_part x0 * 4 + w * 4) c
        then f ((c - pos_part x0 * 4) / 4) ((c - pos_part x0 * 4) % 4) old
        else old)
      ≡ (if in_box x0 y0 w h (c / 4) y then f (c / 4 - pos_part x0) (c % 4) old else old)
rect-in_box x0 y0 w h y c f old nx ny = ground arith

module _ (g : Gr) (v : IsValid g) (src : Mem) (src_p srb : ℕ) (x0 y0 : ℤ) (w h : ℕ) where
  pub text_blend-Draws :
      MaskFits src src_p srb w h
      → (outside g x0 y0 || outside g (x0 +ℤ pos w -ℤ pos 1) (y0 +ℤ pos h -ℤ pos 1)) ≡ false
      → Draws g (masked g src src_p srb x0 y0 w h) (
          text_blend g src src_p srb (pixel_at g x0 y0) g.draw.row_bytes w h g.draw.bytes >>= λ m.
          some (with_bytes g m))
  unfolding text_blend pixel_at
  text_blend-Draws mask inside =
      let (nx, hx, ny, hy, nx2, hx2, ny2, hy2) =
        corners_inside g x0 y0 (x0 +ℤ pos w) (y0 +ℤ pos h) inside in
      let s = v.surface in
      let rb = g.draw.row_bytes in
      let c0 = pos_part x0 * 4 in
      let start : pixel_at g x0 y0 ≡ pos_part y0 * rb + c0 =
        ap (λ (b : ℕ). pos_part y0 * rb + pos_part x0 * b) s.pixel in
      let (m', e, size, at) =
        rect-at (λ s d. rows (put_text_px g src) 1 4 w s d) h (w * 4) srb rb src_p (pos_part y0) c0
          g.draw.height (λ j t. tint g (text_alpha g (src.byte (src_p + j * srb + t / 4))) (t % 4))
          g.draw.bytes (omega (arith, +ℤ_parts x0 (pos w))) (omega (arith, +ℤ_parts y0 (pos h)))
          s.block
          (λ j s' d' hj es.
            row-Paints (put_text_px g src) w s' d'
              (λ i. tint g (text_alpha g (src.byte (src_p + j * srb + i))))
              (λ i s'' d'' hi es' _.
                let es'' : s'' ≡ src_p + j * srb + i = omega arith in
                subst
                  (λ b.
                    Paints 4 (tint g (text_alpha g (src.byte b))) (put_text_px g src s'' d'') d'')
                  es'' (text_px-Paints g src s'' d'' (omega (arith, mask j hj))))) in
      record {
        final = m';
        returns = rw (start, e);
        size = size;
        at = λ y c hy hc.
            at y c hc
            ∙ rect-in_box x0 y0 w h y c
                (λ i. tint g (text_alpha g (src.byte (src_p + (y - pos_part y0) * srb + i))))
                (g.draw.bytes.byte (y * rb + c)) nx ny;
      }
