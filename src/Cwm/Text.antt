-- ===== src/Cwm/Text.antt =====
-- gr_text and gr_measure of configs/recovery/graphics.c: the cells of a text.
use android_device_samsung_c.Base.{
  ℕ, suc, ◌+◌, ◌*◌, ◌^◌, ◌<◌, ◌≡◌, refl, ◌∙◌, ap, sym, List, [], ◌∷◌, ◌++◌, Bool, some, ltb,
  if◌then◌else◌, length, arith,
}
use android_device_samsung_c.Word.{◌+32◌, ◌-32◌, ◌*32◌}
use android_device_samsung_c.Pixelflinger.{Call, bind_texture, one_to_one, after}
use android_device_samsung_c.Cwm.{GrFont, glyph_calls, text_loop, gr_text, gr_measure}

-- The calls for the characters of a text whose first character has the cell i, counted from x.
unfoldable pub cells : GrFont → (x y i : ℕ) → List ℕ → List Call
cells f x y i [] = []
cells f x y i (ch ∷ s) =
    (if ltb (ch -32 32) 96 then glyph_calls f (ch -32 32) (x +32 (i *32 f.cwidth)) y else [])
    ++ cells f x y (i + 1) s

next_cell : (x i w : ℕ) → (x +32 (i *32 w)) +32 w ≡ x +32 ((i + 1) *32 w)
unfolding ◌+32◌ ◌*32◌
next_cell x i w = let e : (i + 1) * w ≡ i * w + w = grind arith in omega (arith, e)

pub text_loop-cells :
    (f : GrFont) (x y i : ℕ) (s : List ℕ)
    → text_loop f (x +32 (i *32 f.cwidth)) y s
      ≡ (cells f x y i s, x +32 ((i + length s) *32 f.cwidth))
unfolding text_loop cells
text_loop-cells f x y i [] = let e : i + 0 ≡ i = omega arith in rw e refl
text_loop-cells f x y i (ch ∷ s) =
    let e : i + suc (length s) ≡ i + 1 + length s = omega arith in
    rw (e, next_cell x i f.cwidth)
      (ap
        (after
          (if ltb (ch -32 32) 96 then glyph_calls f (ch -32 32) (x +32 (i *32 f.cwidth)) y else []))
        (text_loop-cells f x y (i + 1) s))

pub cell_zero : (x w : ℕ) → x < 2 ^ 32 → x +32 (0 *32 w) ≡ x
unfolding ◌+32◌ ◌*32◌
cell_zero x w h = let e : 0 * w ≡ 0 = omega arith in omega (arith, e)

pub measured : (n w : ℕ) → (0 + n) *32 w ≡ w *32 n
unfolding ◌*32◌
measured n w = let e : (0 + n) * w ≡ w * n = grind arith in omega (arith, e)

-- With a font and x < 2 ^ 32, gr_text draws each character of a text that has a glyph in a cell of
-- its own, at x plus as many widths of a cell as characters stand before it, with or without a
-- glyph; it returns x plus what gr_measure returns for the text, all in 32-bit arithmetic.
pub gr_text-cells :
    (f : GrFont) (x y : ℕ) (s : List ℕ) (bold : Bool)
    → x < 2 ^ 32
    → (w : ℕ) × (gr_measure (some f) s ≡ some w)
      × (gr_text (some f) x y s bold
          ≡ some (after (bind_texture ∷ one_to_one) (cells f x (y -32 f.ascent) 0 s, x +32 w)))
unfolding gr_text gr_measure
gr_text-cells f x y s bold h =
    let y' = y -32 f.ascent in
    let calls = cells f x y' 0 s in
    (
      f.cwidth *32 length s,
      refl,
      ap (λ d. some (after (bind_texture ∷ one_to_one) d))
          (ap (λ a. text_loop f a y' s) (sym (cell_zero x f.cwidth h))
            ∙ text_loop-cells f x y' 0 s
            ∙ ap (λ n. (calls, x +32 n)) (measured (length s) f.cwidth)),
    )
