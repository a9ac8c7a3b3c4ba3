-- ===== src/Twrp/Measure.antt =====
-- What the measuring functions of recovery/twrp-graphics.c return: gr_measureEx against gr_textEx, and
-- gr_maxExW against the exact widths of the beginnings of a text.
use android_device_samsung_c.Base.{
  ℕ, zero, suc, ◌+◌, ◌-◌, ◌^◌, ◌≤◌, ◌<◌, ◌≡◌, refl, ◌∙◌, ◌⊎◌, inl, inr, List, [], ◌∷◌, ◌++◌, false,
  Bool-cases, Option, some, ltb, if◌then◌else◌, length, arith, ap, sym,
}
use android_device_samsung_c.Word.{◌+32◌, ◌-32◌, slt, +32-lt, -32-lt, +32_assoc, +32-zero, zero-+32}
use android_device_samsung_c.Pixelflinger.{Call, after}
use android_device_samsung_c.Twrp.{
  GrFont, Ttf, prepare, with_font, pick, glyph_of, glyph_width, measure_loop, gr_measure_ex,
  max_loop, gr_max_ex_w, text_loop, gr_text_ex,
}

glyph_width-lt : (f : GrFont) (i : ℕ) → glyph_width f i < 2 ^ 32
unfolding glyph_width
glyph_width-lt f i = -32-lt (f.offset (i + 1)) (f.offset i)

measure_from :
    (f : GrFont) (t : ℕ) (s : List ℕ) → t < 2 ^ 32 → measure_loop f t s ≡ t +32 measure_loop f 0 s
unfolding measure_loop
measure_from f t [] h = sym (+32-zero t h)
measure_from f t (ch ∷ s) h = elim (Bool-cases (ltb (glyph_of ch) 96)) [
  | inl drawn ↦
      let w = glyph_width f (glyph_of ch) in
      let at = measure_from f (t +32 w) s (+32-lt t w) in
      let at0 = measure_from f (0 +32 w) s (+32-lt 0 w) in
      let z = zero-+32 w (glyph_width-lt f (glyph_of ch)) in
      let assoc = +32_assoc t w (measure_loop f 0 s) in
      rw drawn
        (at ∙ assoc ∙ ap (λ a. t +32 a) (ap (λ a. a +32 measure_loop f 0 s) (sym z) ∙ sym at0))
  | inr other ↦ rw other (measure_from f t s h)
]

pub text_loop-x :
    (f : GrFont) (x y : ℕ) (s : List ℕ) → x < 2 ^ 32 → (text_loop f x y s).1 ≡ measure_loop f x s
unfolding text_loop measure_loop
text_loop-x f x y [] h = refl
text_loop-x f x y (ch ∷ s) h = elim (Bool-cases (ltb (glyph_of ch) 96)) [
  | inl drawn ↦
      let w = glyph_width f (glyph_of ch) in rw drawn (text_loop-x f (x +32 w) y s (+32-lt x w))
  | inr other ↦ rw other (text_loop-x f x y s h)
]

-- The characters that have a glyph.
unfoldable pub printable : List ℕ → List ℕ
printable [] = []
printable (ch ∷ s) = if ltb (glyph_of ch) 96 then ch ∷ printable s else printable s

-- The width of the first n characters of a text, without wrap-around.
unfoldable pub width : GrFont → (n : ℕ) → List ℕ → ℕ
width f zero s = 0
width f (suc n) [] = 0
width f (suc n) (ch ∷ s) = glyph_width f (glyph_of ch) + width f n s

-- Of the printable characters s, the first n are the most that are less wide than max_width.
pub record IsMost (f : GrFont) (max_width : ℕ) (s : List ℕ) (n : ℕ) : Type 0 where
  pub within : n ≤ length s
  pub fits : (n ≡ 0) ⊎ (width f n s < max_width)
  pub full : n < length s → max_width ≤ width f (n + 1) s

-- Every glyph has a width that is not negative as an `int`.
unfoldable pub IsNarrow : GrFont → Type 0
IsNarrow f = (i : ℕ) → i < 96 → glyph_width f i < 2 ^ 31

slt-left : (a w : ℕ) → a < 2 ^ 31 → w < 2 ^ 31 → slt 0 (a -32 w) ≡ ltb w a
unfolding slt ◌-32◌
slt-left a w h k = ground arith

left : (a w : ℕ) → a < 2 ^ 31 → w < a → a -32 w ≡ a - w
unfolding ◌-32◌
left a w h k = omega arith

max_loop-IsMost :
    (f : GrFont) (total max_width : ℕ) (s : List ℕ)
    → IsNarrow f
    → max_width < 2 ^ 31
    → (n : ℕ) × (max_loop f total max_width s ≡ total + n) × IsMost f max_width (printable s) n
unfolding max_loop printable width IsNarrow
max_loop-IsMost f total mw [] narrow h = (
  0,
  omega arith,
  record { within = omega arith; fits = inl refl; full = λ k. absurd (omega arith) },
)
max_loop-IsMost f total mw (ch ∷ s) narrow h = elim (Bool-cases (ltb (glyph_of ch) 96)) [
  | inr other ↦ rw other (max_loop-IsMost f total mw s narrow h)
  | inl drawn ↦
      let w = glyph_width f (glyph_of ch) in
      let nw : w < 2 ^ 31 = narrow (glyph_of ch) (ground arith) in
      elim (Bool-cases (ltb w mw)) [
        | inr over ↦
            rw (drawn, slt-left mw w h nw, over)
              (
                0,
                omega arith,
                record { within = omega arith; fits = inl refl; full = λ k. ground arith },
              )
        | inl room ↦
            let lw = left mw w h (ground arith) in
            let rest = max_loop-IsMost f (total + 1) (mw -32 w) s narrow (ground (arith, lw)) in
            rw (drawn, slt-left mw w h nw, room)
              (
                suc rest.0,
                omega (arith, rest.1),
                record {
                  within = omega (arith, rest.2.within);
                  fits = inr (elim rest.2.fits [
                    | inl z ↦ rw z (ground arith)
                    | inr u ↦ ground (arith, lw)
                  ]);
                  full = λ k. ground (arith, lw, rest.2.full);
                },
              )
      ]
]

-- For a bitmap font a text function runs its loop.
pub with_font-bitmap :
    {A : Type 0} (gr_font font : Option GrFont) (f : GrFont)
    → pick font gr_font ≡ some f
    → f.is_ttf ≡ false
    → (ttf : Option A) (loop : GrFont → A) → with_font gr_font font ttf loop ≡ some (loop f)
with_font-bitmap gr_font font f h b ttf loop = rw (h, with_font, b)

module _ (t : Ttf) (gr_font font : Option GrFont) (f : GrFont)
    (has_font : pick font gr_font ≡ some f) (is_bitmap : f.is_ttf ≡ false) where
  around :
      {A : Type 0} (ttf : Option A) (loop : GrFont → A)
      → with_font gr_font font ttf loop ≡ some (loop f)
  around = with_font-bitmap gr_font font f has_font is_bitmap

  -- For a bitmap font, given or the default, and x < 2 ^ 32, gr_measureEx and gr_textEx return, and
  -- the x that gr_textEx returns is the x that it is given plus what gr_measureEx returns for the
  -- same text, in the 32-bit arithmetic of the code.
  pub gr_text_ex-measure :
      (x y : ℕ) (s : List ℕ)
      → x < 2 ^ 32
      → (w : ℕ) × (gr_measure_ex t gr_font s font ≡ some w)
        × (calls : List Call) × (gr_text_ex t gr_font x y s font ≡ some (calls, x +32 w))
  unfolding gr_text_ex gr_measure_ex
  gr_text_ex-measure x y s h =
      let calls = prepare ++ (text_loop f x y s).0 in
      (
        measure_loop f 0 s,
        around (t.measure_ex s font) (λ g. measure_loop g 0 s),
        calls,
        around (t.text_ex_wh x y s font 4294967295 4294967295)
              (λ g. after prepare (text_loop g x y s))
            ∙ ap (λ x'. some (calls, x')) (text_loop-x f x y s h ∙ measure_from f x s h),
      )

  -- For a bitmap font, given or the default, whose glyph widths are not negative, and 0 <=
  -- max_width < 2 ^ 31, gr_maxExW returns the greatest number of printable characters from the
  -- first on that are together less wide than max_width.
  pub gr_max_ex_w-IsMost :
      (s : List ℕ) (max_width : ℕ)
      → IsNarrow f
      → max_width < 2 ^ 31
      → (n : ℕ) × (gr_max_ex_w t gr_font s font max_width ≡ some n)
        × IsMost f max_width (printable s) n
  unfolding gr_max_ex_w
  gr_max_ex_w-IsMost s mw narrow h =
      let (n, r, m) = max_loop-IsMost f 0 mw s narrow h in
      (n, around (t.max_ex_w s font mw) (λ g. max_loop g 0 mw s) ∙ ap some (r ∙ omega arith), m)
