-- ===== src/Twrp/Draw.antt =====
-- What the text functions of recovery/twrp-graphics.c draw: gr_textEx against its own runs on the
-- two parts of a text, gr_textExW and gr_textExWH against their bounds, and gr_textExW against
-- gr_textEx.
use android_device_samsung_c.Base.{
  ℕ, ◌+◌, ◌^◌, ◌<◌, ◌≡◌, refl, ◌∙◌, inl, inr, List, [], ◌∷◌, ◌++◌, Bool, true, false, not, ◌&&◌,
  Bool-cases, Option, some, ltb, if◌then◌else◌, length, arith, ap, sym,
}
use android_device_samsung_c.Word.{◌+32◌, slt}
use android_device_samsung_c.Pixelflinger.{Call, recti, Drawn, after}
use android_device_samsung_c.Twrp.{
  GrFont, pick, glyph_of, glyph_width, glyph_calls, prepare, Ttf, with_font, text_loop, text_w_loop,
  text_wh_loop, gr_text_ex, gr_text_ex_w, gr_text_ex_wh,
}
use android_device_samsung_c.Twrp.Measure.{printable, width, with_font-bitmap}

-- No rectangle reaches beyond max_width, as an `int`.
unfoldable pub within_width : (max_width : ℕ) → List Call → Bool
within_width mw [] = true
within_width mw (recti l t r b ∷ calls) = not (slt mw r) && within_width mw calls
within_width mw (_ ∷ calls) = within_width mw calls

-- No rectangle reaches below max_height, as an `unsigned`.
unfoldable pub within_height : (max_height : ℕ) → List Call → Bool
within_height mh [] = true
within_height mh (recti l t r b ∷ calls) = not (ltb mh b) && within_height mh calls
within_height mh (_ ∷ calls) = within_height mh calls

slt_irrefl : (a : ℕ) → slt a a ≡ false
unfolding slt
slt_irrefl a = ground arith

slt_asym : (a b : ℕ) → slt a b ≡ true → slt b a ≡ false
unfolding slt
slt_asym a b h = ground arith

text_w_loop-within :
    (f : GrFont) (mw x y : ℕ) (s : List ℕ)
    → slt mw x ≡ false
    → (within_width mw (text_w_loop f mw x y s).0 ≡ true)
      × (slt mw (text_w_loop f mw x y s).1 ≡ false)
unfolding text_w_loop within_width glyph_calls
text_w_loop-within f mw x y [] h = (refl, h)
text_w_loop-within f mw x y (ch ∷ s) h = elim (Bool-cases (ltb (glyph_of ch) 96)) [
  | inr other ↦ rw other (text_w_loop-within f mw x y s h)
  | inl drawn ↦
      let r = x +32 glyph_width f (glyph_of ch) in
      elim (Bool-cases (slt r mw)) [
        | inl fits ↦
            let at = slt_asym r mw fits in rw (drawn, fits, at) (text_w_loop-within f mw r y s at)
        | inr cut ↦ let at = slt_irrefl mw in rw (drawn, cut, at) (refl, refl)
      ]
]

clipped_right : (r mw : ℕ) → slt mw (if slt r mw then r else mw) ≡ false
clipped_right r mw = elim (Bool-cases (slt r mw)) [
  | inl fits ↦ rw fits (slt_asym r mw fits)
  | inr cut ↦ rw cut (slt_irrefl mw)
]

clipped_bottom : (b mh : ℕ) → ltb mh (if ltb b mh then b else mh) ≡ false
clipped_bottom b mh = ground arith

text_wh_loop-within :
    (f : GrFont) (mw mh x y : ℕ) (s : List ℕ)
    → (within_width mw (text_wh_loop f mw mh x y s).0 ≡ true)
      × (within_height mh (text_wh_loop f mw mh x y s).0 ≡ true)
unfolding text_wh_loop within_width within_height glyph_calls
text_wh_loop-within f mw mh x y [] = (refl, refl)
text_wh_loop-within f mw mh x y (ch ∷ s) = elim (Bool-cases (ltb (glyph_of ch) 96)) [
  | inr other ↦ rw other (text_wh_loop-within f mw mh x y s)
  | inl drawn ↦
      let r = x +32 glyph_width f (glyph_of ch) in
      let right = clipped_right r mw in
      let bottom = clipped_bottom (y +32 f.cheight) mh in
      elim (Bool-cases (slt mw r)) [
        | inl past ↦ rw (drawn, past, right, bottom) (refl, refl)
        | inr on ↦ rw (drawn, on, right, bottom) (text_wh_loop-within f mw mh r y s)
      ]
]

text_loop-append :
    (f : GrFont) (x y : ℕ) (s t : List ℕ)
    → text_loop f x y (s ++ t) ≡ after (text_loop f x y s).0 (text_loop f (text_loop f x y s).1 y t)
unfolding text_loop glyph_calls
text_loop-append f x y [] t = refl
text_loop-append f x y (ch ∷ s) t = elim (Bool-cases (ltb (glyph_of ch) 96)) [
  | inr other ↦ rw other (text_loop-append f x y s t)
  | inl drawn ↦
      let r = x +32 glyph_width f (glyph_of ch) in
      rw drawn (
        ap (after (glyph_calls f (glyph_of ch) x y r (y +32 f.cheight)))
          (text_loop-append f r y s t))
]

in_range : (x w : ℕ) → x + w < 2 ^ 31 → x +32 w ≡ x + w
unfolding ◌+32◌
in_range x w h = omega arith

slt_small : (a b : ℕ) → a < b → b < 2 ^ 31 → slt a b ≡ true
unfolding slt
slt_small a b h k = ground arith

text_w_loop-whole :
    (f : GrFont) (mw x y : ℕ) (s : List ℕ)
    → x + width f (length (printable s)) (printable s) < mw
    → mw < 2 ^ 31
    → text_w_loop f mw x y s ≡ text_loop f x y s
unfolding text_loop text_w_loop printable width
text_w_loop-whole f mw x y [] h k = refl
text_w_loop-whole f mw x y (ch ∷ s) h k = elim (Bool-cases (ltb (glyph_of ch) 96)) [
  | inr other ↦
      let room : x + width f (length (printable s)) (printable s) < mw = rw other at h in
      rw other (text_w_loop-whole f mw x y s room k)
  | inl drawn ↦
      let w = glyph_width f (glyph_of ch) in
      let n = width f (length (printable s)) (printable s) in
      let room : x + (w + n) < mw = rw drawn at h in
      let r = in_range x w (omega arith) in
      let fits = slt_small (x + w) mw (omega arith) k in
      let rest = text_w_loop-whole f mw (x + w) y s (omega arith) k in
      rw (drawn, r, fits, rest) refl
]

module _ (t : Ttf) (gr_font font : Option GrFont) (f : GrFont)
    (has_font : pick font gr_font ≡ some f) (is_bitmap : f.is_ttf ≡ false) where
  around :
      (ttf : Option Drawn) (loop : GrFont → Drawn) → with_font gr_font font ttf loop ≡ some (loop f)
  around = with_font-bitmap gr_font font f has_font is_bitmap

  -- With a bitmap font, given or the default, gr_textEx on a text s ++ s' returns, and makes,
  -- behind the calls that prepare, the calls that it makes for s and then those that it makes for
  -- s' from the x that it returns for s; it returns the same x as the second of these.
  pub gr_text_ex-append :
      (x y : ℕ) (s s' : List ℕ)
      → (d e : Drawn) × (gr_text_ex t gr_font x y s font ≡ some (after prepare d))
        × (gr_text_ex t gr_font d.1 y s' font ≡ some (after prepare e))
        × (gr_text_ex t gr_font x y (s ++ s') font ≡ some (after prepare (after d.0 e)))
  unfolding gr_text_ex
  gr_text_ex-append x y s s' =
      let d = text_loop f x y s in
      let e = text_loop f d.1 y s' in
      (
        d,
        e,
        around (t.text_ex_wh x y s font 4294967295 4294967295)
            (λ g. after prepare (text_loop g x y s)),
        around (t.text_ex_wh d.1 y s' font 4294967295 4294967295)
            (λ g. after prepare (text_loop g d.1 y s')),
        around (t.text_ex_wh x y (s ++ s') font 4294967295 4294967295)
              (λ g. after prepare (text_loop g x y (s ++ s')))
            ∙ (ap (λ a. some (after prepare a)) (text_loop-append f x y s s')),
      )

  -- With a bitmap font, given or the default, and an x that is not beyond max_width, gr_textExW
  -- returns; every rectangle that it draws ends at max_width or before, and so does the x that it
  -- returns.
  pub gr_text_ex_w-within :
      (x y : ℕ) (s : List ℕ) (max_width : ℕ)
      → slt max_width x ≡ false
      → (d : Drawn) × (gr_text_ex_w t gr_font x y s font max_width ≡ some d)
        × (within_width max_width d.0 ≡ true)
        × (slt max_width d.1 ≡ false)
  unfolding gr_text_ex_w within_width
  gr_text_ex_w-within x y s mw h =
      let (calls, last) = text_w_loop-within f mw x y s h in
      (
        after prepare (text_w_loop f mw x y s),
        around (t.text_ex_wh x y s font mw 4294967295)
            (λ g. after prepare (text_w_loop g mw x y s)),
        calls,
        last,
      )

  -- With a bitmap font, given or the default, gr_textExWH returns, and every rectangle that it
  -- draws ends at max_width or before, and at max_height or above.
  pub gr_text_ex_wh-within :
      (x y : ℕ) (s : List ℕ) (max_width max_height : ℕ)
      → (d : Drawn) × (gr_text_ex_wh t gr_font x y s font max_width max_height ≡ some d)
        × (within_width max_width d.0 ≡ true)
        × (within_height max_height d.0 ≡ true)
  unfolding gr_text_ex_wh within_width within_height
  gr_text_ex_wh-within x y s mw mh =
      let (right, bottom) = text_wh_loop-within f mw mh x y s in
      (
        after prepare (text_wh_loop f mw mh x y s),
        around (t.text_ex_wh x y s font mw mh) (λ g. after prepare (text_wh_loop g mw mh x y s)),
        right,
        bottom,
      )

  -- With a bitmap font, given or the default, if x and the width of the text, taken without
  -- wrap-around, add up to less than max_width, and that is less than 2 ^ 31, gr_textExW does what
  -- gr_textEx does.
  pub gr_text_ex_w-whole :
      (x y : ℕ) (s : List ℕ) (max_width : ℕ)
      → x + width f (length (printable s)) (printable s) < max_width
      → max_width < 2 ^ 31
      → gr_text_ex_w t gr_font x y s font max_width ≡ gr_text_ex t gr_font x y s font
  unfolding gr_text_ex_w gr_text_ex
  gr_text_ex_w-whole x y s mw h k =
      around (t.text_ex_wh x y s font mw 4294967295) (λ g. after prepare (text_w_loop g mw x y s))
      ∙ ap (λ a. some (after prepare a)) (text_w_loop-whole f mw x y s h k)
      ∙ sym (
          around (t.text_ex_wh x y s font 4294967295 4294967295)
            (λ g. after prepare (text_loop g x y s)))
