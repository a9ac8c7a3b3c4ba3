-- ===== src/SameText.antt =====
-- The text of the two recoveries: gr_textEx and gr_measureEx of recovery/twrp-graphics.c against
-- gr_text and gr_measure of configs/recovery/graphics.c, with the font that both take from the
-- compiled-in one.
use android_device_samsung_c.Base.{
  ℕ, ◌+◌, ◌*◌, ◌^◌, ◌≤◌, ◌<◌, ◌≡◌, refl, ◌∙◌, ap, sym, List, [], ◌∷◌, Bool, true, false, Bool-cases,
  ltb→lt, inl, inr, some, none, ltb, length, arith,
}
use android_device_samsung_c.Word.{◌+32◌, ◌-32◌, ◌*32◌, zero-+32, *32-lt}
use android_device_samsung_c.Pixelflinger.{Texture, after}
use android_device_samsung_c.Rle.Decode.{expand, ends, rle_loop-Painted}
use android_device_samsung_c.Twrp
use android_device_samsung_c.Twrp.{
  Ttf, glyph_of, glyph_width, measure_loop, gr_measure_ex, gr_text_ex, prepare,
}
use android_device_samsung_c.Twrp.Font
use android_device_samsung_c.Twrp.Measure.{printable, text_loop-x, with_font-bitmap}
use android_device_samsung_c.Cwm
use android_device_samsung_c.Cwm.{gr_text, gr_measure}
use android_device_samsung_c.Cwm.Text.{cell_zero, measured, text_loop-cells}

-- The two recoveries' records of one font, whose glyphs have one width.
record IsAlike (t : Twrp.GrFont) (c : Cwm.GrFont) : Type 0 where
  pub bitmap : t.is_ttf ≡ false
  pub offset : (i : ℕ) → i ≤ 96 → t.offset i ≡ i *32 c.cwidth
  pub cwidth : c.cwidth < 2 ^ 32
  pub cheight : t.cheight ≡ c.cheight

step : (i w : ℕ) → w < 2 ^ 32 → ((i + 1) *32 w) -32 (i *32 w) ≡ w
unfolding ◌*32◌ ◌-32◌
step i w h = let e : (i + 1) * w ≡ i * w + w = grind arith in omega (arith, e)

text_loop-glyph :
    (c : Cwm.GrFont) (x y ch : ℕ) (s : List ℕ)
    → ltb (glyph_of ch) 96 ≡ true
    → Cwm.text_loop c x y (ch ∷ s)
      ≡ after (Cwm.glyph_calls c (glyph_of ch) x y) (Cwm.text_loop c (x +32 c.cwidth) y s)
unfolding Cwm.text_loop glyph_of
text_loop-glyph c x y ch s h = rw h refl

module _ (t : Twrp.GrFont) (c : Cwm.GrFont) (a : IsAlike t c) where
  glyph_width-IsAlike : (i : ℕ) → i < 96 → glyph_width t i ≡ c.cwidth
  unfolding glyph_width
  glyph_width-IsAlike i h =
      rw (a.offset (i + 1) (omega arith), a.offset i (omega arith)) (step i c.cwidth a.cwidth)

  text_loop-IsAlike :
      (x y : ℕ) (s : List ℕ) → Twrp.text_loop t x y s ≡ Cwm.text_loop c x y (printable s)
  unfolding Twrp.text_loop Cwm.text_loop printable Twrp.glyph_calls Cwm.glyph_calls glyph_of
  text_loop-IsAlike x y [] = refl
  text_loop-IsAlike x y (ch ∷ s) = elim (Bool-cases (ltb (glyph_of ch) 96)) [
    | inr other ↦ rw other (text_loop-IsAlike x y s)
    | inl drawn ↦
        let off = glyph_of ch in
        let at : off < 96 = ltb→lt off 96 drawn in
        let w = glyph_width-IsAlike off at in
        let o = a.offset off (omega arith) in
        rw (drawn, w, o, a.cheight)
          (ap (after (Cwm.glyph_calls c off x y)) (text_loop-IsAlike (x +32 c.cwidth) y s)
            ∙ sym (text_loop-glyph c x y ch (printable s) drawn))
  ]

  measure_loop-IsAlike : (s : List ℕ) → measure_loop t 0 s ≡ c.cwidth *32 length (printable s)
  measure_loop-IsAlike s =
      let n = length (printable s) in
      sym (text_loop-x t 0 0 s (omega arith))
      ∙ ap (λ d. d.1) (text_loop-IsAlike 0 0 s)
      ∙ ap (λ x. (Cwm.text_loop c x 0 (printable s)).1) (sym (cell_zero 0 c.cwidth (omega arith)))
      ∙ ap (λ d. d.1) (text_loop-cells c 0 0 0 (printable s))
      ∙ ap (λ w. 0 +32 w) (measured n c.cwidth)
      ∙ zero-+32 (c.cwidth *32 n) (*32-lt c.cwidth n)

  gr_text_ex-IsAlike :
      (ttf : Ttf) (x y : ℕ) (s : List ℕ) (bold : Bool)
      → (gr_text_ex ttf (some t) x (y -32 c.ascent) s none
          ≡ gr_text (some c) x y (printable s) bold)
        × (gr_measure_ex ttf (some t) s none ≡ gr_measure (some c) (printable s))
  unfolding gr_text_ex gr_measure_ex gr_text gr_measure
  gr_text_ex-IsAlike ttf x y s bold = (
    with_font-bitmap (some t) none t refl a.bitmap _
          (λ f. after prepare (Twrp.text_loop f x (y -32 c.ascent) s))
        ∙ ap (λ d. some (after prepare d)) (text_loop-IsAlike x (y -32 c.ascent) s),
    with_font-bitmap (some t) none t refl a.bitmap _ (λ f. measure_loop f 0 s)
        ∙ ap some (measure_loop-IsAlike s),
  )

-- The font header of the ClockworkMod recovery, as that of TWRP, which has no cheight.
abbrev pub twrp_font : Cwm.CompiledFont → Twrp.Font.CompiledFont
twrp_font f = record { width = f.width; height = f.height; cwidth = f.cwidth; rundata = f.rundata }

-- A code that ends, for no more bytes than the texture has, and one row of glyphs.
pub record IsOneRow (f : Cwm.CompiledFont) : Type 0 where
  pub code : ends f.rundata ≡ true
  pub room : length (expand f.rundata) ≤ f.width *32 f.height
  pub cwidth : f.cwidth < 2 ^ 32
  pub row : f.cheight ≡ f.height

-- From one compiled-in font, with a code that ends and stands for no more bytes than the texture
-- has, and a texture as high as its glyphs, gr_init_font of either recovery makes a font without a
-- fault. With these, whatever the text, gr_textEx of TWRP, at a y less by the font's ascent, makes
-- the very calls and returns the x that gr_text of the ClockworkMod recovery does for the text's
-- characters that have a glyph, and gr_measureEx returns what gr_measure does for these.
pub gr_text_ex-gr_text :
    (f : Cwm.CompiledFont) (bits : ℕ → ℕ) (ttf : Ttf) (x y : ℕ) (s : List ℕ) (bold : Bool)
    → IsOneRow f
    → (t : Twrp.GrFont) × (Twrp.Font.gr_init_font (twrp_font f) bits ≡ some t)
      × (c : Cwm.GrFont) × (Cwm.gr_init_font f bits ≡ some c)
      × (gr_text_ex ttf (some t) x (y -32 c.ascent) s none
          ≡ gr_text (some c) x y (printable s) bold)
      × (gr_measure_ex ttf (some t) s none ≡ gr_measure (some c) (printable s))
unfolding Twrp.Font.gr_init_font Cwm.gr_init_font
gr_text_ex-gr_text f bits ttf x y s bold o =
    let n = f.width *32 f.height in
    let (m, e, p) =
      rle_loop-Painted f.rundata 0 (record { size = n; byte = bits }) o.code
        (omega (arith, o.room)) in
    let texture : Texture = record {
      width = f.width;
      height = f.height;
      stride = f.width;
      bits = m;
    } in
    let t : Twrp.GrFont = record {
      is_ttf = false;
      texture = texture;
      offset = λ element. element *32 f.cwidth;
      cheight = f.height;
      ascent = f.height -32 2;
    } in
    let c : Cwm.GrFont = record {
      texture = texture;
      cwidth = f.cwidth;
      cheight = f.cheight;
      ascent = f.cheight -32 2;
    } in
    let alike : IsAlike t c = record {
      bitmap = refl;
      offset = λ i h. refl;
      cwidth = o.cwidth;
      cheight = sym o.row;
    } in
    let (text, measure) = gr_text_ex-IsAlike t c alike ttf x y s bold in
    (t, rw e refl, c, rw e refl, text, measure)
