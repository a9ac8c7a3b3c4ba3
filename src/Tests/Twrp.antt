-- ===== src/Tests/Twrp.antt =====
-- The text functions of twrp-graphics.c on small inputs, and against those of graphics.c.
use android_device_samsung_c.Base.{ℕ, ◌*◌, ◌≡◌, refl, none, some, List, [], ◌∷◌, true, false, arith}
use android_device_samsung_c.Word.{◌+32◌, ◌-32◌, ◌*32◌, slt}
use android_device_samsung_c.Pixelflinger.{Drawn}
use android_device_samsung_c.Twrp.{
  GrFont, Ttf, glyph_of, glyph_width, measure_loop, gr_measure_ex, max_loop, gr_max_ex_w,
  gr_text_ex, gr_text_ex_w,
}
use android_device_samsung_c.Twrp.Measure.{IsNarrow, IsMost, printable, gr_max_ex_w-IsMost}
use android_device_samsung_c.Twrp.Draw.{within_width, gr_text_ex_w-within}
use android_device_samsung_c.Twrp.Font.{gr_init_font}
use android_device_samsung_c.Cwm
use android_device_samsung_c.Rle.Decode.{ends, run, expand}
use android_device_samsung_c.SameText.{IsOneRow, twrp_font, gr_text_ex-gr_text}

abbrev fixed : GrFont
fixed = record {
  is_ttf = false;
  texture = record {
    width = 960;
    height = 18;
    stride = 960;
    bits = record { size = 17280; byte = λ i. 0 };
  };
  offset = λ i. i * 10;
  cheight = 18;
  ascent = 16;
}

abbrev no_ttf : Ttf
no_ttf = record {
  measure_ex = λ s font. none;
  max_ex_w = λ s font max_width. none;
  text_ex_wh = λ x y s font max_width max_height. none;
}

-- "Hi\n!"
abbrev text : List ℕ
text = 72 ∷ 105 ∷ 10 ∷ 33 ∷ []

measured : gr_measure_ex no_ttf (some fixed) text none ≡ some 30
unfolding gr_measure_ex measure_loop glyph_width glyph_of ◌+32◌ ◌-32◌
measured = refl

fitting : gr_max_ex_w no_ttf (some fixed) text none 25 ≡ some 2
unfolding gr_max_ex_w max_loop glyph_width glyph_of slt ◌-32◌
fitting = refl

fixed-IsNarrow : IsNarrow fixed
unfolding IsNarrow glyph_width ◌-32◌
fixed-IsNarrow i h = omega arith

gr_max_ex_w-IsMost_example :
    (n : ℕ) × (gr_max_ex_w no_ttf (some fixed) text none 25 ≡ some n)
    × IsMost fixed 25 (printable text) n
gr_max_ex_w-IsMost_example =
    gr_max_ex_w-IsMost no_ttf (some fixed) none fixed refl refl text 25 fixed-IsNarrow (omega arith)

gr_text_ex_w-within_example :
    (d : Drawn) × (gr_text_ex_w no_ttf (some fixed) 5 7 text none 20 ≡ some d)
    × (within_width 20 (d.0) ≡ true)
    × (slt 20 (d.1) ≡ false)
unfolding slt
gr_text_ex_w-within_example =
    gr_text_ex_w-within no_ttf (some fixed) none fixed refl refl 5 7 text 20 refl

-- The head of a font: two columns and two rows, white but for the last pixel.
abbrev header : Cwm.CompiledFont
header = record { width = 2; height = 2; cwidth = 1; cheight = 2; rundata = 131 ∷ 1 ∷ 0 ∷ [] }

header-IsOneRow : IsOneRow header
unfolding ends expand run ◌*32◌
header-IsOneRow = record { code = refl; room = omega arith; cwidth = omega arith; row = refl }

gr_text_ex-gr_text_example :
    (t : GrFont) × (gr_init_font (twrp_font header) (λ i. i) ≡ some t)
    × (c : Cwm.GrFont) × (Cwm.gr_init_font header (λ i. i) ≡ some c)
    × (gr_text_ex no_ttf (some t) 5 (20 -32 c.ascent) text none
        ≡ Cwm.gr_text (some c) 5 20 (printable text) false)
    × (gr_measure_ex no_ttf (some t) text none ≡ Cwm.gr_measure (some c) (printable text))
gr_text_ex-gr_text_example =
    gr_text_ex-gr_text header (λ i. i) no_ttf 5 20 text false header-IsOneRow
