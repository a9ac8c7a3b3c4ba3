-- ===== src/Twrp/Font/Compiled.antt =====
-- gr_init_font of recovery/twrp-graphics.c: the compiled-in font has glyphs of one width.
use android_device_samsung_c.Base.{
  ℕ, ◌+◌, ◌*◌, ◌^◌, ◌≤◌, ◌<◌, ◌≡◌, refl, ◌∙◌, true, false, some, length, get_or, arith,
}
use android_device_samsung_c.Word.{◌-32◌, ◌*32◌}
use android_device_samsung_c.Rle.Decode.{expand, ends, rle_loop-Painted}
use android_device_samsung_c.Twrp.{GrFont, glyph_width}
use android_device_samsung_c.Twrp.Font.RoundTrip.{times}
use android_device_samsung_c.Twrp.Font.{CompiledFont, gr_init_font}

-- A code that ends, for no more bytes than the texture has, and columns of the glyphs below 2 ^ 32.
pub record IsSound (f : CompiledFont) : Type 0 where
  pub code : ends f.rundata ≡ true
  pub room : length (expand f.rundata) ≤ f.width * f.height
  pub small : f.width * f.height < 2 ^ 32
  pub columns : 96 * f.cwidth < 2 ^ 32

-- A font whose glyphs all have one width, and whose texture holds a list of bytes.
pub record IsEven (f : CompiledFont) (bits : ℕ → ℕ) (font : GrFont) : Type 0 where
  pub bitmap : font.is_ttf ≡ false
  pub width : font.texture.width ≡ f.width
  pub height : font.texture.height ≡ f.height
  pub size : font.texture.bits.size ≡ f.width * f.height
  pub glyph : (i : ℕ) → i < 96 → glyph_width font i ≡ f.cwidth
  pub texel :
      (t : ℕ)
      → t < length (expand f.rundata)
      → font.texture.bits.byte t ≡ get_or (expand f.rundata) t (bits t)

even : (i w : ℕ) → i < 96 → 96 * w < 2 ^ 32 → ((i + 1) *32 w) -32 (i *32 w) ≡ w
unfolding ◌*32◌ ◌-32◌
even i w h k =
    let e : (i + 1) * w ≡ i * w + w = grind arith in
    let l : (i + 1) * w ≤ 96 * w = grind arith in omega arith

-- With a compiled-in font whose code ends and stands for no more bytes than the texture has,
-- gr_init_font does not fault; every glyph is as wide as the font says, and the texture begins with
-- the bytes that the code stands for.
pub gr_init_font-IsEven :
    (f : CompiledFont) (bits : ℕ → ℕ)
    → IsSound f
    → (font : GrFont) × (gr_init_font f bits ≡ some font) × IsEven f bits font
unfolding gr_init_font glyph_width
gr_init_font-IsEven f bits s =
    let n = f.width *32 f.height in
    let en = times f.width f.height s.small in
    let (m, e, p) =
      rle_loop-Painted f.rundata 0 (record { size = n; byte = bits }) s.code
        (omega (arith, s.room, en)) in
    (
      record {
        is_ttf = false;
        texture = record { width = f.width; height = f.height; stride = f.width; bits = m };
        offset = λ element. element *32 f.cwidth;
        cheight = f.height;
        ascent = f.height -32 2;
      },
      rw e refl,
      record {
        bitmap = refl;
        width = refl;
        height = refl;
        size = p.size ∙ en;
        glyph = λ i h. even i f.cwidth h s.columns;
        texel = λ t h. let at : 0 + t ≡ t = omega arith in rw at at (p.inside t h);
      },
    )
