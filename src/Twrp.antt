-- ===== src/Twrp.antt =====
-- recovery/twrp-graphics.c: measuring and drawing text with the recovery's bitmap fonts, as calls
-- of the pixelflinger library (Pixelflinger). TrueType fonts are left to the functions gr_ttf_*,
-- which are not in the repository either; they are the parameter Ttf. An `int` or `unsigned` is a
-- 32-bit pattern (Word). A string is the list of its bytes before the NUL; `char` is unsigned on
-- ARM.
pub mod Measure
pub mod Circle
pub mod Draw
pub mod Screen
pub mod Font
pub mod Surfaces
pub mod Shapes
use android_device_samsung_c.Base.{
  ℕ, zero, suc, ◌+◌, ◌-◌, ◌<◌, List, [], ◌∷◌, ◌++◌, Bool, true, false, ◌&&◌, Option, none, some,
  ltb, if◌then◌else◌,
}
use android_device_samsung_c.Word.{◌+32◌, ◌-32◌, slt}
use android_device_samsung_c.Pixelflinger.{
  Call, bind_texture, tex_coord2i, recti, one_to_one, Texture, Drawn, after,
}

-- `offset` is the column in the texture at which each of the 96 glyphs begins, and where the last ends;
-- `is_ttf` is type == FONT_TYPE_TTF.
pub record GrFont : Type 0 where
  pub is_ttf : Bool
  pub texture : Texture
  pub offset : ℕ → ℕ
  pub cheight : ℕ
  pub ascent : ℕ

-- gr_ttf_measureEx, gr_ttf_maxExW and gr_ttf_textExWH, with the font as the caller gave it.
pub record Ttf : Type 0 where
  pub measure_ex : List ℕ → Option GrFont → Option ℕ
  pub max_ex_w : List ℕ → Option GrFont → (max_width : ℕ) → Option ℕ
  pub text_ex_wh : (x y : ℕ) → List ℕ → Option GrFont → (max_width max_height : ℕ) → Option Drawn

-- if (!fnt) fnt = gr_font; a font is used then, so a null one is a fault.
abbrev pub pick : (font gr_font : Option GrFont) → Option GrFont
pick none gr_font = gr_font
pick (some f) gr_font = some f

-- The function around a loop: the default font, and the other function for a TrueType font.
abbrev pub with_font {ℓ} :
    {A : Type ℓ} → (gr_font font : Option GrFont) → (ttf : Option A) → (GrFont → A) → Option A
with_font gr_font font ttf loop = elim (pick font gr_font) [
  | none ↦ none
  | some f ↦ if f.is_ttf then ttf else some (loop f)
]

-- off = *s++; off -= 32
unfoldable pub glyph_of : ℕ → ℕ
glyph_of ch = ch -32 32

-- fnt->offset[off+1] - fnt->offset[off]
unfoldable pub glyph_width : GrFont → ℕ → ℕ
glyph_width f off = f.offset (off + 1) -32 f.offset off

unfoldable pub measure_loop : GrFont → (total : ℕ) → List ℕ → ℕ
measure_loop f total [] = total
measure_loop f total (ch ∷ s) =
    measure_loop f (if ltb (glyph_of ch) 96 then total +32 glyph_width f (glyph_of ch) else total) s

unfoldable pub gr_measure_ex :
    Ttf → (gr_font : Option GrFont) → List ℕ → (font : Option GrFont) → Option ℕ
gr_measure_ex t gr_font s font =
    with_font gr_font font (t.measure_ex s font) (λ f. measure_loop f 0 s)

unfoldable pub max_loop : GrFont → (total max_width : ℕ) → List ℕ → ℕ
max_loop f total max_width [] = total
max_loop f total max_width (ch ∷ s) =
    let left = max_width -32 glyph_width f (glyph_of ch) in
    let fits = max_loop f (total + 1) left s in
    let skipped = max_loop f total max_width s in
    if ltb (glyph_of ch) 96 then (if slt 0 left then fits else total) else skipped

unfoldable pub gr_max_ex_w :
    Ttf → (gr_font : Option GrFont) → List ℕ → (font : Option GrFont) → (max_width : ℕ) → Option ℕ
gr_max_ex_w t gr_font s font max_width =
    with_font gr_font font (t.max_ex_w s font max_width) (λ f. max_loop f 0 max_width s)

-- The calls before the loop of each text function.
abbrev pub prepare : List Call
prepare = bind_texture ∷ one_to_one

-- gl->texCoord2i(gl, font->offset[off] - x, 0 - y); gl->recti(gl, x, y, right, bottom)
unfoldable pub glyph_calls : GrFont → (off x y right bottom : ℕ) → List Call
glyph_calls f off x y right bottom =
    tex_coord2i (f.offset off -32 x) (0 -32 y) ∷ recti x y right bottom ∷ []

unfoldable pub text_loop : GrFont → (x y : ℕ) → List ℕ → Drawn
text_loop f x y [] = ([], x)
text_loop f x y (ch ∷ s) =
    let off = glyph_of ch in
    let w = glyph_width f off in
    let drawn =
      after (glyph_calls f off x y (x +32 w) (y +32 f.cheight)) (text_loop f (x +32 w) y s) in
    let skipped = text_loop f x y s in if ltb off 96 then drawn else skipped

unfoldable pub text_w_loop : GrFont → (max_width x y : ℕ) → List ℕ → Drawn
text_w_loop f max_width x y [] = ([], x)
text_w_loop f max_width x y (ch ∷ s) =
    let off = glyph_of ch in
    let w = glyph_width f off in
    let whole =
      after (glyph_calls f off x y (x +32 w) (y +32 f.cheight))
        (text_w_loop f max_width (x +32 w) y s) in
    let cut : Drawn = (glyph_calls f off x y max_width (y +32 f.cheight), max_width) in
    let skipped = text_w_loop f max_width x y s in
    if ltb off 96 then (if slt (x +32 w) max_width then whole else cut) else skipped

unfoldable pub text_wh_loop : GrFont → (max_width max_height x y : ℕ) → List ℕ → Drawn
text_wh_loop f max_width max_height x y [] = ([], x)
text_wh_loop f max_width max_height x y (ch ∷ s) =
    let off = glyph_of ch in
    let w = glyph_width f off in
    let right = if slt (x +32 w) max_width then x +32 w else max_width in
    let bottom = if ltb (y +32 f.cheight) max_height then y +32 f.cheight else max_height in
    let calls = glyph_calls f off x y right bottom in
    let on = after calls (text_wh_loop f max_width max_height (x +32 w) y s) in
    let last : Drawn = (calls, x +32 w) in
    let skipped = text_wh_loop f max_width max_height x y s in
    if ltb off 96 then (if slt max_width (x +32 w) then last else on) else skipped

-- -1 as an argument
abbrev no_limit : ℕ
no_limit = 4294967295

unfoldable pub gr_text_ex :
    Ttf → (gr_font : Option GrFont) → (x y : ℕ) → List ℕ → (font : Option GrFont) → Option Drawn
gr_text_ex t gr_font x y s font =
    with_font gr_font font (t.text_ex_wh x y s font no_limit no_limit)
      (λ f. after prepare (text_loop f x y s))

unfoldable pub gr_text_ex_w :
    Ttf
    → (gr_font : Option GrFont) → (x y : ℕ) → List ℕ
    → (font : Option GrFont) → (max_width : ℕ) → Option Drawn
gr_text_ex_w t gr_font x y s font max_width =
    with_font gr_font font (t.text_ex_wh x y s font max_width no_limit)
      (λ f. after prepare (text_w_loop f max_width x y s))

unfoldable pub gr_text_ex_wh :
    Ttf
    → (gr_font : Option GrFont) → (x y : ℕ) → List ℕ
    → (font : Option GrFont) → (max_width max_height : ℕ) → Option Drawn
gr_text_ex_wh t gr_font x y s font max_width max_height =
    with_font gr_font font (t.text_ex_wh x y s font max_width max_height)
      (λ f. after prepare (text_wh_loop f max_width max_height x y s))
