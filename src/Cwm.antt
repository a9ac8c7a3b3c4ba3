-- ===== src/Cwm.antt =====
-- configs/recovery/graphics.c, the renderer of the ClockworkMod recovery: text, colours, rectangles
-- and blits, as calls of the pixelflinger library (Pixelflinger). An `int` or `unsigned` is a
-- 32-bit pattern (Word). A string is the list of its bytes before the NUL; `char` is unsigned on
-- ARM. A null gr_font is a fault.
pub mod Text
pub mod Screen
pub mod Init
use android_device_samsung_c.Base.{
  ℕ, ◌+◌, ◌*◌, List, [], ◌∷◌, ◌++◌, Bool, Option, none, some, ltb, if◌then◌else◌, ◌>>=◌, length,
}
use android_device_samsung_c.Word.{◌+32◌, ◌-32◌, ◌*32◌}
use android_device_samsung_c.Pixelflinger.{
  Call, bind_texture, bind_surface, disable_texture, tex_coord2i, recti, color4xv, one_to_one,
  Texture, Drawn, after,
}
use android_device_samsung_c.Memory.{Mem}
use android_device_samsung_c.Rle.{rle_loop}
use android_device_samsung_c.Keys
use android_device_samsung_c.Keys.{Key, Action}

pub record GrFont : Type 0 where
  pub texture : Texture
  pub cwidth : ℕ
  pub cheight : ℕ
  pub ascent : ℕ

-- The compiled-in font, a variable of the font's header.
pub record CompiledFont : Type 0 where
  pub width : ℕ
  pub height : ℕ
  pub cwidth : ℕ
  pub cheight : ℕ
  pub rundata : List ℕ

-- `bits` are the bytes of a block that malloc returns.
unfoldable pub gr_init_font : CompiledFont → (bits : ℕ → ℕ) → Option GrFont
gr_init_font f bits = do
  m ← rle_loop f.rundata 0 (record { size = f.width *32 f.height; byte = bits })
  some (record {
    texture = record { width = f.width; height = f.height; stride = f.width; bits = m };
    cwidth = f.cwidth;
    cheight = f.cheight;
    ascent = f.cheight -32 2;
  })

-- device_handle_key of configs/recovery/recovery_keys.c, the same text as recovery/recovery_keys.c
abbrev pub device_handle_key : (ui_root_menu : Bool) → Key → (visible : Bool) → Action
device_handle_key = Keys.device_handle_key

-- color[i] = ((c << 8) | c) + 1, for a byte c, whose two copies do not overlap
abbrev pub color_of : ℕ → ℕ
color_of c = c * 256 + c + 1

pub gr_color : (r g b a : ℕ) → List Call
gr_color r g b a = color4xv (color_of r) (color_of g) (color_of b) (color_of a) ∷ []

unfoldable pub gr_measure : (gr_font : Option GrFont) → List ℕ → Option ℕ
gr_measure gr_font s = do font ← gr_font; some (font.cwidth *32 length s)

unfoldable pub gr_font_size : (gr_font : Option GrFont) → Option (ℕ × ℕ)
gr_font_size gr_font = do font ← gr_font; some (font.cwidth, font.cheight)

-- The calls for one character that has a glyph.
unfoldable pub glyph_calls : GrFont → (off x y : ℕ) → List Call
glyph_calls f off x y =
    tex_coord2i ((off *32 f.cwidth) -32 x) (0 -32 y)
    ∷ recti x y (x +32 f.cwidth) (y +32 f.cheight)
    ∷ []

-- A character without a glyph takes its cell too.
unfoldable pub text_loop : GrFont → (x y : ℕ) → List ℕ → Drawn
text_loop f x y [] = ([], x)
text_loop f x y (ch ∷ s) =
    after (if ltb (ch -32 32) 96 then glyph_calls f (ch -32 32) x y else [])
      (text_loop f (x +32 f.cwidth) y s)

-- `bold` is not read.
unfoldable pub gr_text :
    (gr_font : Option GrFont) → (x y : ℕ) → List ℕ → (bold : Bool) → Option Drawn
gr_text gr_font x y s bold = do
  font ← gr_font
  some (after (bind_texture ∷ one_to_one) (text_loop font x (y -32 font.ascent) s))

-- The last two arguments are the right and the bottom edge.
pub gr_fill : (x y w h : ℕ) → List Call
gr_fill x y w h = disable_texture ∷ recti x y w h ∷ []

-- `context` is whether gr_context is set.
pub gr_blit : (context : Bool) → (source sx sy w h dx dy : ℕ) → List Call
gr_blit context source sx sy w h dx dy =
    if context
    then (bind_surface source ∷ one_to_one)
      ++ (tex_coord2i (sx -32 dx) (sy -32 dy) ∷ recti dx dy (dx +32 w) (dy +32 h) ∷ [])
    else []

-- The surface's width, if there is a surface.
pub gr_get_width : (surface : Option Texture) → ℕ
gr_get_width none = 0
gr_get_width (some s) = s.width

pub gr_get_height : (surface : Option Texture) → ℕ
gr_get_height none = 0
gr_get_height (some s) = s.height
