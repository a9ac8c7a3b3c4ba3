-- ===== src/Minui.antt =====
-- recovery/graphics.cpp: the software renderer of the recovery, which draws text, rectangles and
-- images into the surface that the display backend hands out (`gr_draw`). A record holds the file's
-- static variables; a pointer into a surface is an offset into its bytes; `none` is an access outside
-- a surface. A `bool` or `int` that only selects a branch is one here, and widths, heights, strides
-- and offsets, which are never negative, are numbers; coordinates are integers.
pub mod Display
pub mod Drawing
pub mod Draws
pub mod Fill
pub mod Mask
pub mod Text
pub mod Clear
pub mod Blit
pub mod Visible
pub mod Commands
pub mod Session
use android_device_samsung_c.Base.{
  ℕ, zero, suc, ◌+◌, ◌-◌, ◌*◌, ◌/◌, ◌%◌, ◌^◌, Bool, ◌&&◌, ◌||◌, not, Option, none, some, List, [],
  ◌∷◌, ltb, leb, ◌==◌, if◌then◌else◌, ◌>>=◌, length, ℤ, pos, negsuc, pos_part, neg_part, sub_ℕ,
  ◌+ℤ◌, ◌-ℤ◌, ltb_ℤ, leb_ℤ,
}
use android_device_samsung_c.Memory.{Mem, Step, load, store, memset, memcpy, rows}

pub record GrSurface : Type 0 where
  pub width : ℕ
  pub height : ℕ
  pub row_bytes : ℕ
  pub pixel_bytes : ℕ
  pub bytes : Mem

pub record GrFont : Type 0 where
  pub texture : Option GrSurface
  pub cwidth : ℕ
  pub cheight : ℕ

pub record Gr : Type 0 where
  pub font : GrFont
  pub overscan_offset_x : ℕ
  pub overscan_offset_y : ℕ
  pub current_r : ℕ
  pub current_g : ℕ
  pub current_b : ℕ
  pub current_a : ℕ
  pub draw : GrSurface

abbrev pub with_bytes : Gr → Mem → Gr
with_bytes g m = record g { draw = record (g.draw) { bytes = m } }

unfoldable pub outside : Gr → ℤ → ℤ → Bool
outside g x y =
    ltb_ℤ x (pos 0) || leb_ℤ (pos g.draw.width) x || ltb_ℤ y (pos 0) || leb_ℤ (pos g.draw.height) y

pub gr_measure : Gr → List ℕ → ℕ
gr_measure g s = g.font.cwidth * length s

pub gr_font_size : Gr → ℕ × ℕ
gr_font_size g = (g.font.cwidth, g.font.cheight)

-- *px++ = r; *px++ = g; *px++ = b; px++
unfoldable pub put_opaque : Gr → ℕ → Mem → Option Mem
put_opaque g px m = do
  m ← store m px g.current_r
  m ← store m (px + 1) g.current_g
  store m (px + 2) g.current_b

-- (*px * (255-a) + c * a) / 255, stored in a byte
abbrev pub mix : ℕ → ℕ → ℕ → ℕ
mix a c old = (old * (255 - a) + c * a) / 255 % 256

unfoldable pub put_mixed : Gr → (a px : ℕ) → Mem → Option Mem
put_mixed g a px m = do
  r ← load m px
  m ← store m px (mix a g.current_r r)
  gr ← load m (px + 1)
  m ← store m (px + 1) (mix a g.current_g gr)
  b ← load m (px + 2)
  store m (px + 2) (mix a g.current_b b)

-- if (gr_current_a < 255) a = ((int)a * gr_current_a) / 255;
unfoldable pub text_alpha : Gr → ℕ → ℕ
text_alpha g a = if ltb g.current_a 255 then a * g.current_a / 255 % 256 else a

unfoldable pub put_text_px : Gr → Mem → Step
put_text_px g src sx px m = do
  a0 ← load src sx
  let a = text_alpha g a0
  if a == 255 then put_opaque g px m else if ltb 0 a then put_mixed g a px m else some m

unfoldable pub text_blend :
    Gr → (src : Mem) (src_p src_row_bytes dst_p dst_row_bytes width height : ℕ) → Mem → Option Mem
text_blend g src src_p src_row_bytes dst_p dst_row_bytes width height =
    rows (λ s d. rows (put_text_px g src) 1 4 width s d) src_row_bytes dst_row_bytes height src_p
      dst_p

-- dst_p = gr_draw->data + y*gr_draw->row_bytes + x*gr_draw->pixel_bytes, at a point of the surface
unfoldable pub pixel_at : Gr → ℤ → ℤ → ℕ
pixel_at g x y = pos_part y * g.draw.row_bytes + pos_part x * g.draw.pixel_bytes

-- src_p - font->texture->data, for one byte of the string
unfoldable pub glyph_src : Gr → GrSurface → (bold : Bool) → (ch : ℕ) → ℕ
glyph_src g tex bold ch =
    let ch' = if ltb ch 32 || ltb 126 ch then 63 else ch in
    (ch' - 32) * g.font.cwidth + (if bold then g.font.cheight * tex.row_bytes else 0)

-- One round of the loop of gr_text over the bytes of the string; the end of the list is the NUL.
unfoldable pub text_loop : Gr → GrSurface → (bold : Bool) → ℤ → ℤ → List ℕ → Option Gr
text_loop g tex bold x y [] = some g
text_loop g tex bold x y (ch0 ∷ s) =
    if outside g x y
      || outside g (x +ℤ pos g.font.cwidth -ℤ pos 1) (y +ℤ pos g.font.cheight -ℤ pos 1)
    then some g
    else do
      m ←
          text_blend g tex.bytes (glyph_src g tex bold ch0) tex.row_bytes (pixel_at g x y)
            g.draw.row_bytes g.font.cwidth g.font.cheight g.draw.bytes
      text_loop (with_bytes g m) tex bold (x +ℤ pos g.font.cwidth) y s

unfoldable pub gr_text : Gr → ℤ → ℤ → List ℕ → (bold : Bool) → Option Gr
gr_text g x y s bold = elim g.font.texture [
  | none ↦ some g
  | some tex ↦
      if g.current_a == 0
      then some g
      else text_loop g tex (bold && not (tex.height == g.font.cheight))
          (x +ℤ pos g.overscan_offset_x) (y +ℤ pos g.overscan_offset_y) s
]

unfoldable pub texticon_at : Gr → GrSurface → ℤ → ℤ → Option Gr
texticon_at g icon x y =
    if not (icon.pixel_bytes == 1)
    then some g
    else if outside g x y
        || outside g (x +ℤ pos icon.width -ℤ pos 1) (y +ℤ pos icon.height -ℤ pos 1)
    then some g
    else do
      m ←
          text_blend g icon.bytes 0 icon.row_bytes (pixel_at g x y) g.draw.row_bytes icon.width
            icon.height g.draw.bytes
      some (with_bytes g m)

unfoldable pub gr_texticon : Gr → ℤ → ℤ → Option GrSurface → Option Gr
gr_texticon g x y none = some g
gr_texticon g x y (some icon) =
    texticon_at g icon (x +ℤ pos g.overscan_offset_x) (y +ℤ pos g.overscan_offset_y)

-- `bgr` is whether RECOVERY_ABGR or RECOVERY_BGRA is defined.
pub gr_color : (bgr : Bool) → Gr → (r g b a : ℕ) → Gr
gr_color bgr gr r g b a =
    if bgr
    then record gr { current_r = b; current_g = g; current_b = r; current_a = a }
    else record gr { current_r = r; current_g = g; current_b = b; current_a = a }

-- All bytes of the surface, the fourth of each pixel too.
unfoldable pub clear_grey : Gr → Option Gr
clear_grey g = do
  m ← memset g.draw.bytes 0 g.current_r (g.draw.height * g.draw.row_bytes)
  some (with_bytes g m)

-- Behind the last pixel of a row the pointer moves on by the row's padding.
unfoldable pub clear_pixels : Gr → Option Gr
clear_pixels g = do
  m ←
      rows (λ y d. rows (λ x. put_opaque g) 1 4 g.draw.width 0 d) 1
        (4 * g.draw.width + g.draw.row_bytes - g.draw.width * g.draw.pixel_bytes) g.draw.height 0 0
        g.draw.bytes
  some (with_bytes g m)

unfoldable pub gr_clear : Gr → Option Gr
gr_clear g =
    if g.current_r == g.current_g && g.current_r == g.current_b
    then clear_grey g
    else clear_pixels g

-- The loops of gr_fill over the rows y1 to y2 and the columns x1 to x2, all on the surface.
unfoldable pub fill_rows : Gr → (px : ℕ → Mem → Option Mem) → (x1 y1 x2 y2 : ℤ) → Option Gr
fill_rows g px x1 y1 x2 y2 = do
  m ←
      rows (λ y d. rows (λ x. px) 1 4 (pos_part x2 - pos_part x1) (pos_part x1) d) 1
        g.draw.row_bytes (pos_part y2 - pos_part y1) (pos_part y1) (pixel_at g x1 y1) g.draw.bytes
  some (with_bytes g m)

unfoldable pub fill_at : Gr → (x1 y1 x2 y2 : ℤ) → Option Gr
fill_at g x1 y1 x2 y2 =
    if outside g x1 y1 || outside g (x2 -ℤ pos 1) (y2 -ℤ pos 1)
    then some g
    else if g.current_a == 255
    then fill_rows g (put_opaque g) x1 y1 x2 y2
    else if ltb 0 g.current_a
    then fill_rows g (put_mixed g g.current_a) x1 y1 x2 y2
    else some g

unfoldable pub gr_fill : Gr → (x1 y1 x2 y2 : ℤ) → Option Gr
gr_fill g x1 y1 x2 y2 =
    fill_at g (x1 +ℤ pos g.overscan_offset_x) (y1 +ℤ pos g.overscan_offset_y)
      (x2 +ℤ pos g.overscan_offset_x) (y2 +ℤ pos g.overscan_offset_y)

-- The conversion of an `int` to a 32-bit size_t.
unfoldable pub to_size : ℤ → ℕ
to_size (pos n) = n % 2 ^ 32
to_size (negsuc n) = 2 ^ 32 - 1 - n % 2 ^ 32

abbrev pub scale : ℤ → ℕ → ℤ
scale a n = sub_ℕ (pos_part a * n) (neg_part a * n)

-- The rows of gr_blit. A source pointer before its surface faults at the first row.
unfoldable pub blit_rows : Gr → Mem → (src_row_bytes len n : ℕ) → ℤ → ℕ → Option Mem
blit_rows g src row_bytes len n (pos s) d =
    rows (λ s d m. memcpy m d src s len) row_bytes g.draw.row_bytes n s d g.draw.bytes
blit_rows g src row_bytes len zero (negsuc s) d = some g.draw.bytes
blit_rows g src row_bytes len (suc n) (negsuc s) d = none

unfoldable pub blit_at : Gr → GrSurface → (sx sy w h dx dy : ℤ) → Option Gr
unfolding to_size
blit_at g source sx sy w h dx dy =
    if outside g dx dy || outside g (dx +ℤ w -ℤ pos 1) (dy +ℤ h -ℤ pos 1) then some g else do
      m ←
          blit_rows g source.bytes source.row_bytes (to_size (scale w source.pixel_bytes))
            (pos_part h) (scale sy source.row_bytes +ℤ scale sx source.pixel_bytes)
            (pixel_at g dx dy)
      some (with_bytes g m)

unfoldable pub gr_blit : Gr → Option GrSurface → (sx sy w h dx dy : ℤ) → Option Gr
gr_blit g none sx sy w h dx dy = some g
gr_blit g (some source) sx sy w h dx dy =
    if not (g.draw.pixel_bytes == source.pixel_bytes)
    then some g
    else blit_at g source sx sy w h (dx +ℤ pos g.overscan_offset_x) (dy +ℤ pos g.overscan_offset_y)

pub gr_get_width : Option GrSurface → ℕ
gr_get_width none = 0
gr_get_width (some surface) = surface.width

pub gr_get_height : Option GrSurface → ℕ
gr_get_height none = 0
gr_get_height (some surface) = surface.height

unfoldable pub gr_fb_width : Gr → ℤ
gr_fb_width g = pos g.draw.width -ℤ pos (2 * g.overscan_offset_x)

unfoldable pub gr_fb_height : Gr → ℤ
gr_fb_height g = pos g.draw.height -ℤ pos (2 * g.overscan_offset_y)
