-- ===== src/Minui/Commands.antt =====
-- A client of recovery/graphics.cpp: calls of its drawing functions in a row, on one surface. The
-- functions and their arguments are those of the file; a box that gr_blit copies has no negative
-- coordinates in its source.
pub mod Drawable
pub mod Picture
use android_device_samsung_c.Base.{
  ℕ, ◌+◌, ◌≤◌, ◌<◌, Bool, ◌&&◌, not, Option, none, some, List, [], ◌∷◌, ◌==◌, if◌then◌else◌, ◌>>=◌,
  ℤ, pos, ◌+ℤ◌,
}
use android_device_samsung_c.Minui.{
  Gr, GrSurface, gr_color, gr_clear, gr_fill, gr_text, gr_texticon, gr_blit,
}
use android_device_samsung_c.Minui.Drawing.{IsSurface}
use android_device_samsung_c.Minui.Fill.{filled}
use android_device_samsung_c.Minui.Text.{IsMask, icon_drawn, text_drawn}
use android_device_samsung_c.Minui.Clear.{cleared}
use android_device_samsung_c.Minui.Blit.{blitted}

pub data Command : Type 0 where
  color : (r g b a : ℕ) → Command
  clear : Command
  fill : (x1 y1 x2 y2 : ℤ) → Command
  text : (x y : ℤ) (s : List ℕ) (bold : Bool) → Command
  icon : (x y : ℤ) (icon : Option GrSurface) → Command
  blit : (source : Option GrSurface) (sx sy w h : ℕ) (dx dy : ℤ) → Command

unfoldable pub perform : (bgr : Bool) → Command → Gr → Option Gr
perform bgr (color r g b a) gr = some (gr_color bgr gr r g b a)
perform bgr clear gr = gr_clear gr
perform bgr (fill x1 y1 x2 y2) gr = gr_fill gr x1 y1 x2 y2
perform bgr (text x y s bold) gr = gr_text gr x y s bold
perform bgr (icon x y mask) gr = gr_texticon gr x y mask
perform bgr (blit source sx sy w h dx dy) gr =
    gr_blit gr source (pos sx) (pos sy) (pos w) (pos h) dx dy

unfoldable pub perform_all : (bgr : Bool) → List Command → Gr → Option Gr
perform_all bgr [] gr = some gr
perform_all bgr (c ∷ commands) gr = do gr ← perform bgr c gr; perform_all bgr commands gr

-- The arguments are as the functions want them: the parts of a colour are bytes, an icon is a mask,
-- and a box lies in its source.
abbrev pub IsFit : Command → Type 0
IsFit (color r g b a) = (r < 256) × (g < 256) × (b < 256) × (a < 256)
IsFit (icon x y (some mask)) = IsMask mask
IsFit (blit (some source) sx sy w h dx dy) =
    IsSurface source × (sx + w ≤ source.width) × (sy + h ≤ source.height)
IsFit (icon x y none) = Unit {0}
IsFit (blit none sx sy w h dx dy) = Unit {0}
IsFit clear = Unit {0}
IsFit (fill x1 y1 x2 y2) = Unit {0}
IsFit (text x y s bold) = Unit {0}

-- What a command does to the current colour.
unfoldable pub coloured : (bgr : Bool) → Command → Gr → Gr
coloured bgr (color r g b a) gr = record gr {
  current_r = if bgr then b else r;
  current_g = g;
  current_b = if bgr then r else b;
  current_a = a;
}
coloured bgr clear gr = gr
coloured bgr (fill x1 y1 x2 y2) gr = gr
coloured bgr (text x y s bold) gr = gr
coloured bgr (icon x y mask) gr = gr
coloured bgr (blit source sx sy w h dx dy) gr = gr

-- What a command makes of byte `c` of row `y`, with the font's texture `tex`. It reads the sizes
-- and the colour of the state, and no byte of its surface but the old one at that place.
unfoldable pub effect : GrSurface → Command → Gr → (y c old : ℕ) → ℕ
effect tex (color r g b a) gr row c old = old
effect tex clear gr row c old = cleared gr row c old
effect tex (fill x1 y1 x2 y2) gr row c old =
    let ox = pos gr.overscan_offset_x in
    let oy = pos gr.overscan_offset_y in
    filled gr (x1 +ℤ ox) (y1 +ℤ oy) (x2 +ℤ ox) (y2 +ℤ oy) row c old
effect tex (text x y s bold) gr row c old =
    if gr.current_a == 0
    then old
    else text_drawn gr tex (bold && not (tex.height == gr.font.cheight))
        (x +ℤ pos gr.overscan_offset_x) (y +ℤ pos gr.overscan_offset_y) s row c old
effect tex (icon x y none) gr row c old = old
effect tex (icon x y (some mask)) gr row c old =
    icon_drawn gr mask (x +ℤ pos gr.overscan_offset_x) (y +ℤ pos gr.overscan_offset_y) row c old
effect tex (blit none sx sy w h dx dy) gr row c old = old
effect tex (blit (some source) sx sy w h dx dy) gr row c old =
    blitted gr source sx sy w h (dx +ℤ pos gr.overscan_offset_x) (dy +ℤ pos gr.overscan_offset_y)
      row c old

-- The same for commands in a row: the picture, as a function of the byte that was there.
unfoldable pub picture : (bgr : Bool) → GrSurface → List Command → Gr → (y c old : ℕ) → ℕ
picture bgr tex [] gr y c old = old
picture bgr tex (d ∷ commands) gr y c old =
    picture bgr tex commands (coloured bgr d gr) y c (effect tex d gr y c old)

unfoldable pub coloured_all : (bgr : Bool) → List Command → Gr → Gr
coloured_all bgr [] gr = gr
coloured_all bgr (c ∷ commands) gr = coloured_all bgr commands (coloured bgr c gr)
