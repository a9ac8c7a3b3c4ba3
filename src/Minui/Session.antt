-- ===== src/Minui/Session.antt =====
-- A session of recovery/graphics.cpp: gr_init, and then frames, each of them calls of the drawing
-- functions and gr_flip behind them. The static variables are those of Display and the current
-- colour.
pub mod Running
pub mod Frames
use android_device_samsung_c.Base.{ℕ, Bool, Option, none, some, List, [], ◌∷◌, ◌>>=◌}
use android_device_samsung_c.Minui.{Gr, GrFont, GrSurface}
use android_device_samsung_c.Minui.Display.{Display, Flip, gr_flip}
use android_device_samsung_c.Minui.Commands.{Command, perform_all}

-- gr_current_r, gr_current_g, gr_current_b and gr_current_a
pub record Colour : Type 0 where
  pub r : ℕ
  pub g : ℕ
  pub b : ℕ
  pub a : ℕ

pub record Renderer (B : Type 0) : Type 0 where
  pub display : Display B
  pub current : Colour

abbrev pub gr_with : {B : Type 0} → Renderer B → GrFont → GrSurface → Gr
gr_with r font draw = record {
  font = font;
  overscan_offset_x = r.display.overscan_offset_x;
  overscan_offset_y = r.display.overscan_offset_y;
  current_r = r.current.r;
  current_g = r.current.g;
  current_b = r.current.b;
  current_a = r.current.a;
  draw = draw;
}

-- The variables that a drawing function reads; without a font or a surface it goes through a null
-- pointer.
unfoldable pub gr_of : {B : Type 0} → Renderer B → Option Gr
gr_of r = do font ← r.display.font; draw ← r.display.draw; some (gr_with r font draw)

-- What drawing leaves in the variables.
abbrev pub drawn : {B : Type 0} → Renderer B → Gr → Renderer B
drawn r g = record {
  display = record (r.display) { draw = some g.draw };
  current = record { r = g.current_r; g = g.current_g; b = g.current_b; a = g.current_a };
}

module _ {B : Type 0} (flip : Flip B) (bgr : Bool) where
  unfoldable pub frame : List Command → Renderer B → Option (Renderer B)
  unfolding gr_of
  frame commands r = do
    g ← gr_of r
    g ← perform_all bgr commands g
    display ← gr_flip flip (drawn r g).display
    some (record (drawn r g) { display = display })

  unfoldable pub frames : List (List Command) → Renderer B → Option (Renderer B)
  frames [] r = some r
  frames (commands ∷ rest) r = do r ← frame commands r; frames rest r
