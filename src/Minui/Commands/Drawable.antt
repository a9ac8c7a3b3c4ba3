-- ===== src/Minui/Commands/Drawable.antt =====
-- What calls of the drawing functions of recovery/graphics.cpp in a row leave valid: they change the
-- colour and the bytes of the surface, never its sizes.
use android_device_samsung_c.Base.{
  All, ℕ, ◌<◌, ◌≡◌, refl, ◌∙◌, Bool, true, false, some, List, [], ◌∷◌, arith,
}
use android_device_samsung_c.Memory.{Mem}
use android_device_samsung_c.Minui.{Gr, GrSurface, with_bytes}
use android_device_samsung_c.Minui.Drawing.{IsValid}
use android_device_samsung_c.Minui.Text.{IsFont, with_bytes-IsValid}
use android_device_samsung_c.Minui.Commands.{
  Command, color, clear, fill, text, icon, blit, IsFit, coloured, coloured_all,
}

-- A valid state with a font whose glyphs lie in the texture.
pub record IsDrawable (tex : GrSurface) (g : Gr) : Type 0 where
  pub valid : IsValid g
  pub texture : g.font.texture ≡ some tex
  pub font : IsFont g.font tex

colour-IsDrawable :
    (bgr : Bool) (tex : GrSurface) (g : Gr) (r gr b a : ℕ)
    → (r < 256) × (gr < 256) × (b < 256) × (a < 256)
    → IsDrawable tex g
    → IsDrawable tex (coloured bgr (color r gr b a) g)
unfolding coloured
colour-IsDrawable true tex g r gr b a h v = record {
  valid = omega (arith, h, v.valid);
  texture = v.texture;
  font = v.font;
}
colour-IsDrawable false tex g r gr b a h v = record {
  valid = omega (arith, h, v.valid);
  texture = v.texture;
  font = v.font;
}

colour-draw : (bgr : Bool) (g : Gr) (r gr b a : ℕ) → (coloured bgr (color r gr b a) g).draw ≡ g.draw
unfolding coloured
colour-draw true g r gr b a = refl
colour-draw false g r gr b a = refl

pub with_bytes-IsDrawable :
    (tex : GrSurface) (g : Gr) (m : Mem)
    → m.size ≡ g.draw.bytes.size
    → IsDrawable tex g
    → IsDrawable tex (with_bytes g m)
with_bytes-IsDrawable tex g m e v = record {
  valid = with_bytes-IsValid g m e v.valid;
  texture = v.texture;
  font = v.font;
}

module _ (bgr : Bool) (tex : GrSurface) where
  -- The colour alone changes, and its parts stay bytes.
  pub coloured-IsDrawable :
      (d : Command) (g : Gr) → IsFit d → IsDrawable tex g → IsDrawable tex (coloured bgr d g)
  unfolding coloured
  coloured-IsDrawable (color r gr b a) g fit v = colour-IsDrawable bgr tex g r gr b a fit v
  coloured-IsDrawable clear g fit v = v
  coloured-IsDrawable (fill x1 y1 x2 y2) g fit v = v
  coloured-IsDrawable (text x y s bold) g fit v = v
  coloured-IsDrawable (icon x y mask) g fit v = v
  coloured-IsDrawable (blit source sx sy w h dx dy) g fit v = v

  pub coloured-draw : (d : Command) (g : Gr) → (coloured bgr d g).draw ≡ g.draw
  unfolding coloured
  coloured-draw (color r gr b a) g = colour-draw bgr g r gr b a
  coloured-draw clear g = refl
  coloured-draw (fill x1 y1 x2 y2) g = refl
  coloured-draw (text x y s bold) g = refl
  coloured-draw (icon x y mask) g = refl
  coloured-draw (blit source sx sy w h dx dy) g = refl

  pub coloured_all-IsDrawable :
      (commands : List Command) (g : Gr)
      → IsDrawable tex g
      → All IsFit commands
      → IsDrawable tex (coloured_all bgr commands g)
  unfolding coloured_all
  coloured_all-IsDrawable [] g v fit = v
  coloured_all-IsDrawable (d ∷ commands) g v fit =
      coloured_all-IsDrawable commands (coloured bgr d g) (coloured-IsDrawable d g fit.0 v) fit.1

  pub coloured_all-draw :
      (commands : List Command) (g : Gr) → (coloured_all bgr commands g).draw ≡ g.draw
  unfolding coloured_all
  coloured_all-draw [] g = refl
  coloured_all-draw (d ∷ commands) g =
      coloured_all-draw commands (coloured bgr d g) ∙ coloured-draw d g
