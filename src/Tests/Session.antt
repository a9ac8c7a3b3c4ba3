-- ===== src/Tests/Session.antt =====
-- Drawing functions in a row, and sessions of recovery/graphics.cpp.
use android_device_samsung_c.Base.{
  All, ◌≡◌, refl, inl, none, some, List, [], ◌∷◌, true, false, arith, pos,
}
use android_device_samsung_c.Minui.{Gr, GrSurface, with_bytes}
use android_device_samsung_c.Minui.Display.{fbdev, Flip, Display, gr_init, gr_init_font}
use android_device_samsung_c.Minui.Display.Font.{IsChosen}
use android_device_samsung_c.Minui.Drawing.{IsSurface}
use android_device_samsung_c.Minui.Display.Init.{first_of_three}
use android_device_samsung_c.Minui.Commands.{
  Command, color, clear, fill, text, blit, perform_all, IsFit, picture, coloured_all,
}
use android_device_samsung_c.Minui.Commands.Drawable.{IsDrawable}
use android_device_samsung_c.Minui.Commands.Picture.{Shows, perform_all-Shows}
use android_device_samsung_c.Minui.Session.{Renderer, Colour, gr_of, frame, frames}
use android_device_samsung_c.Minui.Session.Running.{IsBackend}
use android_device_samsung_c.Minui.Session.Frames.{IsOpened, IsStart, frames_drawn}
use android_device_samsung_c.Tests.Renderer.{g, screen, glyphs, g-IsValid}
use android_device_samsung_c.Tests.Startup.{font, font-IsCompiledFont, display, probe, blank}

g-IsDrawable : IsDrawable glyphs g
g-IsDrawable = record {
  valid = g-IsValid;
  texture = refl;
  font = record { columns = omega arith; one_or_two = inl refl; block = omega arith };
}

-- A blue screen with one green pixel, a letter, and the first pixel copied from another surface.
abbrev commands : List Command
commands =
    color 0 0 200 255
    ∷ clear
    ∷ color 0 100 0 128
    ∷ fill (pos 1) (pos 0) (pos 2) (pos 1)
    ∷ text (pos 2) (pos 0) (72 ∷ 105 ∷ []) true
    ∷ blit (some screen) 0 0 1 1 (pos 0) (pos 1)
    ∷ []

commands-IsFit : All IsFit commands
commands-IsFit = omega arith

perform_all-Shows_example :
    (shows : Shows g g.draw.bytes
      (coloured_all false commands g)
      (picture false glyphs commands g)
      (perform_all false commands g))
    × IsDrawable glyphs (with_bytes (coloured_all false commands g) shows.final)
    × ((coloured_all false commands g).draw ≡ g.draw)
perform_all-Shows_example = perform_all-Shows false glyphs commands g g-IsDrawable commands-IsFit

-- A backend with two buffers, of which it holds the one that is not drawn on.
abbrev swap : Flip GrSurface
swap k other none = (none, other)
swap k other (some s) = (some other, s)

swap-IsBackend : IsBackend swap fbdev IsSurface
swap-IsBackend = record { flips = λ other s sound v. (other, s, refl, sound, v) }

probes-IsStart : IsStart IsSurface font probe probe fbdev display
unfolding first_of_three
probes-IsStart =
    let opened : IsOpened probe = record {
      a = none;
      d = none;
      b = some display;
      opened = record { adf_opened = refl; drm_opened = refl; fbdev_opened = refl };
    } in
    record {
      compiled = font-IsCompiledFont;
      resource = tt;
      resource' = tt;
      opened = opened;
      opened' = opened;
      first = refl;
      surface = omega arith;
      sound = omega arith;
    }

abbrev white : Colour
white = record { r = 255; g = 255; b = 255; a = 255 }

frames_drawn_example :
    (d1 : Display GrSurface) × (r r' : Renderer GrSurface) × (gr : Gr) × (tex : GrSurface)
    × (gr_init swap font 10 probe probe blank ≡ some (pos 0, d1))
    × (frames swap false (commands ∷ [] ∷ []) (record { display = d1; current = white }) ≡ some r)
    × (gr_of r ≡ some gr)
    × (gr_init_font font probe ≡ some gr.font)
    × IsChosen font probe gr.font tex
    × (shows : Shows gr gr.draw.bytes
        (coloured_all false commands gr)
        (picture false tex commands gr)
        (perform_all false commands gr))
    × (frame swap false commands r ≡ some r')
    × (swap fbdev r.display.backends (some (record gr.draw { bytes = shows.final }))
        ≡ (r'.display.draw, r'.display.backends))
frames_drawn_example =
    frames_drawn swap false IsSurface font 10 probe probe fbdev display swap-IsBackend
      probes-IsStart blank white (omega arith) (commands ∷ [] ∷ []) (commands-IsFit, (tt, tt))
      commands commands-IsFit
