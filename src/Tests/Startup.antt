-- ===== src/Tests/Startup.antt =====
-- The font decoder and the initialisation of recovery/graphics.cpp on small inputs.
use android_device_samsung_c.Base.{
  ℕ, ◌≡◌, refl, inl, none, some, List, [], ◌∷◌, true, arith, ℤ, pos, length, get_or, ap,
}
use android_device_samsung_c.Memory.{Mem}
use android_device_samsung_c.Memory.Painted.{Painted}
use android_device_samsung_c.Rle.{rle_loop}
use android_device_samsung_c.Rle.Decode.{run, expand, ends, rle_loop-Painted}
use android_device_samsung_c.Minui.{GrSurface, GrFont}
use android_device_samsung_c.Minui.Text.{IsFont}
use android_device_samsung_c.Minui.Display.{
  CompiledFont, fbdev, Probe, Display, Flip, gr_init_font, gr_init_real, gr_init,
}
use android_device_samsung_c.Minui.Display.Font.{IsCompiledFont, IsChosen, gr_init_font-IsFont}
use android_device_samsung_c.Minui.Display.Init.{
  Opened, first_of_three, Found, gr_init_real-Found, gr_init-Found, gr_init-stale_surface,
}

-- Three bytes of 255, two of 0, the end.
abbrev pub code : List ℕ
code = 131 ∷ 2 ∷ 0 ∷ []

abbrev block : Mem
block = record { size = 6; byte = λ i. 7 }

expand-code : expand code ≡ 255 ∷ 255 ∷ 255 ∷ 0 ∷ 0 ∷ []
unfolding expand run
expand-code = refl

code-ends : ends code ≡ true
unfolding ends
code-ends = refl

rle_loop-Painted_example :
    (m' : Mem) × (rle_loop code 1 block ≡ some m')
    × Painted (length (expand code)) (λ t old. get_or (expand code) t old) 1 block m'
rle_loop-Painted_example =
    rle_loop-Painted code 1 block code-ends (omega (arith, ap length expand-code))

-- A font of 96 columns and one row of glyphs of one pixel.
abbrev pub font : CompiledFont
font = record { width = 96; height = 1; cwidth = 1; cheight = 1; rundata = code }

pub font-IsCompiledFont : IsCompiledFont font
font-IsCompiledFont = record {
  ending = code-ends;
  room = omega (arith, ap length expand-code);
  columns = omega arith;
  one_or_two = inl refl;
}

abbrev pub display : GrSurface
display = record {
  width = 480;
  height = 800;
  row_bytes = 1920;
  pixel_bytes = 4;
  bytes = record { size = 1_536_000; byte = λ i. 0 };
}

-- No font resource, no adf, no drm.
abbrev pub probe : Probe GrSurface
probe = record {
  font = none;
  bits = λ i. 0;
  adf_open = some none;
  drm_open = some none;
  fbdev_open = some (some display);
  backends = display;
}

abbrev pub blank : Display GrSurface
blank = record {
  font = none;
  backend = none;
  draw = none;
  overscan_offset_x = 0;
  overscan_offset_y = 0;
  exited = [];
  backends = display;
}

abbrev keep : Flip GrSurface
keep k b s = (s, b)

gr_init_font-IsFont_example :
    (f : GrFont) × (tex : GrSurface) × (gr_init_font font probe ≡ some f)
    × (f.texture ≡ some tex)
    × IsFont f tex
    × IsChosen font probe f tex
gr_init_font-IsFont_example = gr_init_font-IsFont font probe font-IsCompiledFont tt

abbrev decoded : GrFont
decoded = gr_init_font-IsFont_example.0

font_loads : gr_init_font font probe ≡ some decoded
font_loads = gr_init_font-IsFont_example.2

probe-Opened : Opened probe none none (some display)
probe-Opened = record { adf_opened = refl; drm_opened = refl; fbdev_opened = refl }

gr_init_real-Found_example :
    (ret : ℤ) × (d' : Display GrSurface) × (gr_init_real keep font 2 probe blank ≡ some (ret, d'))
    × Found keep font 2 display decoded (first_of_three none none (some display)) d' ret
gr_init_real-Found_example =
    gr_init_real-Found keep font 2 probe blank decoded none none (some display) font_loads
      probe-Opened

gr_init-Found_example :
    (ret : ℤ) × (d' : Display GrSurface) × (gr_init keep font 2 probe probe blank
      ≡ some (pos 0, d'))
    × Found keep font 2 display decoded (first_of_three none none (some display)) d' ret
gr_init-Found_example =
    gr_init-Found keep font 2 probe probe blank decoded decoded none none (some display) none none
      (some display) font_loads probe-Opened font_loads probe-Opened

-- As `probe`, but open_adf runs out of memory.
abbrev starved : Probe GrSurface
starved = record probe { adf_open = none }

starved_font : gr_init_font font starved ≡ some decoded
unfolding gr_init_font
starved_font = font_loads

found_fbdev : first_of_three none none (some display) ≡ some (fbdev, display)
unfolding first_of_three
found_fbdev = refl

gr_init-stale_surface_example : gr_init keep font 2 probe starved blank ≡ none
gr_init-stale_surface_example =
    gr_init-stale_surface keep font 2 probe starved blank decoded decoded none none (some display)
      fbdev display display font_loads probe-Opened found_fbdev refl starved_font refl
