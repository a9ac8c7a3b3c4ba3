-- ===== src/Tests/Renderer.antt =====
-- recovery/graphics.cpp on a surface of three by two pixels.
use android_device_samsung_c.Base.{
  ℕ, ◌+◌, ◌*◌, ◌≡◌, refl, Option, none, some, false, ◌||◌, arith, pos, negsuc, ◌+ℤ◌, ◌-ℤ◌,
}
use android_device_samsung_c.Memory.{store, rows}
use android_device_samsung_c.Minui.{
  Gr, GrSurface, outside, put_opaque, fill_rows, fill_at, gr_fill, pixel_at, gr_blit,
}
use android_device_samsung_c.Minui.Drawing.{IsSurface, IsValid}
use android_device_samsung_c.Minui.Draws.{Draws}
use android_device_samsung_c.Minui.Fill.{filled, gr_fill-Draws}
use android_device_samsung_c.Minui.Blit.{blitted, gr_blit-Draws}
use android_device_samsung_c.Minui.Blit.Negative.{gr_blit-negative}

abbrev pub screen : GrSurface
screen = record {
  width = 3;
  height = 2;
  row_bytes = 16;
  pixel_bytes = 4;
  bytes = record { size = 32; byte = λ i. 0 };
}

-- One column of dots: every glyph is one pixel wide and two high.
abbrev pub glyphs : GrSurface
glyphs = record {
  width = 96;
  height = 2;
  row_bytes = 96;
  pixel_bytes = 1;
  bytes = record { size = 192; byte = λ i. 255 };
}

abbrev pub g : Gr
g = record {
  font = record { texture = some glyphs; cwidth = 1; cheight = 2 };
  overscan_offset_x = 0;
  overscan_offset_y = 0;
  current_r = 10;
  current_g = 20;
  current_b = 30;
  current_a = 255;
  draw = screen;
}

-- The byte in row `y` and column `c` of a result.
abbrev byte_of : Option Gr → ℕ → ℕ → Option ℕ
byte_of none y c = none
byte_of (some r) y c = some (r.draw.bytes.byte (y * r.draw.row_bytes + c))

fill_paints : byte_of (gr_fill g (pos 1) (pos 0) (pos 2) (pos 2)) 1 5 ≡ some 20
unfolding gr_fill fill_at outside fill_rows pixel_at rows put_opaque store ◌+ℤ◌ ◌-ℤ◌
fill_paints = refl

pub g-IsValid : IsValid g
g-IsValid = omega arith

gr_fill-Draws_example :
    Draws g
      (filled g (pos 1 +ℤ pos 0) (pos 0 +ℤ pos 0) (pos 2 +ℤ pos 0) (pos 2 +ℤ pos 0))
      (gr_fill g (pos 1) (pos 0) (pos 2) (pos 2))
gr_fill-Draws_example = gr_fill-Draws g (pos 1) (pos 0) (pos 2) (pos 2) g-IsValid

screen-IsSurface : IsSurface screen
screen-IsSurface = omega arith

gr_blit-Draws_example :
    Draws g
      (blitted g screen 1 0 2 2 (pos 0 +ℤ pos 0) (pos 0 +ℤ pos 0))
      (gr_blit g (some screen) (pos 1) (pos 0) (pos 2) (pos 2) (pos 0) (pos 0))
gr_blit-Draws_example =
    gr_blit-Draws g screen 1 0 2 2 (pos 0) (pos 0) g-IsValid screen-IsSurface (omega arith)
      (omega arith)

negative_box :
    (outside g (pos 2 +ℤ pos 0) (pos 0 +ℤ pos 0)
      || outside g (pos 2 +ℤ pos 0 +ℤ negsuc 0 -ℤ pos 1) (pos 0 +ℤ pos 0 +ℤ pos 1 -ℤ pos 1))
    ≡ false
unfolding outside ◌+ℤ◌ ◌-ℤ◌
negative_box = refl

gr_blit-negative_example :
    gr_blit g (some screen) (pos 0) (pos 0) (negsuc 0) (pos 1) (pos 2) (pos 0) ≡ none
gr_blit-negative_example =
    gr_blit-negative g screen (pos 0) (pos 0) 0 0 (pos 2) (pos 0) g-IsValid screen-IsSurface
      negative_box
