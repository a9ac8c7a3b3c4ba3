-- ===== src/Tests/Shapes.antt =====
-- Scaled text, circles and surfaces of twrp-graphics.c, keys, and the sessions of the GPS library.
use android_device_samsung_c.Base.{
  List, ℕ, ◌+◌, ◌*◌, ◌/◌, ◌-◌, ◌<◌, ◌≡◌, refl, none, some, [], ◌∷◌, length, true, false, leb,
  if◌then◌else◌, pos, negsuc, ◌+ℤ◌, ◌-ℤ◌, arith,
}
use android_device_samsung_c.Memory.{Mem}
use android_device_samsung_c.Framebuffer.{Screen, live}
use android_device_samsung_c.Tests.Screen.{small, board, at_start}
use android_device_samsung_c.Twrp.Screen as TwrpScreen
use android_device_samsung_c.Twrp.Surfaces.{
  GglSurface, Heap, frame_bytes, first_bytes, pointee, gr_write_frame_to_file, gr_get_surface,
  gr_free_surface,
}
use android_device_samsung_c.Twrp.Surfaces.Lifetime.{IsTaken, gr_get_surface-freed}
use android_device_samsung_c.Keys.{back, no_action, go_back, device_handle_key}
use android_device_samsung_c.Twrp.Shapes.{
  shift_x, shift_y, Scaling, center, fit, gr_text_ex_scale_w,
}
use android_device_samsung_c.Twrp.Circle.{Picture, square, gr_render_circle}
use android_device_samsung_c.Twrp.Circle.Disc.{gr_render_circle-symmetric}
use android_device_samsung_c.Interposer.Sessions.{
  Step, holds, is_free, is_proper, create, queue, destroy, calls, apply_all, nothing, session_clean,
}

-- A font is its size; a letter is as wide as high.
abbrev square_letters : Scaling ℕ
square_letters = record {
  max_height = λ size. size;
  measure = λ s size. size * length s;
  scale_font = λ size max_width w. some (size / 2);
}

-- Three letters of size 20 are scaled down for 40 columns and centred.
scaled_text :
    gr_text_ex_scale_w square_letters
      (pos 100)
      (pos 50)
      (some (72 ∷ 105 ∷ 33 ∷ []))
      (some 20)
      40
      center
      true
    ≡ some (record {
      x = pos 85;
      y = pos 45;
      text = 72 ∷ 105 ∷ 33 ∷ [];
      font = 10;
      max_width = pos 115;
      max_height = negsuc 0;
    })
unfolding gr_text_ex_scale_w fit shift_x shift_y ◌+ℤ◌ ◌-ℤ◌
scaled_text = refl

back_in_menu : device_handle_key false back true ≡ go_back
unfolding device_handle_key
back_in_menu = refl

back_in_root : device_handle_key true back true ≡ no_action
unfolding device_handle_key
back_in_root = refl

-- A frame of two bytes, and a heap that is empty.
abbrev empty : Heap
empty = record { next = 7; cell = λ a. none }

abbrev frame : Mem
frame = record { size = 16; byte = λ i. i }

abbrev drawn : Screen
drawn = record at_start {
  vi = record small { bits_per_pixel = 16 };
  mem_surface = record { width = 4; height = 2; stride = 4; bits = live frame };
}

-- A frame of one pixel.
written :
    gr_write_frame_to_file
      (record drawn { vi = record small { xres = 1; yres = 1; bits_per_pixel = 16 } })
    ≡ some (0 ∷ 1 ∷ [])
unfolding gr_write_frame_to_file first_bytes frame_bytes pointee
written = refl

abbrev unset : GglSurface
unset = record { width = 1; height = 2; stride = 3; bits = 4 }

gr_get_surface-freed_example :
    (ms : ℕ) × (h1 h2 : Heap) × (gr_get_surface board true unset (λ i. 0) drawn empty
      ≡ some (some ms, h1))
    × IsTaken board drawn frame empty h1 ms
    × (gr_free_surface (some ms) h1 ≡ some (true, h2))
    × ((a : ℕ) → h2.cell a ≡ empty.cell a)
    × (gr_free_surface (some ms) h2 ≡ none)
unfolding frame_bytes TwrpScreen.image_bytes
gr_get_surface-freed_example =
    gr_get_surface-freed board unset (λ i. 0) drawn frame empty refl (omega arith) (omega arith)
      (record { above = λ a h. refl })

gr_render_circle-symmetric_example :
    (p : Picture) × (gr_render_circle 2 1 2 3 255 (λ i. 7) ≡ some p)
    × (p.width ≡ 5)
    × (p.height ≡ 5)
    × (p.stride ≡ 5)
    × ((j i : ℕ)
        → j < p.height
        → i < p.width
        → (p.pixels.byte (j * p.stride + i)
            ≡ (if leb (square 2 i + square 2 j) 5 then 4278387201 else 0))
          × (p.pixels.byte (i * p.stride + j) ≡ p.pixels.byte (j * p.stride + i))
          × (p.pixels.byte (j * p.stride + (4 - i)) ≡ p.pixels.byte (j * p.stride + i)))
gr_render_circle-symmetric_example = gr_render_circle-symmetric 2 1 2 3 255 (λ i. 7) (omega arith)

-- A first manager that the client destroys by itself, and a second one that is left to libEvtUnloading.
abbrev steps : List Step
steps = create 1 2 ∷ queue 3 1 4 ∷ destroy 1 ∷ create 5 6 ∷ queue 7 5 8 ∷ []

session_clean_example : apply_all (calls none steps) nothing ≡ some nothing
unfolding is_proper holds is_free
session_clean_example = session_clean steps
