-- ===== src/Cwm/Screen.antt =====
-- The framebuffer of configs/recovery/graphics.c: Framebuffer at the build for a pixel format, and
-- gr_init, which drops the results of both rounds.
use android_device_samsung_c.Base.{
  ℕ, ◌*◌, ◌/◌, ◌%◌, ◌^◌, ◌≤◌, ◌<◌, refl, ap, Option, some, Bool, ◌>>=◌, arith,
}
use native.Mathlib.Nat.{mul_comm}
use android_device_samsung_c.Framebuffer.{
  Power, VInfo, FInfo, Build, Kernel, Screen, Surface, MemSurface, Block, null, freed, panned,
}
use android_device_samsung_c.Framebuffer
use android_device_samsung_c.Framebuffer.Pages.{IsRoomy}
use android_device_samsung_c.Framebuffer.Flip.{IsLawful}

-- PIXEL_FORMAT
pub data Format : Type 0 where
  bgra_8888 rgbx_8888 rgb_565 : Format

-- PIXEL_SIZE
abbrev pub pixel_size : Format → ℕ
pixel_size bgra_8888 = 4
pixel_size rgbx_8888 = 4
pixel_size rgb_565 = 2

-- What FBIOPUT_VSCREENINFO asks for.
unfoldable pub request : Format → VInfo → VInfo
request bgra_8888 vi = record vi {
  bits_per_pixel = 32;
  red_offset = 8;
  red_length = 8;
  green_offset = 16;
  green_length = 8;
  blue_offset = 24;
  blue_length = 8;
  transp_offset = 0;
  transp_length = 8;
}
request rgbx_8888 vi = record vi {
  bits_per_pixel = 32;
  red_offset = 24;
  red_length = 8;
  green_offset = 16;
  green_length = 8;
  blue_offset = 8;
  blue_length = 8;
  transp_offset = 0;
  transp_length = 8;
}
request rgb_565 vi = record vi {
  bits_per_pixel = 16;
  red_offset = 11;
  red_length = 5;
  green_offset = 5;
  green_length = 6;
  blue_offset = 0;
  blue_length = 5;
  transp_offset = 0;
  transp_length = 0;
}

-- vi.yres * fi.line_length
unfoldable pub page_bytes : FInfo → VInfo → ℕ
page_bytes fi vi = vi.yres * fi.line_length % 2 ^ 32

-- fi.line_length * vi.yres
unfoldable pub image_bytes : FInfo → VInfo → ℕ
image_bytes fi vi = fi.line_length * vi.yres % 2 ^ 32

abbrev pub cwm : Format → Build
cwm f = record {
  request = request f;
  pan = λ vi. record vi { bits_per_pixel = pixel_size f * 8 };
  layout = λ fi vi. vi;
  stride = λ fi vi. fi.line_length / pixel_size f;
  page_bytes = page_bytes;
  image_bytes = image_bytes;
}

-- The functions of this file, which are those of Framebuffer at this build.
abbrev pub get_framebuffer : Format → Kernel → Screen → Option (Option ℕ × Screen)
get_framebuffer f = Framebuffer.get_framebuffer (cwm f)

abbrev pub set_active_framebuffer : Format → Kernel → ℕ → Screen → Screen
set_active_framebuffer f = Framebuffer.set_active_framebuffer (cwm f)

abbrev pub gr_flip : Format → Kernel → Screen → Option Screen
gr_flip f = Framebuffer.gr_flip (cwm f)

abbrev pub gr_init_real : Format → Kernel → Screen → Option (Bool × Screen)
gr_init_real f = Framebuffer.gr_init_orig (cwm f)

abbrev pub gr_exit : Screen → Option Screen
gr_exit = Framebuffer.gr_exit

abbrev pub gr_fb_blank : (blank : Bool) → Screen → Option ℕ × Power
gr_fb_blank = Framebuffer.gr_fb_blank

-- Both results are dropped, and 0 is returned.
unfoldable pub gr_init : Format → (first second : Kernel) → Screen → Option Screen
gr_init f first second s = do
  (_, s) ← gr_init_real f first s
  (_, s) ← gr_init_real f second s
  some s

pub gr_fb_width : Screen → ℕ
gr_fb_width s = s.front.width

pub gr_fb_height : Screen → ℕ
gr_fb_height s = s.front.height

pub gr_fb_data : Screen → Block
gr_fb_data s = s.mem_surface.bits

module _ (f : Format) where
  pub cwm-IsLawful : IsLawful (cwm f)
  unfolding page_bytes image_bytes
  cwm-IsLawful = record {
    image = λ fi vi. ap (λ (n : ℕ). n % 2 ^ 32) (mul_comm fi.line_length vi.yres);
    resolution = λ fi vi vi' x y. rw y refl;
    wide = λ vi. refl;
    high = λ vi. refl;
  }

  -- A page is roomy where the memory holds it.
  pub cwm-IsRoomy :
      (fi : FInfo) (vi : VInfo)
      → vi.yres * fi.line_length ≤ fi.smem_len
      → vi.yres * fi.line_length * 2 < 2 ^ 32
      → IsRoomy (cwm f) fi vi
  unfolding page_bytes
  cwm-IsRoomy fi vi memory small = record { lines = omega arith; memory = memory; small = small }
