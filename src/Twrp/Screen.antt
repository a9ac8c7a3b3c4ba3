-- ===== src/Twrp/Screen.antt =====
-- The framebuffer of recovery/twrp-graphics.c: Framebuffer at the board's build, pixels of RGB_565
-- of two bytes. `rgb_565` is whether RECOVERY_RGB_565 is defined, `linelength`
-- RECOVERY_GRAPHICS_USE_LINELENGTH.
use android_device_samsung_c.Base.{
  ℕ, ◌*◌, ◌/◌, ◌%◌, ◌^◌, ◌≤◌, ◌<◌, refl, ap, Bool, if◌then◌else◌, arith,
}
use native.Mathlib.Nat.{mul-le-mul_left, mul_comm}
use android_device_samsung_c.Framebuffer.{VInfo, FInfo, Build, Screen, Block}
use android_device_samsung_c.Framebuffer.Pages.{IsRoomy}
use android_device_samsung_c.Framebuffer.Flip.{IsLawful}

-- What FBIOPUT_VSCREENINFO asks for.
unfoldable pub request : (rgb_565 : Bool) → VInfo → VInfo
request rgb_565 vi = record vi {
  bits_per_pixel = 16;
  blue_offset = if rgb_565 then 11 else 0;
  green_offset = 5;
  red_offset = if rgb_565 then 0 else 11;
  blue_length = 5;
  green_length = 6;
  red_length = 5;
  transp_offset = 0;
  transp_length = 0;
}

-- vi.xres_virtual = fi.line_length / PIXEL_SIZE
unfoldable pub virtual : (linelength : Bool) → FInfo → VInfo → VInfo
virtual linelength fi vi =
    if linelength then record vi { xres_virtual = fi.line_length / 2 } else vi

-- vi.yres * fb->stride * PIXEL_SIZE
unfoldable pub page_bytes : VInfo → ℕ
page_bytes vi = vi.yres * vi.xres_virtual * 2 % 2 ^ 32

-- vi.xres_virtual * vi.yres * PIXEL_SIZE
unfoldable pub image_bytes : VInfo → ℕ
image_bytes vi = vi.xres_virtual * vi.yres * 2 % 2 ^ 32

abbrev pub twrp : (rgb_565 linelength : Bool) → Build
twrp rgb_565 linelength = record {
  request = request rgb_565;
  pan = λ vi. vi;
  layout = virtual linelength;
  stride = λ fi vi. vi.xres_virtual;
  page_bytes = λ fi vi. page_bytes vi;
  image_bytes = λ fi vi. image_bytes vi;
}

pub gr_fb_width : Screen → ℕ
gr_fb_width s = s.front.width

pub gr_fb_height : Screen → ℕ
gr_fb_height s = s.front.height

pub gr_fb_data : Screen → Block
gr_fb_data s = s.mem_surface.bits

module _ (rgb_565 linelength : Bool) where
  pub twrp-IsLawful : IsLawful (twrp rgb_565 linelength)
  unfolding page_bytes image_bytes
  twrp-IsLawful = record {
    image = λ fi vi. ap (λ (n : ℕ). n * 2 % 2 ^ 32) (mul_comm vi.xres_virtual vi.yres);
    resolution = λ fi vi vi' x y. rw (x, y) refl;
    wide = λ vi. refl;
    high = λ vi. refl;
  }

  -- A page is roomy where the lines are long enough for the virtual width.
  pub twrp-IsRoomy :
      (fi : FInfo) (vi : VInfo)
      → vi.xres_virtual * 2 ≤ fi.line_length
      → vi.yres * fi.line_length ≤ fi.smem_len
      → vi.yres * fi.line_length * 2 < 2 ^ 32
      → IsRoomy (twrp rgb_565 linelength) fi vi
  unfolding page_bytes
  twrp-IsRoomy fi vi line memory small =
      let h = mul-le-mul_left vi.yres line in
      record { lines = omega arith; memory = memory; small = small }
