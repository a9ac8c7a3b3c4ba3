-- ===== src/Framebuffer/State.antt =====
-- The state of the framebuffer of recovery/twrp-graphics.c and configs/recovery/graphics.c, what
-- the kernel answers, and the places in which the two files differ.
use android_device_samsung_c.Base.{ℕ, Option, List, Bool}
use android_device_samsung_c.Memory.{Mem}

-- struct fb_var_screeninfo
pub record VInfo : Type 0 where
  pub xres : ℕ
  pub yres : ℕ
  pub xres_virtual : ℕ
  pub yres_virtual : ℕ
  pub yoffset : ℕ
  pub bits_per_pixel : ℕ
  pub red_offset : ℕ
  pub red_length : ℕ
  pub green_offset : ℕ
  pub green_length : ℕ
  pub blue_offset : ℕ
  pub blue_length : ℕ
  pub transp_offset : ℕ
  pub transp_length : ℕ

-- struct fb_fix_screeninfo
pub record FInfo : Type 0 where
  pub smem_len : ℕ
  pub line_length : ℕ

-- The answers in one round of the initialisation: a descriptor or none, what FBIOPUT_VSCREENINFO
-- leaves in `vi` or its failure, the bytes of the mapping, whether KDSETMODE succeeds, the bytes of
-- a malloc block.
pub record Kernel : Type 0 where
  pub fb0 : Option ℕ
  pub vscreen : Option VInfo
  pub put : VInfo → Option VInfo
  pub fscreen : Option FInfo
  pub mapping : Option (ℕ → ℕ)
  pub tty0 : Option ℕ
  pub kd_graphics : Bool
  pub heap : ℕ → ℕ

pub record Surface : Type 0 where
  pub width : ℕ
  pub height : ℕ
  pub stride : ℕ
  pub bits : ℕ

-- gr_mem_surface.data
pub data Block : Type 0 where
  null : Block
  live : Mem → Block
  freed : Block

pub record MemSurface : Type 0 where
  pub width : ℕ
  pub height : ℕ
  pub stride : ℕ
  pub bits : Block

-- The static variables; `pixels` is the mapping, `files` are the open descriptors.
pub record Screen : Type 0 where
  pub vi : VInfo
  pub fi : FInfo
  pub pixels : Mem
  pub front : Surface
  pub back : Surface
  pub mem_surface : MemSurface
  pub active_fb : ℕ
  pub double_buffering : Bool
  pub fb_fd : Option ℕ
  pub vt_fd : Option ℕ
  pub files : List ℕ

-- Where the two files differ: what FBIOPUT_VSCREENINFO asks for, and what it asks for besides at a
-- flip; what becomes of `vi` behind mmap; the stride of the surfaces; and the sizes in bytes of a
-- page and of the image in memory.
pub record Build : Type 0 where
  pub request : VInfo → VInfo
  pub pan : VInfo → VInfo
  pub layout : FInfo → VInfo → VInfo
  pub stride : FInfo → VInfo → ℕ
  pub page_bytes : FInfo → VInfo → ℕ
  pub image_bytes : FInfo → VInfo → ℕ
