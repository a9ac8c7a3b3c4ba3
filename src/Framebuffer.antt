-- ===== src/Framebuffer.antt =====
-- The framebuffer device, its pages and the surface in memory, from gr_init to gr_exit, as
-- recovery/twrp-graphics.c and configs/recovery/graphics.c both have them; the places in which the
-- two differ are the record Build, which Twrp.Screen and Cwm.Screen fill. What the kernel answers
-- to open, ioctl and mmap is the parameter Kernel. Of a surface in the framebuffer, `bits` (data)
-- is the offset into the mapping. The constants that the code writes to `vi` and does not read
-- again (vmode, activate, the colours' msb_right) are left out, and so are the calls of
-- pixelflinger, the clockwork gr_init_real's two calls of gr_fb_blank and the log. Neither a
-- flipped screen nor a janky back buffer is built.
mod State
pub mod Descriptors
pub mod Pages
pub mod Flip
pub mod Rounds
pub mod Frames
pub mod Reach
pub mod Refused
pub use State.{VInfo, FInfo, Kernel, Surface, Block, null, live, freed, MemSurface, Screen, Build}
use android_device_samsung_c.Base.{
  ℕ, zero, suc, ◌+◌, ◌*◌, ◌/◌, ◌%◌, ◌^◌, Option, none, some, List, [], ◌∷◌, Bool, true, false, not,
  ◌||◌, ◌&&◌, ◌==◌, ltb, if◌then◌else◌, ◌>>=◌, ℤ, pos, negsuc,
}
use android_device_samsung_c.Memory.{Mem, memset, memcpy}

unfoldable pub remove : ℕ → List ℕ → List ℕ
remove fd [] = []
remove fd (f ∷ files) = let rest = remove fd files in if f == fd then files else f ∷ rest

-- close(2); the descriptor -1 changes nothing.
unfoldable pub close : Option ℕ → Screen → Screen
unfolding remove
close none s = s
close (some fd) s = record s { files = remove fd s.files }

abbrev pub page : Build → FInfo → VInfo → ℕ → Surface
page b fi vi at = record { width = vi.xres; height = vi.yres; stride = b.stride fi vi; bits = at }

-- close(fd); return -1;
abbrev pub give_up : ℕ → Screen → Option (Option ℕ × Screen)
give_up fd s = some (none, close (some fd) s)

-- double_buffering = 1, and the second page behind the first.
unfoldable pub set_back : Build → ℕ → Screen → Option (Option ℕ × Screen)
set_back b fd s =
    let n = b.page_bytes s.fi s.vi in
    do
      m ← memset s.pixels n 0 n
      some (some fd, record s { pixels = m; back = page b s.fi s.vi n; double_buffering = true })

-- get_framebuffer behind mmap.
unfoldable pub set_pages : Build → ℕ → Screen → Option (Option ℕ × Screen)
unfolding set_back
set_pages b fd s =
    let vi = b.layout s.fi s.vi in
    do
      m ← memset s.pixels 0 0 (b.page_bytes s.fi vi)
      let s' = record s { vi = vi; pixels = m; front = page b s.fi vi 0 }
      if ltb s.fi.smem_len (vi.yres * s.fi.line_length * 2 % 2 ^ 32)
          then some (some fd, s')
          else set_back b fd s'

unfoldable pub map_pixels : Build → Kernel → ℕ → Screen → Option (Option ℕ × Screen)
map_pixels b k fd s = elim k.mapping [
  | none ↦ give_up fd s
  | some bytes ↦
      set_pages b fd (record s { pixels = record { size = s.fi.smem_len; byte = bytes } })
]

unfoldable pub read_finfo : Build → Kernel → ℕ → Screen → Option (Option ℕ × Screen)
unfolding map_pixels
read_finfo b k fd s = elim k.fscreen [
  | none ↦ give_up fd s
  | some fi ↦ map_pixels b k fd (record s { fi = fi })
]

unfoldable pub put_vinfo : Build → Kernel → ℕ → Screen → Option (Option ℕ × Screen)
unfolding read_finfo
put_vinfo b k fd s = elim (k.put s.vi) [
  | none ↦ give_up fd s
  | some vi ↦ read_finfo b k fd (record s { vi = vi })
]

unfoldable pub read_vinfo : Build → Kernel → ℕ → Screen → Option (Option ℕ × Screen)
unfolding put_vinfo
read_vinfo b k fd s = elim k.vscreen [
  | none ↦ give_up fd s
  | some vi ↦ put_vinfo b k fd (record s { vi = b.request vi })
]

-- The result `none` is -1.
unfoldable pub get_framebuffer : Build → Kernel → Screen → Option (Option ℕ × Screen)
unfolding read_vinfo
get_framebuffer b k s = elim k.fb0 [
  | none ↦ some (none, s)
  | some fd ↦ read_vinfo b k fd (record s { files = fd ∷ s.files })
]

-- malloc succeeds; its result is not tested.
unfoldable pub get_memory_surface : Build → Kernel → FInfo → VInfo → MemSurface
get_memory_surface b k fi vi = record {
  width = vi.xres;
  height = vi.yres;
  stride = b.stride fi vi;
  bits = live (record { size = b.image_bytes fi vi; byte = k.heap });
}

abbrev pub panned : Build → ℕ → VInfo → VInfo
panned b n vi = b.pan (record vi { yres_virtual = vi.yres * 2; yoffset = n * vi.yres })

-- What FBIOPUT_VSCREENINFO leaves in `vi`; a failure is only logged.
unfoldable pub set_active_framebuffer : Build → Kernel → ℕ → Screen → Screen
set_active_framebuffer b k n s =
    if ltb 1 n || not s.double_buffering then s else elim (k.put (panned b n s.vi)) [
      | none ↦ record s { vi = panned b n s.vi }
      | some vi ↦ record s { vi = vi }
    ]

-- memcpy from the surface in memory; a pointer that is null or freed faults.
unfoldable pub copy_out : Build → Block → Surface → Screen → Option Screen
copy_out b null page s = none
copy_out b freed page s = none
copy_out b (live m) page s = do
  pixels ← memcpy s.pixels page.bits m 0 (b.image_bytes s.fi s.vi)
  some (record s { pixels = pixels })

unfoldable pub gr_flip : Build → Kernel → Screen → Option Screen
unfolding copy_out set_active_framebuffer
gr_flip b k s =
    let n = if s.double_buffering then (s.active_fb + 1) % 2 else s.active_fb in
    do
      s ←
          copy_out b s.mem_surface.bits (if n == 0 then s.front else s.back)
            (record s { active_fb = n })
      some (set_active_framebuffer b k n s)

-- free() of a block that was freed before is a fault.
unfoldable pub free : Block → Option Block
free null = some null
free (live m) = some freed
free freed = none

unfoldable pub gr_exit : Screen → Option Screen
unfolding close free
gr_exit s = do
  bits ← free s.mem_surface.bits
  some (record (close s.vt_fd (close s.fb_fd s)) {
    fb_fd = none;
    vt_fd = none;
    mem_surface = record s.mem_surface { bits = bits };
  })

-- Behind the console: the framebuffer, the surface in memory and page 0.
unfoldable pub open_display : Build → Kernel → Screen → Option (Bool × Screen)
unfolding get_framebuffer get_memory_surface set_active_framebuffer gr_exit
open_display b k s = do
  (fd, s) ← get_framebuffer b k s
  elim fd [
    | none ↦ do s ← gr_exit (record s { fb_fd = none }); some (false, s)
    | some n ↦ some (
      true,
      set_active_framebuffer b k 0 (record s {
        fb_fd = some n;
        mem_surface = get_memory_surface b k s.fi s.vi;
        active_fb = 0;
      }),
    )
  ]

-- The result tells 0 from -1.
unfoldable pub gr_init_orig : Build → Kernel → Screen → Option (Bool × Screen)
unfolding open_display gr_exit
gr_init_orig b k s = elim k.tty0 [
  | none ↦ open_display b k (record s { vt_fd = none })
  | some tty ↦
      let s' = record s { vt_fd = some tty; files = tty ∷ s.files } in
      let opened = open_display b k s' in
      if k.kd_graphics then opened else do s ← gr_exit s'; some (false, s)
]

-- The argument of FBIOBLANK.
pub data Power : Type 0 where
  powerdown unblank : Power

-- gr_fb_blank: the descriptor and the argument of its ioctl, whose result is logged and handed on.
pub gr_fb_blank : (blank : Bool) → Screen → Option ℕ × Power
gr_fb_blank blank s = (s.fb_fd, if blank then powerdown else unblank)

-- Two rounds; the result of the first is dropped.
unfoldable pub gr_init : Build → (first second : Kernel) → Screen → Option (Bool × Screen)
unfolding gr_init_orig
gr_init b first second s = do (_, s) ← gr_init_orig b first s; gr_init_orig b second s
