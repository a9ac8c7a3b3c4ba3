-- ===== src/Twrp/Surfaces.antt =====
-- gr_get_surface, gr_free_surface, gr_write_frame_to_file and gr_freeFont of
-- recovery/twrp-graphics.c, on a heap of surfaces, fonts and pixels that they allocate; the surface
-- in memory is that of Framebuffer. A block has an address, and free() of an address that is not
-- that of a live block is a fault.
pub mod Lifetime
use android_device_samsung_c.Base.{
  ℕ, zero, suc, ltb, List, [], ◌∷◌, ◌+◌, ◌*◌, ◌/◌, ◌%◌, ◌^◌, Bool, true, false, Option, none, some,
  ◌==◌, if◌then◌else◌, ◌>>=◌,
}
use android_device_samsung_c.Memory.{Mem, memcpy}
use android_device_samsung_c.Framebuffer.{VInfo, Build, Screen, Block, null, live, freed}

-- GGLSurface; `bits` (data) is an address.
pub record GglSurface : Type 0 where
  pub width : ℕ
  pub height : ℕ
  pub stride : ℕ
  pub bits : ℕ

pub data Cell : Type 0 where
  surface : GglSurface → Cell
  font : (texture : GglSurface) → Cell
  pixels : Mem → Cell

-- The addresses from `next` on have not been used.
pub record Heap : Type 0 where
  pub next : ℕ
  pub cell : ℕ → Option Cell

abbrev pub put : ℕ → Option Cell → Heap → Heap
put a c h = record h { cell = λ i. if i == a then c else h.cell i }

-- The new block is at the address h.next.
abbrev pub malloc : Cell → Heap → Heap
malloc c h = record { next = h.next + 1; cell = λ i. if i == h.next then some c else h.cell i }

unfoldable pub free : ℕ → Heap → Option Heap
free a h = elim (h.cell a) [ none ↦ none | some c ↦ some (put a none h) ]

-- The surface at an address.
unfoldable pub surface_at : Heap → ℕ → Option GglSurface
surface_at h a = elim (h.cell a) [
  | none ↦ none
  | some (surface s) ↦ some s
  | some (font s) ↦ none
  | some (pixels m) ↦ none
]

-- The texture of the font at an address.
unfoldable pub texture_at : Heap → ℕ → Option GglSurface
texture_at h a = elim (h.cell a) [
  | none ↦ none
  | some (surface s) ↦ none
  | some (font s) ↦ some s
  | some (pixels m) ↦ none
]

-- The bytes that a pointer points to.
unfoldable pub pointee : Block → Option Mem
pointee null = none
pointee (live m) = some m
pointee freed = none

-- vi.xres * vi.yres * vi.bits_per_pixel / 8
unfoldable pub frame_bytes : VInfo → ℕ
frame_bytes vi = vi.xres * vi.yres * vi.bits_per_pixel % 2 ^ 32 / 8

-- `enough` is whether the first malloc succeeds, the second one does; the inner `none` is -1.
-- `garbage` is what the new blocks hold before they are set.
unfoldable pub gr_get_surface :
    Build
    → (enough : Bool) (garbage : GglSurface) (bytes : ℕ → ℕ) → Screen
    → Heap
    → Option (Option ℕ × Heap)
gr_get_surface b false garbage bytes s h = some (none, h)
gr_get_surface b true garbage bytes s h =
    let ms = h.next in
    let bits = ms + 1 in
    let sizes : GglSurface = record {
      width = s.vi.xres;
      height = s.vi.yres;
      stride = b.stride s.fi s.vi;
      bits = bits;
    } in
    let block : Mem = record { size = b.image_bytes s.fi s.vi; byte = bytes } in
    let h' = put ms (some (surface sizes)) (malloc (pixels block) (malloc (surface garbage) h)) in
    do
      image ← pointee s.mem_surface.bits
      copy ← memcpy block 0 image 0 (frame_bytes s.vi)
      some (some ms, put bits (some (pixels copy)) h')

-- The result tells 0 from -1.
unfoldable pub gr_free_surface : Option ℕ → Heap → Option (Bool × Heap)
unfolding free surface_at
gr_free_surface none h = some (false, h)
gr_free_surface (some ms) h = do
  s ← surface_at h ms
  h ← free s.bits h
  h ← free ms h
  some (true, h)

-- A null pointer is not tested.
unfoldable pub gr_free_font : Option ℕ → Heap → Option Heap
unfolding free texture_at
gr_free_font none h = none
gr_free_font (some f) h = do s ← texture_at h f; h ← free s.bits h; free f h

unfoldable pub first_bytes : (n : ℕ) → (ℕ → ℕ) → List ℕ
first_bytes zero byte = []
first_bytes (suc n) byte = byte 0 ∷ first_bytes n (λ i. byte (suc i))

-- The bytes that write() is given; to read outside the block is a fault.
unfoldable pub gr_write_frame_to_file : Screen → Option (List ℕ)
gr_write_frame_to_file s = do
  image ← pointee s.mem_surface.bits
  if ltb image.size (frame_bytes s.vi)
      then none
      else some (first_bytes (frame_bytes s.vi) image.byte)
