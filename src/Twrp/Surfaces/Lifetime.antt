-- ===== src/Twrp/Surfaces/Lifetime.antt =====
-- A surface of twrp-graphics.c from gr_get_surface to gr_free_surface.
use android_device_samsung_c.Base.{
  ℕ, ◌+◌, ◌-◌, ◌≤◌, ◌<◌, ◌≡◌, refl, true, false, none, some, ◌==◌, if◌then◌else◌, ==_refl, arith,
}
use android_device_samsung_c.Memory.{Mem, memcpy, within}
use android_device_samsung_c.Framebuffer.{Build, Screen, live}
use android_device_samsung_c.Twrp.Surfaces.{
  GglSurface, Cell, surface, pixels, Heap, put, malloc, free, surface_at, pointee, frame_bytes,
  gr_get_surface, gr_free_surface,
}

-- Nothing is at an address from `next` on.
pub record IsFresh (h : Heap) : Type 0 where
  pub above : (a : ℕ) → h.next ≤ a → h.cell a ≡ none

-- The heap h' with a surface at ms beside what h has: the frame's sizes, and the first n bytes of
-- the image.
pub record IsTaken (b : Build) (s : Screen) (m : Mem) (h h' : Heap) (ms : ℕ) : Type 0 where
  pub taken : GglSurface
  pub copy : Mem
  pub at : h'.cell ms ≡ some (surface taken)
  pub texels : h'.cell taken.bits ≡ some (pixels copy)
  pub width : taken.width ≡ s.vi.xres
  pub height : taken.height ≡ s.vi.yres
  pub stride : taken.stride ≡ b.stride s.fi s.vi
  pub bytes : (t : ℕ) → t < frame_bytes s.vi → copy.byte t ≡ m.byte t
  pub kept : (a : ℕ) → a < h.next → h'.cell a ≡ h.cell a

surface_at_hit :
    (h : Heap) (a : ℕ) (s : GglSurface) → h.cell a ≡ some (surface s) → surface_at h a ≡ some s
unfolding surface_at
surface_at_hit h a s e = rw (e, surface_at) refl

free-put : (h : Heap) (a : ℕ) (c : Cell) → h.cell a ≡ some c → free a h ≡ some (put a none h)
unfolding free
free-put h a c e = rw (e, free) refl

surface_at-none : (h : Heap) (a : ℕ) → h.cell a ≡ none → surface_at h a ≡ none
unfolding surface_at
surface_at-none h a e = rw (e, surface_at) refl

memcpy_first :
    (size : ℕ) (bytes : ℕ → ℕ) (m : Mem) (n : ℕ)
    → n ≤ size
    → n ≤ m.size
    → memcpy (record { size = size; byte = bytes }) 0 m 0 n
      ≡ some (record {
        size = size;
        byte = λ i. if within 0 n i then m.byte (0 + (i - 0)) else bytes i;
      })
unfolding memcpy
memcpy_first size bytes m n h k = ground arith

-- Where the surface in memory is there and neither it nor a new one is smaller than a frame, and
-- malloc succeeds, gr_get_surface gives a new surface that holds the frame, and leaves all other
-- blocks alone. gr_free_surface then returns 0 and leaves the heap with the blocks that it had
-- before, none lost and none left over; to free the surface once more is a fault.
pub gr_get_surface-freed :
    (b : Build) (garbage : GglSurface) (bytes : ℕ → ℕ) (s : Screen) (m : Mem) (h : Heap)
    → s.mem_surface.bits ≡ live m
    → frame_bytes s.vi ≤ m.size
    → frame_bytes s.vi ≤ b.image_bytes s.fi s.vi
    → IsFresh h
    → (ms : ℕ) × (h1 h2 : Heap) × (gr_get_surface b true garbage bytes s h ≡ some (some ms, h1))
      × IsTaken b s m h h1 ms
      × (gr_free_surface (some ms) h1 ≡ some (true, h2))
      × ((a : ℕ) → h2.cell a ≡ h.cell a)
      × (gr_free_surface (some ms) h2 ≡ none)
unfolding gr_get_surface gr_free_surface pointee
gr_get_surface-freed b garbage bytes s m h source image room fresh =
    let n = frame_bytes s.vi in
    let block : Mem = record { size = b.image_bytes s.fi s.vi; byte = bytes } in
    let copy : Mem = record block {
      byte = λ i. if within 0 n i then m.byte (0 + (i - 0)) else bytes i;
    } in
    let sizes : GglSurface = record {
      width = s.vi.xres;
      height = s.vi.yres;
      stride = b.stride s.fi s.vi;
      bits = h.next + 1;
    } in
    let h' =
      put h.next (some (surface sizes)) (malloc (pixels block) (malloc (surface garbage) h)) in
    let h1 = put (h.next + 1) (some (pixels copy)) h' in
    let h2 = put h.next none (put (h.next + 1) none h1) in
    let apart : (h.next == h.next + 1) ≡ false = ground arith in
    let apart' : (h.next + 1 == h.next) ≡ false = ground arith in
    let at : h1.cell h.next ≡ some (surface sizes) = rw (apart, ==_refl h.next) refl in
    let texels : h1.cell (h.next + 1) ≡ some (pixels copy) = rw (==_refl (h.next + 1)) refl in
    let still : (put (h.next + 1) none h1).cell h.next ≡ some (surface sizes) =
      rw (apart, ==_refl h.next) refl in
    (
      h.next,
      h1,
      h2,
      rw (source, memcpy_first (b.image_bytes s.fi s.vi) bytes m n room image) refl,
      record {
        taken = sizes;
        copy = copy;
        at = at;
        texels = texels;
        width = refl;
        height = refl;
        stride = refl;
        bytes = λ t lt. ground arith;
        kept = λ a lt. ground arith;
      },
      rw
          (
            surface_at_hit h1 h.next sizes at,
            free-put h1 (h.next + 1) (pixels copy) texels,
            free-put (put (h.next + 1) none h1) h.next (surface sizes) still,
          )
          refl,
      λ a. ground (arith, fresh.above h.next, fresh.above (h.next + 1)),
      rw (surface_at-none h2 h.next (rw (==_refl h.next) refl)) refl,
    )
