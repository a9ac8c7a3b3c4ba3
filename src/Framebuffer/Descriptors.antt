-- ===== src/Framebuffer/Descriptors.antt =====
-- The error paths of get_framebuffer.
use android_device_samsung_c.Base.{
  ℕ, ◌≡◌, refl, ◌∙◌, ap, Option, none, some, List, ◌∷◌, Bool, true, false, ◌&&◌, inl, inr,
  Option-cases, arith,
}
use android_device_samsung_c.Framebuffer.{
  Build, Kernel, Screen, remove, close, give_up, map_pixels, read_finfo, put_vinfo, read_vinfo,
  get_framebuffer,
}

-- What get_framebuffer leaves alone where it fails.
pub record IsUnchanged (s s' : Screen) : Type 0 where
  pub files : s'.files ≡ s.files
  pub pixels : s'.pixels ≡ s.pixels
  pub front : s'.front ≡ s.front
  pub back : s'.back ≡ s.back
  pub double_buffering : s'.double_buffering ≡ s.double_buffering
  pub fb_fd : s'.fb_fd ≡ s.fb_fd
  pub mem_surface : s'.mem_surface ≡ s.mem_surface

abbrev is_some {ℓ} : {A : Type ℓ} → Option A → Bool
is_some none = false
is_some (some a) = true

-- open, the three ioctls and mmap all succeed.
unfoldable pub answers : Build → Kernel → Bool
answers b k = elim k.vscreen [
  | none ↦ false
  | some v ↦
      is_some k.fb0 && is_some (k.put (b.request v)) && is_some k.fscreen && is_some k.mapping
]

remove_own : (fd : ℕ) (files : List ℕ) → remove fd (fd ∷ files) ≡ files
unfolding remove
remove_own fd files = ground arith

-- Behind open, the descriptor is the only thing that has come.
abbrev IsOpening : (fd : ℕ) (s s1 : Screen) → Type 0
IsOpening fd s s1 =
    (s1.files ≡ fd ∷ s.files)
    × (s1.pixels ≡ s.pixels)
    × (s1.front ≡ s.front)
    × (s1.back ≡ s.back)
    × (s1.double_buffering ≡ s.double_buffering)
    × (s1.fb_fd ≡ s.fb_fd)
    × (s1.mem_surface ≡ s.mem_surface)

-- The result is -1, in a state that differs in nothing but vi and fi.
abbrev Fails : Screen → Option (Option ℕ × Screen) → Type 0
Fails s r = (s' : Screen) × (r ≡ some (none, s')) × IsUnchanged s s'

-- close(fd) behind a failure gives up nothing but the descriptor.
gave_up : (fd : ℕ) (s s1 : Screen) → IsOpening fd s s1 → Fails s (give_up fd s1)
unfolding close
gave_up fd s s1 (files, pixels, front, back, double, fb, mem) = (
  close (some fd) s1,
  refl,
  record {
    files = ap (remove fd) files ∙ remove_own fd s.files;
    pixels = pixels;
    front = front;
    back = back;
    double_buffering = double;
    fb_fd = fb;
    mem_surface = mem;
  },
)

module _ (b : Build) (k : Kernel) (fd : ℕ) (s : Screen) where
  map_pixels-refused :
      (s1 : Screen) → IsOpening fd s s1 → is_some k.mapping ≡ false → Fails s (map_pixels b k fd s1)
  unfolding map_pixels
  map_pixels-refused s1 o h = elim (Option-cases k.mapping) [
    | inl e ↦ rw e (gave_up fd s s1 o)
    | inr (bytes, e) ↦ absurd (ground arith)
  ]

  read_finfo-refused :
      (s1 : Screen)
      → IsOpening fd s s1
      → is_some k.fscreen && is_some k.mapping ≡ false
      → Fails s (read_finfo b k fd s1)
  unfolding read_finfo
  read_finfo-refused s1 o h = elim (Option-cases k.fscreen) [
    | inl e ↦ rw e (gave_up fd s s1 o)
    | inr (fi, e) ↦ rw e (map_pixels-refused (record s1 { fi = fi }) o (rw e at h))
  ]

  put_vinfo-refused :
      (s1 : Screen)
      → IsOpening fd s s1
      → is_some (k.put s1.vi) && is_some k.fscreen && is_some k.mapping ≡ false
      → Fails s (put_vinfo b k fd s1)
  unfolding put_vinfo
  put_vinfo-refused s1 o h = elim (Option-cases (k.put s1.vi)) [
    | inl e ↦ rw (e, put_vinfo) (gave_up fd s s1 o)
    | inr (vi, e) ↦ rw (e, put_vinfo) (read_finfo-refused (record s1 { vi = vi }) o (rw e at h))
  ]

  read_vinfo-refused :
      (s1 : Screen)
      → IsOpening fd s s1
      → (elim k.vscreen [
        | none ↦ false
        | some v ↦ is_some (k.put (b.request v)) && is_some k.fscreen && is_some k.mapping
      ])
        ≡ false
      → Fails s (read_vinfo b k fd s1)
  unfolding read_vinfo
  read_vinfo-refused s1 o h = elim (Option-cases k.vscreen) [
    | inl e ↦ rw e (gave_up fd s s1 o)
    | inr (v, e) ↦ rw e (put_vinfo-refused (record s1 { vi = b.request v }) o (rw e at h))
  ]

unchanged : (s : Screen) → IsUnchanged s s
unchanged s = record {
  files = refl;
  pixels = refl;
  front = refl;
  back = refl;
  double_buffering = refl;
  fb_fd = refl;
  mem_surface = refl;
}

-- Where open, an ioctl or mmap fails, get_framebuffer returns -1 without a fault; every descriptor
-- that it opened is closed again, and the pages, the flag of double buffering and gr_fb_fd are as
-- before.
pub get_framebuffer-refused :
    (b : Build) (k : Kernel) (s : Screen)
    → answers b k ≡ false
    → (s' : Screen) × (get_framebuffer b k s ≡ some (none, s')) × IsUnchanged s s'
unfolding get_framebuffer answers
get_framebuffer-refused b k s refused = elim (Option-cases k.fb0) [
  | inl e ↦ rw e (s, refl, unchanged s)
  | inr (fd, e) ↦ rw e (
      read_vinfo-refused b k fd s (record s { files = fd ∷ s.files })
        (refl, refl, refl, refl, refl, refl, refl) (rw e at refused))
]
