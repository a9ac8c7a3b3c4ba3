-- ===== src/Framebuffer/Pages.antt =====
-- The pages that get_framebuffer sets up where the kernel grants the framebuffer.
use android_device_samsung_c.Base.{
  ℕ, ◌+◌, ◌*◌, ◌%◌, ◌^◌, ◌≤◌, ◌<◌, ◌≡◌, refl, ◌∙◌, some, ◌∷◌, Bool, true, false, ltb, inl, inr, ◌⊎◌,
  Bool-cases, arith,
}
use android_device_samsung_c.Memory.Painted.{memset_within}
use android_device_samsung_c.Framebuffer.{
  Build, Kernel, Screen, VInfo, FInfo, page, set_back, set_pages, map_pixels, read_finfo, put_vinfo,
  read_vinfo, get_framebuffer,
}

-- What the kernel answers where it grants the framebuffer: `vi` as FBIOPUT_VSCREENINFO leaves it.
pub record IsGranted (b : Build) (k : Kernel) (fd : ℕ) (v vi : VInfo) (fi : FInfo) (bytes : ℕ → ℕ)
    : Type 0 where
  pub fb0 : k.fb0 ≡ some fd
  pub vscreen : k.vscreen ≡ some v
  pub put : k.put (b.request v) ≡ some vi
  pub fscreen : k.fscreen ≡ some fi
  pub mapping : k.mapping ≡ some bytes

-- The memory holds one page of yres lines, and a page takes no more than these.
pub record IsRoomy (b : Build) (fi : FInfo) (vi : VInfo) : Type 0 where
  pub lines : b.page_bytes fi vi ≤ vi.yres * fi.line_length
  pub memory : vi.yres * fi.line_length ≤ fi.smem_len
  pub small : vi.yres * fi.line_length * 2 < 2 ^ 32

-- The test for double buffering, when it fails.
abbrev pub single : FInfo → VInfo → Bool
single fi vi = ltb fi.smem_len (vi.yres * fi.line_length * 2 % 2 ^ 32)

two_fit :
    (b : Build) (fi : FInfo) (vi : VInfo)
    → IsRoomy b fi vi
    → single fi vi ≡ false
    → b.page_bytes fi vi + b.page_bytes fi vi ≤ fi.smem_len
two_fit b fi vi r h = let lines = r.lines in let small = r.small in ground arith

-- The two pages of the framebuffer: inside the mapping, and not over each other. Without room for a
-- second page, the flag of double buffering, `before`, stays as it was.
pub record IsPaged (b : Build) (fi : FInfo) (vi : VInfo) (before : Bool) (s : Screen) : Type 0 where
  pub kept : s.vi ≡ vi
  pub fixed : s.fi ≡ fi
  pub mapped : s.pixels.size ≡ fi.smem_len
  pub front : s.front ≡ page b fi vi 0
  pub first : b.page_bytes fi vi ≤ fi.smem_len
  pub second :
      ((single fi vi ≡ true) × (s.double_buffering ≡ before))
      ⊎ ((single fi vi ≡ false)
          × (s.double_buffering ≡ true)
          × (s.back ≡ page b fi vi (b.page_bytes fi vi))
          × (b.page_bytes fi vi + b.page_bytes fi vi ≤ fi.smem_len))

set_pages-IsPaged :
    (b : Build) (fd : ℕ) (s : Screen)
    → IsRoomy b s.fi (b.layout s.fi s.vi)
    → s.pixels.size ≡ s.fi.smem_len
    → (s' : Screen) × (set_pages b fd s ≡ some (some fd, s'))
      × IsPaged b s.fi (b.layout s.fi s.vi) s.double_buffering s'
      × (s'.files ≡ s.files)
      × (s'.vt_fd ≡ s.vt_fd)
unfolding set_pages set_back
set_pages-IsPaged b fd s room size =
    let vi = b.layout s.fi s.vi in
    let n = b.page_bytes s.fi vi in
    let fits : n ≤ s.fi.smem_len = omega (arith, room.lines, room.memory) in
    let (m, e, em) = memset_within s.pixels 0 n (omega arith) in
    let s1 = record s { vi = vi; pixels = m; front = page b s.fi vi 0 } in
    elim (Bool-cases (single s.fi vi)) [
      | inl one ↦ (
        s1,
        rw (e, one) refl,
        record {
          kept = refl;
          fixed = refl;
          mapped = em ∙ size;
          front = refl;
          first = fits;
          second = inl (one, refl);
        },
        refl,
        refl,
      )
      | inr two ↦
          let fit = two_fit b s.fi vi room two in
          let (m', e', em') = memset_within m n n (omega arith) in
          (
            record s1 { pixels = m'; back = page b s.fi vi n; double_buffering = true },
            rw (e, two, e', set_back) refl,
            record {
              kept = refl;
              fixed = refl;
              mapped = em' ∙ em ∙ size;
              front = refl;
              first = fits;
              second = inr (two, refl, refl, fit);
            },
            refl,
            refl,
          )
    ]

-- Where the kernel grants the framebuffer, with memory for one page of yres lines that are long
-- enough, get_framebuffer returns the descriptor, which it leaves open, without a fault. The first
-- page lies in the mapping; there is double buffering, with a second page behind the first and in
-- the mapping, unless the memory is too small for two pages. gr_vt_fd is as before.
pub get_framebuffer-IsPaged :
    (b : Build) (k : Kernel) (s : Screen) (fd : ℕ) (v vi : VInfo) (fi : FInfo) (bytes : ℕ → ℕ)
    → IsGranted b k fd v vi fi bytes
    → IsRoomy b fi (b.layout fi vi)
    → (s' : Screen) × (get_framebuffer b k s ≡ some (some fd, s'))
      × IsPaged b fi (b.layout fi vi) s.double_buffering s'
      × (s'.files ≡ fd ∷ s.files)
      × (s'.vt_fd ≡ s.vt_fd)
unfolding get_framebuffer read_vinfo put_vinfo read_finfo map_pixels
get_framebuffer-IsPaged b k s fd v vi fi bytes g room =
    let s4 = record s {
      files = fd ∷ s.files;
      vi = vi;
      fi = fi;
      pixels = record { size = fi.smem_len; byte = bytes };
    } in
    let (s', e, paged, files, vt) = set_pages-IsPaged b fd s4 room refl in
    (
      s',
      rw
          (
            g.fb0, get_framebuffer, g.vscreen, read_vinfo, g.put, put_vinfo, g.fscreen, read_finfo,
            g.mapping, map_pixels,
          )
          e,
      paged,
      files,
      vt,
    )
