-- ===== src/Framebuffer/Flip.antt =====
-- gr_flip: double buffering.
use android_device_samsung_c.Base.{
  ℕ, ◌+◌, ◌-◌, ◌*◌, ◌%◌, ◌≤◌, ◌<◌, ◌≡◌, refl, ◌∙◌, ap, Option, some, true, false, not, ◌||◌, ◌==◌,
  ltb, if◌then◌else◌, ◌>>=◌, inl, inr, Bool-cases, Option-cases, arith,
}
use android_device_samsung_c.Memory.{Mem, within, memcpy}
use android_device_samsung_c.Memory.Painted.{Painted}
use android_device_samsung_c.Framebuffer.{
  Build, Kernel, Screen, VInfo, FInfo, Surface, live, panned, set_active_framebuffer, copy_out,
  gr_flip,
}

-- What holds of both builds: the image takes as many bytes as a page, by the resolution alone, and
-- a flip asks for no other resolution.
pub record IsLawful (b : Build) : Type 0 where
  pub image : (fi : FInfo) (vi : VInfo) → b.image_bytes fi vi ≡ b.page_bytes fi vi
  pub resolution :
      (fi : FInfo) (vi vi' : VInfo)
      → vi'.xres_virtual ≡ vi.xres_virtual
      → vi'.yres ≡ vi.yres
      → b.image_bytes fi vi' ≡ b.image_bytes fi vi
  pub wide : (vi : VInfo) → (b.pan vi).xres_virtual ≡ vi.xres_virtual
  pub high : (vi : VInfo) → (b.pan vi).yres ≡ vi.yres

abbrev pub image_bytes : Build → Screen → ℕ
image_bytes b s = b.image_bytes s.fi s.vi

-- The screen shows what the block m holds: the image lies in m, and the pages that are in use in
-- the mapping.
pub record IsReady (b : Build) (m : Mem) (s : Screen) : Type 0 where
  pub source : s.mem_surface.bits ≡ live m
  pub image : image_bytes b s ≤ m.size
  pub first : s.front.bits + image_bytes b s ≤ s.pixels.size
  pub second : s.double_buffering ≡ true → s.back.bits + image_bytes b s ≤ s.pixels.size
  pub active : s.active_fb < 2
  pub alone : s.double_buffering ≡ false → s.active_fb ≡ 0

-- FBIOPUT_VSCREENINFO leaves the resolution as it is.
unfoldable pub IsSteady : Kernel → Type 0
IsSteady k =
    (vi vi' : VInfo)
    → k.put vi ≡ some vi'
    → (vi'.xres_virtual ≡ vi.xres_virtual) × (vi'.yres ≡ vi.yres)

-- The page of an index.
abbrev pub page_of : Screen → ℕ → Surface
page_of s n = if n == 0 then s.front else s.back

memcpy-Painted :
    (p q : Mem) (d n : ℕ)
    → d + n ≤ p.size
    → n ≤ q.size
    → (p' : Mem) × (memcpy p d q 0 n ≡ some p') × Painted n (λ t old. q.byte t) d p p'
unfolding memcpy
memcpy-Painted p q d n h k = (
  record p { byte = λ i. if within d (d + n) i then q.byte (0 + (i - d)) else p.byte i },
  ground arith,
  record {
    size = refl;
    inside = λ t ht.
        let e : 0 + (d + t - d) ≡ t = omega arith in
        let hit : within d (d + n) (d + t) ≡ true = ground arith in rw (hit, e) refl;
    outside = λ i o. ground arith;
  },
)

-- The change of the page that the display shows is in `vi` only, and not in the resolution.
pub activated :
    (b : Build) (k : Kernel) (n : ℕ) (s : Screen)
    → IsLawful b
    → IsSteady k
    → (vi : VInfo) × (set_active_framebuffer b k n s ≡ record s { vi = vi })
      × (b.image_bytes s.fi vi ≡ image_bytes b s)
unfolding set_active_framebuffer IsSteady
activated b k n s l steady = elim (Bool-cases (ltb 1 n || not s.double_buffering)) [
  | inl nothing ↦ (s.vi, rw nothing refl, refl)
  | inr active ↦
      let asked = record s.vi { yres_virtual = s.vi.yres * 2; yoffset = n * s.vi.yres } in
      elim (Option-cases (k.put (panned b n s.vi))) [
        | inl e ↦ (
          panned b n s.vi,
          rw (active, e) refl,
          l.resolution s.fi s.vi (panned b n s.vi) (l.wide asked) (l.high asked),
        )
        | inr (vi, e) ↦
            let (x, y) = steady (panned b n s.vi) vi e in
            (
              vi,
              rw (active, e) refl,
              l.resolution s.fi s.vi vi (x ∙ l.wide asked) (y ∙ l.high asked),
            )
      ]
]

-- The page that gr_flip makes active.
unfoldable pub other : Screen → ℕ
other s = if s.double_buffering then 1 - s.active_fb else s.active_fb

next :
    (s : Screen)
    → s.active_fb < 2
    → (if s.double_buffering then (s.active_fb + 1) % 2 else s.active_fb) ≡ other s
unfolding other
next s h = elim (Bool-cases s.double_buffering) [ inl e ↦ rw e (omega arith) | inr e ↦ rw e refl ]

page_fits :
    (b : Build) (m : Mem) (s : Screen)
    → IsReady b m s
    → (page_of s (other s)).bits + image_bytes b s ≤ s.pixels.size
unfolding other
page_fits b m s r = elim (Bool-cases s.double_buffering) [
  | inr e ↦ rw (e, r.alone e) r.first
  | inl e ↦ elim (Bool-cases (1 - s.active_fb == 0)) [
    | inl z ↦ rw (e, z) r.first
    | inr p ↦ rw (e, p) (r.second e)
  ]
]

-- gr_flip behind the choice of the page.
flip_to : Build → Kernel → ℕ → Screen → Option Screen
flip_to b k n s = do
  s' ← copy_out b s.mem_surface.bits (page_of s n) (record s { active_fb = n })
  some (set_active_framebuffer b k n s')

gr_flip-other :
    (b : Build) (k : Kernel) (s : Screen)
    → s.active_fb < 2
    → gr_flip b k s ≡ flip_to b k (other s) s
unfolding gr_flip flip_to
gr_flip-other b k s h = ap (λ n. flip_to b k n s) (next s h)

copied :
    (b : Build) (m : Mem) (page : Surface) (s : Screen) (p : Mem)
    → s.mem_surface.bits ≡ live m
    → memcpy s.pixels page.bits m 0 (image_bytes b s) ≡ some p
    → copy_out b s.mem_surface.bits page s ≡ some (record s { pixels = p })
unfolding copy_out
copied b m page s p source e = ap (λ bits. copy_out b bits page s) source ∙ rw e refl

other_lt : (s : Screen) → s.active_fb < 2 → other s < 2
unfolding other
other_lt s h = elim (Bool-cases s.double_buffering) [ inl e ↦ rw e (omega arith) | inr e ↦ rw e h ]

other_single :
    (s : Screen)
    → (s.double_buffering ≡ false → s.active_fb ≡ 0)
    → s.double_buffering ≡ false
    → other s ≡ 0
unfolding other
other_single s h e = rw e (h e)

-- In a state that is ready, with a kernel that keeps the resolution, gr_flip does not fault. It
-- makes the other page active under double buffering and keeps the one page else, and copies the
-- image in memory to the page that is active then, and to nothing else of the mapping; the image is
-- as large as before, and the state is ready again.
pub gr_flip-IsReady :
    (b : Build) (k : Kernel) (m : Mem) (s : Screen)
    → IsLawful b
    → IsSteady k
    → IsReady b m s
    → (s' : Screen) × (gr_flip b k s ≡ some s')
      × (s'.active_fb ≡ other s)
      × Painted
          (image_bytes b s)
          (λ t old. m.byte t)
          ((page_of s' s'.active_fb).bits)
          s.pixels
          s'.pixels
      × (image_bytes b s' ≡ image_bytes b s)
      × IsReady b m s'
unfolding flip_to
gr_flip-IsReady b k m s l steady r =
    let n = other s in
    let (p, e, painted) =
      memcpy-Painted s.pixels m (page_of s n).bits (image_bytes b s) (page_fits b m s r) r.image in
    let s1 = record s { active_fb = n; pixels = p } in
    let (vi, ea, ei) = activated b k n s1 l steady in
    (
      record s1 { vi = vi },
      gr_flip-other b k s r.active
          ∙ rw (copied b m (page_of s n) (record s { active_fb = n }) p r.source e, ea) refl,
      refl,
      painted,
      ei,
      record {
        source = r.source;
        image = omega (arith, ei, r.image);
        first = omega (arith, ei, r.first, painted.size);
        second = λ d. omega (arith, ei, r.second d, painted.size);
        active = other_lt s r.active;
        alone = other_single s r.alone;
      },
    )
