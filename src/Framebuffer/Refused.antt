-- ===== src/Framebuffer/Refused.antt =====
-- A round of gr_init in which the kernel refuses the framebuffer.
use android_device_samsung_c.Base.{
  ◌≡◌, refl, ◌∙◌, ap, none, some, Bool, true, false, ◌∷◌, ℕ, ◌+◌, ◌%◌, ◌==◌, if◌then◌else◌, inl,
  inr, Option-cases,
}
use android_device_samsung_c.Framebuffer.{
  Build, Kernel, Screen, Surface, Block, null, live, freed, free, close, copy_out, gr_flip, gr_exit,
  open_display, gr_init_orig, gr_init, FInfo, VInfo,
}
use android_device_samsung_c.Framebuffer.Rounds.{IsRound, IsModest, gr_init_orig-IsOpen}
use android_device_samsung_c.Framebuffer.Flip.{IsLawful}
use android_device_samsung_c.Framebuffer.Descriptors.{answers, get_framebuffer-refused}

-- The framebuffer is refused, with a console in graphics mode or none.
pub record IsRefused (b : Build) (k : Kernel) : Type 0 where
  pub refused : answers b k ≡ false
  pub graphics : k.kd_graphics ≡ true

-- What gr_exit leaves.
abbrev left : Block → Screen → Screen
left bits s = record (close s.vt_fd (close s.fb_fd s)) {
  fb_fd = none;
  vt_fd = none;
  mem_surface = record s.mem_surface { bits = bits };
}

exit_run :
    (s : Screen) (bits : Block)
    → free s.mem_surface.bits ≡ some bits
    → gr_exit s ≡ some (left bits s)
unfolding gr_exit
exit_run s bits e = rw e refl

open_display-refused :
    (b : Build) (k : Kernel) (s : Screen) (bits : Block)
    → answers b k ≡ false
    → free s.mem_surface.bits ≡ some bits
    → (s' : Screen) × (open_display b k s ≡ some (false, s'))
      × (s'.mem_surface.bits ≡ bits)
      × (s'.fb_fd ≡ none)
unfolding open_display
open_display-refused b k s bits refused e =
    let (s1, e1, same) = get_framebuffer-refused b k s refused in
    let e2 =
      exit_run (record s1 { fb_fd = none }) bits (ap (λ m. free m.bits) same.mem_surface ∙ e) in
    (left bits (record s1 { fb_fd = none }), rw (e1, e2) refl, refl, refl)

pub gr_init_orig-refused :
    (b : Build) (k : Kernel) (s : Screen) (bits : Block)
    → IsRefused b k
    → free s.mem_surface.bits ≡ some bits
    → (s' : Screen) × (gr_init_orig b k s ≡ some (false, s'))
      × (s'.mem_surface.bits ≡ bits)
      × (s'.fb_fd ≡ none)
unfolding gr_init_orig
gr_init_orig-refused b k s bits r e = elim (Option-cases k.tty0) [
  | inl c ↦
      let (s', e', h, fd) = open_display-refused b k (record s { vt_fd = none }) bits r.refused e in
      (s', rw (c, gr_init_orig) e', h, fd)
  | inr (tty, c) ↦
      let s0 = record s { vt_fd = some tty; files = tty ∷ s.files } in
      let (s', e', h, fd) = open_display-refused b k s0 bits r.refused e in
      (s', rw (c, gr_init_orig, r.graphics) e', h, fd)
]

copy_blind :
    (b : Build) (bits bits' : Block) (page : Surface) (s : Screen)
    → free bits ≡ some bits'
    → copy_out b bits' page s ≡ none
unfolding free copy_out
copy_blind b null bits' page s e = let h : bits' ≡ null = (cc) in rw h refl
copy_blind b (live m) bits' page s e = let h : bits' ≡ freed = (cc) in rw h refl
copy_blind b freed bits' page s e = (cc)

-- Without a surface in memory a flip reads through a pointer that is null or dangles.
pub gr_flip-blind :
    (b : Build) (k : Kernel) (s : Screen)
    → (bits : Block) → free bits ≡ some s.mem_surface.bits
    → gr_flip b k s ≡ none
unfolding gr_flip
gr_flip-blind b k s bits e =
    let n = if s.double_buffering then (s.active_fb + 1) % 2 else s.active_fb in
    rw
      (copy_blind b bits s.mem_surface.bits (if n == 0 then s.front else s.back)
        (record s { active_fb = n }) e)
      refl

-- The first round as it may be: granted or refused.
pub data First (b : Build) (k : Kernel) (s : Screen) : Type 0 where
  granted :
      (fd tty : ℕ) (fi : FInfo) (vi : VInfo)
      → IsRound b k fd tty fi vi
      → IsModest fi vi s
      → First b k s
  refused : IsRefused b k → s.mem_surface.bits ≡ null → First b k s

-- Behind either the surface in memory can be freed.
pub First-free :
    (b : Build) (k : Kernel) (s : Screen)
    → IsLawful b
    → First b k s
    → (r : Bool) × (s' : Screen) × (gr_init_orig b k s ≡ some (r, s'))
      × (bits : Block) × (free s'.mem_surface.bits ≡ some bits)
unfolding free
First-free b k s l (granted fd tty fi vi round modest) =
    let (s', e, o) = gr_init_orig-IsOpen b k s fd tty fi vi l round modest in
    (true, s', e, freed, ap free o.ready.source)
First-free b k s l (refused no_fb start) =
    let (s', e, h, fd) = gr_init_orig-refused b k s null no_fb (ap free start) in
    (false, s', e, null, ap free h)

-- Where the first round of gr_init is granted and the second is refused the framebuffer, gr_init
-- fails and has freed the surface in memory of the first round; a gr_exit behind it frees the
-- surface again.
pub gr_init-double_free :
    (b : Build) (first second : Kernel) (s : Screen) (fd tty : ℕ) (fi : FInfo) (vi : VInfo)
    → IsLawful b
    → IsRound b first fd tty fi vi
    → IsModest fi vi s
    → IsRefused b second
    → (s' : Screen) × (gr_init b first second s ≡ some (false, s')) × (gr_exit s' ≡ none)
unfolding gr_init gr_exit free
gr_init-double_free b first second s fd tty fi vi l round modest r =
    let (s1, e1, o) = gr_init_orig-IsOpen b first s fd tty fi vi l round modest in
    let (s2, e2, h, _) = gr_init_orig-refused b second s1 freed r (ap free o.ready.source) in
    (s2, rw (e1, e2) refl, (let gone : free s2.mem_surface.bits ≡ none = ap free h in rw gone refl))
