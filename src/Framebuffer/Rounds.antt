-- ===== src/Framebuffer/Rounds.antt =====
-- The rounds of gr_init, gr_exit behind them, and the flips in between.
use android_device_samsung_c.Base.{
  ℕ, ◌≡◌, refl, sym, ◌∙◌, ap, subst, Option, none, some, List, ◌∷◌, Bool, true, false, inl, inr,
  arith,
}
use android_device_samsung_c.Memory.{Mem}
use android_device_samsung_c.Framebuffer.{
  Build, Kernel, Screen, VInfo, FInfo, freed, remove, close, get_framebuffer, get_memory_surface,
  set_active_framebuffer, gr_exit, free, open_display, gr_init_orig, gr_init,
}
use android_device_samsung_c.Framebuffer.Pages.{
  IsGranted, IsRoomy, IsPaged, single, get_framebuffer-IsPaged,
}
use android_device_samsung_c.Framebuffer.Flip.{IsLawful, IsReady, IsSteady, activated}

-- In one round the kernel grants the framebuffer as `fd`, and the console as `tty` in graphics
-- mode; `vi` is what get_framebuffer makes of its answers.
pub record IsRound (b : Build) (k : Kernel) (fd tty : ℕ) (fi : FInfo) (vi : VInfo) : Type 0 where
  pub v : VInfo
  pub asked : VInfo
  pub bytes : ℕ → ℕ
  pub granted : IsGranted b k fd v asked fi bytes
  pub layout : b.layout fi asked ≡ vi
  pub roomy : IsRoomy b fi vi
  pub steady : IsSteady k
  pub console : k.tty0 ≡ some tty
  pub graphics : k.kd_graphics ≡ true

-- Double buffering is on only where the memory holds two pages.
abbrev pub IsModest : FInfo → VInfo → Screen → Type 0
IsModest fi vi s = s.double_buffering ≡ true → single fi vi ≡ false

-- What a round leaves open, and a surface in memory that can be shown.
pub record IsOpen (b : Build) (fd tty : ℕ) (fi : FInfo) (vi : VInfo) (before : List ℕ) (s : Screen)
    : Type 0 where
  pub fb_fd : s.fb_fd ≡ some fd
  pub vt_fd : s.vt_fd ≡ some tty
  pub files : s.files ≡ fd ∷ tty ∷ before
  pub block : Mem
  pub ready : IsReady b block s
  pub modest : IsModest fi vi s

-- The state that a round leaves, with the `vi` of the last ioctl.
abbrev shown : Build → Kernel → ℕ → VInfo → Screen → Screen
shown b k fd vi s = record s {
  fb_fd = some fd;
  mem_surface = get_memory_surface b k s.fi s.vi;
  active_fb = 0;
  vi = vi;
}

init_run :
    (b : Build) (k : Kernel) (s s1 : Screen) (fd tty : ℕ) (vi : VInfo)
    → k.tty0 ≡ some tty
    → k.kd_graphics ≡ true
    → get_framebuffer b k (record s { vt_fd = some tty; files = tty ∷ s.files })
      ≡ some (some fd, s1)
    → set_active_framebuffer b k 0 (shown b k fd s1.vi s1) ≡ shown b k fd vi s1
    → gr_init_orig b k s ≡ some (true, shown b k fd vi s1)
unfolding gr_init_orig open_display
init_run b k s s1 fd tty vi console graphics e ea =
    rw (console, gr_init_orig, graphics, open_display, e, ea) refl

modest :
    (b : Build) (fi : FInfo) (vi : VInfo) (s s' : Screen)
    → IsModest fi vi s
    → IsPaged b fi vi s.double_buffering s'
    → IsModest fi vi s'
modest b fi vi s s' m paged d = elim paged.second [
  | inl (one, same) ↦ m (sym same ∙ d)
  | inr (two, _, _, _) ↦ two
]

shown-IsReady :
    (b : Build) (k : Kernel) (fd : ℕ) (fi : FInfo) (vi vi' : VInfo) (before : Bool) (s1 : Screen)
    → IsLawful b
    → IsPaged b fi vi before s1
    → IsModest fi vi s1
    → b.image_bytes s1.fi vi' ≡ b.image_bytes s1.fi s1.vi
    → IsReady b (record { size = b.image_bytes s1.fi s1.vi; byte = k.heap }) (shown b k fd vi' s1)
unfolding get_memory_surface
shown-IsReady b k fd fi vi vi' before s1 l paged modest ei =
    let n =
      l.image s1.fi s1.vi
      ∙ ap (λ f. b.page_bytes f s1.vi) paged.fixed
      ∙ ap (λ v. b.page_bytes fi v) paged.kept in
    let front : s1.front.bits ≡ 0 = ap (λ p. p.bits) paged.front in
    record {
      source = refl;
      image = omega (arith, ei);
      first = omega (arith, ei, n, paged.first, paged.mapped);
      second = λ d. elim paged.second [
        | inl (one, same) ↦ cc (one, modest d)
        | inr (two, on, back, fits) ↦
            let at : s1.back.bits ≡ b.page_bytes fi vi = ap (λ p. p.bits) back in
            omega (arith, ei, n, paged.mapped)
      ];
      active = omega arith;
      alone = λ d. refl;
    }

pub gr_init_orig-IsOpen :
    (b : Build) (k : Kernel) (s : Screen) (fd tty : ℕ) (fi : FInfo) (vi : VInfo)
    → IsLawful b
    → IsRound b k fd tty fi vi
    → IsModest fi vi s
    → (s' : Screen) × (gr_init_orig b k s ≡ some (true, s')) × IsOpen b fd tty fi vi s.files s'
unfolding get_memory_surface
gr_init_orig-IsOpen b k s fd tty fi vi l r m =
    let s0 = record s { vt_fd = some tty; files = tty ∷ s.files } in
    let room : IsRoomy b fi (b.layout fi r.asked) = rw r.layout r.roomy in
    let (s1, e, paged', files, vt) =
      get_framebuffer-IsPaged b k s0 fd r.v r.asked fi r.bytes r.granted room in
    let paged : IsPaged b fi vi s.double_buffering s1 = rw r.layout at paged' in
    let m1 = modest b fi vi s s1 m paged in
    let (vi', ea, ei) = activated b k 0 (shown b k fd s1.vi s1) l r.steady in
    (
      shown b k fd vi' s1,
      init_run b k s s1 fd tty vi' r.console r.graphics e ea,
      record {
        fb_fd = refl;
        vt_fd = vt;
        files = files;
        block = record { size = b.image_bytes s1.fi s1.vi; byte = k.heap };
        ready = shown-IsReady b k fd fi vi vi' s.double_buffering s1 l paged m1 ei;
        modest = m1;
      },
    )

closed :
    (x : Option ℕ) (fd : ℕ) (before : List ℕ) (s : Screen)
    → x ≡ some fd
    → s.files ≡ fd ∷ before
    → (close x s).files ≡ before
unfolding close remove
closed x fd before s e files = rw (e, close) (ap (remove fd) files ∙ ground arith)

pub gr_exit-files :
    (b : Build) (fd tty : ℕ) (fi : FInfo) (vi : VInfo) (before : List ℕ) (s : Screen)
    → IsOpen b fd tty fi vi before s
    → (s' : Screen) × (gr_exit s ≡ some s') × (s'.files ≡ before) × (s'.mem_surface.bits ≡ freed)
unfolding gr_exit free
gr_exit-files b fd tty fi vi before s o =
    let e : free s.mem_surface.bits ≡ some freed = ap free o.ready.source in
    (
      record (close s.vt_fd (close s.fb_fd s)) {
        fb_fd = none;
        vt_fd = none;
        mem_surface = record s.mem_surface { bits = freed };
      },
      rw e refl,
      closed s.vt_fd tty before (close s.fb_fd s) o.vt_fd
          (closed s.fb_fd fd (tty ∷ before) s o.fb_fd o.files),
      refl,
    )

-- The two rounds of gr_init, with descriptors of their own, on a screen that stays the same.
pub record IsStart (b : Build) (first second : Kernel) (fd1 tty1 fd2 tty2 : ℕ) (s : Screen)
    : Type 0 where
  pub fi : FInfo
  pub vi : VInfo
  pub lawful : IsLawful b
  pub one : IsRound b first fd1 tty1 fi vi
  pub two : IsRound b second fd2 tty2 fi vi
  pub modest : IsModest fi vi s

module _ (b : Build) (first second : Kernel) (s : Screen) (fd1 tty1 fd2 tty2 : ℕ)
    (start : IsStart b first second fd1 tty1 fd2 tty2 s) where
  pub gr_init-IsOpen :
      (s' : Screen) × (gr_init b first second s ≡ some (true, s'))
      × IsOpen b fd2 tty2 start.fi start.vi (fd1 ∷ tty1 ∷ s.files) s'
  unfolding gr_init
  gr_init-IsOpen =
      let fi = start.fi in
      let vi = start.vi in
      let (sa, ea, oa) =
        gr_init_orig-IsOpen b first s fd1 tty1 fi vi start.lawful start.one start.modest in
      let (sb, eb, ob) =
        gr_init_orig-IsOpen b second sa fd2 tty2 fi vi start.lawful start.two oa.modest in
      (sb, rw (ea, eb) refl, subst (λ l. IsOpen b fd2 tty2 fi vi l sb) oa.files ob)

  -- Where the kernel grants the framebuffer and the console in both rounds, gr_init returns 0 and
  -- gr_exit then does not fault, but it closes only what the second round opened: both descriptors
  -- of the first stay open.
  pub gr_init-leaks :
      (s1 s2 : Screen) × (gr_init b first second s ≡ some (true, s1))
      × (gr_exit s1 ≡ some s2)
      × (s2.files ≡ fd1 ∷ tty1 ∷ s.files)
  gr_init-leaks =
      let (s1, e1, o) = gr_init-IsOpen in
      let (s2, e2, files, _) =
        gr_exit-files b fd2 tty2 start.fi start.vi (fd1 ∷ tty1 ∷ s.files) s1 o in
      (s1, s2, e1, e2, files)
