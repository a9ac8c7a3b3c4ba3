-- ===== src/Framebuffer/Reach.antt =====
-- What a program may do with the display between gr_init and gr_exit, in any order: it draws on the
-- surface in memory, and calls gr_flip. The kernel may answer each flip in its own way.
use android_device_samsung_c.Base.{
  ℕ, ◌+◌, ◌≡◌, refl, ap, sym, ◌∙◌, subst, some, List, ◌∷◌, true, inl, inr, ◌==◌, ◌%◌, if◌then◌else◌,
  Bool-cases, Option-cases, ltb, not, ◌||◌, >>=-eq-some,
}
use android_device_samsung_c.Memory.{Mem, memcpy}
use android_device_samsung_c.Framebuffer.{
  Build, Kernel, Screen, VInfo, FInfo, Surface, Block, null, live, freed, panned, copy_out,
  set_active_framebuffer, gr_flip, gr_init, gr_exit,
}
use android_device_samsung_c.Framebuffer.Flip.{IsLawful, IsReady, IsSteady, gr_flip-IsReady}
use android_device_samsung_c.Framebuffer.Rounds.{IsOpen, IsStart, gr_init-IsOpen, gr_exit-files}
use android_device_samsung_c.Framebuffer.Frames.{draw, draw-IsReady}

pub data Step (b : Build) : Screen → Screen → Type 0 where
  paint : (s : Screen) (image : ℕ → ℕ) → Step b s (draw image s)
  flip : {s s' : Screen} (k : Kernel) → IsSteady k → gr_flip b k s ≡ some s' → Step b s s'

pub data Reach (b : Build) (s : Screen) : Screen → Type 0 where
  here : Reach b s s
  next : {t u : Screen} → Reach b s t → Step b t u → Reach b s u

-- A flip changes the pixels, the active page and `vi`, and nothing else.
pub record IsFlipped (s s' : Screen) : Type 0 where
  pub active_fb : ℕ
  pub pixels : Mem
  pub vi : VInfo
  pub rest : s' ≡ record s { active_fb = active_fb; pixels = pixels; vi = vi }

some_inj {ℓ} : {A : Type ℓ} {a b : A} → some a ≡ some b → a ≡ b
some_inj e = cc

copy_out-pixels :
    (b : Build) (block : Block) (page : Surface) (s s' : Screen)
    → copy_out b block page s ≡ some s'
    → (p : Mem) × (s' ≡ record s { pixels = p })
unfolding copy_out
copy_out-pixels b null page s s' e = cc
copy_out-pixels b freed page s s' e = cc
copy_out-pixels b (live m) page s s' e =
    let (p, _, e') =
      >>=-eq-some (memcpy s.pixels page.bits m 0 (b.image_bytes s.fi s.vi))
        (λ p. some (record s { pixels = p })) e in
    (p, cc)

set_active-vi :
    (b : Build) (k : Kernel) (n : ℕ) (s : Screen)
    → (vi : VInfo) × (set_active_framebuffer b k n s ≡ record s { vi = vi })
unfolding set_active_framebuffer
set_active-vi b k n s = elim (Bool-cases (ltb 1 n || not s.double_buffering)) [
  | inl nothing ↦ (s.vi, rw nothing refl)
  | inr active ↦ elim (Option-cases (k.put (panned b n s.vi))) [
    | inl e ↦ (panned b n s.vi, rw (active, e) refl)
    | inr (vi, e) ↦ (vi, rw (active, e) refl)
  ]
]

gr_flip-IsFlipped :
    (b : Build) (k : Kernel) (s s' : Screen) → gr_flip b k s ≡ some s' → IsFlipped s s'
unfolding gr_flip
gr_flip-IsFlipped b k s s' e =
    let n = if s.double_buffering then (s.active_fb + 1) % 2 else s.active_fb in
    let s0 = record s { active_fb = n } in
    let (s1, e1, e2) =
      >>=-eq-some (copy_out b s.mem_surface.bits (if n == 0 then s.front else s.back) s0)
        (λ s1. some (set_active_framebuffer b k n s1)) e in
    let (p, ep) =
      copy_out-pixels b s.mem_surface.bits (if n == 0 then s.front else s.back) s0 s1 e1 in
    let (vi, ev) = set_active-vi b k n s1 in
    record {
      active_fb = n;
      pixels = p;
      vi = vi;
      rest = sym (some_inj e2) ∙ ev ∙ ap (λ (t : Screen). record t { vi = vi }) ep;
    }

module _ (b : Build) (fd tty : ℕ) (fi : FInfo) (vi : VInfo) (before : List ℕ)
    (lawful : IsLawful b) where
  paint-IsOpen :
      (s : Screen) (image : ℕ → ℕ)
      → IsOpen b fd tty fi vi before s
      → IsOpen b fd tty fi vi before (draw image s)
  unfolding draw
  paint-IsOpen s image o = record {
    fb_fd = o.fb_fd;
    vt_fd = o.vt_fd;
    files = o.files;
    block = record o.block { byte = image };
    ready = draw-IsReady b o.block image s o.ready;
    modest = o.modest;
  }

  flip-IsOpen :
      (k : Kernel) (s s' : Screen)
      → IsSteady k
      → gr_flip b k s ≡ some s'
      → IsOpen b fd tty fi vi before s
      → IsOpen b fd tty fi vi before s'
  flip-IsOpen k s s' steady e o =
      let (s1, e1, _, _, _, ready) = gr_flip-IsReady b k o.block s lawful steady o.ready in
      let same : s1 ≡ s' = some_inj (sym e1 ∙ e) in
      let f = gr_flip-IsFlipped b k s s' e in
      record {
        fb_fd = ap (λ t. t.fb_fd) f.rest ∙ o.fb_fd;
        vt_fd = ap (λ t. t.vt_fd) f.rest ∙ o.vt_fd;
        files = ap (λ t. t.files) f.rest ∙ o.files;
        block = o.block;
        ready = subst (IsReady b o.block) same ready;
        modest = λ d. o.modest (sym (ap (λ t. t.double_buffering) f.rest) ∙ d);
      }

  Reach-IsOpen :
      {s t : Screen} → IsOpen b fd tty fi vi before s → Reach b s t → IsOpen b fd tty fi vi before t
  Reach-IsOpen o here = o
  Reach-IsOpen o (next r (paint t image)) = paint-IsOpen t image (Reach-IsOpen o r)
  Reach-IsOpen o (next r (flip {s = t} {s' = u} k steady e)) =
      flip-IsOpen k t u steady e (Reach-IsOpen o r)

-- Where the kernel grants framebuffer and console in both rounds, gr_init succeeds. In every state
-- that drawing and flips lead to from there, in any order and with any answers of a kernel that
-- keeps the resolution, one more flip does not fault, and neither does gr_exit, which closes what
-- the second round opened and leaves the two descriptors of the first round, and no other, open.
pub Reach-flips :
    (b : Build) (first second : Kernel) (s : Screen) (fd1 tty1 fd2 tty2 : ℕ)
    → IsStart b first second fd1 tty1 fd2 tty2 s
    → (s1 : Screen) × (gr_init b first second s ≡ some (true, s1))
      × ((t : Screen)
          → Reach b s1 t
          → ((k : Kernel) → IsSteady k → (u : Screen) × (gr_flip b k t ≡ some u) × Reach b s1 u)
            × ((u : Screen) × (gr_exit t ≡ some u) × (u.files ≡ fd1 ∷ tty1 ∷ s.files)))
Reach-flips b first second s fd1 tty1 fd2 tty2 start =
    let (s1, e1, o) = gr_init-IsOpen b first second s fd1 tty1 fd2 tty2 start in
    let before = fd1 ∷ tty1 ∷ s.files in
    (
      s1,
      e1,
      λ t r.
          let o' = Reach-IsOpen b fd2 tty2 start.fi start.vi before start.lawful o r in
          let (u, e, files, _) = gr_exit-files b fd2 tty2 start.fi start.vi before t o' in
          (
            λ k steady.
                let (u', e', _, _, _, _) =
                  gr_flip-IsReady b k o'.block t start.lawful steady o'.ready in
                (u', e', next r (flip k steady e')),
            (u, e, files),
          ),
    )
