-- ===== src/Framebuffer/Frames.antt =====
-- A session of the display: gr_init, and then frames that are drawn and shown by gr_flip.
use android_device_samsung_c.Base.{
  ℕ, ◌+◌, ◌<◌, ◌≡◌, refl, ap, Option, some, List, [], ◌∷◌, true, ◌>>=◌, arith,
}
use android_device_samsung_c.Memory.{Mem}
use android_device_samsung_c.Framebuffer.{
  Build, Kernel, Screen, Block, null, live, freed, gr_flip, gr_init,
}
use android_device_samsung_c.Framebuffer.Flip.{
  IsLawful, IsReady, IsSteady, image_bytes, page_of, gr_flip-IsReady,
}
use android_device_samsung_c.Framebuffer.Rounds.{IsStart, gr_init-IsOpen}

-- A frame is what the drawing functions have made of the bytes of the surface in memory.
abbrev repainted : (ℕ → ℕ) → Block → Block
repainted image null = null
repainted image (live m) = live (record m { byte = image })
repainted image freed = freed

unfoldable pub draw : (ℕ → ℕ) → Screen → Screen
draw image s = record s {
  mem_surface = record s.mem_surface { bits = repainted image s.mem_surface.bits };
}

unfoldable pub show : Build → Kernel → List (ℕ → ℕ) → Screen → Option Screen
show b k [] s = some s
show b k (image ∷ images) s = do s ← gr_flip b k (draw image s); show b k images s

pub draw-IsReady :
    (b : Build) (m : Mem) (image : ℕ → ℕ) (s : Screen)
    → IsReady b m s
    → IsReady b (record m { byte = image }) (draw image s)
unfolding draw
draw-IsReady b m image s r = record {
  source = ap (repainted image) r.source;
  image = r.image;
  first = r.first;
  second = r.second;
  active = r.active;
  alone = r.alone;
}

-- The active page holds the image.
pub record Shows (b : Build) (image : ℕ → ℕ) (s : Screen) : Type 0 where
  pub at :
      (t : ℕ) → t < image_bytes b s → s.pixels.byte ((page_of s s.active_fb).bits + t) ≡ image t

module _ (b : Build) (k : Kernel) (lawful : IsLawful b) (steady : IsSteady k) where
  show-IsReady :
      (images : List (ℕ → ℕ)) (m : Mem) (s : Screen)
      → IsReady b m s
      → (m' : Mem) × (s' : Screen) × (show b k images s ≡ some s') × IsReady b m' s'
  unfolding show
  show-IsReady [] m s r = (m, s, refl, r)
  show-IsReady (image ∷ images) m s r =
      let m1 = record m { byte = image } in
      let (s1, e1, _, _, _, r1) =
        gr_flip-IsReady b k m1 (draw image s) lawful steady (draw-IsReady b m image s r) in
      let (m', s', e', r') = show-IsReady images m1 s1 r1 in (m', s', rw e1 e', r')

  flip-Shows :
      (image : ℕ → ℕ) (m : Mem) (s : Screen)
      → IsReady b m s
      → (s' : Screen) × (gr_flip b k (draw image s) ≡ some s') × Shows b image s'
  flip-Shows image m s r =
      let (s', e, _, painted, size, _) =
        gr_flip-IsReady b k (record m { byte = image }) (draw image s) lawful steady
          (draw-IsReady b m image s r) in
      (s', e, record { at = λ t h. painted.inside t (omega (arith, size)) })

  -- Where the kernel grants the framebuffer and the console in both rounds of gr_init, on the same
  -- screen, and keeps the resolution, gr_init succeeds; any number of frames can then be drawn and
  -- shown without a fault, and behind the last of them the page that is active holds that frame.
  pub session_frames :
      (first second : Kernel) (s : Screen) (fd1 tty1 fd2 tty2 : ℕ)
      → IsStart b first second fd1 tty1 fd2 tty2 s
      → (images : List (ℕ → ℕ)) (last : ℕ → ℕ)
      → (s1 s2 s3 : Screen) × (gr_init b first second s ≡ some (true, s1))
        × (show b k images s1 ≡ some s2)
        × (gr_flip b k (draw last s2) ≡ some s3)
        × Shows b last s3
  session_frames first second s fd1 tty1 fd2 tty2 start images last =
      let (s1, e1, o) = gr_init-IsOpen b first second s fd1 tty1 fd2 tty2 start in
      let (m2, s2, e2, r2) = show-IsReady images o.block s1 o.ready in
      let (s3, e3, shows) = flip-Shows last m2 s2 r2 in (s1, s2, s3, e1, e2, e3, shows)
