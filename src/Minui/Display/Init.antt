-- ===== src/Minui/Display/Init.antt =====
-- gr_init_real and gr_init: which backend is chosen, what they return, and when they fault.
use android_device_samsung_c.Base.{
  ℕ, ◌*◌, ◌/◌, ◌≡◌, refl, Option, none, some, ◌∷◌, ℤ, pos, negsuc, subst, ◌∙◌,
}
use android_device_samsung_c.Minui.{GrSurface, GrFont}
use android_device_samsung_c.Minui.Display.{
  CompiledFont, Kind, adf, drm, fbdev, Probe, Display, Flip, gr_init_font, gr_init_real, gr_init,
}

-- The backends could all be allocated, and `a`, `d` and `b` are the surfaces of their init calls.
pub record Opened {B : Type 0} (p : Probe B) (a d b : Option GrSurface) : Type 0 where
  pub adf_opened : p.adf_open ≡ some a
  pub drm_opened : p.drm_open ≡ some d
  pub fbdev_opened : p.fbdev_open ≡ some b

-- The first backend whose init gives a surface, in the order adf, drm, fbdev.
unfoldable pub first_of_three : (a d b : Option GrSurface) → Option (Kind × GrSurface)
first_of_three (some s) d b = some (adf, s)
first_of_three none (some s) b = some (drm, s)
first_of_three none none (some s) = some (fbdev, s)
first_of_three none none none = none

module _ {B : Type 0} (flip : Flip B) (f : CompiledFont) (percent : ℕ) where
  -- What two flips hand out and leave.
  abbrev pub flip_twice : Kind → B → GrSurface → Option GrSurface × B
  flip_twice k b s = let (s1, b1) = flip k b (some s) in flip k b1 s1

  -- The state behind a round that found surface `s` of backend `k`.
  abbrev ready : Display B → B → GrFont → Kind → GrSurface → Display B
  ready d b font k s = record d {
    font = some font;
    backend = some k;
    draw = (flip_twice k b s).0;
    backends = (flip_twice k b s).1;
    overscan_offset_x = s.width * percent / 100;
    overscan_offset_y = s.height * percent / 100;
  }

  -- What a round leaves when the search among the backends gave `found`: the result -1 and no surface,
  -- or the result 0, the font, the backend, its surface after two flips, and the overscan offsets.
  abbrev pub Found : B → GrFont → Option (Kind × GrSurface) → Display B → ℤ → Type 0
  Found b font none d' ret = (ret ≡ negsuc 0) × (d'.draw ≡ none)
  Found b font (some (k, s)) d' ret =
      (ret ≡ pos 0)
      × (d'.font ≡ some font)
      × (d'.backend ≡ some k)
      × (d'.draw ≡ (flip_twice k b s).0)
      × (d'.backends ≡ (flip_twice k b s).1)
      × (d'.overscan_offset_x ≡ s.width * percent / 100)
      × (d'.overscan_offset_y ≡ s.height * percent / 100)

  -- If the font loads and no backend is a null pointer, gr_init_real does not fault, whatever the
  -- state before. It takes the first of adf, drm and fbdev whose init gives a surface, and leaves
  -- that backend as current with the surface it hands out after two flips and the overscan offsets
  -- of that surface, returning 0; if no init gives one, it returns -1 and leaves no surface.
  pub gr_init_real-Found :
      (p : Probe B) (d : Display B) (font : GrFont) (a dr b : Option GrSurface)
      → gr_init_font f p ≡ some font
      → Opened p a dr b
      → (ret : ℤ) × (d' : Display B) × (gr_init_real flip f percent p d ≡ some (ret, d'))
        × Found p.backends font (first_of_three a dr b) d' ret
  unfolding gr_init_real first_of_three
  gr_init_real-Found p d font (some s) dr b ef o = (
    pos 0,
    ready d p.backends font adf s,
    rw (ef, o.adf_opened),
    (refl, refl, refl, refl, refl, refl, refl),
  )
  gr_init_real-Found p d font none (some s) b ef o = (
    pos 0,
    ready (record d { exited = adf ∷ d.exited }) p.backends font drm s,
    rw (ef, o.adf_opened, o.drm_opened),
    (refl, refl, refl, refl, refl, refl, refl),
  )
  gr_init_real-Found p d font none none (some s) ef o = (
    pos 0,
    ready (record d { exited = adf ∷ d.exited }) p.backends font fbdev s,
    rw (ef, o.adf_opened, o.drm_opened, o.fbdev_opened),
    (refl, refl, refl, refl, refl, refl, refl),
  )
  gr_init_real-Found p d font none none none ef o = (
    negsuc 0,
    record d {
      font = some font;
      backend = some fbdev;
      draw = none;
      exited = adf ∷ d.exited;
      backends = p.backends;
    },
    rw (ef, o.adf_opened, o.drm_opened, o.fbdev_opened),
    (refl, refl),
  )

  -- If the font loads and no backend is a null pointer in either round, gr_init does not fault and
  -- leaves what the second round finds. It returns 0 in every case, also when no backend gave a
  -- surface.
  pub gr_init-Found :
      (p q : Probe B) (d : Display B) (font font' : GrFont) (a dr b a' dr' b' : Option GrSurface)
      → gr_init_font f p ≡ some font
      → Opened p a dr b
      → gr_init_font f q ≡ some font'
      → Opened q a' dr' b'
      → (ret : ℤ) × (d' : Display B) × (gr_init flip f percent p q d ≡ some (pos 0, d'))
        × Found q.backends font' (first_of_three a' dr' b') d' ret
  unfolding gr_init
  gr_init-Found p q d font font' a dr b a' dr' b' ef o ef' o' =
      let (ret1, d1, e1, found1) = gr_init_real-Found p d font a dr b ef o in
      let (ret, d', e, found) = gr_init_real-Found q d1 font' a' dr' b' ef' o' in
      (ret, d', rw (e1, e), found)

  round_without_adf :
      (q : Probe B) (d : Display B) (font' : GrFont) (s' : GrSurface)
      → d.draw ≡ some s'
      → gr_init_font f q ≡ some font'
      → q.adf_open ≡ none
      → gr_init_real flip f percent q d ≡ none
  unfolding gr_init_real
  round_without_adf q d font' s' ed ef closed = rw (ef, closed, ed)

  -- If the first round finds a surface and in the second open_adf returns a null pointer, gr_init
  -- faults: the surface of the first round keeps drm and fbdev from being tried, and gr_flip goes
  -- through the null backend.
  pub gr_init-stale_surface :
      (p q : Probe B) (d : Display B) (font font' : GrFont) (a dr b : Option GrSurface) (k : Kind)
      (s s' : GrSurface)
      → gr_init_font f p ≡ some font
      → Opened p a dr b
      → first_of_three a dr b ≡ some (k, s)
      → (flip_twice k p.backends s).0 ≡ some s'
      → gr_init_font f q ≡ some font'
      → q.adf_open ≡ none
      → gr_init flip f percent p q d ≡ none
  unfolding gr_init
  gr_init-stale_surface p q d font font' a dr b k s s' ef o first flipped ef' closed =
      let (ret1, d1, e1, found1) = gr_init_real-Found p d font a dr b ef o in
      let found = subst (λ r. Found p.backends font r d1 ret1) first found1 in
      rw e1 (rw (round_without_adf q d1 font' s' (found.3 ∙ flipped) ef' closed))
