-- ===== src/Minui/Display.antt =====
-- gr_init, gr_flip and gr_exit of recovery/graphics.cpp: the choice of a display backend and the font.
-- The backends (open_adf, open_drm, open_fbdev), the resource loader and the compiled-in font are not
-- in the repository: what they answer in one round of the initialisation is a `Probe`, a parameter.
-- `none` is a call through a null pointer.
pub mod Font
pub mod Init
use android_device_samsung_c.Base.{
  ℕ, zero, suc, ◌*◌, ◌/◌, ◌+◌, Option, none, some, List, [], ◌∷◌, ◌>>=◌, Bool, ℤ, pos, negsuc,
}
use android_device_samsung_c.Memory.{Mem}
use android_device_samsung_c.Rle.{rle_loop}
use android_device_samsung_c.Minui.{GrSurface, GrFont}

-- The structure `font` of font_10x18.h.
pub record CompiledFont : Type 0 where
  pub width : ℕ
  pub height : ℕ
  pub cwidth : ℕ
  pub cheight : ℕ
  pub rundata : List ℕ

pub data Kind : Type 0 where
  adf drm fbdev : Kind

-- What the calls of one round answer. The outer `none` is a backend that open_* could not allocate, the
-- inner one an init that failed. `font` is the surface of res_create_alpha_surface, or its failure;
-- `bits` are the bytes of a block that malloc returns. `backends` is what the objects of the backends
-- hold behind the init calls, as the buffers that are not drawn on; it has any type B.
pub record Probe (B : Type 0) : Type 0 where
  pub font : Option GrSurface
  pub bits : ℕ → ℕ
  pub adf_open : Option (Option GrSurface)
  pub drm_open : Option (Option GrSurface)
  pub fbdev_open : Option (Option GrSurface)
  pub backends : B

-- The static variables that the initialisation sets, and the objects of the backends; `exited` are the
-- backends whose exit was called.
pub record Display (B : Type 0) : Type 0 where
  pub font : Option GrFont
  pub backend : Option Kind
  pub draw : Option GrSurface
  pub overscan_offset_x : ℕ
  pub overscan_offset_y : ℕ
  pub exited : List Kind
  pub backends : B

unfoldable pub compiled_font : CompiledFont → (bits : ℕ → ℕ) → Option GrFont
compiled_font f bits = do
  m ← rle_loop f.rundata 0 (record { size = f.width * f.height; byte = bits })
  let tex : GrSurface = record {
    width = f.width;
    height = f.height;
    row_bytes = f.width;
    pixel_bytes = 1;
    bytes = m;
  }
  some (record { texture = some tex; cwidth = f.cwidth; cheight = f.cheight })

unfoldable pub gr_init_font : {B : Type 0} → CompiledFont → Probe B → Option GrFont
gr_init_font f p = elim p.font [
  | some tex ↦
      some (record { texture = some tex; cwidth = tex.width / 96; cheight = tex.height / 2 })
  | none ↦ compiled_font f p.bits
]

-- A flip is given what the backends hold and the surface that is drawn on, and hands another one out.
abbrev pub Flip : Type 0 → Type 0
Flip B = Kind → B → Option GrSurface → Option GrSurface × B

module _ {B : Type 0} (flip : Flip B) where
  unfoldable pub gr_flip : Display B → Option (Display B)
  gr_flip d = elim d.backend [
    | none ↦ none
    | some k ↦
        let (draw, backends) = flip k d.backends d.draw in
        some (record d { draw = draw; backends = backends })
  ]

  -- gr_backend = open_adf(); if (gr_backend) { ... }
  unfoldable pub try_adf : Option (Option GrSurface) → Display B → Display B
  try_adf none d = record d { backend = none }
  try_adf (some (some s)) d = record d { backend = some adf; draw = some s }
  try_adf (some none) d = record d { backend = some adf; draw = none; exited = adf ∷ d.exited }

  -- if (!gr_draw) { gr_backend = open_*(); gr_draw = gr_backend->init(gr_backend); }
  unfoldable pub try_next : Kind → Option (Option GrSurface) → Display B → Option (Display B)
  try_next k opened d = elim d.draw [
    | some s ↦ some d
    | none ↦ elim opened [ none ↦ none | some r ↦ some (record d { backend = some k; draw = r }) ]
  ]

  -- The offsets from the percentage of overscan, and the two flips; -1 if there is no surface.
  unfoldable pub finish : (overscan_percent : ℕ) → Display B → Option (ℤ × Display B)
  finish percent d = elim d.draw [
    | none ↦ some (negsuc 0, d)
    | some s ↦ do
      d ← gr_flip (record d {
        overscan_offset_x = s.width * percent / 100;
        overscan_offset_y = s.height * percent / 100;
      })
      d ← gr_flip d
      some (pos 0, d)
  ]

  unfoldable pub gr_init_real :
      CompiledFont → (overscan_percent : ℕ) → Probe B → Display B → Option (ℤ × Display B)
  unfolding gr_flip try_adf try_next finish
  gr_init_real f percent p d = do
    font ← gr_init_font f p
    d ←
        try_next drm p.drm_open
          (try_adf p.adf_open (record d { font = some font; backends = p.backends }))
    d ← try_next fbdev p.fbdev_open d
    finish percent d

  -- Both results are dropped.
  unfoldable pub gr_init :
      CompiledFont
      → (overscan_percent : ℕ) → (first second : Probe B) → Display B
      → Option (ℤ × Display B)
  gr_init f percent first second d = do
    (_, d) ← gr_init_real f percent first d
    (_, d) ← gr_init_real f percent second d
    some (pos 0, d)

-- A backend must be there.
pub gr_exit : {B : Type 0} → Display B → Option (Display B)
gr_exit d = elim d.backend [ none ↦ none | some k ↦ some (record d { exited = k ∷ d.exited }) ]

-- gr_fb_blank: the backend whose function is called, and with what.
pub gr_fb_blank : {B : Type 0} → (blank : Bool) → Display B → Option (Kind × Bool)
gr_fb_blank blank d = elim d.backend [ none ↦ none | some k ↦ some (k, blank) ]
