-- ===== src/Minui/Session/Running.antt =====
-- A frame, and any number of them, on a backend whose objects are sound.
use android_device_samsung_c.Base.{All, ◌≡◌, refl, ap, Bool, some, List, [], ◌∷◌, arith}
use android_device_samsung_c.Minui.{GrFont, GrSurface, with_bytes}
use android_device_samsung_c.Minui.Drawing.{IsSurface}
use android_device_samsung_c.Minui.Display.{Kind, Flip, Display, gr_flip}
use android_device_samsung_c.Minui.Commands.{Command, IsFit, coloured_all}
use android_device_samsung_c.Minui.Commands.Drawable.{IsDrawable}
use android_device_samsung_c.Minui.Commands.Picture.{perform_all-Shows}
use android_device_samsung_c.Minui.Session.{Renderer, gr_with, gr_of, drawn, frame, frames}

-- A backend, whose objects are sound where `IsSound` says so: from sound objects and a surface that
-- can be drawn on, it hands out another such surface and leaves sound objects.
pub record IsBackend {B : Type 0} (flip : Flip B) (k : Kind) (IsSound : B → Type 0) : Type 0 where
  pub flips :
      (b : B) (s : GrSurface)
      → IsSound b
      → IsSurface s
      → (s' : GrSurface) × (b' : B) × (flip k b (some s) ≡ (some s', b'))
        × IsSurface s'
        × IsSound b'

-- The backend k with sound objects, the font and a surface are there, and can be drawn with.
pub record IsRunning {B : Type 0} (k : Kind) (IsSound : B → Type 0) (font : GrFont)
    (tex : GrSurface) (r : Renderer B) : Type 0 where
  pub surface : GrSurface
  pub has_font : r.display.font ≡ some font
  pub has_draw : r.display.draw ≡ some surface
  pub has_backend : r.display.backend ≡ some k
  pub sound : IsSound r.display.backends
  pub drawable : IsDrawable tex (gr_with r font surface)

pub gr_of-gr_with :
    {B : Type 0} (font : GrFont) (surface : GrSurface) (r : Renderer B)
    → r.display.font ≡ some font
    → r.display.draw ≡ some surface
    → gr_of r ≡ some (gr_with r font surface)
unfolding gr_of
gr_of-gr_with font surface r has_font has_draw = rw (has_font, has_draw) refl

flipped :
    {B : Type 0} (flip : Flip B) (k : Kind) (d : Display B) (s : GrSurface) (b : B)
    → d.backend ≡ some k
    → flip k d.backends d.draw ≡ (some s, b)
    → gr_flip flip d ≡ some (record d { draw = some s; backends = b })
unfolding gr_flip
flipped flip k d s b e f =
    rw (e, gr_flip, f) (ap (λ k. some (record d { backend = k; draw = some s; backends = b })) e)

module _ {B : Type 0} (flip : Flip B) (bgr : Bool) (k : Kind) (IsSound : B → Type 0) (font : GrFont)
    (tex : GrSurface) (backend : IsBackend flip k IsSound) where
  -- The picture that a frame's commands draw goes to the backend's flip, and what that hands out is
  -- drawn on next.
  abbrev pub IsShown : Renderer B → GrSurface → Renderer B → Type 0
  IsShown r shown r' =
      flip k r.display.backends (some shown) ≡ (r'.display.draw, r'.display.backends)

  pub frame-IsRunning :
      (commands : List Command) (r : Renderer B)
      → (h : IsRunning k IsSound font tex r) → (fit : All IsFit commands)
      → let g = gr_with r font h.surface in
        let (shows, v, _) = perform_all-Shows bgr tex commands g h.drawable fit in
        (r' : Renderer B) × (frame flip bgr commands r ≡ some r')
        × IsRunning k IsSound font tex r'
        × IsShown r (with_bytes (coloured_all bgr commands g) shows.final).draw r'
  unfolding frame
  frame-IsRunning commands r h fit =
      let g = gr_with r font h.surface in
      let (shows, v, _) = perform_all-Shows bgr tex commands g h.drawable fit in
      let g1 = with_bytes (coloured_all bgr commands g) shows.final in
      let (s, b, e, vs, sound) = backend.flips r.display.backends g1.draw h.sound v.valid.surface in
      let r1 = drawn r g1 in
      (
        record r1 { display = record (r1.display) { draw = some s; backends = b } },
        rw
            (
              gr_of-gr_with font h.surface r h.has_font h.has_draw,
              shows.returns,
              flipped flip k r1.display s b h.has_backend e,
            )
            refl,
        record {
          surface = s;
          has_font = h.has_font;
          has_draw = refl;
          has_backend = h.has_backend;
          sound = sound;
          drawable = record {
            valid = omega (arith, v.valid, vs);
            texture = h.drawable.texture;
            font = h.drawable.font;
          };
        },
        e,
      )

  pub frames-IsRunning :
      (rest : List (List Command)) (r : Renderer B)
      → IsRunning k IsSound font tex r
      → All (All IsFit) rest
      → (r' : Renderer B) × (frames flip bgr rest r ≡ some r') × IsRunning k IsSound font tex r'
  unfolding frames
  frames-IsRunning [] r h fit = (r, refl, h)
  frames-IsRunning (commands ∷ rest) r h fit =
      let (r1, e1, h1, _) = frame-IsRunning commands r h fit.0 in
      let (r', e, h') = frames-IsRunning rest r1 h1 fit.1 in (r', rw e1 e, h')
