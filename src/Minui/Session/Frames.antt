-- ===== src/Minui/Session/Frames.antt =====
-- Frame upon frame: no call of a session faults, and each frame is the picture of its commands.
use android_device_samsung_c.Base.{
  All, ℕ, ◌<◌, ◌≡◌, ap, sym, ◌∙◌, Bool, Option, some, List, pos, subst, arith,
}
use android_device_samsung_c.Minui.{Gr, GrFont, GrSurface}
use android_device_samsung_c.Minui.Drawing.{IsSurface}
use android_device_samsung_c.Minui.Display.{
  Kind, Flip, Display, CompiledFont, Probe, gr_init_font, gr_init,
}
use android_device_samsung_c.Minui.Display.Font.{
  IsCompiledFont, IsResource, IsChosen, gr_init_font-IsFont,
}
use android_device_samsung_c.Minui.Display.Init.{Opened, first_of_three, Found, gr_init-Found}
use android_device_samsung_c.Minui.Commands.{Command, perform_all, IsFit, picture, coloured_all}
use android_device_samsung_c.Minui.Commands.Picture.{Shows, perform_all-Shows}
use android_device_samsung_c.Minui.Session.{Colour, Renderer, gr_with, gr_of, frame, frames}
use android_device_samsung_c.Minui.Session.Running.{
  IsBackend, IsRunning, gr_of-gr_with, frame-IsRunning, frames-IsRunning,
}

pub record IsColour (c : Colour) : Type 0 where
  pub red : c.r < 256
  pub green : c.g < 256
  pub blue : c.b < 256
  pub alpha : c.a < 256

-- The backends could be allocated, and the surfaces of their init calls.
pub record IsOpened {B : Type 0} (p : Probe B) : Type 0 where
  pub a : Option GrSurface
  pub d : Option GrSurface
  pub b : Option GrSurface
  pub opened : Opened p a d b

-- What gr_init is given in its two rounds: a compiled-in font that is well formed, resources that
-- are masks or missing, and backends of which the second round finds the surface s of k, with sound
-- objects.
pub record IsStart {B : Type 0} (IsSound : B → Type 0) (f : CompiledFont) (p q : Probe B) (k : Kind)
    (s : GrSurface) : Type 0 where
  pub compiled : IsCompiledFont f
  pub resource : IsResource p.font
  pub resource' : IsResource q.font
  pub opened : IsOpened p
  pub opened' : IsOpened q
  pub first : first_of_three opened'.a opened'.d opened'.b ≡ some (k, s)
  pub surface : IsSurface s
  pub sound : IsSound q.backends

module _ {B : Type 0} (flip : Flip B) (bgr : Bool) (IsSound : B → Type 0) (f : CompiledFont)
    (percent : ℕ) (p q : Probe B) (k : Kind) (s : GrSurface) (backend : IsBackend flip k IsSound)
    (start : IsStart IsSound f p q k s) where
  init-IsRunning :
      (d : Display B) (c : Colour)
      → IsColour c
      → (font : GrFont) × (tex : GrSurface) × (d1 : Display B) × (gr_init_font f q ≡ some font)
        × IsChosen f q font tex
        × (gr_init flip f percent p q d ≡ some (pos 0, d1))
        × IsRunning k IsSound font tex (record { display = d1; current = c })
  init-IsRunning d c bytes =
      let (font, _, ef, _, _, _) = gr_init_font-IsFont f p start.compiled start.resource in
      let (font', tex, ef', texture, is_font, chosen) =
        gr_init_font-IsFont f q start.compiled start.resource' in
      let o = start.opened in
      let o' = start.opened' in
      let (ret, d1, e, found') =
        gr_init-Found flip f percent p q d font font' o.a o.d o.b o'.a o'.d o'.b ef o.opened ef'
          o'.opened in
      let found = subst (λ r. Found flip f percent q.backends font' r d1 ret) start.first found' in
      let (s1, b1, e1, v1, sound1) = backend.flips q.backends s start.sound start.surface in
      let (s2, b2, e2, v2, sound2) = backend.flips b1 s1 sound1 v1 in
      let twice = ap (λ r. flip k r.1 r.0) e1 ∙ e2 in
      (
        font',
        tex,
        d1,
        ef',
        chosen,
        e,
        record {
          surface = s2;
          has_font = found.1;
          has_draw = found.3 ∙ ap (λ r. r.0) twice;
          has_backend = found.2;
          sound = subst IsSound (sym (found.4 ∙ ap (λ r. r.1) twice)) sound2;
          drawable = record { valid = omega (arith, v2, bytes); texture = texture; font = is_font };
        },
      )

  -- With a well-formed compiled-in font, resources that are masks or missing, and backends that can
  -- be allocated in both rounds, of which the second finds k with a surface that can be drawn on and
  -- sound objects, whose flip hands out such surfaces and keeps its objects sound, and with a current
  -- colour of bytes: gr_init returns 0, with the font of its second round, and the session can go on
  -- for any number of frames, each of them any calls of the drawing functions with fit arguments and
  -- gr_flip: none of them faults. Behind all of them, the calls of one more frame draw the picture
  -- that `picture` says onto the surface that the backend handed out; gr_flip hands the surface with
  -- this picture, and nothing else of it changed, to the flip of the backend, and what that hands out
  -- and leaves in the backend's objects is what comes next.
  pub frames_drawn :
      (d : Display B) (c : Colour)
      → IsColour c
      → (before : List (List Command)) → All (All IsFit) before
      → (commands : List Command) → All IsFit commands
      → (d1 : Display B) × (r r' : Renderer B) × (g : Gr) × (tex : GrSurface) × (gr_init flip f
            percent p q d
          ≡ some (pos 0, d1))
        × (frames flip bgr before (record { display = d1; current = c }) ≡ some r)
        × (gr_of r ≡ some g)
        × (gr_init_font f q ≡ some g.font)
        × IsChosen f q g.font tex
        × (shows : Shows g g.draw.bytes
            (coloured_all bgr commands g)
            (picture bgr tex commands g)
            (perform_all bgr commands g))
        × (frame flip bgr commands r ≡ some r')
        × (flip k r.display.backends (some (record g.draw { bytes = shows.final }))
            ≡ (r'.display.draw, r'.display.backends))
  frames_drawn d c bytes before fit commands fit' =
      let (font, tex, d1, ef, chosen, e, h) = init-IsRunning d c bytes in
      let (r, er, hr) =
        frames-IsRunning flip bgr k IsSound font tex backend before
          (record { display = d1; current = c }) h fit in
      let g = gr_with r font hr.surface in
      let (shows, _, same) = perform_all-Shows bgr tex commands g hr.drawable fit' in
      let (r', e', _, shown) =
        frame-IsRunning flip bgr k IsSound font tex backend commands r hr fit' in
      (
        d1,
        r,
        r',
        g,
        tex,
        e,
        er,
        gr_of-gr_with font hr.surface r hr.has_font hr.has_draw,
        ef,
        chosen,
        shows,
        e',
        ap (λ (s : GrSurface). flip k r.display.backends (some (record s { bytes = shows.final })))
              (sym same)
            ∙ shown,
      )
