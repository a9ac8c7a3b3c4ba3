-- ===== src/Minui/Commands/Picture.antt =====
-- The picture that calls of the drawing functions of recovery/graphics.cpp in a row leave on the
-- surface.
use android_device_samsung_c.Base.{
  All, ℕ, ◌+◌, ◌*◌, ◌<◌, ◌≡◌, refl, sym, subst, ◌∙◌, ap, Bool, true, false, ◌&&◌, not, Option, none,
  some, List, [], ◌∷◌, ◌==◌, if◌then◌else◌, ℤ, pos, ◌+ℤ◌, ◌-ℤ◌, arith,
}
use android_device_samsung_c.Memory.{Mem}
use android_device_samsung_c.Minui.{
  Gr, GrSurface, with_bytes, gr_color, glyph_src, text_alpha, gr_texticon, gr_blit,
}
use android_device_samsung_c.Minui.Draws.{Draws}
use android_device_samsung_c.Minui.Fill.{contains, gr_fill-Draws}
use android_device_samsung_c.Minui.Text.{text_drawn, gr_text-Draws, gr_texticon-Draws}
use android_device_samsung_c.Minui.Mask.{masked}
use android_device_samsung_c.Minui.Clear.{gr_clear-Draws}
use android_device_samsung_c.Minui.Blit.{gr_blit-Draws}
use android_device_samsung_c.Minui.Commands.Drawable.{
  IsDrawable, with_bytes-IsDrawable, coloured-IsDrawable, coloured-draw, coloured_all-IsDrawable,
  coloured_all-draw,
}
use android_device_samsung_c.Minui.Commands.{
  Command, color, clear, fill, text, icon, blit, perform, perform_all, IsFit, coloured, effect,
  picture, coloured_all,
}

-- From the state g, with the bytes m, the result r is g' with bytes that f makes of m.
pub record Shows (g : Gr) (m : Mem) (g' : Gr) (f : ℕ → ℕ → ℕ → ℕ) (r : Option Gr) : Type 0 where
  pub final : Mem
  pub returns : r ≡ some (with_bytes g' final)
  pub size : final.size ≡ m.size
  pub at :
      (y c : ℕ)
      → y < g.draw.height
      → c < g.draw.row_bytes
      → final.byte (y * g.draw.row_bytes + c) ≡ f y c (m.byte (y * g.draw.row_bytes + c))

-- The same, with the sizes of the surface by other names.
at_sizes :
    {g g' : Gr} {m : Mem} {f : ℕ → ℕ → ℕ → ℕ} {r : Option Gr} {height row_bytes : ℕ}
    (s : Shows g m g' f r)
    → g.draw.height ≡ height
    → g.draw.row_bytes ≡ row_bytes
    → (y c : ℕ) → y < height
    → c < row_bytes
    → s.final.byte (y * row_bytes + c) ≡ f y c (m.byte (y * row_bytes + c))
at_sizes {m = m} {f = f} s eh er y c hy hc =
    subst (λ rb. c < rb → s.final.byte (y * rb + c) ≡ f y c (m.byte (y * rb + c))) er
      (s.at y c (omega (arith, eh))) hc

shown :
    (g : Gr) (m : Mem) (f f' : ℕ → ℕ → ℕ → ℕ) (r : Option Gr)
    → ((y c old : ℕ) → f y c old ≡ f' y c old)
    → Draws (with_bytes g m) f r
    → Shows g m g f' r
shown g m f f' r same d = record {
  final = d.final;
  returns = d.returns;
  size = d.size;
  at = λ y c hy hc. d.at y c hy hc ∙ same y c _;
}

-- What is drawn does not depend on the bytes of the surface.
text_drawn_bytes :
    (g : Gr) (m : Mem) (tex : GrSurface) (bold : Bool) (x y : ℤ) (s : List ℕ) (row c old : ℕ)
    → text_drawn (with_bytes g m) tex bold x y s row c old ≡ text_drawn g tex bold x y s row c old
unfolding text_drawn text_alpha glyph_src
text_drawn_bytes g m tex bold x y [] row c old = refl
text_drawn_bytes g m tex bold x y (ch ∷ s) row c old =
    let w = g.font.cwidth in
    let h = g.font.cheight in
    let new = masked g tex.bytes (glyph_src g tex bold ch) tex.row_bytes x y w h row c old in
    ap
      (λ (v : ℕ).
        if contains g x y && contains g (x +ℤ pos w -ℤ pos 1) (y +ℤ pos h -ℤ pos 1) then v else old)
      (text_drawn_bytes g m tex bold (x +ℤ pos w) y s row c new)

-- Nothing is drawn.
kept : (g : Gr) (m : Mem) → Shows g m g (λ y c old. old) (some (with_bytes g m))
kept g m = record { final = m; returns = refl; size = refl; at = λ y c hy hc. refl }

colour_set :
    (bgr : Bool) (g : Gr) (m : Mem) (r gr b a : ℕ)
    → Shows g m
        (coloured bgr (color r gr b a) g)
        (λ y c old. old)
        (some (gr_color bgr (with_bytes g m) r gr b a))
unfolding gr_color coloured
colour_set true g m r gr b a = record {
  final = m;
  returns = refl;
  size = refl;
  at = λ y c hy hc. refl;
}
colour_set false g m r gr b a = record {
  final = m;
  returns = refl;
  size = refl;
  at = λ y c hy hc. refl;
}

module _ (bgr : Bool) (tex : GrSurface) where
  perform-Shows :
      (d : Command) (g : Gr) (m : Mem)
      → IsDrawable tex (with_bytes g m)
      → IsFit d
      → Shows g m (coloured bgr d g) (effect tex d g) (perform bgr d (with_bytes g m))
  unfolding perform coloured effect text_alpha gr_texticon gr_blit
  perform-Shows (color r g b a) gr m v fit = colour_set bgr gr m r g b a
  perform-Shows clear gr m v fit =
      shown gr m _ _ _ (λ y c old. refl) (gr_clear-Draws (with_bytes gr m) v.valid)
  perform-Shows (fill x1 y1 x2 y2) gr m v fit =
      shown gr m _ _ _ (λ y c old. refl) (gr_fill-Draws (with_bytes gr m) x1 y1 x2 y2 v.valid)
  perform-Shows (text x y s bold) gr m v fit =
      shown gr m _ _ _
        (λ row c old.
          ap (λ (v : ℕ). if gr.current_a == 0 then old else v)
            (text_drawn_bytes gr m tex (bold && not (tex.height == gr.font.cheight))
              (x +ℤ pos gr.overscan_offset_x) (y +ℤ pos gr.overscan_offset_y) s row c old))
        (gr_text-Draws (with_bytes gr m) tex x y s bold v.valid v.texture v.font)
  perform-Shows (icon x y none) gr m v fit = kept gr m
  perform-Shows (icon x y (some mask)) gr m v fit =
      shown gr m _ _ _ (λ y c old. refl) (gr_texticon-Draws (with_bytes gr m) mask x y v.valid fit)
  perform-Shows (blit none sx sy w h dx dy) gr m v fit = kept gr m
  perform-Shows (blit (some source) sx sy w h dx dy) gr m v fit =
      shown gr m _ _ _ (λ y c old. refl)
        (gr_blit-Draws (with_bytes gr m) source sx sy w h dx dy v.valid fit.0 fit.1 fit.2)

  -- On a surface of these sizes.
  calls_shown :
      (height row_bytes : ℕ) (commands : List Command) (g : Gr) (m : Mem)
      → g.draw.height ≡ height
      → g.draw.row_bytes ≡ row_bytes
      → m.size ≡ g.draw.bytes.size
      → IsDrawable tex g
      → All IsFit commands
      → (m' : Mem) × (perform_all bgr commands (with_bytes g m)
          ≡ some (with_bytes (coloured_all bgr commands g) m'))
        × (m'.size ≡ m.size)
        × ((y c : ℕ)
            → y < height
            → c < row_bytes
            → m'.byte (y * row_bytes + c)
              ≡ picture bgr tex commands g y c (m.byte (y * row_bytes + c)))
  unfolding perform_all picture coloured_all
  calls_shown height row_bytes [] g m eh er em v fit = (m, refl, refl, λ y c hy hc. refl)
  calls_shown height row_bytes (d ∷ commands) g m eh er em v fit =
      let first = perform-Shows d g m (with_bytes-IsDrawable tex g m em v) fit.0 in
      let g1 = coloured bgr d g in
      let e1 = coloured-draw bgr tex d g in
      let (m', e, size, at) =
        calls_shown height row_bytes commands g1 first.final (ap (λ s. s.height) e1 ∙ eh)
          (ap (λ s. s.row_bytes) e1 ∙ er) (first.size ∙ em ∙ sym (ap (λ s. s.bytes.size) e1))
          (coloured-IsDrawable bgr tex d g fit.0 v) fit.1 in
      (
        m',
        rw first.returns e,
        size ∙ first.size,
        λ y c hy hc.
            at y c hy hc ∙ ap (picture bgr tex commands g1 y c) (at_sizes first eh er y c hy hc),
      )

  -- From a valid state, with a font whose glyphs lie in its texture, calls of the drawing functions
  -- with fit arguments, as many as there may be and in any order, never access memory outside a
  -- surface or the texture. They leave the picture that `picture` says of each byte of each row, by
  -- the commands, the sizes and the colour alone, and the last colour; nothing else of the state
  -- changes, and it is valid again.
  pub perform_all-Shows :
      (commands : List Command) (g : Gr)
      → IsDrawable tex g
      → All IsFit commands
      → (shows : Shows g g.draw.bytes
          (coloured_all bgr commands g)
          (picture bgr tex commands g)
          (perform_all bgr commands g))
        × IsDrawable tex (with_bytes (coloured_all bgr commands g) shows.final)
        × ((coloured_all bgr commands g).draw ≡ g.draw)
  perform_all-Shows commands g v fit =
      let (m, e, size, at) =
        calls_shown g.draw.height g.draw.row_bytes commands g g.draw.bytes refl refl refl v fit in
      let same = coloured_all-draw bgr tex commands g in
      (
        record { final = m; returns = e; size = size; at = at },
        with_bytes-IsDrawable tex (coloured_all bgr commands g) m
            (size ∙ sym (ap (λ s. s.bytes.size) same))
            (coloured_all-IsDrawable bgr tex commands g v fit),
        same,
      )
