-- ===== src/Twrp/Shapes.antt =====
-- Colours, clipping, rectangles, lines, blits and scaled text of recovery/twrp-graphics.c, as calls of
-- pixelflinger. gr_textEx_scaleW is for TrueType fonts only: what it calls is the record Scaling.
pub mod Placement
use android_device_samsung_c.Base.{
  ℕ, zero, suc, ◌+◌, ◌-◌, ◌*◌, ◌/◌, ◌%◌, ◌^◌, List, [], ◌∷◌, ◌++◌, Bool, true, false, not, ◌||◌,
  Option, none, some, ltb, leb, ◌==◌, if◌then◌else◌, length, ℤ, pos, negsuc, pos_part, neg_part,
  ◌+ℤ◌, ◌-ℤ◌, ltb_ℤ,
}
use android_device_samsung_c.Word.{◌+32◌, ◌-32◌, ◌*32◌}
use android_device_samsung_c.Pixelflinger.{
  Call, color4xv, scissor, enable_scissor, disable_scissor, disable_texture, recti, linex,
  bind_surface, one_to_one, tex_coord2i, Texture,
}

-- color[i] = ((c << 8) | c) + 1, for a byte c, whose two copies do not overlap
pub gr_color : (r g b a : ℕ) → List Call
gr_color r g b a =
    color4xv (r * 256 + r + 1) (g * 256 + g + 1) (b * 256 + b + 1) (a * 256 + a + 1) ∷ []

pub gr_clip : (x y w h : ℕ) → List Call
gr_clip x y w h = scissor x y w h ∷ enable_scissor ∷ []

-- `fb_width` and `fb_height` are what gr_fb_width and gr_fb_height return.
pub gr_noclip : (fb_width fb_height : ℕ) → List Call
gr_noclip fb_width fb_height = scissor 0 0 fb_width fb_height ∷ disable_scissor ∷ []

pub gr_fill : (x y w h : ℕ) → List Call
gr_fill x y w h = disable_texture ∷ recti x y (x +32 w) (y +32 h) ∷ []

-- A shift by four places.
pub gr_line : (x0 y0 x1 y1 width : ℕ) → List Call
gr_line x0 y0 x1 y1 width =
    linex (x0 *32 16) (y0 *32 16) (x1 *32 16) (y1 *32 16) (width *32 16) ∷ []

-- `context` is whether gr_context is set.
pub gr_blit : (context : Bool) → (source sx sy w h dx dy : ℕ) → List Call
gr_blit context source sx sy w h dx dy =
    if context
    then (bind_surface source ∷ one_to_one)
      ++ (tex_coord2i (sx -32 dx) (sy -32 dy) ∷ recti dx dy (dx +32 w) (dy +32 h) ∷ [])
    else []

pub gr_get_width : (surface : Option Texture) → ℕ
gr_get_width none = 0
gr_get_width (some s) = s.width

pub gr_get_height : (surface : Option Texture) → ℕ
gr_get_height none = 0
gr_get_height (some s) = s.height

-- The values of `placement`, of gui/placement.h.
pub data Place : Type 0 where
  top_left top_right bottom_left bottom_right center center_x_only text_only_right : Place

-- gr_ttf_getMaxFontHeight, gr_ttf_measureEx and gr_ttf_scaleFont of a font of type F. Widths and
-- heights are natural numbers.
pub record Scaling {ℓ} (F : Type ℓ) : Type ℓ where
  pub max_height : F → ℕ
  pub measure : List ℕ → F → ℕ
  pub scale_font : F → (max_width measured_width : ℕ) → Option F

-- The arguments of the final call of gr_ttf_textExWH.
pub record TextCall {ℓ} (F : Type ℓ) : Type ℓ where
  pub x : ℤ
  pub y : ℤ
  pub text : List ℕ
  pub font : F
  pub max_width : ℤ
  pub max_height : ℤ

-- C's division of an `int` by two.
abbrev pub half : ℤ → ℤ
half (pos n) = pos (n / 2)
half (negsuc n) = pos 0 -ℤ pos (suc n / 2)

-- What x is moved to the left by.
unfoldable pub shift_x : Place → (x_adj : ℕ) → ℕ
shift_x top_left x_adj = 0
shift_x bottom_left x_adj = 0
shift_x text_only_right x_adj = 0
shift_x center x_adj = x_adj / 2
shift_x center_x_only x_adj = x_adj / 2
shift_x top_right x_adj = x_adj
shift_x bottom_right x_adj = x_adj

-- What y is moved up by.
unfoldable pub shift_y : Place → (measured_height : ℕ) → ℕ
shift_y top_left h = 0
shift_y top_right h = 0
shift_y center h = h / 2
shift_y text_only_right h = h / 2
shift_y bottom_left h = h
shift_y bottom_right h = h
shift_y center_x_only h = 0

module _ {ℓ} {F : Type ℓ} (t : Scaling F) where
  -- The font, its measured width, and y_scale; `none` where the font cannot be scaled.
  unfoldable pub fit : List ℕ → F → (max_width : ℕ) → (scale : Bool) → Option (F × ℕ × ℤ)
  fit s font max_width scale =
      if scale
      then (if ltb max_width (t.measure s font)
          then elim (t.scale_font font max_width (t.measure s font)) [
            | none ↦ none
            | some new_font ↦ some (
              new_font,
              t.measure s new_font,
              half (pos (t.max_height font) -ℤ pos (t.max_height new_font)),
            )
          ]
          else some (font, t.measure s font, pos 0))
      else some (font, t.measure s font, pos 0)

  -- `none` is the result 0 without a call; a string that is null is `none`.
  unfoldable pub gr_text_ex_scale_w :
      (x y : ℤ) (s : Option (List ℕ)) (font : Option F) (max_width : ℕ) (placement : Place)
      (scale : Bool)
      → Option (TextCall F)
  unfolding fit shift_x shift_y
  gr_text_ex_scale_w x y none font max_width placement scale = none
  gr_text_ex_scale_w x y (some s) none max_width placement scale = none
  gr_text_ex_scale_w x y (some []) (some font) max_width placement scale = none
  gr_text_ex_scale_w x y (some (ch ∷ s)) (some font) max_width placement scale =
      elim (fit (ch ∷ s) font max_width scale) [
        | none ↦ none
        | some (vfont, measured_width, y_scale) ↦
            let x_adj = if ltb max_width measured_width then max_width else measured_width in
            let x' = x -ℤ pos (shift_x placement x_adj) in
            some (record {
              x = x';
              y = y -ℤ pos (shift_y placement (t.max_height font)) +ℤ y_scale;
              text = ch ∷ s;
              font = vfont;
              max_width = pos measured_width +ℤ x';
              max_height = negsuc 0;
            })
      ]
