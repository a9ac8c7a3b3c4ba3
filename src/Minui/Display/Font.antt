-- ===== src/Minui/Display/Font.antt =====
-- The font that gr_init_font leaves satisfies what gr_text needs.
use android_device_samsung_c.Base.{
  ℕ, ◌+◌, ◌*◌, ◌/◌, ◌≤◌, ◌<◌, ◌≡◌, refl, ◌⊎◌, inl, inr, Option, none, some, true, arith, subst,
  Option-cases, length, get_or,
}
use android_device_samsung_c.Memory.Painted.{Painted}
use android_device_samsung_c.Rle.Decode.{expand, ends, rle_loop-Painted}
use android_device_samsung_c.Minui.{GrSurface, GrFont}
use android_device_samsung_c.Minui.Text.{IsFont, IsMask}
use android_device_samsung_c.Minui.Display.{CompiledFont, Probe, compiled_font, gr_init_font}

-- A compiled-in font whose code ends and fits the bitmap of its 96 columns and one or two rows of
-- glyphs.
pub record IsCompiledFont (f : CompiledFont) : Type 0 where
  pub ending : ends f.rundata ≡ true
  pub room : length (expand f.rundata) ≤ f.width * f.height
  pub columns : 96 * f.cwidth ≤ f.width
  pub one_or_two : (f.height ≡ f.cheight) ⊎ (2 * f.cheight ≤ f.height)

-- A surface of the resource loader, if there is one, is a mask.
abbrev pub IsResource : Option GrSurface → Type 0
IsResource none = Unit {0}
IsResource (some s) = IsMask s

-- A cell of the font image is as wide and as high as 96 columns and two rows leave room for.
pub record IsImageFont (res : GrSurface) (font : GrFont) : Type 0 where
  pub texture : font.texture ≡ some res
  pub cwidth : (96 * font.cwidth ≤ res.width) × (res.width < 96 * (font.cwidth + 1))
  pub cheight : (2 * font.cheight ≤ res.height) × (res.height < 2 * (font.cheight + 1))

-- The compiled-in font, in a texture `tex` of its own: the bytes are those that its code stands for,
-- and behind them what malloc returned.
pub record IsCompiledIn (f : CompiledFont) (bits : ℕ → ℕ) (font : GrFont) (tex : GrSurface)
    : Type 0 where
  pub texture : font.texture ≡ some tex
  pub cwidth : font.cwidth ≡ f.cwidth
  pub cheight : font.cheight ≡ f.cheight
  pub width : tex.width ≡ f.width
  pub height : tex.height ≡ f.height
  pub row_bytes : tex.row_bytes ≡ f.width
  pub pixel_bytes : tex.pixel_bytes ≡ 1
  pub decoded :
      Painted
        (length (expand f.rundata))
        (λ t old. get_or (expand f.rundata) t old)
        0
        (record { size = f.width * f.height; byte = bits })
        tex.bytes

-- The resource, if there is one, or else the compiled-in font.
abbrev pub IsChosen : {B : Type 0} → CompiledFont → Probe B → GrFont → GrSurface → Type 0
IsChosen f p font tex = elim p.font [
  | some res ↦ (tex ≡ res) × IsImageFont res font
  | none ↦ IsCompiledIn f p.bits font tex
]

resource-IsFont :
    (tex : GrSurface)
    → IsMask tex
    → IsFont (record { texture = some tex; cwidth = tex.width / 96; cheight = tex.height / 2 }) tex
resource-IsFont tex m = record {
  columns = omega (arith, m.row);
  one_or_two = inr (omega arith);
  block = m.block;
}

-- With a compiled-in font that is well formed, and a resource surface that is a mask or is missing,
-- gr_init_font returns without a fault. If there is a resource, its surface is the texture, and the
-- cells are as large as 96 columns and two rows of them leave room for; else the texture has the
-- size of the compiled-in font and the bytes that its code stands for, and the cells are those that
-- the compiled-in font says. In both cases the glyphs lie in the texture, as gr_text needs.
pub gr_init_font-IsFont :
    {B : Type 0} (f : CompiledFont) (p : Probe B)
    → IsCompiledFont f
    → IsResource p.font
    → (font : GrFont) × (tex : GrSurface) × (gr_init_font f p ≡ some font)
      × (font.texture ≡ some tex)
      × IsFont font tex
      × IsChosen f p font tex
unfolding gr_init_font compiled_font
gr_init_font-IsFont f p c r = elim (Option-cases p.font) [
  | inr (tex, e) ↦ (
    record { texture = some tex; cwidth = tex.width / 96; cheight = tex.height / 2 },
    tex,
    rw e,
    refl,
    resource-IsFont tex (subst IsResource e r),
    rw e (refl, record { texture = refl; cwidth = omega arith; cheight = omega arith }),
  )
  | inl e ↦
      let (m, returns, painted) =
        rle_loop-Painted f.rundata 0 (record { size = f.width * f.height; byte = p.bits }) c.ending
          (omega (arith, c.room)) in
      let tex : GrSurface = record {
        width = f.width;
        height = f.height;
        row_bytes = f.width;
        pixel_bytes = 1;
        bytes = m;
      } in
      (
        record { texture = some tex; cwidth = f.cwidth; cheight = f.cheight },
        tex,
        rw (e, returns),
        refl,
        record {
          columns = c.columns;
          one_or_two = c.one_or_two;
          block = omega (arith, painted.size);
        },
        rw e (record {
          texture = refl;
          cwidth = refl;
          cheight = refl;
          width = refl;
          height = refl;
          row_bytes = refl;
          pixel_bytes = refl;
          decoded = painted;
        }),
      )
]
