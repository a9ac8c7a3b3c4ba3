-- ===== src/Minui/Text.antt =====
-- Text of recovery/graphics.cpp: gr_texticon and gr_text.
use android_device_samsung_c.Base.{
  ℕ, ◌+◌, ◌-◌, ◌*◌, ◌≤◌, ◌<◌, ◌≡◌, refl, ◌∙◌, inl, inr, ◌⊎◌, Bool, true, false, ◌&&◌, ◌||◌, not,
  some, List, [], ◌∷◌, Bool-cases, bind_some, ltb, ◌==◌, if◌then◌else◌, ◌>>=◌, arith, ℤ, pos, ◌+ℤ◌,
  ◌-ℤ◌,
}
use android_device_samsung_c.Memory.{Mem}
use android_device_samsung_c.Minui.{
  Gr, GrSurface, GrFont, with_bytes, outside, pixel_at, text_alpha, text_blend, glyph_src,
  text_loop, gr_text, texticon_at, gr_texticon,
}
use android_device_samsung_c.Minui.Mask.{MaskFits, masked, text_blend-Draws}
use android_device_samsung_c.Minui.Drawing.{IsValid}
use android_device_samsung_c.Minui.Draws.{Draws, Draws-same, Draws-eq, Draws-ext, Draws-then}
use android_device_samsung_c.Minui.Fill.{contains, contains-corners}

-- A mask whose rows lie in its block.
pub record IsMask (s : GrSurface) : Type 0 where
  pub row : s.width ≤ s.row_bytes
  pub block : s.height * s.row_bytes ≤ s.bytes.size

rows_fit : (j h rb size : ℕ) → j < h → h * rb ≤ size → j * rb + rb ≤ size
rows_fit j h rb size hj hs = grind arith

-- An icon at (x, y), the overscan offsets added, is drawn as a mask if it has one byte per pixel
-- and its first and last pixel lie on the surface; else nothing is drawn.
abbrev pub icon_drawn : Gr → GrSurface → (x y : ℤ) → (row c old : ℕ) → ℕ
icon_drawn g icon x y row c old =
    if (icon.pixel_bytes == 1)
      && (contains g x y
          && contains g (x +ℤ pos icon.width -ℤ pos 1) (y +ℤ pos icon.height -ℤ pos 1))
    then masked g icon.bytes 0 icon.row_bytes x y icon.width icon.height row c old
    else old

texticon_at-Draws :
    (g : Gr) (icon : GrSurface) (x y : ℤ)
    → IsValid g
    → IsMask icon
    → Draws g (icon_drawn g icon x y) (texticon_at g icon x y)
unfolding texticon_at
texticon_at-Draws g icon x y v mask = elim (Bool-cases (icon.pixel_bytes == 1)) [
  | inr wrong ↦ Draws-eq (Draws-same g _ (λ row c old. rw wrong)) (rw wrong)
  | inl right ↦
      let out =
        outside g x y || outside g (x +ℤ pos icon.width -ℤ pos 1) (y +ℤ pos icon.height -ℤ pos 1) in
      elim (Bool-cases out) [
        | inl off ↦
            let no = contains-corners g x y (x +ℤ pos icon.width) (y +ℤ pos icon.height) true off in
            Draws-eq (Draws-same g _ (λ row c old. rw (right, no))) (rw (right, off))
        | inr on ↦
            let yes_ =
              contains-corners g x y (x +ℤ pos icon.width) (y +ℤ pos icon.height) false on in
            Draws-eq
              (Draws-ext
                (text_blend-Draws g v icon.bytes 0 icon.row_bytes x y icon.width icon.height
                  (λ j hj. omega (
                    arith,
                    mask.row,
                    rows_fit j icon.height icon.row_bytes icon.bytes.size hj mask.block,
                  ))
                  on)
                (λ row c old. rw (right, yes_)))
              (rw (right, on))
      ]
]

-- What gr_text draws, as a function of one byte of the surface: each byte of the string draws its glyph
-- as a mask in the next cell, until the string ends or a cell does not lie on the surface.
unfoldable pub text_drawn :
    Gr → GrSurface → (bold : Bool) → (x y : ℤ) → List ℕ → (row c old : ℕ) → ℕ
text_drawn g tex bold x y [] row c old = old
text_drawn g tex bold x y (ch ∷ s) row c old =
    if contains g x y
      && contains g (x +ℤ pos g.font.cwidth -ℤ pos 1) (y +ℤ pos g.font.cheight -ℤ pos 1)
    then text_drawn g tex bold (x +ℤ pos g.font.cwidth) y s row c (
        masked g tex.bytes (glyph_src g tex bold ch) tex.row_bytes x y g.font.cwidth g.font.cheight
          row c old)
    else old

-- A font of 96 columns of glyphs in one row, or in two, the lower one bold.
pub record IsFont (f : GrFont) (tex : GrSurface) : Type 0 where
  pub columns : 96 * f.cwidth ≤ tex.row_bytes
  pub one_or_two : (tex.height ≡ f.cheight) ⊎ (2 * f.cheight ≤ tex.height)
  pub block : tex.height * tex.row_bytes ≤ tex.bytes.size

glyph_column : (k cw : ℕ) → k ≤ 94 → k * cw + cw ≤ 96 * cw
glyph_column k cw h = grind arith

glyph_fits :
    (g : Gr) (tex : GrSurface) (bold : Bool) (ch : ℕ)
    → IsFont g.font tex
    → MaskFits tex.bytes
        (glyph_src g tex (bold && not (tex.height == g.font.cheight)) ch)
        tex.row_bytes
        g.font.cwidth
        g.font.cheight
unfolding glyph_src
glyph_fits g tex bold ch f j hj =
    let rb = tex.row_bytes in
    let ch' = if ltb ch 32 || ltb 126 ch then 63 else ch in
    let small : ch' - 32 ≤ 94 = ground arith in
    let column = glyph_column (ch' - 32) g.font.cwidth small in
    ground (
      arith,
      f.columns,
      f.one_or_two,
      f.block,
      rows_fit j tex.height rb tex.bytes.size,
      rows_fit (j + g.font.cheight) tex.height rb tex.bytes.size,
    )

-- Drawing does not change what a valid state is.
pub with_bytes-IsValid :
    (g : Gr) (m : Mem) → m.size ≡ g.draw.bytes.size → IsValid g → IsValid (with_bytes g m)
with_bytes-IsValid g m e v = omega (arith, v)

text_loop-Draws :
    (g : Gr) (tex : GrSurface) (bold : Bool) (y : ℤ)
    → IsValid g
    → ((ch : ℕ)
        → MaskFits tex.bytes (glyph_src g tex bold ch) tex.row_bytes g.font.cwidth g.font.cheight)
    → (s : List ℕ) (x : ℤ) (m : Mem) → m.size ≡ g.draw.bytes.size
    → Draws
        (with_bytes g m)
        (text_drawn g tex bold x y s)
        (text_loop (with_bytes g m) tex bold x y s)
unfolding text_loop text_drawn outside glyph_src text_alpha
text_loop-Draws g tex bold y v fits [] x m e = Draws-same (with_bytes g m) _ (λ row c old. refl)
text_loop-Draws g tex bold y v fits (ch ∷ s) x m e =
    let w = g.font.cwidth in
    let h = g.font.cheight in
    let g' = with_bytes g m in
    let out = outside g x y || outside g (x +ℤ pos w -ℤ pos 1) (y +ℤ pos h -ℤ pos 1) in
    let blend =
      text_blend g' tex.bytes (glyph_src g tex bold ch) tex.row_bytes (pixel_at g' x y)
        g.draw.row_bytes w h m
      >>= λ m'. some (with_bytes g m') in
    elim (Bool-cases out) [
      | inl off ↦
          let no = contains-corners g x y (x +ℤ pos w) (y +ℤ pos h) true off in
          Draws-eq (Draws-same g' _ (λ row c old. rw no)) (rw off)
      | inr on ↦
          let yes_ = contains-corners g x y (x +ℤ pos w) (y +ℤ pos h) false on in
          let first =
            text_blend-Draws g' (with_bytes-IsValid g m e v) tex.bytes (glyph_src g tex bold ch)
              tex.row_bytes x y w h (fits ch) on in
          let both =
            Draws-then g' _ (text_drawn g tex bold (x +ℤ pos w) y s) blend
              (λ g2. text_loop g2 tex bold (x +ℤ pos w) y s) first
              (λ m' e'. text_loop-Draws g tex bold y v fits s (x +ℤ pos w) m' (e' ∙ e)) in
          Draws-eq (Draws-ext both (λ row c old. rw yes_))
            (rw on (bind_some _ (with_bytes g') (λ g2. text_loop g2 tex bold (x +ℤ pos w) y s)))
    ]

-- On a valid state gr_texticon never accesses memory outside the surface or the icon, and it draws the
-- icon's mask in the current colour at the given point with the overscan offsets added, exactly as
-- `icon_drawn` says of each byte; nothing else changes.
pub gr_texticon-Draws :
    (g : Gr) (icon : GrSurface) (x y : ℤ)
    → IsValid g
    → IsMask icon
    → Draws g
        (icon_drawn g icon (x +ℤ pos g.overscan_offset_x) (y +ℤ pos g.overscan_offset_y))
        (gr_texticon g x y (some icon))
unfolding gr_texticon
gr_texticon-Draws g icon x y v mask =
    texticon_at-Draws g icon (x +ℤ pos g.overscan_offset_x) (y +ℤ pos g.overscan_offset_y) v mask

pub gr_text-Draws :
    (g : Gr) (tex : GrSurface) (x y : ℤ) (s : List ℕ) (bold : Bool)
    → IsValid g
    → g.font.texture ≡ some tex
    → IsFont g.font tex
    → Draws g
        (λ row c old.
          if g.current_a == 0
          then old
          else text_drawn g tex
              (bold && not (tex.height == g.font.cheight))
              (x +ℤ pos g.overscan_offset_x)
              (y +ℤ pos g.overscan_offset_y)
              s
              row
              c
              old)
        (gr_text g x y s bold)
unfolding gr_text
gr_text-Draws g tex x y s bold v e f = elim (Bool-cases (g.current_a == 0)) [
  | inl clear ↦ Draws-eq (Draws-same g _ (λ row c old. rw clear)) (rw (e, clear))
  | inr opaque ↦
      let bold' = bold && not (tex.height == g.font.cheight) in
      Draws-eq
        (Draws-ext
          (text_loop-Draws g tex bold' (y +ℤ pos g.overscan_offset_y) v
            (λ ch. glyph_fits g tex bold ch f) s (x +ℤ pos g.overscan_offset_x) g.draw.bytes refl)
          (λ row c old. rw opaque))
        (rw (e, opaque))
]
