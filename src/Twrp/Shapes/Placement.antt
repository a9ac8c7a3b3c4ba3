-- ===== src/Twrp/Shapes/Placement.antt =====
-- Where gr_textEx_scaleW of recovery/twrp-graphics.c puts a text.
use android_device_samsung_c.Base.{
  ℕ, ◌/◌, ◌≡◌, refl, List, ◌∷◌, Bool, some, ltb, if◌then◌else◌, ℤ, pos, negsuc, ◌+ℤ◌, ◌-ℤ◌,
  int_laws,
}
use android_device_samsung_c.Twrp.Shapes.{
  Place, top_left, top_right, bottom_left, bottom_right, center, center_x_only, text_only_right,
  Scaling, TextCall, shift_x, shift_y, fit, gr_text_ex_scale_w,
}

-- The left edge of a text of width w that is placed at x: x is its left edge, its right edge or its
-- middle.
abbrev pub IsPlacedX : Place → (x : ℤ) (w : ℕ) (left : ℤ) → Type 0
IsPlacedX top_left x w left = left ≡ x
IsPlacedX bottom_left x w left = left ≡ x
IsPlacedX text_only_right x w left = left ≡ x
IsPlacedX top_right x w left = left +ℤ pos w ≡ x
IsPlacedX bottom_right x w left = left +ℤ pos w ≡ x
IsPlacedX center x w left = left +ℤ pos (w / 2) ≡ x
IsPlacedX center_x_only x w left = left +ℤ pos (w / 2) ≡ x

-- The top edge of a text of height h that is placed at y: y is its top edge, its bottom edge or its
-- middle.
abbrev pub IsPlacedY : Place → (y : ℤ) (h : ℕ) (top : ℤ) → Type 0
IsPlacedY top_left y h top = top ≡ y
IsPlacedY top_right y h top = top ≡ y
IsPlacedY center_x_only y h top = top ≡ y
IsPlacedY bottom_left y h top = top +ℤ pos h ≡ y
IsPlacedY bottom_right y h top = top +ℤ pos h ≡ y
IsPlacedY center y h top = top +ℤ pos (h / 2) ≡ y
IsPlacedY text_only_right y h top = top +ℤ pos (h / 2) ≡ y

stay : (x : ℤ) → x -ℤ pos 0 ≡ x
stay x = omega int_laws

move_back : (x : ℤ) (n : ℕ) → x -ℤ pos n +ℤ pos n ≡ x
move_back x n = omega int_laws

placed_x : (p : Place) (x : ℤ) (w : ℕ) → IsPlacedX p x w (x -ℤ pos (shift_x p w))
unfolding shift_x
placed_x top_left x w = stay x
placed_x bottom_left x w = stay x
placed_x text_only_right x w = stay x
placed_x top_right x w = move_back x w
placed_x bottom_right x w = move_back x w
placed_x center x w = move_back x (w / 2)
placed_x center_x_only x w = move_back x (w / 2)

placed_y : (p : Place) (y : ℤ) (h : ℕ) → IsPlacedY p y h (y -ℤ pos (shift_y p h))
unfolding shift_y
placed_y top_left y h = stay y
placed_y top_right y h = stay y
placed_y center_x_only y h = stay y
placed_y bottom_left y h = move_back y h
placed_y bottom_right y h = move_back y h
placed_y center y h = move_back y (h / 2)
placed_y text_only_right y h = move_back y (h / 2)

commuted : (w : ℕ) (x : ℤ) → pos w +ℤ x ≡ x +ℤ pos w
commuted w x = omega int_laws

module _ {ℓ} {F : Type ℓ} (t : Scaling F) where
  -- For a text that is not empty, in a font that is scaled or need not be, with the width that it
  -- has then, gr_textEx_scaleW makes its call; the call's limit is the right edge of the whole
  -- text, so that nothing is cut off, even if the text is wider than max_width. As `placement`
  -- says, x is the left edge, the right edge or the middle of the text, or of as much of it as
  -- max_width holds; and y, before the correction for a scaled font, is the top, the bottom or the
  -- middle of a line of the given font.
  pub gr_text_ex_scale_w-IsPlaced :
      (x y : ℤ) (ch : ℕ) (s : List ℕ) (font vfont : F) (max_width w : ℕ) (y_scale : ℤ) (p : Place)
      (scale : Bool)
      → fit t (ch ∷ s) font max_width scale ≡ some (vfont, w, y_scale)
      → (call : TextCall F) × (gr_text_ex_scale_w t x y
            (some (ch ∷ s))
            (some font)
            max_width
            p
            scale
          ≡ some call)
        × (call.max_width ≡ call.x +ℤ pos w)
        × IsPlacedX p x (if ltb max_width w then max_width else w) call.x
        × ((top : ℤ) × (call.y ≡ top +ℤ y_scale) × IsPlacedY p y (t.max_height font) top)
  unfolding gr_text_ex_scale_w
  gr_text_ex_scale_w-IsPlaced x y ch s font vfont max_width w y_scale p scale e =
      let x_adj = if ltb max_width w then max_width else w in
      let x' = x -ℤ pos (shift_x p x_adj) in
      let top = y -ℤ pos (shift_y p (t.max_height font)) in
      (
        record {
          x = x';
          y = top +ℤ y_scale;
          text = ch ∷ s;
          font = vfont;
          max_width = pos w +ℤ x';
          max_height = negsuc 0;
        },
        rw (e, gr_text_ex_scale_w) refl,
        commuted w x',
        placed_x p x x_adj,
        (top, refl, placed_y p y (t.max_height font)),
      )
