-- ===== src/Tests/Cwm.antt =====
-- configs/recovery/graphics.c on small inputs.
use android_device_samsung_c.Base.{ℕ, ◌≡◌, refl, some, List, [], ◌∷◌, true, arith}
use android_device_samsung_c.Word.{◌+32◌, ◌-32◌, ◌*32◌}
use android_device_samsung_c.Pixelflinger.{bind_texture, one_to_one, after}
use android_device_samsung_c.Cwm.{GrFont, gr_text, gr_measure}
use android_device_samsung_c.Cwm.Text.{cells, gr_text-cells}

abbrev fixed : GrFont
fixed = record {
  texture = record {
    width = 960;
    height = 18;
    stride = 960;
    bits = record { size = 17280; byte = λ i. 0 };
  };
  cwidth = 10;
  cheight = 18;
  ascent = 16;
}

-- "Hi\n!"
abbrev text : List ℕ
text = 72 ∷ 105 ∷ 10 ∷ 33 ∷ []

measured : gr_measure (some fixed) text ≡ some 40
unfolding gr_measure ◌*32◌
measured = refl

gr_text-cells_example :
    (w : ℕ) × (gr_measure (some fixed) text ≡ some w)
    × (gr_text (some fixed) 5 30 text true
        ≡ some (after (bind_texture ∷ one_to_one) (cells fixed 5 (30 -32 16) 0 text, 5 +32 w)))
gr_text-cells_example = gr_text-cells fixed 5 30 text true (omega arith)
