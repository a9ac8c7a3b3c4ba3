-- ===== src/Tests/Fonts.antt =====
-- The fonts of twrp-graphics.c: small font files, and a compiled-in font of four pixels.
use android_device_samsung_c.Base.{
  ℕ, ◌%◌, ◌==◌, ◌≡◌, refl, ◌⊎◌, Option, none, some, List, [], ◌∷◌, Bool, arith,
}
use android_device_samsung_c.Twrp.{GrFont}
use android_device_samsung_c.Twrp.Font.{Garbage, font_path, gr_load_font}
use android_device_samsung_c.Twrp.Font.Load.{IsLoaded, opened, gr_load_font-returns}
use android_device_samsung_c.Twrp.Font.RoundTrip.{IsFontOf, font_bytes, gr_load_font-font_bytes}
use android_device_samsung_c.Twrp.Font.Pack.{pack, pack_byte}

abbrev garbage : Garbage
garbage = record {
  width = 1 ∷ 2 ∷ 3 ∷ 4 ∷ [];
  height = 5 ∷ 6 ∷ 7 ∷ 8 ∷ [];
  byte = 9;
  bits = λ i. i;
}

-- "/res/"
abbrev res : List ℕ
res = 47 ∷ 114 ∷ 101 ∷ 115 ∷ 47 ∷ []

-- "f"
abbrev name : List ℕ
name = 102 ∷ []

-- The disk: under every path a font of 96 columns and one row, with each third pixel set.
abbrev third : ℕ → Bool
third t = t % 3 == 0

abbrev disk : List ℕ → Option (List ℕ)
disk path = some (font_bytes 96 1 (λ i. i) third)

packed : pack 2 third ≡ 146 ∷ 73 ∷ []
unfolding pack pack_byte
packed = refl

-- A file of four bytes, which ends behind the width.
abbrev short_disk : List ℕ → Option (List ℕ)
short_disk path = some (2 ∷ 0 ∷ 0 ∷ 0 ∷ [])

gr_load_font-returns_example :
    ((opened res short_disk name ≡ none) × (gr_load_font res short_disk garbage name ≡ some none))
    ⊎ ((file : List ℕ) × (font : GrFont) × (opened res short_disk name ≡ some file)
        × (gr_load_font res short_disk garbage name ≡ some (some font))
        × IsLoaded garbage file font)
unfolding font_path
gr_load_font-returns_example = gr_load_font-returns res short_disk garbage name (omega arith)

gr_load_font-font_bytes_example :
    (font : GrFont) × (gr_load_font res disk garbage name ≡ some (some font))
    × IsFontOf 96 1 (λ i. i) third font
gr_load_font-font_bytes_example =
    gr_load_font-font_bytes res disk garbage name 96 1 (λ i. i) third refl refl (omega arith)
      (omega arith) (omega arith) (λ i h. omega arith) refl
