-- ===== src/Twrp/Font/Load.antt =====
-- gr_loadFont: what it makes of any file, and of the file of a font.
use android_device_samsung_c.Base.{
  ℕ, ◌+◌, ◌<◌, ◌≡◌, refl, ap, ◌∙◌, inl, inr, List, true, false, Option, none, some, ltb, ◌==◌,
  if◌then◌else◌, length, replicate, Option-cases, ◌⊎◌, arith,
}
use android_device_samsung_c.Word.{◌*32◌, ◌-32◌}
use android_device_samsung_c.Memory.Painted.{memset_within}
use android_device_samsung_c.Twrp.{GrFont}
use android_device_samsung_c.Twrp.Font.{
  Garbage, read, word, word_at, read_font, font_path, font_file, gr_load_font,
}
use android_device_samsung_c.Twrp.Font.Unpack.{stream_pixel, unpack-Painted}

-- The parts of a font file.
abbrev pub after_width : Garbage → List ℕ → List ℕ
after_width g file = (read g.width file).1

abbrev pub after_height : Garbage → List ℕ → List ℕ
after_height g file = (read g.height (after_width g file)).1

abbrev pub file_width : Garbage → List ℕ → ℕ
file_width g file = word ((read g.width file).0)

abbrev pub file_height : Garbage → List ℕ → ℕ
file_height g file = word ((read g.height (after_width g file)).0)

abbrev pub file_offsets : Garbage → List ℕ → List ℕ
file_offsets g file = (read (replicate 384 0) (after_height g file)).0

abbrev pub file_pixels : Garbage → List ℕ → List ℕ
file_pixels g file = (read (replicate 384 0) (after_height g file)).1

-- What a font makes of its file.
pub record IsLoaded (g : Garbage) (file : List ℕ) (font : GrFont) : Type 0 where
  pub bitmap : font.is_ttf ≡ false
  pub width : font.texture.width ≡ file_width g file
  pub stride : font.texture.stride ≡ file_width g file
  pub height : font.texture.height ≡ file_height g file
  pub cheight : font.cheight ≡ file_height g file
  pub offset : (i : ℕ) → i < 96 → font.offset i ≡ word_at (file_offsets g file) i
  pub end : font.offset 96 ≡ file_width g file
  pub size : font.texture.bits.size ≡ file_width g file *32 file_height g file
  pub texel :
      (t : ℕ)
      → t < file_width g file *32 file_height g file
      → font.texture.bits.byte t ≡ stream_pixel g.byte (file_pixels g file) t

pub read_font-IsLoaded :
    (g : Garbage) (file : List ℕ)
    → (font : GrFont) × (read_font g file ≡ some font) × IsLoaded g file font
unfolding read_font
read_font-IsLoaded g file =
    let w = file_width g file in
    let h = file_height g file in
    let n = w *32 h in
    let (zeroed, e0, size) = memset_within (record { size = n; byte = g.bits }) 0 n (omega arith) in
    let (m, e, p) =
      unpack-Painted (n + 1) n g.byte (file_pixels g file) 0 zeroed (omega arith) (omega arith)
        (omega arith) in
    (
      record {
        is_ttf = false;
        texture = record { width = w; height = h; stride = w; bits = m };
        offset = λ i. if i == 96 then w else word_at (file_offsets g file) i;
        cheight = h;
        ascent = h -32 2;
      },
      rw (e0, e) refl,
      record {
        bitmap = refl;
        width = refl;
        stride = refl;
        height = refl;
        cheight = refl;
        offset = λ i lt. ground arith;
        end = refl;
        size = p.size ∙ size;
        texel = λ t lt.
            let at : 0 + t ≡ t = omega arith in let hit = p.inside t (omega arith) in rw at at hit;
      },
    )

abbrev pub or_else {ℓ} : {A : Type ℓ} → Option A → Option A → Option A
or_else none b = b
or_else (some a) b = some a

-- The file that is opened, under the name itself or else under the theme's path.
abbrev pub opened :
    (twres : List ℕ) (open_file : List ℕ → Option (List ℕ)) (font_name : List ℕ) → Option (List ℕ)
opened twres open_file font_name =
    or_else (open_file font_name) (open_file (font_path twres font_name))

font_file-opened :
    (twres : List ℕ) (open_file : List ℕ → Option (List ℕ)) (font_name : List ℕ)
    → length (font_path twres font_name) < 128
    → font_file twres open_file font_name ≡ some (opened twres open_file font_name)
unfolding font_file
font_file-opened twres open_file font_name h = elim (Option-cases (open_file font_name)) [
  | inl e ↦
      let fits : ltb (length (font_path twres font_name)) 128 ≡ true = ground arith in
      rw (e, font_file, fits) refl
  | inr (file, e) ↦ rw (e, font_file) refl
]

-- If the theme's path of the font fits into tmp, gr_loadFont returns, whatever the file holds and
-- however short it is: NULL where neither path can be opened, and else a font with the sizes, the
-- offsets and the pixels of the file; the last byte that could be read stands for those that are
-- missing.
pub gr_load_font-returns :
    (twres : List ℕ) (open_file : List ℕ → Option (List ℕ)) (g : Garbage) (font_name : List ℕ)
    → length (font_path twres font_name) < 128
    → ((opened twres open_file font_name ≡ none)
        × (gr_load_font twres open_file g font_name ≡ some none))
      ⊎ ((file : List ℕ) × (font : GrFont) × (opened twres open_file font_name ≡ some file)
          × (gr_load_font twres open_file g font_name ≡ some (some font))
          × IsLoaded g file font)
unfolding gr_load_font
gr_load_font-returns twres open_file g font_name h =
    let e = font_file-opened twres open_file font_name h in
    elim (Option-cases (opened twres open_file font_name)) [
      | inl missing ↦ inl (missing, rw (e ∙ ap some missing) refl)
      | inr (file, found) ↦
          let (font, loads, is) = read_font-IsLoaded g file in
          inr (file, font, found, rw (e ∙ ap some found, loads) refl, is)
    ]
