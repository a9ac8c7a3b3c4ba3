-- ===== src/Twrp/Font/RoundTrip.antt =====
-- The file of a font, and what gr_loadFont makes of it.
use android_device_samsung_c.Base.{
  ℕ, ◌+◌, ◌*◌, ◌/◌, ◌^◌, ◌<◌, ◌≡◌, refl, sym, ap, ◌∙◌, List, [], ◌∷◌, ◌++◌, Bool, false, Option,
  some, length, length-replicate, replicate, arith,
}
use android_device_samsung_c.Word.{◌*32◌}
use android_device_samsung_c.Twrp.{GrFont}
use android_device_samsung_c.Twrp.Font.{Garbage, read, word, word_at, font_file, gr_load_font}
use android_device_samsung_c.Twrp.Font.Unpack.{stream_pixel}
use android_device_samsung_c.Twrp.Font.Pack.{
  four_bytes, words, pack, texel, word-four_bytes, length-words, word_at-words, stream_pixel-pack,
}
use android_device_samsung_c.Twrp.Font.Load.{
  IsLoaded, read_font-IsLoaded, after_width, after_height, file_width, file_height,
}

-- The file of a font of so many columns and rows.
unfoldable pub font_bytes : (width height : ℕ) (offset : ℕ → ℕ) (p : ℕ → Bool) → List ℕ
font_bytes width height offset p =
    four_bytes width
    ++ (four_bytes height ++ (words 96 offset ++ pack ((width * height + 7) / 8) p))

read-append :
    (buffer bytes rest : List ℕ)
    → length buffer ≡ length bytes
    → read buffer (bytes ++ rest) ≡ (bytes, rest)
unfolding read
read-append [] [] rest h = refl
read-append [] (b ∷ bytes) rest h = absurd (omega (arith, h))
read-append (old ∷ buffer) [] rest h = absurd (omega (arith, h))
read-append (old ∷ buffer) (b ∷ bytes) rest h =
    rw (read-append buffer bytes rest (omega (arith, h))) refl

-- A font of so many columns and rows, with these offsets and pixels.
pub record IsFontOf (w h : ℕ) (off : ℕ → ℕ) (p : ℕ → Bool) (font : GrFont) : Type 0 where
  pub bitmap : font.is_ttf ≡ false
  pub width : font.texture.width ≡ w
  pub stride : font.texture.stride ≡ w
  pub height : font.texture.height ≡ h
  pub cheight : font.cheight ≡ h
  pub offset : (i : ℕ) → i < 96 → font.offset i ≡ off i
  pub end : font.offset 96 ≡ w
  pub size : font.texture.bits.size ≡ w * h
  pub texels : (t : ℕ) → t < w * h → font.texture.bits.byte t ≡ texel (p t)

pub times : (w h : ℕ) → w * h < 2 ^ 32 → w *32 h ≡ w * h
unfolding ◌*32◌
times w h k = omega arith

-- The parts of the file of a font.
module _ (g : Garbage) (w h : ℕ) (off : ℕ → ℕ) (p : ℕ → Bool) (four : length g.width ≡ 4)
    (four' : length g.height ≡ 4) where
  abbrev file : List ℕ
  file = font_bytes w h off p

  abbrev pixels : List ℕ
  pixels = pack ((w * h + 7) / 8) p

  behind_width : read g.width file ≡ (four_bytes w, four_bytes h ++ (words 96 off ++ pixels))
  unfolding font_bytes four_bytes
  behind_width = read-append g.width (four_bytes w) (four_bytes h ++ (words 96 off ++ pixels)) four

  behind_height : read g.height (after_width g file) ≡ (four_bytes h, words 96 off ++ pixels)
  unfolding four_bytes
  behind_height =
      ap (λ r. read g.height r.1) behind_width
      ∙ read-append g.height (four_bytes h) (words 96 off ++ pixels) four'

  behind_offsets : read (replicate 384 0) (after_height g file) ≡ (words 96 off, pixels)
  behind_offsets =
      ap (λ r. read (replicate 384 0) r.1) behind_height
      ∙ read-append (replicate 384 0) (words 96 off) pixels
          (length-replicate {A = ℕ} 384 0 ∙ sym (length-words 96 off))

  loaded-IsFontOf :
      (font : GrFont)
      → w < 2 ^ 32
      → h < 2 ^ 32
      → w * h < 2 ^ 32
      → ((i : ℕ) → i < 96 → off i < 2 ^ 32)
      → IsLoaded g file font
      → IsFontOf w h off p font
  loaded-IsFontOf font hw hh hn hoff l =
      let ew : file_width g file ≡ w = ap (λ r. word r.0) behind_width ∙ word-four_bytes w hw in
      let eh : file_height g file ≡ h = ap (λ r. word r.0) behind_height ∙ word-four_bytes h hh in
      let en : file_width g file *32 file_height g file ≡ w * h = rw (ew, eh) (times w h hn) in
      record {
        bitmap = l.bitmap;
        width = l.width ∙ ew;
        stride = l.stride ∙ ew;
        height = l.height ∙ eh;
        cheight = l.cheight ∙ eh;
        offset = λ i lt.
            l.offset i lt
            ∙ ap (λ r. word_at r.0 i) behind_offsets
            ∙ word_at-words 96 off i lt (hoff i lt);
        end = l.end ∙ ew;
        size = l.size ∙ en;
        texels = λ t lt.
            l.texel t (omega (arith, en))
            ∙ ap (λ r. stream_pixel g.byte r.1 t) behind_offsets
            ∙ stream_pixel-pack ((w * h + 7) / 8) g.byte p t (omega arith);
      }

-- Of the file that holds the width, the height, the 96 offsets and the pixels of a font, of sizes
-- whose product is below 2 ^ 32, gr_loadFont makes that font: the same sizes and offsets, the end
-- of the last glyph at the width, and a texture with 255 for each pixel that is set and 0 for each
-- that is not.
pub gr_load_font-font_bytes :
    (twres : List ℕ) (open_file : List ℕ → Option (List ℕ)) (g : Garbage) (font_name : List ℕ)
    (w h : ℕ) (off : ℕ → ℕ) (p : ℕ → Bool)
    → length g.width ≡ 4
    → length g.height ≡ 4
    → w < 2 ^ 32
    → h < 2 ^ 32
    → w * h < 2 ^ 32
    → ((i : ℕ) → i < 96 → off i < 2 ^ 32)
    → open_file font_name ≡ some (font_bytes w h off p)
    → (font : GrFont) × (gr_load_font twres open_file g font_name ≡ some (some font))
      × IsFontOf w h off p font
unfolding gr_load_font
gr_load_font-font_bytes twres open_file g font_name w h off p four four' hw hh hn hoff e =
    let (font, loads, l) = read_font-IsLoaded g (font_bytes w h off p) in
    (
      font,
      rw (e, font_file, loads) refl,
      loaded-IsFontOf g w h off p four four' font hw hh hn hoff l,
    )
