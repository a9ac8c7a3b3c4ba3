-- ===== src/Twrp/Font.antt =====
-- The fonts of recovery/twrp-graphics.c: gr_loadFont, which reads a font file, and gr_init_font,
-- which decodes the compiled-in font. A file is the list of its bytes; a read takes as many bytes
-- as asked for, if the file has them, and leaves the rest of the variable as it was. Numbers are
-- stored with the lowest byte first. malloc and calloc do not fail here.
pub mod Unpack
pub mod Load
pub mod Pack
pub mod RoundTrip
pub mod Compiled
use android_device_samsung_c.Base.{
  ℕ, zero, suc, ◌+◌, ◌*◌, ◌/◌, ◌%◌, ◌^◌, List, [], ◌∷◌, ◌++◌, Bool, true, false, Option, none, some,
  ltb, leb, ◌==◌, if◌then◌else◌, ◌>>=◌, length, replicate,
}
use android_device_samsung_c.Word.{◌-32◌, ◌*32◌}
use android_device_samsung_c.Memory.{Mem, store, memset}
use android_device_samsung_c.Rle.{rle_loop}
use android_device_samsung_c.Pixelflinger.{Texture}
use android_device_samsung_c.Twrp.{GrFont, pick}

-- read(fd, buffer, sizeof buffer): what the buffer holds then, and the rest of the file.
unfoldable pub read : (buffer file : List ℕ) → List ℕ × List ℕ
read [] file = ([], file)
read (old ∷ buffer) [] = (old ∷ buffer, [])
read (old ∷ buffer) (b ∷ file) = let (bytes, rest) = read buffer file in (b ∷ bytes, rest)

-- The number in the four bytes at the head of a buffer.
unfoldable pub word : List ℕ → ℕ
word (a ∷ b ∷ c ∷ d ∷ rest) = a + b * 256 + c * 65536 + d * 16777216
word bytes = 0

-- element of an array of `unsigned`
unfoldable pub word_at : List ℕ → ℕ → ℕ
word_at bytes zero = word bytes
word_at (a ∷ b ∷ c ∷ d ∷ rest) (suc i) = word_at rest i
word_at bytes (suc i) = 0

-- (data & (1 << k)) ? 255 : 0
unfoldable pub pixel : (d k : ℕ) → ℕ
pixel d k = if d / 2 ^ k % 2 == 1 then 255 else 0

-- The loop over the bits of one byte, highest first, with `left` rounds left.
unfoldable pub put_bits : (n left d pos : ℕ) → Mem → Option (ℕ × Mem)
put_bits n zero d pos m = some (pos, m)
put_bits n (suc left) d pos m = do
  m ← store m pos (pixel d left)
  elim (pos + 1 == n) [ true ↦ some (pos + 1, m) | false ↦ put_bits n left d (pos + 1) m ]

-- read(fd, &data, 1), where `data` holds d: at the end of the file it goes on holding it.
abbrev pub next_byte : (d : ℕ) (file : List ℕ) → ℕ × List ℕ
next_byte d [] = (d, [])
next_byte d (b ∷ file) = (b, file)

-- while (pos < width * height)
unfoldable pub unpack : (fuel n d : ℕ) (file : List ℕ) (pos : ℕ) → Mem → Option Mem
unpack zero n d file pos m = none
unpack (suc fuel) n d file pos m =
    let (d', file') = next_byte d file in
    let round = (do (pos', m') ← put_bits n 8 d' pos m; unpack fuel n d' file' pos' m') in
    if ltb pos n then round else some m

-- The bytes that the variables of gr_loadFont hold before they are set.
pub record Garbage : Type 0 where
  pub width : List ℕ
  pub height : List ℕ
  pub byte : ℕ
  pub bits : ℕ → ℕ

-- TWRES "fonts/%s.dat"
unfoldable pub font_path : (twres font_name : List ℕ) → List ℕ
font_path twres font_name =
    twres ++ ((102 ∷ 111 ∷ 110 ∷ 116 ∷ 115 ∷ 47 ∷ []) ++ (font_name ++ (46 ∷ 100 ∷ 97 ∷ 116 ∷ [])))

-- The file of a font; a path that does not fit into tmp is a fault.
unfoldable pub font_file :
    (twres : List ℕ) (open_file : List ℕ → Option (List ℕ)) (font_name : List ℕ)
    → Option (Option (List ℕ))
font_file twres open_file font_name = elim (open_file font_name) [
  | some file ↦ some (some file)
  | none ↦
      if ltb (length (font_path twres font_name)) 128
      then some (open_file (font_path twres font_name))
      else none
]

-- gr_loadFont behind the opening of the file.
unfoldable pub read_font : Garbage → (file : List ℕ) → Option GrFont
read_font g file =
    let (w, file1) = read g.width file in
    let (h, file2) = read g.height file1 in
    let (offsets, file3) = read (replicate 384 0) file2 in
    let n = word w *32 word h in
    do
      zeroed ← memset (record { size = n; byte = g.bits }) 0 0 n
      bits ← unpack (n + 1) n g.byte file3 0 zeroed
      some (record {
        is_ttf = false;
        texture = record { width = word w; height = word h; stride = word w; bits = bits };
        offset = λ i. if i == 96 then word w else word_at offsets i;
        cheight = word h;
        ascent = word h -32 2;
      })

-- The outer `none` is a fault, the inner one NULL.
unfoldable pub gr_load_font :
    (twres : List ℕ) (open_file : List ℕ → Option (List ℕ))
    → Garbage
    → (font_name : List ℕ) → Option (Option GrFont)
unfolding read_font font_file
gr_load_font twres open_file g font_name = do
  file ← font_file twres open_file font_name
  elim file [ none ↦ some none | some bytes ↦ do font ← read_font g bytes; some (some font) ]

-- The compiled-in font, a variable of the font's header.
pub record CompiledFont : Type 0 where
  pub width : ℕ
  pub height : ℕ
  pub cwidth : ℕ
  pub rundata : List ℕ

unfoldable pub gr_init_font : CompiledFont → (bits : ℕ → ℕ) → Option GrFont
gr_init_font f bits = do
  m ← rle_loop f.rundata 0 (record { size = f.width *32 f.height; byte = bits })
  some (record {
    is_ttf = false;
    texture = record { width = f.width; height = f.height; stride = f.width; bits = m };
    offset = λ element. element *32 f.cwidth;
    cheight = f.height;
    ascent = f.height -32 2;
  })

-- `ttf` is gr_ttf_getMaxFontHeight; -1 without a font.
unfoldable pub gr_get_max_font_height : (ttf : Option GrFont → ℕ) (gr_font font : Option GrFont) → ℕ
gr_get_max_font_height ttf gr_font font = elim (pick font gr_font) [
  | none ↦ 4294967295
  | some f ↦ if f.is_ttf then ttf font else f.cheight
]
