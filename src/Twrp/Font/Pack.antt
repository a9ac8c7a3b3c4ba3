-- ===== src/Twrp/Font/Pack.antt =====
-- The numbers and the packed pixels of a font file, and what gr_loadFont reads back of them.
use android_device_samsung_c.Base.{
  ℕ, zero, suc, ◌+◌, ◌-◌, ◌*◌, ◌/◌, ◌%◌, ◌^◌, ◌≤◌, ◌<◌, ◌≡◌, refl, ap, fun_ext, ◌∙◌, List, [], ◌∷◌,
  ◌++◌, Bool, true, false, ◌==◌, if◌then◌else◌, length, arith,
}
use android_device_samsung_c.Twrp.Font.{word, word_at, pixel}
use android_device_samsung_c.Twrp.Font.Unpack.{held, stream_pixel}

-- A number in four bytes, the lowest first, and such numbers in a row.
unfoldable pub four_bytes : ℕ → List ℕ
four_bytes n = n % 256 ∷ n / 256 % 256 ∷ n / 65536 % 256 ∷ n / 16777216 % 256 ∷ []

unfoldable pub words : (n : ℕ) → (ℕ → ℕ) → List ℕ
words zero f = []
words (suc n) f = four_bytes (f 0) ++ words n (λ i. f (suc i))

abbrev pub bit : Bool → ℕ
bit true = 1
bit false = 0

-- Eight pixels in a byte, the first in the highest bit.
unfoldable pub pack_byte : (ℕ → Bool) → ℕ
pack_byte p =
    bit (p 0) * 128
    + bit (p 1) * 64
    + bit (p 2) * 32
    + bit (p 3) * 16
    + bit (p 4) * 8
    + bit (p 5) * 4
    + bit (p 6) * 2
    + bit (p 7)

unfoldable pub pack : (n : ℕ) → (ℕ → Bool) → List ℕ
pack zero p = []
pack (suc n) p = pack_byte p ∷ pack n (λ i. p (8 + i))

pub word-four_bytes : (n : ℕ) → n < 2 ^ 32 → word (four_bytes n) ≡ n
unfolding word four_bytes
word-four_bytes n h = omega arith

pub length-words : (n : ℕ) (f : ℕ → ℕ) → length (words n f) ≡ 4 * n
unfolding words four_bytes
length-words zero f = refl
length-words (suc n) f = omega (arith, length-words n (λ i. f (suc i)))

pub word_at-words : (n : ℕ) (f : ℕ → ℕ) (i : ℕ) → i < n → f i < 2 ^ 32 → word_at (words n f) i ≡ f i
unfolding word_at words four_bytes word
word_at-words zero f i h k = absurd (omega arith)
word_at-words (suc n) f zero h k = omega arith
word_at-words (suc n) f (suc i) h k = word_at-words n (λ i. f (suc i)) i (omega arith) k

held-pack :
    (n : ℕ) (p : ℕ → Bool) (d r : ℕ) → r < n → held d (pack n p) r ≡ pack_byte (λ i. p (8 * r + i))
unfolding held pack
held-pack zero p d r h = absurd (omega arith)
held-pack (suc n) p d zero h = ap pack_byte (fun_ext (λ i. ap p (omega arith)))
held-pack (suc n) p d (suc r) h =
    held-pack n (λ i. p (8 + i)) (pack_byte p) r (omega arith)
    ∙ ap pack_byte (fun_ext (λ i. ap p (omega arith)))

bit_le : (b : Bool) → bit b ≤ 1
bit_le true = omega arith
bit_le false = omega arith

-- What a pixel becomes in the texture.
abbrev pub texel : Bool → ℕ
texel b = if b then 255 else 0

texel_of : (b : Bool) → (if bit b == 1 then 255 else 0) ≡ texel b
texel_of true = refl
texel_of false = refl

byte_bits :
    (a b c d e f g h : ℕ)
    → a ≤ 1
    → b ≤ 1
    → c ≤ 1
    → d ≤ 1
    → e ≤ 1
    → f ≤ 1
    → g ≤ 1
    → h ≤ 1
    → ((a * 128 + b * 64 + c * 32 + d * 16 + e * 8 + f * 4 + g * 2 + h) / 128 % 2 ≡ a)
      × ((a * 128 + b * 64 + c * 32 + d * 16 + e * 8 + f * 4 + g * 2 + h) / 64 % 2 ≡ b)
      × ((a * 128 + b * 64 + c * 32 + d * 16 + e * 8 + f * 4 + g * 2 + h) / 32 % 2 ≡ c)
      × ((a * 128 + b * 64 + c * 32 + d * 16 + e * 8 + f * 4 + g * 2 + h) / 16 % 2 ≡ d)
      × ((a * 128 + b * 64 + c * 32 + d * 16 + e * 8 + f * 4 + g * 2 + h) / 8 % 2 ≡ e)
      × ((a * 128 + b * 64 + c * 32 + d * 16 + e * 8 + f * 4 + g * 2 + h) / 4 % 2 ≡ f)
      × ((a * 128 + b * 64 + c * 32 + d * 16 + e * 8 + f * 4 + g * 2 + h) / 2 % 2 ≡ g)
      × ((a * 128 + b * 64 + c * 32 + d * 16 + e * 8 + f * 4 + g * 2 + h) / 1 % 2 ≡ h)
byte_bits a b c d e f g h ha hb hc hd he hf hg hh = omega arith

bits_of :
    (p : ℕ → Bool)
    → (pack_byte p / 128 % 2 ≡ bit (p 0))
      × (pack_byte p / 64 % 2 ≡ bit (p 1))
      × (pack_byte p / 32 % 2 ≡ bit (p 2))
      × (pack_byte p / 16 % 2 ≡ bit (p 3))
      × (pack_byte p / 8 % 2 ≡ bit (p 4))
      × (pack_byte p / 4 % 2 ≡ bit (p 5))
      × (pack_byte p / 2 % 2 ≡ bit (p 6))
      × (pack_byte p / 1 % 2 ≡ bit (p 7))
unfolding pack_byte
bits_of p =
    byte_bits (bit (p 0)) (bit (p 1)) (bit (p 2)) (bit (p 3)) (bit (p 4)) (bit (p 5)) (bit (p 6))
      (bit (p 7)) (bit_le (p 0)) (bit_le (p 1)) (bit_le (p 2)) (bit_le (p 3)) (bit_le (p 4))
      (bit_le (p 5)) (bit_le (p 6)) (bit_le (p 7))

bit_of : (p : ℕ → Bool) (j : ℕ) → j < 8 → pack_byte p / 2 ^ (7 - j) % 2 ≡ bit (p j)
bit_of p zero h = (bits_of p).0
bit_of p (suc zero) h = (bits_of p).1
bit_of p (suc (suc zero)) h = (bits_of p).2
bit_of p (suc (suc (suc zero))) h = (bits_of p).3
bit_of p (suc (suc (suc (suc zero)))) h = (bits_of p).4
bit_of p (suc (suc (suc (suc (suc zero))))) h = (bits_of p).5
bit_of p (suc (suc (suc (suc (suc (suc zero)))))) h = (bits_of p).6
bit_of p (suc (suc (suc (suc (suc (suc (suc zero))))))) h = (bits_of p).7
bit_of p (suc (suc (suc (suc (suc (suc (suc (suc i)))))))) h = absurd (omega arith)

pixel-pack_byte : (p : ℕ → Bool) (j : ℕ) → j < 8 → pixel (pack_byte p) (7 - j) ≡ texel (p j)
unfolding pixel
pixel-pack_byte p j h = rw (bit_of p j h) (texel_of (p j))

pub stream_pixel-pack :
    (n d : ℕ) (p : ℕ → Bool) (t : ℕ) → t / 8 < n → stream_pixel d (pack n p) t ≡ texel (p t)
stream_pixel-pack n d p t h =
    let at : 8 * (t / 8) + t % 8 ≡ t = omega arith in
    ap (λ b. pixel b (7 - t % 8)) (held-pack n p d (t / 8) h)
    ∙ pixel-pack_byte (λ i. p (8 * (t / 8) + i)) (t % 8) (omega arith)
    ∙ ap (λ i. texel (p i)) at

-- A font of so many columns and rows, with these offsets and pixels.
