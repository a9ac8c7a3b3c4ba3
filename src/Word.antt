-- ===== src/Word.antt =====
-- 32-bit machine words. A value of type `unsigned`, and one of type `int`, is its bit pattern below
-- 2 ^ 32; where C mixes the two, as recovery/twrp-graphics.c does, the arithmetic is that of
-- `unsigned`.
use android_device_samsung_c.Base.{ℕ, ◌+◌, ◌-◌, ◌*◌, ◌%◌, ◌^◌, ◌<◌, ◌≡◌, Bool, ltb, arith}

infixl 70 ◌*32◌
infixl 65 ◌+32◌ ◌-32◌
unfoldable pub ◌+32◌ : ℕ → ℕ → ℕ
a +32 b = (a + b) % 2 ^ 32

unfoldable pub ◌-32◌ : ℕ → ℕ → ℕ
a -32 b = (a + 2 ^ 32 - b) % 2 ^ 32

unfoldable pub ◌*32◌ : ℕ → ℕ → ℕ
a *32 b = a * b % 2 ^ 32

-- a < b, both read as `int`.
unfoldable pub slt : ℕ → ℕ → Bool
slt a b = ltb ((a + 2 ^ 31) % 2 ^ 32) ((b + 2 ^ 31) % 2 ^ 32)

pub +32-lt : (a b : ℕ) → a +32 b < 2 ^ 32
unfolding ◌+32◌
+32-lt a b = omega arith

pub -32-lt : (a b : ℕ) → a -32 b < 2 ^ 32
unfolding ◌-32◌
-32-lt a b = omega arith

pub *32-lt : (a b : ℕ) → a *32 b < 2 ^ 32
unfolding ◌*32◌
*32-lt a b = omega arith

pub +32_assoc : (a b c : ℕ) → a +32 b +32 c ≡ a +32 (b +32 c)
unfolding ◌+32◌
+32_assoc a b c = omega arith

pub +32-zero : (a : ℕ) → a < 2 ^ 32 → a +32 0 ≡ a
unfolding ◌+32◌
+32-zero a h = omega arith

pub zero-+32 : (a : ℕ) → a < 2 ^ 32 → 0 +32 a ≡ a
unfolding ◌+32◌
zero-+32 a h = omega arith
