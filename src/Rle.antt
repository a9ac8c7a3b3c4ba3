-- ===== src/Rle.antt =====
-- The run-length code of the compiled-in font, which gr_init_font of recovery/graphics.cpp,
-- configs/recovery/graphics.c and recovery/twrp-graphics.c decode by the same loop. A byte of the
-- code is a run: its lower seven bits are the length, its top bit tells 255 from 0; a zero byte
-- ends the code. The array that the loop reads is a list; to run off its end is a fault, like a
-- write outside the bits.
pub mod Decode
use android_device_samsung_c.Base.{
  ℕ, zero, suc, ◌+◌, ◌/◌, ◌%◌, Option, none, some, List, [], ◌∷◌, ◌++◌, Bool, true, false, ◌==◌,
  if◌then◌else◌, ◌>>=◌, replicate,
}
use android_device_samsung_c.Memory.{Mem, memset}

-- (data & 0x80) ? 255 : 0
unfoldable pub run_value : ℕ → ℕ
run_value d = if d / 128 % 2 == 1 then 255 else 0

-- data & 0x7f
unfoldable pub run_length : ℕ → ℕ
run_length d = d % 128

-- while ((data = *in++)) { memset(bits, ...); bits += data & 0x7f; }
unfoldable pub rle_loop : List ℕ → (bits : ℕ) → Mem → Option Mem
rle_loop [] p m = none
rle_loop (d ∷ code) p m =
    if d == 0
    then some m
    else do m' ← memset m p (run_value d) (run_length d); rle_loop code (p + run_length d) m'
