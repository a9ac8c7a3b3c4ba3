-- ===== src/Memory.antt =====
-- A block of memory as malloc or mmap returns it: its size and its bytes. An access outside the block
-- is undefined in C, and here a fault, `none`. `memset` and `memcpy` are those of the C library, at
-- their documented meaning. The loops over rows and pixels are those of recovery/graphics.cpp, where
-- each row advances two pointers by their strides.
pub mod Painted
pub mod Rows
use android_device_samsung_c.Base.{
  ℕ, zero, suc, ◌+◌, ◌-◌, Option, none, some, Bool, ◌&&◌, ltb, leb, ◌==◌, if◌then◌else◌, ◌>>=◌,
}

pub record Mem : Type 0 where
  pub size : ℕ
  pub byte : ℕ → ℕ

unfoldable pub load : Mem → ℕ → Option ℕ
load m a = if ltb a m.size then some (m.byte a) else none

unfoldable pub store : Mem → ℕ → ℕ → Option Mem
store m a v =
    if ltb a m.size then some (record m { byte = λ i. if i == a then v else m.byte i }) else none

abbrev pub within : ℕ → ℕ → ℕ → Bool
within lo hi i = leb lo i && ltb i hi

unfoldable pub memset : Mem → ℕ → ℕ → ℕ → Option Mem
memset m d v n =
    if leb (d + n) m.size
    then some (record m { byte = λ i. if within d (d + n) i then v else m.byte i })
    else none

-- `memcpy` from another block.
unfoldable pub memcpy : Mem → ℕ → Mem → ℕ → ℕ → Option Mem
memcpy m d src s n =
    if leb (d + n) m.size && leb (s + n) src.size
    then some
        (record m { byte = λ i. if within d (d + n) i then src.byte (s + (i - d)) else m.byte i })
    else none

abbrev pub Step : Type 0
Step = ℕ → ℕ → Mem → Option Mem

-- for (j = 0; j < n; ++j) { step(s, d); s += src_stride; d += dst_stride; }
unfoldable pub rows : Step → (src_stride dst_stride n s d : ℕ) → Mem → Option Mem
rows step ss ds zero s d m = some m
rows step ss ds (suc n) s d m = do m' ← step s d m; rows step ss ds n (s + ss) (d + ds) m'
