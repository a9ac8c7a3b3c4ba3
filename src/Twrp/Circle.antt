-- ===== src/Twrp/Circle.antt =====
-- gr_render_circle of recovery/twrp-graphics.c, for a radius that is not negative. A block of memory is
-- here an array of pixels, of 32 bits each. An `int` that overflows is a fault; malloc does not fail.
pub mod Disc
use android_device_samsung_c.Base.{
  ℕ, ◌+◌, ◌-◌, ◌*◌, ◌/◌, ◌^◌, Bool, Option, none, some, ltb, leb, if◌then◌else◌, ◌>>=◌,
}
use android_device_samsung_c.Memory.{Mem, store, memset, rows}

pub record Picture : Type 0 where
  pub width : ℕ
  pub height : ℕ
  pub stride : ℕ
  pub pixels : Mem

-- (i - radius)^2; one of the two terms is zero.
unfoldable pub square : (radius i : ℕ) → ℕ
square radius i = (i - radius) * (i - radius) + (radius - i) * (radius - i)

-- rx*rx+ry*ry <= radius_check, where rx is i - radius and ry is j - radius. In radius*radius +
-- radius*0.8 the conversion to `int` cuts the fraction off.
unfoldable pub is_covered : (radius j i : ℕ) → Bool
unfolding square
is_covered radius j i = leb (square radius i + square radius j) (radius * radius + radius * 4 / 5)

-- The body of the loops, at the address d.
unfoldable pub dot : (radius px j i d : ℕ) → Mem → Option Mem
unfolding is_covered
dot radius px j i d m = if is_covered radius j i then store m d px else some m

-- The loop over rx.
unfoldable pub line : (radius px j d : ℕ) → Mem → Option Mem
unfolding dot
line radius px j d m = rows (dot radius px j) 1 1 (radius * 2 + 1) 0 d m

-- px, for bytes r, g, b and a; `bits` is what the block from malloc holds.
unfoldable pub gr_render_circle : (radius r g b a : ℕ) (bits : ℕ → ℕ) → Option Picture
unfolding line
gr_render_circle radius r g b a bits =
    let diameter = radius * 2 + 1 in
    let px = a * 2 ^ 24 + b * 2 ^ 16 + g * 2 ^ 8 + r in
    if ltb (diameter * diameter * 4) (2 ^ 31)
    then (do
      zeroed ← memset (record { size = diameter * diameter; byte = bits }) 0 0 (diameter * diameter)
      pixels ← rows (line radius px) 1 diameter diameter 0 0 zeroed
      some (record { width = diameter; height = diameter; stride = diameter; pixels = pixels }))
    else none
