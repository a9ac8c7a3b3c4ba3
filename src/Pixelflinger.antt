-- ===== src/Pixelflinger.antt =====
-- The calls of the pixelflinger library, which is not in the repository: the drawing functions of
-- recovery/twrp-graphics.c and configs/recovery/graphics.c are modelled by the calls that they make. An
-- argument of type `int` is a 32-bit pattern, as Word has it.
use android_device_samsung_c.Base.{ℕ, List, [], ◌∷◌, ◌++◌}
use android_device_samsung_c.Memory.{Mem}

-- A surface of the format A_8: one byte for each pixel.
pub record Texture : Type 0 where
  pub width : ℕ
  pub height : ℕ
  pub stride : ℕ
  pub bits : Mem

pub data Call : Type 0 where
  bind_texture : Call
  bind_surface : (source : ℕ) → Call
  tex_env_replace : Call
  tex_gen_s_one_to_one : Call
  tex_gen_t_one_to_one : Call
  enable_texture : Call
  disable_texture : Call
  tex_coord2i : (s t : ℕ) → Call
  recti : (left top right bottom : ℕ) → Call
  color4xv : (r g b a : ℕ) → Call
  scissor : (x y w h : ℕ) → Call
  enable_scissor : Call
  disable_scissor : Call
  linex : (x0 y0 x1 y1 width : ℕ) → Call

-- The calls that set the texture up.
abbrev pub one_to_one : List Call
one_to_one = tex_env_replace ∷ tex_gen_s_one_to_one ∷ tex_gen_t_one_to_one ∷ enable_texture ∷ []

-- A text function's loop returns its calls and the final x.
abbrev pub Drawn : Type 0
Drawn = List Call × ℕ

abbrev pub after : List Call → Drawn → Drawn
after calls (more, x) = (calls ++ more, x)
