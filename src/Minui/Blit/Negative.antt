-- ===== src/Minui/Blit/Negative.antt =====
-- gr_blit of recovery/graphics.cpp, with a box of negative width.
use android_device_samsung_c.Base.{
  ℕ, suc, ◌+◌, ◌*◌, ◌^◌, ◌≤◌, ◌<◌, ◌≡◌, refl, ap, true, false, ◌||◌, none, some, ◌==◌, arith, ℤ,
  pos, negsuc, pos_part, ◌+ℤ◌, ◌-ℤ◌, +ℤ_parts,
}
use android_device_samsung_c.Memory.{Mem, rows, memcpy}
use android_device_samsung_c.Minui.{
  Gr, GrSurface, outside, pixel_at, to_size, scale, blit_rows, blit_at, gr_blit,
}
use android_device_samsung_c.Minui.Drawing.{IsSurface, IsValid}
use android_device_samsung_c.Minui.Fill.{corners_inside}
use android_device_samsung_c.Minui.Blit.{row_le}

blit_rows-none :
    (g : Gr) (src : Mem) (row_bytes len n : ℕ) (p : ℤ) (d : ℕ)
    → g.draw.bytes.size < d + len
    → blit_rows g src row_bytes len (suc n) p d ≡ none
unfolding blit_rows rows memcpy
blit_rows-none g src row_bytes len n (pos s) d h = ground arith
blit_rows-none g src row_bytes len n (negsuc s) d h = refl

-- A width of -(k + 1) pixels becomes a size_t just below 2 ^ 32.
huge_size : (k : ℕ) → 4 * k + 3 < 2 ^ 32 → to_size (scale (negsuc k) 4) + 4 * k + 4 ≡ 2 ^ 32
unfolding to_size
huge_size k h = ground arith

pixel_at-ge : (g : Gr) (x y : ℤ) → g.draw.pixel_bytes ≡ 4 → pos_part x * 4 ≤ pixel_at g x y
unfolding pixel_at
pixel_at-ge g x y e = omega (arith, ap (λ (b : ℕ). pos_part x * b) e)

blit_at-negative :
    (g : Gr) (source : GrSurface) (sx sy : ℤ) (k h : ℕ) (dx dy : ℤ)
    → IsValid g
    → IsSurface source
    → (outside g dx dy || outside g (dx +ℤ negsuc k -ℤ pos 1) (dy +ℤ pos (suc h) -ℤ pos 1)) ≡ false
    → blit_at g source sx sy (negsuc k) (pos (suc h)) dx dy ≡ none
unfolding blit_at
blit_at-negative g source sx sy k h dx dy v vs inside =
    let (nx, hx, ny, hy, nx2, hx2, ny2, hy2) =
      corners_inside g dx dy (dx +ℤ negsuc k) (dy +ℤ pos (suc h)) inside in
    let len = to_size (scale (negsuc k) source.pixel_bytes) in
    let four : len ≡ to_size (scale (negsuc k) 4) =
      ap (λ b. to_size (scale (negsuc k) b)) vs.pixel in
    let s = v.surface in
    let room = row_le g.draw.height g.draw.row_bytes g.draw.bytes.size (omega arith) s.block in
    let small : 4 * k + 3 < 2 ^ 32 = omega (arith, +ℤ_parts dx (negsuc k), s.row, s.addressable) in
    let far : g.draw.bytes.size < pixel_at g dx dy + len = omega (
      arith,
      huge_size k small,
      pixel_at-ge g dx dy s.pixel,
      +ℤ_parts dx (negsuc k),
      s.addressable,
    ) in
    rw inside (rw (blit_rows-none g source.bytes source.row_bytes len h _ (pixel_at g dx dy) far))

-- gr_blit does not test the sign of its width. On a valid state, a box of negative width and positive
-- height whose corners, with the overscan offsets added, pass the test faults: the width becomes a
-- size_t near 2 ^ 32, and memcpy runs out of the surface.
pub gr_blit-negative :
    (g : Gr) (source : GrSurface) (sx sy : ℤ) (k h : ℕ) (dx dy : ℤ)
    → IsValid g
    → IsSurface source
    → (let x = dx +ℤ pos g.overscan_offset_x in
        let y = dy +ℤ pos g.overscan_offset_y in
        outside g x y || outside g (x +ℤ negsuc k -ℤ pos 1) (y +ℤ pos (suc h) -ℤ pos 1))
      ≡ false
    → gr_blit g (some source) sx sy (negsuc k) (pos (suc h)) dx dy ≡ none
unfolding gr_blit
gr_blit-negative g source sx sy k h dx dy v vs inside =
    let same : (g.draw.pixel_bytes == source.pixel_bytes) ≡ true =
      ground (arith, v.surface.pixel, vs.pixel) in
    rw same (
      blit_at-negative g source sx sy k h (dx +ℤ pos g.overscan_offset_x)
        (dy +ℤ pos g.overscan_offset_y) v vs inside)
