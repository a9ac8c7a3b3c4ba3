-- ===== src/Minui/Visible.antt =====
-- The area that gr_fb_width and gr_fb_height of recovery/graphics.cpp report, inside the overscan.
use android_device_samsung_c.Base.{
  ℕ, ◌-◌, ◌*◌, ◌/◌, ◌%◌, ◌≤◌, ◌<◌, ◌≡◌, true, ◌&&◌, if◌then◌else◌, arith, ℤ, pos, ◌+ℤ◌, ◌-ℤ◌, ◌≤ℤ◌,
  ◌<ℤ◌, +ℤ_parts, -ℤ_parts,
}
use android_device_samsung_c.Minui.{Gr, gr_fill, gr_fb_width, gr_fb_height}
use android_device_samsung_c.Minui.Drawing.{IsValid, tint}
use android_device_samsung_c.Minui.Draws.{Draws, Draws-ext}
use android_device_samsung_c.Minui.Fill.{contains, in_rect, gr_fill-Draws}

-- A rectangle, not empty, inside the reported area.
pub record IsVisible (g : Gr) (x1 y1 x2 y2 : ℤ) : Type 0 where
  pub left : pos 0 ≤ℤ x1
  pub across : x1 <ℤ x2
  pub right : x2 ≤ℤ gr_fb_width g
  pub top : pos 0 ≤ℤ y1
  pub down : y1 <ℤ y2
  pub bottom : y2 ≤ℤ gr_fb_height g

module _ (g : Gr) (x1 y1 x2 y2 : ℤ) (h : IsVisible g x1 y1 x2 y2) where
  x_corners :
      let ox = g.overscan_offset_x in
      let l = x1 +ℤ pos ox in
      let r = x2 +ℤ pos ox in
      (pos ox ≤ℤ l)
      × (l ≤ℤ r -ℤ pos 1)
      × (r ≤ℤ pos (g.draw.width - ox))
      × (r -ℤ pos 1 <ℤ pos g.draw.width)
  unfolding gr_fb_width
  x_corners = omega (
    arith,
    h,
    +ℤ_parts x1 (pos g.overscan_offset_x),
    +ℤ_parts x2 (pos g.overscan_offset_x),
    -ℤ_parts (x2 +ℤ pos g.overscan_offset_x) (pos 1),
    -ℤ_parts (pos g.draw.width) (pos (2 * g.overscan_offset_x)),
  )

  y_corners :
      let oy = g.overscan_offset_y in
      let t = y1 +ℤ pos oy in
      let b = y2 +ℤ pos oy in
      (pos oy ≤ℤ t)
      × (t ≤ℤ b -ℤ pos 1)
      × (b ≤ℤ pos (g.draw.height - oy))
      × (b -ℤ pos 1 <ℤ pos g.draw.height)
  unfolding gr_fb_height
  y_corners = omega (
    arith,
    h,
    +ℤ_parts y1 (pos g.overscan_offset_y),
    +ℤ_parts y2 (pos g.overscan_offset_y),
    -ℤ_parts (y2 +ℤ pos g.overscan_offset_y) (pos 1),
    -ℤ_parts (pos g.draw.height) (pos (2 * g.overscan_offset_y)),
  )

  visible-contains :
      let ox = pos g.overscan_offset_x in
      let oy = pos g.overscan_offset_y in
      (contains g (x1 +ℤ ox) (y1 +ℤ oy) && contains g (x2 +ℤ ox -ℤ pos 1) (y2 +ℤ oy -ℤ pos 1))
      ≡ true
  visible-contains = ground (arith, x_corners, y_corners)

-- A rectangle inside the area that gr_fb_width and gr_fb_height report is drawn whole by gr_fill: each
-- of its pixels, and no other byte, takes the current colour. All of them lie inside the overscan
-- offsets, which gr_fill adds, on all four sides of the surface.
pub gr_fill-visible :
    (g : Gr) (x1 y1 x2 y2 : ℤ)
    → IsValid g
    → IsVisible g x1 y1 x2 y2
    → let ox = g.overscan_offset_x in
      let oy = g.overscan_offset_y in
      let rect = in_rect (x1 +ℤ pos ox) (y1 +ℤ pos oy) (x2 +ℤ pos ox) (y2 +ℤ pos oy) in
      Draws g
        (λ y c old. if rect (c / 4) y then tint g g.current_a (c % 4) old else old)
        (gr_fill g x1 y1 x2 y2)
      × ((x y : ℕ)
          → rect x y ≡ true
          → (ox ≤ x) × (x < g.draw.width - ox) × (oy ≤ y) × (y < g.draw.height - oy))
gr_fill-visible g x1 y1 x2 y2 v h = (
  Draws-ext (gr_fill-Draws g x1 y1 x2 y2 v) (λ y c old. rw (visible-contains g x1 y1 x2 y2 h)),
  λ x y inside. ground (arith, x_corners g x1 y1 x2 y2 h, y_corners g x1 y1 x2 y2 h),
)
