-- ===== src/Minui/Clear.antt =====
-- gr_clear of recovery/graphics.cpp.
use android_device_samsung_c.Base.{
  ℕ, ◌+◌, ◌-◌, ◌*◌, ◌/◌, ◌%◌, ◌≤◌, ◌<◌, ◌≡◌, refl, subst, ◌∙◌, ap, inl, inr, ◌&&◌, some, Bool-cases,
  ltb, ◌==◌, if◌then◌else◌, arith,
}
use android_device_samsung_c.Memory.{Mem, within, rows, memset}
use android_device_samsung_c.Memory.Rows.{rect-at, row-Paints}
use android_device_samsung_c.Minui.{Gr, put_opaque, clear_grey, clear_pixels, gr_clear}
use android_device_samsung_c.Minui.Drawing.{IsValid, tint, opaque-Paints}
use android_device_samsung_c.Minui.Draws.{Draws, Draws-eq, Draws-ext}

-- With a grey colour every byte of the surface becomes that grey, the fourth byte of each pixel and the
-- padding of the rows too; with another the pixels take the colour and those bytes stay.
abbrev pub cleared : Gr → (y c old : ℕ) → ℕ
cleared g y c old =
    if g.current_r == g.current_g && g.current_r == g.current_b
    then g.current_r
    else if ltb (c / 4) g.draw.width
    then tint g 255 (c % 4) old
    else old

memset-all :
    (m : Mem) (v n : ℕ)
    → n ≤ m.size
    → memset m 0 v n ≡ some (record m { byte = λ i. if within 0 (0 + n) i then v else m.byte i })
unfolding memset
memset-all m v n h = ground arith

module _ (g : Gr) (v : IsValid g) where
  clear_grey-Draws : Draws g (λ y c old. g.current_r) (clear_grey g)
  unfolding clear_grey
  clear_grey-Draws =
      let n = g.draw.height * g.draw.row_bytes in
      record {
        final = record (g.draw.bytes) {
          byte = λ i. if within 0 (0 + n) i then g.current_r else g.draw.bytes.byte i;
        };
        returns = rw (memset-all g.draw.bytes g.current_r n v.surface.block);
        size = refl;
        at = λ y c hy hc. let inside : y * g.draw.row_bytes + c < n = grind arith in ground arith;
      }

  row_stride :
      4 * g.draw.width + g.draw.row_bytes - g.draw.width * g.draw.pixel_bytes ≡ g.draw.row_bytes
  row_stride = omega (arith, ap (λ (b : ℕ). g.draw.width * b) v.surface.pixel, v.surface.row)

  clear_pixels-Draws :
      Draws g
        (λ y c old. if ltb (c / 4) g.draw.width then tint g 255 (c % 4) old else old)
        (clear_pixels g)
  unfolding clear_pixels
  clear_pixels-Draws =
      let s = v.surface in
      let rb = g.draw.row_bytes in
      let w = g.draw.width in
      let (m', e, size, at) =
        rect-at (λ y d. rows (λ x. put_opaque g) 1 4 w 0 d) g.draw.height (w * 4) 1 rb 0 0 0
          g.draw.height (λ _ t. tint g 255 (t % 4)) g.draw.bytes (omega (arith, s.row))
          (omega arith) s.block
          (λ j s' d' hj es.
            row-Paints (λ x. put_opaque g) w 0 d' (λ _. tint g 255)
              (λ i s'' d'' hi _ _. opaque-Paints g d'')) in
      let start : 0 * rb + 0 ≡ 0 = omega arith in
      let e' =
        subst
          (λ d.
            rows (λ y d. rows (λ x. put_opaque g) 1 4 w 0 d) 1 rb g.draw.height 0 d g.draw.bytes
            ≡ some m')
          start e in
      record {
        final = m';
        returns = rw (row_stride, e');
        size = size;
        at = λ y c hy hc. at y c hc ∙ ground arith;
      }

-- On a valid state gr_clear never accesses memory outside the surface, and it makes every byte what
-- `cleared` says, and changes nothing else.
pub gr_clear-Draws : (g : Gr) → IsValid g → Draws g (cleared g) (gr_clear g)
unfolding gr_clear
gr_clear-Draws g v = elim (Bool-cases (g.current_r == g.current_g && g.current_r == g.current_b)) [
  | inl grey ↦ Draws-eq (Draws-ext (clear_grey-Draws g v) (λ y c old. rw grey)) (rw grey)
  | inr other ↦ Draws-eq (Draws-ext (clear_pixels-Draws g v) (λ y c old. rw other)) (rw other)
]
