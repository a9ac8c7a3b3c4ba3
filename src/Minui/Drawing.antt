-- ===== src/Minui/Drawing.antt =====
-- The pixel writers of recovery/graphics.cpp, each as a rewrite of the four bytes of a pixel, and the
-- invariant of the drawing surface.
use android_device_samsung_c.Base.{
  ℕ, ◌+◌, ◌*◌, ◌^◌, ◌≤◌, ◌<◌, ◌≡◌, ◌≢◌, refl, ltb, ◌==◌, if◌then◌else◌, arith, Bool-cases, inl, inr,
  ==→≡, ==→≢, ltb→lt, subst, sym,
}
use android_device_samsung_c.Memory.{Mem}
use android_device_samsung_c.Memory.Painted.{Painted, Paints, write, store-write, load-byte}
use android_device_samsung_c.Minui.{
  Gr, GrSurface, mix, put_opaque, put_mixed, put_text_px, text_alpha,
}

-- A surface of four-byte pixels whose rows and bytes lie in its block of memory, which is smaller than
-- the address space.
pub record IsSurface (s : GrSurface) : Type 0 where
  pub pixel : s.pixel_bytes ≡ 4
  pub row : s.width * 4 ≤ s.row_bytes
  pub block : s.height * s.row_bytes ≤ s.bytes.size
  pub addressable : s.bytes.size < 2 ^ 32

pub record IsValid (g : Gr) : Type 0 where
  pub surface : IsSurface g.draw
  pub red : g.current_r < 256
  pub green : g.current_g < 256
  pub blue : g.current_b < 256
  pub alpha : g.current_a < 256

-- The current colour's component in byte `k` of a pixel.
abbrev pub channel : Gr → ℕ → ℕ
channel g k = if k == 0 then g.current_r else if k == 1 then g.current_g else g.current_b

-- What drawing with opacity `a` makes of byte `k` of a pixel: its fourth byte stays, the others go to
-- the colour at full opacity, stay at none, and are a weighted mean in between.
abbrev pub tint : Gr → (a k old : ℕ) → ℕ
tint g a k old =
    if k == 3
    then old
    else if a == 255
    then channel g k
    else if ltb 0 a
    then mix a (channel g k) old
    else old

-- Three bytes written at a pixel.
abbrev write_rgb : Mem → (d r g b : ℕ) → Mem
write_rgb m d r g b = write (write (write m d r) (d + 1) g) (d + 2) b

write_rgb-Painted :
    (m : Mem) (f : ℕ → ℕ → ℕ) (d r g b : ℕ)
    → r ≡ f 0 (m.byte d)
    → g ≡ f 1 (m.byte (d + 1))
    → b ≡ f 2 (m.byte (d + 2))
    → ((old : ℕ) → f 3 old ≡ old)
    → Painted 4 f d m (write_rgb m d r g b)
write_rgb-Painted m f d r g b er eg eb keep = record {
  size = refl;
  inside = λ t h. ground (arith, keep (m.byte (d + 3)));
  outside = λ i o. ground arith;
}

pub opaque-Paints : (g : Gr) (d : ℕ) → Paints 4 (tint g 255) (put_opaque g d) d
unfolding put_opaque
opaque-Paints g d m fits = (
  write_rgb m d g.current_r g.current_g g.current_b,
  let m1 = write m d g.current_r in
      let m2 = write m1 (d + 1) g.current_g in
      ground (
        arith,
        store-write m d g.current_r,
        store-write m1 (d + 1) g.current_g,
        store-write m2 (d + 2) g.current_b,
      ),
  write_rgb-Painted m (tint g 255) d _ _ _ refl refl refl (λ old. refl),
)

pub mixed-Paints : (g : Gr) (a d : ℕ) → 0 < a → a ≢ 255 → Paints 4 (tint g a) (put_mixed g a d) d
unfolding put_mixed
mixed-Paints g a d some_ part m fits =
    let r = mix a g.current_r (m.byte d) in
    let gr = mix a g.current_g (m.byte (d + 1)) in
    let b = mix a g.current_b (m.byte (d + 2)) in
    let m1 = write m d r in
    let m2 = write m1 (d + 1) gr in
    (
      write_rgb m d r gr b,
      ground (
        arith,
        load-byte m d,
        store-write m d r,
        load-byte m1 (d + 1),
        store-write m1 (d + 1) gr,
        load-byte m2 (d + 2),
        store-write m2 (d + 2) b,
      ),
      write_rgb-Painted m (tint g a) d r gr b (ground arith) (ground arith) (ground arith)
          (λ old. refl),
    )

-- A pixel of text takes the opacity that the byte of the glyph and the current opacity give.
pub text_px-Paints :
    (g : Gr) (src : Mem) (s d : ℕ)
    → s < src.size
    → Paints 4 (tint g (text_alpha g (src.byte s))) (put_text_px g src s d) d
unfolding put_text_px
text_px-Paints g src s d h m fits =
    let a = text_alpha g (src.byte s) in
    let read = load-byte src s h in
    elim (Bool-cases (a == 255)) [
      | inl full ↦
          let (m', e, p) = opaque-Paints g d m fits in
          (
            m',
            rw (read, full) e,
            subst (λ b. Painted 4 (tint g b) d m m') (sym (==→≡ a 255 full)) p,
          )
      | inr part ↦ elim (Bool-cases (ltb 0 a)) [
        | inl some_ ↦
            let (m', e, p) = mixed-Paints g a d (ltb→lt 0 a some_) (==→≢ a 255 part) m fits in
            (m', rw (read, part, some_) e, p)
        | inr none_ ↦ (
          m,
          rw (read, part, none_),
          record { size = refl; inside = λ t ht. ground arith; outside = λ i o. refl },
        )
      ]
    ]
