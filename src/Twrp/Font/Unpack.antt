-- ===== src/Twrp/Font/Unpack.antt =====
-- The loop of gr_loadFont that unpacks the bits of the pixels.
use android_device_samsung_c.Base.{
  ℕ, zero, suc, ◌+◌, ◌-◌, ◌/◌, ◌%◌, ◌≤◌, ◌<◌, ◌≡◌, refl, ap, inl, inr, List, true, some, ltb, ◌==◌,
  if◌then◌else◌, Bool-cases, arith,
}
use android_device_samsung_c.Memory.{Mem}
use android_device_samsung_c.Memory.Painted.{
  Painted, Painted-append, Painted-ext, write, store-write,
}
use android_device_samsung_c.Twrp.Font.{pixel, put_bits, next_byte, unpack}

-- The byte that the r-th read of a file leaves in a variable that held d.
unfoldable pub held : (d : ℕ) (file : List ℕ) (r : ℕ) → ℕ
held d file zero = (next_byte d file).0
held d file (suc r) = held (next_byte d file).0 (next_byte d file).1 r

-- How many rounds of the inner loop are made.
abbrev rounds : (left room : ℕ) → ℕ
rounds left room = if ltb left room then left else room

one-Painted : (m : Mem) (pos v : ℕ) → pos < m.size → Painted 1 (λ t old. v) pos m (write m pos v)
one-Painted m pos v h = record {
  size = refl;
  inside = λ t ht. ground arith;
  outside = λ i o. ground arith;
}

shifted :
    (d left t : ℕ)
    → (if ltb t 1 then pixel d left else pixel d (left - 1 - (t - 1))) ≡ pixel d (suc left - 1 - t)
shifted d left t = elim (Bool-cases (ltb t 1)) [
  | inl here ↦ rw here (ap (pixel d) (ground arith))
  | inr later ↦ rw later (ap (pixel d) (ground arith))
]

put_bits-Painted :
    (n left d pos : ℕ) (m : Mem)
    → pos < n
    → n ≤ m.size
    → (m' : Mem) × (put_bits n left d pos m ≡ some (pos + rounds left (n - pos), m'))
      × Painted (rounds left (n - pos)) (λ t old. pixel d (left - 1 - t)) pos m m'
unfolding put_bits
put_bits-Painted n zero d pos m h k = (
  m,
  ground arith,
  record { size = refl; inside = λ t ht. absurd (ground arith); outside = λ i o. refl },
)
put_bits-Painted n (suc left) d pos m h k =
    let v = pixel d left in
    let e = store-write m pos v (omega arith) in
    let one = one-Painted m pos v (omega arith) in
    elim (Bool-cases (pos + 1 == n)) [
      | inl last ↦
          let c : rounds (suc left) (n - pos) ≡ 1 = ground arith in
          (
            write m pos v,
            rw (e, last, c) refl,
            rw c (
                Painted-ext 1 pos _ _ m (write m pos v) (λ t old ht. ap (pixel d) (omega arith))
                  one),
          )
      | inr more ↦
          let (m', e', rest) =
            put_bits-Painted n left d (pos + 1) (write m pos v) (ground arith) k in
          let c : rounds (suc left) (n - pos) ≡ 1 + rounds left (n - (pos + 1)) = ground arith in
          let at : pos + (1 + rounds left (n - (pos + 1))) ≡ pos + 1 + rounds left (n - (pos + 1)) =
            omega arith in
          (
            m',
            rw (e, more, c, at) e',
            rw c (
                Painted-ext (1 + rounds left (n - (pos + 1))) pos _ _ m m'
                  (λ t old ht. shifted d left t)
                  (Painted-append 1 (rounds left (n - (pos + 1))) pos _ _ m (write m pos v) m' one
                    rest)),
          )
    ]

-- The pixels of a stream of bytes, eight for each byte.
abbrev pub stream_pixel : (d : ℕ) (file : List ℕ) (t : ℕ) → ℕ
stream_pixel d file t = pixel (held d file (t / 8)) (7 - t % 8)

-- A byte of the stream, and behind its pixels those of the rest.
streamed :
    (d : ℕ) (file : List ℕ) (t room : ℕ)
    → t < room
    → (if ltb t (rounds 8 room)
        then pixel ((next_byte d file).0) (8 - 1 - t)
        else stream_pixel ((next_byte d file).0) ((next_byte d file).1) (t - rounds 8 room))
      ≡ stream_pixel d file t
unfolding held
streamed d file t room h = elim (Bool-cases (ltb t 8)) [
  | inl here ↦
      let hit : ltb t (rounds 8 room) ≡ true = ground arith in
      let q : t / 8 ≡ 0 = ground arith in let r : t % 8 ≡ t = ground arith in rw (hit, q, r) refl
  | inr later ↦
      let c : rounds 8 room ≡ 8 = ground arith in
      let q : t / 8 ≡ suc ((t - 8) / 8) = ground arith in
      let r : t % 8 ≡ (t - 8) % 8 = ground arith in rw (c, later, q, r) refl
]

pub unpack-Painted :
    (fuel n d : ℕ) (file : List ℕ) (pos : ℕ) (m : Mem)
    → n ≤ m.size
    → n < pos + fuel
    → pos ≤ n
    → (m' : Mem) × (unpack fuel n d file pos m ≡ some m')
      × Painted (n - pos) (λ t old. stream_pixel d file t) pos m m'
unfolding unpack held
unpack-Painted zero n d file pos m h k l = absurd (omega arith)
unpack-Painted (suc fuel) n d file pos m h k l = elim (Bool-cases (ltb pos n)) [
  | inr done ↦
      let c : n - pos ≡ 0 = ground arith in
      (
        m,
        rw done refl,
        rw c (record { size = refl; inside = λ t ht. absurd (omega arith); outside = λ i o. refl }),
      )
  | inl more ↦
      let d' = (next_byte d file).0 in
      let file' = (next_byte d file).1 in
      let q = rounds 8 (n - pos) in
      let (m1, e1, p1) = put_bits-Painted n 8 d' pos m (ground arith) h in
      let (m2, e2, p2) =
        unpack-Painted fuel n d' file' (pos + q) m1 (omega (arith, p1.size)) (ground arith)
          (ground arith) in
      let c : n - pos ≡ q + (n - (pos + q)) = ground arith in
      (
        m2,
        rw (more, e1) e2,
        rw c (
            Painted-ext (q + (n - (pos + q))) pos _ _ m m2
              (λ t old ht. streamed d file t (n - pos) (omega (arith, c)))
              (Painted-append q (n - (pos + q)) pos _ _ m m1 m2 p1 p2)),
      )
]
