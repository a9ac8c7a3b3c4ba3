-- ===== src/Ril/Signal/Range.antt =====
-- The ranges of the strengths.
use android_device_samsung_c.Base.{
  ℕ, ◌-◌, ◌*◌, ◌/◌, ◌%◌, ◌^◌, ◌≤◌, ◌<◌, ◌≡◌, refl, subst, ◌⊎◌, List, [], ◌∷◌, true, false, some,
  length, All, arith,
}
use android_device_samsung_c.Word.{◌+32◌, ◌-32◌}
use android_device_samsung_c.Ril.Parcel.{Parcel, Item, int, IsParcel, ◌>>=◌}
use android_device_samsung_c.Ril.Signal.{
  SignalStrength, strength, Properties, negated, snr, gsm_strength, matched, read_ints,
  response_signal_strength,
}

-- As an `int`, not above 0.
abbrev pub IsNotPositive : ℕ → Type 0
IsNotPositive x = (x ≡ 0) ⊎ ((2 ^ 31 ≤ x) × (x < 2 ^ 32))

-- A strength that is given, not below 0, is negated.
abbrev pub IsNegated : (given x : ℕ) → Type 0
IsNegated given x = (2 ^ 31 ≤ given) ⊎ (x +32 given ≡ 0)

pub record IsInRange (props : Properties) (r0 r2 r3 r4 r5 r6 : ℕ) (s : SignalStrength)
    : Type 0 where
  pub bars : (props.signalbar_count ≡ false) ⊎ (s.gsm_signal_strength ≡ r0 / 256 % 256 * 3)
  pub gsm : (props.signalbar_count ≡ true) ⊎ (s.gsm_signal_strength < 256)
  pub cdma_dbm : IsNotPositive s.cdma_dbm × IsNegated r2 s.cdma_dbm
  pub cdma_ecio : IsNotPositive s.cdma_ecio × IsNegated r3 s.cdma_ecio
  pub evdo_dbm : IsNotPositive s.evdo_dbm × IsNegated r4 s.evdo_dbm
  pub evdo_ecio : IsNotPositive s.evdo_ecio × IsNegated r5 s.evdo_ecio
  pub evdo_snr : (s.evdo_snr ≡ 2 ^ 32 - 1) ⊎ ((s.evdo_snr ≤ 8) × (s.evdo_snr ≡ r6))
  pub is_gsm : s.is_gsm ≡ true

abbrev pub ints_items : List ℕ → List Item → List Item
ints_items [] rest = rest
ints_items (n ∷ ns) rest = int n ∷ ints_items ns rest

module _ {P : Type 0} (parcel : Parcel P) (write : List Item → P) (w : IsParcel parcel write) where
  pub read_ints-items :
      (ns : List ℕ) (rest : List Item)
      → read_ints parcel (length ns) (write (ints_items ns rest)) ≡ some (ns, write rest)
  unfolding read_ints
  read_ints-items [] rest = refl
  read_ints-items (n ∷ ns) rest = simp (w.int) (rw (◌>>=◌, read_ints-items ns rest) refl)

negated_lem :
    (missing x : ℕ)
    → x < 2 ^ 32
    → 0 < missing
    → missing < 2 ^ 31
    → IsNotPositive (negated missing x) × IsNegated x (negated missing x)
unfolding ◌-32◌ ◌+32◌
negated_lem missing x h p q = ground arith

snr_lem : (x : ℕ) → x < 2 ^ 32 → (snr x ≡ 2 ^ 32 - 1) ⊎ ((snr x ≤ 8) × (snr x ≡ x))
unfolding ◌-32◌
snr_lem x h = ground arith

matched-IsInRange :
    (props : Properties) (r0 r1 r2 r3 r4 r5 r6 : ℕ) (others : List ℕ)
    → props.is_samsung_cdma ≡ false
    → All (λ r. r < 2 ^ 32) (r0 ∷ r1 ∷ r2 ∷ r3 ∷ r4 ∷ r5 ∷ r6 ∷ others)
    → (s : SignalStrength) × (matched props (r0 ∷ r1 ∷ r2 ∷ r3 ∷ r4 ∷ r5 ∷ r6 ∷ others)
        ≡ some (strength s))
      × IsInRange props r0 r2 r3 r4 r5 r6 s
unfolding matched
matched-IsInRange props r0 r1 r2 r3 r4 r5 r6 others gsm
      (h0, (h1, (h2, (h3, (h4, (h5, (h6, h))))))) =
    (
      record {
        gsm_signal_strength = gsm_strength props.signalbar_count r0;
        gsm_bit_error_rate = 0 -32 1;
        cdma_dbm = negated 120 r2;
        cdma_ecio = negated 160 r3;
        evdo_dbm = negated 120 r4;
        evdo_ecio = negated 1 r5;
        evdo_snr = snr r6;
        is_gsm = true;
      },
      rw gsm refl,
      record {
        bars = ground arith;
        gsm = ground arith;
        cdma_dbm = negated_lem 120 r2 h2 (omega arith) (omega arith);
        cdma_ecio = negated_lem 160 r3 h3 (omega arith) (omega arith);
        evdo_dbm = negated_lem 120 r4 h4 (omega arith) (omega arith);
        evdo_ecio = negated_lem 1 r5 h5 (omega arith) (omega arith);
        evdo_snr = snr_lem r6 h6;
        is_gsm = refl;
      },
    )

-- From a parcel with twelve numbers, responseSignalStrength, but for Samsung's CDMA, throws nothing
-- and leaves the parcel behind them. The GSM strength is three for each bar, or below 256; the
-- strengths in dBm and the noise ratios in Ec/Io are not above 0, and the negation of what the
-- modem sent, if that is not below 0; the signal-to-noise ratio is -1, or what the modem sent and
-- at most 8.
pub response_signal_strength-IsInRange :
    {P : Type 0} (parcel : Parcel P) (write : List Item → P) (props : Properties)
    (r0 r1 r2 r3 r4 r5 r6 : ℕ) (others : List ℕ) (rest : List Item)
    → IsParcel parcel write
    → props.is_samsung_cdma ≡ false
    → length others ≡ 5
    → All (λ r. r < 2 ^ 32) (r0 ∷ r1 ∷ r2 ∷ r3 ∷ r4 ∷ r5 ∷ r6 ∷ others)
    → (s : SignalStrength) × (response_signal_strength parcel props
          (write (ints_items (r0 ∷ r1 ∷ r2 ∷ r3 ∷ r4 ∷ r5 ∷ r6 ∷ others) rest))
        ≡ some (strength s, write rest))
      × IsInRange props r0 r2 r3 r4 r5 r6 s
unfolding response_signal_strength
response_signal_strength-IsInRange parcel write props r0 r1 r2 r3 r4 r5 r6 others rest w gsm n h =
    let ns = r0 ∷ r1 ∷ r2 ∷ r3 ∷ r4 ∷ r5 ∷ r6 ∷ others in
    let twelve : length ns ≡ 12 = omega (arith, n) in
    let reads =
      subst (λ k. read_ints parcel k (write (ints_items ns rest)) ≡ some (ns, write rest)) twelve
        (read_ints-items parcel write w ns rest) in
    let (s, e, range) = matched-IsInRange props r0 r1 r2 r3 r4 r5 r6 others gsm h in
    (s, rw (◌>>=◌, reads, e) refl, range)
