-- ===== src/Ril/Signal.antt =====
-- responseSignalStrength of configs/ril/SamsungU8500RIL.java: the strengths that the modem answers, as
-- the framework wants them. An `int` is its 32-bit pattern.
pub mod Range
use android_device_samsung_c.Base.{
  ℕ, zero, suc, ◌*◌, ◌/◌, ◌%◌, ◌^◌, List, [], ◌∷◌, Bool, true, false, ◌||◌, not, ltb, Option, none,
  some, if◌then◌else◌,
}
use android_device_samsung_c.Word.{◌-32◌}
use android_device_samsung_c.Ril.Parcel.{Parcel, ◌>>=◌, give, or_throw, read_int}

-- The arguments of SignalStrength's constructor.
pub record SignalStrength : Type 0 where
  pub gsm_signal_strength : ℕ
  pub gsm_bit_error_rate : ℕ
  pub cdma_dbm : ℕ
  pub cdma_ecio : ℕ
  pub evdo_dbm : ℕ
  pub evdo_ecio : ℕ
  pub evdo_snr : ℕ
  pub is_gsm : Bool

-- The twelve numbers as they are, or the framework's object.
pub data Strength : Type 0 where
  ints : List ℕ → Strength
  strength : SignalStrength → Strength

-- mSignalbarCount and mIsSamsungCdma, read from the system properties.
pub record Properties : Type 0 where
  pub signalbar_count : Bool
  pub is_samsung_cdma : Bool

abbrev pub negative : ℕ → Bool
negative x = not (ltb x (2 ^ 31))

-- (x < 0) ? -missing : -x
abbrev pub negated : (missing x : ℕ) → ℕ
negated missing x = if negative x then 0 -32 missing else 0 -32 x

-- Samsung sends the count of bars, or a strength. ((x & 0xFF00) >> 8) * 3, or x & 0xFF
abbrev pub gsm_strength : (signalbar_count : Bool) → ℕ → ℕ
gsm_strength true x = x / 256 % 256 * 3
gsm_strength false x = x % 256

abbrev pub snr : ℕ → ℕ
snr x = if negative x || ltb 8 x then 0 -32 1 else x

unfoldable pub matched : Properties → List ℕ → Option Strength
matched props (r0 ∷ r1 ∷ r2 ∷ r3 ∷ r4 ∷ r5 ∷ r6 ∷ rest) =
    if props.is_samsung_cdma
    then some (ints (r0 ∷ r1 ∷ r2 ∷ r3 ∷ r4 ∷ r5 ∷ r6 ∷ rest))
    else some (
        strength (record {
          gsm_signal_strength = gsm_strength props.signalbar_count r0;
          gsm_bit_error_rate = 0 -32 1;
          cdma_dbm = negated 120 r2;
          cdma_ecio = negated 160 r3;
          evdo_dbm = negated 120 r4;
          evdo_ecio = negated 1 r5;
          evdo_snr = snr r6;
          is_gsm = not props.is_samsung_cdma;
        }))
matched props short = none

module _ {P : Type 0} (parcel : Parcel P) where
  unfoldable pub read_ints : (left : ℕ) → P → Option (List ℕ × P)
  read_ints zero = give []
  read_ints (suc left) = do n ← read_int parcel; ns ← read_ints left; give (n ∷ ns)

  unfoldable pub response_signal_strength : Properties → P → Option (Strength × P)
  response_signal_strength props = do response ← read_ints 12; or_throw (matched props response)
