-- ===== src/Ril/FailCause.antt =====
-- responseFailCause of configs/ril/SamsungU8500RIL.java: why the last call failed.
pub mod RoundTrip
use Prim.Native.String.{String}
use android_device_samsung_c.Base.{ℕ, ◌^◌, List, [], ◌∷◌, ltb, Option, none, some, if◌then◌else◌}
use android_device_samsung_c.Ril.Parcel.{Parcel, ◌>>=◌, give, or_throw, read_int, read_string}
use android_device_samsung_c.Ril.Signal.{read_ints}

-- A LastCallFailCause, whose vendor's cause is null at first.
pub record FailCause : Type 0 where
  pub cause_code : ℕ
  pub vendor_cause : Option String

-- response[0]
abbrev pub first_int : List ℕ → Option ℕ
first_int [] = none
first_int (n ∷ ns) = some n

module _ {P : Type 0} (parcel : Parcel P) where
  unfoldable pub read_vendor : P → Option (Option String × P)
  read_vendor p = if ltb 0 (parcel.data_avail p) then read_string parcel p else some (none, p)

  -- The room for a negative number of causes throws.
  unfoldable pub response_fail_cause : P → Option (FailCause × P)
  response_fail_cause = do
    num ← read_int parcel
    response ← if ltb num (2 ^ 31) then read_ints parcel num else or_throw none
    cause ← or_throw (first_int response)
    vendor ← read_vendor
    give (record { cause_code = cause; vendor_cause = vendor })
