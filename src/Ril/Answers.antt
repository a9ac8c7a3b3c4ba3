-- ===== src/Ril/Answers.antt =====
-- The functions of configs/ril/SamsungU8500RIL.java that decode an answer, as the switch of
-- processSolicited calls them; `other` decodes what the superclass decodes.
-- responseGetPreferredNetworkType, which changes the state as well, is in Ril.Unsolicited; here it
-- counts as one of the others.
pub mod Calls
use android_device_samsung_c.Base.{ℕ, List, Bool, Option, none, some}
use android_device_samsung_c.Ril.CallList
use android_device_samsung_c.Ril.CallList.{DriverCall, response_call_list}
use android_device_samsung_c.Ril.FailCause.{FailCause, response_fail_cause}
use android_device_samsung_c.Ril.Parcel.{Parcel, ◌>>=◌, give}
use android_device_samsung_c.Ril.Requests.{Decoder, call_list, fail_cause, signal_strength}
use android_device_samsung_c.Ril.Signal.{Strength, Properties, response_signal_strength}

pub data Value (R : Type 0) : Type 0 where
  calls : List DriverCall → (privacy : List Bool) → Value R
  cause : FailCause → Value R
  signal : Strength → Value R
  other_value : R → Value R

module _ {P R : Type 0} (parcel : Parcel P) (f : CallList.Framework) (props : Properties)
    (other : Decoder → P → Option (R × P)) where
  unfoldable pub decode_answer : Decoder → P → Option (Value R × P)
  decode_answer call_list = do
    (sorted, privacy) ← response_call_list parcel f
    give (calls sorted privacy)
  decode_answer fail_cause = do c ← response_fail_cause parcel; give (cause c)
  decode_answer signal_strength = do s ← response_signal_strength parcel props; give (signal s)
  decode_answer d = do r ← other d; give (other_value r)
