-- ===== src/Ril/CallList.antt =====
-- responseCallList of configs/ril/SamsungU8500RIL.java, the list of calls that the modem answers.
-- DriverCall.stateFromCLCC, DriverCall.presentationFromCLIP, both of which throw at a number that
-- they do not know, PhoneNumberUtils.stringFromStringAndTOA and Collections.sort are the
-- framework's and Java's, and parameters. A value of an enumeration is its ordinal.
pub mod RoundTrip
use Prim.Native.String.{String}
use android_device_samsung_c.Base.{
  ℕ, zero, suc, ◌^◌, List, [], ◌∷◌, map, Bool, ltb, ◌==◌, Option, none, some, if◌then◌else◌,
}
use android_device_samsung_c.Ril.Parcel.{
  Parcel, ◌>>=◌, give, or_throw, is_set, read_int, read_string, create_byte_array,
}

pub record UusInfo : Type 0 where
  pub type : ℕ
  pub dcs : ℕ
  pub user_data : List ℕ

pub record DriverCall : Type 0 where
  pub state : ℕ
  pub index : ℕ
  pub toa : ℕ
  pub is_mpty : Bool
  pub is_mt : Bool
  pub als : ℕ
  pub is_voice : Bool
  pub is_voice_privacy : Bool
  pub number : Option String
  pub number_presentation : ℕ
  pub name : Option String
  pub name_presentation : ℕ
  pub uus_info : Option UusInfo

pub record Framework : Type 0 where
  pub state_from_clcc : ℕ → Option ℕ
  pub presentation_from_clip : ℕ → Option ℕ
  pub string_from_string_and_toa : Option String → (toa : ℕ) → Option String
  pub sort : List DriverCall → List DriverCall

module _ {P : Type 0} (parcel : Parcel P) (f : Framework) where
  -- The log takes the length of the user data, so a null array throws.
  unfoldable pub read_uus_info : P → Option (UusInfo × P)
  read_uus_info = do
    type ← read_int parcel
    dcs ← read_int parcel
    array ← create_byte_array parcel
    user_data ← or_throw array
    give (record { type = type; dcs = dcs; user_data = user_data })

  unfoldable pub read_uus : (present : ℕ) → P → Option (Option UusInfo × P)
  read_uus present = if present == 1 then (do info ← read_uus_info; give (some info)) else give none

  unfoldable pub read_call : P → Option (DriverCall × P)
  read_call = do
    clcc ← read_int parcel
    state ← or_throw (f.state_from_clcc clcc)
    index ← read_int parcel
    toa ← read_int parcel
    mpty ← read_int parcel
    mt ← read_int parcel
    als ← read_int parcel
    voice ← read_int parcel
    video ← read_int parcel
    privacy ← read_int parcel
    number ← read_string parcel
    np ← read_int parcel
    presentation ← or_throw (f.presentation_from_clip np)
    name ← read_string parcel
    name_presentation ← read_int parcel
    present ← read_int parcel
    uus_info ← read_uus present
    give (record {
      state = state;
      index = index;
      toa = toa;
      is_mpty = is_set mpty;
      is_mt = is_set mt;
      als = als;
      is_voice = is_set voice;
      is_voice_privacy = is_set privacy;
      number = f.string_from_string_and_toa number toa;
      number_presentation = presentation;
      name = name;
      name_presentation = name_presentation;
      uus_info = uus_info;
    })

  -- The loop over the calls.
  unfoldable pub read_calls : (left : ℕ) → P → Option (List DriverCall × P)
  read_calls zero = give []
  read_calls (suc left) = do dc ← read_call; calls ← read_calls left; give (dc ∷ calls)

  -- The sorted calls; and for each call in the order of the parcel, whether the registrants for
  -- voice privacy being on or those for its being off are notified. With an exception also what was
  -- notified before it is dropped. The room for a negative number of calls throws.
  unfoldable pub response_call_list : P → Option ((List DriverCall × List Bool) × P)
  unfolding read_calls
  response_call_list = do
    num ← read_int parcel
    calls ← if ltb num (2 ^ 31) then read_calls num else or_throw none
    give (f.sort calls, map (λ dc. dc.is_voice_privacy) calls)
