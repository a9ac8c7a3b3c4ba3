-- ===== src/Tests/Parcel.antt =====
-- What the RIL class reads from parcels, at small parcels. The parcel here is the list of what is
-- left in it.
use Prim.Native.String.{String}
use android_device_samsung_c.Base.{
  ℕ, ◌≡◌, refl, List, [], ◌∷◌, Bool, true, false, Option, some, none, length, arith,
}
use android_device_samsung_c.Ril.Parcel.{Parcel, Item, int, string, byte_array, IsParcel}
use android_device_samsung_c.Ril.CallList.{UusInfo, DriverCall, response_call_list}
use android_device_samsung_c.Ril.CallList.RoundTrip.{Modem}
use android_device_samsung_c.Ril.Signal.{
  SignalStrength, strength, Properties, response_signal_strength,
}
use android_device_samsung_c.Ril.Signal.Range.{
  IsInRange, ints_items, response_signal_strength-IsInRange,
}
use android_device_samsung_c.Ril.DataCall.{DataCallResponse}
use android_device_samsung_c.Ril.DataCall.Layout.{DataCall, items}
use android_device_samsung_c.Ril

abbrev read_number : List Item → ℕ × List Item
read_number (int n ∷ rest) = (n, rest)
read_number other = (0, other)

abbrev read_text : List Item → Option String × List Item
read_text (string s ∷ rest) = (s, rest)
read_text other = (none, other)

abbrev read_bytes : List Item → Option (List ℕ) × List Item
read_bytes (byte_array a ∷ rest) = (a, rest)
read_bytes other = (none, other)

abbrev pub items_parcel : Parcel (List Item)
items_parcel = record {
  read_int = read_number;
  read_string = read_text;
  create_byte_array = read_bytes;
  data_avail = λ items. length items;
}

abbrev pub same : List Item → List Item
same items = items

pub items_parcel-IsParcel : IsParcel items_parcel same
items_parcel-IsParcel = record {
  int = λ n items. refl;
  string = λ s items. refl;
  byte_array = λ a items. refl;
}

abbrev pub calls_framework : Ril.CallList.Framework
calls_framework = record {
  state_from_clcc = λ n. some n;
  presentation_from_clip = λ n. some n;
  string_from_string_and_toa = λ s toa. s;
  sort = λ calls. calls;
}

abbrev pub modem : Modem
modem = record { clcc = λ n. n; clip = λ n. n; is_video = λ c. false }

abbrev pub plain_call : DriverCall
plain_call = record {
  state = 0;
  index = 1;
  toa = 129;
  is_mpty = false;
  is_mt = true;
  als = 0;
  is_voice = true;
  is_voice_privacy = true;
  number = some "112";
  number_presentation = 0;
  name = none;
  name_presentation = 2;
  uus_info = none;
}

abbrev pub uus_call : DriverCall
uus_call = record plain_call {
  index = 2;
  is_voice_privacy = false;
  uus_info = some (record { type = 1; dcs = 2; user_data = 7 ∷ 8 ∷ [] });
}

abbrev pub bars : Properties
bars = record { signalbar_count = true; is_samsung_cdma = false }

-- The strength in dBm is negative already, as -3; the noise ratio 9 is too high.
response_signal_strength-IsInRange_example :
    (s : SignalStrength) × (response_signal_strength items_parcel bars
        (same (ints_items (1024 ∷ 0 ∷ 4294967293 ∷ 90 ∷ 70 ∷ 0 ∷ 9 ∷ 0 ∷ 0 ∷ 0 ∷ 0 ∷ 0 ∷ []) []))
      ≡ some (strength s, []))
    × IsInRange bars 1024 4294967293 90 70 0 9 s
response_signal_strength-IsInRange_example =
    response_signal_strength-IsInRange items_parcel same bars 1024 0 4294967293 90 70 0 9
      (0 ∷ 0 ∷ 0 ∷ 0 ∷ 0 ∷ []) [] items_parcel-IsParcel refl refl
      (
        omega arith,
        (
          omega arith,
          (
            omega arith,
            (
              omega arith,
              (
                omega arith,
                (
                  omega arith,
                  (
                    omega arith,
                    (
                      omega arith,
                      (omega arith, (omega arith, (omega arith, (omega arith, record {})))),
                    ),
                  ),
                ),
              ),
            ),
          ),
        ),
      )

abbrev fresh : DataCallResponse
fresh = record {
  version = 0;
  status = 0;
  suggested_retry_time = 4294967295;
  cid = 0;
  active = 0;
  type = some "";
  ifname = some "";
  addresses = [];
  dnses = [];
  gateways = [];
  pcscf = [];
  mtu = 0;
}

abbrev is_empty : Option String → Bool
is_empty none = true
is_empty (some s) = false

abbrev split : Option String → List String
split none = []
split (some s) = s ∷ []

abbrev data_framework : Ril.DataCall.Framework
data_framework = record {
  fresh = fresh;
  needs_old_ril_feature = λ feature. false;
  is_empty = is_empty;
  split = split;
  iface = none;
  no_cause = 0;
}

abbrev data_call : DataCall
data_call = record {
  status = 0;
  retry = 3;
  cid = 1;
  active = 2;
  type = some "IP";
  ifname = some "rmnet0";
  addresses = some "10.0.0.2";
  dnses = none;
  gateways = some "10.0.0.1";
  pcscf = some "10.0.0.9";
  mtu = 1500;
}
