-- ===== src/Ril/Sends/Dialled.antt =====
-- What dial writes, read with the class's own function for the UUS information of a call.
use Prim.Native.String.{String}
use android_device_samsung_c.Base.{ℕ, ◌≡◌, refl, List, ◌++◌, Option, none, some}
use android_device_samsung_c.Ril.CallList
use android_device_samsung_c.Ril.CallList.{UusInfo, read_uus}
use android_device_samsung_c.Ril.CallList.RoundTrip.{read_uus_info-items}
use android_device_samsung_c.Ril.Parcel.{Parcel, Item, IsParcel, ◌>>=◌, give, read_int, read_string}
use android_device_samsung_c.Ril.Requests.{dial}
use android_device_samsung_c.Ril.Sends.{DialInfo, dial_call}

-- The callee's side: the address, the CLIR mode, an unused number and the UUS information.
abbrev pub read_dialled :
    {P : Type 0}
    → Parcel P
    → CallList.Framework
    → P
    → Option ((Option String × ℕ × Option UusInfo) × P)
read_dialled parcel f = do
  address ← read_string parcel
  clir_mode ← read_int parcel
  unused ← read_int parcel
  present ← read_int parcel
  info ← read_uus parcel f present
  give (address, clir_mode, info)

abbrev pub dial_info : Option UusInfo → Option DialInfo
dial_info none = none
dial_info (some u) = some (record { type = u.type; dcs = u.dcs; user_data = some u.user_data })

-- Where the data of the UUS information is not null, and whatever comes behind them, the items that
-- dial writes are read again by the function that reads the UUS information of a call in
-- responseCallList, and the request is sent for the caller's message.
pub dial_call-read :
    {P : Type 0} (parcel : Parcel P) (write : List Item → P) (f : CallList.Framework)
    (address : Option String) (clir_mode : ℕ) (info : Option UusInfo) (result : Option ℕ)
    (rest : List Item)
    → IsParcel parcel write
    → let (rr, items) = dial_call address clir_mode (dial_info info) result in
      (rr ≡ record { request = dial; result = result })
      × (read_dialled parcel f (write (items ++ rest))
          ≡ some ((address, clir_mode, info), write rest))
unfolding dial_call read_uus
dial_call-read parcel write f address clir_mode none result rest w =
    (refl, simp (w.string, w.int) refl)
dial_call-read parcel write f address clir_mode (some u) result rest w =
    (refl, simp (w.string, w.int) (rw (◌>>=◌, read_uus_info-items parcel write w f u rest) refl))
