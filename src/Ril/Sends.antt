-- ===== src/Ril/Sends.antt =====
-- The requests that configs/ril/SamsungU8500RIL.java sends, or does not send, besides those for the
-- preferred network type and the SIM card: dial, getVoiceRadioTechnology,
-- getCdmaSubscriptionSource, and getRadioCapability, which answers at once. A request is sent with
-- the items that are written.
pub mod Dialled
use Prim.Native.String.{String}
use android_device_samsung_c.Base.{ℕ, List, [], ◌∷◌, Option, none, some, if◌then◌else◌}
use android_device_samsung_c.Word.{slt}
use android_device_samsung_c.Ril.Parcel.{Item, int, string, byte_array}
use android_device_samsung_c.Ril.Requests.{Request, dial, voice_radio_tech}
use android_device_samsung_c.Ril.Solicited.{RilRequest, Answer, answered, to_message}

-- A UUSInfo of the caller, whose data may be null.
pub record DialInfo : Type 0 where
  pub type : ℕ
  pub dcs : ℕ
  pub user_data : Option (List ℕ)

abbrev pub info_items : Option DialInfo → List Item
info_items none = int 0 ∷ []
info_items (some u) = int 1 ∷ int u.type ∷ int u.dcs ∷ byte_array u.user_data ∷ []

unfoldable pub dial_call :
    (address : Option String) (clir_mode : ℕ) (uus_info : Option DialInfo) (result : Option ℕ)
    → RilRequest × List Item
dial_call address clir_mode uus_info result = (
  record { request = dial; result = result },
  string address ∷ int clir_mode ∷ int 0 ∷ info_items uus_info,
)

-- The version of the RIL is an `int`.
unfoldable pub get_voice_radio_technology :
    (ril_version : ℕ) (result : Option ℕ) → List (RilRequest × List Item)
get_voice_radio_technology ril_version result =
    if slt ril_version 7
    then []
    else (record { request = voice_radio_tech; result = result }, []) ∷ []

unfoldable pub get_cdma_subscription_source : (response : Option ℕ) → List (RilRequest × List Item)
get_cdma_subscription_source response = []

-- `static` is what makeStaticRadioCapability of the superclass makes.
unfoldable pub get_radio_capability :
    {R : Type 0} → (static : R) (response : Option ℕ) → List (Answer R)
get_radio_capability static response = to_message response (λ m. answered m (some static))
