-- ===== src/Ril/Session/Types.antt =====
-- Which network types the modem is told, over any sequence of events.
use android_device_samsung_c.Base.{ℕ, ◌≡◌, List, [], ◌∷◌, ◌++◌, Option, none, some, if◌then◌else◌}
use android_device_samsung_c.Ril.{Ril}
use android_device_samsung_c.Ril.Parcel.{Parcel}
use android_device_samsung_c.Ril.Session.{Event, call, message, request_status, type_answer}
use android_device_samsung_c.Ril.Steps.{IsIdle}
use android_device_samsung_c.Ril.Switch.{IsServable}
use android_device_samsung_c.Ril.Unsolicited.{Phone, Told, Super}
use android_device_samsung_c.Ril.Session.Tells.{sent_types, is_connection}

module _ {P : Type 0} (parcel : Parcel P) (super : Super P) where
  -- An event tells the modem some types, from one that is preferred, and leaves one preferred.
  unfoldable pub event_types : Event P → ℕ → List ℕ × ℕ
  event_types (call c) preferred = (c.network_type ∷ [], c.network_type)
  event_types (message p) preferred =
      (if is_connection parcel super p then preferred ∷ [] else [], preferred)
  event_types (request_status m) preferred = ([], preferred)
  event_types (type_answer p) preferred = elim (super.response_ints p) [
    | none ↦ ([], preferred)
    | some ([], rest) ↦ ([], preferred)
    | some (n ∷ ns, rest) ↦ ([], n)
  ]

  unfoldable pub all_types : List (Event P) → ℕ → List ℕ × ℕ
  all_types [] preferred = ([], preferred)
  all_types (e ∷ events) preferred =
      let (first, preferred) = event_types e preferred in
      let (rest, preferred) = all_types events preferred in (first ++ rest, preferred)

module _ {P : Type 0} (parcel : Parcel P) (super : Super P) (global wcdma_pref : ℕ) where
  -- The class does not fail; it told the modem ts, and `preferred` is left.
  abbrev pub Comes : (r : Option (Phone × List Told)) (types : List ℕ × ℕ) → Type 0
  Comes r types =
      (s : Phone) × (told : List Told) × (r ≡ some (s, told))
      × (sent_types told ≡ types.0)
      × (s.ril.preferred_network_type ≡ types.1)
      × IsIdle s.ril

  abbrev pub IsFit : Event P → Type 0
  IsFit (call c) = IsServable c
  IsFit other = Unit
