-- ===== src/Ril/FailCause/RoundTrip.antt =====
-- responseFailCause reads what a modem writes.
use Prim.Native.String.{String}
use android_device_samsung_c.Base.{
  ℕ, ◌^◌, ◌<◌, ◌≡◌, refl, List, [], ◌∷◌, Option, none, some, length, lt→ltb,
}
use android_device_samsung_c.Ril.Parcel.{Parcel, Item, int, string, IsParcel, ◌>>=◌}
use android_device_samsung_c.Ril.Signal.Range.{ints_items, read_ints-items}
use android_device_samsung_c.Ril.FailCause.{read_vendor, response_fail_cause}

-- The vendor's cause, if there is one, with which the parcel ends.
abbrev pub vendor_items : Option String → List Item
vendor_items none = []
vendor_items (some s) = string (some s) ∷ []

module _ {P : Type 0} (parcel : Parcel P) (write : List Item → P) (w : IsParcel parcel write) where
  vendor-items :
      (vendor : Option String)
      → (parcel.data_avail (write []) ≡ 0)
      → ((s : String) → 0 < parcel.data_avail (write (string (some s) ∷ [])))
      → read_vendor parcel (write (vendor_items vendor)) ≡ some (vendor, write [])
  unfolding read_vendor
  vendor-items none empty full = rw empty refl
  vendor-items (some s) empty full = rw (lt→ltb 0 _ (full s)) (simp (w.string) refl)

  -- If a parcel knows whether anything is left of it: from a parcel with one cause or more, fewer than
  -- 2 ^ 31, and perhaps the vendor's cause behind them, responseFailCause throws nothing: it returns
  -- the first cause with the vendor's, or null, and leaves nothing. Without a cause it throws.
  pub response_fail_cause-items :
      (causes : List ℕ) (vendor : Option String)
      → length causes < 2 ^ 31
      → (parcel.data_avail (write []) ≡ 0)
      → ((s : String) → 0 < parcel.data_avail (write (string (some s) ∷ [])))
      → response_fail_cause parcel
          (write (int (length causes) ∷ ints_items causes (vendor_items vendor)))
        ≡ (elim causes [
          | [] ↦ none
          | cause ∷ others ↦ some (record { cause_code = cause; vendor_cause = vendor }, write [])
        ])
  unfolding response_fail_cause
  response_fail_cause-items [] vendor h empty full =
      rw
        (
          w.int 0 (vendor_items vendor),
          ◌>>=◌,
          read_ints-items parcel write w [] (vendor_items vendor),
        )
        refl
  response_fail_cause-items (cause ∷ others) vendor h empty full =
      rw
        (
          w.int (length (cause ∷ others)) (ints_items (cause ∷ others) (vendor_items vendor)),
          lt→ltb (length (cause ∷ others)) (2 ^ 31) h,
          ◌>>=◌,
          read_ints-items parcel write w (cause ∷ others) (vendor_items vendor),
          vendor-items vendor empty full,
        )
        refl
