-- ===== src/Ril/Answers/Calls.antt =====
-- The answer to the request for the current calls, from the modem's parcel to the caller.
use android_device_samsung_c.Base.{
  ℕ, ◌^◌, ◌<◌, ◌≡◌, refl, ap, ◌∙◌, List, [], ◌∷◌, map, Option, some, length, All,
}
use android_device_samsung_c.Ril.Answers.{calls, decode_answer}
use android_device_samsung_c.Ril.CallList
use android_device_samsung_c.Ril.CallList.RoundTrip.{
  Modem, calls_items, IsKnown, formatted, response_call_list-items,
}
use android_device_samsung_c.Ril.CallList.{DriverCall}
use android_device_samsung_c.Ril.Parcel.{Parcel, Item, int, IsParcel, ◌>>=◌}
use android_device_samsung_c.Ril.Requests.{Decoder, decoder_of, get_current_calls}
use android_device_samsung_c.Ril.Signal.{Properties}
use android_device_samsung_c.Ril.Solicited.{RilRequest, answered, decoded, process_solicited}
use android_device_samsung_c.Ril.Solicited.Once.{dispatched, processed-fine}

module _ {P R : Type 0} (parcel : Parcel P) (write : List Item → P) (w : IsParcel parcel write)
    (f : CallList.Framework) (props : Properties) (other : Decoder → P → Option (R × P))
    (modem : Modem) where
  -- A request for the current calls that is known, with the message m: to a modem's answer without
  -- an error, that lists fewer than 2 ^ 31 calls whose states and presentations the framework
  -- knows, processSolicited sends m exactly once, with all of these calls, sorted, and their
  -- numbers formatted; and for each call it is told whether voice privacy is on.
  pub process_solicited-calls :
      (find : ℕ → Option RilRequest) (rr : RilRequest) (m serial : ℕ) (cs : List DriverCall)
      (rest : List Item)
      → find serial ≡ some rr
      → rr.request ≡ get_current_calls
      → rr.result ≡ some m
      → length cs < 2 ^ 31
      → All (IsKnown f modem) cs
      → process_solicited parcel
          (decode_answer parcel f props other)
          find
          (write (int serial ∷ int 0 ∷ int (length cs) ∷ calls_items modem cs rest))
        ≡ (
          some rr,
          answered m
                (some (calls (f.sort (map (formatted f) cs)) (map (λ c. c.is_voice_privacy) cs)))
              ∷ [],
        )
  unfolding decoded decoder_of decode_answer
  process_solicited-calls find rr m serial cs rest known asks has h ok =
      let decode = decode_answer parcel f props other in
      let p = write (int (length cs) ∷ calls_items modem cs rest) in
      let decodes =
        ap (λ r. decoded parcel decode r p) asks
        ∙ rw (◌>>=◌, response_call_list-items parcel write w f modem cs rest h ok) refl in
      dispatched parcel decode write w find rr m serial
        (int (length cs) ∷ calls_items modem cs rest) known has 0
      ∙ ap (λ a. (some rr, a))
          (processed-fine parcel decode rr m 0 has _ p (write rest) refl decodes)
