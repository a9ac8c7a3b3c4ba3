-- ===== src/Ril/Solicited/Once.antt =====
-- How often and how processSolicited answers a request.
use android_device_samsung_c.Base.{
  ℕ, ◌≡◌, ◌≢◌, refl, ap, ◌∙◌, ◌⊎◌, inl, inr, List, [], ◌∷◌, true, false, ◌&&◌, ltb, lt→ltb, ◌<◌,
  ◌==◌, ==→≡, ==→≢, Option, none, some, Bool-cases, Option-cases, arith,
}
use android_device_samsung_c.Ril.Parcel.{Parcel, Item, int, IsParcel}
use android_device_samsung_c.Ril.Requests.{Decoder, sms, send_sms, decoder_of, is_send_sms}
use android_device_samsung_c.Ril.Solicited.{
  RilRequest, Answer, answered, thrown, on_error, to_message, decoded, finished, processed,
  process_solicited,
}

-- An answer goes to the request rr with the message m.
abbrev pub IsFor : {R : Type 0} → (rr : RilRequest) (m : ℕ) → Answer R → Type 0
IsFor rr m (answered m' ret) = m' ≡ m
IsFor rr m (thrown m') = m' ≡ m
IsFor rr m (on_error rr' error ret) = rr' ≡ rr

-- What was decoded, if anything was.
abbrev pub value : {P R : Type 0} → Option (R × P) → Option R
value none = none
value (some (ret, p)) = some ret

-- A success without an error is what was decoded, d; with one it is for a send-SMS request with the
-- error -1. An exception comes where nothing was decoded, and an error that is told is the modem's.
abbrev pub IsTrue :
    {P R : Type 0} → (rr : RilRequest) (error : ℕ) (d : Option (R × P)) → Answer R → Type 0
IsTrue rr error d (answered m ret) =
    ((error ≡ 0) × (ret ≡ value d)) ⊎ ((error ≡ 4294967295) × (is_send_sms rr.request ≡ true))
IsTrue rr error d (thrown m) = d ≡ none
IsTrue rr error d (on_error rr' error' ret) = (error' ≡ error) × (error ≢ 0)

abbrev pub Once :
    {P R : Type 0} → (rr : RilRequest) (m error : ℕ) (d : Option (R × P)) → List (Answer R) → Type 0
Once {P} {R} rr m error d answers =
    (a : Answer R) × (answers ≡ a ∷ []) × IsFor rr m a × IsTrue rr error d a

module _ {P R : Type 0} (parcel : Parcel P) (decode : Decoder → P → Option (R × P))
    (rr : RilRequest) (m error : ℕ) (has : rr.result ≡ some m) where
  told : (f : ℕ → Answer R) → to_message rr.result f ≡ f m ∷ []
  told f = ap (λ r. to_message r f) has

  finished-fine :
      (ret : Option R) (p : P)
      → (error == 0) ≡ true
      → finished parcel decode rr error ret p ≡ answered m ret ∷ []
  unfolding finished
  finished-fine ret p fine = rw fine (told _)

  pub processed-fine :
      (ret : R) (p p' : P)
      → (error == 0) ≡ true
      → decoded parcel decode rr.request p ≡ some (ret, p')
      → processed parcel decode rr error p ≡ answered m (some ret) ∷ []
  unfolding processed
  processed-fine ret p p' fine e = rw (fine, e) (finished-fine (some ret) p' fine)

  failed-Once :
      (ret : Option R) (d : Option (R × P)) (p : P)
      → (error == 0) ≡ false
      → Once rr m error d (finished parcel decode rr error ret p)
  unfolding finished
  failed-Once ret d p bad = elim (Bool-cases ((error == 4294967295) && is_send_sms rr.request)) [
    | inr plain ↦ (on_error rr error ret, rw (bad, plain) refl, refl, (refl, ==→≢ error 0 bad))
    | inl quirk ↦ elim (Option-cases (decode sms p)) [
      | inl e ↦ (on_error rr error ret, rw (bad, quirk, e) refl, refl, (refl, ==→≢ error 0 bad))
      | inr ((ret', p'), e) ↦
          (answered m (some ret'), rw (bad, quirk, e) (told _), refl, inr (ground arith))
    ]
  ]

  processed-Once :
      (p : P)
      → Once rr m error (decoded parcel decode rr.request p) (processed parcel decode rr error p)
  unfolding processed
  processed-Once p = elim (Bool-cases (error == 0)) [
    | inl fine ↦ elim (Option-cases (decoded parcel decode rr.request p)) [
      | inl e ↦ (thrown m, rw (fine, e) (told _), refl, e)
      | inr ((ret, p'), e) ↦ (
        answered m (some ret),
        rw (fine, e) (finished-fine (some ret) p' fine),
        refl,
        inl (==→≡ error 0 fine, rw e refl),
      )
    ]
    | inr bad ↦ elim (Bool-cases (ltb 0 (parcel.data_avail p))) [
      | inr empty ↦ rw (bad, empty) (failed-Once none (decoded parcel decode rr.request p) p bad)
      | inl full ↦ elim (Option-cases (decoded parcel decode rr.request p)) [
        | inl e ↦ (thrown m, rw (bad, full, e) (told _), refl, e)
        | inr ((ret, p'), e) ↦ rw (bad, full, e) (failed-Once (some ret) (some (ret, p')) p' bad)
      ]
    ]
  ]

  processed-payload :
      (first : R) (p rest : P)
      → 0 < parcel.data_avail p
      → decoded parcel decode rr.request p ≡ some (first, rest)
      → processed parcel decode rr error p ≡ finished parcel decode rr error (some first) rest
  unfolding processed
  processed-payload first p rest payload reads = elim (Bool-cases (error == 0)) [
    | inl fine ↦ rw (fine, reads) refl
    | inr bad ↦ rw (bad, lt→ltb 0 (parcel.data_avail p) payload, reads) refl
  ]

  finished-sms :
      (first : R) (p : P)
      → is_send_sms rr.request ≡ true
      → finished parcel decode rr 4294967295 (some first) p ≡ (elim (decode sms p) [
        | none ↦ on_error rr 4294967295 (some first) ∷ []
        | some (second, rest) ↦ answered m (some second) ∷ []
      ])
  unfolding finished
  finished-sms first p sending = elim (Option-cases (decode sms p)) [
    | inl e ↦ rw (sending, e) refl
    | inr ((second, rest), e) ↦ rw (sending, e) (told _)
  ]

module _ {P R : Type 0} (parcel : Parcel P) (decode : Decoder → P → Option (R × P))
    (write : List Item → P) (w : IsParcel parcel write) (find : ℕ → Option RilRequest)
    (rr : RilRequest) (m serial : ℕ) (items : List Item) (known : find serial ≡ some rr)
    (has : rr.result ≡ some m) where
  pub dispatched :
      (error : ℕ)
      → process_solicited parcel decode find (write (int serial ∷ int error ∷ items))
        ≡ (some rr, processed parcel decode rr error (write items))
  unfolding process_solicited
  dispatched error =
      rw
        (
          process_solicited,
          w.int serial (int error ∷ items),
          known,
          w.int serial (int error ∷ items),
          w.int error items,
        )
        refl

  -- An answer of the modem to a request that is known, whose message is m, leads to exactly one
  -- answer, which goes to that message or is told to the request as an error. Without an error it
  -- is what the switch decodes; it is an exception only where nothing can be decoded; the error
  -- that is told is the modem's; and a success in spite of an error is only for a send-SMS request
  -- and the error -1.
  pub process_solicited-Once :
      (error : ℕ)
      → ((process_solicited parcel decode find (write (int serial ∷ int error ∷ items))).0
          ≡ some rr)
        × Once rr m error
            (decoded parcel decode rr.request (write items))
            (process_solicited parcel decode find (write (int serial ∷ int error ∷ items))).1
  process_solicited-Once error =
      rw (dispatched error) (refl, processed-Once parcel decode rr m error has (write items))

  -- The answer to a send-SMS request with the error -1 is decoded twice, where it has a payload:
  -- what the caller gets is decoded from the rest behind the payload, and what the payload says is
  -- lost, unless nothing can be decoded from the rest; then it is told together with the error.
  pub process_solicited-sms_twice :
      (first : R) (p : P)
      → rr.request ≡ send_sms
      → 0 < parcel.data_avail (write items)
      → decode sms (write items) ≡ some (first, p)
      → (process_solicited parcel decode find (write (int serial ∷ int 4294967295 ∷ items))).1
        ≡ (elim (decode sms p) [
          | none ↦ on_error rr 4294967295 (some first) ∷ []
          | some (second, rest) ↦ answered m (some second) ∷ []
        ])
  unfolding decoded decoder_of is_send_sms
  process_solicited-sms_twice first p sending payload reads =
      let sms_decoded = ap (λ r. decoded parcel decode r (write items)) sending ∙ reads in
      rw (dispatched 4294967295) (
        processed-payload parcel decode rr m 4294967295 has first (write items) p payload
          sms_decoded
        ∙ finished-sms parcel decode rr m 4294967295 has first p (ap is_send_sms sending))
