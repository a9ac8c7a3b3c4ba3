-- ===== src/Ril/Solicited.antt =====
-- processSolicited of configs/ril/SamsungU8500RIL.java: the modem's answer to a request.
-- findAndRemoveRequestFromList and onError are the superclass's; so are most of the functions that
-- decode an answer, which are a parameter here, with those of the class. A null object is `none`,
-- and so is a message that is null.
pub mod Once
use android_device_samsung_c.Base.{
  ℕ, List, [], ◌∷◌, Bool, true, false, ◌&&◌, ◌||◌, not, ltb, ◌==◌, Option, none, some,
  if◌then◌else◌,
}
use android_device_samsung_c.Ril.Parcel.{Parcel}
use android_device_samsung_c.Ril.Requests.{Request, Decoder, sms, decoder_of, is_send_sms}

pub record RilRequest : Type 0 where
  pub request : Request
  pub result : Option ℕ

pub data Answer (R : Type 0) : Type 0 where
  answered : (message : ℕ) (ret : Option R) → Answer R
  thrown : (message : ℕ) → Answer R
  on_error : RilRequest → (error : ℕ) (ret : Option R) → Answer R

-- if (rr.mResult != null)
abbrev pub to_message : {R : Type 0} → Option ℕ → (ℕ → Answer R) → List (Answer R)
to_message none answer = []
to_message (some m) answer = answer m ∷ []

module _ {P R : Type 0} (parcel : Parcel P) (decode : Decoder → P → Option (R × P)) where
  unfoldable pub decoded : Request → P → Option (R × P)
  decoded request p = elim (decoder_of request) [ none ↦ none | some d ↦ decode d p ]

  -- Behind the switch.
  unfoldable pub finished : RilRequest → (error : ℕ) (ret : Option R) → P → List (Answer R)
  finished rr error ret p =
      if error == 0
      then to_message rr.result (λ m. answered m ret)
      else if not ((error == 4294967295) && is_send_sms rr.request)
      then on_error rr error ret ∷ []
      else (elim (decode sms p) [
        | none ↦ on_error rr error ret ∷ []
        | some (ret', p') ↦ to_message rr.result (λ m. answered m (some ret'))
      ])

  unfoldable pub processed : RilRequest → (error : ℕ) → P → List (Answer R)
  processed rr error p =
      if (error == 0) || ltb 0 (parcel.data_avail p)
      then (elim (decoded rr.request p) [
        | none ↦ to_message rr.result (λ m. thrown m)
        | some (ret, p') ↦ finished rr error (some ret) p'
      ])
      else finished rr error none p

  -- `find` is findAndRemoveRequestFromList.
  unfoldable pub process_solicited :
      (find : (serial : ℕ) → Option RilRequest) → P → Option RilRequest × List (Answer R)
  process_solicited find p =
      let (serial, p1) = parcel.read_int p in
      let (error, p2) = parcel.read_int p1 in
      elim (find serial) [ none ↦ (none, []) | some rr ↦ (some rr, processed rr error p2) ]
