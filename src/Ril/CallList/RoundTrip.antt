-- ===== src/Ril/CallList/RoundTrip.antt =====
-- responseCallList reads the list of calls that a modem writes.
use android_device_samsung_c.Base.{
  ℕ, ◌^◌, ◌<◌, ◌≡◌, refl, ap, List, [], ◌∷◌, map, Bool, true, false, lt→ltb, Option, none, some,
  if◌then◌else◌, length, All,
}
use android_device_samsung_c.Ril.Parcel.{
  Parcel, Item, int, string, byte_array, IsParcel, is_set, ◌>>=◌,
}
use android_device_samsung_c.Ril.CallList.{
  DriverCall, UusInfo, Framework, read_uus_info, read_uus, read_call, read_calls,
  response_call_list,
}

abbrev bit : Bool → ℕ
bit b = if b then 1 else 0

is_set-bit : (b : Bool) → is_set (bit b) ≡ b
is_set-bit true = refl
is_set-bit false = refl

-- A modem's numbers for the states of a call and for the presentations of its number; and whether a
-- call is a video call.
pub record Modem : Type 0 where
  pub clcc : (state : ℕ) → ℕ
  pub clip : (presentation : ℕ) → ℕ
  pub is_video : DriverCall → Bool

abbrev pub uus_items : Option UusInfo → List Item → List Item
uus_items none rest = int 0 ∷ rest
uus_items (some u) rest = int 1 ∷ int u.type ∷ int u.dcs ∷ byte_array (some u.user_data) ∷ rest

-- What the modem writes for a call, before the rest.
abbrev pub call_items : Modem → DriverCall → List Item → List Item
call_items modem c rest =
    int (modem.clcc c.state)
    ∷ int c.index
    ∷ int c.toa
    ∷ int (bit c.is_mpty)
    ∷ int (bit c.is_mt)
    ∷ int c.als
    ∷ int (bit c.is_voice)
    ∷ int (bit (modem.is_video c))
    ∷ int (bit c.is_voice_privacy)
    ∷ string c.number
    ∷ int (modem.clip c.number_presentation)
    ∷ string c.name
    ∷ int c.name_presentation
    ∷ uus_items c.uus_info rest

abbrev pub calls_items : Modem → List DriverCall → List Item → List Item
calls_items modem [] rest = rest
calls_items modem (c ∷ calls) rest = call_items modem c (calls_items modem calls rest)

-- The framework knows the modem's numbers.
pub record IsKnown (f : Framework) (modem : Modem) (c : DriverCall) : Type 0 where
  pub state : f.state_from_clcc (modem.clcc c.state) ≡ some c.state
  pub presentation :
      f.presentation_from_clip (modem.clip c.number_presentation) ≡ some c.number_presentation

-- The number, with a leading + where its type asks for it.
abbrev pub formatted : Framework → DriverCall → DriverCall
formatted f c = record c { number = f.string_from_string_and_toa c.number c.toa }

module _ {P : Type 0} (parcel : Parcel P) (write : List Item → P) (w : IsParcel parcel write)
    (f : Framework) where
  pub read_uus_info-items :
      (u : UusInfo) (rest : List Item)
      → read_uus_info parcel f
          (write (int u.type ∷ int u.dcs ∷ byte_array (some u.user_data) ∷ rest))
        ≡ some (u, write rest)
  unfolding read_uus_info
  read_uus_info-items u rest = simp (w.int, w.byte_array)

module _ {P : Type 0} (parcel : Parcel P) (write : List Item → P) (w : IsParcel parcel write)
    (f : Framework) (modem : Modem) where
  read_uus-items :
      (u : Option UusInfo) (rest : List Item)
      → (n : ℕ) × (items : List Item) × (uus_items u rest ≡ int n ∷ items)
        × (read_uus parcel f n (write items) ≡ some (u, write rest))
  unfolding read_uus
  read_uus-items none rest = (0, rest, refl, refl)
  read_uus-items (some u) rest = (
    1,
    _,
    refl,
    ap
        (λ r. elim r as (λ r. Option (Option UusInfo × P)) [
          | none ↦ none
          | some (i, p) ↦ some (some i, p)
        ])
        (read_uus_info-items parcel write w f u rest),
  )

  read_call-items :
      (c : DriverCall) (rest : List Item)
      → IsKnown f modem c
      → read_call parcel f (write (call_items modem c rest)) ≡ some (formatted f c, write rest)
  unfolding read_call
  read_call-items c rest known =
      let (n, items, e, r) = read_uus-items c.uus_info rest in
      simp (w.int, w.string, known.state, known.presentation, is_set-bit, e) (rw (◌>>=◌, r))

  read_calls-items :
      (calls : List DriverCall) (rest : List Item)
      → All (IsKnown f modem) calls
      → read_calls parcel f (length calls) (write (calls_items modem calls rest))
        ≡ some (map (formatted f) calls, write rest)
  unfolding read_calls
  read_calls-items [] rest known = refl
  read_calls-items (c ∷ calls) rest (known, others) =
      rw
        (
          ◌>>=◌,
          read_call-items c (calls_items modem calls rest) known,
          read_calls-items calls rest others,
        )
        refl

  privacy-formatted :
      (calls : List DriverCall)
      → map (λ c. c.is_voice_privacy) (map (formatted f) calls)
        ≡ map (λ c. c.is_voice_privacy) calls
  privacy-formatted [] = refl
  privacy-formatted (c ∷ calls) = ap (λ bs. c.is_voice_privacy ∷ bs) (privacy-formatted calls)

  -- From a parcel that a modem wrote, fewer than 2 ^ 31 calls whose states and presentations the
  -- framework knows, responseCallList throws nothing: it returns all of these calls, sorted, with
  -- their numbers formatted, tells for each whether voice privacy is on, and leaves the parcel
  -- behind the last one.
  pub response_call_list-items :
      (calls : List DriverCall) (rest : List Item)
      → length calls < 2 ^ 31
      → All (IsKnown f modem) calls
      → response_call_list parcel f (write (int (length calls) ∷ calls_items modem calls rest))
        ≡ some ((f.sort (map (formatted f) calls), map (λ c. c.is_voice_privacy) calls), write rest)
  unfolding response_call_list
  response_call_list-items calls rest h known =
      rw
        (
          w.int (length calls) (calls_items modem calls rest),
          lt→ltb (length calls) (2 ^ 31) h,
          ◌>>=◌,
          read_calls-items calls rest known,
          privacy-formatted calls,
        )
        refl
