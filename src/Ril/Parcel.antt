-- ===== src/Ril/Parcel.antt =====
-- What configs/ril/SamsungU8500RIL.java uses of android.os.Parcel, which is not in the repository: a
-- type P of parcels to read from, with the functions that it calls. An `int` is its 32-bit
-- pattern. A decoder reads from a parcel; an exception that it throws is `none`.
use Prim.Native.String.{String}
use android_device_samsung_c.Base.{ℕ, ◌≡◌, List, ◌∷◌, Bool, ◌==◌, not, Option, none, some}

pub record Parcel (P : Type 0) : Type 0 where
  pub read_int : P → ℕ × P
  pub read_string : P → Option String × P
  pub create_byte_array : P → Option (List ℕ) × P
  pub data_avail : P → ℕ

-- What is written into a parcel.
pub data Item : Type 0 where
  int : ℕ → Item
  string : Option String → Item
  byte_array : Option (List ℕ) → Item

-- What is written, in the order in which it is written, is read again; `write` makes a parcel of it.
pub record IsParcel {P : Type 0} (parcel : Parcel P) (write : List Item → P) : Type 0 where
  pub int : (n : ℕ) (items : List Item) → parcel.read_int (write (int n ∷ items)) ≡ (n, write items)
  pub string :
      (s : Option String) (items : List Item)
      → parcel.read_string (write (string s ∷ items)) ≡ (s, write items)
  pub byte_array :
      (a : Option (List ℕ)) (items : List Item)
      → parcel.create_byte_array (write (byte_array a ∷ items)) ≡ (a, write items)

infixl 5 ◌>>=◌
abbrev pub ◌>>=◌ :
    {P A B : Type 0} → (P → Option (A × P)) → (A → P → Option (B × P)) → P → Option (B × P)
◌>>=◌ m f p = elim (m p) [ none ↦ none | some (a, p') ↦ f a p' ]

abbrev pub give : {P A : Type 0} → A → P → Option (A × P)
give a p = some (a, p)

-- A value, or an exception.
abbrev pub or_throw : {P A : Type 0} → Option A → P → Option (A × P)
or_throw none p = none
or_throw (some a) p = some (a, p)

-- 0 != p.readInt()
abbrev pub is_set : ℕ → Bool
is_set n = not (n == 0)

module _ {P : Type 0} (parcel : Parcel P) where
  abbrev pub read_int : P → Option (ℕ × P)
  read_int p = some (parcel.read_int p)

  abbrev pub read_string : P → Option (Option String × P)
  read_string p = some (parcel.read_string p)

  abbrev pub create_byte_array : P → Option (Option (List ℕ) × P)
  create_byte_array p = some (parcel.create_byte_array p)
