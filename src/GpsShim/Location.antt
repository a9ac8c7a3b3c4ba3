-- ===== src/GpsShim/Location.antt =====
-- shim_set_ref_location of shims/libgps-shim/gps.c, and the two structures of gps.h. The union of a
-- location is seen through its cellID member; its mac member is the first six bytes of it. On the
-- 32-bit ARM the caller's structure has 20 bytes and the vendor's 16. A pointer to a location
-- points to an object of one of the two; to read the larger structure from the smaller object is a
-- fault. The vendor's function may change the structure that it is given: that is the parameter.
use android_device_samsung_c.Base.{
  ℕ, zero, suc, ◌≤◌, ◌<◌, ◌≡◌, refl, Option, some, none, ◌⊎◌, ◌≢◌, ◌↔◌, arith, inl, ltb, lt→ltb,
  le→ltb, if◌then◌else◌,
}
use android_device_samsung_c.GpsShim.{
  Fn, vendor, shim, Outcome, done, fault, overflow, ◌>>=◌, deref,
}

pub record CellIdSamsung : Type 0 where
  pub type : ℕ
  pub mcc : ℕ
  pub mnc : ℕ
  pub lac : ℕ
  pub psc : ℕ
  pub cid : ℕ

pub record RefLocationSamsung : Type 0 where
  pub type : ℕ
  pub cell : CellIdSamsung

pub record CellId : Type 0 where
  pub type : ℕ
  pub mcc : ℕ
  pub mnc : ℕ
  pub lac : ℕ
  pub cid : ℕ

pub record RefLocation : Type 0 where
  pub type : ℕ
  pub cell : CellId

abbrev pub sizeof_samsung : ℕ
sizeof_samsung = 20

abbrev pub sizeof_vendor : ℕ
sizeof_vendor = 16

-- What a pointer to a location points to.
pub data Object : Type 0 where
  samsung : RefLocationSamsung → Object
  plain : RefLocation → Object

-- memcpy(&backup, agps_reflocation, sizeof(AGpsRefLocationSamsung))
unfoldable pub copy_in : Object → Outcome RefLocationSamsung
copy_in (samsung b) = done b
copy_in (plain a) = fault

-- The local variable asusRefLoc, read back behind the call.
unfoldable pub read_back : Object → Outcome RefLocation
read_back (samsung b) = fault
read_back (plain a) = done a

-- asusRefLoc, filled from the backup
unfoldable pub to_plain : RefLocationSamsung → RefLocation
to_plain b = record {
  type = b.type;
  cell = record {
    type = b.cell.type;
    mcc = b.cell.mcc;
    mnc = b.cell.mnc;
    lac = b.cell.lac;
    cid = b.cell.cid;
  };
}

-- tmp, filled from asusRefLoc, with the psc of the backup
unfoldable pub to_samsung : RefLocation → (psc : ℕ) → RefLocationSamsung
to_samsung a psc = record {
  type = a.type;
  cell = record {
    type = a.cell.type;
    mcc = a.cell.mcc;
    mnc = a.cell.mnc;
    lac = a.cell.lac;
    psc = psc;
    cid = a.cell.cid;
  };
}

module _ (vendor_set : RefLocation → RefLocation) where
  -- The vendor's own callback, on an object of its structure.
  unfoldable pub vendor_call : Object → Outcome Object
  vendor_call (plain a) = done (plain (vendor_set a))
  vendor_call (samsung b) = fault

  -- A call through the pointer `f` with an object and sz_struct: what the object is afterwards.
  -- `global` is vendor_set_ref_location; the first argument bounds the stack.
  unfoldable pub set_ref_location :
      ℕ → (global : Option Fn) → (f : Fn) → Object → (sz_struct : ℕ) → Outcome Object
  unfolding copy_in read_back to_plain to_samsung vendor_call
  set_ref_location zero global f o sz = overflow
  set_ref_location (suc k) global vendor o sz = vendor_call o
  set_ref_location (suc k) global shim o sz = if ltb sizeof_samsung sz then done o else do
    backup ← copy_in o
    f ← deref global
    out ← set_ref_location k global f (plain (to_plain backup)) sizeof_vendor
    a ← read_back out
    done (samsung (to_samsung a backup.cell.psc))

  -- With the vendor's callback known, a call of the shim's with a size that is not too large
  -- returns; the vendor gets the caller's location without its psc, and the caller's object then
  -- holds what the vendor left there, with the psc as it was.
  pub set_ref_location-shim :
      (k : ℕ) (b : RefLocationSamsung) (sz : ℕ)
      → sz ≤ 20
      → set_ref_location (suc (suc k)) (some vendor) shim (samsung b) sz
        ≡ done (samsung (to_samsung (vendor_set (to_plain b)) b.cell.psc))
  unfolding set_ref_location
  set_ref_location-shim k b sz h = rw (le→ltb 20 sz h)

  -- A size that is too large is refused: the vendor is not called, and the object stays.
  pub set_ref_location-too_large :
      (k : ℕ) (global : Option Fn) (o : Object) (sz : ℕ)
      → 20 < sz
      → set_ref_location (suc k) global shim o sz ≡ done o
  unfolding set_ref_location
  set_ref_location-too_large k global o sz h = rw (lt→ltb 20 sz h)

-- A smaller object is read beyond its end, whatever callback is known, since only a size that is
-- too large is refused.
pub set_ref_location-too_small :
    (vendor_set : RefLocation → RefLocation) (k : ℕ) (global : Option Fn) (a : RefLocation) (sz : ℕ)
    → sz ≤ 20
    → set_ref_location vendor_set (suc k) global shim (plain a) sz ≡ fault
unfolding set_ref_location
set_ref_location-too_small vendor_set k global a sz h = rw (le→ltb 20 sz h)

-- If the vendor only reads the location, the round trip through its structure leaves the caller's as it
-- was; a global pointer that leads back to the shim's own callback makes the call fault.
pub set_ref_location_roundtrip :
    (k : ℕ) (b : RefLocationSamsung) (sz : ℕ)
    → sz ≤ 20
    → (set_ref_location (λ a. a) (suc (suc k)) (some vendor) shim (samsung b) sz ≡ done (samsung b))
      × (set_ref_location (λ a. a) (suc (suc k)) (some shim) shim (samsung b) sz ≡ fault)
unfolding set_ref_location
set_ref_location_roundtrip k b sz h = (rw (le→ltb 20 sz h), rw (le→ltb 20 sz h))

-- What makes a call through the shim's pointer fault.
abbrev pub IsFaulty : (global : Option Fn) → Object → (sz_struct : ℕ) → Type 0
IsFaulty global o sz = (sz ≤ 20) × (((a : RefLocation) × (o ≡ plain a)) ⊎ (global ≢ some vendor))

-- With two frames of stack or more, a call through the shim's pointer never runs out of the stack;
-- it faults exactly if the size is not too large and the object is of the smaller structure, or the
-- callback known is not the vendor's.
pub set_ref_location-fault :
    (vendor_set : RefLocation → RefLocation) (k : ℕ) (global : Option Fn) (o : Object) (sz : ℕ)
    → (set_ref_location vendor_set (suc (suc k)) global shim o sz ≢ overflow)
      × ((set_ref_location vendor_set (suc (suc k)) global shim o sz ≡ fault)
          ↔ IsFaulty global o sz)
unfolding set_ref_location
set_ref_location-fault vendor_set k global (plain a) sz =
    (ground arith, ((λ e. (ground arith, inl (a, refl))), λ f. ground arith))
set_ref_location-fault vendor_set k none (samsung b) sz = ground arith
set_ref_location-fault vendor_set k (some shim) (samsung b) sz = ground arith
set_ref_location-fault vendor_set k (some vendor) (samsung b) sz = ground arith
