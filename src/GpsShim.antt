-- ===== src/GpsShim.antt =====
-- shims/libgps-shim/gps.c and gps.h: a GPS module that opens the vendor's, replaces three of its
-- function pointers by functions of its own, and translates the location structure of one callback.
-- The vendor's library is not in the repository. Its structures hold function pointers that are the
-- vendor's or the shim's; a vendor call hands out such a structure again, and what it does to the
-- pointer in it is a parameter (the identity for a static structure). Log lines are left out.
pub mod Location
pub mod Protocol
pub mod Calls
use Prim.Native.String.{String}
use text.Mathlib.Text.{◌==◌ as str_eq}
use android_device_samsung_c.Base.{
  ℕ, zero, suc, ◌+◌, Option, none, some, Bool, true, false, ltb, ltb_ℤ, if◌then◌else◌, ℤ, pos,
  negsuc,
}

-- Whose function a pointer points to.
pub data Fn : Type 0 where
  vendor shim : Fn

-- A fault is a call through a null pointer or an access outside an object; an overflow of the stack
-- comes from a recursion that does not end.
pub data Outcome (A : Type 0) : Type 0 where
  done : A → Outcome A
  fault : Outcome A
  overflow : Outcome A

infixl 5 ◌>>=◌
abbrev pub ◌>>=◌ : {A B : Type 0} → Outcome A → (A → Outcome B) → Outcome B
done a >>= f = f a
fault >>= f = fault
overflow >>= f = overflow

-- The pointer in a global variable that is called.
abbrev pub deref : Option Fn → Outcome Fn
deref none = fault
deref (some f) = done f

-- The three global variables of the shim, and the pointers in the vendor's structures: the device's
-- get_gps_interface, the GPS interface's get_extension, the RIL interface's set_ref_location. `closed`
-- counts the calls of dlclose.
pub record Gps : Type 0 where
  pub vendor_get_gps_interface : Option Fn
  pub vendor_get_extension : Option Fn
  pub vendor_set_ref_location : Option Fn
  pub device_get_gps_interface : Fn
  pub hal_get_extension : Fn
  pub ril_set_ref_location : Fn
  pub closed : ℕ

abbrev pub agps_ril_interface : String
agps_ril_interface = "agps_ril"

-- What the loader and the vendor's open answer.
pub record Loaded : Type 0 where
  pub library : Bool
  pub symbol : Bool
  pub open_result : ℤ

abbrev pub einval : ℤ
einval = negsuc 21

-- `redevice`, `reiface` and `reril` are what a vendor call leaves in the pointer of the structure
-- that it hands out, given what stood there; `has` tells the extensions that the vendor has.
pub record Vendor : Type 0 where
  pub redevice : Fn → Fn
  pub reiface : Fn → Fn
  pub reril : Fn → Fn
  pub has : String → Bool

module _ (v : Vendor) where
  -- The body of open_gps, from the answer of realHalSym->methods->open on.
  unfoldable pub opened : ℤ → Gps → ℤ × Gps
  opened result g = if ltb_ℤ result (pos 0) then (einval, record g { closed = g.closed + 1 }) else (
    pos 0,
    record g {
      vendor_get_gps_interface = some (v.redevice g.device_get_gps_interface);
      device_get_gps_interface = shim;
    },
  )

  unfoldable pub open_gps : Loaded → Gps → ℤ × Gps
  unfolding opened
  open_gps l g =
      if l.library
      then (if l.symbol
          then opened l.open_result g
          else (einval, record g { closed = g.closed + 1 }))
      else (einval, g)

  -- A call of get_gps_interface through a pointer, with at most so many frames on the stack.
  unfoldable pub get_gps_interface : ℕ → Fn → Gps → Outcome Gps
  get_gps_interface zero f g = overflow
  get_gps_interface (suc k) vendor g =
      done (record g { hal_get_extension = v.reiface g.hal_get_extension })
  get_gps_interface (suc k) shim g = do
    f ← deref g.vendor_get_gps_interface
    g ← get_gps_interface k f g
    done (record g { vendor_get_extension = some g.hal_get_extension; hal_get_extension = shim })

  -- The vendor's get_extension: whether it returns an interface. It hands the RIL interface out again.
  unfoldable pub vendor_extension : String → Gps → Bool × Gps
  vendor_extension name g =
      if str_eq name agps_ril_interface
      then (v.has name, record g { ril_set_ref_location = v.reril g.ril_set_ref_location })
      else (v.has name, g)

  -- Replacing the callback of the RIL interface; a null interface is not tested for.
  unfoldable pub shim_ril : Bool → Gps → Outcome (Bool × Gps)
  shim_ril false g = fault
  shim_ril true g = done (
    true,
    record g { vendor_set_ref_location = some g.ril_set_ref_location; ril_set_ref_location = shim },
  )

  unfoldable pub get_extension : ℕ → Fn → String → Gps → Outcome (Bool × Gps)
  unfolding vendor_extension shim_ril
  get_extension zero f name g = overflow
  get_extension (suc k) vendor name g = done (vendor_extension name g)
  get_extension (suc k) shim name g = do
    f ← deref g.vendor_get_extension
    (found, g) ← get_extension k f name g
    if str_eq name agps_ril_interface then shim_ril found g else done (found, g)
