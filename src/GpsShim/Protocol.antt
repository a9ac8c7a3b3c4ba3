-- ===== src/GpsShim/Protocol.antt =====
-- The order of calls that a client of the GPS module makes: open, get_gps_interface, get_extension.
use Prim.Native.String.{String}
use text.Mathlib.Text.{◌==◌ as str_eq}
use text.Mathlib.TextEquality.{eq_iff}
use android_device_samsung_c.Base.{
  ℕ, zero, suc, ◌+◌, ◌≡◌, refl, ◌⊎◌, inl, inr, some, sym, subst, ap, true, false, Bool-cases, arith,
  if◌then◌else◌, pos, ltb_ℤ,
}
use android_device_samsung_c.GpsShim.{
  vendor, shim, done, overflow, Gps, Loaded, Vendor, einval, agps_ril_interface, open_gps,
  get_gps_interface, get_extension,
}

-- Before the first call the vendor's structures hold the vendor's functions.
pub record IsUntouched (g : Gps) : Type 0 where
  pub device : g.device_get_gps_interface ≡ vendor
  pub hal : g.hal_get_extension ≡ vendor
  pub ril : g.ril_set_ref_location ≡ vendor

-- A vendor call does not put a foreign function into a structure of the vendor's.
pub record IsHonest (v : Vendor) : Type 0 where
  pub device : v.redevice vendor ≡ vendor
  pub hal : v.reiface vendor ≡ vendor
  pub ril : v.reril vendor ≡ vendor

-- The three answers that let open_gps succeed.
pub record Loads (l : Loaded) : Type 0 where
  pub library : l.library ≡ true
  pub symbol : l.symbol ≡ true
  pub result : ltb_ℤ l.open_result (pos 0) ≡ false

-- Where the library does not load, its symbol is missing, or the vendor's open fails, open_gps returns
-- -EINVAL and changes no function pointer; it closes the library again exactly if it had loaded.
open_gps_fails :
    (v : Vendor) (l : Loaded) (g : Gps)
    → (l.library ≡ false) ⊎ (l.symbol ≡ false) ⊎ (ltb_ℤ l.open_result (pos 0) ≡ true)
    → open_gps v l g ≡ (einval, record g { closed = g.closed + (if l.library then 1 else 0) })
unfolding open_gps
open_gps_fails v l g h = ground arith

-- The state behind an open_gps that succeeded, then behind a call of get_gps_interface through the
-- device and behind one of get_extension through the interface.
abbrev pub after_open : Vendor → Gps → Gps
after_open v g = record g {
  vendor_get_gps_interface = some (v.redevice g.device_get_gps_interface);
  device_get_gps_interface = shim;
}

abbrev pub after_interface : Vendor → Gps → Gps
after_interface v g = record g {
  vendor_get_extension = some (v.reiface g.hal_get_extension);
  hal_get_extension = shim;
}

abbrev pub after_extension : Vendor → String → Gps → Gps
after_extension v name g =
    if str_eq name agps_ril_interface
    then record g {
      vendor_set_ref_location = some (v.reril g.ril_set_ref_location);
      ril_set_ref_location = shim;
    }
    else g

pub open_gps-after :
    (v : Vendor) (l : Loaded) (g : Gps) → Loads l → open_gps v l g ≡ (pos 0, after_open v g)
unfolding open_gps
open_gps-after v l g o = rw (o.library, o.symbol, o.result)

-- Where the library loads, has its symbol, and the vendor's open gives no negative result, open_gps
-- returns 0, keeps the library open, saves the vendor's get_gps_interface and puts the shim's in its
-- place. In every other case it returns -EINVAL, changes no function pointer, and closes the library
-- again exactly if it had loaded.
pub open_gps-cases :
    (v : Vendor) (l : Loaded) (g : Gps)
    → (Loads l × (open_gps v l g ≡ (pos 0, after_open v g)))
      ⊎ ((¬ Loads l)
          × (open_gps v l g
              ≡ (einval, record g { closed = g.closed + (if l.library then 1 else 0) })))
open_gps-cases v l g = elim (Bool-cases l.library) [
  | inr bad ↦ inr ((λ o. grind (arith, o.library)), open_gps_fails v l g (inl bad))
  | inl library ↦ elim (Bool-cases l.symbol) [
    | inr bad ↦ inr ((λ o. grind (arith, o.symbol)), open_gps_fails v l g (inr (inl bad)))
    | inl symbol ↦ elim (Bool-cases (ltb_ℤ l.open_result (pos 0))) [
      | inl bad ↦ inr ((λ o. grind (arith, o.result)), open_gps_fails v l g (inr (inr bad)))
      | inr result ↦
          let o : Loads l = record { library = library; symbol = symbol; result = result } in
          inl (o, open_gps-after v l g o)
    ]
  ]
]

pub interface-after :
    (v : Vendor) (k : ℕ) (g : Gps)
    → g.vendor_get_gps_interface ≡ some vendor
    → get_gps_interface v (suc (suc k)) shim g ≡ done (after_interface v g)
unfolding get_gps_interface
interface-after v k g e = ground arith

pub extension-after :
    (v : Vendor) (k : ℕ) (name : String) (g : Gps)
    → g.vendor_get_extension ≡ some vendor
    → v.has agps_ril_interface ≡ true
    → get_extension v (suc (suc k)) shim name g ≡ done (v.has name, after_extension v name g)
unfolding get_extension
extension-after v k name g e has = elim (Bool-cases (str_eq name agps_ril_interface)) [
  | inl ril ↦
      let found : v.has name ≡ true =
        subst (λ n. v.has n ≡ true) (sym ((eq_iff name agps_ril_interface).0 ril)) has in
      ground arith
  | inr other ↦ ground arith
]

-- In the usual order, on a vendor library that loads and has the RIL interface, whose structures
-- hold its own functions: open_gps returns 0; get_gps_interface through the device and
-- get_extension through the interface return, with two frames of stack, and give for every name
-- what the vendor gives; and behind a call for the RIL interface its location callback is the
-- shim's, which knows the vendor's.
pub session :
    (v : Vendor) (l : Loaded) (g : Gps) (name : String)
    → IsUntouched g
    → IsHonest v
    → Loads l
    → v.has agps_ril_interface ≡ true
    → (g1 : Gps) × (open_gps v l g ≡ (pos 0, g1))
      × (g2 : Gps) × (get_gps_interface v 2 g1.device_get_gps_interface g1 ≡ done g2)
      × (g3 : Gps) × (get_extension v 2 g2.hal_get_extension name g2 ≡ done (v.has name, g3))
      × ((name ≡ agps_ril_interface)
          → (g3.ril_set_ref_location ≡ shim) × (g3.vendor_set_ref_location ≡ some vendor))
session v l g name u h o has =
    let g1 = after_open v g in
    let g2 = after_interface v g1 in
    let own_device : v.redevice g.device_get_gps_interface ≡ vendor =
      subst (λ f. v.redevice f ≡ vendor) (sym u.device) h.device in
    let own_hal : v.reiface g.hal_get_extension ≡ vendor =
      subst (λ f. v.reiface f ≡ vendor) (sym u.hal) h.hal in
    let own_ril : v.reril g.ril_set_ref_location ≡ vendor =
      subst (λ f. v.reril f ≡ vendor) (sym u.ril) h.ril in
    (
      g1,
      open_gps-after v l g o,
      g2,
      interface-after v 0 g1 (ap some own_device),
      after_extension v name g2,
      extension-after v 0 name g2 (ap some own_hal) has,
      λ e. ground (arith, (eq_iff name agps_ril_interface).1 e),
    )

-- A global pointer that leads back to the shim makes every call run out of the stack.
endless :
    (v : Vendor) (k : ℕ) (name : String) (g : Gps)
    → g.vendor_get_extension ≡ some shim
    → get_extension v k shim name g ≡ overflow
unfolding get_extension
endless v zero name g e = refl
endless v (suc k) name g e = ground (arith, endless v k name g e)

-- If the vendor's GPS interface is a static structure, a second call of get_gps_interface in the same
-- session takes the shim's own get_extension for the vendor's: from then on a call of get_extension
-- through the interface never returns, whatever the name and the size of the stack.
pub second_interface_endless :
    (v : Vendor) (g : Gps) (name : String) (k : ℕ)
    → g.vendor_get_gps_interface ≡ some vendor
    → g.hal_get_extension ≡ shim
    → v.reiface shim ≡ shim
    → (g' : Gps) × (get_gps_interface v 2 shim g ≡ done g')
      × (g'.hal_get_extension ≡ shim)
      × (get_extension v k g'.hal_get_extension name g' ≡ overflow)
second_interface_endless v g name k e hal static =
    let g' = after_interface v g in
    let back : v.reiface g.hal_get_extension ≡ shim =
      subst (λ f. v.reiface f ≡ shim) (sym hal) static in
    (g', interface-after v 0 g e, refl, endless v k name g' (ap some back))
