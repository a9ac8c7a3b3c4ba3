-- ===== src/GpsShim/Calls.antt =====
-- A client of the GPS module of shims/libgps-shim behind get_gps_interface: it asks for extensions
-- by name, and calls the location callback of the RIL interface, in any order; what it gets is
-- compared with what the vendor's library would give it. `depth` bounds the stack.
use Prim.Native.String.{String}
use text.Mathlib.Text.{◌==◌ as str_eq}
use android_device_samsung_c.Base.{
  ℕ, suc, ◌≤◌, ◌≡◌, refl, sym, ap, subst, ◌∙◌, some, List, [], ◌∷◌, map, ◌⊎◌, Bool, true, false,
  inl, inr, Bool-cases, le→ltb, All, pos, arith, if◌then◌else◌,
}
use android_device_samsung_c.GpsShim.{
  vendor, shim, Outcome, done, fault, ◌>>=◌, Gps, Loaded, Vendor, agps_ril_interface, open_gps,
  get_gps_interface, get_extension,
}
use android_device_samsung_c.GpsShim.Location.{
  RefLocation, RefLocationSamsung, Object, samsung, to_plain, to_samsung, set_ref_location,
  set_ref_location-shim,
}
use android_device_samsung_c.GpsShim.Protocol.{
  IsUntouched, IsHonest, Loads, after_open, after_interface, after_extension, open_gps-after,
  interface-after, extension-after,
}

pub data ClientCall : Type 0 where
  extension : (name : String) → ClientCall
  locate : (b : RefLocationSamsung) (sz_struct : ℕ) → ClientCall

pub data Reply : Type 0 where
  found : Bool → Reply
  located : Object → Reply

module _ (v : Vendor) (vendor_set : RefLocation → RefLocation) (depth : ℕ) where
  unfoldable pub answer : ClientCall → Gps → Outcome (Reply × Gps)
  answer (extension name) g = do
    (has, g) ← get_extension v depth g.hal_get_extension name g
    done (found has, g)
  answer (locate b sz) g = do
    o ←
        set_ref_location vendor_set depth g.vendor_set_ref_location g.ril_set_ref_location
          (samsung b) sz
    done (located o, g)

  unfoldable pub answers : List ClientCall → Gps → Outcome (List Reply × Gps)
  answers [] g = done ([], g)
  answers (c ∷ calls) g = do
    (reply, g) ← answer c g
    (replies, g) ← answers calls g
    done (reply ∷ replies, g)

-- What the vendor's library gives; a location reaches it without its psc.
unfoldable pub vendor_answer : Vendor → (RefLocation → RefLocation) → ClientCall → Reply
vendor_answer v vendor_set (extension name) = found (v.has name)
vendor_answer v vendor_set (locate b sz) =
    located (samsung (to_samsung (vendor_set (to_plain b)) b.cell.psc))

-- A location is given with a size that is not too large; and the RIL interface is asked for again
-- only if the vendor's library then puts its own callback back.
abbrev pub IsUsual : Vendor → ClientCall → Type 0
IsUsual v (extension name) = (v.reril shim ≡ vendor) ⊎ (str_eq name agps_ril_interface ≡ false)
IsUsual v (locate b sz) = sz ≤ 20

-- The shim stands in the interfaces, and knows the vendor's functions.
pub record IsWired (g : Gps) : Type 0 where
  pub hal : g.hal_get_extension ≡ shim
  pub vendor_hal : g.vendor_get_extension ≡ some vendor
  pub ril : g.ril_set_ref_location ≡ shim
  pub vendor_ril : g.vendor_set_ref_location ≡ some vendor

abbrev asked : Vendor → Gps → Gps
asked v g = record g {
  vendor_set_ref_location = some (v.reril g.ril_set_ref_location);
  ril_set_ref_location = shim;
}

again :
    (v : Vendor) (name : String)
    → str_eq name agps_ril_interface ≡ true
    → IsUsual v (extension name)
    → v.reril shim ≡ vendor
again v name ril (inl own) = own
again v name ril (inr other) = grind arith

after_extension-IsWired :
    (v : Vendor) (name : String) (g : Gps)
    → IsUsual v (extension name)
    → IsWired g
    → IsWired (after_extension v name g)
after_extension-IsWired v name g u w = elim (Bool-cases (str_eq name agps_ril_interface)) [
  | inl ril ↦
      let own : v.reril g.ril_set_ref_location ≡ vendor =
        subst (λ f. v.reril f ≡ vendor) (sym w.ril) (again v name ril u) in
      subst (λ b. IsWired (if b then asked v g else g)) (sym ril)
        (record { hal = w.hal; vendor_hal = w.vendor_hal; ril = refl; vendor_ril = ap some own })
  | inr other ↦ subst (λ b. IsWired (if b then asked v g else g)) (sym other) w
]

module _ (v : Vendor) (vendor_set : RefLocation → RefLocation) (k : ℕ)
    (has : v.has agps_ril_interface ≡ true) where
  answer-IsWired :
      (c : ClientCall) (g : Gps)
      → IsUsual v c
      → IsWired g
      → (g' : Gps) × (answer v vendor_set (suc (suc k)) c g
          ≡ done (vendor_answer v vendor_set c, g'))
        × IsWired g'
  unfolding answer vendor_answer
  answer-IsWired (extension name) g u w = (
    after_extension v name g,
    ap (λ o. o >>= λ p. done (found p.0, p.1))
        (ap (λ f. get_extension v (suc (suc k)) f name g) w.hal
          ∙ extension-after v k name g w.vendor_hal has),
    after_extension-IsWired v name g u w,
  )
  answer-IsWired (locate b sz) g u w =
      (g, rw (w.ril, w.vendor_ril, set_ref_location-shim vendor_set k b sz u) refl, w)

  answers-IsWired :
      (calls : List ClientCall) (g : Gps)
      → All (IsUsual v) calls
      → IsWired g
      → (g' : Gps) × (answers v vendor_set (suc (suc k)) calls g
          ≡ done (map (vendor_answer v vendor_set) calls, g'))
        × IsWired g'
  unfolding answers
  answers-IsWired [] g u w = (g, refl, w)
  answers-IsWired (c ∷ calls) g u w =
      let (g1, e1, w1) = answer-IsWired c g u.0 w in
      let (g', e, w') = answers-IsWired calls g1 u.1 w1 in (g', rw (e1, e) refl, w')

-- The first three calls of a client, behind which the shim stands in the interfaces.
abbrev after_start : Vendor → Gps → Gps
after_start v g = after_extension v agps_ril_interface (after_interface v (after_open v g))

after_start-IsWired :
    (v : Vendor) (g : Gps) → IsUntouched g → IsHonest v → IsWired (after_start v g)
after_start-IsWired v g u h =
    let own_hal : v.reiface g.hal_get_extension ≡ vendor =
      subst (λ f. v.reiface f ≡ vendor) (sym u.hal) h.hal in
    let own_ril : v.reril g.ril_set_ref_location ≡ vendor =
      subst (λ f. v.reril f ≡ vendor) (sym u.ril) h.ril in
    record { hal = refl; vendor_hal = ap some own_hal; ril = refl; vendor_ril = ap some own_ril }

-- On a vendor library that loads and has the RIL interface, whose structures hold its own
-- functions, with two frames of stack or more: open_gps returns 0, get_gps_interface through the
-- device returns, and whatever calls a client then makes behind its first request for the RIL
-- interface, in any order, all of them return and give what the vendor's library gives. Each
-- location has a size that is not too large, and the RIL interface is asked for again only if the
-- vendor's library puts its own callback back into the structure.
pub calls_transparent :
    (v : Vendor) (vendor_set : RefLocation → RefLocation) (l : Loaded) (g : Gps) (k : ℕ)
    (calls : List ClientCall)
    → IsUntouched g
    → IsHonest v
    → Loads l
    → v.has agps_ril_interface ≡ true
    → All (IsUsual v) calls
    → (g1 : Gps) × (open_gps v l g ≡ (pos 0, g1))
      × (g2 : Gps) × (get_gps_interface v (suc (suc k)) g1.device_get_gps_interface g1 ≡ done g2)
      × (g3 : Gps) × (answers v vendor_set (suc (suc k)) (extension agps_ril_interface ∷ calls) g2
          ≡ done (map (vendor_answer v vendor_set) (extension agps_ril_interface ∷ calls), g3))
unfolding answers answer vendor_answer
calls_transparent v vendor_set l g k calls u h o has usual =
    let g1 = after_open v g in
    let g2 = after_interface v g1 in
    let wired = after_start-IsWired v g u h in
    let own_device : v.redevice g.device_get_gps_interface ≡ vendor =
      subst (λ f. v.redevice f ≡ vendor) (sym u.device) h.device in
    let (g3, e, w3) = answers-IsWired v vendor_set k has calls (after_start v g) usual wired in
    (
      g1,
      open_gps-after v l g o,
      g2,
      interface-after v k g1 (ap some own_device),
      g3,
      rw (extension-after v k agps_ril_interface g2 wired.vendor_hal has, e) refl,
    )

-- If the vendor's RIL interface is a static structure, a client that asks for it a second time
-- makes the shim take its own callback for the vendor's: the request returns, and then a location
-- with a size that is not too large makes the shim read the smaller structure beyond its end, for
-- every stack of two frames or more.
pub second_extension_faults :
    (v : Vendor) (vendor_set : RefLocation → RefLocation) (g : Gps) (k : ℕ) (b : RefLocationSamsung)
    (sz : ℕ)
    → v.has agps_ril_interface ≡ true
    → IsWired g
    → v.reril shim ≡ shim
    → sz ≤ 20
    → ((g' : Gps) × (answers v vendor_set (suc (suc k)) (extension agps_ril_interface ∷ []) g
          ≡ done (found true ∷ [], g')))
      × (answers v vendor_set (suc (suc k)) (extension agps_ril_interface ∷ locate b sz ∷ []) g
          ≡ fault)
unfolding answers answer set_ref_location
second_extension_faults v vendor_set g k b sz has w static h =
    let e : get_extension v (suc (suc k)) g.hal_get_extension agps_ril_interface g
        ≡ done (true, asked v g) =
      ap (λ f. get_extension v (suc (suc k)) f agps_ril_interface g) w.hal
      ∙ extension-after v k agps_ril_interface g w.vendor_hal has
      ∙ ap (λ b. done (b, asked v g)) has in
    let back : v.reril g.ril_set_ref_location ≡ shim =
      subst (λ f. v.reril f ≡ shim) (sym w.ril) static in
    ((asked v g, rw e refl), rw (e, back, le→ltb 20 sz h) refl)
