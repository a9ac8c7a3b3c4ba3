-- ===== src/Tests/Shims.antt =====
-- strstr.c and the GPS shim on small inputs.
use android_device_samsung_c.Base.{
  ◌+◌, ◌≡◌, ◌⊎◌, refl, inl, none, some, List, [], ◌∷◌, true, false, arith, pos,
}
use android_device_samsung_c.Strstr.{strstr, scan, strncmp}
use android_device_samsung_c.Strstr.First.{IsFirst, strstr-IsFirst, strstr_null}
use android_device_samsung_c.GpsShim.{
  vendor, shim, done, overflow, Gps, Loaded, Vendor, einval, agps_ril_interface, open_gps,
  get_gps_interface, get_extension,
}
use android_device_samsung_c.GpsShim.Protocol.{
  Loads, after_open, open_gps-cases, second_interface_endless,
}
use android_device_samsung_c.GpsShim.Calls.{
  ClientCall, extension, locate, found, located, vendor_answer, answers, calls_transparent,
}
use android_device_samsung_c.GpsShim.Location.{RefLocationSamsung, samsung, to_samsung, to_plain}

-- "1x2x3" and "2x"
finds : strstr (some (49 ∷ 120 ∷ 50 ∷ 120 ∷ 51 ∷ [])) (some (50 ∷ 120 ∷ [])) ≡ some 2
unfolding strstr scan strncmp
finds = refl

strstr-IsFirst_example :
    IsFirst
      (50 ∷ 120 ∷ [])
      (49 ∷ 120 ∷ 50 ∷ 120 ∷ 51 ∷ [])
      (strstr (some (49 ∷ 120 ∷ 50 ∷ 120 ∷ 51 ∷ [])) (some (50 ∷ 120 ∷ [])))
strstr-IsFirst_example =
    strstr-IsFirst (49 ∷ 120 ∷ 50 ∷ 120 ∷ 51 ∷ []) (50 ∷ 120 ∷ []) (omega arith)

strstr_null_example : strstr none (some (50 ∷ [])) ≡ none
strstr_null_example = strstr_null none (some (50 ∷ [])) (inl refl)

abbrev static_vendor : Vendor
static_vendor = record { redevice = λ f. f; reiface = λ f. f; reril = λ f. f; has = λ name. true }

abbrev loaded : Loaded
loaded = record { library = true; symbol = true; open_result = pos 0 }

abbrev broken : Loaded
broken = record { library = true; symbol = false; open_result = pos 0 }

abbrev untouched : Gps
untouched = record {
  vendor_get_gps_interface = none;
  vendor_get_extension = none;
  vendor_set_ref_location = none;
  device_get_gps_interface = vendor;
  hal_get_extension = vendor;
  ril_set_ref_location = vendor;
  closed = 0;
}

open_gps-cases_example :
    (Loads broken
      × (open_gps static_vendor broken untouched ≡ (pos 0, after_open static_vendor untouched)))
    ⊎ ((¬ Loads broken)
        × (open_gps static_vendor broken untouched ≡ (einval, record untouched { closed = 0 + 1 })))
open_gps-cases_example = open_gps-cases static_vendor broken untouched

-- A vendor whose RIL interface is filled anew at each request.
abbrev refilling_vendor : Vendor
refilling_vendor = record static_vendor { reril = λ f. vendor }

abbrev location : RefLocationSamsung
location = record {
  type = 1;
  cell = record { type = 1; mcc = 262; mnc = 2; lac = 77; psc = 5; cid = 123_456 };
}

abbrev some_calls : List ClientCall
some_calls =
    locate location 20 ∷ extension agps_ril_interface ∷ extension "xtra" ∷ locate location 16 ∷ []

calls_transparent_example :
    (g1 : Gps) × (open_gps refilling_vendor loaded untouched ≡ (pos 0, g1))
    × (g2 : Gps) × (get_gps_interface refilling_vendor 5 g1.device_get_gps_interface g1 ≡ done g2)
    × (g3 : Gps) × (answers refilling_vendor
          (λ a. record a { type = 3 })
          5
          (extension agps_ril_interface ∷ some_calls)
          g2
        ≡ done (
          found true
              ∷ located (samsung (record location { type = 3 }))
              ∷ found true
              ∷ found true
              ∷ located (samsung (record location { type = 3 }))
              ∷ [],
          g3,
        ))
unfolding vendor_answer to_plain to_samsung
calls_transparent_example =
    calls_transparent refilling_vendor (λ a. record a { type = 3 }) loaded untouched 3 some_calls
      (record { device = refl; hal = refl; ril = refl })
      (record { device = refl; hal = refl; ril = refl })
      (record { library = refl; symbol = refl; result = refl }) refl
      (omega arith, (inl refl, (inl refl, (omega arith, record {}))))

abbrev in_session : Gps
in_session = record untouched {
  vendor_get_gps_interface = some vendor;
  device_get_gps_interface = shim;
  vendor_get_extension = some vendor;
  hal_get_extension = shim;
}

second_interface_endless_example :
    (g' : Gps) × (get_gps_interface static_vendor 2 shim in_session ≡ done g')
    × (g'.hal_get_extension ≡ shim)
    × (get_extension static_vendor 100 g'.hal_get_extension "agps" g' ≡ overflow)
second_interface_endless_example =
    second_interface_endless static_vendor in_session "agps" 100 refl refl refl
