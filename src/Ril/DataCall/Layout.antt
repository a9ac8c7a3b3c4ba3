-- ===== src/Ril/DataCall/Layout.antt =====
-- getDataCallResponse reads what a modem writes.
use Prim.Native.String.{String}
use android_device_samsung_c.Base.{ℕ, ◌≡◌, List, ◌∷◌, true, Option, if◌then◌else◌, ◌⊎◌}
use android_device_samsung_c.Word.{slt}
use android_device_samsung_c.Ril.Parcel.{Parcel, Item, int, string}
use android_device_samsung_c.Ril.DataCall.{DataCallResponse, Framework, split_or}

-- A data call as the modem has it, its lists as strings.
pub record DataCall : Type 0 where
  pub status : ℕ
  pub retry : ℕ
  pub cid : ℕ
  pub active : ℕ
  pub type : Option String
  pub ifname : Option String
  pub addresses : Option String
  pub dnses : Option String
  pub gateways : Option String
  pub pcscf : Option String
  pub mtu : ℕ

abbrev pub pcscf_items : (version : ℕ) → DataCall → List Item → List Item
pcscf_items version d rest = if slt version 10 then rest else string d.pcscf ∷ rest

abbrev pub mtu_items : (version : ℕ) → DataCall → List Item → List Item
mtu_items version d rest = if slt version 11 then rest else int d.mtu ∷ rest

-- What it writes at a version from 5 on.
abbrev pub items : (version : ℕ) → DataCall → List Item → List Item
items version d rest =
    int d.status
    ∷ int d.retry
    ∷ int d.cid
    ∷ int d.active
    ∷ string d.type
    ∷ string d.ifname
    ∷ string d.addresses
    ∷ string d.dnses
    ∷ string d.gateways
    ∷ pcscf_items version d (mtu_items version d rest)

pub record IsResponse (f : Framework) (v : ℕ) (d : DataCall) (r : DataCallResponse) : Type 0 where
  pub version : r.version ≡ v
  pub status : r.status ≡ d.status
  pub suggested_retry_time : r.suggested_retry_time ≡ d.retry
  pub cid : r.cid ≡ d.cid
  pub active : r.active ≡ d.active
  pub type : r.type ≡ d.type
  pub ifname : r.ifname ≡ d.ifname
  pub addresses : r.addresses ≡ split_or f d.addresses f.fresh.addresses
  pub dnses : r.dnses ≡ split_or f d.dnses f.fresh.dnses
  pub gateways : r.gateways ≡ r.addresses
  pub pcscf : (slt v 10 ≡ true) ⊎ (r.pcscf ≡ split_or f d.pcscf f.fresh.pcscf)
  pub mtu : (slt v 11 ≡ true) ⊎ (r.mtu ≡ d.mtu)
