-- ===== src/Ril/DataCall.antt =====
-- getDataCallResponse of configs/ril/SamsungU8500RIL.java: one data call of the modem's answer, in the
-- layouts of the versions of the RIL. needsOldRilFeature, TextUtils.isEmpty, String.split and the
-- constructor of DataCallResponse are the framework's and Java's, and parameters.
pub mod Layout
use Prim.Native.String.{String}
use android_device_samsung_c.Base.{
  ℕ, List, Bool, ◌&&◌, ◌||◌, ◌==◌, Option, none, some, if◌then◌else◌,
}
use android_device_samsung_c.Word.{◌-32◌, slt}
use android_device_samsung_c.Ril.Parcel.{Parcel, ◌>>=◌, give, or_throw, read_int, read_string}

pub record DataCallResponse : Type 0 where
  pub version : ℕ
  pub status : ℕ
  pub suggested_retry_time : ℕ
  pub cid : ℕ
  pub active : ℕ
  pub type : Option String
  pub ifname : Option String
  pub addresses : List String
  pub dnses : List String
  pub gateways : List String
  pub pcscf : List String
  pub mtu : ℕ

-- `fresh` is what the constructor makes, `iface` the string config_datause_iface, and `no_cause` the
-- code DcFailCause.NONE.
pub record Framework : Type 0 where
  pub fresh : DataCallResponse
  pub needs_old_ril_feature : String → Bool
  pub is_empty : Option String → Bool
  pub split : Option String → List String
  pub iface : Option String
  pub no_cause : ℕ

-- An empty string leaves the list as it is.
abbrev pub split_or : Framework → (s : Option String) (old : List String) → List String
split_or f s old = if f.is_empty s then old else f.split s

module _ {P : Type 0} (parcel : Parcel P) (f : Framework) where
  -- A string that is read where `test` holds, and not used.
  unfoldable pub skip_string : (test : Bool) → P → Option (Option String × P)
  skip_string test = if test then read_string parcel else give none

  -- Before version 5.
  unfoldable pub old_response : (version : ℕ) → P → Option (DataCallResponse × P)
  old_response version = do
    cid ← read_int parcel
    active ← read_int parcel
    type ← read_string parcel
    apn ← skip_string (slt version 4 || f.needs_old_ril_feature "datacallapn")
    addresses ← read_string parcel
    give (record f.fresh {
      version = version;
      cid = cid;
      active = active;
      type = type;
      addresses = split_or f addresses f.fresh.addresses;
      ifname = f.iface;
    })

  unfoldable pub read_pcscf : (version : ℕ) → P → Option (List String × P)
  read_pcscf version =
      if slt version 10
      then give f.fresh.pcscf
      else (do pcscf ← read_string parcel; give (split_or f pcscf f.fresh.pcscf))

  unfoldable pub read_mtu : (version : ℕ) → P → Option (ℕ × P)
  read_mtu version = if slt version 11 then give f.fresh.mtu else read_int parcel

  -- From version 5 on. A call without a failure that has no interface throws.
  unfoldable pub new_response : (version : ℕ) → P → Option (DataCallResponse × P)
  new_response version = do
    status ← read_int parcel
    retry ← if f.needs_old_ril_feature "usehcradio" then give (0 -32 1) else read_int parcel
    cid ← read_int parcel
    active ← read_int parcel
    type ← read_string parcel
    ifname ← read_string parcel
    ifname ← if (status == f.no_cause) && f.is_empty ifname then or_throw none else give ifname
    addresses ← read_string parcel
    dnses ← read_string parcel
    gateways ← read_string parcel
    pcscf ← read_pcscf version
    mtu ← read_mtu version
    give (record {
      version = version;
      status = status;
      suggested_retry_time = retry;
      cid = cid;
      active = active;
      type = type;
      ifname = ifname;
      addresses = split_or f addresses f.fresh.addresses;
      dnses = split_or f dnses f.fresh.dnses;
      gateways =
          if f.is_empty addresses then f.fresh.gateways else split_or f addresses f.fresh.addresses;
      pcscf = pcscf;
      mtu = mtu;
    })

  unfoldable pub get_data_call_response : (version : ℕ) → P → Option (DataCallResponse × P)
  get_data_call_response version =
      if slt version 5 then old_response version else new_response version
