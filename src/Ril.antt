-- ===== src/Ril.antt =====
-- configs/ril/SamsungU8500RIL.java: setting the preferred network type while a data connection
-- runs. The modem must not be told then, so a handler first turns mobile data off, tells the modem
-- once the connection is lost, and turns data on again behind the modem's answer. An `int` is its
-- 32-bit pattern. The handlers are objects, and a handler that the class has dropped lives on; an
-- object is its address. A message of a caller is a number, and none if it is null. The framework
-- and the modem are not in the repository: what is asked of them are effects, and what the
-- framework answers is a parameter. A null pointer and an exception that is thrown are `none`. Log
-- lines are left out.
pub mod Steps
pub mod Switch
pub mod Overlap
pub mod SimStatus
pub mod Parcel
pub mod CallList
pub mod Signal
pub mod DataCall
pub mod Requests
pub mod Solicited
pub mod Unsolicited
pub mod FailCause
pub mod Sends
pub mod Answers
pub mod Session
use android_device_samsung_c.Base.{
  ℕ, ◌+◌, ◌==◌, List, [], ◌∷◌, ◌++◌, Bool, true, false, ◌&&◌, ◌||◌, not, Option, none, some,
  if◌then◌else◌, ◌>>=◌,
}

-- Whom the modem's answer goes to.
pub data Reply : Type 0 where
  to_caller : (response : Option ℕ) → Reply
  to_handler : (handler : ℕ) → Reply

-- register and unregister stand for the receiver of a handler together with its network callback.
pub data Effect : Type 0 where
  register unregister : (handler : ℕ) → Effect
  set_data : (enabled : Bool) → Effect
  request : (network_type : ℕ) → Reply → Effect
  answer : (message : ℕ) → Effect

-- A ConnectivityHandler.
pub record Handler : Type 0 where
  pub desired_network_type : ℕ
  pub is_registered : Bool
  pub networktype_response : Option ℕ

-- The handlers at the addresses below `created`, and the one that the class holds.
pub record Ril : Type 0 where
  pub preferred_network_type : ℕ
  pub handler : Option ℕ
  pub handlers : ℕ → Handler
  pub created : ℕ

-- A NetworkInfo; is_mobile is getTypeName().equalsIgnoreCase("mobile").
pub record NetworkInfo : Type 0 where
  pub is_mobile : Bool
  pub is_connected : Bool

-- What the framework answers: the active network, if any, and whether mobile data is enabled; whether
-- the new thread has a looper; and the network class, if there is a telephony service.
pub record Network : Type 0 where
  pub active : Option NetworkInfo
  pub mobile_data_enabled : Bool
  pub looper : Bool
  pub network_class : Option ℕ

-- A new object of the class.
unfoldable pub started : (network_mode : ℕ) → Ril
started network_mode = record {
  preferred_network_type = network_mode;
  handler = none;
  handlers =
      λ i. record { desired_network_type = 0; is_registered = false; networktype_response = none };
  created = 0;
}

abbrev pub Done : Type 0
Done = Ril × List Effect

unfoldable pub need_reconnect : Network → Bool
need_reconnect n = elim n.active [
  | none ↦ false
  | some info ↦ info.is_mobile && info.is_connected && n.mobile_data_enabled
]

unfoldable pub put : ℕ → Handler → Ril → Ril
put i h s = record s { handlers = λ j. if j == i then h else s.handlers j }

unfoldable pub has_network_type_changed :
    (network_class : Option ℕ) → (network_type : ℕ) → Option Bool
has_network_type_changed network_class t = do
  c ← network_class
  some (not ((t == c) || ((t == 0) && (c == 2))))

-- Sends the real request to the modem.
unfoldable pub send_prefered_networktype : (network_type : ℕ) → Reply → Ril → Done
send_prefered_networktype t reply s =
    (record s { preferred_network_type = t }, request t reply ∷ [])

unfoldable pub start_listening : ℕ → Ril → Done
unfolding put
start_listening i s =
    if (s.handlers i).is_registered
    then (s, [])
    else (put i (record (s.handlers i) { is_registered = true }) s, register i ∷ [])

unfoldable pub stop_listening : ℕ → Ril → Done
unfolding put
stop_listening i s =
    if (s.handlers i).is_registered
    then (put i (record (s.handlers i) { is_registered = false }) s, unregister i ∷ [])
    else (s, [])

-- setPreferedNetworkType of the handler
unfoldable pub set_prefered_network_type :
    ℕ → (network_type : ℕ) → (response : Option ℕ) → Ril → Done
unfolding put start_listening
set_prefered_network_type i t response s =
    let h = record (s.handlers i) { desired_network_type = t; networktype_response = response } in
    let (s, started) = start_listening i (put i h s) in (s, started ++ (set_data false ∷ []))

abbrev pub message_set_preferred_network_type : ℕ
message_set_preferred_network_type = 30

unfoldable pub handle_message : (what : ℕ) → ℕ → Ril → Option Done
unfolding put
handle_message what i s =
    if what == message_set_preferred_network_type
    then (do
      m ← (s.handlers i).networktype_response
      some (
        put i (record (s.handlers i) { networktype_response = none }) s,
        set_data true ∷ answer m ∷ [],
      ))
    else none

-- The receiver of the handler; -1 marks a type that is sent.
unfoldable pub on_receive : (connectivity_action no_connectivity : Bool) → ℕ → Ril → Done
unfolding put stop_listening send_prefered_networktype
on_receive connectivity_action no_connectivity i s =
    if connectivity_action && no_connectivity
    then (let (s, stopped) = stop_listening i s in
        let (s, sent) =
          send_prefered_networktype (s.handlers i).desired_network_type (to_handler i) s in
        (put i (record (s.handlers i) { desired_network_type = 4294967295 }) s, stopped ++ sent))
    else (s, [])

-- A handler is made if there is none and the thread has a looper.
unfoldable pub make_handler : (looper : Bool) → Ril → Ril
unfolding put
make_handler looper s = elim s.handler [
  | some i ↦ s
  | none ↦
      if looper
      then put s.created
          (record { desired_network_type = 0; is_registered = false; networktype_response = none })
          (record s { handler = some s.created; created = s.created + 1 })
      else s
]

-- setPreferredNetworkType of the class
unfoldable pub set_preferred_network_type :
    Network → (network_type : ℕ) → (response : Option ℕ) → Ril → Option Done
unfolding make_handler set_prefered_network_type has_network_type_changed send_prefered_networktype
set_preferred_network_type n t response s =
    if need_reconnect n
    then (do
      changed ← has_network_type_changed n.network_class t
      let s1 = make_handler n.looper s
      if changed
          then (do i ← s1.handler; some (set_prefered_network_type i t response s1))
          else some (s1, []))
    else some (send_prefered_networktype t (to_caller response) (record s { handler = none }))
