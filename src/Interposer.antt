-- ===== src/Interposer.antt =====
-- libshims/libGui/libshim_gps.c, between Samsung's GPS library and Android M: the constructor of
-- SensorManager and createEventQueue that Android M lacks, CRYPTO_malloc, and the clean-up when the
-- library is unloaded. The calls that it makes into libutils and libgui, which are not in the
-- repository, are events; an object is its address. The log is left out.
pub mod Sessions
use android_device_samsung_c.Base.{ℕ, Option, none, some, List, [], ◌∷◌, ◌++◌}
use android_device_samsung_c.Memory.{Mem}
use Prim.Native.String.{String}

pub data Event : Type 0 where
  string16_new : (str : ℕ) (text : String) → Event
  string16_delete : (str : ℕ) → Event
  string8_new : (str : ℕ) (text : String) → Event
  string8_delete : (str : ℕ) → Event
  manager_new : (manager str : ℕ) → Event
  manager_delete : (manager : ℕ) → Event
  queue_new : (queue manager str mode : ℕ) → Event

-- android::SensorManager::SensorManager(); `str` is the string object that String16's constructor
-- makes.
unfoldable pub sensor_manager : (manager str : ℕ) → List Event
sensor_manager manager str =
    string16_new str "gps.montblanc" ∷ manager_new manager str ∷ string16_delete str ∷ []

-- android::SensorManager::createEventQueue()
unfoldable pub create_event_queue : (queue manager str : ℕ) → List Event
create_event_queue queue manager str =
    string8_new str "" ∷ queue_new queue manager str 0 ∷ string8_delete str ∷ []

-- `calloc` is that of the C library.
unfoldable pub crypto_malloc :
    (calloc : (count size : ℕ) → Option Mem) → (sz : ℕ) (file : String) (line : ℕ) → Option Mem
crypto_malloc calloc sz file line = calloc sz 1

-- libEvtUnloading: the calls, and what is left in sInstance.
unfoldable pub lib_evt_unloading : (instance : Option ℕ) → List Event × Option ℕ
lib_evt_unloading none = ([], none)
lib_evt_unloading (some manager) = (manager_delete manager ∷ [], none)
