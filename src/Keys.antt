-- ===== src/Keys.antt =====
-- device_handle_key of recovery/recovery_keys.c and of configs/recovery/recovery_keys.c, which are
-- the same: what a key does in a menu of the recovery. A key code is one of those of linux/input.h
-- that the switch names, or another.
use android_device_samsung_c.Base.{ℕ, ◌≡◌, ◌≢◌, ◌⊎◌, Bool, true, false, if◌then◌else◌, arith}

pub data Key : Type 0 where
  capslock down volumedown : Key
  menu : Key
  leftshift up volumeup : Key
  homepage power leftbrace enter btn_mouse camera f21 send : Key
  key_end backspace key_search back : Key
  other : (code : ℕ) → Key

pub data Action : Type 0 where
  no_action highlight_up highlight_down select_item go_back : Action

-- `ui_root_menu` is a global variable of the recovery.
unfoldable pub device_handle_key : (ui_root_menu : Bool) → Key → (visible : Bool) → Action
device_handle_key ui_root_menu key false = no_action
device_handle_key ui_root_menu capslock true = highlight_down
device_handle_key ui_root_menu down true = highlight_down
device_handle_key ui_root_menu volumedown true = highlight_down
device_handle_key ui_root_menu menu true = no_action
device_handle_key ui_root_menu leftshift true = highlight_up
device_handle_key ui_root_menu up true = highlight_up
device_handle_key ui_root_menu volumeup true = highlight_up
device_handle_key ui_root_menu homepage true = select_item
device_handle_key ui_root_menu power true = select_item
device_handle_key ui_root_menu leftbrace true = select_item
device_handle_key ui_root_menu enter true = select_item
device_handle_key ui_root_menu btn_mouse true = select_item
device_handle_key ui_root_menu camera true = select_item
device_handle_key ui_root_menu f21 true = select_item
device_handle_key ui_root_menu send true = select_item
device_handle_key ui_root_menu key_end true = if ui_root_menu then no_action else go_back
device_handle_key ui_root_menu backspace true = if ui_root_menu then no_action else go_back
device_handle_key ui_root_menu key_search true = if ui_root_menu then no_action else go_back
device_handle_key ui_root_menu back true = if ui_root_menu then no_action else go_back
device_handle_key ui_root_menu (other code) true = no_action

-- An action without the way back.
unfoldable pub not_back : Action → Action
not_back go_back = no_action
not_back a = a

-- In the root menu a key does what it does in another menu, except that no key leads back; and
-- while no menu is visible a key does nothing in either.
pub device_handle_key-root :
    (key : Key) (visible : Bool)
    → (device_handle_key true key visible ≡ not_back (device_handle_key false key visible))
      × (device_handle_key true key visible ≢ go_back)
      × ((visible ≡ true) ⊎ (device_handle_key false key visible ≡ no_action))
unfolding device_handle_key not_back
device_handle_key-root key false = ground arith
device_handle_key-root key true = elim key [
  | capslock ↦ ground arith
  | down ↦ ground arith
  | volumedown ↦ ground arith
  | menu ↦ ground arith
  | leftshift ↦ ground arith
  | up ↦ ground arith
  | volumeup ↦ ground arith
  | homepage ↦ ground arith
  | power ↦ ground arith
  | leftbrace ↦ ground arith
  | enter ↦ ground arith
  | btn_mouse ↦ ground arith
  | camera ↦ ground arith
  | f21 ↦ ground arith
  | send ↦ ground arith
  | key_end ↦ ground arith
  | backspace ↦ ground arith
  | key_search ↦ ground arith
  | back ↦ ground arith
  | other code ↦ ground arith
]
