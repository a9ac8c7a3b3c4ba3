-- ===== src/Interposer/Sessions.antt =====
-- What libshims/libGui/libshim_gps.c makes of the calls of a client between loading and unloading. The
-- GPS library, its client, is not in the repository: any list of steps stands for it, also such as
-- misuse sensor managers. As the comment at sInstance says, it stores the manager that it creates in
-- sInstance, and null behind one that it destroys by itself.
use android_device_samsung_c.Base.{
  ℕ, ◌≡◌, refl, Bool, true, false, Option, none, some, List, [], ◌∷◌, ◌++◌, ◌==◌, ==_refl,
  if◌then◌else◌, ◌>>=◌, ◌&&◌, Bool-cases, inl, inr,
}
use android_device_samsung_c.Interposer.{
  Event, string16_new, string16_delete, string8_new, string8_delete, manager_new, manager_delete,
  queue_new, sensor_manager, create_event_queue, lib_evt_unloading,
}

pub data Step : Type 0 where
  create : (manager str : ℕ) → Step
  queue : (queue manager str : ℕ) → Step
  destroy : (manager : ℕ) → Step

-- The calls of the steps and then of libEvtUnloading, where sInstance is `instance` before.
unfoldable pub calls : (instance : Option ℕ) → List Step → List Event
calls instance [] = (lib_evt_unloading instance).0
calls instance (create manager str ∷ steps) =
    sensor_manager manager str ++ calls (some manager) steps
calls instance (queue q manager str ∷ steps) =
    create_event_queue q manager str ++ calls instance steps
calls instance (destroy manager ∷ steps) = manager_delete manager ∷ calls none steps

-- The objects that have been constructed and not destroyed; there is room for one of each kind.
pub record Alive : Type 0 where
  pub string16 : Option ℕ
  pub string8 : Option ℕ
  pub manager : Option ℕ

abbrev pub nothing : Alive
nothing = record { string16 = none; string8 = none; manager = none }

unfoldable pub holds : Option ℕ → ℕ → Bool
holds none x = false
holds (some y) x = x == y

unfoldable pub is_free : Option ℕ → Bool
is_free none = true
is_free (some y) = false

-- The client creates a manager only while there is none, and makes queues of, and destroys, only the
-- one that there is.
unfoldable pub is_proper : (instance : Option ℕ) → List Step → Bool
is_proper instance [] = true
is_proper instance (create manager str ∷ steps) = is_free instance && is_proper (some manager) steps
is_proper instance (queue q manager str ∷ steps) =
    holds instance manager && is_proper instance steps
is_proper instance (destroy manager ∷ steps) = holds instance manager && is_proper none steps

-- `none` where an object is used that is not alive, or constructed while another one is.
unfoldable pub apply : Event → Alive → Option Alive
unfolding holds is_free
apply (string16_new str text) a =
    if is_free a.string16 then some (record a { string16 = some str }) else none
apply (string16_delete str) a =
    if holds a.string16 str then some (record a { string16 = none }) else none
apply (string8_new str text) a =
    if is_free a.string8 then some (record a { string8 = some str }) else none
apply (string8_delete str) a =
    if holds a.string8 str then some (record a { string8 = none }) else none
apply (manager_new manager str) a =
    if holds a.string16 str
    then (if is_free a.manager then some (record a { manager = some manager }) else none)
    else none
apply (manager_delete manager) a =
    if holds a.manager manager then some (record a { manager = none }) else none
apply (queue_new q manager str mode) a =
    if holds a.manager manager then (if holds a.string8 str then some a else none) else none

unfoldable pub apply_all : List Event → Alive → Option Alive
apply_all [] a = some a
apply_all (e ∷ events) a = do b ← apply e a; apply_all events b

calls_from :
    (instance : Option ℕ) (steps : List Step)
    → apply_all (calls instance steps) (record nothing { manager = instance })
      ≡ (if is_proper instance steps then some nothing else none)
unfolding calls is_proper apply_all apply holds is_free sensor_manager create_event_queue
    lib_evt_unloading
calls_from none [] = refl
calls_from (some m) [] = rw (==_refl m) refl
calls_from none (create manager str ∷ steps) =
    let rest = calls_from (some manager) steps in rw (==_refl str) (rw (==_refl str) rest)
calls_from (some m) (create manager str ∷ steps) = rw (==_refl str) refl
calls_from none (queue q manager str ∷ steps) = refl
calls_from (some m) (queue q manager str ∷ steps) = elim (Bool-cases (manager == m)) [
  | inl live ↦
      let rest = calls_from (some m) steps in rw live (rw (==_refl str) (rw (==_refl str) rest))
  | inr dead ↦ rw dead refl
]
calls_from none (destroy manager ∷ steps) = refl
calls_from (some m) (destroy manager ∷ steps) = elim (Bool-cases (manager == m)) [
  | inl live ↦ rw live (calls_from none steps)
  | inr dead ↦ rw dead refl
]

-- Between loading and unloading, with any steps of a client that keeps sInstance: the interposer
-- adds no misuse and no leak to them. If the client creates a manager only while there is none, and
-- makes queues of, and destroys, only the one that there is, then the calls into libutils and
-- libgui use only objects that are alive, construct none twice, and in the end every string and
-- every sensor manager has been destroyed; and if it does not, its own misuse is passed on.
pub session_clean :
    (steps : List Step)
    → apply_all (calls none steps) nothing ≡ (if is_proper none steps then some nothing else none)
session_clean steps = calls_from none steps
