-- ===== src/Client/Switches.antt =====
-- liburfkill-glib/urf-killswitch.c: the switches that a program which uses the library holds, one
-- for each type.
pub mod Kept
pub mod Heard
use urfkill.Prelude.{
  ℕ, ◌+◌, ◌-◌, Bool, true, false, not, Option, none, some, String, List, [], ◌∷◌, ◌==◌, leb, ◌||◌,
  ◌>>=◌, ℤ, pos, negsuc, if◌then◌else◌, is_empty,
}
use urfkill.Utils.{
  num_rfkill_types, rfkill_type_all, rfkill_type_wlan, rfkill_type_bluetooth, rfkill_type_uwb,
  rfkill_type_wimax, rfkill_type_wwan, KillswitchState, no_adapter, unblocked, soft_blocked,
}
use urfkill.Daemon.{block}
use urfkill.Daemon.Properties.{state_code}
use urfkill.Client.{is_absolute}
use urfkill.Client.Calls.{Bus}

-- struct _UrfKillswitchPrivate, with the number of references that the program holds and the
-- states that the object has emitted, the latest first.
pub record Switch : Type 0 where
  pub proxy : Bool
  pub type : ℕ
  pub state : ℤ
  pub object_path : Option String
  pub references : ℕ
  pub emitted : List ℤ

-- The bus, as a switch sees it: whether the proxy of a path can be made, and if so the property
-- "state" that it holds.
abbrev pub SwitchBus : Type 0
SwitchBus = String → Option (Option ℤ)

-- The array urf_killswitch_object, on the types below URF_ENUM_TYPE_NUM.
abbrev pub Switches : Type 0
Switches = ℕ → Option Switch

abbrev pub set_switch : ℕ → Option Switch → Switches → Switches
set_switch t k table u = if t == u then k else table u

-- `a == b` on two numbers of type int.
abbrev pub int_eq : ℤ → ℤ → Bool
int_eq (pos a) (pos b) = a == b
int_eq (negsuc a) (negsuc b) = a == b
int_eq _ _ = false

unfoldable pub urf_killswitch_init : (type : ℕ) → Switch
urf_killswitch_init type = record {
  proxy = false;
  type = type;
  state = pos 0;
  object_path = none;
  references = 1;
  emitted = [];
}

-- A proxy without the property is a read of NULL.
unfoldable pub urf_killswitch_set_object_path_sync :
    SwitchBus → (object_path : Option String) → Switch → Option (Bool × Switch)
urf_killswitch_set_object_path_sync bus none k = some (false, k)
urf_killswitch_set_object_path_sync bus (some object_path) k =
    let connected : Option (Bool × Switch) = elim (bus object_path) [
      | none ↦ some (false, k)
      | some value ↦ (do
        state ← value
        some (true, record k { proxy = true; object_path = some object_path; state = state }))
    ] in
    let is_new : Bool = elim k.object_path [ none ↦ true | some old ↦ false ] in
    if not is_new
    then some (false, k)
    else if not (is_absolute object_path)
    then some (true, k)
    else connected

-- The path that urf_killswitch_startup takes for a type.
unfoldable pub startup_path : (type : ℕ) → Option String
startup_path t =
    if t == rfkill_type_wlan
    then some "/org/freedesktop/URfkill/WLAN"
    else if t == rfkill_type_bluetooth
    then some "/org/freedesktop/URfkill/BLUETOOTH"
    else if t == rfkill_type_uwb
    then some "/org/freedesktop/URfkill/UWB"
    else if t == rfkill_type_wimax
    then some "/org/freedesktop/URfkill/WIMAX"
    else if t == rfkill_type_wwan
    then some "/org/freedesktop/URfkill/WWAN"
    else if t == 6
    then some "/org/freedesktop/URfkill/GPS"
    else if t == 7
    then some "/org/freedesktop/URfkill/FM"
    else if t == 8
    then some "/org/freedesktop/URfkill/NFC"
    else none

unfoldable pub urf_killswitch_startup : SwitchBus → Switch → Option (Bool × Switch)
unfolding startup_path urf_killswitch_set_object_path_sync
urf_killswitch_startup bus k = urf_killswitch_set_object_path_sync bus (startup_path k.type) k

-- urf_killswitch_new, with the array after it. A type from URF_ENUM_TYPE_NUM on reads out of the
-- array.
unfoldable pub urf_killswitch_new :
    SwitchBus → (type : ℕ) → Switches → Option (Option Switch × Switches)
unfolding urf_killswitch_startup urf_killswitch_init
urf_killswitch_new bus type table =
    let made : Option (Option Switch × Switches) = elim (table type) [
      | some k ↦
          let k' = record k { references = k.references + 1 } in
          some (some k', set_switch type (some k') table)
      | none ↦ (do
        (ok, k) ← urf_killswitch_startup bus (urf_killswitch_init type)
        some (if ok then (some k, set_switch type (some k) table) else (none, table)))
    ] in
    if type == rfkill_type_all
    then some (none, table)
    else if leb num_rfkill_types type
    then none
    else made

-- g_object_unref on the switch of a type. The last one runs urf_killswitch_dispose and
-- urf_killswitch_finalize, and the weak pointer in the array is cleared.
unfoldable pub unref : (type : ℕ) → Switches → Switches
unref type table = elim (table type) [
  | none ↦ table
  | some k ↦
      set_switch type
        (if leb k.references 1 then none else some (record k { references = k.references - 1 }))
        table
]

-- urf_killswitch_changed_cb, where the proxy holds `state`.
unfoldable pub urf_killswitch_changed_cb : (state : ℤ) → Switch → Switch
urf_killswitch_changed_cb state k =
    if int_eq k.state state then k else record k { state = state; emitted = state ∷ k.emitted }

abbrev pub urf_killswitch_get_switch_type : Switch → ℕ
urf_killswitch_get_switch_type k = k.type

-- urf_killswitch_get_property
abbrev pub get_state : Switch → ℤ
get_state k = k.state

module _ {World : Type 0} (call : Bus World) where
  -- `connected` tells whether the proxy that the function makes for itself can be made. What comes
  -- back (set_block_cb) only makes a log line.
  unfoldable pub urf_killswitch_set_block :
      (connected : Bool) → Switch → (state : ℤ) → World → World
  urf_killswitch_set_block connected k state world =
      let b = if int_eq state (state_code unblocked) then false else true in
      if connected then (call (block k.type b) world).1 else world

  -- urf_killswitch_set_property
  unfoldable pub set_state : (connected : Bool) → Switch → (state : ℤ) → World → World
  unfolding urf_killswitch_set_block
  set_state connected k state world =
      let asked = urf_killswitch_set_block connected k state world in
      if int_eq state (state_code unblocked) || int_eq state (state_code soft_blocked)
      then asked
      else world
