-- ===== src/Killswitch.antt =====
-- src/urf-killswitch.c: the switch of one rfkill type, which stands for all devices of the type.

pub mod Orders
pub mod Aggregate
pub mod Registration
pub mod Block
use urfkill.Prelude.{
  ℕ, ◌≤◌, Bool, true, false, not, Option, none, some, List, [], ◌∷◌, ◌==◌, ◌&&◌, ◌||◌, mem, remove,
  is_empty, if◌then◌else◌, leb, ◌<◌,
}
use urfkill.Utils.{
  KillswitchState, no_adapter, unblocked, gtb, state_eq, num_rfkill_types, rfkill_type_all,
}
use urfkill.Store.{Device, Outside, Store, put_out, switch_changed}
use urfkill.Device.{get_state, is_platform, get_device_type, urf_device_set_software_blocked}

-- struct UrfKillswitchPrivate, less its D-Bus registration.
pub record Killswitch : Type 0 where
  pub devices : List ℕ
  pub type : ℕ
  pub saved_state : KillswitchState
  pub state : KillswitchState

unfoldable pub aggregate_states : (platform non_platform : KillswitchState) → KillswitchState
aggregate_states platform non_platform =
    if state_eq platform unblocked && not (state_eq non_platform no_adapter)
    then non_platform
    else platform

-- The variables of the loop in urf_killswitch_state_refresh.
pub record Scan : Type 0 where
  pub platform_checked : Bool
  pub platform : KillswitchState
  pub new_state : KillswitchState

abbrev pub scan_start : Scan
scan_start = record { platform_checked = false; platform = no_adapter; new_state = no_adapter }

-- The body of the loop.
unfoldable pub scan_device : Device → Scan → Scan
scan_device device v =
    let state = get_state device in
    if is_platform device
    then record v {
      platform_checked = true;
      platform = if gtb state v.platform then state else v.platform;
    }
    else record v { new_state = if gtb state v.new_state then state else v.new_state }

unfoldable pub scan : (ℕ → Device) → List ℕ → Scan → Scan
scan heap [] v = v
scan heap (p ∷ ps) v = scan heap ps (scan_device (heap p) v)

-- The state that the devices of a switch add up to.
unfoldable pub current_state : (ℕ → Device) → List ℕ → KillswitchState
current_state heap ps =
    let v = scan heap ps scan_start in
    if v.platform_checked then aggregate_states v.platform v.new_state else v.new_state

-- The switch after the call, and the store, whose output has the two D-Bus signals
-- "PropertiesChanged" and "StateChanged" as one entry if the state changed.
unfoldable pub urf_killswitch_state_refresh : Killswitch → Store → Killswitch × Store
urf_killswitch_state_refresh ks s =
    let new_state = current_state s.heap ks.devices in
    if is_empty ks.devices
    then (record ks { state = no_adapter; saved_state = no_adapter }, s)
    else if state_eq ks.state new_state
    then (ks, s)
    else (record ks { state = new_state }, put_out s (switch_changed ks.type new_state))

unfoldable pub urf_killswitch_get_state : Killswitch → Store → KillswitchState × Killswitch × Store
unfolding urf_killswitch_state_refresh
urf_killswitch_get_state ks s =
    let (ks', s') = urf_killswitch_state_refresh ks s in (ks'.state, ks', s')

abbrev pub urf_killswitch_set_saved_state : Killswitch → KillswitchState → Killswitch
urf_killswitch_set_saved_state ks state = record ks { saved_state = state }

-- The handler that the call connects to "state-changed" is never run: no class emits that signal
-- (UrfDeviceKernel emits "changed", a signal of its own).
unfoldable pub urf_killswitch_add_device : Killswitch → ℕ → Store → Killswitch × Store
unfolding urf_killswitch_state_refresh
urf_killswitch_add_device ks p s =
    if not (get_device_type (s.heap p) == ks.type) || mem p ks.devices
    then (ks, s)
    else urf_killswitch_state_refresh (record ks { devices = p ∷ ks.devices }) s

unfoldable pub urf_killswitch_del_device : Killswitch → ℕ → Store → Killswitch × Store
unfolding urf_killswitch_state_refresh
urf_killswitch_del_device ks p s =
    if not (get_device_type (s.heap p) == ks.type) || not (mem p ks.devices)
    then (ks, s)
    else urf_killswitch_state_refresh (record ks { devices = remove p ks.devices }) s

-- The loop of urf_killswitch_set_software_blocked; `ret` is its variable.
unfoldable pub block_devices : Outside → List ℕ → Bool → Bool → Store → Bool × Store
block_devices w [] blocked ret s = (ret, s)
block_devices w (p ∷ ps) blocked ret s =
    let (result, s') = urf_device_set_software_blocked w p blocked s in
    block_devices w ps blocked (if not result then false else ret) s'

unfoldable pub urf_killswitch_set_software_blocked :
    Outside → Killswitch → Bool → Store → Bool × Store
unfolding block_devices
urf_killswitch_set_software_blocked w ks blocked s = block_devices w ks.devices blocked true s

-- NULL for a type that is no kind of switch; `type` is an enum, and is not negative.
unfoldable pub urf_killswitch_new : ℕ → Option Killswitch
urf_killswitch_new type =
    if leb type rfkill_type_all || leb num_rfkill_types type
    then none
    else some (record { devices = []; type = type; saved_state = no_adapter; state = no_adapter })
