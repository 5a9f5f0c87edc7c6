-- ===== src/Arbitrator.antt =====
-- src/urf-arbitrator.c: the devices, the switches of the types, and the kernel's rfkill events.
-- Log lines are left out: where they name a type, a switch of the type was read just before or is
-- read next, so that the name exists. print_event, which comes first for an event, is modelled.

pub mod Orders
pub mod Events
pub mod Keeps
pub mod Invariant
pub mod Devices
pub mod Lookup
pub mod Table
pub mod Register
pub mod Steps
pub mod Refine
pub mod Block
pub mod BlockIndex
pub mod Outputs
pub mod Announced
pub mod Startup
pub mod FlightMode
pub mod FlightLoop
pub mod Restore
use urfkill.Prelude.{
  ℕ, ◌+◌, Bool, true, false, not, Option, none, some, List, [], ◌∷◌, ◌++◌, ◌==◌, ◌&&◌, ◌>>=◌, leb,
  ltb, ℤ, pos, negsuc, remove, is_empty, if◌then◌else◌,
}
use urfkill.Utils.{
  KillswitchState, no_adapter, unblocked, gtb, state_eq, of_bool, num_rfkill_types, rfkill_type_all,
  rfkill_type_wlan,
}
use urfkill.Store.{Device, Outside, Store, put_out, device_added, device_removed}
use urfkill.Device.{
  get_index, get_device_type, get_state, get_object_path, is_software_blocked, is_platform,
  urf_device_set_software_blocked,
}
use urfkill.Killswitch.{
  Killswitch, urf_killswitch_get_state, urf_killswitch_set_saved_state, urf_killswitch_add_device,
  urf_killswitch_del_device, urf_killswitch_set_software_blocked, urf_killswitch_new,
}
use urfkill.Config.{KeyFile, Config, urf_config_get_persist_state, urf_config_set_persist_state}

-- struct UrfArbitratorPrivate with the objects that it points to. `killswitch` gives none where
-- the array holds NULL and outside the array. `config` is the one UrfConfig object, which the
-- daemon shares.
pub record Arbitrator (File : Type 0) : Type 0 where
  pub config : Config File
  pub force_sync : Bool
  pub persist : Bool
  pub devices : List ℕ
  pub killswitch : ℕ → Option Killswitch
  pub store : Store

abbrev pub set_killswitch : (ℕ → Option Killswitch) → ℕ → Killswitch → ℕ → Option Killswitch
set_killswitch switches t ks u = if t == u then some ks else switches u

-- for (i = RFKILL_TYPE_ALL + 1; i < NUM_RFKILL_TYPES; i++)
abbrev pub switch_types : List ℕ
switch_types = 1 ∷ 2 ∷ 3 ∷ 4 ∷ 5 ∷ 6 ∷ 7 ∷ 8 ∷ []

unfoldable pub find_from : (ℕ → Device) → List ℕ → ℕ → Option ℕ
find_from heap [] index = none
find_from heap (p ∷ ps) index =
    if get_index (heap p) == index then some p else find_from heap ps index

module _ {File : Type 0} where
  unfoldable pub urf_arbitrator_find_device : Arbitrator File → ℤ → Option ℕ
  urf_arbitrator_find_device a (negsuc n) = none
  urf_arbitrator_find_device a (pos index) = find_from a.store.heap a.devices index

  unfoldable pub urf_arbitrator_has_devices : Arbitrator File → Bool
  urf_arbitrator_has_devices a = not (is_empty a.devices)

  unfoldable pub urf_arbitrator_get_device : Arbitrator File → ℤ → Option ℕ
  unfolding urf_arbitrator_find_device
  urf_arbitrator_get_device a index = urf_arbitrator_find_device a index

  unfoldable pub urf_arbitrator_get_state :
      ℤ → Arbitrator File → Option (KillswitchState × Arbitrator File)
  urf_arbitrator_get_state (negsuc n) a = some (no_adapter, a)
  urf_arbitrator_get_state (pos t) a =
      let type = if t == rfkill_type_all then rfkill_type_wlan else t in
      let read : Option (KillswitchState × Arbitrator File) = (do
        ks ← a.killswitch type
        let (state, ks', s) = urf_killswitch_get_state ks a.store
        some (state, record a { killswitch = set_killswitch a.killswitch type ks'; store = s })) in
      if leb num_rfkill_types t then some (no_adapter, a) else read

  unfoldable pub urf_arbitrator_get_state_idx : Arbitrator File → ℤ → KillswitchState
  unfolding urf_arbitrator_find_device
  urf_arbitrator_get_state_idx a index = elim (urf_arbitrator_find_device a index) [
    | none ↦ no_adapter
    | some p ↦ get_state (a.store.heap p)
  ]

  -- urf_arbitrator_init, with the config and the options that urf_arbitrator_startup sets.
  unfoldable pub urf_arbitrator_init :
      Config File → (force_sync persist : Bool) → Store → Arbitrator File
  unfolding urf_killswitch_new
  urf_arbitrator_init config force_sync persist s = record {
    config = config;
    force_sync = force_sync;
    persist = persist;
    devices = [];
    killswitch = λ i. if i == rfkill_type_all then none else urf_killswitch_new i;
    store = s;
  }

  -- The part that urf_arbitrator_remove_device and remove_killswitch share, for the device at `p`.
  unfoldable pub drop_device : ℕ → Arbitrator File → Option (Arbitrator File)
  drop_device p a = do
    let device = a.store.heap p
    let type = get_device_type device
    ks ← a.killswitch type
    let (ks', s) = urf_killswitch_del_device ks p a.store
    some (record a {
      devices = remove p a.devices;
      killswitch = set_killswitch a.killswitch type ks';
      store = put_out s (device_removed (get_object_path device));
    })

module _ {File : Type 0} (kf : KeyFile File) (w : Outside) where
  -- The else branch of urf_arbitrator_set_block: a block that succeeded is kept in the file.
  unfoldable pub keep_block : ℕ → Bool → (result : Bool) → Config File → Option (Config File)
  keep_block t block result config =
      if result then urf_config_set_persist_state kf config (pos t) (of_bool block) else some config

  unfoldable pub urf_arbitrator_set_block :
      ℤ → Bool → Arbitrator File → Option (Bool × Arbitrator File)
  unfolding keep_block
  urf_arbitrator_set_block (negsuc n) block a = some (false, a)
  urf_arbitrator_set_block (pos t) block a =
      let set : Option (Bool × Arbitrator File) = (do
        ks ← a.killswitch t
        let (result, s) = urf_killswitch_set_software_blocked w ks block a.store
        saved ← keep_block t block result a.config
        some (result, record a { config = saved; store = s })) in
      if leb num_rfkill_types t then some (false, a) else set

  unfoldable pub urf_arbitrator_set_block_idx : ℤ → Bool → Arbitrator File → Bool × Arbitrator File
  unfolding urf_arbitrator_find_device
  urf_arbitrator_set_block_idx index block a = elim (urf_arbitrator_find_device a index) [
    | none ↦ (false, a)
    | some p ↦
        let (result, s) = urf_device_set_software_blocked w p block a.store in
        (result, record a { store = s })
  ]

  -- What set_flight_mode asks of a switch whose state is `state`.
  unfoldable pub want_state : (block : Bool) → (state saved_state : KillswitchState) → Bool
  want_state block state saved_state =
      if not block && state_eq state saved_state then gtb saved_state unblocked else block

  -- One round of the loop of urf_arbitrator_set_flight_mode; `ret` is its variable.
  unfoldable pub flight_mode_round :
      (block : Bool) → (i : ℕ) → Bool → Arbitrator File → Option (Bool × Arbitrator File)
  unfolding want_state
  flight_mode_round block i ret a = do
    ks ← a.killswitch i
    let (state, ks', s) = urf_killswitch_get_state ks a.store
    let saved_state = ks'.saved_state
    let ks'' = if block then urf_killswitch_set_saved_state ks' state else ks'
    let present = record a { killswitch = set_killswitch a.killswitch i ks''; store = s }
    let absent = record a { killswitch = set_killswitch a.killswitch i ks'; store = s }
    let set = urf_arbitrator_set_block (pos i) (want_state block state saved_state) present
    if state_eq state no_adapter then some (ret, absent) else set

  unfoldable pub flight_mode_loop :
      (block : Bool) → List ℕ → Bool → Arbitrator File → Option (Bool × Arbitrator File)
  flight_mode_loop block [] ret a = some (ret, a)
  flight_mode_loop block (i ∷ is) ret a = do
    (ret', a') ← flight_mode_round block i ret a
    flight_mode_loop block is ret' a'

  unfoldable pub urf_arbitrator_set_flight_mode :
      Bool → Arbitrator File → Option (Bool × Arbitrator File)
  unfolding flight_mode_loop
  urf_arbitrator_set_flight_mode block a = do
    saved ← urf_config_set_persist_state kf a.config (pos rfkill_type_all) (of_bool block)
    flight_mode_loop block switch_types false (record a { config = saved })

  -- The two synchronisations of urf_arbitrator_add_device, for the device at `p`.
  unfoldable pub sync_new_device : ℕ → Arbitrator File → Arbitrator File
  unfolding urf_arbitrator_set_block_idx
  sync_new_device p a =
      let device = a.store.heap p in
      if a.force_sync && not (is_platform device)
      then (urf_arbitrator_set_block_idx (pos (get_index device)) (is_software_blocked device) a).1
      else a

  unfoldable pub restore_new_device : (index type : ℕ) → Arbitrator File → Option (Arbitrator File)
  unfolding urf_arbitrator_set_block_idx
  restore_new_device index type a =
      let restored : Option (Arbitrator File) = (do
        soft ← urf_config_get_persist_state kf a.config (pos type)
        some (urf_arbitrator_set_block_idx (pos index) soft a).1) in
      if a.persist then restored else some a

  unfoldable pub urf_arbitrator_add_device : ℕ → Arbitrator File → Option (Arbitrator File)
  unfolding sync_new_device restore_new_device
  urf_arbitrator_add_device p a = do
    let device = a.store.heap p
    let type = get_device_type device
    ks ← a.killswitch type
    let (ks', s) = urf_killswitch_add_device ks p a.store
    let listed = record a {
      devices = a.devices ++ p ∷ [];
      killswitch = set_killswitch a.killswitch type ks';
      store = s;
    }
    restored ← restore_new_device (get_index device) type (sync_new_device p listed)
    some
        (record restored { store = put_out restored.store (device_added (get_object_path device)) })

  -- The loop of urf_arbitrator_dispose that keeps the states of the switches. The whole state is
  -- saved: the call's argument is a KillswitchState here.
  unfoldable pub save_states : List ℕ → Arbitrator File → Option (Arbitrator File)
  save_states [] a = some a
  save_states (i ∷ is) a = do
    ks ← a.killswitch i
    let (state, ks', s) = urf_killswitch_get_state ks a.store
    saved ← urf_config_set_persist_state kf a.config (pos i) state
    save_states is
        (record a { config = saved; killswitch = set_killswitch a.killswitch i ks'; store = s })

  unfoldable pub urf_arbitrator_dispose : Arbitrator File → Option (Config File)
  urf_arbitrator_dispose a =
      let saved : Option (Config File) = (do a' ← save_states switch_types a; some a'.config) in
      if a.persist then saved else some a.config
