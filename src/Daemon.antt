-- ===== src/Daemon.antt =====
-- src/urf-daemon.c: the methods of org.freedesktop.URfkill, and the keys.
pub mod Rights
pub mod Keys
pub mod Pressing
pub mod Start
pub mod Properties
pub mod Announce
use urfkill.Prelude.{
  ℕ, Bool, true, false, not, Option, none, some, String, List, [], ◌∷◌, map, ◌==◌, ◌&&◌, ◌>>=◌, ℤ,
  pos, negsuc, to_gint, if◌then◌else◌,
}
use urfkill.Utils.{
  KillswitchState, no_adapter, unblocked, soft_blocked, hard_blocked, rfkill_type_all,
  rfkill_type_wlan, rfkill_type_bluetooth, rfkill_type_uwb, rfkill_type_wimax, of_bool,
}
use urfkill.Store.{DevicePath, Outside}
use urfkill.Device.{get_object_path}
use urfkill.Config.{KeyFile, urf_config_set_persist_state}
use urfkill.Arbitrator.{
  Arbitrator, urf_arbitrator_has_devices, urf_arbitrator_get_state, urf_arbitrator_set_block,
  urf_arbitrator_set_block_idx, urf_arbitrator_set_flight_mode,
}
use urfkill.Session.{
  Bus, SessionChecker, urf_session_checker_is_inhibited, urf_session_checker_inhibit,
  urf_session_checker_uninhibit,
}

-- The ways in which src/urf-polkit.c refuses a call.
pub data Refusal : Type 0 where
  no_subject not_checked not_authorized : Refusal

-- The answers to a call: the values of a reply, or an error.
pub data Reply : Type 0 where
  error : Refusal → Reply
  boolean : Bool → Reply
  cookie : ℕ → Reply
  paths : List DevicePath → Reply

-- The signals of the daemon that do not come from the arbitrator.
pub data Signal : Type 0 where
  flight_mode_changed : Bool → Signal
  urfkey_pressed : ℕ → Signal

-- struct UrfDaemonPrivate, with what the daemon has replied and signalled, the latest first.
-- `config` is the arbitrator's: they share one object.
pub record Daemon (File : Type 0) : Type 0 where
  pub arbitrator : Arbitrator File
  pub session_checker : SessionChecker
  pub flight_mode : Bool
  pub master_key : Bool
  pub key_control : Bool
  pub replies : List Reply
  pub signals : List Signal

-- The caller of a method: its name on the bus, and what polkit says of it. `subject` tells whether
-- it is found, and `authorization` gives the answer for an action, or none for an error.
pub record Caller : Type 0 where
  pub name : String
  pub subject : Bool
  pub authorization : String → Option Bool

-- The methods, with the parameters as the introspection data types them.
pub data Call : Type 0 where
  block : (type : ℕ) → Bool → Call
  block_idx : (index : ℕ) → Bool → Call
  enumerate_devices : Call
  is_flight_mode : Call
  flight_mode : Bool → Call
  is_inhibited : Call
  inhibit : (reason : String) → Call
  uninhibit : (cookie : ℕ) → Call

-- The key codes of linux/input.h: KEY_WLAN, KEY_BLUETOOTH, KEY_UWB, KEY_WIMAX and KEY_RFKILL.
unfoldable pub key_type : ℕ → Option ℕ
key_type code =
    if code == 238
    then some rfkill_type_wlan
    else if code == 237
    then some rfkill_type_bluetooth
    else if code == 239
    then some rfkill_type_uwb
    else if code == 246
    then some rfkill_type_wimax
    else if code == 247
    then some rfkill_type_all
    else none

-- What a key asks for, by the state of its switch. none leaves the switches alone.
unfoldable pub key_block : KillswitchState → Option Bool
key_block no_adapter = none
key_block unblocked = some true
key_block soft_blocked = some false
key_block hard_blocked = some true

module _ {File : Type 0} where
  abbrev pub reply : Reply → Daemon File → Daemon File
  reply r d = record d { replies = r ∷ d.replies }

  -- The label `out` of urf_daemon_input_event_cb.
  abbrev pub press : ℕ → Daemon File → Daemon File
  press code d = record d { signals = urfkey_pressed code ∷ d.signals }

  unfoldable pub urf_daemon_enumerate_devices : Daemon File → Daemon File
  urf_daemon_enumerate_devices d =
      let a = d.arbitrator in
      reply (paths (map (λ p. get_object_path (a.store.heap p)) a.devices)) d

  unfoldable pub urf_daemon_is_flight_mode : Daemon File → Daemon File
  urf_daemon_is_flight_mode d = reply (boolean d.flight_mode) d

  unfoldable pub urf_daemon_is_inhibited : Daemon File → Daemon File
  urf_daemon_is_inhibited d = reply (boolean (urf_session_checker_is_inhibited d.session_checker)) d

  unfoldable pub urf_daemon_inhibit :
      Bus → (draws : List ℕ) → (bus_name reason : String) → Daemon File → Option (Daemon File)
  unfolding urf_session_checker_inhibit
  urf_daemon_inhibit bus draws bus_name reason d = do
    (c, checker) ← urf_session_checker_inhibit bus draws bus_name reason d.session_checker
    some (reply (cookie c) (record d { session_checker = checker }))

  unfoldable pub urf_daemon_uninhibit : ℕ → Daemon File → Daemon File
  unfolding urf_session_checker_uninhibit
  urf_daemon_uninhibit c d = record d {
    session_checker = urf_session_checker_uninhibit c d.session_checker;
  }

  unfoldable pub urf_polkit_get_subject : Caller → Daemon File → Bool × Daemon File
  urf_polkit_get_subject caller d =
      if caller.subject then (true, d) else (false, reply (error no_subject) d)

  unfoldable pub urf_polkit_check_auth :
      Caller → (action_id : String) → Daemon File → Bool × Daemon File
  urf_polkit_check_auth caller action_id d = elim (caller.authorization action_id) [
    | none ↦ (false, reply (error not_checked) d)
    | some true ↦ (true, d)
    | some false ↦ (false, reply (error not_authorized) d)
  ]

  -- The conditions that urf_daemon_block, urf_daemon_block_idx and urf_daemon_flight_mode share.
  unfoldable pub permitted : Caller → (action_id : String) → Daemon File → Bool × Daemon File
  unfolding urf_arbitrator_has_devices urf_polkit_get_subject urf_polkit_check_auth
  permitted caller action_id d =
      let (found, asked) = urf_polkit_get_subject caller d in
      let checked = urf_polkit_check_auth caller action_id asked in
      if not (urf_arbitrator_has_devices d.arbitrator)
      then (false, d)
      else if not found
      then (false, asked)
      else checked

  module _ (kf : KeyFile File) (w : Outside) where
    -- The part of urf_daemon_input_event_cb that changes the switches.
    unfoldable pub press_type : (type : ℕ) → Daemon File → Option (Daemon File)
    unfolding key_block
    press_type type d = do
      (state, read) ← urf_arbitrator_get_state (pos type) d.arbitrator
      let seen = record d { arbitrator = read }
      let target = if d.master_key then rfkill_type_all else type
      elim (key_block state) [
        | none ↦ some seen
        | some b ↦ (do
          (ret, a) ← urf_arbitrator_set_block kf w (pos target) b read
          some (record d { arbitrator = a }))
      ]

    unfoldable pub urf_daemon_input_event_cb : (code : ℕ) → Daemon File → Option (Daemon File)
    unfolding key_type press_type
    urf_daemon_input_event_cb code d =
        let typed : Option (Daemon File) = elim (key_type code) [
          | none ↦ some d
          | some type ↦ (do d' ← press_type type d; some (press code d'))
        ] in
        if urf_session_checker_is_inhibited d.session_checker then some (press code d) else typed

    unfoldable pub urf_daemon_block : Caller → ℤ → Bool → Daemon File → Option (Bool × Daemon File)
    unfolding permitted
    urf_daemon_block caller (negsuc n) blocked d = some (false, d)
    urf_daemon_block caller (pos type) blocked d =
        let (ok, asked) = permitted caller "org.freedesktop.urfkill.block" d in
        let set : Option (Bool × Daemon File) = (do
          (ret, a) ← urf_arbitrator_set_block kf w (pos type) blocked d.arbitrator
          some (ret, reply (boolean ret) (record d { arbitrator = a }))) in
        if ok then set else some (false, asked)

    unfoldable pub urf_daemon_block_idx : Caller → ℤ → Bool → Daemon File → Bool × Daemon File
    unfolding permitted
    urf_daemon_block_idx caller (negsuc n) blocked d = (false, d)
    urf_daemon_block_idx caller (pos index) blocked d =
        let (ok, asked) = permitted caller "org.freedesktop.urfkill.blockidx" d in
        let (ret, a) = urf_arbitrator_set_block_idx kf w (pos index) blocked d.arbitrator in
        if ok then (ret, reply (boolean ret) (record d { arbitrator = a })) else (false, asked)

    -- The branch of urf_daemon_flight_mode for a result that is TRUE.
    unfoldable pub enter_flight_mode : Bool → Daemon File → Option (Daemon File)
    enter_flight_mode blocked d = do
      let a = d.arbitrator
      saved ← urf_config_set_persist_state kf a.config (pos rfkill_type_all) (of_bool blocked)
      some (record d {
        arbitrator = record a { config = saved };
        flight_mode = blocked;
        signals = flight_mode_changed blocked ∷ d.signals;
      })

    unfoldable pub urf_daemon_flight_mode :
        Caller → Bool → Daemon File → Option (Bool × Daemon File)
    unfolding permitted enter_flight_mode
    urf_daemon_flight_mode caller blocked d =
        let (ok, asked) = permitted caller "org.freedesktop.urfkill.flight_mode" d in
        let set : Option (Bool × Daemon File) = (do
          (ret, a) ← urf_arbitrator_set_flight_mode kf w blocked d.arbitrator
          let flown = record d { arbitrator = a }
          d' ← (if ret then enter_flight_mode blocked flown else some flown)
          some (ret, reply (boolean ret) d')) in
        if ok then set else some (false, asked)

    -- handle_method_call_main. `draws` is what g_random_int_range gives during the call. A `u`
    -- that is stored in a `gint` may come out negative.
    unfoldable pub handle_method_call :
        Bus → (draws : List ℕ) → Caller → Call → Daemon File → Option (Daemon File)
    unfolding urf_daemon_block urf_daemon_block_idx urf_daemon_flight_mode urf_daemon_inhibit
    handle_method_call bus draws caller (block type b) d = do
      (ret, d') ← urf_daemon_block caller (to_gint type) b d
      some d'
    handle_method_call bus draws caller (block_idx index b) d =
        some (urf_daemon_block_idx caller (to_gint index) b d).1
    handle_method_call bus draws caller enumerate_devices d = some (urf_daemon_enumerate_devices d)
    handle_method_call bus draws caller is_flight_mode d = some (urf_daemon_is_flight_mode d)
    handle_method_call bus draws caller (flight_mode b) d = do
      (ret, d') ← urf_daemon_flight_mode caller b d
      some d'
    handle_method_call bus draws caller is_inhibited d = some (urf_daemon_is_inhibited d)
    handle_method_call bus draws caller (inhibit reason) d =
        urf_daemon_inhibit bus draws caller.name reason d
    handle_method_call bus draws caller (uninhibit c) d = some (urf_daemon_uninhibit c d)
