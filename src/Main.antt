-- ===== src/Main.antt =====
-- src/urf-main.c: the program urfkilld, from its options to the main loop, and its log lines.
pub mod Privileges
use urfkill.Prelude.{
  ℕ, Bool, true, false, not, Option, none, some, String, List, [], ◌∷◌, str_eq, ◌&&◌, ◌||◌, ◌>>=◌,
  ℤ, pos, negsuc, if◌then◌else◌,
}
use urfkill.Store.{Device, Outside, Store}
use urfkill.Config.{KeyFile, Config}
use urfkill.Config.Rules.{Texts, DmiInfo}
use urfkill.Config.Loading.{KeyFileText, ProfileDir, urf_config_init, urf_config_load_from_file}
use urfkill.Arbitrator.{Arbitrator, urf_arbitrator_init}
use urfkill.Session.{SessionChecker}
use urfkill.Input.{urf_input_init}
use urfkill.Daemon.Start.{Service, Surroundings, urf_daemon_new, urf_daemon_startup}

-- The options of the command line.
pub record Args : Type 0 where
  pub timed_exit : Bool
  pub immediate_exit : Bool
  pub fork_daemon : Bool
  pub debug : Bool
  pub username : Option String
  pub conf_file : Option String

-- GLogLevelFlags with one flag, and all other values.
pub data LogLevel : Type 0 where
  error critical warning message info debug other : LogLevel

-- The priorities of syslog ().
pub data Priority : Type 0 where
  log_crit log_err log_warning log_notice log_info log_debug : Priority

-- The priority and the text that goes before the message.
unfoldable pub urf_log_handler : LogLevel → Priority × String
urf_log_handler error = (log_crit, "<error> ")
urf_log_handler critical = (log_err, "<critical> ")
urf_log_handler warning = (log_warning, "<warning> ")
urf_log_handler message = (log_notice, "")
urf_log_handler debug = (log_debug, "<debug> ")
urf_log_handler info = (log_info, "")
urf_log_handler other = (log_info, "")

-- Whether the handler is set for a level: URFKILL_DEFAULT_LOG_LEVEL, and `log_level |= ...`.
unfoldable pub log_level : (debug : Bool) → LogLevel → Bool
log_level d debug = d
log_level d other = false
log_level d _ = true

-- An entry of the user database.
pub record Passwd : Type 0 where
  pub pw_uid : ℕ
  pub pw_gid : ℕ

-- What fork () gives: -(n + 1), the id of the child, or 0 in the child.
pub data Fork : Type 0 where
  no_process : (n : ℕ) → Fork
  parent : (pid : ℕ) → Fork
  child : Fork

-- The system: the user database, and which calls succeed.
pub record System : Type 0 where
  pub getpwnam : String → Option Passwd
  pub initgroups : String → (gid : ℕ) → Bool
  pub setgid : (gid : ℕ) → Bool
  pub setuid : (uid : ℕ) → Bool
  pub fork : Fork

-- What the program does, as far as it can be told from outside: the calls that change its
-- credentials, where they succeed, its timers, in milliseconds, and the main loop.
pub data Action : Type 0 where
  initgroups : String → (gid : ℕ) → Action
  setgid : (gid : ℕ) → Action
  setuid : (uid : ℕ) → Action
  exit_after : (interval : ℕ) → Action
  main_loop_run : Action

-- The part of main () that changes to another user: whether it gets on, and what it has done, the
-- latest first.
unfoldable pub drop_privilege : System → (username : Option String) → Bool × List Action
drop_privilege sys none = (true, [])
drop_privilege sys (some username) =
    let changed : Passwd → Bool × List Action = λ user.
      let grouped : List Action = Action.initgroups username user.pw_gid ∷ [] in
      let joined = Action.setgid user.pw_gid ∷ grouped in
      if not (sys.initgroups username user.pw_gid)
      then (false, [])
      else if not (sys.setgid user.pw_gid)
      then (false, grouped)
      else if not (sys.setuid user.pw_uid)
      then (false, joined)
      else (true, Action.setuid user.pw_uid ∷ joined) in
    let known : Bool × List Action = elim (sys.getpwnam username) [
      | none ↦ (false, [])
      | some user ↦ changed user
    ] in
    if not (str_eq username "root") then known else (true, [])

-- main () from the change of the user on: the exit code, and what was done.
unfoldable pub serve : System → Args → (username : Option String) → ℤ × List Action
unfolding drop_privilege
serve sys args username =
    let (ok, changed) = drop_privilege sys username in
    let timed = if args.timed_exit then exit_after 30000 ∷ changed else changed in
    let timers = if args.immediate_exit then exit_after 50 ∷ timed else timed in
    let forked : ℤ × List Action = elim sys.fork [
      | no_process n ↦ (negsuc n, timers)
      | parent pid ↦ (pos 0, timers)
      | child ↦ (pos 0, main_loop_run ∷ timers)
    ] in
    if not ok
    then (pos 1, changed)
    else if args.fork_daemon
    then forked
    else (pos 0, main_loop_run ∷ timers)

abbrev pub or_else : Option String → Option String → Option String
or_else none o = o
or_else (some s) o = some s

module _ {File : Type 0} where
  abbrev pub urf_config_get_user : Config File → Option String
  urf_config_get_user c = c.user

-- What the start reads: the configuration file of a name, the persistence file, the saved profile
-- with the header of a new one, and the profiles for the hardware.
pub record Files {File : Type 0} {kf : KeyFile File} (kt : KeyFileText File kf) : Type 0 where
  pub key_file : String → Option File
  pub persistence : Option kt.Content
  pub saved_profile : Option kt.Content
  pub hardware_info : Option DmiInfo
  pub dir : ProfileDir
  pub header : Option File
  pub writable : Bool

-- urf_session_checker_init
abbrev pub no_sessions : SessionChecker
no_sessions = record { proxy = false; seats = []; inhibitors = []; inhibit = false }

module _ {File : Type 0} (kf : KeyFile File) (kt : KeyFileText File kf) (g : Texts)
    (w : Outside) where
  -- urf_config_new and urf_config_load_from_file. `default_file` is URFKILL_CONFIG_FILE.
  unfoldable pub load_config : (default_file : String) → Files kt → Args → Option (Config File)
  unfolding urf_config_load_from_file urf_config_init
  load_config default_file files args =
      let conf_file : String = elim args.conf_file [ none ↦ default_file | some file ↦ file ] in
      urf_config_load_from_file g kf kt (files.key_file conf_file) files.saved_profile
        files.hardware_info files.dir files.header files.writable
        (urf_config_init kf kt files.persistence)
      >>= (λ (config, saved). some config)

  -- The daemon before its start; `memory` is what stands where no object is.
  unfoldable pub new_service : (memory : ℕ → Device) → Config File → Option (Service File)
  unfolding urf_daemon_new urf_arbitrator_init
  new_service memory config =
      let options = config.options in
      let store : Store = record { heap = memory; next = 0; out = [] } in
      let arbitrator = urf_arbitrator_init config options.force_sync options.persist store in
      urf_daemon_new kf w arbitrator no_sessions >>= (λ daemon.
        some (record { daemon = daemon; input = urf_input_init; ofono_manager = none }))

  unfoldable pub main :
      (default_file : String) (memory : ℕ → Device)
      → Files kt
      → Surroundings
      → System
      → Args
      → Option (ℤ × List Action)
  unfolding load_config new_service urf_daemon_startup serve
  main default_file memory files x sys args = do
    config ← load_config default_file files args
    service ← new_service memory config
    (ret, started) ← urf_daemon_startup kf w x service
    let username = or_else args.username (urf_config_get_user config)
    some (if not ret then (pos 1, []) else serve sys args username)
