-- ===== src/Daemon/Start.antt =====
-- The making and the start of the daemon (urf_daemon_new and urf_daemon_startup of
-- src/urf-daemon.c).
use urfkill.Prelude.{
  ℕ, ◌≡◌, refl, ◌∙◌, ap, Bool, true, false, Option, none, some, String, List, [], ◌&&◌, ◌||◌, ◌>>=◌,
  if◌then◌else◌, not, All, pos, arith, Bool-cases, inl, inr,
}
use urfkill.Utils.{rfkill_type_all}
use urfkill.Store.{Outside}
use urfkill.Config.{KeyFile, Config, urf_config_get_persist_state}
use urfkill.Arbitrator.{Arbitrator}
use urfkill.Arbitrator.Table.{IsGood, AllListed}
use urfkill.Arbitrator.Events.{ReadResult, urf_arbitrator_startup}
use urfkill.Arbitrator.Startup.{IsStartupRead, startup_lem}
use urfkill.Session.{
  Bus, SessionChecker, urf_session_checker_startup, urf_session_checker_get_seats,
}
use urfkill.Input.{Input, InputDevice, urf_input_startup}
use urfkill.OfonoManager.{OfonoManager, urf_ofono_manager_startup}
use urfkill.Daemon.{Daemon}

-- The daemon with the objects that it starts. The manager of oFono, which is none before its
-- start, and the daemon share the arbitrator.
pub record Service (File : Type 0) : Type 0 where
  pub daemon : Daemon File
  pub input : Input
  pub ofono_manager : Option (OfonoManager File)

-- What the start finds outside: whether the daemon gets its place on the bus, whether
-- /dev/rfkill opens and what is read from it, the devices of udev and what open () says of their
-- nodes, whether the two proxies of the session checker can be made, and the seats.
pub record Surroundings : Type 0 where
  pub registered : Bool
  pub opened : Bool
  pub reads : List ReadResult
  pub input_devices : Option (List InputDevice)
  pub opens : String → Option ℕ
  pub connects : Bool
  pub connects_bus : Bool
  pub bus : Bus
  pub seats : Option (List String)

module _ {File : Type 0} where
  abbrev pub urf_config_get_key_control : Config File → Bool
  urf_config_get_key_control c = c.options.key_control

  abbrev pub urf_config_get_master_key : Config File → Bool
  urf_config_get_master_key c = c.options.master_key

module _ {File : Type 0} (kf : KeyFile File) (w : Outside) where
  -- The start after that of the arbitrator.
  unfoldable pub start_listeners :
      Surroundings → Service File → Arbitrator File → Option (Bool × Service File)
  unfolding urf_ofono_manager_startup urf_input_startup urf_session_checker_startup
  start_listeners x s a =
      let d = record s.daemon { arbitrator = a } in
      let (heard, input) = urf_input_startup x.input_devices x.opens s.input in
      let s1 = record s { daemon = d; ofono_manager = some (urf_ofono_manager_startup a) } in
      let s2 = record s1 { input = input } in
      let checked : Option (Bool × Service File) = (do
        (seated, checker) ←
            urf_session_checker_startup x.connects x.connects_bus x.bus x.seats d.session_checker
        some (seated, record s2 { daemon = record d { session_checker = checker } })) in
      if not d.key_control then some (true, s1) else if not heard then some (false, s2) else checked

  -- Failing to register ends the program (g_error and g_assert).
  unfoldable pub urf_daemon_startup : Surroundings → Service File → Option (Bool × Service File)
  unfolding urf_arbitrator_startup start_listeners
  urf_daemon_startup x s =
      let started : Option (Bool × Service File) = (do
        (ret, a) ← urf_arbitrator_startup kf w x.opened x.reads s.daemon.arbitrator
        let failed = record s { daemon = record s.daemon { arbitrator = a } }
        if ret then start_listeners x s a else some (false, failed)) in
      if x.registered then started else none

  -- urf_daemon_new with urf_daemon_init. The arbitrator holds the config that the daemon is given.
  unfoldable pub urf_daemon_new : Arbitrator File → SessionChecker → Option (Daemon File)
  urf_daemon_new a checker = do
    flight_mode ← urf_config_get_persist_state kf a.config (pos rfkill_type_all)
    some (record {
      arbitrator = a;
      session_checker = checker;
      flight_mode = flight_mode;
      master_key = urf_config_get_master_key a.config;
      key_control = urf_config_get_key_control a.config;
      replies = [];
      signals = [];
    })

  -- Whether GetSeats answers.
  abbrev pub answered : Option (List String) → Bool
  answered none = false
  answered (some names) = true

  -- The start reports success where it should.
  abbrev pub succeeds : Surroundings → Service File → Bool
  succeeds x s =
      not s.daemon.key_control
      || ((urf_input_startup x.input_devices x.opens s.input).0 && answered x.seats)

  pub record Up (x : Surroundings) (s : Service File) (ret : Bool) (s' : Service File)
      : Type 0 where
    pub good : IsGood s'.daemon.arbitrator
    pub result : ret ≡ succeeds x s
    pub modems : s'.ofono_manager ≡ some (urf_ofono_manager_startup s'.daemon.arbitrator)
    pub flight_mode_is : s'.daemon.flight_mode ≡ s.daemon.flight_mode

  -- With both proxies the session checker starts, and tells whether GetSeats has answered.
  checked-Up :
      (p q : Bool) (bus : Bus) (names : Option (List String)) (c : SessionChecker)
      → p ≡ true
      → q ≡ true
      → (checker : SessionChecker) × (urf_session_checker_startup p q bus names c
          ≡ some (answered names, checker))
  unfolding urf_session_checker_startup
  checked-Up true true bus none c e f = (record c { proxy = true }, refl)
  checked-Up true true bus (some names) c e f =
      (urf_session_checker_get_seats bus names (record c { proxy = true }), refl)
  checked-Up true false bus names c e f = cc
  checked-Up false q bus names c e f = cc

  start_listeners-Up :
      (x : Surroundings) (s : Service File) (a : Arbitrator File)
      → IsGood a
      → x.connects ≡ true
      → x.connects_bus ≡ true
      → (ret : Bool) × (s' : Service File) × (start_listeners x s a ≡ some (ret, s'))
        × Up x s ret s'
  unfolding start_listeners
  start_listeners-Up x s a good e f =
      let (checker, seated) =
        checked-Up x.connects x.connects_bus x.bus x.seats s.daemon.session_checker e f in
      let (heard, input) = urf_input_startup x.input_devices x.opens s.input in
      let d = record s.daemon { arbitrator = a } in
      let s1 = record s { daemon = d; ofono_manager = some (urf_ofono_manager_startup a) } in
      let s2 = record s1 { input = input } in
      elim (Bool-cases s.daemon.key_control) [
        | inr off ↦ (
          true,
          s1,
          rw off refl,
          record { good = good; result = rw off refl; modems = refl; flight_mode_is = refl },
        )
        | inl on ↦ elim (Bool-cases heard) [
          | inr deaf ↦ (
            false,
            s2,
            rw (on, deaf) refl,
            record {
              good = good;
              result = rw (on, deaf) refl;
              modems = refl;
              flight_mode_is = refl;
            },
          )
          | inl hears ↦ (
            answered x.seats,
            record s2 { daemon = record d { session_checker = checker } },
            rw (on, hears) (rw seated refl),
            record {
              good = good;
              result = rw (on, hears) refl;
              modems = refl;
              flight_mode_is = refl;
            },
          )
        ]
      ]

  startup_steps :
      (x : Surroundings) (s : Service File) (a : Arbitrator File) (y : Bool × Service File)
      → x.registered ≡ true
      → urf_arbitrator_startup kf w x.opened x.reads s.daemon.arbitrator ≡ some (true, a)
      → start_listeners x s a ≡ some y
      → urf_daemon_startup x s ≡ some y
  unfolding urf_daemon_startup
  startup_steps x s a y registered arb listening = ground (arith, registered, arb, listening)

  -- The start of a daemon that gets its place on the bus, whose /dev/rfkill opens, whose session checker can make its proxies and whose
  -- arbitrator is well-formed, without an object on the bus at the path of an index that no device
  -- has, with reads that are short or that add no radio of type ALL,
  -- returns. It reports success exactly if the option key_control is off, or the input and the
  -- session checker have both started. In any case the arbitrator is well-formed after it, the
  -- manager of oFono is started with that arbitrator, and the flight mode of the daemon is as it
  -- was.
  pub urf_daemon_startup_lem :
      (x : Surroundings) (s : Service File)
      → x.registered ≡ true
      → x.opened ≡ true
      → x.connects ≡ true
      → x.connects_bus ≡ true
      → IsGood s.daemon.arbitrator
      → AllListed s.daemon.arbitrator
      → All IsStartupRead x.reads
      → (ret : Bool) × (s' : Service File) × (urf_daemon_startup x s ≡ some (ret, s'))
        × Up x s ret s'
  unfolding urf_daemon_startup
  urf_daemon_startup_lem x s registered opened up up_bus g l h =
      let (a, e, good) = startup_lem kf w x.reads s.daemon.arbitrator g l h in
      let arb : urf_arbitrator_startup kf w x.opened x.reads s.daemon.arbitrator ≡ some (true, a) =
        ap (λ b. urf_arbitrator_startup kf w b x.reads s.daemon.arbitrator) opened ∙ e in
      let (ret, s', listening, is_up) = start_listeners-Up x s a good up up_bus in
      (ret, s', startup_steps x s a (ret, s') registered arb listening, is_up)
