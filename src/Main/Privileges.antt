-- ===== src/Main/Privileges.antt =====
-- The user that the daemon runs acts, and its exit code (src/urf-main.c).
use urfkill.Prelude.{
  ℕ, ◌≡◌, refl, Bool, true, false, not, Option, none, some, String, List, [], ◌∷◌, str_eq, ◌&&◌,
  ◌||◌, ℤ, pos, negsuc, if◌then◌else◌, All, arith, Bool-cases, Option-cases, inl, inr, if_cases,
  subst,
}
use urfkill.Store.{Device, Outside, Store}
use urfkill.Utils.{type_to_string}
use urfkill.Input.{urf_input_init}
use urfkill.Daemon.{Daemon}
use urfkill.Device.Register.{is_exported}
use urfkill.Config.{KeyFile, Config, urf_config_get_persist_state}
use urfkill.Config.Rules.{Texts}
use urfkill.Config.Loading.{KeyFileText}
use urfkill.Arbitrator.{urf_arbitrator_init}
use urfkill.Arbitrator.Invariant.{init-IsValid}
use urfkill.Arbitrator.Table.{IsGood, AllListed}
use urfkill.Arbitrator.Startup.{IsStartupRead}
use urfkill.Daemon.Start.{Service, Surroundings, urf_daemon_new, urf_daemon_startup_lem, succeeds}
use urfkill.Main.{
  Args, Passwd, System, Fork, no_process, parent, child, Action, initgroups, setgid, setuid,
  exit_after, main_loop_run, drop_privilege, serve, or_else, urf_config_get_user, Files,
  load_config, new_service, main, no_sessions,
}

-- The user, the group and the groups of a process; none are the groups that it was started with.
pub record Credentials : Type 0 where
  pub uid : ℕ
  pub gid : ℕ
  pub groups : Option (String × ℕ)

abbrev pub root : Credentials
root = record { uid = 0; gid = 0; groups = none }

-- What the actions make of the credentials, the latest action first.
abbrev pub credentials : List Action → Credentials
credentials [] = root
credentials (initgroups name gid ∷ acts) = record (credentials acts) { groups = some (name, gid) }
credentials (setgid gid ∷ acts) = record (credentials acts) { gid = gid }
credentials (setuid uid ∷ acts) = record (credentials acts) { uid = uid }
credentials (exit_after interval ∷ acts) = credentials acts
credentials (main_loop_run ∷ acts) = credentials acts

abbrev pub has_run : List Action → Bool
has_run [] = false
has_run (main_loop_run ∷ acts) = true
has_run (a ∷ acts) = has_run acts

-- A user to change to: one with a name that is not "root".
abbrev pub other_user : Option String → Option String
other_user none = none
other_user (some name) = if not (str_eq name "root") then some name else none

-- The system lets the program change to the user.
abbrev pub permits : System → Option String → Bool
permits sys none = true
permits sys (some name) = elim (sys.getpwnam name) [
  | none ↦ false
  | some user ↦
      sys.initgroups name user.pw_gid && (sys.setgid user.pw_gid && sys.setuid user.pw_uid)
]

-- The program goes on in the process that was started, or in its child.
abbrev pub stays : System → Args → Bool
stays sys args =
    not args.fork_daemon
    || elim sys.fork [ no_process n ↦ false | parent pid ↦ false | child ↦ true ]

-- The code of a program that has got acts far acts the fork.
abbrev pub fork_code : System → Args → ℤ
fork_code sys args =
    if args.fork_daemon
    then elim sys.fork [ no_process n ↦ negsuc n | parent pid ↦ pos 0 | child ↦ pos 0 ]
    else pos 0

-- Those of a user, acts the user database has them.
abbrev pub IsUser : System → Option String → Credentials → Type 0
IsUser sys none c = c ≡ root
IsUser sys (some name) c =
    (user : Passwd) × (sys.getpwnam name ≡ some user)
    × (c ≡ record { uid = user.pw_uid; gid = user.pw_gid; groups = some (name, user.pw_gid) })

-- How the program ends, with `up` for a start that succeeded.
pub record Exited (sys : System) (args : Args) (username : Option String) (up : Bool) (code : ℤ)
    (acts : List Action) : Type 0 where
  pub ran : has_run acts ≡ (up && (permits sys (other_user username) && stays sys args))
  pub privileges : has_run acts ≡ true → IsUser sys (other_user username) (credentials acts)
  pub exit_code :
      code ≡ (if up && permits sys (other_user username) then fork_code sys args else pos 1)

-- What the change to a user leaves.
record Dropped (sys : System) (user : Option String) (ok : Bool) (acts : List Action) : Type 0 where
  permitted : ok ≡ permits sys user
  changed : ok ≡ true → IsUser sys user (credentials acts)
  waits : has_run acts ≡ false

drop-Dropped :
    (sys : System) (username : Option String)
    → let x = drop_privilege sys username in Dropped sys (other_user username) x.0 x.1
unfolding drop_privilege
drop-Dropped sys none = record { permitted = refl; changed = λ e. refl; waits = refl }
drop-Dropped sys (some name) = elim (Bool-cases (str_eq name "root")) [
  | inl same ↦ rw same (record { permitted = refl; changed = λ e. refl; waits = refl })
  | inr other ↦ elim (Option-cases (sys.getpwnam name)) [
    | inl absent ↦
        rw (other, absent)
          (record { permitted = rw (absent, permits) refl; changed = λ e. cc; waits = refl })
    | inr (user, found) ↦
        rw (other, found)
          (if_cases (λ (r : Bool × List Action). Dropped sys (some name) r.0 r.1)
            (not (sys.initgroups name user.pw_gid))
            (λ e. record {
              permitted = rw (found, permits) (ground arith);
              changed = λ ok. cc;
              waits = refl;
            })
            (λ e.
              if_cases (λ (r : Bool × List Action). Dropped sys (some name) r.0 r.1)
                (not (sys.setgid user.pw_gid))
                (λ f. record {
                  permitted = rw (found, permits) (ground arith);
                  changed = λ ok. cc;
                  waits = refl;
                })
                (λ f.
                  if_cases (λ (r : Bool × List Action). Dropped sys (some name) r.0 r.1)
                    (not (sys.setuid user.pw_uid))
                    (λ h. record {
                      permitted = rw (found, permits) (ground arith);
                      changed = λ ok. cc;
                      waits = refl;
                    })
                    (λ h. record {
                      permitted = rw (found, permits) (ground arith);
                      changed = λ ok. (user, found, refl);
                      waits = refl;
                    }))))
  ]
]

-- The timers, which change nothing that is told of here.
abbrev with_timers : Args → List Action → List Action
with_timers args acts =
    let timed : List Action = if args.timed_exit then exit_after 30000 ∷ acts else acts in
    if args.immediate_exit then exit_after 50 ∷ timed else timed

with_timers-run :
    (args : Args) (acts : List Action) → has_run (with_timers args acts) ≡ has_run acts
with_timers-run args acts = ground arith

with_timers-credentials :
    (args : Args) (acts : List Action) → credentials (with_timers args acts) ≡ credentials acts
with_timers-credentials args acts = ground arith

module _ (sys : System) (args : Args) (username : Option String) (acts : List Action)
    (permitted : permits sys (other_user username) ≡ true)
    (user : IsUser sys (other_user username) (credentials acts))
    (waits : has_run acts ≡ false) where
  runs-Exited :
      stays sys args ≡ true
      → fork_code sys args ≡ pos 0
      → Exited sys args username true (pos 0) (main_loop_run ∷ with_timers args acts)
  runs-Exited here code = record {
    ran = ground (arith, permitted, here);
    privileges = λ h. rw (with_timers-credentials args acts) user;
    exit_code = ground (arith, permitted, code);
  }

  stops-Exited :
      (code : ℤ)
      → stays sys args ≡ false
      → fork_code sys args ≡ code
      → Exited sys args username true code (with_timers args acts)
  stops-Exited code there same = record {
    ran = ground (arith, permitted, there, waits, with_timers-run args acts);
    privileges = λ h. cc (h, waits, with_timers-run args acts);
    exit_code = ground (arith, permitted, same);
  }

  forked-Exited :
      args.fork_daemon ≡ true
      → (f : Fork) → sys.fork ≡ f
      → let r : ℤ × List Action = elim f [
        | no_process n ↦ (negsuc n, with_timers args acts)
        | parent pid ↦ (pos 0, with_timers args acts)
        | child ↦ (pos 0, main_loop_run ∷ with_timers args acts)
      ] in
        Exited sys args username true r.0 r.1
  forked-Exited forks (no_process n) e =
      stops-Exited (negsuc n) (rw (forks, e) refl) (rw (forks, e) refl)
  forked-Exited forks (parent pid) e =
      stops-Exited (pos 0) (rw (forks, e) refl) (rw (forks, e) refl)
  forked-Exited forks child e = runs-Exited (rw (forks, e) refl) (rw (forks, e) refl)

  served-Exited :
      let forked : ℤ × List Action = elim sys.fork [
        | no_process n ↦ (negsuc n, with_timers args acts)
        | parent pid ↦ (pos 0, with_timers args acts)
        | child ↦ (pos 0, main_loop_run ∷ with_timers args acts)
      ] in
      let r = if args.fork_daemon then forked else (pos 0, main_loop_run ∷ with_timers args acts) in
      Exited sys args username true r.0 r.1
  served-Exited =
      if_cases (λ (r : ℤ × List Action). Exited sys args username true r.0 r.1) args.fork_daemon
        (λ forks. forked-Exited forks sys.fork refl)
        (λ stays_here. runs-Exited (rw stays_here refl) (rw stays_here refl))

serve-Exited :
    (sys : System) (args : Args) (username : Option String)
    → let x = serve sys args username in Exited sys args username true x.0 x.1
unfolding serve
serve-Exited sys args username =
    let d = drop-Dropped sys username in
    if_cases (λ (r : ℤ × List Action). Exited sys args username true r.0 r.1)
      (not (drop_privilege sys username).0)
      (λ refused. record {
        ran = ground (arith, d.waits, d.permitted, refused);
        privileges = λ h. cc (h, d.waits);
        exit_code = ground (arith, d.permitted, refused);
      })
      (λ done.
        let ok : (drop_privilege sys username).0 ≡ true = ground (arith, done) in
        served-Exited sys args username (drop_privilege sys username).1 (cc (d.permitted, ok))
          (d.changed ok) d.waits)

failed-Exited :
    (sys : System) (args : Args) (username : Option String)
    → Exited sys args username false (pos 1) []
failed-Exited sys args username = record { ran = refl; privileges = λ h. cc; exit_code = refl }

after :
    (sys : System) (args : Args) (username : Option String) (ret : Bool)
    → let r : ℤ × List Action = if not ret then (pos 1, []) else serve sys args username in
      Exited sys args username ret r.0 r.1
after sys args username true = serve-Exited sys args username
after sys args username false = failed-Exited sys args username

module _ {File : Type 0} (kf : KeyFile File) (kt : KeyFileText File kf) (g : Texts)
    (w : Outside) where
  init-IsGood :
      (c : Config File) (force_sync persist : Bool) (s : Store)
      → IsGood (urf_arbitrator_init c force_sync persist s)
  unfolding urf_arbitrator_init
  init-IsGood c force_sync persist s = record {
    valid = init-IsValid c force_sync persist s;
    unique = λ p q m n e. absurd (ground arith);
  }

  flight_mode_read :
      (c : Config File) → (b : Bool) × (urf_config_get_persist_state kf c (pos 0) ≡ some b)
  unfolding urf_config_get_persist_state type_to_string
  flight_mode_read c = elim (Option-cases (kf.get_boolean c.persistence_file "ALL" "soft")) [
    | inl e ↦ (false, rw e refl)
    | inr (b, e) ↦ (b, rw e refl)
  ]

  new_service_lem :
      (memory : ℕ → Device) (c : Config File)
      → (s : Service File) × (new_service kf kt g w memory c ≡ some s)
        × IsGood s.daemon.arbitrator
        × AllListed s.daemon.arbitrator
  unfolding new_service urf_daemon_new urf_arbitrator_init is_exported
  new_service_lem memory c =
      let store : Store = record { heap = memory; next = 0; out = [] } in
      let a = urf_arbitrator_init c c.options.force_sync c.options.persist store in
      let (b, read) = flight_mode_read c in
      let d : Daemon File = record {
        arbitrator = a;
        session_checker = no_sessions;
        flight_mode = b;
        master_key = c.options.master_key;
        key_control = c.options.key_control;
        replies = [];
        signals = [];
      } in
      (
        record { daemon = d; input = urf_input_init; ofono_manager = none },
        rw read refl,
        init-IsGood c c.options.force_sync c.options.persist store,
        λ i e. refl,
      )

  -- If the configuration loads, the daemon gets its place on the bus, /dev/rfkill opens, the
  -- proxies of the session checker can be made, and the reads from it are short or add no radio of
  -- type ALL, the program returns. It runs the main loop exactly if the daemon has started, the
  -- system lets it change to the user of the command line, or else of the configuration, and it
  -- does not fork or is the child. Where it runs the loop it has the user, group and groups of
  -- that user, or those it was started with if there is none or it is root. The exit code is 1 if
  -- the start or the change failed, that of fork () where this fails, and 0 otherwise.
  pub main_lem :
      (default_file : String) (memory : ℕ → Device) (files : Files kt) (x : Surroundings)
      (sys : System) (args : Args) (c : Config File)
      → load_config kf kt g w default_file files args ≡ some c
      → x.registered ≡ true
      → x.opened ≡ true
      → x.connects ≡ true
      → x.connects_bus ≡ true
      → All IsStartupRead x.reads
      → (s : Service File) × (code : ℤ) × (acts : List Action) × (new_service kf kt g w memory c
          ≡ some s)
        × (main kf kt g w default_file memory files x sys args ≡ some (code, acts))
        × Exited sys args
            (or_else args.username (urf_config_get_user c))
            (succeeds kf w x s)
            code
            acts
  unfolding main
  main_lem default_file memory files x sys args c loaded registered opened up up_bus reads =
      let username = or_else args.username (urf_config_get_user c) in
      let (s, made, good, shown) = new_service_lem memory c in
      let (ret, s', started, is_up) =
        urf_daemon_startup_lem kf w x s registered opened up up_bus good shown reads in
      let r : ℤ × List Action = if not ret then (pos 1, []) else serve sys args username in
      (
        s,
        r.0,
        r.1,
        made,
        rw (loaded, made, started) refl,
        subst (λ b. Exited sys args username b r.0 r.1) is_up.result (after sys args username ret),
      )
