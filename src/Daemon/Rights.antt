-- ===== src/Daemon/Rights.antt =====
-- Who may change the switches (src/urf-daemon.c, src/urf-polkit.c).
use urfkill.Prelude.{
  ℕ, ◌≡◌, ◌≢◌, refl, ap, Bool, true, false, not, none, some, String, List, ◌<◌, arith,
  if◌then◌else◌, mem, All, ℤ, pos, negsuc, to_gint, to_gint-small, Bool-cases, Option-cases, inl,
  inr, if_either,
}
use urfkill.Utils.{num_rfkill_types}
use urfkill.Store.{Outside}
use urfkill.Config.{KeyFile}
use urfkill.Arbitrator.{Arbitrator, urf_arbitrator_has_devices}
use urfkill.Arbitrator.Invariant.{IsValid}
use urfkill.Arbitrator.Block.{Blocked, set_block_lem, set_block_all}
use urfkill.Session.{Bus, find_cookie}
use urfkill.Session.Consistent.{IsConsistent, inhibit_lem, uninhibit-IsConsistent}
use urfkill.Daemon.{
  Daemon, Caller, Call, block, block_idx, enumerate_devices, is_flight_mode, flight_mode,
  is_inhibited, inhibit, uninhibit, Reply, error, no_subject, boolean, cookie, reply, permitted,
  urf_daemon_block, urf_daemon_block_idx, urf_daemon_flight_mode, urf_daemon_inhibit,
  handle_method_call, urf_polkit_check_auth, urf_polkit_get_subject, urf_daemon_enumerate_devices,
  urf_daemon_is_flight_mode, urf_daemon_is_inhibited, urf_daemon_uninhibit,
}

module _ {File : Type 0} where
  -- The switches, the devices and the signals of the daemon are as they were.
  pub record Untouched (d d' : Daemon File) : Type 0 where
    pub arbitrator : d'.arbitrator ≡ d.arbitrator
    pub flight_mode : d'.flight_mode ≡ d.flight_mode
    pub signals : d'.signals ≡ d.signals
    pub consistent : IsConsistent d'.session_checker

  replied : (r : Reply) (d : Daemon File) → IsConsistent d.session_checker → Untouched d (reply r d)
  replied r d v = record { arbitrator = refl; flight_mode = refl; signals = refl; consistent = v }

  -- A check that fails.
  abbrev pub Denied : Daemon File → Bool × Daemon File → Type 0
  Denied d x = (x.0 ≡ false) × Untouched d x.1

  check_auth-Denied :
      (caller : Caller) (action : String) (d : Daemon File)
      → IsConsistent d.session_checker
      → caller.authorization action ≢ some true
      → Denied d (urf_polkit_check_auth caller action d)
  unfolding urf_polkit_check_auth
  check_auth-Denied caller action d v h = elim (Option-cases (caller.authorization action)) [
    | inl e ↦ rw (e, urf_polkit_check_auth) (refl, replied _ d v)
    | inr (true, e) ↦ absurd (h e)
    | inr (false, e) ↦ rw (e, urf_polkit_check_auth) (refl, replied _ d v)
  ]

  -- What the checks of polkit leave.
  refused :
      (caller : Caller) (action : String) (d : Daemon File)
      → IsConsistent d.session_checker
      → caller.authorization action ≢ some true
      → Denied d (permitted caller action d)
  unfolding permitted urf_polkit_get_subject
  refused caller action d v h = elim (Bool-cases caller.subject) [
    | inl e ↦
        rw (e, permitted)
          (if_either (Denied d) (not (urf_arbitrator_has_devices d.arbitrator)) (refl, self)
            (check_auth-Denied caller action d v h))
    | inr e ↦
        rw (e, permitted)
          (if_either (Denied d) (not (urf_arbitrator_has_devices d.arbitrator)) (refl, self)
            (refl, replied _ d v))
  ]
    where
      self : Untouched d d
      self = record { arbitrator = refl; flight_mode = refl; signals = refl; consistent = v }

  pub granted :
      (caller : Caller) (action : String) (d : Daemon File)
      → urf_arbitrator_has_devices d.arbitrator ≡ true
      → caller.subject ≡ true
      → caller.authorization action ≡ some true
      → permitted caller action d ≡ (true, d)
  unfolding permitted urf_polkit_get_subject urf_polkit_check_auth
  granted caller action d some_device found may =
      let subject : urf_polkit_get_subject caller d ≡ (true, d) =
        ap (λ b. if b then (true, d) else (false, reply (error no_subject) d)) found in
      rw (some_device, subject, permitted) (rw (may, urf_polkit_check_auth) refl)

  module _ (kf : KeyFile File) (w : Outside) where
    refused_block :
        (caller : Caller) (type : ℤ) (b : Bool) (d : Daemon File)
        → IsConsistent d.session_checker
        → ((action : String) → caller.authorization action ≢ some true)
        → (d' : Daemon File) × (urf_daemon_block kf w caller type b d ≡ some (false, d'))
          × Untouched d d'
    unfolding urf_daemon_block
    refused_block caller (negsuc n) b d v h =
        (d, refl, record { arbitrator = refl; flight_mode = refl; signals = refl; consistent = v })
    refused_block caller (pos t) b d v h =
        let (off, u) = refused caller "org.freedesktop.urfkill.block" d v (h _) in
        ((permitted caller "org.freedesktop.urfkill.block" d).1, rw (off, urf_daemon_block) refl, u)

    refused_block_idx :
        (caller : Caller) (index : ℤ) (b : Bool) (d : Daemon File)
        → IsConsistent d.session_checker
        → ((action : String) → caller.authorization action ≢ some true)
        → (d' : Daemon File) × (some (urf_daemon_block_idx kf w caller index b d).1 ≡ some d')
          × Untouched d d'
    unfolding urf_daemon_block_idx
    refused_block_idx caller (negsuc n) b d v h =
        (d, refl, record { arbitrator = refl; flight_mode = refl; signals = refl; consistent = v })
    refused_block_idx caller (pos i) b d v h =
        let (off, u) = refused caller "org.freedesktop.urfkill.blockidx" d v (h _) in
        (
          (permitted caller "org.freedesktop.urfkill.blockidx" d).1,
          rw (off, urf_daemon_block_idx) refl,
          u,
        )

    -- A call of any method of the daemon by a caller whom polkit authorizes for no action returns
    -- without a fault, provided that a draw of the random numbers gives a cookie that is free; the
    -- arbitrator, the flight mode and the signals are as they were, and the inhibitors stay
    -- consistent.
    pub unauthorized_call :
        (bus : Bus) (draws : List ℕ) (caller : Caller) (call : Call) (d : Daemon File) (n : ℕ)
        → IsConsistent d.session_checker
        → ((action : String) → caller.authorization action ≢ some true)
        → All (λ e. e ≢ 0) draws
        → mem n draws ≡ true
        → find_cookie n d.session_checker.inhibitors ≡ none
        → (d' : Daemon File) × (handle_method_call kf w bus draws caller call d ≡ some d')
          × Untouched d d'
    unfolding handle_method_call urf_daemon_enumerate_devices urf_daemon_is_flight_mode
        urf_daemon_is_inhibited urf_daemon_uninhibit urf_daemon_inhibit
    unauthorized_call bus draws caller enumerate_devices d n v h a m f =
        (urf_daemon_enumerate_devices d, refl, replied _ d v)
    unauthorized_call bus draws caller is_flight_mode d n v h a m f =
        (urf_daemon_is_flight_mode d, refl, replied _ d v)
    unauthorized_call bus draws caller is_inhibited d n v h a m f =
        (urf_daemon_is_inhibited d, refl, replied _ d v)
    unauthorized_call bus draws caller (uninhibit c) d n v h a m f = (
      urf_daemon_uninhibit c d,
      refl,
      record {
        arbitrator = refl;
        flight_mode = refl;
        signals = refl;
        consistent = uninhibit-IsConsistent c d.session_checker v;
      },
    )
    unauthorized_call bus draws caller (inhibit reason) d n v h a m f =
        let (k, c', r, i) = inhibit_lem bus draws caller.name reason d.session_checker n v a m f in
        (
          reply (cookie k) (record d { session_checker = c' }),
          rw (r, urf_daemon_inhibit),
          record {
            arbitrator = refl;
            flight_mode = refl;
            signals = refl;
            consistent = i.consistent;
          },
        )
    unauthorized_call bus draws caller (block type b) d n v h a m f =
        let (d', e, u) = refused_block caller (to_gint type) b d v h in (d', rw e refl, u)
    unauthorized_call bus draws caller (block_idx index b) d n v h a m f =
        refused_block_idx caller (to_gint index) b d v h
    unauthorized_call bus draws caller (flight_mode b) d n v h a m f =
        let (off, u) = refused caller "org.freedesktop.urfkill.flight_mode" d v (h _) in
        (
          (permitted caller "org.freedesktop.urfkill.flight_mode" d).1,
          rw (off, urf_daemon_flight_mode) refl,
          u,
        )

    -- The method Block with a type between 1 and 8, called on a well-formed arbitrator by an
    -- authorized caller while there are devices, returns and replies with the result of the block,
    -- and nothing but the arbitrator and that reply has changed. The arbitrator stays well-formed.
    -- If the result is TRUE, each listed device of the type has the wanted soft block, and the
    -- persistence file gives that state for the type; in any case all other objects are as they
    -- were.
    pub authorized_block :
        (bus : Bus) (draws : List ℕ) (caller : Caller) (t : ℕ) (b : Bool) (d : Daemon File)
        → IsValid d.arbitrator
        → urf_arbitrator_has_devices d.arbitrator ≡ true
        → caller.subject ≡ true
        → caller.authorization "org.freedesktop.urfkill.block" ≡ some true
        → 0 < t
        → t < num_rfkill_types
        → (r : Bool) × (a' : Arbitrator File) × (handle_method_call kf w bus draws caller
              (block t b)
              d
            ≡ some (reply (boolean r) (record d { arbitrator = a' })))
          × Blocked kf w t b d.arbitrator r a'
    unfolding handle_method_call
    authorized_block bus draws caller t b d v some_device found may lo hi =
        let (r, a', done, k) = set_block_lem kf w d.arbitrator t b v lo hi in
        (
          r,
          a',
          rw (
            to_gint-small t (ground arith),
            urf_daemon_block,
            granted caller "org.freedesktop.urfkill.block" d some_device found may,
            done,
          ),
          k,
        )

    -- The method Block with type ALL, called by an authorized caller while there are devices,
    -- reads the switch of type ALL, which a well-formed arbitrator does not have: the call faults.
    pub block_all_faults :
        (bus : Bus) (draws : List ℕ) (caller : Caller) (b : Bool) (d : Daemon File)
        → IsValid d.arbitrator
        → urf_arbitrator_has_devices d.arbitrator ≡ true
        → caller.subject ≡ true
        → caller.authorization "org.freedesktop.urfkill.block" ≡ some true
        → handle_method_call kf w bus draws caller (block 0 b) d ≡ none
    unfolding handle_method_call
    block_all_faults bus draws caller b d v some_device found may = rw (
      to_gint-small 0 refl,
      urf_daemon_block,
      granted caller "org.freedesktop.urfkill.block" d some_device found may,
      set_block_all kf w d.arbitrator b v,
    )
