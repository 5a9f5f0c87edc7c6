-- ===== src/Client/Calls/Answers.antt =====
-- The calls of the library as the daemon answers them (liburfkill-glib/urf-client.c with
-- src/urf-daemon.c).
use urfkill.Prelude.{
  ℕ, ◌≡◌, ◌≢◌, refl, ap, Bool, true, false, none, some, String, List, ◌<◌, arith, All, mem, ℤ, pos,
  negsuc, leb, IsGint, to_gint-to_guint,
}
use urfkill.Utils.{num_rfkill_types}
use urfkill.Store.{Outside}
use urfkill.Config.{KeyFile}
use urfkill.Arbitrator.{Arbitrator, urf_arbitrator_has_devices, urf_arbitrator_set_block_idx}
use urfkill.Arbitrator.Invariant.{IsValid}
use urfkill.Arbitrator.Block.{Blocked}
use urfkill.Arbitrator.BlockIndex.{BlockedIndex, set_block_idx_lem}
use urfkill.Session
use urfkill.Session.{
  SessionChecker, find_cookie, find_inhibitor_by_bus_name, urf_session_checker_is_inhibited,
}
use urfkill.Session.Consistent.{IsConsistent, Inhibited, inhibit_lem, uninhibit-inhibit}
use urfkill.Daemon.{
  Daemon, Caller, Call, block, block_idx, is_inhibited, inhibit, uninhibit, Reply, boolean, cookie,
  reply, handle_method_call, urf_daemon_block_idx, urf_daemon_inhibit, urf_daemon_uninhibit,
  urf_daemon_is_inhibited,
}
use urfkill.Daemon.Rights.{granted, authorized_block}
use urfkill.Client.{Client}
use urfkill.Client.Calls.{
  Bus, is_negative, urf_client_set_block, urf_client_set_block_idx, urf_client_is_inhibited,
  urf_client_inhibit, urf_client_uninhibit,
}

-- What the library relies on of the bus and of GDBus: a call reaches the daemon, and what it
-- replies comes back.
pub record Delivers {File : Type 0} (kf : KeyFile File) (w : Outside) (sessions : Session.Bus)
    (draws : List ℕ) (caller : Caller) (call : Bus (Daemon File)) : Type 0 where
  pub answered :
      (c : Call) (d d' : Daemon File) (r : Reply)
      → handle_method_call kf w sessions draws caller c d ≡ some (reply r d')
      → d'.replies ≡ d.replies
      → call c d ≡ (some r, reply r d')
  pub silent :
      (c : Call) (d d' : Daemon File)
      → handle_method_call kf w sessions draws caller c d ≡ some d'
      → d'.replies ≡ d.replies
      → call c d ≡ (none, d')

module _ {File : Type 0} where
  -- What is left of a call that names a device by an index of the client.
  pub record SetIndex (index : ℤ) (b : Bool) (d : Daemon File) (r : Bool) (d' : Daemon File)
      : Type 0 where
    pub negative : is_negative index ≡ true → (r ≡ false) × (d' ≡ d)
    pub sent :
        (n : ℕ)
        → index ≡ pos n
        → (a' : Arbitrator File) × (d' ≡ reply (boolean r) (record d { arbitrator = a' }))
          × BlockedIndex n b d.arbitrator r a'

module _ {File : Type 0} (kf : KeyFile File) (w : Outside) (sessions : Session.Bus) (draws : List ℕ)
    (caller : Caller) (call : Bus (Daemon File)) (bus : Delivers kf w sessions draws caller call)
    (c : Client) (connected : c.proxy ≡ true) where
  -- A block of a type between 1 and 8 that a client asks for, with a proxy, as an authorized
  -- caller, while the daemon has devices and its arbitrator is well-formed, gives the result of
  -- the daemon, which replies it and changes nothing but its arbitrator. This stays well-formed.
  -- If the result is TRUE, each listed device of the type has the wanted soft block, and the
  -- persistence file gives that state; all other objects are as they were. The bus is relied on to
  -- deliver calls and replies.
  pub client_block :
      (t : ℕ) (b : Bool) (d : Daemon File)
      → IsValid d.arbitrator
      → urf_arbitrator_has_devices d.arbitrator ≡ true
      → caller.subject ≡ true
      → caller.authorization "org.freedesktop.urfkill.block" ≡ some true
      → 0 < t
      → t < num_rfkill_types
      → (r : Bool) × (a' : Arbitrator File) × (urf_client_set_block call c t b d
          ≡ (r, reply (boolean r) (record d { arbitrator = a' })))
        × Blocked kf w t b d.arbitrator r a'
  unfolding urf_client_set_block
  client_block t b d v some_device found may lo hi =
      let (r, a', done, k) =
        authorized_block kf w sessions draws caller t b d v some_device found may lo hi in
      let answer =
        bus.answered (block t b) d (record d { arbitrator = a' }) (boolean r) done refl in
      let known : leb num_rfkill_types t ≡ false = ground arith in
      (r, a', rw (connected, known, answer) refl, k)

  -- For each index that a gint can hold, a client with a proxy, as an authorized caller while the
  -- daemon has devices, gets FALSE and leaves the daemon as it was if the index is negative.
  -- Otherwise the daemon looks for that very index, though it comes as an unsigned number: without
  -- such a device it replies FALSE and its arbitrator is as it was; if it replies TRUE the device
  -- found has the wanted soft block; and the lists and the objects of other indices are as they
  -- were in any case.
  pub client_block_idx :
      (index : ℤ) (b : Bool) (d : Daemon File)
      → urf_arbitrator_has_devices d.arbitrator ≡ true
      → caller.subject ≡ true
      → caller.authorization "org.freedesktop.urfkill.blockidx" ≡ some true
      → IsGint index
      → let x = urf_client_set_block_idx call c index b d in SetIndex index b d x.0 x.1
  unfolding urf_client_set_block_idx handle_method_call urf_daemon_block_idx
  client_block_idx (negsuc n) b d some_device found may range =
      rw connected (record { negative = λ yes_it_is. (refl, refl); sent = λ n other. cc })
  client_block_idx (pos n) b d some_device found may range =
      let (r, a) = urf_arbitrator_set_block_idx kf w (pos n) b d.arbitrator in
      let ok = granted caller "org.freedesktop.urfkill.blockidx" d some_device found may in
      let same = to_gint-to_guint (pos n) range in
      let answer =
        bus.answered (block_idx n b) d (record d { arbitrator = a }) (boolean r)
          (rw (same, ok) refl) refl in
      rw (connected, answer)
        (record {
          negative = λ h. cc;
          sent = λ m same_index.
              let k = set_block_idx_lem kf w n b d.arbitrator in
              let e : n ≡ m = cc in rw (← e) (a, refl, k);
        })

  -- A client without an inhibitor, with a proxy, asks a daemon whose session checker is consistent
  -- to inhibit the keys, where the random numbers are not 0 and one of them is no cookie in use.
  -- The cookie it gets is the daemon's, which changes nothing but its session checker; this stays
  -- consistent, and a cookie other than 0 names an inhibitor of that client, while 0 leaves the
  -- checker as it was. The client is then told whether the keys are inhibited, and giving the
  -- cookie back leaves the daemon as it was before, but for the reply.
  pub client_inhibit :
      (reason : String) (d : Daemon File) (n : ℕ)
      → IsConsistent d.session_checker
      → All (λ e. e ≢ 0) draws
      → mem n draws ≡ true
      → find_cookie n d.session_checker.inhibitors ≡ none
      → find_inhibitor_by_bus_name caller.name d.session_checker.inhibitors ≡ none
      → (k : ℕ) × (c' : SessionChecker) × (let d' =
            reply (cookie k) (record d { session_checker = c' }) in
          let told = urf_session_checker_is_inhibited c' in
          (urf_client_inhibit call c reason d ≡ (k, d'))
          × Inhibited caller.name d.session_checker k c'
          × (urf_client_is_inhibited call c d' ≡ (told, reply (boolean told) d'))
          × (urf_client_uninhibit call c k d' ≡ reply (cookie k) d))
  unfolding urf_client_inhibit urf_client_is_inhibited urf_client_uninhibit handle_method_call
      urf_daemon_inhibit urf_daemon_uninhibit urf_daemon_is_inhibited
  client_inhibit reason d n v a m f free =
      let (k, c', r, h) =
        inhibit_lem sessions draws caller.name reason d.session_checker n v a m f in
      let d' = reply (cookie k) (record d { session_checker = c' }) in
      let back =
        uninhibit-inhibit sessions draws caller.name reason d.session_checker v a free k c' r in
      let given =
        bus.answered (inhibit reason) d (record d { session_checker = c' }) (cookie k) (rw r refl)
          refl in
      let told =
        bus.answered is_inhibited d' d' (boolean (urf_session_checker_is_inhibited c')) refl refl in
      let undone = bus.silent (uninhibit k) d' (urf_daemon_uninhibit k d') refl refl in
      (
        k,
        c',
        (
          rw (connected, given) refl,
          h,
          rw (connected, told) refl,
          rw (connected, undone)
              (ap (λ x. reply (cookie k) (record d { session_checker = x })) back),
        ),
      )
