-- ===== src/Client/Following.antt =====
-- A client that enumerates the devices and then listens (liburfkill-glib/urf-client.c with
-- src/urf-daemon.c and src/urf-arbitrator.c).
use urfkill.Prelude.{
  ℕ, ◌≡◌, refl, ap, ◌∙◌, sym, true, false, none, some, String, List, [], ◌∷◌, ◌++◌, map, mem, All,
  arith, str_eq, eq_iff, subst, Option-cases, inl, inr, IsDistinct, ==-refl,
}
use urfkill.Store.{Device, DevicePath, device_path, Output, Outside}
use urfkill.Device.{get_index, get_object_path}
use urfkill.Config.{KeyFile}
use urfkill.Config.Rules.{opt_eq}
use urfkill.Arbitrator.{Arbitrator, find_from}
use urfkill.Arbitrator.Events.{RfkillEvent, handle_events}
use urfkill.Arbitrator.Lookup.{UniqueIndices, find_from_found}
use urfkill.Arbitrator.Table.{IsKernelEvent, NewIndices, paths_of, view, entry_at, IsGood}
use urfkill.Arbitrator.Outputs.{out_of}
use urfkill.Arbitrator.Announced.{is_there}
use urfkill.Daemon.{Daemon, urf_daemon_enumerate_devices}
use urfkill.Daemon.Announce.{announced}
use urfkill.Client.{RemoteDevice, Remote, Client, hear_signals, urf_client_enumerate_devices_sync}
use urfkill.Client.Paths.{has_path, IsUnique, IsReachable, new_path}
use urfkill.Client.Mirror.{answer_of, new_device, add_remotes-devices}
use urfkill.Client.Sync.{Sees, IsInjective, same_index, handle_events-Sees}

module _ (print : DevicePath → String) (remote : Remote) (heap : ℕ → Device) where
  -- The objects of the client for a list of the arbitrator.
  abbrev objects : List ℕ → List RemoteDevice
  objects ps = map (new_device remote) (map print (map (λ p. get_object_path (heap p)) ps))

  module _ (inj : IsInjective print) (r : (p : DevicePath) → IsReachable remote (print p)) where
    object_of :
        (p : ℕ)
        → (new_device remote (print (get_object_path (heap p)))).object_path
          ≡ some (print (get_object_path (heap p)))
    object_of p = new_path remote _ (r (get_object_path (heap p)))

    objects_found :
        (ps : List ℕ) (i : ℕ)
        → has_path (print (device_path i)) (objects ps)
          ≡ is_there (entry_at heap (find_from heap ps i))
    unfolding find_from
    objects_found [] i = refl
    objects_found (p ∷ ps) i =
        rw (object_of p, same_index print inj (get_index (heap p)) i)
          (ground (arith, objects_found ps i))

    absent_later :
        (p : ℕ) (ps : List ℕ)
        → mem p ps ≡ false
        → UniqueIndices heap (p ∷ ps)
        → find_from heap ps (get_index (heap p)) ≡ none
    absent_later p ps n u = elim (Option-cases (find_from heap ps (get_index (heap p)))) [
      | inl e ↦ e
      | inr (q, e) ↦
          let (m, same) = find_from_found heap ps (get_index (heap p)) e in
          let one : q ≡ p = u q p (ground arith) (ground (arith, ==-refl p)) same in
          absurd (cc (subst (λ x. mem x ps ≡ true) one m, n))
    ]

    objects-IsUnique : (ps : List ℕ) → IsDistinct ps → UniqueIndices heap ps → IsUnique (objects ps)
    objects-IsUnique [] dist u = tt
    objects-IsUnique (p ∷ ps) (n, dist) u = (
      λ path h.
          let at : str_eq (print (get_object_path (heap p))) path ≡ true =
            sym (ap (λ o. opt_eq o path) (object_of p)) ∙ h in
          subst (λ s. has_path s (objects ps) ≡ false) ((eq_iff _ _).0 at)
            (objects_found ps (get_index (heap p))
              ∙ ap (λ o. is_there (entry_at heap o)) (absent_later p ps n u)),
      objects-IsUnique ps dist (λ a b m k e. u a b (ground arith) (ground arith) e),
    )

-- What the client has after the call of EnumerateDevices to a daemon.
abbrev pub after_enumeration :
    {File : Type 0} (print : DevicePath → String) → Remote → Daemon File → Client → Client
after_enumeration print remote d c =
    (urf_client_enumerate_devices_sync remote
      (answer_of print (urf_daemon_enumerate_devices d).replies) c).1

enumerate-Sees :
    {File : Type 0} (print : DevicePath → String) (remote : Remote) (d : Daemon File) (c : Client)
    → IsInjective print
    → ((p : DevicePath) → IsReachable remote (print p))
    → IsGood d.arbitrator
    → c.devices ≡ []
    → Sees print d.arbitrator (after_enumeration print remote d c)
unfolding urf_client_enumerate_devices_sync urf_daemon_enumerate_devices view
enumerate-Sees print remote d c inj r g none_yet =
    let a = d.arbitrator in
    let ps : List String = map print (map (λ p. get_object_path (a.store.heap p)) a.devices) in
    let found : (after_enumeration print remote d c).devices
        ≡ objects print remote a.store.heap a.devices =
      add_remotes-devices remote ps c
      ∙ ap (λ (ds : List RemoteDevice). ds ++ map (new_device remote) ps) none_yet in
    record {
      enumerated = refl;
      unique =
          subst IsUnique (sym found)
            (objects-IsUnique print remote a.store.heap inj r a.devices g.valid.distinct g.unique);
      sees = λ i.
          ap (has_path (print (device_path i))) found
          ∙ objects_found print remote a.store.heap inj r a.devices i;
    }

-- A client without devices enumerates those of a daemon with a well-formed arbitrator. The daemon
-- then handles any list of events that the kernel may send, which it does without a fault, and the
-- client hears the signals of the daemon for what is new in the output of the arbitrator. The
-- arbitrator is well-formed after that, no two devices of the client have one path, and for each
-- index the client has a device at the path of the index exactly if the arbitrator has a device of
-- the index. Paths are printed without a clash, and the bus has an object for each. No radio that
-- is not listed is added at the index of one that was there before, as its path on the bus is
-- never given back.
pub client_follows :
    {File : Type 0} (kf : KeyFile File) (w : Outside) (print : DevicePath → String)
    (remote : Remote) (es : List RfkillEvent) (d : Daemon File) (c : Client)
    → IsInjective print
    → ((p : DevicePath) → IsReachable remote (print p))
    → All IsKernelEvent es
    → NewIndices es (view d.arbitrator) (paths_of d.arbitrator)
    → IsGood d.arbitrator
    → c.devices ≡ []
    → (a' : Arbitrator File) × (handle_events kf w es d.arbitrator ≡ some a')
      × IsGood a'
      × ((outs : List Output) × (out_of a' ≡ outs ++ out_of d.arbitrator)
          × Sees print a'
              (hear_signals remote (announced print outs) (after_enumeration print remote d c)))
client_follows kf w print remote es d c inj r ks ns g none_yet =
    handle_events-Sees kf w print remote es d.arbitrator (after_enumeration print remote d c) inj r
      ks ns g (enumerate-Sees print remote d c inj r g none_yet)
