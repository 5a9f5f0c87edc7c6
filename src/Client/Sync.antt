-- ===== src/Client/Sync.antt =====
-- A client that listens knows the radios of the daemon (liburfkill-glib/urf-client.c with
-- src/urf-daemon.c and src/urf-arbitrator.c).
use urfkill.Prelude.{
  ℕ, ◌≡◌, refl, ap, ◌∙◌, sym, Bool, true, not, some, String, List, [], ◌∷◌, ◌++◌, ◌==◌, ◌&&◌, ◌||◌,
  All, arith, str_eq, str_eq-ne, eq_iff, ==-refl, subst,
}
use native.Mathlib.Decide.{ℕ_discrete}
use urfkill.Store.{
  DevicePath, device_path, Output, write_change_all, set_online, get_properties, switch_changed,
  device_state_changed, device_added, device_removed, device_changed, Outside,
}
use urfkill.Config.{KeyFile}
use urfkill.Arbitrator.{Arbitrator}
use urfkill.Arbitrator.Events.{RfkillEvent, handle_events}
use urfkill.Arbitrator.Table.{IsKernelEvent, NewIndices, paths_of, view, IsGood}
use urfkill.Arbitrator.Outputs.{knows, out_of}
use urfkill.Arbitrator.Announced.{is_there, handle_events-Tells}
use urfkill.Daemon.Announce.{announce, announced}
use urfkill.Client.{
  Remote, DaemonSignal, added, removed, changed, urfkey_pressed, Client, hear_signals,
}
use urfkill.Client.Paths.{has_path, IsUnique, IsReachable}
use urfkill.Client.Known.{last_word, Reaches, hear_signals_lem}

last_word-append :
    (path : String) (xs ys : List DaemonSignal) (b : Bool)
    → last_word path (xs ++ ys) b ≡ last_word path ys (last_word path xs b)
last_word-append path [] ys b = refl
last_word-append path (added p ∷ xs) ys b = last_word-append path xs ys (b || str_eq p path)
last_word-append path (removed p ∷ xs) ys b = last_word-append path xs ys (not (str_eq p path) && b)
last_word-append path (changed p ∷ xs) ys b = last_word-append path xs ys b
last_word-append path (urfkey_pressed k ∷ xs) ys b = last_word-append path xs ys b

index_of : DevicePath → ℕ
index_of (device_path i) = i

All-append :
    (remote : Remote) (xs ys : List DaemonSignal)
    → All (Reaches remote) xs
    → All (Reaches remote) ys
    → All (Reaches remote) (xs ++ ys)
All-append remote [] ys h k = k
All-append remote (x ∷ xs) ys (h, hs) k = (h, All-append remote xs ys hs k)

-- The devices that the client lists are those of the arbitrator, each at the path of its index.
pub record Sees {File : Type 0} (print : DevicePath → String) (a : Arbitrator File) (c : Client)
    : Type 0 where
  pub enumerated : c.is_enumerated ≡ true
  pub unique : IsUnique c.devices
  pub sees : (i : ℕ) → has_path (print (device_path i)) c.devices ≡ is_there (view a i)

-- Two devices never have one path.
abbrev pub IsInjective : (DevicePath → String) → Type 0
IsInjective print = (p q : DevicePath) → ◌≡◌ {A = String} (print p) (print q) → p ≡ q

module _ (print : DevicePath → String) (inj : IsInjective print) where
  pub same_index : (j i : ℕ) → str_eq (print (device_path j)) (print (device_path i)) ≡ (j == i)
  unfolding index_of
  same_index j i = elim (ℕ_discrete j i) [
    | yes e ↦
        subst (λ k. str_eq (print (device_path j)) (print (device_path k)) ≡ (j == k)) e
          ((eq_iff _ _).1 refl ∙ sym (==-refl j))
    | no n ↦
        str_eq-ne _ _ (λ e. n (ap index_of (inj (device_path j) (device_path i) e))) ∙ ground arith
  ]

  last_output :
      (i : ℕ) (o : Output) (os : List Output) (b : Bool)
      → last_word (print (device_path i)) (announce print o) (knows i os b) ≡ knows i (o ∷ os) b
  unfolding announce
  last_output i (device_added (device_path j)) os b = rw (same_index j i) (ground arith)
  last_output i (device_removed (device_path j)) os b = rw (same_index j i) (ground arith)
  last_output i (device_changed p) os b = refl
  last_output i (write_change_all t s) os b = refl
  last_output i (set_online m o) os b = refl
  last_output i (get_properties m) os b = refl
  last_output i (switch_changed t s) os b = refl
  last_output i (device_state_changed s h) os b = refl

  -- What the signals say of a path is what the outputs say of its index.
  last_word-announced :
      (i : ℕ) (os : List Output) (b : Bool)
      → last_word (print (device_path i)) (announced print os) b ≡ knows i os b
  unfolding announced announce
  last_word-announced i [] b = refl
  last_word-announced i (o ∷ os) b =
      last_word-append (print (device_path i)) (announced print os) (announce print o) b
      ∙ ap (last_word (print (device_path i)) (announce print o)) (last_word-announced i os b)
      ∙ last_output i o os b

  output-Reaches :
      (remote : Remote)
      → ((p : DevicePath) → IsReachable remote (print p))
      → (o : Output) → All (Reaches remote) (announce print o)
  unfolding announce
  output-Reaches remote r (device_added p) = (r p, tt)
  output-Reaches remote r (device_removed p) = (tt, tt)
  output-Reaches remote r (device_changed p) = (tt, tt)
  output-Reaches remote r (write_change_all t s) = tt
  output-Reaches remote r (set_online m o) = tt
  output-Reaches remote r (get_properties m) = tt
  output-Reaches remote r (switch_changed t s) = tt
  output-Reaches remote r (device_state_changed s h) = tt

  -- Each path that is announced is one that the bus has an object for.
  announced-Reaches :
      (remote : Remote)
      → ((p : DevicePath) → IsReachable remote (print p))
      → (os : List Output) → All (Reaches remote) (announced print os)
  unfolding announced announce
  announced-Reaches remote r [] = tt
  announced-Reaches remote r (o ∷ os) =
      All-append remote (announced print os) (announce print o) (announced-Reaches remote r os)
        (output-Reaches remote r o)

-- A client that has enumerated lists the devices of a well-formed arbitrator, each at the path of
-- its index, and no two at one path. The daemon then handles any list of events that the kernel
-- may send, which it does without a fault, and the client hears the signals of the daemon for what
-- is new in the output of the arbitrator. After that the client lists the devices of the new
-- arbitrator in the same way. Paths are printed without a clash, and the bus has an object for
-- each. No radio that is not listed is added at the index of one that was there before, as its path
-- on the bus is never given back.
pub handle_events-Sees :
    {File : Type 0} (kf : KeyFile File) (w : Outside) (print : DevicePath → String)
    (remote : Remote) (es : List RfkillEvent) (a : Arbitrator File) (c : Client)
    → IsInjective print
    → ((p : DevicePath) → IsReachable remote (print p))
    → All IsKernelEvent es
    → NewIndices es (view a) (paths_of a)
    → IsGood a
    → Sees print a c
    → (a' : Arbitrator File) × (handle_events kf w es a ≡ some a')
      × IsGood a'
      × ((outs : List Output) × (out_of a' ≡ outs ++ out_of a)
          × Sees print a' (hear_signals remote (announced print outs) c))
handle_events-Sees kf w print remote es a c inj r ks ns g s =
    let (a', done, g', t) = handle_events-Tells kf w es a g ks ns in
    let signals = announced print t.outs in
    let k =
      hear_signals_lem remote signals c s.unique s.enumerated
        (announced-Reaches print inj remote r t.outs) in
    (
      a',
      done,
      g',
      (
        t.outs,
        t.new,
        record {
          enumerated = k.enumerated;
          unique = k.unique;
          sees = λ i.
              k.knows (print (device_path i))
              ∙ last_word-announced print inj i t.outs (has_path (print (device_path i)) c.devices)
              ∙ ap (knows i t.outs) (s.sees i)
              ∙ t.told i;
        },
      ),
    )
