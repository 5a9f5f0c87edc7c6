-- ===== src/Arbitrator/Startup.antt =====
-- The start of the arbitrator and the flight mode return (urf_arbitrator_startup and
-- urf_arbitrator_set_flight_mode of src/urf-arbitrator.c).
use urfkill.Prelude.{
  Option, none, ◌==◌, ==-refl, sym, ◌∙◌, ◌≢◌, ℕ, ◌≡◌, refl, Bool, true, false, some, List, [], ◌∷◌,
  ◌<◌, ◌^◌, arith, if◌then◌else◌, All, pos, to_gint-small, to_gint-large, Bool-cases, inl, inr, leb,
  ltb, if_either,
}
use urfkill.Utils.{num_rfkill_types, no_adapter, state_eq}
use urfkill.Store.{Outside}
use urfkill.Killswitch.{Killswitch, urf_killswitch_get_state, urf_killswitch_state_refresh}
use urfkill.Killswitch.Block.{refresh-Same, refresh_shape}
use urfkill.Config.{KeyFile}
use urfkill.Arbitrator.{
  Arbitrator, flight_mode_round, flight_mode_loop, urf_arbitrator_set_flight_mode, switch_types,
  want_state,
}
use urfkill.Arbitrator.Events.{
  Op, add, del, change, change_all, unknown, RfkillEvent, ReadResult, short, full, add_killswitch,
  startup_event, startup_reads, startup_flight_mode, startup_restore, restore_states,
  urf_arbitrator_startup,
}
use urfkill.Arbitrator.Keeps.{
  Keeps, Keeps-refl, Keeps-trans, config-Keeps, put_switch, put_switch-Keeps, set_block-Keeps,
}
use urfkill.Arbitrator.Invariant.{IsValid, switch_of, Keeps-IsValid}
use urfkill.Arbitrator.Devices.{get_persist_state_total}
use urfkill.Arbitrator.Block.{get-set_persist_state, set_block_lem}
use urfkill.Arbitrator.Table.{
  Entry, added, path_after, paths_of, AllListed, IsGood, Follows, Follows-self, Keeps-Follows, view,
  same_view,
}
use urfkill.Device.Register.{Same-exported}
use native.Mathlib.Decide.{ℕ_discrete}
use urfkill.Arbitrator.Steps.{add_Follows}

-- A type that has a switch.
abbrev pub IsSwitch : ℕ → Type 0
IsSwitch t = (0 < t) × (t < num_rfkill_types)

pub switch_types-IsSwitch : All IsSwitch switch_types
switch_types-IsSwitch = (
  (omega arith, omega arith),
  (
    (omega arith, omega arith),
    (
      (omega arith, omega arith),
      (
        (omega arith, omega arith),
        (
          (omega arith, omega arith),
          (
            (omega arith, omega arith),
            ((omega arith, omega arith), ((omega arith, omega arith), tt)),
          ),
        ),
      ),
    ),
  ),
)

-- A read at startup that is short, or that adds no radio of type ALL.
abbrev pub IsStartupRead : ReadResult → Type 0
IsStartupRead short = Unit
IsStartupRead (full e) = e.op ≡ add → 0 < e.type

added_some : (t : ℕ) (hard : Bool) (x : Option Entry) → added t hard x ≢ none
added_some t hard none e = cc
added_some t hard (some x) e = cc

module _ {File : Type 0} (kf : KeyFile File) (w : Outside) where
  flight_mode_round_lem :
      (block : Bool) (i : ℕ) (ret : Bool) (a : Arbitrator File)
      → IsValid a
      → IsSwitch i
      → (r : Bool) × (a' : Arbitrator File) × (flight_mode_round kf w block i ret a ≡ some (r, a'))
        × Keeps a a'
  unfolding flight_mode_round urf_killswitch_get_state
  flight_mode_round_lem block i ret a v (lo, hi) =
      let (ks, e, ds, ty) = switch_of a i v lo hi in
      let (ks', s) = urf_killswitch_state_refresh ks a.store in
      let (d, k) = refresh_shape ks a.store in
      let ks'' : Killswitch = if block then record ks' { saved_state = ks'.state } else ks' in
      let present = put_switch a i ks'' s in
      let absent = put_switch a i ks' s in
      let kp : Keeps a present =
        put_switch-Keeps a i ks ks'' s e
          (if_either (λ (x : Killswitch). x.devices ≡ ks.devices) block d d)
          (if_either (λ (x : Killswitch). x.type ≡ ks.type) block k k) (refresh-Same ks a.store) in
      let ka : Keeps a absent = put_switch-Keeps a i ks ks' s e d k (refresh-Same ks a.store) in
      let b = want_state kf w block ks'.state ks'.saved_state in
      let (r, a', done, _) = set_block_lem kf w present i b (Keeps-IsValid kp v) lo hi in
      elim (Bool-cases (state_eq ks'.state no_adapter)) [
        | inl none_there ↦ (ret, absent, rw (e, none_there) refl, ka)
        | inr there ↦ (
          r,
          a',
          rw (e, there) done,
          Keeps-trans kp (set_block-Keeps kf w (pos i) b present done),
        )
      ]

  flight_mode_loop_lem :
      (block : Bool) (is : List ℕ) (ret : Bool) (a : Arbitrator File)
      → IsValid a
      → All IsSwitch is
      → (r : Bool) × (a' : Arbitrator File) × (flight_mode_loop kf w block is ret a ≡ some (r, a'))
        × Keeps a a'
  unfolding flight_mode_loop
  flight_mode_loop_lem block [] ret a v h = (ret, a, refl, Keeps-refl a)
  flight_mode_loop_lem block (i ∷ is) ret a v (h, hs) =
      let (r, b, first, k) = flight_mode_round_lem block i ret a v h in
      let (r', a', rest, l) = flight_mode_loop_lem block is r b (Keeps-IsValid k v) hs in
      (r', a', rw (first, flight_mode_loop) rest, Keeps-trans k l)

  pub set_flight_mode_lem :
      (block : Bool) (a : Arbitrator File)
      → IsValid a
      → (r : Bool) × (a' : Arbitrator File) × (urf_arbitrator_set_flight_mode kf w block a
          ≡ some (r, a'))
        × Keeps a a'
  unfolding urf_arbitrator_set_flight_mode
  set_flight_mode_lem block a v =
      let (c, saved, _) = get-set_persist_state kf w a.config 0 block (omega arith) in
      let b = record a { config = c } in
      let k = config-Keeps a c in
      let (r, a', done, l) =
        flight_mode_loop_lem block switch_types false b (Keeps-IsValid k v) switch_types-IsSwitch in
      (r, a', rw (saved, urf_arbitrator_set_flight_mode) done, Keeps-trans k l)

  Keeps-IsGood : {a a' : Arbitrator File} → Keeps a a' → IsGood a → IsGood a'
  Keeps-IsGood {a} k g = (Keeps-Follows (view a) k (Follows-self a g)).good

  Keeps-AllListed : {a a' : Arbitrator File} → Keeps a a' → AllListed a → AllListed a'
  Keeps-AllListed {a} {a'} k l =
      λ i e. Same-exported i k.objects ∙ l i (sym (same_view a a' i k) ∙ e)

  -- A radio that is added is listed at its path.
  added-AllListed :
      (a a' : Arbitrator File) (k t : ℕ) (hard : Bool)
      → AllListed a
      → Follows (λ j. if k == j then added t hard (view a j) else view a j) a'
      → ((j : ℕ)
          → paths_of a' j
            ≡ (if k == j then path_after add (view a j) (paths_of a j) else paths_of a j))
      → AllListed a'
  added-AllListed a a' k t hard l f x = λ i e. x i ∙ elim (ℕ_discrete k i) [
    | yes same ↦
        absurd (added_some t hard (view a k) (sym (f.table_is i ∙ rw (← same, ==-refl k) refl) ∙ e))
    | no other ↦ ground (arith, f.table_is i, l i)
  ]

  -- One full read at startup, of an event that adds no radio of type ALL.
  startup_event_lem :
      (e : RfkillEvent) (a : Arbitrator File)
      → IsGood a
      → AllListed a
      → (e.op ≡ add → 0 < e.type)
      → (a' : Arbitrator File) × (startup_event kf w e a ≡ some a') × IsGood a' × AllListed a'
  unfolding startup_event add_killswitch
  startup_event_lem e a g l h = go e.op refl
    where
      go :
          (o : Op)
          → e.op ≡ o
          → (a' : Arbitrator File) × (startup_event kf w e a ≡ some a') × IsGood a' × AllListed a'
      go add same = elim (Bool-cases (leb num_rfkill_types e.type)) [
        | inl unknown_type ↦ (a, rw (same, unknown_type, startup_event) refl, g, l)
        | inr known ↦ elim (Bool-cases (ltb e.idx (2 ^ 31))) [
          | inl small ↦
              let (a', done, f, x) =
                add_Follows kf w a e.idx e.type e.soft e.hard g (h same) (ground arith) (l e.idx) in
              (
                a',
                rw (same, known, startup_event, to_gint-small e.idx small) done,
                f.good,
                added-AllListed a a' e.idx e.type e.hard l f x,
              )
          | inr large ↦ (a, rw (same, known, startup_event, to_gint-large e.idx large) refl, g, l)
        ]
      ]
      go del same = (a, rw (same, startup_event) refl, g, l)
      go change same = (a, rw (same, startup_event) refl, g, l)
      go change_all same = (a, rw (same, startup_event) refl, g, l)
      go unknown same = (a, rw (same, startup_event) refl, g, l)

  startup_reads_lem :
      (rs : List ReadResult) (a : Arbitrator File)
      → IsGood a
      → AllListed a
      → All IsStartupRead rs
      → (a' : Arbitrator File) × (startup_reads kf w rs a ≡ some a') × IsGood a'
  unfolding startup_reads
  startup_reads_lem [] a g l h = (a, refl, g)
  startup_reads_lem (short ∷ rs) a g l (_, h) = startup_reads_lem rs a g l h
  startup_reads_lem (full e ∷ rs) a g l (h, hs) =
      let (b, first, gb, lb) = startup_event_lem e a g l h in
      let (a', rest, g') = startup_reads_lem rs b gb lb hs in
      (a', rw (first, startup_reads) rest, g')

  restore_states_lem :
      (is : List ℕ) (a : Arbitrator File)
      → IsValid a
      → All IsSwitch is
      → (a' : Arbitrator File) × (restore_states kf w is a ≡ some a') × Keeps a a'
  unfolding restore_states
  restore_states_lem [] a v h = (a, refl, Keeps-refl a)
  restore_states_lem (i ∷ is) a v ((lo, hi), hs) =
      let (soft, read) = get_persist_state_total kf w a.config i hi in
      let (r, b, done, _) = set_block_lem kf w a i soft v lo hi in
      let k = set_block-Keeps kf w (pos i) soft a done in
      let (a', rest, l) = restore_states_lem is b (Keeps-IsValid k v) hs in
      (a', rw (read, done, restore_states) rest, Keeps-trans k l)

  startup_flight_mode-IsGood :
      (a : Arbitrator File)
      → IsGood a
      → AllListed a
      → (a' : Arbitrator File) × (startup_flight_mode kf w a ≡ some a') × IsGood a' × AllListed a'
  unfolding startup_flight_mode
  startup_flight_mode-IsGood a g l = elim (Bool-cases a.persist) [
    | inr off ↦ (a, ground arith, g, l)
    | inl on ↦
        let (flight, read) = get_persist_state_total kf w a.config 0 (omega arith) in
        let (r, a', done, k) = set_flight_mode_lem flight a g.valid in
        (a', ground (arith, read, done), Keeps-IsGood k g, Keeps-AllListed k l)
  ]

  startup_restore-IsGood :
      (a : Arbitrator File)
      → IsGood a
      → (a' : Arbitrator File) × (startup_restore kf w a ≡ some a') × IsGood a'
  unfolding startup_restore
  startup_restore-IsGood a g = elim (Bool-cases a.persist) [
    | inr off ↦ (a, ground arith, g)
    | inl on ↦
        let (a', done, k) = restore_states_lem switch_types a g.valid switch_types-IsSwitch in
        (a', ground (arith, done), Keeps-IsGood k g)
  ]

  -- The start of a well-formed arbitrator, without an object on the bus at the path of an index
  -- that no device has, with a control device that opens, and with any reads that are short or
  -- that add no radio of type ALL, returns TRUE and leaves it well-formed, no two devices having
  -- one index: with and without the option persist, which runs the flight mode and restores each
  -- type.
  pub startup_lem :
      (rs : List ReadResult) (a : Arbitrator File)
      → IsGood a
      → AllListed a
      → All IsStartupRead rs
      → (a' : Arbitrator File) × (urf_arbitrator_startup kf w true rs a ≡ some (true, a'))
        × IsGood a'
  unfolding urf_arbitrator_startup
  startup_lem rs a g l h =
      let (b, flown, gb, lb) = startup_flight_mode-IsGood a g l in
      let (c, ready, gc) = startup_reads_lem rs b gb lb h in
      let (a', restored, g') = startup_restore-IsGood c gc in
      (a', rw (flown, ready, restored) refl, g')
