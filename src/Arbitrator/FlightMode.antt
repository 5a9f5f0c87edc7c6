-- ===== src/Arbitrator/FlightMode.antt =====
-- What the flight mode does to the radios (urf_arbitrator_set_flight_mode of src/urf-arbitrator.c).
use urfkill.Prelude.{
  ℕ, ◌<◌, ◌≡◌, ◌≢◌, refl, sym, ◌∙◌, ap, Bool, true, false, Option, none, some, List, [], ◌∷◌, ◌==◌,
  mem, if◌then◌else◌, arith, Bool-cases, inl, inr, pos, is_empty, if_either, ==-refl, subst,
}
use urfkill.Utils.{KillswitchState, no_adapter, state_eq, num_rfkill_types}
use urfkill.Store.{Device, Outside, Output, Store}
use urfkill.Device.{get_device_type}
use urfkill.Device.Laws.{wanted}
use urfkill.Device.Orders.{orders, Grows, Grows-trans, Sent, Sent-earlier}
use urfkill.Killswitch.{
  Killswitch, urf_killswitch_get_state, urf_killswitch_state_refresh, current_state,
}
use urfkill.Killswitch.Aggregate.{current_state-present}
use urfkill.Killswitch.Block.{refresh-Same, refresh_heap, refresh_shape, refresh_lem}
use urfkill.Killswitch.Orders.{refresh-Grows}
use urfkill.Arbitrator.Orders.{set_block-Grows, set_block-Sent}
use urfkill.Config.{KeyFile}
use urfkill.Arbitrator.{Arbitrator, want_state, flight_mode_round, urf_arbitrator_set_block}
use urfkill.Arbitrator.Keeps.{Keeps, Keeps-trans, put_switch, put_switch-Keeps, set_block-Keeps}
use urfkill.Arbitrator.Invariant.{of_type, mem-of_type, state_of, IsValid, switch_of, Keeps-IsValid}
use urfkill.Arbitrator.Block.{Blocked, set_block_lem}
use urfkill.Arbitrator.Startup.{IsSwitch}

abbrev pub saved_in : Option Killswitch → KillswitchState
saved_in none = no_adapter
saved_in (some ks) = ks.saved_state

-- What a round leaves in the switch.
own_saved :
    (block : Bool) (ks : Killswitch) (state old : KillswitchState)
    → ks.state ≡ state
    → ks.saved_state ≡ old
    → (if block then record ks { saved_state = ks.state } else ks).saved_state
      ≡ (if block then state else old)
own_saved true ks state old s o = s
own_saved false ks state old s o = o

module _ {File : Type 0} where
  -- The state that the switch of a type has saved.
  abbrev pub saved : Arbitrator File → ℕ → KillswitchState
  saved a t = saved_in (a.killswitch t)

  -- The devices of a type.
  abbrev pub IsOf : Arbitrator File → ℕ → ℕ → Type 0
  IsOf a t p = (mem p a.devices ≡ true) × (get_device_type (a.store.heap p) ≡ t)

not_empty : (p : ℕ) (ps : List ℕ) → mem p ps ≡ true → is_empty ps ≡ false
not_empty p [] m = cc
not_empty p (q ∷ qs) m = refl

module _ {File : Type 0} (kf : KeyFile File) (w : Outside) where
  -- What a round for the type `i` does.
  pub record Round (block : Bool) (i : ℕ) (a a' : Arbitrator File) : Type 0 where
    pub keeps : Keeps a a'
    pub set :
        (p : ℕ)
        → IsOf a i p
        → wanted (a'.store.heap p) ≡ want_state kf w block (state_of a i) (saved a i)
    pub others : (p : ℕ) → get_device_type (a.store.heap p) ≢ i → a'.store.heap p ≡ a.store.heap p
    pub saved_others : (t : ℕ) → i ≢ t → saved a' t ≡ saved a t
    pub saved_own : (p : ℕ) → IsOf a i p → saved a' i ≡ (if block then state_of a i else saved a i)
    pub grows : Grows a.store.out a'.store.out
    pub sent :
        (p : ℕ)
        → IsOf a i p
        → Sent
            (orders (a.store.heap p) (want_state kf w block (state_of a i) (saved a i)))
            a.store.out
            a'.store.out

  -- The orders that are sent after a refresh are those for the objects before it.
  Sent-refresh :
      {heap heap' : ℕ → Device} {b b' : Bool} {out mid out' : List Output} (p : ℕ)
      → heap ≡ heap'
      → b ≡ b'
      → Grows out mid
      → Sent (orders (heap p) b) mid out'
      → Sent (orders (heap' p) b') out out'
  Sent-refresh {mid = mid} {out' = out'} p h e g sent =
      Sent-earlier g (subst (λ ms. Sent ms mid out') (λ j. orders (h j p) (e j)) sent)

  put_switch-own :
      (a : Arbitrator File) (i : ℕ) (ks : Killswitch) (s : Store)
      → (put_switch a i ks s).killswitch i ≡ some ks
  put_switch-own a i ks s = ap (λ b. if b then some ks else a.killswitch i) (==-refl i)

  listed_own :
      (a : Arbitrator File) (i p : ℕ) (ks : Killswitch)
      → ks.devices ≡ of_type a.store.heap i a.devices
      → IsOf a i p
      → (mem p ks.devices ≡ true) × (is_empty ks.devices ≡ false)
  listed_own a i p ks ds (m, t) =
      let held : mem p ks.devices ≡ true =
        ground (arith, ds, mem-of_type a.store.heap i p a.devices) in
      (held, not_empty p ks.devices held)

  not_no_adapter :
      (a : Arbitrator File) (i p : ℕ) → IsOf a i p → state_eq (state_of a i) no_adapter ≡ false
  not_no_adapter a i p (m, t) =
      let held : mem p (of_type a.store.heap i a.devices) ≡ true =
        ground (arith, mem-of_type a.store.heap i p a.devices) in
      ground (arith, current_state-present a.store.heap (of_type a.store.heap i a.devices) p)

  saved-put_own :
      (a : Arbitrator File) (i : ℕ) (ks : Killswitch) (s : Store)
      → saved (put_switch a i ks s) i ≡ ks.saved_state
  saved-put_own a i ks s = ap (λ b. saved_in (if b then some ks else a.killswitch i)) (==-refl i)

  saved-put_other :
      (a : Arbitrator File) (i t : ℕ) (ks : Killswitch) (s : Store)
      → i ≢ t
      → saved (put_switch a i ks s) t ≡ saved a t
  saved-put_other a i t ks s n =
      let other : (i == t) ≡ false = ground arith in
      ap (λ b. saved_in (if b then some ks else a.killswitch t)) other

  -- A round over a switch whose type has no device.
  absent-Round :
      (block : Bool) (i : ℕ) (a : Arbitrator File) (ks : Killswitch)
      → a.killswitch i ≡ some ks
      → ((p : ℕ) → IsOf a i p → ⊥)
      → let (ks', s) = urf_killswitch_state_refresh ks a.store in
        Round block i a (put_switch a i ks' s)
  absent-Round block i a ks e empty =
      let (ks', s) = urf_killswitch_state_refresh ks a.store in
      let (d, k) = refresh_shape ks a.store in
      record {
        keeps = put_switch-Keeps a i ks ks' s e d k (refresh-Same ks a.store);
        set = λ p of. absurd (empty p of);
        others = λ p n. ap (λ f. f p) (refresh_heap ks a.store);
        saved_others = λ t n. saved-put_other a i t ks' s n;
        saved_own = λ p of. absurd (empty p of);
        grows = refresh-Grows ks a.store;
        sent = λ p of. absurd (empty p of);
      }

  -- A round that blocks the type: the refreshed switch `ks1` stands in the array with the state
  -- that is saved in it, and the block is made.
  present-Round :
      (block : Bool) (i : ℕ) (a : Arbitrator File) (ks1 : Killswitch) (s : Store) (b : Bool)
      {r : Bool} {a' : Arbitrator File}
      → i < num_rfkill_types
      → Keeps a (put_switch a i ks1 s)
      → Grows a.store.out s.out
      → s.heap ≡ a.store.heap
      → urf_arbitrator_set_block kf w (pos i) b (put_switch a i ks1 s) ≡ some (r, a')
      → Blocked kf w i b (put_switch a i ks1 s) r a'
      → r ≡ true
      → ((p : ℕ)
          → IsOf a i p
          → (mem p ks1.devices ≡ true)
            × (b ≡ want_state kf w block (state_of a i) (saved a i))
            × (ks1.saved_state ≡ (if block then state_of a i else saved a i)))
      → Round block i a a'
  present-Round block i a ks1 s b {r} {a'} hi kp grown heap done blocked ok own =
      let held = put_switch-own a i ks1 s in
      let present = put_switch a i ks1 s in
      record {
        keeps = Keeps-trans kp (set_block-Keeps kf w (pos i) b present {r = r} {a' = a'} done);
        set = λ p of. blocked.set ok p of.0 (rw heap of.1) ∙ (own p of).1;
        others = λ p n. blocked.others p (rw heap (ground arith)) ∙ ap (λ f. f p) heap;
        saved_others =
            λ t n. ap (λ f. saved_in (f t)) blocked.switches ∙ saved-put_other a i t ks1 s n;
        saved_own = λ p of.
            ap (λ f. saved_in (f i)) blocked.switches ∙ saved-put_own a i ks1 s ∙ (own p of).2;
        grows =
            Grows-trans grown (set_block-Grows kf w present i b ks1 {r = r} {a' = a'} held hi done);
        sent = λ p of.
            Sent-refresh p heap (own p of).1 grown
              (set_block-Sent kf w present i b ks1 {r = r} {a' = a'} held hi done p (own p of).0);
      }

  pub round_lem :
      (block : Bool) (i : ℕ) (ret : Bool) (a : Arbitrator File)
      → ((out : List Output) (t : ℕ) (b : Bool) → w.accepts out t b ≡ true)
      → IsValid a
      → IsSwitch i
      → (r : Bool) × (a' : Arbitrator File) × (flight_mode_round kf w block i ret a ≡ some (r, a'))
        × Round block i a a'
  unfolding flight_mode_round urf_killswitch_get_state
  round_lem block i ret a accepts v (lo, hi) =
      let (ks, e, ds, ty) = switch_of a i v lo hi in
      let (ks', s) = urf_killswitch_state_refresh ks a.store in
      let (state_is, _, saved_is) = refresh_lem ks a.store in
      let (d, k) = refresh_shape ks a.store in
      let state : ks'.state ≡ state_of a i = state_is ∙ ap (current_state a.store.heap) ds in
      let kept : (p : ℕ) → IsOf a i p → ks'.saved_state ≡ saved a i = λ p of.
        saved_is
        ∙ ap (λ x. if x then no_adapter else ks.saved_state) (listed_own a i p ks ds of).1
        ∙ sym (ap saved_in e) in
      let ks1 : Killswitch = if block then record ks' { saved_state = ks'.state } else ks' in
      let d1 : ks1.devices ≡ ks.devices =
        if_either (λ (x : Killswitch). x.devices ≡ ks.devices) block d d in
      let kp : Keeps a (put_switch a i ks1 s) =
        put_switch-Keeps a i ks ks1 s e d1
          (if_either (λ (x : Killswitch). x.type ≡ ks.type) block k k) (refresh-Same ks a.store) in
      let b = want_state kf w block ks'.state ks'.saved_state in
      let (r, a', done, blocked) =
        set_block_lem kf w (put_switch a i ks1 s) i b (Keeps-IsValid kp v) lo hi in
      elim (Bool-cases (state_eq ks'.state no_adapter)) [
        | inl none_there ↦
            let empty : (p : ℕ) → IsOf a i p → ⊥ = λ p of.
              cc (none_there, ap (λ x. state_eq x no_adapter) state, not_no_adapter a i p of) in
            (ret, put_switch a i ks' s, rw (e, none_there) refl, absent-Round block i a ks e empty)
        | inr there ↦ (
          r,
          a',
          rw (e, there) done,
          present-Round block i a ks1 s b hi kp (refresh-Grows ks a.store) (refresh_heap ks a.store)
              done blocked (blocked.accepted (λ out u. accepts out u b))
              (λ p of. (
                rw d1 (listed_own a i p ks ds of).0,
                λ j. want_state kf w block (state j) (kept p of j),
                own_saved block ks' (state_of a i) (saved a i) state (kept p of),
              )),
        )
      ]
