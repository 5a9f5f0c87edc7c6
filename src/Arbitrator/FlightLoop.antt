-- ===== src/Arbitrator/FlightLoop.antt =====
-- All rounds of the flight mode (urf_arbitrator_set_flight_mode of src/urf-arbitrator.c).
use urfkill.Prelude.{
  ℕ, ◌≡◌, ◌≢◌, refl, sym, ◌∙◌, ap, Bool, true, false, some, List, [], ◌∷◌, mem, if◌then◌else◌,
  arith, All, IsDistinct, subst,
}
use native.Mathlib.Decide.{ℕ_discrete}
use urfkill.Store.{Outside, Output}
use urfkill.Device.{get_device_type}
use urfkill.Device.Laws.{wanted}
use urfkill.Device.Orders.{orders, Grows, Grows-refl, Grows-trans, Sent, Sent-later, Sent-earlier}
use urfkill.Killswitch.{current_state}
use urfkill.Killswitch.Aggregate.{current_state_cong}
use urfkill.Config.{KeyFile}
use urfkill.Arbitrator.{
  Arbitrator, switch_types, want_state, flight_mode_loop, urf_arbitrator_set_flight_mode,
}
use urfkill.Arbitrator.Keeps.{Keeps, Keeps-refl, Keeps-trans, config-Keeps}
use urfkill.Arbitrator.Invariant.{
  of_type, mem-of_type, of_type_cong, state_of, IsValid, Keeps-IsValid,
}
use urfkill.Arbitrator.Block.{get-set_persist_state}
use urfkill.Arbitrator.Startup.{IsSwitch, switch_types-IsSwitch}
use urfkill.Arbitrator.FlightMode.{saved, IsOf, Round, round_lem}

module _ {File : Type 0} where
  pub IsOf-Keeps : {a b : Arbitrator File} → Keeps a b → (t p : ℕ) → IsOf a t p → IsOf b t p
  IsOf-Keeps k t p of = (rw k.devices of.0, ap (λ x. x.1) (k.objects.identities p) ∙ of.1)

  -- The devices and the switch of a type are as they were, and no output is taken back.
  pub record Left (t : ℕ) (a b : Arbitrator File) : Type 0 where
    pub objects : (p : ℕ) → get_device_type (a.store.heap p) ≡ t → b.store.heap p ≡ a.store.heap p
    pub saved_is : saved b t ≡ saved a t
    pub grows : Grows a.store.out b.store.out

  Left-state :
      {a b : Arbitrator File} (t : ℕ) → Keeps a b → Left t a b → state_of b t ≡ state_of a t
  Left-state {a} {b} t k l =
      ap (λ ps. current_state b.store.heap (of_type b.store.heap t ps)) k.devices
      ∙ ap (current_state b.store.heap) (
          of_type_cong a.store.heap b.store.heap t a.devices
            (λ p m. ap (λ x. x.1) (k.objects.identities p)))
      ∙ current_state_cong a.store.heap b.store.heap (of_type a.store.heap t a.devices)
          (λ p m. l.objects p (ground (arith, mem-of_type a.store.heap t p a.devices)))

module _ {File : Type 0} (kf : KeyFile File) (w : Outside) where
  -- What the flight mode does to a type.
  pub record Done (block : Bool) (t : ℕ) (a b : Arbitrator File) : Type 0 where
    pub set :
        (p : ℕ)
        → IsOf a t p
        → wanted (b.store.heap p) ≡ want_state kf w block (state_of a t) (saved a t)
    pub saved_own : (p : ℕ) → IsOf a t p → saved b t ≡ (if block then state_of a t else saved a t)
    pub sent :
        (p : ℕ)
        → IsOf a t p
        → Sent
            (orders (a.store.heap p) (want_state kf w block (state_of a t) (saved a t)))
            a.store.out
            b.store.out

  Round-Left :
      {block : Bool} {a b : Arbitrator File} (i t : ℕ) → i ≢ t → Round kf w block i a b → Left t a b
  Round-Left i t n r = record {
    objects = λ p e. r.others p (λ same. n (sym same ∙ e));
    saved_is = r.saved_others t n;
    grows = r.grows;
  }

  Left-trans : {a b c : Arbitrator File} (t : ℕ) → Keeps a b → Left t a b → Left t b c → Left t a c
  Left-trans t k l m = record {
    objects = λ p e. m.objects p (ap (λ x. x.1) (k.objects.identities p) ∙ e) ∙ l.objects p e;
    saved_is = m.saved_is ∙ l.saved_is;
    grows = Grows-trans l.grows m.grows;
  }

  Left-Done :
      {block : Bool} {a b c : Arbitrator File} (t : ℕ)
      → Keeps a b
      → Left t a b
      → Done block t b c
      → Done block t a c
  Left-Done {block} {a} {b} {c} t k l d =
      let state = Left-state {a = a} {b = b} t k l in
      record {
        set = λ p of.
            d.set p (IsOf-Keeps k t p of) ∙ (λ j. want_state kf w block (state j) (l.saved_is j));
        saved_own = λ p of.
            d.saved_own p (IsOf-Keeps k t p of) ∙ (λ j. if block then state j else l.saved_is j);
        sent = λ p of. Sent-earlier l.grows (
            subst (λ ms. Sent ms b.store.out c.store.out)
              (λ j. orders (l.objects p of.1 j) (want_state kf w block (state j) (l.saved_is j)))
              (d.sent p (IsOf-Keeps k t p of)));
      }

  Round-Done :
      {block : Bool} {a b c : Arbitrator File} (t : ℕ)
      → Round kf w block t a b
      → Left t b c
      → Done block t a c
  Round-Done t r l = record {
    set = λ p of.
        ap wanted (l.objects p (ap (λ x. x.1) (r.keeps.objects.identities p) ∙ of.1)) ∙ r.set p of;
    saved_own = λ p of. l.saved_is ∙ r.saved_own p of;
    sent = λ p of. Sent-later (r.sent p of) l.grows;
  }

  loop_lem :
      (block : Bool) (is : List ℕ) (ret : Bool) (a : Arbitrator File)
      → ((out : List Output) (t : ℕ) (b : Bool) → w.accepts out t b ≡ true)
      → IsValid a
      → All IsSwitch is
      → IsDistinct is
      → (r : Bool) × (a' : Arbitrator File) × (flight_mode_loop kf w block is ret a ≡ some (r, a'))
        × Keeps a a'
        × ((t : ℕ) → mem t is ≡ false → Left t a a')
        × ((t : ℕ) → mem t is ≡ true → Done block t a a')
  unfolding flight_mode_loop
  loop_lem block [] ret a accepts v hs d = (
    ret,
    a,
    refl,
    Keeps-refl a,
    λ t n. record { objects = λ p e. refl; saved_is = refl; grows = Grows-refl a.store.out },
    λ t m. cc,
  )
  loop_lem block (i ∷ is) ret a accepts v (h, hs) (n, ds) =
      let (r, b, first, round) = round_lem kf w block i ret a accepts v h in
      let k = round.keeps in
      let (r', a', rest, l, left, did) = loop_lem block is r b accepts (Keeps-IsValid k v) hs ds in
      (
        r',
        a',
        rw (first, flight_mode_loop) rest,
        Keeps-trans k l,
        λ t absent.
            Left-trans t k (Round-Left i t (λ e. ground arith) round) (left t (ground arith)),
        λ t m. elim (ℕ_discrete i t) [
          | yes e ↦ subst (λ x. Done block x a a') e (Round-Done i round (left i n))
          | no ne ↦ Left-Done t k (Round-Left i t ne round) (did t (ground arith))
        ],
      )

  switch_types-IsDistinct : IsDistinct switch_types
  switch_types-IsDistinct = (refl, (refl, (refl, (refl, (refl, (refl, (refl, (refl, tt))))))))

  -- A run of the flight mode: every type with a switch is done.
  pub run_lem :
      (block : Bool) (a : Arbitrator File)
      → ((out : List Output) (t : ℕ) (b : Bool) → w.accepts out t b ≡ true)
      → IsValid a
      → (r : Bool) × (a' : Arbitrator File) × (urf_arbitrator_set_flight_mode kf w block a
          ≡ some (r, a'))
        × Keeps a a'
        × ((t : ℕ) → IsSwitch t → Done block t a a')
  unfolding urf_arbitrator_set_flight_mode
  run_lem block a accepts v =
      let (c, written, _) = get-set_persist_state kf w a.config 0 block (omega arith) in
      let b = record a { config = c } in
      let k = config-Keeps a c in
      let (r, a', done, l, left, did) =
        loop_lem block switch_types false b accepts (Keeps-IsValid k v) switch_types-IsSwitch
          switch_types-IsDistinct in
      let same : (t : ℕ) → Left t a b =
        λ t. record { objects = λ p e. refl; saved_is = refl; grows = Grows-refl a.store.out } in
      (
        r,
        a',
        rw (written, urf_arbitrator_set_flight_mode) done,
        Keeps-trans k l,
        λ t s. Left-Done t k (same t) (did t (ground (arith, s))),
      )
