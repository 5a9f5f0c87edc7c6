-- ===== src/Arbitrator/Restore.antt =====
-- Flight mode on and off again (urf_arbitrator_set_flight_mode of src/urf-arbitrator.c).
use urfkill.Prelude.{ℕ, ◌≡◌, refl, sym, ◌∙◌, ap, Bool, true, false, some, List, ◌≤◌, mem, arith}
use urfkill.Utils.{soft_blocked, of_bool, event_to_state, rank}
use urfkill.Store.{Device, kernel, ofono, Outside, Output}
use urfkill.Device.{get_device_type, get_state, is_hardware_blocked}
use urfkill.Device.Kernel
use urfkill.Device.Laws.{wanted, is_kernel}
use urfkill.Device.Orders.{orders, Sent}
use urfkill.Killswitch.Aggregate.{current_state-uniform}
use urfkill.Config.{KeyFile}
use urfkill.Arbitrator.{Arbitrator, want_state, urf_arbitrator_set_flight_mode}
use urfkill.Arbitrator.Keeps.{Keeps}
use urfkill.Arbitrator.Invariant.{of_type, mem-of_type, state_of, IsValid, Keeps-IsValid}
use urfkill.Arbitrator.Startup.{IsSwitch}
use urfkill.Arbitrator.FlightMode.{IsOf}
use urfkill.Arbitrator.FlightLoop.{IsOf-Keeps, Done, run_lem}

module _ {File : Type 0} (kf : KeyFile File) (w : Outside) where
  -- Entering the flight mode on a well-formed arbitrator, while the kernel accepts every write,
  -- returns and keeps it well-formed. Each listed radio of the kernel has the soft block then,
  -- after a write of the block for its type; each listed modem has the wish for the block, and if
  -- it has a proxy, the call that takes it offline has been sent in between.
  pub flight_mode_on :
      (a : Arbitrator File)
      → IsValid a
      → ((out : List Output) (t : ℕ) (b : Bool) → w.accepts out t b ≡ true)
      → (r : Bool) × (a' : Arbitrator File) × (urf_arbitrator_set_flight_mode kf w true a
          ≡ some (r, a'))
        × IsValid a'
        × ((p : ℕ)
            → mem p a.devices ≡ true
            → (wanted (a'.store.heap p) ≡ true)
              × Sent (orders (a.store.heap p) true) a.store.out a'.store.out)
  unfolding want_state
  flight_mode_on a v accepts =
      let (r, a', done, k, did) = run_lem kf w true a accepts v in
      (
        r,
        a',
        done,
        Keeps-IsValid k v,
        λ p m.
            let done_own = did (get_device_type (a.store.heap p)) (v.typed p m) in
            (done_own.set p (m, refl), done_own.sent p (m, refl)),
      )

  -- The radios of a type are the kernel's, none is blocked by hardware, and all have the soft
  -- block `b`.
  abbrev pub Uniform : (t : ℕ) → Bool → Arbitrator File → Type 0
  Uniform t b a =
      (p : ℕ)
      → IsOf a t p
      → (is_kernel (a.store.heap p) ≡ true)
        × (is_hardware_blocked (a.store.heap p) ≡ false)
        × (wanted (a.store.heap p) ≡ b)

  plain_state :
      (d : Device) (b : Bool)
      → is_kernel d ≡ true
      → is_hardware_blocked d ≡ false
      → wanted d ≡ b
      → get_state d ≡ of_bool b
  unfolding get_state Kernel.get_state event_to_state
  plain_state (kernel d) true k h e = ground arith
  plain_state (kernel d) false k h e = ground arith
  plain_state (ofono d) b k h e = cc

  Uniform-state :
      (a : Arbitrator File) (t : ℕ) (b : Bool) (p : ℕ)
      → Uniform t b a
      → IsOf a t p
      → state_of a t ≡ of_bool b
  Uniform-state a t b p u of =
      let listed : (q : ℕ) → mem q (of_type a.store.heap t a.devices) ≡ true → IsOf a t q = λ q m. (
        ground (arith, mem-of_type a.store.heap t q a.devices),
        ground (arith, mem-of_type a.store.heap t q a.devices),
      ) in
      current_state-uniform a.store.heap (of_type a.store.heap t a.devices) p (of_bool b)
        (ground (arith, mem-of_type a.store.heap t p a.devices))
        (λ q m. let (k, h, e) = u q (listed q m) in plain_state (a.store.heap q) b k h e)
        (elim b as (λ x. 1 ≤ rank (of_bool x)) [ true ↦ omega arith | false ↦ omega arith ])

  -- The radios after the flight mode is on.
  on-Uniform :
      (a a' : Arbitrator File) (t : ℕ) (b : Bool)
      → Uniform t b a
      → Keeps a a'
      → Done kf w true t a a'
      → Uniform t true a'
  unfolding want_state
  on-Uniform a a' t b u k d = λ p of.
      let was : IsOf a t p =
        (rw (← k.devices) of.0, sym (ap (λ x. x.1) (k.objects.identities p)) ∙ of.1) in
      let (kernels, hard, soft) = u p was in
      (ap (λ x. x.3) (k.objects.identities p) ∙ kernels, k.objects.hards p ∙ hard, d.set p was)

  want_back : (b : Bool) → want_state kf w false soft_blocked (of_bool b) ≡ b
  unfolding want_state
  want_back true = refl
  want_back false = refl

  -- On a well-formed arbitrator, while the kernel accepts every write, entering the flight mode
  -- and leaving it again returns both times. If the radios of a type are the kernel's, none of
  -- them blocked by hardware, and all with one soft block, they are all blocked in the flight
  -- mode, and have their old soft block after it.
  pub flight_mode_restores :
      (a : Arbitrator File) (t : ℕ) (b : Bool)
      → IsValid a
      → ((out : List Output) (t : ℕ) (b : Bool) → w.accepts out t b ≡ true)
      → IsSwitch t
      → Uniform t b a
      → (r : Bool) × (a1 : Arbitrator File) × (r' : Bool) × (a2 : Arbitrator File)
        × (urf_arbitrator_set_flight_mode kf w true a ≡ some (r, a1))
        × (urf_arbitrator_set_flight_mode kf w false a1 ≡ some (r', a2))
        × ((p : ℕ)
            → IsOf a t p
            → (wanted (a1.store.heap p) ≡ true) × (wanted (a2.store.heap p) ≡ b))
  unfolding want_state
  flight_mode_restores a t b v accepts s u =
      let (r, a1, on, k, did) = run_lem kf w true a accepts v in
      let (r', a2, off, k', did') = run_lem kf w false a1 accepts (Keeps-IsValid k v) in
      let d = did t s in
      let u1 = on-Uniform a a1 t b u k d in
      (
        r,
        a1,
        r',
        a2,
        on,
        off,
        λ p of.
            let now = IsOf-Keeps k t p of in
            let state = Uniform-state a1 t true p u1 now in
            let kept = d.saved_own p of ∙ Uniform-state a t b p u of in
            (
              d.set p of,
              (did' t s).set p now ∙ (λ j. want_state kf w false (state j) (kept j)) ∙ want_back b,
            ),
      )

  -- If the flight mode is entered twice and then left, under the conditions under which once
  -- restores a type, all three calls return, and the radios of the type stay blocked, also those
  -- that were unblocked at the start.
  pub flight_mode_twice :
      (a : Arbitrator File) (t : ℕ) (b : Bool)
      → IsValid a
      → ((out : List Output) (t : ℕ) (b : Bool) → w.accepts out t b ≡ true)
      → IsSwitch t
      → Uniform t b a
      → (r : Bool) × (a1 : Arbitrator File) × (r' : Bool) × (a2 : Arbitrator File) × (r'' : Bool)
        × (a3 : Arbitrator File) × (urf_arbitrator_set_flight_mode kf w true a ≡ some (r, a1))
        × (urf_arbitrator_set_flight_mode kf w true a1 ≡ some (r', a2))
        × (urf_arbitrator_set_flight_mode kf w false a2 ≡ some (r'', a3))
        × ((p : ℕ) → IsOf a t p → wanted (a3.store.heap p) ≡ true)
  flight_mode_twice a t b v accepts s u =
      let (r, a1, on, k, did) = run_lem kf w true a accepts v in
      let u1 = on-Uniform a a1 t b u k (did t s) in
      let (r', a2, r'', a3, again, off, back) =
        flight_mode_restores a1 t true (Keeps-IsValid k v) accepts s u1 in
      (r, a1, r', a2, r'', a3, on, again, off, λ p of. (back p (IsOf-Keeps k t p of)).1)
