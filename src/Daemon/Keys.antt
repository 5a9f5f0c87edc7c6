-- ===== src/Daemon/Keys.antt =====
-- What a key does (urf_daemon_input_event_cb of src/urf-daemon.c).
use urfkill.Prelude.{
  List, ℕ, not, ◌≡◌, refl, ◌∙◌, sym, ap, Bool, true, false, Option, none, some, ◌==◌, ◌&&◌, ◌<◌,
  arith, if◌then◌else◌, mem, pos, leb, ◌>>=◌, subst,
}
use urfkill.Utils.{
  state_eq, no_adapter, soft_blocked, unblocked, hard_blocked, KillswitchState, num_rfkill_types,
  rfkill_type_all,
}
use urfkill.Store.{Output, Outside}
use urfkill.Device.{get_device_type}
use urfkill.Device.Laws.{wanted}
use urfkill.Killswitch.{current_state, urf_killswitch_get_state, urf_killswitch_state_refresh}
use urfkill.Killswitch.Block.{refresh-Same, refresh_shape, refresh_heap, refresh_lem}
use urfkill.Config.{KeyFile, urf_config_get_persist_state}
use urfkill.Arbitrator.{Arbitrator, urf_arbitrator_get_state, urf_arbitrator_set_block}
use urfkill.Arbitrator.Keeps.{Keeps, put_switch, put_switch-Keeps}
use urfkill.Arbitrator.Invariant.{state_of, IsValid, switch_of, Keeps-IsValid}
use urfkill.Arbitrator.Block.{set_block_lem}
use urfkill.Daemon.{Daemon, key_type, key_block, press, press_type, urf_daemon_input_event_cb}

-- What a user who presses a key wants of a switch that has devices: the opposite of a soft block.
abbrev pub asked : KillswitchState → Option Bool
asked state = if state_eq state no_adapter then none else some (not (state_eq state soft_blocked))

key_block_lem : (state : KillswitchState) → key_block state ≡ asked state
unfolding key_block
key_block_lem no_adapter = refl
key_block_lem unblocked = refl
key_block_lem soft_blocked = refl
key_block_lem hard_blocked = refl

module _ {File : Type 0} where
  -- The objects after a request of a key, which may be to leave them alone. Otherwise the state of
  -- the type is read and then the block is made, with the result `r`, which is TRUE at least while
  -- the kernel accepts every write.
  abbrev pub Toggled :
      KeyFile File → Outside → (t : ℕ) → Option Bool → Arbitrator File → Arbitrator File → Type 0
  Toggled kf w t none a a' = a'.store.heap ≡ a.store.heap
  Toggled kf w t (some b) a a' =
      (r : Bool) × (c : Arbitrator File) × (urf_arbitrator_get_state (pos t) a
        ≡ some (state_of a t, c))
      × (urf_arbitrator_set_block kf w (pos t) b c ≡ some (r, a'))
      × (((out : List Output) (u : ℕ) → w.accepts out u b ≡ true) → r ≡ true)
      × (r ≡ true → urf_config_get_persist_state kf a'.config (pos t) ≡ some b)
      × (r ≡ true
          → (p : ℕ) → mem p a.devices ≡ true
          → get_device_type (a.store.heap p) ≡ t
          → wanted (a'.store.heap p) ≡ b)
      × ((p : ℕ)
          → (mem p a.devices && get_device_type (a.store.heap p) == t) ≡ false
          → a'.store.heap p ≡ a.store.heap p)

  -- Asking for the state of a type.
  read_lem :
      (a : Arbitrator File) (t : ℕ)
      → IsValid a
      → 0 < t
      → t < num_rfkill_types
      → (b : Arbitrator File) × (urf_arbitrator_get_state (pos t) a ≡ some (state_of a t, b))
        × Keeps a b
        × (b.store.heap ≡ a.store.heap)
  unfolding urf_arbitrator_get_state urf_killswitch_get_state
  read_lem a t v lo hi =
      let (ks, e, ds, ty) = switch_of a t v lo hi in
      let (ks', s) = urf_killswitch_state_refresh ks a.store in
      let (d, k) = refresh_shape ks a.store in
      let keeps : Keeps a (put_switch a t ks' s) =
        put_switch-Keeps a t ks ks' s e d k (refresh-Same ks a.store) in
      let state : ks'.state ≡ state_of a t =
        (refresh_lem ks a.store).0 ∙ ap (current_state a.store.heap) ds in
      let known : leb num_rfkill_types t ≡ false = ground arith in
      let own_type : (t == rfkill_type_all) ≡ false = ground arith in
      (
        put_switch a t ks' s,
        rw (known, own_type, e) (ap (λ x. some (x, put_switch a t ks' s)) state),
        keeps,
        refresh_heap ks a.store,
      )

  module _ (kf : KeyFile File) (w : Outside) where
    toggle_lem :
        (t u : ℕ) (o : Option Bool) (a b : Arbitrator File) (d : Daemon File)
        → u ≡ t
        → urf_arbitrator_get_state (pos t) a ≡ some (state_of a t, b)
        → IsValid b
        → Keeps a b
        → b.store.heap ≡ a.store.heap
        → 0 < t
        → t < num_rfkill_types
        → (a' : Arbitrator File) × ((elim o as (λ x. Option (Daemon File)) [
          | none ↦ some (record d { arbitrator = b })
          | some c ↦
              (urf_arbitrator_set_block kf w (pos u) c b
                >>= (λ x. some (record d { arbitrator = x.1 })))
        ])
            ≡ some (record d { arbitrator = a' }))
          × IsValid a'
          × Toggled kf w t o a a'
    toggle_lem t u none a b d same read v k h lo hi = (b, refl, v, h)
    toggle_lem t u (some c) a b d same read v k h lo hi =
        let (r, a', done, blocked) = set_block_lem kf w b t c v lo hi in
        (
          a',
          rw (same, done) refl,
          blocked.valid,
          (
            r,
            b,
            read,
            done,
            blocked.accepted,
            blocked.kept,
            (λ ok p m e. blocked.set ok p (rw k.devices m) (rw h e)),
            (λ p no. blocked.others p (rw (k.devices, h) no) ∙ ap (λ f. f p) h),
          ),
        )

    abbrev typing : Option ℕ → ℕ → Daemon File → Option (Daemon File)
    typing o code d = elim o [
      | none ↦ some d
      | some type ↦ press_type kf w type d >>= (λ d'. some (press code d'))
    ]

    typed_lem :
        (o : Option ℕ) (code t : ℕ) (d d' : Daemon File)
        → o ≡ some t
        → press_type kf w t d ≡ some d'
        → typing o code d ≡ some (press code d')
    typed_lem o code t d d' e pressed = rw e (rw pressed refl)

    -- The key of a type between 1 and 8, pressed while the keys are not inhibited and the option
    -- master_key is off, on a well-formed arbitrator: the handler returns and signals the key, and
    -- the arbitrator stays well-formed. If the devices of the type add up to UNBLOCKED or
    -- HARD_BLOCKED, they are blocked, if to SOFT_BLOCKED, unblocked, and if there are none no
    -- object changes. The block is a call of urf_arbitrator_set_block after the read of the state,
    -- and succeeds at least while the kernel accepts every write. Where it succeeds each listed
    -- device of the type has the wanted soft block and the persistence file gives that state, and
    -- all other objects are as they were in any case.
    pub input_event_cb_lem :
        (code t : ℕ) (d : Daemon File)
        → IsValid d.arbitrator
        → d.session_checker.inhibit ≡ false
        → d.master_key ≡ false
        → key_type code ≡ some t
        → 0 < t
        → t < num_rfkill_types
        → (a' : Arbitrator File) × (urf_daemon_input_event_cb kf w code d
            ≡ some (press code (record d { arbitrator = a' })))
          × IsValid a'
          × Toggled kf w t (asked (state_of d.arbitrator t)) d.arbitrator a'
    unfolding urf_daemon_input_event_cb press_type
    input_event_cb_lem code t d v free own key lo hi =
        let (b, read, k, h) = read_lem d.arbitrator t v lo hi in
        let target : (if d.master_key then rfkill_type_all else t) ≡ t =
          ap (λ m. if m then rfkill_type_all else t) own in
        let (a', done, v', tog) =
          toggle_lem t (if d.master_key then rfkill_type_all else t)
            (key_block (state_of d.arbitrator t)) d.arbitrator b d target read (Keeps-IsValid k v) k
            h lo hi in
        let pressed : press_type kf w t d ≡ some (record d { arbitrator = a' }) =
          rw (read, press_type) done in
        let typed = typed_lem (key_type code) code t d (record d { arbitrator = a' }) key pressed in
        (
          a',
          subst
              (λ m.
                (if m then some (press code d) else typing (key_type code) code d)
                ≡ some (press code (record d { arbitrator = a' })))
              (sym free) typed,
          v',
          subst (λ o. Toggled kf w t o d.arbitrator a') (key_block_lem (state_of d.arbitrator t))
              tog,
        )
