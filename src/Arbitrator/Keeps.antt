-- ===== src/Arbitrator/Keeps.antt =====
-- What every operation of the arbitrator but the adding and removing of a device leaves as it was
-- (src/urf-arbitrator.c).
use urfkill.Prelude.{
  ℕ, ◌≡◌, refl, ◌∙◌, Bool, false, Option, none, some, List, [], ◌∷◌, ◌==◌, arith, if◌then◌else◌, ℤ,
  pos, negsuc, Bool-cases, Option-cases, inl, inr, leb, not, ◌&&◌,
}
use native.Mathlib.Decide.{ℕ_discrete}
use urfkill.Device.{get_index, is_platform, is_software_blocked}
use urfkill.Utils.{of_bool, KillswitchState, num_rfkill_types, no_adapter, state_eq}
use urfkill.Store.{Outside, Store}
use urfkill.Device.Laws.{Same, Same-refl, Same-trans, set_software_blocked-Same}
use urfkill.Killswitch.{Killswitch, urf_killswitch_get_state, urf_killswitch_state_refresh}
use urfkill.Killswitch.Block.{refresh-Same, refresh_shape, set_software_blocked-Same_switch}
use urfkill.Config.{KeyFile, Config, urf_config_set_persist_state, urf_config_get_persist_state}
use urfkill.Arbitrator.{
  Arbitrator, set_killswitch, urf_arbitrator_set_block, urf_arbitrator_set_block_idx,
  urf_arbitrator_find_device, flight_mode_round, flight_mode_loop, urf_arbitrator_set_flight_mode,
  urf_arbitrator_get_state, sync_new_device, restore_new_device, switch_types, want_state,
}

-- The devices of a switch and its type.
abbrev pub shape : Option Killswitch → Option (List ℕ × ℕ)
shape none = none
shape (some ks) = some (ks.devices, ks.type)

-- A new value for one switch that has the old devices and type.
pub set_killswitch-shape :
    (switches : ℕ → Option Killswitch) (t : ℕ) (ks ks' : Killswitch) (u : ℕ)
    → switches t ≡ some ks
    → ks'.devices ≡ ks.devices
    → ks'.type ≡ ks.type
    → shape (set_killswitch switches t ks' u) ≡ shape (switches u)
set_killswitch-shape switches t ks ks' u h d e = elim (ℕ_discrete t u) [
  | yes same ↦ rw (← same) (ground (arith, h))
  | no other ↦ ground arith
]

module _ {File : Type 0} where
  pub record Keeps (a a' : Arbitrator File) : Type 0 where
    pub devices : a'.devices ≡ a.devices
    pub objects : Same a.store a'.store
    pub shapes : (t : ℕ) → shape (a'.killswitch t) ≡ shape (a.killswitch t)
    pub force_sync : a'.force_sync ≡ a.force_sync
    pub persist : a'.persist ≡ a.persist

  pub Keeps-refl : (a : Arbitrator File) → Keeps a a
  Keeps-refl a = record {
    devices = refl;
    objects = Same-refl a.store;
    shapes = λ t. refl;
    force_sync = refl;
    persist = refl;
  }

  pub Keeps-of_eq : {a a' : Arbitrator File} → a' ≡ a → Keeps a a'
  Keeps-of_eq {a} e = rw e (Keeps-refl a)

  pub Keeps-trans : {a b c : Arbitrator File} → Keeps a b → Keeps b c → Keeps a c
  Keeps-trans h k = record {
    devices = k.devices ∙ h.devices;
    objects = Same-trans h.objects k.objects;
    shapes = λ t. k.shapes t ∙ h.shapes t;
    force_sync = k.force_sync ∙ h.force_sync;
    persist = k.persist ∙ h.persist;
  }

  -- Writing back a switch that has the old devices and type, and a store with the same objects.
  abbrev pub put_switch : Arbitrator File → ℕ → Killswitch → Store → Arbitrator File
  put_switch a i ks s = record a { killswitch = set_killswitch a.killswitch i ks; store = s }

  pub put_switch-Keeps :
      (a : Arbitrator File) (i : ℕ) (ks ks' : Killswitch) (s : Store)
      → a.killswitch i ≡ some ks
      → ks'.devices ≡ ks.devices
      → ks'.type ≡ ks.type
      → Same a.store s
      → Keeps a (put_switch a i ks' s)
  put_switch-Keeps a i ks ks' s h d e same = record {
    devices = refl;
    objects = same;
    shapes = λ u. set_killswitch-shape a.killswitch i ks ks' u h d e;
    force_sync = refl;
    persist = refl;
  }

  pub config-Keeps : (a : Arbitrator File) (c : Config File) → Keeps a (record a { config = c })
  config-Keeps a c = record {
    devices = refl;
    objects = Same-refl a.store;
    shapes = λ t. refl;
    force_sync = refl;
    persist = refl;
  }

  pub get_state-Keeps :
      (type : ℤ) (a : Arbitrator File) {r : KillswitchState} {a' : Arbitrator File}
      → urf_arbitrator_get_state type a ≡ some (r, a')
      → Keeps a a'
  unfolding urf_arbitrator_get_state urf_killswitch_get_state
  get_state-Keeps (negsuc n) a h = Keeps-of_eq (ground arith)
  get_state-Keeps (pos t) a {a'} h =
      let i : ℕ = if t == 0 then 1 else t in
      elim (Option-cases (a.killswitch i)) [
        | inl e ↦ Keeps-of_eq (ground arith)
        | inr (ks, e) ↦
            let (d, k) = refresh_shape ks a.store in
            let (ks', s) = urf_killswitch_state_refresh ks a.store in
            elim (Bool-cases (leb num_rfkill_types t)) [
              | inl out ↦ Keeps-of_eq (ground arith)
              | inr known ↦
                  Keeps-trans (put_switch-Keeps a i ks ks' s e d k (refresh-Same ks a.store))
                    (Keeps-of_eq (ground arith))
            ]
      ]

  module _ (kf : KeyFile File) (w : Outside) where
    pub set_block-Keeps :
        (type : ℤ) (block : Bool) (a : Arbitrator File) {r : Bool} {a' : Arbitrator File}
        → urf_arbitrator_set_block kf w type block a ≡ some (r, a')
        → Keeps a a'
    unfolding urf_arbitrator_set_block
    set_block-Keeps (negsuc n) block a h = Keeps-of_eq (ground arith)
    set_block-Keeps (pos t) block a {a'} h = elim (Option-cases (a.killswitch t)) [
      | inl e ↦ Keeps-of_eq (ground arith)
      | inr (ks, e) ↦
          let same = set_software_blocked-Same_switch w ks block a.store in
          record {
            devices = ground arith;
            objects = record {
              next = ground (arith, same.next);
              identities = λ p. ground (arith, same.identities p);
              hards = λ p. ground (arith, same.hards p);
              frames = λ p. ground (arith, same.frames p);
            };
            shapes = λ u. ground arith;
            force_sync = ground arith;
            persist = ground arith;
          }
    ]

    pub set_block_idx-Keeps :
        (index : ℤ) (block : Bool) (a : Arbitrator File)
        → Keeps a (urf_arbitrator_set_block_idx kf w index block a).1
    unfolding urf_arbitrator_set_block_idx
    set_block_idx-Keeps index block a = elim (Option-cases (urf_arbitrator_find_device a index)) [
      | inl e ↦ Keeps-of_eq (ground arith)
      | inr (p, e) ↦
          let same = set_software_blocked-Same w p block a.store in
          record {
            devices = ground arith;
            objects = record {
              next = ground (arith, same.next);
              identities = λ q. ground (arith, same.identities q);
              hards = λ q. ground (arith, same.hards q);
              frames = λ q. ground (arith, same.frames q);
            };
            shapes = λ u. ground arith;
            force_sync = ground arith;
            persist = ground arith;
          }
    ]

    flight_mode_round-Keeps :
        (block : Bool) (i : ℕ) (ret : Bool) (a : Arbitrator File) {r : Bool} {a' : Arbitrator File}
        → flight_mode_round kf w block i ret a ≡ some (r, a')
        → Keeps a a'
    unfolding flight_mode_round urf_killswitch_get_state
    flight_mode_round-Keeps block i ret a {r} {a'} h = elim (Option-cases (a.killswitch i)) [
      | inl e ↦ Keeps-of_eq (ground arith)
      | inr (ks, e) ↦
          let (d, k) = refresh_shape ks a.store in
          let (ks', s) = urf_killswitch_state_refresh ks a.store in
          let same = refresh-Same ks a.store in
          let ks'' : Killswitch = if block then record ks' { saved_state = ks'.state } else ks' in
          let want = want_state kf w block ks'.state ks'.saved_state in
          let present = put_switch a i ks'' s in
          elim (Bool-cases (state_eq ks'.state no_adapter)) [
            | inl absent ↦
                Keeps-trans (put_switch-Keeps a i ks ks' s e d k same) (Keeps-of_eq (ground arith))
            | inr there ↦
                Keeps-trans (put_switch-Keeps a i ks ks'' s e (ground arith) (ground arith) same)
                  (set_block-Keeps (pos i) want present {r = r} {a' = a'} (ground arith))
          ]
    ]

    flight_mode_loop-Keeps :
        (block : Bool) (is : List ℕ) (ret : Bool) (a : Arbitrator File) {r : Bool}
        {a' : Arbitrator File}
        → flight_mode_loop kf w block is ret a ≡ some (r, a')
        → Keeps a a'
    unfolding flight_mode_loop
    flight_mode_loop-Keeps block [] ret a h = Keeps-of_eq (ground arith)
    flight_mode_loop-Keeps block (i ∷ is) ret a {r} {a'} h =
        elim (Option-cases (flight_mode_round kf w block i ret a)) [
          | inl e ↦ Keeps-of_eq (ground arith)
          | inr (step, e) ↦
              Keeps-trans (flight_mode_round-Keeps block i ret a {r = step.0} {a' = step.1} e)
                (flight_mode_loop-Keeps block is step.0 step.1 {r = r} {a' = a'} (ground arith))
        ]

    pub set_flight_mode-Keeps :
        (block : Bool) (a : Arbitrator File) {r : Bool} {a' : Arbitrator File}
        → urf_arbitrator_set_flight_mode kf w block a ≡ some (r, a')
        → Keeps a a'
    unfolding urf_arbitrator_set_flight_mode
    set_flight_mode-Keeps block a {r} {a'} h =
        elim (Option-cases (urf_config_set_persist_state kf a.config (pos 0) (of_bool block))) [
          | inl e ↦ Keeps-of_eq (ground arith)
          | inr (saved, e) ↦
              let set = record a { config = saved } in
              Keeps-trans (config-Keeps a saved) (
                flight_mode_loop-Keeps block switch_types false set {r = r} {a' = a'}
                  (ground arith))
        ]

    pub sync_new_device-Keeps : (p : ℕ) (a : Arbitrator File) → Keeps a (sync_new_device kf w p a)
    unfolding sync_new_device
    sync_new_device-Keeps p a =
        let d = a.store.heap p in
        elim (Bool-cases (a.force_sync && not (is_platform d))) [
          | inl e ↦
              Keeps-trans (set_block_idx-Keeps (pos (get_index d)) (is_software_blocked d) a)
                (Keeps-of_eq (ground arith))
          | inr e ↦ Keeps-of_eq (ground arith)
        ]

    pub restore_new_device-Keeps :
        (index type : ℕ) (a : Arbitrator File) {a' : Arbitrator File}
        → restore_new_device kf w index type a ≡ some a'
        → Keeps a a'
    unfolding restore_new_device
    restore_new_device-Keeps index type a {a'} h =
        elim (Option-cases (urf_config_get_persist_state kf a.config (pos type))) [
          | inl e ↦ Keeps-of_eq (ground arith)
          | inr (soft, e) ↦ elim (Bool-cases a.persist) [
            | inl on ↦
                Keeps-trans (set_block_idx-Keeps (pos index) soft a) (Keeps-of_eq (ground arith))
            | inr off ↦ Keeps-of_eq (ground arith)
          ]
        ]
