-- ===== src/Arbitrator/Block.antt =====
-- What blocking a type does (urf_arbitrator_set_block of src/urf-arbitrator.c).
use urfkill.Prelude.{
  ℕ, ◌≡◌, refl, Bool, true, false, none, some, List, ◌==◌, ◌&&◌, ◌<◌, arith, if◌then◌else◌, mem,
  pos, Bool-cases, inl, inr, IsDistinct,
}
use urfkill.Utils.{num_rfkill_types, type_to_string_known, of_bool, unblocked, gtb}
use urfkill.Store.{Outside, Output}
use urfkill.Device.{get_device_type}
use urfkill.Device.Laws.{wanted}
use urfkill.Killswitch.{urf_killswitch_set_software_blocked}
use urfkill.Killswitch.Block.{set_software_blocked_lem, set_software_blocked-accepted}
use urfkill.Config.{KeyFile, Config, urf_config_set_persist_state, urf_config_get_persist_state}
use urfkill.Arbitrator.{Arbitrator, keep_block, urf_arbitrator_set_block}
use urfkill.Arbitrator.Keeps.{set_block-Keeps}
use urfkill.Arbitrator.Invariant.{
  of_type-IsDistinct, mem-of_type, IsValid, switch_of, Keeps-IsValid,
}

module _ {File : Type 0} (kf : KeyFile File) (w : Outside) where
  -- For a known type, writing a block to the persistence file succeeds, and reading the type gives
  -- that block back.
  pub get-set_persist_state :
      (c : Config File) (t : ℕ) (b : Bool)
      → t < num_rfkill_types
      → (c' : Config File) × (urf_config_set_persist_state kf c (pos t) (of_bool b) ≡ some c')
        × (urf_config_get_persist_state kf c' (pos t) ≡ some b)
  unfolding urf_config_set_persist_state urf_config_get_persist_state
  get-set_persist_state c t b h =
      let (name, e) = type_to_string_known t h in
      let file = kf.set_boolean c.persistence_file name "soft" (gtb (of_bool b) unblocked) in
      let law =
        kf.get_boolean-set_boolean c.persistence_file name "soft" (gtb (of_bool b) unblocked) in
      (record c { persistence_file = file }, rw e, rw e (rw law (ground arith)))

  -- What a block of type `t` leaves, with its result.
  pub record Blocked (t : ℕ) (b : Bool) (a : Arbitrator File) (r : Bool) (a' : Arbitrator File)
      : Type 0 where
    pub valid : IsValid a'
    pub set :
        r ≡ true
        → (p : ℕ) → mem p a.devices ≡ true
        → get_device_type (a.store.heap p) ≡ t
        → wanted (a'.store.heap p) ≡ b
    pub kept : r ≡ true → urf_config_get_persist_state kf a'.config (pos t) ≡ some b
    pub switches : a'.killswitch ≡ a.killswitch
    pub accepted : ((out : List Output) (u : ℕ) → w.accepts out u b ≡ true) → r ≡ true
    pub others :
        (p : ℕ)
        → (mem p a.devices && get_device_type (a.store.heap p) == t) ≡ false
        → a'.store.heap p ≡ a.store.heap p

  -- A block or unblock of a type between 1 and 8 on a well-formed arbitrator returns, and keeps it
  -- well-formed. If it reports success, each listed device of the type has the wanted soft block,
  -- and the persistence file gives that state for the type. It does report success while the
  -- kernel accepts every write. The array of switches is as it was, and in any case so are all
  -- other objects.
  pub set_block_lem :
      (a : Arbitrator File) (t : ℕ) (b : Bool)
      → IsValid a
      → 0 < t
      → t < num_rfkill_types
      → (r : Bool) × (a' : Arbitrator File) × (urf_arbitrator_set_block kf w (pos t) b a
          ≡ some (r, a'))
        × Blocked t b a r a'
  unfolding urf_arbitrator_set_block keep_block
  set_block_lem a t b v lo hi =
      let (ks, e, ds, ty) = switch_of a t v lo hi in
      let (c', saved, read) = get-set_persist_state a.config t b hi in
      let (r, s) = urf_killswitch_set_software_blocked w ks b a.store in
      let distinct : IsDistinct ks.devices =
        rw ds (of_type-IsDistinct a.store.heap t a.devices v.distinct) in
      let (set, others, hards) = set_software_blocked_lem w ks b a.store distinct in
      let done : urf_arbitrator_set_block kf w (pos t) b a
          ≡ some (r, record a { config = (if r then c' else a.config); store = s }) =
        elim (Bool-cases r) [ inl ok ↦ ground arith | inr failed ↦ ground arith ] in
      (
        r,
        record a { config = (if r then c' else a.config); store = s },
        done,
        record {
          valid = Keeps-IsValid (set_block-Keeps kf w (pos t) b a done) v;
          set = λ ok p m k. set ok p (ground (arith, ds, mem-of_type a.store.heap t p a.devices));
          kept = λ ok. rw ok read;
          switches = refl;
          accepted = λ h. set_software_blocked-accepted w ks b a.store h;
          others = λ p no. others p (ground (arith, ds, mem-of_type a.store.heap t p a.devices));
        },
      )

  -- There is no switch of type ALL.
  pub set_block_all :
      (a : Arbitrator File) (b : Bool)
      → IsValid a
      → urf_arbitrator_set_block kf w (pos 0) b a ≡ none
  unfolding urf_arbitrator_set_block
  set_block_all a b v = rw v.no_all
