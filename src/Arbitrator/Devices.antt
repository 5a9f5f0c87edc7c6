-- ===== src/Arbitrator/Devices.antt =====
-- Adding and removing a device (src/urf-arbitrator.c).
use urfkill.Prelude.{
  ℕ, ◌≡◌, refl, ◌∙◌, sym, Bool, true, false, some, [], ◌∷◌, ◌++◌, arith, ◌<◌, mem, remove,
  mem_of_mem-remove, mem-snoc_cases, remove_absent, ap, IsDistinct-remove, IsDistinct-snoc,
  Bool-cases, inl, inr, Option-cases, pos,
}
use native.Mathlib.Decide.{ℕ_discrete}
use urfkill.Utils.{type_to_string_known, num_rfkill_types}
use urfkill.Store.{device_added, Output, device_removed, put_out, Outside, Store}
use urfkill.Device.{get_index, get_device_type, get_object_path}
use urfkill.Killswitch.{Killswitch, urf_killswitch_del_device, urf_killswitch_add_device}
use urfkill.Killswitch.Block.{add_device_lem, del_device_lem, del_device_next}
use urfkill.Device.Laws.{Same, Same-trans}
use urfkill.Config.{urf_config_get_persist_state, KeyFile, Config}
use urfkill.Arbitrator.{
  Arbitrator, drop_device, urf_arbitrator_add_device, sync_new_device, restore_new_device,
  urf_arbitrator_set_block_idx, set_killswitch,
}
use urfkill.Arbitrator.Keeps.{
  shape, Keeps, Keeps-trans, sync_new_device-Keeps, restore_new_device-Keeps,
}
use urfkill.Arbitrator.Invariant.{
  of_type, mem-of_type, remove-of_type, of_type-snoc, IsValid, switch_of, Keeps-IsValid,
}

-- Removing a device that is listed.
module _ {File : Type 0} where
  dropped_switches :
      (a : Arbitrator File) (p : ℕ) (ks' : Killswitch)
      → IsValid a
      → ks'.devices ≡ of_type a.store.heap (get_device_type (a.store.heap p)) (remove p a.devices)
      → ks'.type ≡ get_device_type (a.store.heap p)
      → (u : ℕ) → 0 < u
      → u < num_rfkill_types
      → shape (set_killswitch a.killswitch (get_device_type (a.store.heap p)) ks' u)
        ≡ some (of_type a.store.heap u (remove p a.devices), u)
  dropped_switches a p ks' v ds' ty u lo hi =
      elim (ℕ_discrete (get_device_type (a.store.heap p)) u) [
        | yes e ↦ ground arith
        | no n ↦ ground (
          arith,
          v.switches u lo hi,
          remove-of_type a.store.heap u p a.devices v.distinct,
          remove_absent p (of_type a.store.heap u a.devices),
          mem-of_type a.store.heap u p a.devices,
        )
      ]

  -- Removing a listed device from a well-formed arbitrator returns and keeps it well-formed; the
  -- device is taken out of the list of devices, and no object has changed.
  pub drop_device_lem :
      (a : Arbitrator File) (p : ℕ)
      → IsValid a
      → mem p a.devices ≡ true
      → (a' : Arbitrator File) × (drop_device p a ≡ some a')
        × IsValid a'
        × (a'.devices ≡ remove p a.devices)
        × (a'.store.heap ≡ a.store.heap)
  unfolding drop_device
  drop_device_lem a p v m =
      let (lo, hi) = v.typed p m in
      let t = get_device_type (a.store.heap p) in
      let (ks, e, ds, ty) = switch_of a t v lo hi in
      let held : mem p ks.devices ≡ true = ground (arith, mem-of_type a.store.heap t p a.devices) in
      let (d, k, heap, same) = del_device_lem ks p a.store (sym ty) held in
      let (ks', s) = urf_killswitch_del_device ks p a.store in
      let ds' : ks'.devices ≡ of_type a.store.heap t (remove p a.devices) =
        d ∙ ap (remove p) ds ∙ remove-of_type a.store.heap t p a.devices v.distinct in
      let a' : Arbitrator File = record a {
        devices = remove p a.devices;
        killswitch = set_killswitch a.killswitch t ks';
        store = put_out s (device_removed (get_object_path (a.store.heap p)));
      } in
      (
        a',
        rw e,
        record {
          no_all = ground (arith, v.no_all);
          switches = λ u ulo uhi. rw heap (dropped_switches a p ks' v ds' (k ∙ ty) u ulo uhi);
          distinct = IsDistinct-remove p a.devices v.distinct;
          fresh = λ q n. rw same.next (v.fresh q (mem_of_mem-remove p q a.devices n));
          typed = λ q n. rw heap (v.typed q (mem_of_mem-remove p q a.devices n));
        },
        refl,
        heap,
      )

  pub drop_device_next :
      (p : ℕ) (a a' : Arbitrator File) → drop_device p a ≡ some a' → a'.store.next ≡ a.store.next
  unfolding drop_device
  drop_device_next p a a' h =
      elim (Option-cases (a.killswitch (get_device_type (a.store.heap p)))) [
        | inl e ↦ ground arith
        | inr (ks, e) ↦ ground (arith, del_device_next ks p a.store)
      ]

  -- The arbitrator after the registration of a device, before it is synchronised.
  abbrev pub listed : Arbitrator File → ℕ → Killswitch → Store → Arbitrator File
  listed a p ks s = record a {
    devices = a.devices ++ p ∷ [];
    killswitch = set_killswitch a.killswitch (get_device_type (a.store.heap p)) ks;
    store = s;
  }

  listed_switches :
      (a : Arbitrator File) (p : ℕ) (ks' : Killswitch)
      → IsValid a
      → ks'.devices ≡ p ∷ of_type a.store.heap (get_device_type (a.store.heap p)) a.devices
      → ks'.type ≡ get_device_type (a.store.heap p)
      → (u : ℕ) → 0 < u
      → u < num_rfkill_types
      → shape (set_killswitch a.killswitch (get_device_type (a.store.heap p)) ks' u)
        ≡ some (of_type a.store.heap u (a.devices ++ p ∷ []), u)
  listed_switches a p ks' v ds' ty u lo hi =
      elim (ℕ_discrete (get_device_type (a.store.heap p)) u) [
        | yes e ↦ ground (arith, of_type-snoc a.store.heap u p a.devices)
        | no n ↦ ground (arith, v.switches u lo hi, of_type-snoc a.store.heap u p a.devices)
      ]

  listed-IsValid :
      (a : Arbitrator File) (p : ℕ) (ks' : Killswitch) (s : Store)
      → IsValid a
      → ks'.devices ≡ p ∷ of_type a.store.heap (get_device_type (a.store.heap p)) a.devices
      → ks'.type ≡ get_device_type (a.store.heap p)
      → s.heap ≡ a.store.heap
      → s.next ≡ a.store.next
      → mem p a.devices ≡ false
      → p < a.store.next
      → 0 < get_device_type (a.store.heap p)
      → get_device_type (a.store.heap p) < num_rfkill_types
      → IsValid (listed a p ks' s)
  listed-IsValid a p ks' s v ds' ty heap next new alive lo hi = record {
    no_all = ground (arith, v.no_all);
    switches = λ u ulo uhi. rw heap (listed_switches a p ks' v ds' ty u ulo uhi);
    distinct = IsDistinct-snoc p a.devices new v.distinct;
    fresh = λ q m. rw next (mem-snoc_cases p q a.devices m (v.fresh q) (λ e. rw (← e) alive));
    typed = λ q m. rw heap (mem-snoc_cases p q a.devices m (v.typed q) (λ e. rw (← e) (lo, hi)));
  }

  pub put_out-Keeps :
      (a : Arbitrator File) (o : Output) → Keeps a (record a { store = put_out a.store o })
  put_out-Keeps a o = record {
    devices = refl;
    objects = record { next = refl; identities = λ p. refl; hards = λ p. refl; frames = λ p. refl };
    shapes = λ t. refl;
    force_sync = refl;
    persist = refl;
  }

  module _ (kf : KeyFile File) (w : Outside) where
    pub get_persist_state_total :
        (c : Config File) (t : ℕ)
        → t < num_rfkill_types
        → (b : Bool) × (urf_config_get_persist_state kf c (pos t) ≡ some b)
    unfolding urf_config_get_persist_state
    get_persist_state_total c t h =
        let (name, e) = type_to_string_known t h in
        elim (Option-cases (kf.get_boolean c.persistence_file name "soft")) [
          | inl absent ↦ (false, ground arith)
          | inr (b, there) ↦ (b, ground arith)
        ]

    restore_total :
        (index t : ℕ) (a : Arbitrator File)
        → t < num_rfkill_types
        → (a' : Arbitrator File) × (restore_new_device kf w index t a ≡ some a')
    unfolding restore_new_device
    restore_total index t a h =
        let (b, e) = get_persist_state_total a.config t h in
        elim (Bool-cases a.persist) [
          | inl on ↦ ((urf_arbitrator_set_block_idx kf w (pos index) b a).1, ground arith)
          | inr off ↦ (a, ground arith)
        ]

    -- Registering an object that is not listed, of a type between 1 and 8, with a well-formed
    -- arbitrator returns and keeps it well-formed: the list of each switch is the list of the
    -- devices of its type. The device stands at the end of the list of devices, and no object has
    -- changed but in its soft block.
    pub add_device-IsValid :
        (a : Arbitrator File) (p : ℕ)
        → IsValid a
        → mem p a.devices ≡ false
        → p < a.store.next
        → 0 < get_device_type (a.store.heap p)
        → get_device_type (a.store.heap p) < num_rfkill_types
        → (a' : Arbitrator File) × (urf_arbitrator_add_device kf w p a ≡ some a')
          × IsValid a'
          × (a'.devices ≡ a.devices ++ p ∷ [])
          × Same a.store a'.store
    unfolding urf_arbitrator_add_device
    add_device-IsValid a p v new alive lo hi =
        let t = get_device_type (a.store.heap p) in
        let (ks, e, ds, ty) = switch_of a t v lo hi in
        let absent : mem p ks.devices ≡ false =
          ground (arith, mem-of_type a.store.heap t p a.devices) in
        let (d, k, heap, same) = add_device_lem ks p a.store (sym ty) absent in
        let (ks', s) = urf_killswitch_add_device ks p a.store in
        let l = listed a p ks' s in
        let valid : IsValid l =
          listed-IsValid a p ks' s v (d ∙ ap (◌∷◌ p) ds) (k ∙ ty) heap same.next new alive lo hi in
        let synced = sync_new_device kf w p l in
        let index = get_index (a.store.heap p) in
        let (restored, r) = restore_total index t synced hi in
        let out = device_added (get_object_path (a.store.heap p)) in
        let keeps : Keeps l (record restored { store = put_out restored.store out }) =
          Keeps-trans (sync_new_device-Keeps kf w p l) (
            Keeps-trans (restore_new_device-Keeps kf w index t synced r)
              (put_out-Keeps restored out)) in
        (
          record restored { store = put_out restored.store out },
          rw (e, r),
          Keeps-IsValid keeps valid,
          keeps.devices,
          Same-trans same keeps.objects,
        )
