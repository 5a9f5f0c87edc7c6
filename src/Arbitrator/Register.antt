-- ===== src/Arbitrator/Register.antt =====
-- A new object among the devices (urf_arbitrator_add_device of src/urf-arbitrator.c).
use urfkill.Prelude.{◌≡◌, ◌<◌, ◌∙◌, ap, none, some, [], ◌∷◌, ◌++◌, arith}
use urfkill.Utils.{num_rfkill_types}
use urfkill.Store.{Device, Outside}
use urfkill.Device.{get_index, get_device_type}
use urfkill.Device.Laws.{Same}
use urfkill.Config.{KeyFile}
use urfkill.Arbitrator.{Arbitrator, find_from, urf_arbitrator_add_device}
use urfkill.Arbitrator.Devices.{add_device-IsValid}
use urfkill.Arbitrator.Lookup.{UniqueIndices-snoc, UniqueIndices-cong}
use urfkill.Arbitrator.Table.{IsGood, alloc, alloc_new, alloc_absent, alloc_find, alloc-IsGood}

module _ {File : Type 0} (kf : KeyFile File) (w : Outside) where
  -- An object whose index is free is registered under it.
  pub register_lem :
      (a : Arbitrator File) (d : Device)
      → IsGood a
      → find_from a.store.heap a.devices (get_index d) ≡ none
      → 0 < get_device_type d
      → get_device_type d < num_rfkill_types
      → (a' : Arbitrator File) × (urf_arbitrator_add_device kf w a.store.next (alloc a d) ≡ some a')
        × IsGood a'
        × (a'.devices ≡ a.devices ++ a.store.next ∷ [])
        × Same (alloc a d).store a'.store
  register_lem a d g e lo hi =
      let b = alloc a d in
      let p = a.store.next in
      let gb = alloc-IsGood a d g in
      let at = alloc_new a d in
      let free : find_from b.store.heap b.devices (get_index (b.store.heap p)) ≡ none =
        rw at (alloc_find a d (get_index d) g ∙ e) in
      let (a', done, v, ds, same) =
        add_device-IsValid kf w b p gb.valid (alloc_absent a g) (omega arith) (rw at lo)
          (rw at hi) in
      (
        a',
        done,
        record {
          valid = v;
          unique =
              UniqueIndices-cong b.store.heap a'.store.heap (b.devices ++ p ∷ []) a'.devices ds
                (λ q. ap (λ x. x.0) (same.identities q))
                (UniqueIndices-snoc b.store.heap b.devices p gb.unique free);
        },
        ds,
        same,
      )
