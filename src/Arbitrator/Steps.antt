-- ===== src/Arbitrator/Steps.antt =====
-- What adding a radio and reporting a change do to the table of radios (src/urf-arbitrator.c).
use urfkill.Prelude.{
  ==-refl, ℕ, ◌≡◌, refl, ◌∙◌, sym, ◌≢◌, Bool, true, false, not, none, some, List, ◌==◌, ◌&&◌, ◌||◌,
  arith, if◌then◌else◌, ◌<◌, ap, pos, inl, inr, Option-cases, subst, differ,
}
use native.Mathlib.Decide.{ℕ_discrete}
use urfkill.Utils.{num_rfkill_types}
use urfkill.Store.{Device, Output, kernel, ofono, Outside, Store, put_out, device_changed}
use urfkill.Device.{
  get_index, get_object_path, is_hardware_blocked, update_states, urf_device_update_states,
}
use urfkill.Device.Kernel
use urfkill.Device.Register.{
  urf_device_kernel_new, register_new, Same-exported, exported_cong, exported-allocate,
}
use urfkill.Device.Laws.{identity, update_states-identities, assign_self, assign_other}
use urfkill.Config.{KeyFile}
use urfkill.Arbitrator.{
  Arbitrator, find_from, urf_arbitrator_add_device, urf_arbitrator_find_device,
}
use urfkill.Arbitrator.Events.{add, update_killswitch, add_killswitch, sync_change}
use urfkill.Arbitrator.Keeps.{Keeps, Keeps-refl, Keeps-trans, set_block_idx-Keeps}
use urfkill.Arbitrator.Invariant.{IsValid, of_type_cong}
use urfkill.Arbitrator.Devices.{put_out-Keeps}
use urfkill.Arbitrator.Lookup.{find_from_found, find_from_cong, UniqueIndices-cong}
use urfkill.Arbitrator.Register.{register_lem}
use urfkill.Arbitrator.Table.{
  Entry, entry, entry_at, added, changed, view, paths_of, path_after, IsGood, Follows, Follows-self,
  Follows-cong, Keeps-Follows, alloc, alloc_new, alloc_find, view-alloc, listed_view,
}

module _ {File : Type 0} (kf : KeyFile File) (w : Outside) where
  pub none-view :
      (a : Arbitrator File) (i : ℕ) → find_from a.store.heap a.devices i ≡ none → view a i ≡ none
  unfolding view
  none-view a i e = rw e

  pub found_view :
      (a : Arbitrator File) (i p : ℕ)
      → find_from a.store.heap a.devices i ≡ some p
      → view a i ≡ some (entry (a.store.heap p))
  unfolding view
  found_view a i p e = rw e

  -- A radio of an index that is not found is registered under it.
  new_Follows :
      (a : Arbitrator File) (i t : ℕ) (soft hard : Bool)
      → IsGood a
      → find_from a.store.heap a.devices i ≡ none
      → 0 < t
      → t < num_rfkill_types
      → let d = kernel (Kernel.kernel_fields w i t soft hard) in
        (a' : Arbitrator File) × (urf_arbitrator_add_device kf w a.store.next (alloc a d) ≡ some a')
        × Follows (λ j. if i == j then added t hard (view a j) else view a j) a'
        × ((j : ℕ) → paths_of a' j ≡ (i == j || paths_of a j))
  unfolding Kernel.kernel_fields
  new_Follows a i t soft hard g e lo hi =
      let d : Device = kernel (Kernel.kernel_fields w i t soft hard) in
      let b = alloc a d in
      let p = a.store.next in
      let at = alloc_new a d in
      let free : find_from b.store.heap b.devices (get_index (b.store.heap p)) ≡ none =
        rw at (alloc_find a d i g ∙ e) in
      let (a', done, good, ds, same) = register_lem kf w a d g e lo hi in
      (
        a',
        done,
        record {
          good = good;
          table_is = λ j.
              listed_view b a' p j free ds same
              ∙ rw at (ground (arith, view-alloc a d j g, none-view a i e));
        },
        λ j. Same-exported j same ∙ exported-allocate a.store d j,
      )

  pub add_Follows :
      (a : Arbitrator File) (i t : ℕ) (soft hard : Bool)
      → IsGood a
      → 0 < t
      → t < num_rfkill_types
      → (view a i ≡ none → paths_of a i ≡ false)
      → (a' : Arbitrator File) × (add_killswitch kf w (pos i) t soft hard a ≡ some a')
        × Follows (λ j. if i == j then added t hard (view a j) else view a j) a'
        × ((j : ℕ)
            → paths_of a' j
              ≡ (if i == j then path_after add (view a j) (paths_of a j) else paths_of a j))
  unfolding add_killswitch urf_arbitrator_find_device urf_device_kernel_new
  add_Follows a i t soft hard g lo hi free =
      elim (Option-cases (find_from a.store.heap a.devices i)) [
        | inl e ↦
            let (a', done, f, x) = new_Follows a i t soft hard g e lo hi in
            let d : Device = kernel (Kernel.kernel_fields w i t soft hard) in
            let made = register_new d a.store (free (none-view a i e)) in
            (
              a',
              rw (e, made, add_killswitch) done,
              f,
              λ j. x j ∙ elim (ℕ_discrete i j) [
                | yes ij ↦ rw (← ij, ==-refl i, none-view a i e) refl
                | no n ↦ ground arith
              ],
            )
        | inr (p, e) ↦
            let there = found_view a i p e in
            (
              a,
              rw (e, add_killswitch),
              record {
                good = g;
                table_is = λ j. elim (ℕ_discrete i j) [
                  | yes ij ↦ rw (← ij, ==-refl i, there) refl
                  | no n ↦ ground arith
                ];
              },
              λ j. elim (ℕ_discrete i j) [
                | yes ij ↦ rw (← ij, ==-refl i, there) refl
                | no n ↦ ground arith
              ],
            )
      ]

  -- The change of an object whose identity stays.
  written_IsValid :
      (a : Arbitrator File) (s : Store)
      → IsValid a
      → s.next ≡ a.store.next
      → ((q : ℕ) → identity (s.heap q) ≡ identity (a.store.heap q))
      → IsValid (record a { store = s })
  written_IsValid a s v next same = record {
    no_all = v.no_all;
    switches = λ t lo hi.
        v.switches t lo hi
        ∙ ap (λ ps. some (ps, t))
            (sym (of_type_cong a.store.heap s.heap t a.devices (λ q m. ap (λ x. x.1) (same q))));
    distinct = v.distinct;
    fresh = λ q m. rw next (v.fresh q m);
    typed = λ q m.
        subst (λ t. (0 < t) × (t < num_rfkill_types)) (sym (ap (λ x. x.1) (same q))) (v.typed q m);
  }

  written_view :
      (a : Arbitrator File) (p i j : ℕ) (s : Store) (x : Entry)
      → find_from a.store.heap a.devices i ≡ some p
      → ((q : ℕ) → identity (s.heap q) ≡ identity (a.store.heap q))
      → ((q : ℕ) → p ≢ q → s.heap q ≡ a.store.heap q)
      → entry (s.heap p) ≡ x
      → view (record a { store = s }) j ≡ (if i == j then some x else view a j)
  unfolding view
  written_view a p i j s x e same others here =
      ap (entry_at s.heap)
        (find_from_cong a.store.heap s.heap a.devices j (λ q m. ap (λ y. y.0) (same q)))
      ∙ elim (ℕ_discrete i j) [
        | yes ij ↦ rw (← ij, e) (ap some here ∙ ground arith)
        | no n ↦ elim (Option-cases (find_from a.store.heap a.devices j)) [
          | inl f ↦ rw f (ground arith)
          | inr (q, f) ↦ rw f (ap (λ d. some (entry d)) (others q (apart q n f)) ∙ ground arith)
        ]
      ]
    where
      apart : (q : ℕ) → i ≢ j → find_from a.store.heap a.devices j ≡ some q → p ≢ q
      apart q n f pq = n (
          sym (find_from_found a.store.heap a.devices i e).1
          ∙ ap (λ r. get_index (a.store.heap r)) pq
          ∙ (find_from_found a.store.heap a.devices j f).1)

  written_Follows :
      (a : Arbitrator File) (p i : ℕ) (s : Store) (x : Entry)
      → IsGood a
      → find_from a.store.heap a.devices i ≡ some p
      → s.next ≡ a.store.next
      → ((q : ℕ) → identity (s.heap q) ≡ identity (a.store.heap q))
      → ((q : ℕ) → p ≢ q → s.heap q ≡ a.store.heap q)
      → entry (s.heap p) ≡ x
      → Follows (λ j. if i == j then some x else view a j) (record a { store = s })
  written_Follows a p i s x g e next same others here = record {
    good = record {
      valid = written_IsValid a s g.valid next same;
      unique =
          UniqueIndices-cong a.store.heap s.heap a.devices a.devices refl
            (λ q. ap (λ x. x.0) (same q)) g.unique;
    };
    table_is = λ j. written_view a p i j s x e same others here;
  }

  -- The call that reports a change to a device, and the entry of the device after it.
  reported_entry :
      (d : Device) (soft hard : Bool) (out : List Output)
      → some (entry (update_states w d soft hard out).1) ≡ changed hard (some (entry d))
  unfolding update_states
  reported_entry (kernel d) soft hard out = ground arith
  reported_entry (ofono d) soft hard out = refl

  Keeps-if :
      (b : Bool) {a x y : Arbitrator File} → Keeps a x → Keeps a y → Keeps a (if b then x else y)
  Keeps-if true h k = h
  Keeps-if false h k = k

  sync_change-Keeps :
      (index : ℕ) (soft hard old_hard : Bool) (a : Arbitrator File)
      → Keeps a (sync_change kf w index soft hard old_hard a)
  unfolding sync_change
  sync_change-Keeps index soft hard old_hard a = Keeps-if (not a.force_sync) (Keeps-refl a) (
      Keeps-if (hard && not soft) (set_block_idx-Keeps kf w (pos index) true a) (
        Keeps-if (differ hard old_hard && not hard) (set_block_idx-Keeps kf w (pos index) false a)
          (Keeps-refl a)))

  pub update_Follows :
      (a : Arbitrator File) (i : ℕ) (soft hard : Bool)
      → IsGood a
      → Follows
          (λ j. if i == j then changed hard (view a j) else view a j)
          (update_killswitch kf w (pos i) soft hard a)
  unfolding update_killswitch urf_arbitrator_find_device urf_device_update_states
  update_Follows a i soft hard g = elim (Option-cases (find_from a.store.heap a.devices i)) [
    | inl e ↦
        rw (e, update_killswitch)
          (Follows-cong (view a) (λ j. if i == j then changed hard (view a j) else view a j)
            (λ j. ground (arith, none-view a i e)) (Follows-self a g))
    | inr (p, e) ↦
        let d = a.store.heap p in
        let (reported, s) = urf_device_update_states w p soft hard a.store in
        let mid : Arbitrator File = record a { store = s } in
        let x = entry (update_states w d soft hard a.store.out).1 in
        let f =
          written_Follows a p i s x g e refl (update_states-identities w p soft hard a.store)
            (λ q n. assign_other a.store.heap p q (update_states w d soft hard a.store.out).1 n)
            (ap entry (assign_self a.store.heap p (update_states w d soft hard a.store.out).1)) in
        rw (e, update_killswitch)
          (Keeps-Follows (λ j. if i == j then changed hard (view a j) else view a j)
            (Keeps-if reported
              (Keeps-trans (put_out-Keeps mid (device_changed (get_object_path (s.heap p)))) (
                sync_change-Keeps i soft hard (is_hardware_blocked d)
                  (record mid { store = put_out s (device_changed (get_object_path (s.heap p))) })))
              (Keeps-refl mid))
            (Follows-cong (λ j. if i == j then some x else view a j)
              (λ j. if i == j then changed hard (view a j) else view a j)
              (λ j. ground (arith, reported_entry d soft hard a.store.out, found_view a i p e)) f))
  ]

  pub update_paths :
      (a : Arbitrator File) (i : ℕ) (soft hard : Bool) (j : ℕ)
      → paths_of (update_killswitch kf w (pos i) soft hard a) j ≡ paths_of a j
  unfolding update_killswitch urf_arbitrator_find_device urf_device_update_states
  update_paths a i soft hard j = elim (Option-cases (find_from a.store.heap a.devices i)) [
    | inl e ↦ rw (e, update_killswitch) refl
    | inr (p, e) ↦
        let d = a.store.heap p in
        let (reported, s) = urf_device_update_states w p soft hard a.store in
        let mid : Arbitrator File = record a { store = s } in
        let path = get_object_path (s.heap p) in
        let keeps =
          Keeps-if reported
            (Keeps-trans (put_out-Keeps mid (device_changed path)) (
              sync_change-Keeps i soft hard (is_hardware_blocked d)
                (record mid { store = put_out s (device_changed path) })))
            (Keeps-refl mid) in
        rw (e, update_killswitch)
          (Same-exported j keeps.objects
            ∙ exported_cong a.store s j refl
                (λ q. ap (λ x. x.0) (update_states-identities w p soft hard a.store q)))
  ]
