-- ===== src/Arbitrator/Announced.antt =====
-- The signals for the events of /dev/rfkill tell which radios there are (src/urf-arbitrator.c).
use urfkill.Prelude.{
  ℕ, ◌-◌, ◌^◌, ◌≡◌, refl, ◌∙◌, ap, sym, subst, Bool, true, false, Option, none, some, List, [], ◌∷◌,
  ◌++◌, ◌==◌, arith, if◌then◌else◌, ltb, All, pos, to_gint, to_gint-small, to_gint-large,
  Bool-cases, Option-cases, inl, inr, append_assoc, ==-refl, ◌>>=◌,
}
use native.Mathlib.Decide.{ℕ_discrete}
use urfkill.Store.{Device, kernel, Output, Outside}
use urfkill.Device.{get_index}
use urfkill.Device.Kernel
use urfkill.Device.Register.{urf_device_kernel_new, exported, register_new, register_again}
use urfkill.Config.{KeyFile}
use urfkill.Arbitrator.{
  Arbitrator, find_from, urf_arbitrator_find_device, urf_arbitrator_add_device,
}
use urfkill.Arbitrator.Events.{
  Op, add, del, change, change_all, unknown, RfkillEvent, update_killswitch, remove_killswitch,
  add_killswitch, handle_event, handle_events, print_event, dispatch,
}
use urfkill.Arbitrator.Lookup.{find_from_found}
use urfkill.Arbitrator.Table.{
  Entry, NewIndices, paths_of, paths_after, added, changed, entry_after, table_after, IsKernelEvent,
  view, IsGood, Follows, alloc, alloc_new,
}
use urfkill.Arbitrator.Steps.{none-view, found_view}
use urfkill.Arbitrator.Refine.{later, large_idle, handle_event-Follows}
use urfkill.Arbitrator.Outputs.{
  knows, knows-append, Adds, Quiet, Quiet-eq, out_of, drop_device-Adds, add_device-Adds,
  update_killswitch-Quiet,
}

abbrev pub is_there : Option Entry → Bool
is_there none = false
is_there (some x) = true

is_there-added : (type : ℕ) (hard : Bool) (x : Option Entry) → is_there (added type hard x) ≡ true
is_there-added type hard none = refl
is_there-added type hard (some x) = refl

is_there-changed : (hard : Bool) (x : Option Entry) → is_there (changed hard x) ≡ is_there x
is_there-changed hard none = refl
is_there-changed hard (some x) = refl

after_some {ℓ} :
    {A : Type ℓ} (o : Option (Unit {0})) (x : Option A) {a : A}
    → (o >>= λ _. x) ≡ some a
    → x ≡ some a
after_some none x h = cc
after_some (some u) x h = h

module _ {File : Type 0} where
  -- The new outputs take a listener from the devices of the one arbitrator to those of the other.
  pub record Tells (a a' : Arbitrator File) : Type 0 where
    pub outs : List Output
    pub new : out_of a' ≡ outs ++ out_of a
    pub told : (i : ℕ) → knows i outs (is_there (view a i)) ≡ is_there (view a' i)

  Tells-refl : (a : Arbitrator File) → Tells a a
  Tells-refl a = record { outs = []; new = refl; told = λ i. refl }

  Tells-trans : {a b c : Arbitrator File} → Tells a b → Tells b c → Tells a c
  Tells-trans {a} h k = record {
    outs = k.outs ++ h.outs;
    new = k.new ∙ ap (λ xs. k.outs ++ xs) h.new ∙ sym (append_assoc k.outs h.outs (out_of a));
    told = λ i.
        knows-append i k.outs h.outs (is_there (view a i))
        ∙ ap (knows i k.outs) (h.told i)
        ∙ k.told i;
  }

  -- An event whose outputs tell what it does to its index.
  event-Tells :
      (e : RfkillEvent) (a a' : Arbitrator File) (f : ℕ → Bool → Bool)
      → Adds (out_of a) (out_of a') f
      → ((i : ℕ) → f i (is_there (view a i)) ≡ is_there (table_after e (view a) i))
      → Follows (table_after e (view a)) a'
      → Tells a a'
  event-Tells e a a' f h same fol = record {
    outs = h.outs;
    new = h.new;
    told = λ i. h.told i (is_there (view a i)) ∙ same i ∙ ap is_there (sym (fol.table_is i));
  }

  module _ (kf : KeyFile File) (w : Outside) where
    -- What an operation on the device of an index tells.
    record Told (index : ℕ) (after : Option Entry → Option Entry) (a a' : Arbitrator File)
        : Type 0 where
      tells : ℕ → Bool → Bool
      adds : Adds (out_of a) (out_of a') tells
      right :
          (i : ℕ)
          → tells i (is_there (view a i))
            ≡ is_there (if index == i then after (view a i) else view a i)

    -- An operation that tells nothing, as it changes nothing.
    same-Told :
        (index : ℕ) (after : Option Entry → Option Entry) (a a' : Arbitrator File)
        → Quiet (out_of a) (out_of a')
        → is_there (view a index) ≡ is_there (after (view a index))
        → Told index after a a'
    same-Told index after a a' q same = record {
      tells = λ i b. b;
      adds = q;
      right = λ i. elim (ℕ_discrete index i) [
        | yes e ↦
            subst
              (λ j.
                is_there (view a j) ≡ is_there (if index == j then after (view a j) else view a j))
              e (rw (==-refl index) same)
        | no n ↦ ground arith
      ];
    }

    add-Told :
        (k t : ℕ) (soft hard : Bool) (a a' : Arbitrator File)
        → add_killswitch kf w (pos k) t soft hard a ≡ some a'
        → Told k (added t hard) a a'
    unfolding add_killswitch urf_arbitrator_find_device urf_device_kernel_new Kernel.kernel_fields
    add-Told k t soft hard a a' h = elim (Option-cases (find_from a.store.heap a.devices k)) [
      | inr (p, found) ↦
          let here : is_there (view a k) ≡ true = ap is_there (found_view kf w a k p found) in
          same-Told k (added t hard) a a' (Quiet-eq (ground arith))
            (here ∙ sym (is_there-added t hard (view a k)))
      | inl absent ↦
          let d : Device = kernel (Kernel.kernel_fields w k t soft hard) in
          elim (Bool-cases (exported a.store k)) [
            | inl taken ↦ absurd (ground (arith, register_again d a.store taken))
            | inr free ↦
                let made : urf_arbitrator_add_device kf w a.store.next (alloc a d) ≡ some a' =
                  ground (arith, register_new d a.store free) in
                record {
                  tells = λ i b. if k == i then true else b;
                  adds =
                      subst
                        (λ x.
                          Adds (out_of a) (out_of a') (λ i b. if get_index x == i then true else b))
                        (alloc_new a d) (add_device-Adds kf w a.store.next (alloc a d) a' made);
                  right = λ i. ground (arith, is_there-added t hard (view a i));
                }
          ]
    ]

    del-Told :
        (k : ℕ) (a a' : Arbitrator File)
        → remove_killswitch (pos k) a ≡ some a'
        → Told k (λ x. none) a a'
    unfolding remove_killswitch urf_arbitrator_find_device
    del-Told k a a' h = elim (Option-cases (find_from a.store.heap a.devices k)) [
      | inl absent ↦
          same-Told k (λ x. none) a a' (Quiet-eq (ground arith))
            (ap is_there (none-view kf w a k absent))
      | inr (p, found) ↦
          let (m, same) = find_from_found a.store.heap a.devices k found in
          record {
            tells = λ i b. if k == i then false else b;
            adds =
                subst (λ x. Adds (out_of a) (out_of a') (λ i b. if x == i then false else b)) same
                  (drop_device-Adds p a a' (ground arith));
            right = λ i. ground arith;
          }
    ]

    change-Told :
        (k : ℕ) (soft hard : Bool) (a : Arbitrator File)
        → Told k (changed hard) a (update_killswitch kf w (pos k) soft hard a)
    change-Told k soft hard a =
        same-Told k (changed hard) a (update_killswitch kf w (pos k) soft hard a)
          (update_killswitch-Quiet kf w k soft hard a) (sym (is_there-changed hard (view a k)))

    dispatch-Told :
        (e : RfkillEvent) (a a' : Arbitrator File)
        → IsKernelEvent e
        → to_gint e.idx ≡ pos e.idx
        → (o : Op) → e.op ≡ o
        → dispatch kf w o e a ≡ some a'
        → Told e.idx (entry_after o e) a a'
    unfolding dispatch
    dispatch-Told e a a' k small add o h = add-Told e.idx e.type e.soft e.hard a a' (rw small at h)
    dispatch-Told e a a' k small del o h = del-Told e.idx a a' (rw small at h)
    dispatch-Told e a a' k small change o h =
        let sent = rw small at h in
        let same : update_killswitch kf w (pos e.idx) e.soft e.hard a ≡ a' = cc in
        subst (Told e.idx (changed e.hard) a) same (change-Told e.idx e.soft e.hard a)
    dispatch-Told e a a' k small change_all o h =
        same-Told e.idx (λ x. x) a a' (Quiet-eq (ground arith)) refl
    dispatch-Told e a a' k small unknown o h = absurd (k.known o)

    handle_event-Tells :
        (e : RfkillEvent) (a : Arbitrator File)
        → IsGood a
        → IsKernelEvent e
        → (e.op ≡ add → ltb e.idx (2 ^ 31) ≡ true → view a e.idx ≡ none → paths_of a e.idx ≡ false)
        → (a' : Arbitrator File) × (handle_event kf w e a ≡ some a')
          × Follows (table_after e (view a)) a'
          × Tells a a'
          × ((i : ℕ) → paths_of a' i ≡ paths_after e (view a) (paths_of a) i)
    unfolding handle_event
    handle_event-Tells e a g k n =
        let (a', done, f, x) = handle_event-Follows kf w e a g k n in
        let dispatched : dispatch kf w e.op e a ≡ some a' =
          after_some (print_event e) (dispatch kf w e.op e a) done in
        elim (Bool-cases (ltb e.idx (2 ^ 31))) [
          | inl s ↦
              let t = dispatch-Told e a a' k (to_gint-small e.idx s) e.op refl dispatched in
              (a', done, f, event-Tells e a a' t.tells t.adds (λ i. t.right i ∙ rw s refl) f, x)
          | inr l ↦
              let idle = large_idle kf w e a (2 ^ 32 - 1 - e.idx) (to_gint-large e.idx l) e.op in
              let same : a' ≡ a = cc in
              (
                a',
                done,
                f,
                event-Tells e a a' (λ i b. b) (Quiet-eq (ap out_of same)) (λ i. rw l refl) f,
                x,
              )
        ]

    pub handle_events-Tells :
        (es : List RfkillEvent) (a : Arbitrator File)
        → IsGood a
        → All IsKernelEvent es
        → NewIndices es (view a) (paths_of a)
        → (a' : Arbitrator File) × (handle_events kf w es a ≡ some a') × IsGood a' × Tells a a'
    unfolding handle_events
    handle_events-Tells [] a g ks ns = (a, refl, g, Tells-refl a)
    handle_events-Tells (e ∷ es) a g (k, ks) (n, ns) =
        let (mid, first, f, t, x) = handle_event-Tells e a g k n in
        let (a', others, g', r) = handle_events-Tells es mid f.good ks (later es e a mid f x ns) in
        (a', rw (first, handle_events) others, g', Tells-trans t r)
