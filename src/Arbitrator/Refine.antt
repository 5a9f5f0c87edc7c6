-- ===== src/Arbitrator/Refine.antt =====
-- The events of /dev/rfkill keep the table of the kernel's radios (src/urf-arbitrator.c).
use urfkill.Prelude.{
  Bool, true, false, fun_ext, sym, ◌∙◌, ap, subst, ℕ, ◌-◌, ◌^◌, ◌≡◌, refl, ◌≢◌, Option, none, some,
  List, [], ◌∷◌, ◌==◌, arith, if◌then◌else◌, ltb, All, pos, negsuc, to_gint, to_gint-small,
  to_gint-large, Bool-cases, inl, inr,
}
use urfkill.Utils.{type_to_string_known}
use urfkill.Store.{Outside}
use urfkill.Config.{KeyFile}
use urfkill.Arbitrator.{Arbitrator, urf_arbitrator_find_device}
use urfkill.Arbitrator.Events.{
  Op, add, del, change, change_all, unknown, RfkillEvent, update_killswitch, remove_killswitch,
  add_killswitch, handle_event, handle_events, print_event, dispatch,
}
use urfkill.Arbitrator.Table.{
  entry_after, table_after, table_after_all, paths_after, path_after, paths_of, NewIndices,
  IsKernelEvent, view, IsGood, Follows, Follows-self, Follows-cong, remove_Follows,
}
use urfkill.Arbitrator.Steps.{add_Follows, update_Follows, update_paths}

either_way : (b : Bool) (x : Bool) → x ≡ (if b then x else x)
either_way true x = refl
either_way false x = refl

-- What is left of the condition on the indices after an event.
pub later :
    {File : Type 0} (es : List RfkillEvent) (e : RfkillEvent) (a mid : Arbitrator File)
    → Follows (table_after e (view a)) mid
    → ((i : ℕ) → paths_of mid i ≡ paths_after e (view a) (paths_of a) i)
    → NewIndices es (table_after e (view a)) (paths_after e (view a) (paths_of a))
    → NewIndices es (view mid) (paths_of mid)
later es e a mid f x ns =
    subst (λ t. NewIndices es t (paths_of mid)) (sym (fun_ext f.table_is))
      (subst (NewIndices es (table_after e (view a))) (sym (fun_ext x)) ns)

module _ {File : Type 0} (kf : KeyFile File) (w : Outside) where
  small_Follows :
      (e : RfkillEvent) (a : Arbitrator File)
      → IsGood a
      → IsKernelEvent e
      → to_gint e.idx ≡ pos e.idx
      → (e.op ≡ add → view a e.idx ≡ none → paths_of a e.idx ≡ false)
      → (o : Op) → e.op ≡ o
      → (a' : Arbitrator File) × (dispatch kf w o e a ≡ some a')
        × Follows (λ i. if e.idx == i then entry_after o e (view a i) else view a i) a'
        × ((i : ℕ)
            → paths_of a' i
              ≡ (if e.idx == i then path_after o (view a i) (paths_of a i) else paths_of a i))
  unfolding dispatch
  small_Follows e a g k small free add o =
      let (a', done, f, x) =
        add_Follows kf w a e.idx e.type e.soft e.hard g (k.radio o) k.typed (free o) in
      (a', rw (small, dispatch) done, f, x)
  small_Follows e a g k small free del o =
      let (a', done, f, x) = remove_Follows a e.idx g in
      (a', rw (small, dispatch) done, f, λ i. x i ∙ either_way (e.idx == i) (paths_of a i))
  small_Follows e a g k small free change o = (
    update_killswitch kf w (pos e.idx) e.soft e.hard a,
    rw (small, dispatch),
    update_Follows kf w a e.idx e.soft e.hard g,
    λ i. update_paths kf w a e.idx e.soft e.hard i ∙ either_way (e.idx == i) (paths_of a i),
  )
  small_Follows e a g k small free change_all o = (
    a,
    refl,
    Follows-cong (view a) (λ i. if e.idx == i then view a i else view a i) (λ i. ground arith)
        (Follows-self a g),
    λ i. either_way (e.idx == i) (paths_of a i),
  )
  small_Follows e a g k small free unknown o = absurd (k.known o)

  pub large_idle :
      (e : RfkillEvent) (a : Arbitrator File) (n : ℕ)
      → to_gint e.idx ≡ negsuc n
      → (o : Op) → dispatch kf w o e a ≡ some a
  unfolding dispatch update_killswitch add_killswitch remove_killswitch urf_arbitrator_find_device
  large_idle e a n large add = rw (large, dispatch)
  large_idle e a n large del = rw (large, dispatch)
  large_idle e a n large change = rw (large, dispatch)
  large_idle e a n large change_all = refl
  large_idle e a n large unknown = refl

  -- A known event passes the assertions of print_event.
  printed : (e : RfkillEvent) → IsKernelEvent e → print_event e ≡ some tt
  unfolding print_event
  printed e k =
      let (name, n) = type_to_string_known e.type k.typed in
      rw (n, print_event) (known_op e.op k.known)
    where
      known_op :
          (o : Op)
          → o ≢ unknown
          → (elim o as (λ x. Option (Unit {0})) [ unknown ↦ none | _ ↦ some tt ]) ≡ some tt
      known_op unknown h = absurd (h refl)
      known_op add h = refl
      known_op del h = refl
      known_op change h = refl
      known_op change_all h = refl

  pub handle_event-Follows :
      (e : RfkillEvent) (a : Arbitrator File)
      → IsGood a
      → IsKernelEvent e
      → (e.op ≡ add → ltb e.idx (2 ^ 31) ≡ true → view a e.idx ≡ none → paths_of a e.idx ≡ false)
      → (a' : Arbitrator File) × (handle_event kf w e a ≡ some a')
        × Follows (table_after e (view a)) a'
        × ((i : ℕ) → paths_of a' i ≡ paths_after e (view a) (paths_of a) i)
  unfolding handle_event
  handle_event-Follows e a g k new = elim (Bool-cases (ltb e.idx (2 ^ 31))) [
    | inl s ↦
        let (a', done, f, x) =
          small_Follows e a g k (to_gint-small e.idx s) (λ o. new o s) e.op refl in
        (
          a',
          rw (printed e k, handle_event) done,
          Follows-cong (λ i. if e.idx == i then entry_after e.op e (view a i) else view a i)
              (table_after e (view a)) (λ i. rw s) f,
          λ i. x i ∙ rw s refl,
        )
    | inr l ↦ (
      a,
      rw (printed e k, handle_event)
          (large_idle e a (2 ^ 32 - 1 - e.idx) (to_gint-large e.idx l) e.op),
      Follows-cong (view a) (table_after e (view a)) (λ i. rw l) (Follows-self a g),
      λ i. rw l refl,
    )
  ]

  -- From a well-formed arbitrator, any list of events that the kernel may send (a known operation
  -- on a known type, and no radio of type ALL is added) is handled without a fault. The arbitrator
  -- stays well-formed, and the table of its devices by index, with each one's type, hard block and
  -- kind, is the table that the same events make of it one by one: a radio is added once, a change
  -- sets the hard block of a kernel radio, a removal takes it out, and an index of 2 ^ 31 or more
  -- is ignored. No radio that is not in the table is added at the index of one that was there
  -- before, as its path on the bus is never given back.
  pub handle_events_refines :
      (es : List RfkillEvent) (a : Arbitrator File)
      → IsGood a
      → All IsKernelEvent es
      → NewIndices es (view a) (paths_of a)
      → (a' : Arbitrator File) × (handle_events kf w es a ≡ some a')
        × Follows (table_after_all es (view a)) a'
  unfolding handle_events table_after_all
  handle_events_refines [] a g ks ns = (a, refl, Follows-self a g)
  handle_events_refines (e ∷ es) a g (k, ks) (n, ns) =
      let (mid, first, f, x) = handle_event-Follows e a g k n in
      let (a', others, r) = handle_events_refines es mid f.good ks (later es e a mid f x ns) in
      (
        a',
        rw (first, handle_events) others,
        Follows-cong (table_after_all es (view mid)) (table_after_all es (table_after e (view a)))
            (λ i. ap (λ t. table_after_all es t i) (fun_ext f.table_is)) r,
      )
