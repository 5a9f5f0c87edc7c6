-- ===== src/Arbitrator/Table.antt =====
-- The events of /dev/rfkill against a table of the kernel's radios (src/urf-arbitrator.c).
use urfkill.Prelude.{
  ℕ, ◌^◌, ◌≡◌, refl, ◌∙◌, sym, ◌≢◌, Bool, true, false, Option, none, some, List, [], ◌∷◌, ◌++◌,
  ◌==◌, ◌&&◌, arith, if◌then◌else◌, ◌<◌, mem, ltb, ap, pos, Bool-cases, inl, inr, Option-cases,
}
use urfkill.Utils.{num_rfkill_types}
use urfkill.Store.{Device, allocate}
use urfkill.Device.{get_index, get_device_type, is_hardware_blocked}
use urfkill.Device.Laws.{assign_self, identity, is_kernel, Same}
use urfkill.Arbitrator.{Arbitrator, find_from, urf_arbitrator_find_device}
use urfkill.Arbitrator.Events.{Op, add, del, change, unknown, RfkillEvent, remove_killswitch}
use urfkill.Arbitrator.Keeps.{Keeps}
use urfkill.Arbitrator.Invariant.{of_type_cong, IsValid, Keeps-IsValid}
use urfkill.Device.Register.{exported, exported_cong}
use urfkill.Arbitrator.Devices.{drop_device_lem, drop_device_next}
use urfkill.Arbitrator.Lookup.{
  UniqueIndices, find_from_found, find_from-snoc, find_from-remove, UniqueIndices-remove,
  find_from_cong,
}

-- What the table holds of a radio: its type, its hard block, and whether it is the kernel's.
pub record Entry : Type 0 where
  pub type : ℕ
  pub hard : Bool
  pub kernel_radio : Bool

abbrev pub entry : Device → Entry
entry d = record {
  type = get_device_type d;
  hard = is_hardware_blocked d;
  kernel_radio = is_kernel d;
}

abbrev pub entry_at : (ℕ → Device) → Option ℕ → Option Entry
entry_at heap none = none
entry_at heap (some p) = some (entry (heap p))

pub entry_cong :
    (d d' : Device)
    → identity d' ≡ identity d
    → is_hardware_blocked d' ≡ is_hardware_blocked d
    → entry d' ≡ entry d
entry_cong d d' same hard =
    λ i. record { type = (same i).1; hard = hard i; kernel_radio = (same i).3 }

pub entry_at_cong :
    (heap heap' : ℕ → Device)
    → ((p : ℕ) → entry (heap' p) ≡ entry (heap p))
    → (o : Option ℕ) → entry_at heap' o ≡ entry_at heap o
entry_at_cong heap heap' h none = refl
entry_at_cong heap heap' h (some p) = ap some (h p)

-- What an operation does to the entry of its index: a radio is added once, a change is about a
-- radio that is there, and only the kernel's radios have a hard block.
abbrev pub added : (type : ℕ) (hard : Bool) → Option Entry → Option Entry
added type hard none = some (record { type = type; hard = hard; kernel_radio = true })
added type hard (some x) = some x

abbrev pub changed : (hard : Bool) → Option Entry → Option Entry
changed hard none = none
changed hard (some x) = some (record x { hard = if x.kernel_radio then hard else x.hard })

abbrev pub entry_after : Op → RfkillEvent → Option Entry → Option Entry
entry_after add e x = added e.type e.hard x
entry_after del e x = none
entry_after change e x = changed e.hard x
entry_after _ e x = x

-- An index of 2 ^ 31 or more is negative as a gint, and is ignored.
abbrev pub table_after : RfkillEvent → (ℕ → Option Entry) → ℕ → Option Entry
table_after e table i =
    if ltb e.idx (2 ^ 31) && e.idx == i then entry_after e.op e (table i) else table i

-- Whether the bus has an object at the path of the index after it: the object of a radio that was
-- removed stays.
abbrev pub path_after : Op → Option Entry → Bool → Bool
path_after add none x = true
path_after _ _ x = x

abbrev pub paths_after : RfkillEvent → (ℕ → Option Entry) → (ℕ → Bool) → ℕ → Bool
paths_after e table paths i =
    if ltb e.idx (2 ^ 31) && e.idx == i then path_after e.op (table i) (paths i) else paths i

-- No radio is added at a path that the bus has an object at, as it would be if the kernel used an
-- index again.
abbrev pub NewIndices : List RfkillEvent → (ℕ → Option Entry) → (ℕ → Bool) → Type 0
NewIndices [] table paths = Unit
NewIndices (e ∷ es) table paths =
    (e.op ≡ add → ltb e.idx (2 ^ 31) ≡ true → table e.idx ≡ none → paths e.idx ≡ false)
    × NewIndices es (table_after e table) (paths_after e table paths)

unfoldable pub table_after_all : List RfkillEvent → (ℕ → Option Entry) → ℕ → Option Entry
table_after_all [] table = table
table_after_all (e ∷ es) table = table_after_all es (table_after e table)

-- An event that the kernel may send: a known operation on a known type, and no radio of type ALL.
pub record IsKernelEvent (e : RfkillEvent) : Type 0 where
  pub known : e.op ≢ unknown
  pub typed : e.type < num_rfkill_types
  pub radio : e.op ≡ add → 0 < e.type

module _ {File : Type 0} where
  unfoldable pub view : Arbitrator File → ℕ → Option Entry
  view a i = entry_at a.store.heap (find_from a.store.heap a.devices i)

  pub record IsGood (a : Arbitrator File) : Type 0 where
    pub valid : IsValid a
    pub unique : UniqueIndices a.store.heap a.devices

  abbrev pub paths_of : Arbitrator File → ℕ → Bool
  paths_of a i = exported a.store i

  -- The bus has no object at the path of an index that no device has.
  abbrev pub AllListed : Arbitrator File → Type 0
  AllListed a = (i : ℕ) → view a i ≡ none → paths_of a i ≡ false

  -- What an operation must do to the table.
  pub record Follows (table : ℕ → Option Entry) (a' : Arbitrator File) : Type 0 where
    pub good : IsGood a'
    pub table_is : (i : ℕ) → view a' i ≡ table i

  pub Follows-self : (a : Arbitrator File) → IsGood a → Follows (view a) a
  Follows-self a g = record { good = g; table_is = λ i. refl }

  pub Follows-cong :
      {a : Arbitrator File} (t t' : ℕ → Option Entry)
      → ((j : ℕ) → t j ≡ t' j)
      → Follows t a
      → Follows t' a
  Follows-cong t t' h f = record { good = f.good; table_is = λ j. f.table_is j ∙ h j }

  pub same_view : (a a' : Arbitrator File) (i : ℕ) → Keeps a a' → view a' i ≡ view a i
  unfolding view
  same_view a a' i k =
      ap (λ ps. entry_at a'.store.heap (find_from a'.store.heap ps i)) k.devices
      ∙ ap (entry_at a'.store.heap) (
          find_from_cong a.store.heap a'.store.heap a.devices i
            (λ p m. ap (λ x. x.0) (k.objects.identities p)))
      ∙ entry_at_cong a.store.heap a'.store.heap
          (λ p.
            entry_cong (a.store.heap p) (a'.store.heap p) (k.objects.identities p)
              (k.objects.hards p))
          (find_from a.store.heap a.devices i)

  pub Keeps-Follows :
      {a a' : Arbitrator File} (table : ℕ → Option Entry)
      → Keeps a a'
      → Follows table a
      → Follows table a'
  unfolding view
  Keeps-Follows {a} {a'} table k f = record {
    good = record {
      valid = Keeps-IsValid k f.good.valid;
      unique = λ p q m n e.
          f.good.unique p q (rw (← k.devices) m) (rw (← k.devices) n)
            (sym (indices p) ∙ e ∙ indices q);
    };
    table_is = λ i. same_view a a' i k ∙ f.table_is i;
  }
    where
      indices : (p : ℕ) → get_index (a'.store.heap p) ≡ get_index (a.store.heap p)
      indices p = ap (λ i. i.0) (k.objects.identities p)

  pub remove_Follows :
      (a : Arbitrator File) (i : ℕ)
      → IsGood a
      → (a' : Arbitrator File) × (remove_killswitch (pos i) a ≡ some a')
        × Follows (λ j. if i == j then none else view a j) a'
        × ((j : ℕ) → paths_of a' j ≡ paths_of a j)
  unfolding remove_killswitch urf_arbitrator_find_device view
  remove_Follows a i g = elim (Option-cases (find_from a.store.heap a.devices i)) [
    | inl e ↦
        (a, rw (e, remove_killswitch), record { good = g; table_is = λ j. ground arith }, λ j. refl)
    | inr (p, e) ↦
        let (m, same) = find_from_found a.store.heap a.devices i e in
        let (a', dropped, v, ds, heap) = drop_device_lem a p g.valid m in
        (
          a',
          rw (e, remove_killswitch) dropped,
          record {
            good = record {
              valid = v;
              unique = rw (heap, ds) (UniqueIndices-remove a.store.heap a.devices p g.unique);
            };
            table_is = λ j.
                rw (heap, ds)
                  (ground (
                    arith,
                    find_from-remove a.store.heap a.devices p j g.valid.distinct g.unique m,
                  ));
          },
          λ j.
              exported_cong a.store a'.store j (drop_device_next p a a' dropped)
                (λ q. ap (λ h. get_index (h q)) heap),
        )
  ]

  -- urf_device_kernel_new in add_killswitch makes an object, which nothing refers to yet.
  abbrev pub alloc : Arbitrator File → Device → Arbitrator File
  alloc a d = record a { store = allocate a.store d }

  pub alloc_old :
      (a : Arbitrator File) (d : Device) (p : ℕ)
      → IsGood a
      → mem p a.devices ≡ true
      → (alloc a d).store.heap p ≡ a.store.heap p
  alloc_old a d p g m = ground (arith, g.valid.fresh p m)

  pub alloc_new : (a : Arbitrator File) (d : Device) → (alloc a d).store.heap a.store.next ≡ d
  alloc_new a d = assign_self a.store.heap a.store.next d

  pub alloc_absent : (a : Arbitrator File) → IsGood a → mem a.store.next a.devices ≡ false
  alloc_absent a g = elim (Bool-cases (mem a.store.next a.devices)) [
    | inl e ↦ absurd (omega (arith, g.valid.fresh a.store.next e))
    | inr e ↦ e
  ]

  pub alloc_find :
      (a : Arbitrator File) (d : Device) (i : ℕ)
      → IsGood a
      → find_from (alloc a d).store.heap a.devices i ≡ find_from a.store.heap a.devices i
  alloc_find a d i g =
      find_from_cong a.store.heap (alloc a d).store.heap a.devices i
        (λ p m. ap get_index (alloc_old a d p g m))

  pub alloc-IsGood : (a : Arbitrator File) (d : Device) → IsGood a → IsGood (alloc a d)
  alloc-IsGood a d g = record {
    valid = record {
      no_all = g.valid.no_all;
      switches = λ t lo hi.
          g.valid.switches t lo hi
          ∙ ap (λ ps. some (ps, t))
              (sym (
                of_type_cong a.store.heap (alloc a d).store.heap t a.devices
                  (λ p m. ap get_device_type (alloc_old a d p g m))));
      distinct = g.valid.distinct;
      fresh = λ p m. omega (arith, g.valid.fresh p m);
      typed = λ p m. rw (alloc_old a d p g m) (g.valid.typed p m);
    };
    unique = λ p q m n e.
        g.unique p q m n
          (sym (ap get_index (alloc_old a d p g m)) ∙ e ∙ ap get_index (alloc_old a d q g n));
  }

  pub view-alloc :
      (a : Arbitrator File) (d : Device) (i : ℕ) → IsGood a → view (alloc a d) i ≡ view a i
  unfolding view
  view-alloc a d i g = elim (Option-cases (find_from a.store.heap a.devices i)) [
    | inl e ↦ rw (alloc_find a d i g, e)
    | inr (p, e) ↦
        rw (alloc_find a d i g, e)
          (ap (λ x. some (entry x))
            (alloc_old a d p g (find_from_found a.store.heap a.devices i e).0))
  ]

  -- The table after a new object is registered.
  pub listed_view :
      (b a' : Arbitrator File) (p i : ℕ)
      → find_from b.store.heap b.devices (get_index (b.store.heap p)) ≡ none
      → a'.devices ≡ b.devices ++ p ∷ []
      → Same b.store a'.store
      → view a' i
        ≡ (if get_index (b.store.heap p) == i then some (entry (b.store.heap p)) else view b i)
  unfolding view
  listed_view b a' p i h ds same =
      ap (λ ps. entry_at a'.store.heap (find_from a'.store.heap ps i)) ds
      ∙ ap (entry_at a'.store.heap) (
          find_from_cong b.store.heap a'.store.heap (b.devices ++ p ∷ []) i
            (λ q m. ap (λ x. x.0) (same.identities q)))
      ∙ entry_at_cong b.store.heap a'.store.heap
          (λ q. entry_cong (b.store.heap q) (a'.store.heap q) (same.identities q) (same.hards q))
          (find_from b.store.heap (b.devices ++ p ∷ []) i)
      ∙ ground (arith, find_from-snoc b.store.heap b.devices p i h)
