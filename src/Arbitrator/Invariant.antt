-- ===== src/Arbitrator/Invariant.antt =====
-- How the list of devices and the lists of the switches belong together (src/urf-arbitrator.c).
use urfkill.Prelude.{
  ℕ, ◌≡◌, refl, ◌∙◌, sym, Bool, true, none, some, List, [], ◌∷◌, ◌++◌, ◌==◌, ◌&&◌, arith,
  if◌then◌else◌, ◌<◌, mem, remove, mem-append, remove-append, remove_absent, IsDistinct, append-nil,
  ap, IsDistinct-snoc, Bool-cases, inl, inr, Option-cases, ==-refl,
}
use native.Mathlib.Decide.{ℕ_discrete}
use urfkill.Utils.{KillswitchState, num_rfkill_types}
use urfkill.Store.{Device, Store}
use urfkill.Device.{get_device_type}
use urfkill.Killswitch.{Killswitch, current_state, urf_killswitch_new}
use urfkill.Config.{Config}
use urfkill.Arbitrator.{Arbitrator, urf_arbitrator_init}
use urfkill.Arbitrator.Keeps.{shape, Keeps}

-- The devices of a type, in the order of a switch: the latest first.
unfoldable pub of_type : (ℕ → Device) → ℕ → List ℕ → List ℕ
of_type heap t [] = []
of_type heap t (p ∷ ps) =
    of_type heap t ps ++ (if get_device_type (heap p) == t then p ∷ [] else [])

pub of_type_cong :
    (heap heap' : ℕ → Device) (t : ℕ) (ps : List ℕ)
    → ((p : ℕ) → mem p ps ≡ true → get_device_type (heap' p) ≡ get_device_type (heap p))
    → of_type heap' t ps ≡ of_type heap t ps
unfolding of_type
of_type_cong heap heap' t [] h = refl
of_type_cong heap heap' t (p ∷ ps) h =
    ground (arith, h p (ground arith), of_type_cong heap heap' t ps (λ q m. h q (ground arith)))

pub mem-of_type :
    (heap : ℕ → Device) (t p : ℕ) (ps : List ℕ)
    → mem p (of_type heap t ps) ≡ (mem p ps && get_device_type (heap p) == t)
unfolding of_type
mem-of_type heap t p [] = refl
mem-of_type heap t p (q ∷ ps) = elim (ℕ_discrete q p) [
  | yes e ↦ rw e (
      ground (
        arith,
        mem-append p (of_type heap t ps) (if get_device_type (heap p) == t then p ∷ [] else []),
        mem-of_type heap t p ps,
      ))
  | no n ↦ ground (
    arith,
    mem-append p (of_type heap t ps) (if get_device_type (heap q) == t then q ∷ [] else []),
    mem-of_type heap t p ps,
  )
]

pub remove-of_type :
    (heap : ℕ → Device) (t p : ℕ) (ps : List ℕ)
    → IsDistinct ps
    → remove p (of_type heap t ps) ≡ of_type heap t (remove p ps)
unfolding of_type
remove-of_type heap t p [] d = refl
remove-of_type heap t p (q ∷ ps) d =
    let last : List ℕ = if get_device_type (heap q) == t then q ∷ [] else [] in
    elim (ℕ_discrete q p) [
      | yes e ↦ ground (
        arith,
        ==-refl p,
        remove-append p (of_type heap t ps) last,
        mem-of_type heap t p ps,
        append-nil (of_type heap t ps),
      )
      | no n ↦ ground (
        arith,
        remove-append p (of_type heap t ps) last,
        remove_absent p (of_type heap t ps),
        remove-of_type heap t p ps d.1,
      )
    ]

pub of_type-snoc :
    (heap : ℕ → Device) (t p : ℕ) (ps : List ℕ)
    → of_type heap t (ps ++ p ∷ [])
      ≡ (if get_device_type (heap p) == t then p ∷ of_type heap t ps else of_type heap t ps)
unfolding of_type
of_type-snoc heap t p [] = ground arith
of_type-snoc heap t p (q ∷ ps) = ground (arith, of_type-snoc heap t p ps)

-- The list of a switch names no device twice.
pub of_type-IsDistinct :
    (heap : ℕ → Device) (t : ℕ) (ps : List ℕ) → IsDistinct ps → IsDistinct (of_type heap t ps)
unfolding of_type
of_type-IsDistinct heap t [] d = tt
of_type-IsDistinct heap t (p ∷ ps) (n, d) =
    let rest = of_type-IsDistinct heap t ps d in
    elim (Bool-cases (get_device_type (heap p) == t)) [
      | inl e ↦
          rw e
            (IsDistinct-snoc p (of_type heap t ps) (ground (arith, mem-of_type heap t p ps)) rest)
      | inr e ↦ rw (e, append-nil (of_type heap t ps)) rest
    ]

module _ {File : Type 0} where
  -- The state that the switch of a type has by its devices.
  abbrev pub state_of : Arbitrator File → ℕ → KillswitchState
  state_of a t = current_state a.store.heap (of_type a.store.heap t a.devices)

pub record IsValid {File : Type 0} (a : Arbitrator File) : Type 0 where
  pub no_all : a.killswitch 0 ≡ none
  pub switches :
      (t : ℕ)
      → 0 < t
      → t < num_rfkill_types
      → shape (a.killswitch t) ≡ some (of_type a.store.heap t a.devices, t)
  pub distinct : IsDistinct a.devices
  pub fresh : (p : ℕ) → mem p a.devices ≡ true → p < a.store.next
  pub typed :
      (p : ℕ)
      → mem p a.devices ≡ true
      → (0 < get_device_type (a.store.heap p))
        × (get_device_type (a.store.heap p) < num_rfkill_types)

module _ {File : Type 0} where
  pub Keeps-IsValid : {a a' : Arbitrator File} → Keeps a a' → IsValid a → IsValid a'
  Keeps-IsValid {a} {a'} k v = record {
    no_all = ground (arith, k.shapes 0, v.no_all);
    switches = λ t lo hi.
        k.shapes t
        ∙ v.switches t lo hi
        ∙ ap (λ ps. some (ps, t))
            (ap (λ ps. of_type a.store.heap t ps) (sym k.devices)
              ∙ sym (of_type_cong a.store.heap a'.store.heap t a'.devices (λ p _. types p)));
    distinct = rw k.devices v.distinct;
    fresh = λ p m. rw k.objects.next (v.fresh p (rw (← k.devices) m));
    typed = λ p m. rw (types p) (v.typed p (rw (← k.devices) m));
  }
    where
      types : (p : ℕ) → get_device_type (a'.store.heap p) ≡ get_device_type (a.store.heap p)
      types p = ap (λ i. i.1) (k.objects.identities p)

  -- The switch of a type, and what the array says of it.
  pub switch_of :
      (a : Arbitrator File) (t : ℕ)
      → IsValid a
      → 0 < t
      → t < num_rfkill_types
      → (ks : Killswitch) × (a.killswitch t ≡ some ks)
        × (ks.devices ≡ of_type a.store.heap t a.devices)
        × (ks.type ≡ t)
  switch_of a t v lo hi = elim (Option-cases (a.killswitch t)) [
    | inl e ↦ ground (arith, v.switches t lo hi)
    | inr (ks, e) ↦ (ks, e, ground (arith, v.switches t lo hi), ground (arith, v.switches t lo hi))
  ]

  -- The arbitrator starts with a switch for each type but ALL, and with no device.
  pub init-IsValid :
      (c : Config File) (force_sync persist : Bool) (s : Store)
      → IsValid (urf_arbitrator_init c force_sync persist s)
  unfolding urf_arbitrator_init urf_killswitch_new of_type
  init-IsValid c force_sync persist s = record {
    no_all = refl;
    switches = λ t lo hi. ground arith;
    distinct = tt;
    fresh = λ p m. absurd (ground arith);
    typed = λ p m. absurd (ground arith);
  }
