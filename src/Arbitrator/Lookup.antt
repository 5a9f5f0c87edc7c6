-- ===== src/Arbitrator/Lookup.antt =====
-- Finding a device by its index (urf_arbitrator_find_device of src/urf-arbitrator.c).
use urfkill.Prelude.{
  ℕ, ◌≡◌, refl, ◌∙◌, sym, ◌≢◌, true, none, some, List, [], ◌∷◌, ◌++◌, ◌==◌, arith, if◌then◌else◌,
  mem, remove, mem_of_mem-remove, mem-remove_self, mem-snoc_cases, IsDistinct, inl, inr,
  Option-cases,
}
use native.Mathlib.Decide.{ℕ_discrete}
use urfkill.Store.{Device}
use urfkill.Device.{get_index}
use urfkill.Arbitrator.{find_from}

-- No two of the listed devices have one index.
abbrev pub UniqueIndices : (ℕ → Device) → List ℕ → Type 0
UniqueIndices heap ps =
    (p q : ℕ) → mem p ps ≡ true → mem q ps ≡ true → get_index (heap p) ≡ get_index (heap q) → p ≡ q

module _ (heap : ℕ → Device) where
  pub find_from_found :
      (ps : List ℕ) (i : ℕ) {p : ℕ}
      → find_from heap ps i ≡ some p
      → (mem p ps ≡ true) × (get_index (heap p) ≡ i)
  unfolding find_from
  find_from_found [] i h = cc
  find_from_found (q ∷ qs) i {p} h = elim (ℕ_discrete (get_index (heap q)) i) [
    | yes e ↦ (ground arith, ground arith)
    | no n ↦ let (m, e) = find_from_found qs i {p = p} (ground arith) in (ground arith, e)
  ]

  pub find_from_absent :
      (ps : List ℕ) (i p : ℕ)
      → find_from heap ps i ≡ none
      → mem p ps ≡ true
      → get_index (heap p) ≢ i
  unfolding find_from
  find_from_absent [] i p h m = cc
  find_from_absent (q ∷ qs) i p h m = elim (ℕ_discrete q p) [
    | yes e ↦ λ same. ground arith
    | no n ↦ find_from_absent qs i p (ground arith) (ground arith)
  ]

  pub find_from-none :
      (ps : List ℕ) (i : ℕ)
      → ((p : ℕ) → mem p ps ≡ true → get_index (heap p) ≢ i)
      → find_from heap ps i ≡ none
  find_from-none ps i h = elim (Option-cases (find_from heap ps i)) [
    | inl e ↦ e
    | inr (p, e) ↦ let (m, same) = find_from_found ps i e in absurd (h p m same)
  ]

  pub find_from-snoc :
      (ps : List ℕ) (p i : ℕ)
      → find_from heap ps (get_index (heap p)) ≡ none
      → find_from heap (ps ++ p ∷ []) i
        ≡ (if get_index (heap p) == i then some p else find_from heap ps i)
  unfolding find_from
  find_from-snoc [] p i h = refl
  find_from-snoc (q ∷ qs) p i h = ground (arith, find_from-snoc qs p i)

  find_from-remove_other :
      (ps : List ℕ) (p i : ℕ)
      → get_index (heap p) ≢ i
      → find_from heap (remove p ps) i ≡ find_from heap ps i
  unfolding find_from
  find_from-remove_other [] p i h = refl
  find_from-remove_other (q ∷ qs) p i h = elim (ℕ_discrete q p) [
    | yes e ↦ ground arith
    | no n ↦ ground (arith, find_from-remove_other qs p i h)
  ]

  -- After the removal of a device its index is free, and the others are found as before.
  pub find_from-remove :
      (ps : List ℕ) (p i : ℕ)
      → IsDistinct ps
      → UniqueIndices heap ps
      → mem p ps ≡ true
      → find_from heap (remove p ps) i
        ≡ (if get_index (heap p) == i then none else find_from heap ps i)
  find_from-remove ps p i d u m = elim (ℕ_discrete (get_index (heap p)) i) [
    | yes e ↦ ground (
      arith,
      find_from-none (remove p ps) i
          (λ q n same. gone q n (u q p (mem_of_mem-remove p q ps n) m (same ∙ sym e))),
    )
    | no n ↦ ground (arith, find_from-remove_other ps p i n)
  ]
    where
      gone : (q : ℕ) → mem q (remove p ps) ≡ true → q ≡ p → ⊥
      gone q n e = ground (arith, mem-remove_self p ps d)

  pub UniqueIndices-remove :
      (ps : List ℕ) (p : ℕ) → UniqueIndices heap ps → UniqueIndices heap (remove p ps)
  UniqueIndices-remove ps p u =
      λ q r m n e. u q r (mem_of_mem-remove p q ps m) (mem_of_mem-remove p r ps n) e

  pub UniqueIndices-snoc :
      (ps : List ℕ) (p : ℕ)
      → UniqueIndices heap ps
      → find_from heap ps (get_index (heap p)) ≡ none
      → UniqueIndices heap (ps ++ p ∷ [])
  UniqueIndices-snoc ps p u h = λ q r m n e.
      mem-snoc_cases p q ps m
        (λ old.
          mem-snoc_cases p r ps n (λ old'. u q r old old' e)
            (λ new'. absurd (find_from_absent ps (get_index (heap p)) q h old (ground arith))))
        (λ new.
          mem-snoc_cases p r ps n
            (λ old'. absurd (find_from_absent ps (get_index (heap p)) r h old' (ground arith)))
            (λ new'. ground arith))

-- A search sees only the indices of the listed devices.
pub find_from_cong :
    (heap heap' : ℕ → Device) (ps : List ℕ) (i : ℕ)
    → ((p : ℕ) → mem p ps ≡ true → get_index (heap' p) ≡ get_index (heap p))
    → find_from heap' ps i ≡ find_from heap ps i
unfolding find_from
find_from_cong heap heap' [] i h = refl
find_from_cong heap heap' (q ∷ qs) i h =
    ground (arith, h q (ground arith), find_from_cong heap heap' qs i (λ p m. h p (ground arith)))

pub UniqueIndices-cong :
    (heap heap' : ℕ → Device) (ps qs : List ℕ)
    → qs ≡ ps
    → ((p : ℕ) → get_index (heap' p) ≡ get_index (heap p))
    → UniqueIndices heap ps
    → UniqueIndices heap' qs
UniqueIndices-cong heap heap' ps qs e h u =
    λ p q m n i. u p q (rw (← e) m) (rw (← e) n) (sym (h p) ∙ i ∙ h q)
