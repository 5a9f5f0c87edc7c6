-- ===== src/Prelude/Lists.antt =====
-- Lists of references and the few list functions of GLib that the program calls on them.
use Prim.Native.Nat.{ℕ, suc, ◌+◌}
use mathlib.Core.Path.{◌≡◌, refl}
use mathlib.Core.Logic.{◌≢◌, inl, inr}
use mathlib.Core.Bool.{Bool, true, false, ◌||◌}
use mathlib.Core.List.{List, [], ◌∷◌, ◌++◌, map}
use native.Mathlib.Omega.{arith}
use native.Mathlib.Decide.{ℕ_discrete}
use urfkill.Prelude.Tests.{◌==◌, if◌then◌else◌, Bool-cases}

module _ {ℓ} {A : Type ℓ} where
  abbrev pub length : List A → ℕ
  length [] = 0
  length (x ∷ xs) = suc (length xs)

  pub length-append : (xs ys : List A) → length (xs ++ ys) ≡ length xs + length ys
  length-append [] ys = omega arith
  length-append (x ∷ xs) ys = omega (arith, length-append xs ys)

  abbrev pub All {κ} : (A → Type κ) → List A → Type κ
  All P [] = Unit
  All P (x ∷ xs) = P x × All P xs

  pub All-append {κ} : (P : A → Type κ) (xs ys : List A) → All P xs → All P ys → All P (xs ++ ys)
  All-append P [] ys hx hy = hy
  All-append P (x ∷ xs) ys hx hy = (hx.0, All-append P xs ys hx.1 hy)

  -- `list != NULL`
  abbrev pub is_empty : List A → Bool
  is_empty [] = true
  is_empty (x ∷ xs) = false

-- `g_list_find (list, p) != NULL`, on pointers.
abbrev pub mem : ℕ → List ℕ → Bool
mem p [] = false
mem p (x ∷ xs) = (x == p) || mem p xs

-- `g_list_remove (list, p)`: the first occurrence goes.
abbrev pub remove : ℕ → List ℕ → List ℕ
remove p [] = []
remove p (x ∷ xs) = if x == p then xs else x ∷ remove p xs

pub mem-append : (p : ℕ) (xs ys : List ℕ) → mem p (xs ++ ys) ≡ (mem p xs || mem p ys)
mem-append p [] ys = refl
mem-append p (x ∷ xs) ys = ground (arith, mem-append p xs ys)

pub remove-append :
    (p : ℕ) (xs ys : List ℕ)
    → remove p (xs ++ ys) ≡ (if mem p xs then remove p xs ++ ys else xs ++ remove p ys)
remove-append p [] ys = refl
remove-append p (x ∷ xs) ys = ground (arith, remove-append p xs ys)

pub remove_absent : (p : ℕ) (xs : List ℕ) → mem p xs ≡ false → remove p xs ≡ xs
remove_absent p [] h = refl
remove_absent p (x ∷ xs) h = ground (arith, remove_absent p xs)

-- No reference stands twice.
abbrev pub IsDistinct : List ℕ → Type 0
IsDistinct [] = Unit
IsDistinct (x ∷ xs) = (mem x xs ≡ false) × IsDistinct xs

pub mem-remove_other : (p q : ℕ) (xs : List ℕ) → mem q xs ≡ false → mem q (remove p xs) ≡ false
mem-remove_other p q [] h = refl
mem-remove_other p q (x ∷ xs) h = ground (arith, mem-remove_other p q xs)

pub mem-remove_self : (p : ℕ) (xs : List ℕ) → IsDistinct xs → mem p (remove p xs) ≡ false
mem-remove_self p [] h = refl
mem-remove_self p (x ∷ xs) h = elim (Bool-cases (x == p)) [
  | inl e ↦ ground arith
  | inr e ↦ ground (arith, mem-remove_self p xs h.1)
]

pub IsDistinct-remove : (p : ℕ) (xs : List ℕ) → IsDistinct xs → IsDistinct (remove p xs)
IsDistinct-remove p [] h = tt
IsDistinct-remove p (x ∷ xs) h = elim (Bool-cases (x == p)) [
  | inl e ↦ rw e h.1
  | inr e ↦ rw e (mem-remove_other p x xs h.0, IsDistinct-remove p xs h.1)
]

pub IsDistinct-snoc :
    (p : ℕ) (xs : List ℕ) → mem p xs ≡ false → IsDistinct xs → IsDistinct (xs ++ p ∷ [])
IsDistinct-snoc p [] h d = (refl, tt)
IsDistinct-snoc p (x ∷ xs) h d =
    (ground (arith, mem-append x xs (p ∷ [])), IsDistinct-snoc p xs (ground arith) d.1)

pub mem_of_mem-remove : (p q : ℕ) (xs : List ℕ) → mem q (remove p xs) ≡ true → mem q xs ≡ true
mem_of_mem-remove p q xs h = elim (Bool-cases (mem q xs)) [
  | inl e ↦ e
  | inr e ↦ ground (arith, mem-remove_other p q xs)
]

pub mem-remove_kept : (p q : ℕ) (xs : List ℕ) → p ≢ q → mem q xs ≡ true → mem q (remove p xs) ≡ true
mem-remove_kept p q [] n h = h
mem-remove_kept p q (x ∷ xs) n h = ground (arith, mem-remove_kept p q xs n)

-- A reference in a list with one more at the end.
pub mem-snoc_cases {ℓ} :
    {P : Type ℓ} (p q : ℕ) (xs : List ℕ)
    → mem q (xs ++ p ∷ []) ≡ true
    → (mem q xs ≡ true → P)
    → (p ≡ q → P)
    → P
mem-snoc_cases p q xs m old last = elim (ℕ_discrete p q) [
  | yes e ↦ last e
  | no n ↦ old (ground (arith, mem-append q xs (p ∷ [])))
]

-- A map over references sees only the listed ones.
pub map_cong {ℓ} :
    {A : Type ℓ} (f g : ℕ → A) (ps : List ℕ)
    → ((p : ℕ) → mem p ps ≡ true → f p ≡ g p)
    → map f ps ≡ map g ps
map_cong f g [] h = refl
map_cong f g (p ∷ ps) h =
    let head = h p (ground arith) in
    let tail = map_cong f g ps (λ q m. h q (ground arith)) in λ i. head i ∷ tail i
