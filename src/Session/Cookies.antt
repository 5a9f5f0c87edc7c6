-- ===== src/Session/Cookies.antt =====
-- The cookies of src/urf-session-checker-consolekit.c, and the list of inhibitors they name.
use urfkill.Prelude.{
  ℕ, ◌≡◌, ◌≢◌, refl, ◌∙◌, Bool, true, none, some, String, List, [], ◌∷◌, str_eq, arith, mem, All,
  Bool-cases, Option-cases, inl, inr, eq_iff, subst, some-injective, sym, ==-refl,
}
use urfkill.Session.{
  Inhibitor, find_cookie, find_inhibitor_by_cookie, find_inhibitor_by_bus_name,
  generate_unique_cookie, remove_first,
}

-- A cookie is not 0 and names one inhibitor, and a process has one inhibitor.
pub IsLedger : List Inhibitor → Type 0
IsLedger [] = Unit {0}
IsLedger (h ∷ hs) =
    (h.cookie ≢ 0)
    × (find_cookie h.cookie hs ≡ none)
    × (find_inhibitor_by_bus_name h.bus_name hs ≡ none)
    × IsLedger hs

pub IsLedger-cons :
    (h : Inhibitor) (hs : List Inhibitor)
    → h.cookie ≢ 0
    → find_cookie h.cookie hs ≡ none
    → find_inhibitor_by_bus_name h.bus_name hs ≡ none
    → IsLedger hs
    → IsLedger (h ∷ hs)
unfolding IsLedger
IsLedger-cons h hs n c b l = (n, c, b, l)

pub IsLedger-nil : IsLedger []
unfolding IsLedger
IsLedger-nil = tt

find_inhibitor_by_cookie-none :
    (hs : List Inhibitor) (d : ℕ) → find_cookie d hs ≡ none → find_inhibitor_by_cookie d hs ≡ none
unfolding find_inhibitor_by_cookie
find_inhibitor_by_cookie-none hs d f = ground arith

pub find_inhibitor_by_cookie-pos :
    (hs : List Inhibitor) (d : ℕ) → d ≢ 0 → find_inhibitor_by_cookie d hs ≡ find_cookie d hs
unfolding find_inhibitor_by_cookie
find_inhibitor_by_cookie-pos hs d n = ground arith

-- A draw that ends the search: a cookie in the range that no inhibitor has.
pub generate_total :
    (hs : List Inhibitor) (draws : List ℕ) (d : ℕ)
    → mem d draws ≡ true
    → find_cookie d hs ≡ none
    → (k : ℕ) × (generate_unique_cookie hs draws ≡ some k)
unfolding generate_unique_cookie
generate_total hs [] d m f = cc
generate_total hs (e ∷ es) d m f = elim (Option-cases (find_inhibitor_by_cookie e hs)) [
  | inl free ↦ (e, ground arith)
  | inr (h, taken) ↦
      let (k, r) =
        generate_total hs es d (ground (arith, find_inhibitor_by_cookie-none hs d f)) f in
      (k, ground arith)
]

pub generate_lem :
    (hs : List Inhibitor) (draws : List ℕ) {k : ℕ}
    → All (λ d. d ≢ 0) draws
    → generate_unique_cookie hs draws ≡ some k
    → (k ≢ 0) × (find_cookie k hs ≡ none)
unfolding generate_unique_cookie
generate_lem hs [] a h = cc
generate_lem hs (e ∷ es) {k} (n, a) h = elim (Option-cases (find_inhibitor_by_cookie e hs)) [
  | inl free ↦ (ground arith, ground (arith, find_inhibitor_by_cookie-pos hs e n))
  | inr (i, taken) ↦ generate_lem hs es a (ground arith)
]

find_cookie-remove_first :
    (f : Inhibitor → Bool) (hs : List Inhibitor) (k : ℕ)
    → find_cookie k hs ≡ none
    → find_cookie k (remove_first f hs) ≡ none
unfolding find_cookie remove_first
find_cookie-remove_first f [] k e = refl
find_cookie-remove_first f (h ∷ hs) k e = ground (arith, find_cookie-remove_first f hs k)

find_bus_name-remove_first :
    (f : Inhibitor → Bool) (hs : List Inhibitor) (b : String)
    → find_inhibitor_by_bus_name b hs ≡ none
    → find_inhibitor_by_bus_name b (remove_first f hs) ≡ none
unfolding find_inhibitor_by_bus_name remove_first
find_bus_name-remove_first f [] b e = refl
find_bus_name-remove_first f (h ∷ hs) b e = ground (arith, find_bus_name-remove_first f hs b)

pub IsLedger-remove_first :
    (f : Inhibitor → Bool) (hs : List Inhibitor) → IsLedger hs → IsLedger (remove_first f hs)
unfolding IsLedger remove_first
IsLedger-remove_first f [] l = l
IsLedger-remove_first f (h ∷ hs) l =
    let (n, c, b, r) = l in
    elim (Bool-cases (f h)) [
      | inl e ↦ rw e r
      | inr e ↦ rw e (
        n,
        find_cookie-remove_first f hs h.cookie c,
        find_bus_name-remove_first f hs h.bus_name b,
        IsLedger-remove_first f hs r,
      )
    ]

-- Removing the inhibitor of a process leaves none of that process.
pub bus_name-gone :
    (hs : List Inhibitor) (b : String)
    → IsLedger hs
    → find_inhibitor_by_bus_name b (remove_first (λ i. str_eq i.bus_name b) hs) ≡ none
unfolding IsLedger find_inhibitor_by_bus_name remove_first
bus_name-gone [] b l = refl
bus_name-gone (h ∷ hs) b (n, c, e, l) = elim (Bool-cases (str_eq h.bus_name b)) [
  | inl s ↦ rw s (subst (λ x. find_inhibitor_by_bus_name x hs ≡ none) ((eq_iff h.bus_name b).0 s) e)
  | inr s ↦ ground (arith, bus_name-gone hs b l)
]

-- The inhibitor of a process is the one that its cookie names.
pub bus_name-cookie :
    (hs : List Inhibitor) (b : String) {h : Inhibitor}
    → IsLedger hs
    → find_inhibitor_by_bus_name b hs ≡ some h
    → (find_cookie h.cookie hs ≡ some h) × (h.bus_name ≡ b) × (h.cookie ≢ 0)
unfolding IsLedger find_inhibitor_by_bus_name find_cookie
bus_name-cookie [] b l e = cc
bus_name-cookie (i ∷ hs) b {h} (n, c, u, l) e = elim (Bool-cases (str_eq i.bus_name b)) [
  | inl s ↦
      let same : i ≡ h = some-injective i h (sym (rw s refl) ∙ e) in
      rw (← same) (rw (==-refl i.cookie) refl, (eq_iff i.bus_name b).0 s, n)
  | inr s ↦
      let (f, name, m) = bus_name-cookie hs b {h = h} l (ground arith) in
      (ground (arith, c), name, m)
]
