-- ===== src/Session/Draws.antt =====
-- More random numbers than inhibitors: one of them is a free cookie (generate_unique_cookie of
-- src/urf-session-checker-consolekit.c and src/urf-session-checker-logind.c).
use urfkill.Prelude.{
  ℕ, ◌+◌, ◌≡◌, ◌≢◌, ◌≤◌, ◌<◌, refl, Bool, true, none, some, List, [], ◌∷◌, ◌==◌, length, mem,
  IsDistinct, arith, Option-cases, inl, inr, ==-refl,
}
use urfkill.Session.{Inhibitor, find_cookie, remove_first}

pub length-remove_first_le :
    (f : Inhibitor → Bool) (hs : List Inhibitor) → length (remove_first f hs) ≤ length hs
unfolding remove_first
length-remove_first_le f [] = omega arith
length-remove_first_le f (h ∷ hs) = ground (arith, length-remove_first_le f hs)

length-remove_found :
    (d : ℕ) (hs : List Inhibitor) (h : Inhibitor)
    → find_cookie d hs ≡ some h
    → length hs ≡ length (remove_first (λ i. i.cookie == d) hs) + 1
unfolding find_cookie remove_first
length-remove_found d [] h e = cc
length-remove_found d (i ∷ hs) h e = ground (arith, length-remove_found d hs h)

find_cookie_kept :
    (d k : ℕ) (hs : List Inhibitor)
    → d ≢ k
    → find_cookie k (remove_first (λ i. i.cookie == d) hs) ≡ none
    → find_cookie k hs ≡ none
unfolding find_cookie remove_first
find_cookie_kept d k [] n e = refl
find_cookie_kept d k (i ∷ hs) n e = ground (arith, find_cookie_kept d k hs n)

pub free_draw :
    (draws : List ℕ) (hs : List Inhibitor)
    → IsDistinct draws
    → length hs < length draws
    → (d : ℕ) × (mem d draws ≡ true) × (find_cookie d hs ≡ none)
free_draw [] hs u room = absurd (omega (arith, room))
free_draw (d ∷ ds) hs u room = elim (Option-cases (find_cookie d hs)) [
  | inl free ↦ (d, ground (arith, ==-refl d), free)
  | inr (h, taken) ↦
      let less = length-remove_found d hs h taken in
      let (e, m, f) =
        free_draw ds (remove_first (λ i. i.cookie == d) hs) u.1 (omega (arith, less, room)) in
      let other : d ≢ e = λ same. ground (arith, u.0) in
      (e, ground arith, find_cookie_kept d e hs other f)
]
