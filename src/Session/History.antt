-- ===== src/Session/History.antt =====
-- A run of src/urf-session-checker-logind.c over what it hears, in any order.
use urfkill.Prelude.{
  ℕ, ◌+◌, ◌≡◌, ◌≢◌, ◌≤◌, ◌<◌, refl, Bool, false, some, String, List, [], ◌∷◌, str_eq, ◌==◌, not,
  ◌&&◌, if_either, length, All, IsDistinct, arith, Bool-cases, Option-cases, inl, inr,
}
use urfkill.Session.{
  Inhibitor, Bus, SessionChecker, find_inhibitor_by_bus_name, find_inhibitor_by_cookie, recompute,
  get_session_id, new_inhibitor, remove_first, remove_inhibitor, urf_session_checker_inhibit,
  urf_session_checker_uninhibit, urf_session_checker_bus_owner_changed,
  urf_session_checker_seat_added, urf_session_checker_add_seat, urf_session_checker_seat_removed,
  urf_session_checker_seat_active_changed, urf_session_checker_find_seat, urf_seat_object_path_sync,
}
use urfkill.Session.Cookies.{
  IsLedger, IsLedger-cons, generate_total, generate_lem, IsLedger-remove_first,
}
use urfkill.Session.Consistent.{IsConsistent}
use urfkill.Session.Draws.{length-remove_first_le, free_draw}
use urfkill.Session.Logind.{
  SessionEvent, ask_inhibit, ask_uninhibit, manager_signal, bus_signal, seat_property,
  logind_inhibit, logind_uninhibit, logind_proxy_signal_cb, logind_bus_proxy_signal_cb,
  urf_seat_proxy_properties_changed, logind_step, logind_run,
}

-- A call of Inhibit draws more than `n` numbers, which differ and are not 0.
abbrev pub HasDraws : ℕ → SessionEvent → Type 0
HasDraws n (ask_inhibit draws bus_name reason) =
    All (λ d. d ≢ 0) draws × IsDistinct draws × (n < length draws)
HasDraws n _ = Unit

-- No seat comes or goes.
abbrev pub KeepsSeats : SessionEvent → Type 0
KeepsSeats (manager_signal name path) =
    (str_eq name "SeatNew" ≡ false) × (str_eq name "SeatRemoved" ≡ false)
KeepsSeats _ = Unit

-- What the checker keeps: its ledger, with at most `n` inhibitors more, and the flag.
pub record Held (n : ℕ) (seats_kept : Type 0) (c c' : SessionChecker) : Type 0 where
  pub ledger : IsLedger c'.inhibitors
  pub count : length c'.inhibitors ≤ length c.inhibitors + n
  pub flag : seats_kept → IsConsistent c → IsConsistent c'

Held-refl : {K : Type 0} (n : ℕ) (c : SessionChecker) → IsLedger c.inhibitors → Held n K c c
Held-refl n c l = record { ledger = l; count = omega arith; flag = λ k v. v }

-- Every handler that changes the inhibitors computes the flag anew.
recomputed :
    {K : Type 0} (c : SessionChecker) (hs : List Inhibitor)
    → IsLedger hs
    → length hs ≤ length c.inhibitors + 1
    → Held 1 K c (recompute (record c { inhibitors = hs }))
recomputed c hs l n = record {
  ledger = l;
  count = n;
  flag = λ k v. record { inhibit_is = refl; ledger = l };
}

inhibit-Held :
    (bus : Bus) (draws : List ℕ) (bus_name reason : String) (c : SessionChecker)
    → IsLedger c.inhibitors
    → HasDraws (length c.inhibitors) (ask_inhibit draws bus_name reason)
    → (k : ℕ) × (c' : SessionChecker) × (urf_session_checker_inhibit bus draws bus_name reason c
        ≡ some (k, c'))
      × Held 1 Unit c c'
unfolding urf_session_checker_inhibit new_inhibitor
inhibit-Held bus draws bus_name reason c l (nonzero, u, room) = elim (Bool-cases c.proxy) [
  | inr off ↦ (0, c, ground arith, Held-refl 1 c l)
  | inl on ↦ elim (Option-cases (find_inhibitor_by_bus_name bus_name c.inhibitors)) [
    | inr (h, old) ↦ (h.cookie, c, ground arith, Held-refl 1 c l)
    | inl new ↦ elim (Option-cases (get_session_id bus bus_name)) [
      | inl outside ↦ (0, c, ground arith, Held-refl 1 c l)
      | inr (session_id, e) ↦
          let (d, m, f) = free_draw draws c.inhibitors u room in
          let (k, r) = generate_total c.inhibitors draws d m f in
          let (n, free) = generate_lem c.inhibitors draws nonzero r in
          let h : Inhibitor = record {
            cookie = k;
            session_id = session_id;
            bus_name = bus_name;
            reason = reason;
          } in
          (
            k,
            recompute (record c { inhibitors = h ∷ c.inhibitors }),
            ground (arith, on, new, e, r),
            recomputed c (h ∷ c.inhibitors) (IsLedger-cons h c.inhibitors n free new l)
                (omega arith),
          )
    ]
  ]
]

remove-Held :
    {K : Type 0} (f : Inhibitor → Bool) (c : SessionChecker)
    → IsLedger c.inhibitors
    → Held 1 K c (remove_inhibitor f c)
unfolding remove_inhibitor
remove-Held {K} f c l =
    let n = length-remove_first_le f c.inhibitors in
    if_either (Held 1 K c) c.proxy
      (recomputed c (remove_first f c.inhibitors) (IsLedger-remove_first f c.inhibitors l)
        (omega (arith, n)))
      (Held-refl 1 c l)

uninhibit-Held :
    (cookie : ℕ) (c : SessionChecker)
    → IsLedger c.inhibitors
    → Held 1 Unit c (urf_session_checker_uninhibit cookie c)
unfolding urf_session_checker_uninhibit
uninhibit-Held cookie c l = elim (Option-cases (find_inhibitor_by_cookie cookie c.inhibitors)) [
  | inl e ↦ rw (e, urf_session_checker_uninhibit) (Held-refl 1 c l)
  | inr (h, e) ↦ rw (e, urf_session_checker_uninhibit) (remove-Held (λ i. i.cookie == cookie) c l)
]

owner_changed-Held :
    (old_owner new_owner : String) (c : SessionChecker)
    → IsLedger c.inhibitors
    → Held 1 Unit c (urf_session_checker_bus_owner_changed old_owner new_owner c)
unfolding urf_session_checker_bus_owner_changed
owner_changed-Held old_owner new_owner c l =
    if_either (Held 1 Unit c) (str_eq new_owner "" && not (str_eq old_owner ""))
      (elim (Option-cases (find_inhibitor_by_bus_name old_owner c.inhibitors)) [
        | inl e ↦ rw e (Held-refl 1 c l)
        | inr (h, e) ↦ rw e (remove-Held (λ i. str_eq i.bus_name old_owner) c l)
      ])
      (Held-refl 1 c l)

bus_signal-Held :
    (name old_owner new_owner : String) (c : SessionChecker)
    → IsLedger c.inhibitors
    → Held 1 Unit c (logind_bus_proxy_signal_cb name old_owner new_owner c)
unfolding logind_bus_proxy_signal_cb
bus_signal-Held name old_owner new_owner c l =
    if_either (Held 1 Unit c) (str_eq name "NameOwnerChanged")
      (owner_changed-Held old_owner new_owner c l) (Held-refl 1 c l)

seat-Held :
    (K : Type 0) (c c' : SessionChecker)
    → IsLedger c.inhibitors
    → c'.inhibitors ≡ c.inhibitors
    → (K → c' ≡ c)
    → Held 1 K c c'
seat-Held K c c' l e k = record {
  ledger = rw e l;
  count = rw e (omega arith);
  flag = λ h v. rw (k h) v;
}

seat_added-inhibitors :
    (bus : Bus) (path : String) (c : SessionChecker)
    → (urf_session_checker_seat_added bus path c).inhibitors ≡ c.inhibitors
unfolding urf_session_checker_seat_added urf_session_checker_add_seat
seat_added-inhibitors bus path c = elim (Option-cases (urf_session_checker_find_seat c path)) [
  | inr (seat, e) ↦ rw (e, urf_session_checker_seat_added) refl
  | inl e ↦ elim (Option-cases (urf_seat_object_path_sync bus path)) [
    | inl f ↦ rw (e, f, urf_session_checker_seat_added, urf_session_checker_add_seat) refl
    | inr (seat, f) ↦ rw (e, f, urf_session_checker_seat_added, urf_session_checker_add_seat) refl
  ]
]

seat_removed-inhibitors :
    (path : String) (c : SessionChecker)
    → (urf_session_checker_seat_removed path c).inhibitors ≡ c.inhibitors
unfolding urf_session_checker_seat_removed
seat_removed-inhibitors path c = elim (Option-cases (urf_session_checker_find_seat c path)) [
  | inl e ↦ rw (e, urf_session_checker_seat_removed) refl
  | inr (seat, e) ↦ rw (e, urf_session_checker_seat_removed) refl
]

manager_signal-Held :
    (K : Type 0) (bus : Bus) (name path : String) (c : SessionChecker)
    → IsLedger c.inhibitors
    → (K → str_eq name "SeatNew" ≡ false)
    → (K → str_eq name "SeatRemoved" ≡ false)
    → Held 1 K c (logind_proxy_signal_cb bus name path c)
unfolding logind_proxy_signal_cb
manager_signal-Held K bus name path c l no_new no_gone = elim (Bool-cases (str_eq name "SeatNew")) [
  | inl a ↦
      rw (a, logind_proxy_signal_cb)
        (seat-Held K c (urf_session_checker_seat_added bus path c) l
          (seat_added-inhibitors bus path c) (λ k. absurd (cc (a, no_new k))))
  | inr a ↦ elim (Bool-cases (str_eq name "SeatRemoved")) [
    | inl b ↦
        rw (a, b, logind_proxy_signal_cb)
          (seat-Held K c (urf_session_checker_seat_removed path c) l
            (seat_removed-inhibitors path c) (λ k. absurd (cc (b, no_gone k))))
    | inr b ↦ rw (a, b, logind_proxy_signal_cb) (Held-refl 1 c l)
  ]
]

seat_property-Held :
    (seat : ℕ) (property path : String) (c : SessionChecker)
    → IsLedger c.inhibitors
    → Held 1 Unit c (urf_seat_proxy_properties_changed seat property path c)
unfolding urf_seat_proxy_properties_changed urf_session_checker_seat_active_changed
seat_property-Held seat property path c l =
    if_either (Held 1 Unit c) (str_eq property "ActiveSession")
      (record {
        ledger = l;
        count = omega arith;
        flag = λ k v. record { inhibit_is = refl; ledger = l };
      })
      (Held-refl 1 c l)

step-Held :
    (bus : Bus) (e : SessionEvent) (c : SessionChecker)
    → IsLedger c.inhibitors
    → HasDraws (length c.inhibitors) e
    → (c' : SessionChecker) × (logind_step bus e c ≡ some c') × Held 1 (KeepsSeats e) c c'
unfolding logind_step logind_inhibit logind_uninhibit
step-Held bus (ask_inhibit draws bus_name reason) c l h =
    let (k, c', e, held) = inhibit-Held bus draws bus_name reason c l h in (c', rw e refl, held)
step-Held bus (ask_uninhibit cookie) c l h = (_, refl, uninhibit-Held cookie c l)
step-Held bus (manager_signal name path) c l h = (
  _,
  refl,
  manager_signal-Held (KeepsSeats (manager_signal name path)) bus name path c l (λ k. k.0)
      (λ k. k.1),
)
step-Held bus (bus_signal name old_owner new_owner) c l h =
    (_, refl, bus_signal-Held name old_owner new_owner c l)
step-Held bus (seat_property seat property path) c l h =
    (_, refl, seat_property-Held seat property path c l)

HasDraws-less : (m n : ℕ) (e : SessionEvent) → m ≤ n → HasDraws n e → HasDraws m e
HasDraws-less m n (ask_inhibit draws bus_name reason) le (a, u, r) = (a, u, omega arith)
HasDraws-less m n (ask_uninhibit cookie) le h = tt
HasDraws-less m n (manager_signal name path) le h = tt
HasDraws-less m n (bus_signal name old_owner new_owner) le h = tt
HasDraws-less m n (seat_property seat property path) le h = tt

-- A checker for logind whose cookies are not 0 and differ, and which has at most one inhibitor for
-- a process, takes in any list of calls, signals and changed properties without a fault, if each
-- call of Inhibit draws numbers that differ and are not 0, more than there are inhibitors at the
-- start and events together. The cookies and processes stay so, each event adds at most one
-- inhibitor, and if no seat comes or goes the flag still tells whether an active session has an
-- inhibitor, if it did before.
pub run-Held :
    (bus : Bus) (n : ℕ) (es : List SessionEvent) (c : SessionChecker)
    → IsLedger c.inhibitors
    → length c.inhibitors + length es ≤ n
    → All (HasDraws n) es
    → (c' : SessionChecker) × (logind_run bus es c ≡ some c')
      × Held (length es) (All KeepsSeats es) c c'
unfolding logind_run
run-Held bus n [] c l room h = (c, refl, Held-refl 0 c l)
run-Held bus n (e ∷ es) c l room h =
    let (c1, e1, h1) =
      step-Held bus e c l (HasDraws-less (length c.inhibitors) n e (omega arith) h.0) in
    let (c2, e2, h2) = run-Held bus n es c1 h1.ledger (omega (arith, h1.count)) h.1 in
    (
      c2,
      rw e1 e2,
      record {
        ledger = h2.ledger;
        count = omega (arith, h1.count, h2.count);
        flag = λ k v. h2.flag k.1 (h1.flag k.0 v);
      },
    )
