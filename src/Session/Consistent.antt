-- ===== src/Session/Consistent.antt =====
-- The inhibitors of src/urf-session-checker-consolekit.c and the flag that says whether one of
-- them counts.
use urfkill.Prelude.{
  ℕ, ◌≡◌, ◌≢◌, refl, ◌∙◌, sym, ap, Bool, true, false, none, some, String, List, ◌∷◌, str_eq, ◌==◌,
  arith, if◌then◌else◌, mem, All, Bool-cases, Option-cases, inl, inr, ==-refl, subst,
  some-injective, if_either,
}
use urfkill.Session.{
  Inhibitor, Bus, SessionChecker, find_cookie, find_inhibitor_by_cookie, find_inhibitor_by_bus_name,
  is_inhibited, recompute, get_session_id, generate_unique_cookie, new_inhibitor,
  urf_session_checker_inhibit, remove_first, remove_inhibitor, urf_session_checker_uninhibit,
  urf_session_checker_bus_owner_changed, urf_session_checker_seat_active_changed,
}
use urfkill.Session.Cookies.{
  IsLedger, IsLedger-cons, find_inhibitor_by_cookie-pos, generate_total, generate_lem,
  IsLedger-remove_first, bus_name-gone, bus_name-cookie,
}

pub record IsConsistent (c : SessionChecker) : Type 0 where
  pub inhibit_is : c.inhibit ≡ is_inhibited c.seats c.inhibitors
  pub ledger : IsLedger c.inhibitors

-- What a call of Inhibit gives, with the checker after it.
pub record Inhibited (bus_name : String) (c : SessionChecker) (k : ℕ) (c' : SessionChecker)
    : Type 0 where
  pub consistent : IsConsistent c'
  pub refused : k ≡ 0 → c' ≡ c
  pub named :
      k ≢ 0 → (h : Inhibitor) × (find_cookie k c'.inhibitors ≡ some h) × (h.bus_name ≡ bus_name)

new_Inhibited :
    (draws : List ℕ) (session_id bus_name reason : String) (c : SessionChecker) (d : ℕ)
    → IsConsistent c
    → find_inhibitor_by_bus_name bus_name c.inhibitors ≡ none
    → All (λ e. e ≢ 0) draws
    → mem d draws ≡ true
    → find_cookie d c.inhibitors ≡ none
    → (k : ℕ) × (c' : SessionChecker) × (new_inhibitor draws session_id bus_name reason c
        ≡ some (k, c'))
      × Inhibited bus_name c k c'
unfolding new_inhibitor
new_Inhibited draws session_id bus_name reason c d v free a m f =
    let (k, r) = generate_total c.inhibitors draws d m f in
    let (n, u) = generate_lem c.inhibitors draws a r in
    let h : Inhibitor = record {
      cookie = k;
      session_id = session_id;
      bus_name = bus_name;
      reason = reason;
    } in
    let c' = recompute (record c { inhibitors = h ∷ c.inhibitors }) in
    (
      k,
      c',
      rw (r, new_inhibitor),
      record {
        consistent = record {
          inhibit_is = refl;
          ledger = IsLedger-cons h c.inhibitors n u free v.ledger;
        };
        refused = λ z. absurd (n z);
        named = λ _. (h, rw (==-refl k) refl, refl);
      },
    )

-- Inhibit on a consistent checker returns as soon as one of the random numbers, which are not 0,
-- is no cookie in use. The checker stays consistent: its flag tells whether an active session has
-- an inhibitor, cookies are not 0 and differ, and a process has one inhibitor. The cookie 0 means
-- that nothing has changed, and any other cookie names an inhibitor of the calling process.
pub inhibit_lem :
    (bus : Bus) (draws : List ℕ) (bus_name reason : String) (c : SessionChecker) (d : ℕ)
    → IsConsistent c
    → All (λ e. e ≢ 0) draws
    → mem d draws ≡ true
    → find_cookie d c.inhibitors ≡ none
    → (k : ℕ) × (c' : SessionChecker) × (urf_session_checker_inhibit bus draws bus_name reason c
        ≡ some (k, c'))
      × Inhibited bus_name c k c'
unfolding urf_session_checker_inhibit
inhibit_lem bus draws bus_name reason c d v a m f = elim (Bool-cases c.proxy) [
  | inr off ↦ (0, c, ground arith, unchanged)
  | inl on ↦ elim (Option-cases (find_inhibitor_by_bus_name bus_name c.inhibitors)) [
    | inr (h, old) ↦
        let (found, name, n) = bus_name-cookie c.inhibitors bus_name {h = h} v.ledger old in
        (
          h.cookie,
          c,
          ground arith,
          record { consistent = v; refused = λ _. refl; named = λ _. (h, found, name) },
        )
    | inl new ↦ elim (Option-cases (get_session_id bus bus_name)) [
      | inl outside ↦ (0, c, ground arith, unchanged)
      | inr (session_id, e) ↦
          let (k, c', r, h) = new_Inhibited draws session_id bus_name reason c d v new a m f in
          (k, c', ground arith, h)
    ]
  ]
]
  where
    unchanged : Inhibited bus_name c 0 c
    unchanged = record { consistent = v; refused = λ _. refl; named = λ n. absurd (n refl) }

pub remove_inhibitor-IsConsistent :
    (f : Inhibitor → Bool) (c : SessionChecker)
    → IsConsistent c
    → IsConsistent (remove_inhibitor f c)
unfolding remove_inhibitor
remove_inhibitor-IsConsistent f c v =
    if_either IsConsistent c.proxy
      (record { inhibit_is = refl; ledger = IsLedger-remove_first f c.inhibitors v.ledger }) v

pub uninhibit-IsConsistent :
    (cookie : ℕ) (c : SessionChecker)
    → IsConsistent c
    → IsConsistent (urf_session_checker_uninhibit cookie c)
unfolding urf_session_checker_uninhibit remove_inhibitor
uninhibit-IsConsistent cookie c v =
    elim (Option-cases (find_inhibitor_by_cookie cookie c.inhibitors)) [
      | inl absent ↦ rw (absent, urf_session_checker_uninhibit) v
      | inr (h, e) ↦
          rw (e, urf_session_checker_uninhibit)
            (remove_inhibitor-IsConsistent (λ i. i.cookie == cookie) c v)
    ]

uninhibit_new :
    (h : Inhibitor) (c : SessionChecker)
    → IsConsistent c
    → c.proxy ≡ true
    → h.cookie ≢ 0
    → urf_session_checker_uninhibit h.cookie
        (recompute (record c { inhibitors = h ∷ c.inhibitors }))
      ≡ c
unfolding urf_session_checker_uninhibit remove_inhibitor remove_first find_cookie
uninhibit_new h c v on n =
    let match : Inhibitor → Bool = λ i. i.cookie == h.cookie in
    let d = recompute (record c { inhibitors = h ∷ c.inhibitors }) in
    let left : remove_first match (h ∷ c.inhibitors) ≡ c.inhibitors = rw (==-refl h.cookie) refl in
    let found : find_inhibitor_by_cookie h.cookie (h ∷ c.inhibitors) ≡ some h =
      find_inhibitor_by_cookie-pos (h ∷ c.inhibitors) h.cookie n ∙ rw (==-refl h.cookie) refl in
    let back : recompute (record d { inhibitors = remove_first match (h ∷ c.inhibitors) }) ≡ c =
      ap (λ hs. recompute (record c { inhibitors = hs })) left
      ∙ (λ i. record c { inhibit = sym v.inhibit_is i }) in
    rw (found, urf_session_checker_uninhibit)
      (subst
        (λ b.
          (if b
            then recompute (record d { inhibitors = remove_first match (h ∷ c.inhibitors) })
            else d)
          ≡ c)
        (sym on) back)

new_uninhibit :
    (draws : List ℕ) (session_id bus_name reason : String) (c : SessionChecker)
    → IsConsistent c
    → All (λ e. e ≢ 0) draws
    → c.proxy ≡ true
    → (k : ℕ) (c' : SessionChecker)
    → new_inhibitor draws session_id bus_name reason c ≡ some (k, c')
    → urf_session_checker_uninhibit k c' ≡ c
unfolding new_inhibitor
new_uninhibit draws session_id bus_name reason c v a on k c' h =
    elim (Option-cases (generate_unique_cookie c.inhibitors draws)) [
      | inl used ↦ ground arith
      | inr (j, r) ↦
          let (n, u) = generate_lem c.inhibitors draws a r in
          let h' : Inhibitor = record {
            cookie = j;
            session_id = session_id;
            bus_name = bus_name;
            reason = reason;
          } in
          let d = recompute (record c { inhibitors = h' ∷ c.inhibitors }) in
          let e : some (j, d) ≡ some (k, c') = sym (rw (r, new_inhibitor) refl) ∙ h in
          subst (λ x. urf_session_checker_uninhibit x.0 x.1 ≡ c) (some-injective (j, d) (k, c') e)
            (uninhibit_new h' c v on n)
    ]

-- For a consistent checker and a process that has no inhibitor yet, Uninhibit with the cookie that
-- Inhibit returned gives back the checker as it was before Inhibit, also where Inhibit refused
-- with the cookie 0. The random numbers drawn are not 0.
pub uninhibit-inhibit :
    (bus : Bus) (draws : List ℕ) (bus_name reason : String) (c : SessionChecker)
    → IsConsistent c
    → All (λ e. e ≢ 0) draws
    → find_inhibitor_by_bus_name bus_name c.inhibitors ≡ none
    → (k : ℕ) (c' : SessionChecker)
    → urf_session_checker_inhibit bus draws bus_name reason c ≡ some (k, c')
    → urf_session_checker_uninhibit k c' ≡ c
unfolding urf_session_checker_inhibit urf_session_checker_uninhibit
uninhibit-inhibit bus draws bus_name reason c v a free k c' h = elim (Bool-cases c.proxy) [
  | inr off ↦ ground arith
  | inl on ↦ elim (Option-cases (get_session_id bus bus_name)) [
    | inl outside ↦ ground arith
    | inr (session_id, e) ↦
        new_uninhibit draws session_id bus_name reason c v a on k c' (ground arith)
  ]
]

-- When a process with a name leaves the bus, a consistent checker that was started stays
-- consistent, and no inhibitor of that process is left.
pub owner_left :
    (old_owner : String) (c : SessionChecker)
    → IsConsistent c
    → c.proxy ≡ true
    → str_eq old_owner "" ≡ false
    → let c' = urf_session_checker_bus_owner_changed old_owner "" c in
      IsConsistent c' × (find_inhibitor_by_bus_name old_owner c'.inhibitors ≡ none)
unfolding urf_session_checker_bus_owner_changed remove_inhibitor
owner_left old_owner c v on named =
    let leave : Inhibitor → Bool = λ i. str_eq i.bus_name old_owner in
    let left = remove_first leave c.inhibitors in
    let gone : find_inhibitor_by_bus_name old_owner left ≡ none =
      bus_name-gone c.inhibitors old_owner v.ledger in
    elim (Option-cases (find_inhibitor_by_bus_name old_owner c.inhibitors)) [
      | inl absent ↦ rw (named, absent) (v, absent)
      | inr (h, e) ↦
          rw (named, e)
            (
              remove_inhibitor-IsConsistent leave c v,
              subst
                  (λ b.
                    find_inhibitor_by_bus_name old_owner
                      (if b then recompute (record c { inhibitors = left }) else c).inhibitors
                    ≡ none)
                  (sym on) gone,
            )
    ]

-- The flag follows the active sessions of the seats too.
pub active_changed-IsConsistent :
    (n : ℕ) (session_id : String) (c : SessionChecker)
    → IsConsistent c
    → IsConsistent (urf_session_checker_seat_active_changed n session_id c)
unfolding urf_session_checker_seat_active_changed
active_changed-IsConsistent n session_id c v = record { inhibit_is = refl; ledger = v.ledger }
