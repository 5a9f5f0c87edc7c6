-- ===== src/Session/Consolekit.antt =====
-- The signals that src/urf-session-checker-consolekit.c and src/urf-seat-consolekit.c hear, and
-- a run of the checker, by way of that of logind.
use urfkill.Prelude.{
  ℕ, suc, fun_ext, ◌+◌, ◌≡◌, ◌≤◌, refl, ap, ◌∙◌, subst, Option, some, String, List, [], ◌∷◌, map,
  All, str_eq, ◌>>=◌, if◌then◌else◌, Bool-cases, inl, inr, arith, length,
}
use urfkill.Session.{
  Bus, SessionChecker, urf_session_checker_inhibit, urf_session_checker_uninhibit,
  urf_session_checker_bus_owner_changed, urf_session_checker_seat_added,
  urf_session_checker_seat_removed, urf_session_checker_seat_active_changed,
}
use urfkill.Session.Cookies.{IsLedger}
use urfkill.Session.Logind.{
  SessionEvent, ask_inhibit, ask_uninhibit, manager_signal, bus_signal, seat_property,
  logind_inhibit, logind_uninhibit, logind_proxy_signal_cb, logind_bus_proxy_signal_cb,
  urf_seat_proxy_properties_changed, logind_step, logind_run,
}
use urfkill.Session.History.{HasDraws, KeepsSeats, Held, run-Held}

-- What a checker for ConsoleKit hears: the two methods of the daemon, the signals of ConsoleKit
-- and of the bus, and those of the seat at a place of the list.
pub data ConsolekitEvent : Type 0 where
  call_inhibit : (draws : List ℕ) (bus_name reason : String) → ConsolekitEvent
  call_uninhibit : (cookie : ℕ) → ConsolekitEvent
  manager_says : (signal_name seat_path : String) → ConsolekitEvent
  bus_says : (signal_name old_owner new_owner : String) → ConsolekitEvent
  seat_says : (seat : ℕ) (signal_name session_id : String) → ConsolekitEvent

unfoldable pub urf_session_checker_proxy_signal_cb :
    Bus → (signal_name seat_path : String) → SessionChecker → SessionChecker
unfolding urf_session_checker_seat_added urf_session_checker_seat_removed
urf_session_checker_proxy_signal_cb bus signal_name seat_path c =
    if str_eq signal_name "SeatAdded"
    then urf_session_checker_seat_added bus seat_path c
    else if str_eq signal_name "SeatRemoved"
    then urf_session_checker_seat_removed seat_path c
    else c

unfoldable pub urf_session_checker_bus_proxy_signal_cb :
    (signal_name old_owner new_owner : String) → SessionChecker → SessionChecker
unfolding urf_session_checker_bus_owner_changed
urf_session_checker_bus_proxy_signal_cb signal_name old_owner new_owner c =
    if str_eq signal_name "NameOwnerChanged"
    then urf_session_checker_bus_owner_changed old_owner new_owner c
    else c

-- The signal "active-changed" runs the handler of the checker at once.
unfoldable pub urf_seat_proxy_signal_cb :
    (seat : ℕ) (signal_name session_id : String) → SessionChecker → SessionChecker
unfolding urf_session_checker_seat_active_changed
urf_seat_proxy_signal_cb seat signal_name session_id c =
    if str_eq signal_name "ActiveSessionChanged"
    then urf_session_checker_seat_active_changed seat session_id c
    else c

unfoldable pub consolekit_step : Bus → ConsolekitEvent → SessionChecker → Option SessionChecker
unfolding urf_session_checker_proxy_signal_cb urf_session_checker_bus_proxy_signal_cb
    urf_seat_proxy_signal_cb urf_session_checker_inhibit urf_session_checker_uninhibit
consolekit_step bus (call_inhibit draws bus_name reason) c =
    urf_session_checker_inhibit bus draws bus_name reason c >>= (λ x. some x.1)
consolekit_step bus (call_uninhibit cookie) c = some (urf_session_checker_uninhibit cookie c)
consolekit_step bus (manager_says name path) c =
    some (urf_session_checker_proxy_signal_cb bus name path c)
consolekit_step bus (bus_says name old_owner new_owner) c =
    some (urf_session_checker_bus_proxy_signal_cb name old_owner new_owner c)
consolekit_step bus (seat_says seat name session_id) c =
    some (urf_seat_proxy_signal_cb seat name session_id c)

unfoldable pub consolekit_run : Bus → List ConsolekitEvent → SessionChecker → Option SessionChecker
unfolding consolekit_step
consolekit_run bus [] c = some c
consolekit_run bus (e ∷ es) c = consolekit_step bus e c >>= consolekit_run bus es

-- The words of logind for those of ConsoleKit.
abbrev pub as_logind : ConsolekitEvent → SessionEvent
as_logind (call_inhibit draws bus_name reason) = ask_inhibit draws bus_name reason
as_logind (call_uninhibit cookie) = ask_uninhibit cookie
as_logind (manager_says name path) =
    manager_signal
      (if str_eq name "SeatAdded"
        then "SeatNew"
        else if str_eq name "SeatRemoved"
        then "SeatRemoved"
        else "")
      path
as_logind (bus_says name old_owner new_owner) = bus_signal name old_owner new_owner
as_logind (seat_says seat name session_id) =
    seat_property seat (if str_eq name "ActiveSessionChanged" then "ActiveSession" else "")
      session_id

consolekit_step-logind_step :
    (bus : Bus) (e : ConsolekitEvent) (c : SessionChecker)
    → consolekit_step bus e c ≡ logind_step bus (as_logind e) c
unfolding consolekit_step logind_step urf_session_checker_proxy_signal_cb logind_proxy_signal_cb
    urf_session_checker_bus_proxy_signal_cb logind_bus_proxy_signal_cb urf_seat_proxy_signal_cb
    urf_seat_proxy_properties_changed logind_inhibit logind_uninhibit
consolekit_step-logind_step bus (call_inhibit draws bus_name reason) c = refl
consolekit_step-logind_step bus (call_uninhibit cookie) c = refl
consolekit_step-logind_step bus (bus_says name old_owner new_owner) c = refl
consolekit_step-logind_step bus (seat_says seat name session_id) c =
    elim (Bool-cases (str_eq name "ActiveSessionChanged")) [ inl e ↦ rw e refl | inr e ↦ rw e refl ]
consolekit_step-logind_step bus (manager_says name path) c =
    elim (Bool-cases (str_eq name "SeatAdded")) [
      | inl e ↦ rw e refl
      | inr n ↦ elim (Bool-cases (str_eq name "SeatRemoved")) [
        | inl e ↦ rw (n, e) refl
        | inr e ↦ rw (n, e) refl
      ]
    ]

consolekit_run-logind_run :
    (bus : Bus) (es : List ConsolekitEvent) (c : SessionChecker)
    → consolekit_run bus es c ≡ logind_run bus (map as_logind es) c
unfolding consolekit_run logind_run
consolekit_run-logind_run bus [] c = refl
consolekit_run-logind_run bus (e ∷ es) c =
    ap (λ x. x >>= consolekit_run bus es) (consolekit_step-logind_step bus e c)
    ∙ ap (λ f. logind_step bus (as_logind e) c >>= f)
        (fun_ext (λ x. consolekit_run-logind_run bus es x))

length-map {ℓ ℓ'} :
    {A : Type ℓ} {B : Type ℓ'} (f : A → B) (xs : List A) → length (map f xs) ≡ length xs
length-map f [] = refl
length-map f (x ∷ xs) = ap suc (length-map f xs)

-- A run of the checker for ConsoleKit keeps what one of logind does, whose handlers are the same.
pub consolekit_run-Held :
    (bus : Bus) (n : ℕ) (es : List ConsolekitEvent) (c : SessionChecker)
    → IsLedger c.inhibitors
    → length c.inhibitors + length es ≤ n
    → All (HasDraws n) (map as_logind es)
    → (c' : SessionChecker) × (consolekit_run bus es c ≡ some c')
      × Held (length es) (All KeepsSeats (map as_logind es)) c c'
consolekit_run-Held bus n es c l room h =
    let same = length-map as_logind es in
    let (c', done, held) = run-Held bus n (map as_logind es) c l (omega (arith, same, room)) h in
    (
      c',
      consolekit_run-logind_run bus es c ∙ done,
      subst (λ k. Held k (All KeepsSeats (map as_logind es)) c c') same held,
    )
