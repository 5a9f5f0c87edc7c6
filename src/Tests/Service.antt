-- ===== src/Tests/Service.antt =====
-- Examples for the theorems on src/urf-session-checker-consolekit.c and src/urf-daemon.c.
use urfkill.Prelude.{ℕ, ◌≡◌, ◌≢◌, refl, Bool, true, false, none, some, List, [], ◌∷◌, arith, All}
use urfkill.Arbitrator.{Arbitrator, urf_arbitrator_has_devices}
use urfkill.Arbitrator.Block.{Blocked}
use urfkill.Session.{
  SessionChecker, find_cookie, is_inhibited, find_inhibitor_by_bus_name,
  urf_session_checker_inhibit, urf_session_checker_uninhibit, urf_session_checker_bus_owner_changed,
}
use urfkill.Session.Consistent.{IsConsistent, Inhibited, inhibit_lem, uninhibit-inhibit, owner_left}
use urfkill.Session.Cookies.{IsLedger-nil}
use urfkill.Session.Logind.{SessionEvent, ask_inhibit, manager_signal, seat_property, logind_run}
use urfkill.Session.History.{HasDraws, KeepsSeats, Held, run-Held}
use urfkill.Daemon.{
  press, urf_daemon_input_event_cb, key_type, Daemon, block, flight_mode, boolean, reply,
  handle_method_call,
}
use urfkill.Daemon.Rights.{Untouched, unauthorized_call, authorized_block, block_all_faults}
use urfkill.Daemon.Keys.{asked, Toggled, input_event_cb_lem}
use urfkill.Arbitrator.Invariant.{state_of, IsValid}
use urfkill.Tests.Fixtures.{
  Table, table, world, with_card, with_card-IsValid, bus, checker, checker-IsConsistent, caller,
  daemon,
}

abbrev draws : List ℕ
draws = 4 ∷ 9 ∷ []

draws_nonzero : All (λ d. d ≢ 0) draws
draws_nonzero = ((λ e. ground arith), ((λ e. ground arith), tt))

inhibit_lem_example :
    (k : ℕ) × (c' : SessionChecker) × (urf_session_checker_inhibit bus draws ":1.5" "keys" checker
      ≡ some (k, c'))
    × Inhibited ":1.5" checker k c'
unfolding find_cookie
inhibit_lem_example =
    inhibit_lem bus draws ":1.5" "keys" checker 4 checker-IsConsistent draws_nonzero refl refl

abbrev inhibited_checker : SessionChecker
inhibited_checker = record checker {
  inhibitors =
      record { cookie = 4; session_id = "/session/1"; bus_name = ":1.5"; reason = "keys" } ∷ [];
  inhibit = true;
}

uninhibit-inhibit_example : urf_session_checker_uninhibit 4 inhibited_checker ≡ checker
unfolding find_inhibitor_by_bus_name urf_session_checker_inhibit is_inhibited
uninhibit-inhibit_example =
    uninhibit-inhibit bus draws ":1.5" "keys" checker checker-IsConsistent draws_nonzero refl 4
      inhibited_checker refl

owner_left_example :
    let c' = urf_session_checker_bus_owner_changed ":1.5" "" checker in
    IsConsistent c' × (find_inhibitor_by_bus_name ":1.5" c'.inhibitors ≡ none)
owner_left_example = owner_left ":1.5" checker checker-IsConsistent refl refl

unauthorized_call_example :
    (d' : Daemon Table) × (handle_method_call table world bus draws
        (caller (some false))
        (flight_mode true)
        (daemon with_card)
      ≡ some d')
    × Untouched (daemon with_card) d'
unfolding find_cookie
unauthorized_call_example =
    unauthorized_call table world bus draws (caller (some false)) (flight_mode true)
      (daemon with_card) 4 checker-IsConsistent (λ action e. cc e) draws_nonzero refl refl

authorized_block_example :
    (r : Bool) × (a' : Arbitrator Table) × (handle_method_call table world bus draws
        (caller (some true))
        (block 1 true)
        (daemon with_card)
      ≡ some (reply (boolean r) (record (daemon with_card) { arbitrator = a' })))
    × Blocked table world 1 true with_card r a'
unfolding urf_arbitrator_has_devices
authorized_block_example =
    authorized_block table world bus draws (caller (some true)) 1 true (daemon with_card)
      with_card-IsValid refl refl refl (omega arith) (omega arith)

block_all_faults_example :
    handle_method_call table world bus draws (caller (some true)) (block 0 true) (daemon with_card)
    ≡ none
unfolding urf_arbitrator_has_devices
block_all_faults_example =
    block_all_faults table world bus draws (caller (some true)) true (daemon with_card)
      with_card-IsValid refl refl refl

-- 238 is KEY_WLAN.
input_event_cb_lem_example :
    (a' : Arbitrator Table) × (urf_daemon_input_event_cb table world 238 (daemon with_card)
      ≡ some (press 238 (record (daemon with_card) { arbitrator = a' })))
    × IsValid a'
    × Toggled table world 1 (asked (state_of with_card 1)) with_card a'
unfolding key_type
input_event_cb_lem_example =
    input_event_cb_lem table world 238 1 (daemon with_card) with_card-IsValid refl refl refl
      (omega arith) (omega arith)

-- A seat appears, a process asks to be left alone, and its session becomes the active one.
abbrev said : List SessionEvent
said =
    manager_signal "SeatNew" "/seat/2"
    ∷ ask_inhibit (4 ∷ 9 ∷ 5 ∷ 6 ∷ []) ":1.5" "keys"
    ∷ seat_property 0 "ActiveSession" "/session/1"
    ∷ []

said_draws : HasDraws 3 (ask_inhibit (4 ∷ 9 ∷ 5 ∷ 6 ∷ []) ":1.5" "keys")
said_draws = (
  ((λ e. ground arith), ((λ e. ground arith), ((λ e. ground arith), ((λ e. ground arith), tt)))),
  (refl, (refl, (refl, (refl, tt)))),
  omega arith,
)

run-Held_example :
    (c' : SessionChecker) × (logind_run bus said checker ≡ some c')
    × Held 3 (All KeepsSeats said) checker c'
run-Held_example =
    run-Held bus 3 said checker IsLedger-nil (omega arith) (tt, (said_draws, (tt, tt)))
