-- ===== src/Session/Logind.antt =====
-- src/urf-session-checker-logind.c with src/urf-seat-logind.c. The inhibitors, the cookies and the
-- list of seats are, word for word, those of ConsoleKit, and so are the definitions here; logind
-- has its own signals, its own questions (GetSessionByPID and ListSeats, whose answers the record
-- Bus gives) and its own way to tell the active session of a seat.
use urfkill.Prelude.{ℕ, Bool, Option, some, String, List, [], ◌∷◌, str_eq, ◌>>=◌, if◌then◌else◌}
use urfkill.Session.{
  Bus, Seat, SessionChecker, urf_session_checker_inhibit, urf_session_checker_uninhibit,
  urf_session_checker_bus_owner_changed, urf_session_checker_seat_added,
  urf_session_checker_seat_removed, urf_session_checker_seat_active_changed,
  urf_session_checker_startup, urf_seat_object_path_sync,
}

-- What a checker hears: the two methods of the daemon, the signals of logind and of the bus, and
-- the changes of the properties of the seat at a place of the list. `property` is what the handler
-- takes for the name of the property.
pub data SessionEvent : Type 0 where
  ask_inhibit : (draws : List ℕ) (bus_name reason : String) → SessionEvent
  ask_uninhibit : (cookie : ℕ) → SessionEvent
  manager_signal : (signal_name seat_path : String) → SessionEvent
  bus_signal : (signal_name old_owner new_owner : String) → SessionEvent
  seat_property : (seat : ℕ) (property session_path : String) → SessionEvent

-- The active session is the cached property ActiveSession; none is a property that is not there.
unfoldable pub logind_seat_object_path_sync : Bus → String → Option Seat
unfolding urf_seat_object_path_sync
logind_seat_object_path_sync bus object_path = urf_seat_object_path_sync bus object_path

unfoldable pub logind_inhibit :
    Bus → List ℕ → (bus_name reason : String) → SessionChecker → Option (ℕ × SessionChecker)
unfolding urf_session_checker_inhibit
logind_inhibit bus draws bus_name reason c = urf_session_checker_inhibit bus draws bus_name reason c

unfoldable pub logind_uninhibit : ℕ → SessionChecker → SessionChecker
unfolding urf_session_checker_uninhibit
logind_uninhibit cookie c = urf_session_checker_uninhibit cookie c

-- urf_session_checker_proxy_signal_cb
unfoldable pub logind_proxy_signal_cb :
    Bus → (signal_name seat_path : String) → SessionChecker → SessionChecker
unfolding urf_session_checker_seat_added urf_session_checker_seat_removed
logind_proxy_signal_cb bus signal_name seat_path c =
    if str_eq signal_name "SeatNew"
    then urf_session_checker_seat_added bus seat_path c
    else if str_eq signal_name "SeatRemoved"
    then urf_session_checker_seat_removed seat_path c
    else c

-- urf_session_checker_bus_proxy_signal_cb
unfoldable pub logind_bus_proxy_signal_cb :
    (signal_name old_owner new_owner : String) → SessionChecker → SessionChecker
unfolding urf_session_checker_bus_owner_changed
logind_bus_proxy_signal_cb signal_name old_owner new_owner c =
    if str_eq signal_name "NameOwnerChanged"
    then urf_session_checker_bus_owner_changed old_owner new_owner c
    else c

-- urf_seat_proxy_properties_changed, with the handler of "active-changed" that it runs.
unfoldable pub urf_seat_proxy_properties_changed :
    (seat : ℕ) (property session_path : String) → SessionChecker → SessionChecker
unfolding urf_session_checker_seat_active_changed
urf_seat_proxy_properties_changed seat property session_path c =
    if str_eq property "ActiveSession"
    then urf_session_checker_seat_active_changed seat session_path c
    else c

unfoldable pub logind_startup :
    (connects connects_bus : Bool)
    → Bus
    → (names : Option (List String)) → SessionChecker
    → Option (Bool × SessionChecker)
unfolding urf_session_checker_startup
logind_startup connects connects_bus bus names c =
    urf_session_checker_startup connects connects_bus bus names c

unfoldable pub logind_step : Bus → SessionEvent → SessionChecker → Option SessionChecker
unfolding logind_inhibit logind_uninhibit logind_proxy_signal_cb logind_bus_proxy_signal_cb
    urf_seat_proxy_properties_changed
logind_step bus (ask_inhibit draws bus_name reason) c =
    logind_inhibit bus draws bus_name reason c >>= (λ x. some x.1)
logind_step bus (ask_uninhibit cookie) c = some (logind_uninhibit cookie c)
logind_step bus (manager_signal name path) c = some (logind_proxy_signal_cb bus name path c)
logind_step bus (bus_signal name old_owner new_owner) c =
    some (logind_bus_proxy_signal_cb name old_owner new_owner c)
logind_step bus (seat_property seat property path) c =
    some (urf_seat_proxy_properties_changed seat property path c)

unfoldable pub logind_run : Bus → List SessionEvent → SessionChecker → Option SessionChecker
unfolding logind_step
logind_run bus [] c = some c
logind_run bus (e ∷ es) c = logind_step bus e c >>= logind_run bus es
