-- ===== src/Session.antt =====
-- src/urf-session-checker-consolekit.c with src/urf-seat-consolekit.c: the sessions that ask the
-- daemon to leave the keys alone, and the seats whose active session counts.
pub mod Cookies
pub mod Consistent
pub mod Draws
pub mod Logind
pub mod History
pub mod Consolekit
pub mod Absent
use urfkill.Prelude.{
  ℕ, zero, suc, Bool, true, false, not, Option, none, some, String, List, [], ◌∷◌, str_eq, ◌==◌,
  ◌&&◌, ◌>>=◌, if◌then◌else◌,
}

-- UrfInhibitor
pub record Inhibitor : Type 0 where
  pub cookie : ℕ
  pub session_id : String
  pub bus_name : String
  pub reason : String

-- struct UrfSeatPrivate of a seat that was synchronised.
pub record Seat : Type 0 where
  pub object_path : String
  pub active : String

-- struct UrfConsolekitPrivate. `proxy` tells whether the pointer is not NULL.
pub record SessionChecker : Type 0 where
  pub proxy : Bool
  pub seats : List Seat
  pub inhibitors : List Inhibitor
  pub inhibit : Bool

-- The answers of the bus and of ConsoleKit: the process behind a bus name, the session of a
-- process, and the active session of a seat. none is an error.
pub record Bus : Type 0 where
  pub process_id : String → Option ℕ
  pub session_of : ℕ → Option String
  pub active_session : String → Option String

abbrev pub urf_session_checker_is_inhibited : SessionChecker → Bool
urf_session_checker_is_inhibited c = c.inhibit

find_seat_from : String → List Seat → Option Seat
find_seat_from object_path [] = none
find_seat_from object_path (seat ∷ seats) =
    if str_eq seat.object_path object_path then some seat else find_seat_from object_path seats

unfoldable pub urf_session_checker_find_seat : SessionChecker → String → Option Seat
unfolding find_seat_from
urf_session_checker_find_seat c object_path = find_seat_from object_path c.seats

unfoldable pub find_inhibitor_by_sid : String → List Inhibitor → Option Inhibitor
find_inhibitor_by_sid session_id [] = none
find_inhibitor_by_sid session_id (h ∷ hs) =
    if str_eq h.session_id session_id then some h else find_inhibitor_by_sid session_id hs

unfoldable pub find_inhibitor_by_bus_name : String → List Inhibitor → Option Inhibitor
find_inhibitor_by_bus_name bus_name [] = none
find_inhibitor_by_bus_name bus_name (h ∷ hs) =
    if str_eq h.bus_name bus_name then some h else find_inhibitor_by_bus_name bus_name hs

-- The loop of find_inhibitor_by_cookie.
unfoldable pub find_cookie : ℕ → List Inhibitor → Option Inhibitor
find_cookie cookie [] = none
find_cookie cookie (h ∷ hs) = if h.cookie == cookie then some h else find_cookie cookie hs

unfoldable pub find_inhibitor_by_cookie : ℕ → List Inhibitor → Option Inhibitor
unfolding find_cookie
find_inhibitor_by_cookie cookie hs = if cookie == 0 then none else find_cookie cookie hs

unfoldable pub is_inhibited : List Seat → List Inhibitor → Bool
unfolding find_inhibitor_by_sid
is_inhibited [] hs = false
is_inhibited (seat ∷ seats) hs = elim (find_inhibitor_by_sid seat.active hs) [
  | none ↦ is_inhibited seats hs
  | some h ↦ true
]

-- The store to priv->inhibit of every handler that changes it.
abbrev pub recompute : SessionChecker → SessionChecker
recompute c = record c { inhibit = is_inhibited c.seats c.inhibitors }

unfoldable pub get_session_id : Bus → String → Option String
get_session_id bus bus_name = do calling_pid ← bus.process_id bus_name; bus.session_of calling_pid

-- `draws` is what g_random_int_range gives, one call after the other; none stands for a loop that
-- has used all of them.
unfoldable pub generate_unique_cookie : List Inhibitor → (draws : List ℕ) → Option ℕ
unfolding find_inhibitor_by_cookie
generate_unique_cookie hs [] = none
generate_unique_cookie hs (cookie ∷ draws) =
    let next = generate_unique_cookie hs draws in
    elim (find_inhibitor_by_cookie cookie hs) [ none ↦ some cookie | some h ↦ next ]

-- The part of urf_session_checker_inhibit for a session that is new.
unfoldable pub new_inhibitor :
    List ℕ → (session_id bus_name reason : String) → SessionChecker → Option (ℕ × SessionChecker)
unfolding generate_unique_cookie
new_inhibitor draws session_id bus_name reason c = do
  cookie ← generate_unique_cookie c.inhibitors draws
  let h : Inhibitor = record {
    cookie = cookie;
    session_id = session_id;
    bus_name = bus_name;
    reason = reason;
  }
  some (cookie, recompute (record c { inhibitors = h ∷ c.inhibitors }))

unfoldable pub urf_session_checker_inhibit :
    Bus → List ℕ → (bus_name reason : String) → SessionChecker → Option (ℕ × SessionChecker)
unfolding find_inhibitor_by_bus_name get_session_id new_inhibitor
urf_session_checker_inhibit bus draws bus_name reason c =
    let fresh : Option (ℕ × SessionChecker) = elim (get_session_id bus bus_name) [
      | none ↦ some (0, c)
      | some session_id ↦ new_inhibitor draws session_id bus_name reason c
    ] in
    let found : Option (ℕ × SessionChecker) =
      elim (find_inhibitor_by_bus_name bus_name c.inhibitors) [
        | none ↦ fresh
        | some h ↦ some (h.cookie, c)
      ] in
    if c.proxy then found else some (0, c)

-- g_list_remove of an inhibitor that a search has found: the first that the search accepts.
unfoldable pub remove_first : (Inhibitor → Bool) → List Inhibitor → List Inhibitor
remove_first found [] = []
remove_first found (h ∷ hs) = if found h then hs else h ∷ remove_first found hs

unfoldable pub remove_inhibitor : (Inhibitor → Bool) → SessionChecker → SessionChecker
unfolding remove_first
remove_inhibitor found c =
    if c.proxy then recompute (record c { inhibitors = remove_first found c.inhibitors }) else c

unfoldable pub urf_session_checker_uninhibit : ℕ → SessionChecker → SessionChecker
unfolding find_inhibitor_by_cookie remove_inhibitor
urf_session_checker_uninhibit cookie c = elim (find_inhibitor_by_cookie cookie c.inhibitors) [
  | none ↦ c
  | some h ↦ remove_inhibitor (λ i. i.cookie == cookie) c
]

-- A process that has left the bus takes its inhibitor with it.
unfoldable pub urf_session_checker_bus_owner_changed :
    (old_owner new_owner : String) → SessionChecker → SessionChecker
unfolding find_inhibitor_by_bus_name remove_inhibitor
urf_session_checker_bus_owner_changed old_owner new_owner c =
    let left : SessionChecker = elim (find_inhibitor_by_bus_name old_owner c.inhibitors) [
      | none ↦ c
      | some h ↦ remove_inhibitor (λ i. str_eq i.bus_name old_owner) c
    ] in
    if str_eq new_owner "" && not (str_eq old_owner "") then left else c

-- urf_seat_object_path_sync, for a proxy that is made: g_error ends the program otherwise.
unfoldable pub urf_seat_object_path_sync : Bus → String → Option Seat
urf_seat_object_path_sync bus object_path = do
  session ← bus.active_session object_path
  some (record { object_path = object_path; active = session })

unfoldable pub urf_session_checker_add_seat : Bus → String → SessionChecker → SessionChecker
unfolding urf_seat_object_path_sync
urf_session_checker_add_seat bus object_path c = elim (urf_seat_object_path_sync bus object_path) [
  | none ↦ c
  | some seat ↦ record c { seats = seat ∷ c.seats }
]

unfoldable pub urf_session_checker_seat_added : Bus → String → SessionChecker → SessionChecker
unfolding urf_session_checker_find_seat urf_session_checker_add_seat
urf_session_checker_seat_added bus object_path c =
    elim (urf_session_checker_find_seat c object_path) [
      | none ↦ urf_session_checker_add_seat bus object_path c
      | some seat ↦ c
    ]

unfoldable pub remove_seat : String → List Seat → List Seat
remove_seat object_path [] = []
remove_seat object_path (seat ∷ seats) =
    if str_eq seat.object_path object_path then seats else seat ∷ remove_seat object_path seats

unfoldable pub urf_session_checker_seat_removed : String → SessionChecker → SessionChecker
unfolding urf_session_checker_find_seat remove_seat
urf_session_checker_seat_removed object_path c =
    elim (urf_session_checker_find_seat c object_path) [
      | none ↦ c
      | some seat ↦ record c { seats = remove_seat object_path c.seats }
    ]

-- urf_seat_proxy_signal_cb on "ActiveSessionChanged", for the seat at a place of the list.
unfoldable pub change_active : ℕ → String → List Seat → List Seat
change_active n session_id [] = []
change_active zero session_id (seat ∷ seats) = record seat { active = session_id } ∷ seats
change_active (suc n) session_id (seat ∷ seats) = seat ∷ change_active n session_id seats

-- ... and the handler of "active-changed" that it runs.
unfoldable pub urf_session_checker_seat_active_changed :
    ℕ → String → SessionChecker → SessionChecker
unfolding change_active
urf_session_checker_seat_active_changed n session_id c =
    recompute (record c { seats = change_active n session_id c.seats })

-- The loop of urf_session_checker_get_seats over the seats that ConsoleKit has.
unfoldable pub urf_session_checker_get_seats : Bus → List String → SessionChecker → SessionChecker
unfolding urf_session_checker_add_seat
urf_session_checker_get_seats bus [] c = c
urf_session_checker_get_seats bus (name ∷ names) c =
    urf_session_checker_get_seats bus names (urf_session_checker_add_seat bus name c)

-- urf_session_checker_init
abbrev pub urf_session_checker_init : SessionChecker
urf_session_checker_init = record { proxy = false; seats = []; inhibitors = []; inhibit = false }

-- urf_session_checker_startup. `connects` and `connects_bus` tell whether the two proxies can be
-- made: g_error ends the program otherwise. `names` is what GetSeats answers; none is an error.
unfoldable pub urf_session_checker_startup :
    (connects connects_bus : Bool)
    → Bus
    → (names : Option (List String)) → SessionChecker
    → Option (Bool × SessionChecker)
unfolding urf_session_checker_get_seats
urf_session_checker_startup true true bus none c = some (false, record c { proxy = true })
urf_session_checker_startup true true bus (some names) c =
    some (true, urf_session_checker_get_seats bus names (record c { proxy = true }))
urf_session_checker_startup _ _ bus names c = none
