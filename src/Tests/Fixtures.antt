-- ===== src/Tests/Fixtures.antt =====
-- The inputs of the examples: a key file, the world outside, events, sessions and callers.
use urfkill.Prelude.{
  ℕ, ◌≡◌, ◌≢◌, refl, Bool, true, false, Option, none, some, String, List, [], ◌∷◌, str_eq, ◌&&◌,
  if◌then◌else◌, arith, eq_refl, eq_iff, Bool-cases, inl, inr, All, ◌==◌,
}
use urfkill.Store.{Device, kernel, Outside, Store}
use urfkill.Utils.{no_adapter, unblocked}
use urfkill.Killswitch.{Killswitch, urf_killswitch_new}
use urfkill.Config.{KeyFile, Config}
use urfkill.Arbitrator.{Arbitrator, urf_arbitrator_init}
use urfkill.Arbitrator.Events.{Op, add, del, change, RfkillEvent}
use urfkill.Arbitrator.Invariant.{IsValid, init-IsValid, of_type}
use urfkill.Arbitrator.Table.{IsGood, IsKernelEvent, NewIndices, view, paths_of, AllListed}
use urfkill.Arbitrator.{find_from}
use urfkill.Device.Register.{is_exported}
use urfkill.Session.{Bus, SessionChecker, is_inhibited}
use urfkill.Session.Cookies.{IsLedger-nil}
use urfkill.Session.Consistent.{IsConsistent}
use urfkill.Daemon.{Daemon, Caller}

abbrev pub Table : Type 0
Table = String → String → Option Bool

abbrev pub set_key : Table → (group key : String) → Bool → Table
set_key f group key v = λ g k. if str_eq group g && str_eq key k then some v else f g k

pub set_key_other :
    (f : Table) (group key group' key' : String) (v : Bool)
    → group ≢ group'
    → set_key f group key v group' key' ≡ f group' key'
set_key_other f g k g' k' v n = elim (Bool-cases (str_eq g g')) [
  | inl e ↦ absurd (n ((eq_iff g g').0 e))
  | inr e ↦ rw e
]

abbrev pub table : KeyFile Table
table = record {
  new = λ g k. none;
  get_boolean = λ f. f;
  set_boolean = set_key;
  get_boolean-set_boolean = λ f g k v. rw (eq_refl g, eq_refl k) refl;
  get_boolean-set_boolean_ne = set_key_other;
}

abbrev pub world : Outside
world = record {
  accepts = λ out type soft. true;
  emits = λ out. true;
  udev_name = λ i. none;
  udev_platform = λ i. i == 0;
}

abbrev pub config : Config Table
config = record {
  user = none;
  options = record { key_control = true; master_key = false; force_sync = false; persist = false };
  persistence_file = λ g k. none;
}

abbrev pub empty_store : Store
empty_store = record {
  heap = λ p. kernel (record {
    index = 0;
    type = 0;
    name = none;
    soft = false;
    hard = false;
    platform = false;
    connection = false;
  });
  next = 0;
  out = [];
}

abbrev pub start : Arbitrator Table
start = urf_arbitrator_init config false false empty_store

pub start-IsValid : IsValid start
start-IsValid = init-IsValid config false false empty_store

pub start-IsGood : IsGood start
unfolding urf_arbitrator_init
start-IsGood = record { valid = start-IsValid; unique = λ p q m n e. absurd (ground arith) }

-- An arbitrator with one WLAN card.
abbrev pub card : Device
card = kernel (record {
  index = 3;
  type = 1;
  name = none;
  soft = false;
  hard = false;
  platform = false;
  connection = false;
})

abbrev pub wlan_switch : Killswitch
wlan_switch = record { devices = 0 ∷ []; type = 1; saved_state = no_adapter; state = unblocked }

abbrev pub with_card : Arbitrator Table
with_card = record start {
  devices = 0 ∷ [];
  killswitch = λ t. if t == 1 then some wlan_switch else start.killswitch t;
  store = record { heap = λ p. card; next = 1; out = [] };
}

pub with_card-IsValid : IsValid with_card
unfolding urf_arbitrator_init urf_killswitch_new of_type
with_card-IsValid = record {
  no_all = refl;
  switches = λ t lo hi. ground arith;
  distinct = (refl, tt);
  fresh = λ p m. ground arith;
  typed = λ p m. (omega arith, omega arith);
}

abbrev pub event : (idx type : ℕ) → Op → Bool → RfkillEvent
event idx type op hard = record { idx = idx; type = type; op = op; soft = false; hard = hard }

-- A WLAN card and a Bluetooth adapter appear, the first is blocked by hand, the other leaves.
abbrev pub events : List RfkillEvent
events =
    event 0 1 add false ∷ event 1 2 add false ∷ event 0 1 change true ∷ event 1 2 del false ∷ []

pub events-IsKernelEvent : All IsKernelEvent events
events-IsKernelEvent = (
  record { known = λ e. cc; typed = omega arith; radio = λ e. omega arith },
  (
    record { known = λ e. cc; typed = omega arith; radio = λ e. omega arith },
    (
      record { known = λ e. cc; typed = omega arith; radio = λ e. omega arith },
      (record { known = λ e. cc; typed = omega arith; radio = λ e. omega arith }, tt),
    ),
  ),
)

abbrev pub bus : Bus
bus = record {
  process_id = λ name. some 7;
  session_of = λ pid. some "/session/1";
  active_session = λ seat. some "/session/1";
}

abbrev pub checker : SessionChecker
checker = record {
  proxy = true;
  seats = record { object_path = "/seat/1"; active = "/session/1" } ∷ [];
  inhibitors = [];
  inhibit = false;
}

pub checker-IsConsistent : IsConsistent checker
unfolding is_inhibited
checker-IsConsistent = record { inhibit_is = refl; ledger = IsLedger-nil }

abbrev pub caller : Option Bool → Caller
caller answer = record { name = ":1.5"; subject = true; authorization = λ action. answer }

abbrev pub daemon : Arbitrator Table → Daemon Table
daemon a = record {
  arbitrator = a;
  session_checker = checker;
  flight_mode = false;
  master_key = false;
  key_control = true;
  replies = [];
  signals = [];
}

pub start-AllListed : AllListed start
unfolding urf_arbitrator_init is_exported
start-AllListed = λ i e. refl

-- No index comes twice.
pub events-NewIndices : NewIndices events (view start) (paths_of start)
unfolding view urf_arbitrator_init is_exported find_from
events-NewIndices =
    (λ o s e. refl, (λ o s e. refl, (λ o s e. absurd (cc o), (λ o s e. absurd (cc o), tt))))
