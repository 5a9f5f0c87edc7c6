-- ===== src/Utils.antt =====
-- src/urf-utils.h and src/urf-utils.c: the states of a switch and the names of the types.
use urfkill.Prelude.{
  ℕ, ◌≡◌, refl, Bool, true, false, Option, none, some, String, ltb, ◌==◌, if◌then◌else◌, str_eq, ℤ,
  pos, negsuc, zero, suc, arith, ◌<◌,
}

pub data KillswitchState : Type 0 where
  no_adapter unblocked soft_blocked hard_blocked : KillswitchState

-- One more than the C value, which starts at -1: the order of the enum is that of the ranks.
abbrev pub rank : KillswitchState → ℕ
rank no_adapter = 0
rank unblocked = 1
rank soft_blocked = 2
rank hard_blocked = 3

-- `a > b` on the enum.
abbrev pub gtb : KillswitchState → KillswitchState → Bool
gtb a b = ltb (rank b) (rank a)

-- `a == b` on the enum.
abbrev pub state_eq : KillswitchState → KillswitchState → Bool
state_eq a b = rank a == rank b

-- A `gboolean` passed where a KillswitchState is expected: FALSE is 0 and TRUE is 1.
abbrev pub of_bool : Bool → KillswitchState
of_bool false = unblocked
of_bool true = soft_blocked

unfoldable pub event_to_state : (soft hard : Bool) → KillswitchState
event_to_state soft hard = if hard then hard_blocked else if soft then soft_blocked else unblocked

-- enum rfkill_type, whose values liburfkill-glib/urf-enum.h repeats.
abbrev pub rfkill_type_all : ℕ
rfkill_type_all = 0

abbrev pub rfkill_type_wlan : ℕ
rfkill_type_wlan = 1

abbrev pub rfkill_type_bluetooth : ℕ
rfkill_type_bluetooth = 2

abbrev pub rfkill_type_uwb : ℕ
rfkill_type_uwb = 3

abbrev pub rfkill_type_wimax : ℕ
rfkill_type_wimax = 4

abbrev pub rfkill_type_wwan : ℕ
rfkill_type_wwan = 5

abbrev pub num_rfkill_types : ℕ
num_rfkill_types = 9

type_name : ℕ → Option String
type_name t =
    if t == 0
    then some "ALL"
    else if t == 1
    then some "WLAN"
    else if t == 2
    then some "BLUETOOTH"
    else if t == 3
    then some "UWB"
    else if t == 4
    then some "WIMAX"
    else if t == 5
    then some "WWAN"
    else if t == 6
    then some "GPS"
    else if t == 7
    then some "FM"
    else if t == 8
    then some "NFC"
    else none

-- `none` is `g_assert_not_reached ()`.
unfoldable pub type_to_string : ℤ → Option String
unfolding type_name
type_to_string (negsuc zero) = some "unknown"
type_to_string (negsuc (suc n)) = none
type_to_string (pos t) = type_name t

-- The type that a name stands for.
type_of_name : String → ℕ
type_of_name s =
    if str_eq s "WLAN"
    then 1
    else if str_eq s "BLUETOOTH"
    then 2
    else if str_eq s "UWB"
    then 3
    else if str_eq s "WIMAX"
    then 4
    else if str_eq s "WWAN"
    then 5
    else if str_eq s "GPS"
    then 6
    else if str_eq s "FM"
    then 7
    else if str_eq s "NFC"
    then 8
    else 0

-- Each type of the kernel has a name, and the name tells which type it is.
type_to_string_cases :
    (t : ℕ)
    → t < num_rfkill_types
    → (name : String) × (type_to_string (pos t) ≡ some name) × (type_of_name name ≡ t)
unfolding type_to_string type_of_name
type_to_string_cases zero h = ("ALL", refl, refl)
type_to_string_cases (suc zero) h = ("WLAN", refl, refl)
type_to_string_cases (suc (suc zero)) h = ("BLUETOOTH", refl, refl)
type_to_string_cases (suc (suc (suc zero))) h = ("UWB", refl, refl)
type_to_string_cases (suc (suc (suc (suc zero)))) h = ("WIMAX", refl, refl)
type_to_string_cases (suc (suc (suc (suc (suc zero))))) h = ("WWAN", refl, refl)
type_to_string_cases (suc (suc (suc (suc (suc (suc zero)))))) h = ("GPS", refl, refl)
type_to_string_cases (suc (suc (suc (suc (suc (suc (suc zero))))))) h = ("FM", refl, refl)
type_to_string_cases (suc (suc (suc (suc (suc (suc (suc (suc zero)))))))) h = ("NFC", refl, refl)
type_to_string_cases (suc (suc (suc (suc (suc (suc (suc (suc (suc t))))))))) h =
    absurd (omega arith)

pub type_to_string_known :
    (t : ℕ) → t < num_rfkill_types → (name : String) × (type_to_string (pos t) ≡ some name)
type_to_string_known t h = let (name, e, _) = type_to_string_cases t h in (name, e)

pub type_to_string_inj :
    (t u : ℕ) {name : String}
    → t < num_rfkill_types
    → u < num_rfkill_types
    → type_to_string (pos t) ≡ some name
    → type_to_string (pos u) ≡ some name
    → t ≡ u
type_to_string_inj t u ht hu et eu =
    let (n, e, i) = type_to_string_cases t ht in
    let (m, f, j) = type_to_string_cases u hu in ground arith
