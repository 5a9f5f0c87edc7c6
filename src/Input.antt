-- ===== src/Input.antt =====
-- src/urf-input.c: the keyboard that the daemon watches, and the keys that it takes from it.
pub mod Choice
use urfkill.Prelude.{
  ℕ, Bool, true, false, Option, none, some, String, List, [], ◌∷◌, str_eq, ◌==◌, ◌&&◌, ◌||◌, ◌>>=◌,
  if◌then◌else◌,
}

-- struct input_event of linux/input.h.
pub record InputEvent : Type 0 where
  pub value : ℕ
  pub code : ℕ

-- One call of g_io_channel_read_chars: a whole event, or a status or a number of bytes that ends the
-- loop. The list of the calls of one run of the callback may be longer than the loop is.
pub data InputRead : Type 0 where
  stopped : InputRead
  whole : InputEvent → InputRead

-- A device that udev lists: its parents in the subsystems "platform" and "input" (the latter with its
-- attribute "name"), and its device node.
pub record InputDevice : Type 0 where
  pub platform_parent : Bool
  pub input_parent : Option (Option String)
  pub devnode : Option String

-- struct UrfInputPrivate: fd is none for -1, and `channel` is the node that is watched.
pub record Input : Type 0 where
  pub fd : Option ℕ
  pub channel : Option String

-- KEY_WLAN, KEY_BLUETOOTH, KEY_UWB, KEY_WIMAX and KEY_RFKILL.
abbrev pub is_rf_key : ℕ → Bool
is_rf_key code = code == 238 || code == 237 || code == 239 || code == 246 || code == 247

-- The loop of input_event_cb: the codes that it emits with the signal rf-key-pressed. KEY_PRESS is 1.
unfoldable pub read_keys : List InputRead → List ℕ
read_keys [] = []
read_keys (stopped ∷ reads) = []
read_keys (whole event ∷ reads) =
    let rest = read_keys reads in
    if event.value == 1 && is_rf_key event.code then event.code ∷ rest else rest

-- `readable` is G_IO_IN. The result is whether the watch stays, and the signals.
unfoldable pub input_event_cb : (readable : Bool) → List InputRead → Bool × List ℕ
unfolding read_keys
input_event_cb readable reads = if readable then (true, read_keys reads) else (false, [])

unfoldable pub match_hotkey_device : InputDevice → Option String
match_hotkey_device dev = if dev.platform_parent then dev.input_parent >>= (λ name. name) else none

abbrev pub is_at_keyboard : String → Bool
is_at_keyboard dev_name = str_eq dev_name "AT Translated Set 2 keyboard"

-- The loop over the devices of udev.
unfoldable pub choose_node : List InputDevice → (dev_node : Option String) → Option String
unfolding match_hotkey_device
choose_node [] dev_node = dev_node
choose_node (dev ∷ devs) dev_node =
    let skipped = choose_node devs dev_node in
    let further = choose_node devs dev.devnode in
    elim (match_hotkey_device dev) as (λ _. Option String) [
      | none ↦ skipped
      | some dev_name ↦ elim dev.devnode as (λ _. Option String) [
        | none ↦ further
        | some node ↦ if is_at_keyboard dev_name then further else some node
      ]
    ]

-- `opens` is open (): the descriptor, or none where it is negative.
unfoldable pub input_dev_open_channel : (opens : String → Option ℕ) → String → Input → Bool × Input
input_dev_open_channel opens dev_node input = elim (opens dev_node) [
  | none ↦ (false, input)
  | some fd ↦ (true, record { fd = some fd; channel = some dev_node })
]

-- `devices` is none if udev cannot be set up.
unfoldable pub urf_input_startup :
    (devices : Option (List InputDevice)) (opens : String → Option ℕ) → Input → Bool × Input
unfolding choose_node input_dev_open_channel
urf_input_startup none opens input = (false, input)
urf_input_startup (some devices) opens input = elim (choose_node devices none) [
  | none ↦ (false, input)
  | some dev_node ↦ input_dev_open_channel opens dev_node input
]

abbrev pub urf_input_init : Input
urf_input_init = record { fd = none; channel = none }
