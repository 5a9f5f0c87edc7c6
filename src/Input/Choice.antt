-- ===== src/Input/Choice.antt =====
-- The keyboard that urf_input_startup of src/urf-input.c watches.
use urfkill.Prelude.{
  ℕ, ◌≡◌, ◌∙◌, refl, ap, sym, Bool, true, false, not, Option, none, some, String, List, [], ◌∷◌,
  ◌>>=◌, if◌then◌else◌, Bool-cases, Option-cases, inl, inr,
}
use urfkill.Input.{
  InputDevice, Input, is_at_keyboard, match_hotkey_device, choose_node, input_dev_open_channel,
  urf_input_startup,
}

-- The first and the last element with a property, and the elements that have it.
abbrev pub find_first {ℓ} : {A : Type ℓ} → (A → Bool) → List A → Option A
find_first test [] = none
find_first test (x ∷ xs) = let rest = find_first test xs in if test x then some x else rest

abbrev pub find_last {ℓ} : {A : Type ℓ} → (A → Bool) → List A → Option A
find_last test [] = none
find_last test (x ∷ xs) = elim (find_last test xs) [
  | none ↦ if test x then some x else none
  | some y ↦ some y
]

-- A device of the platform that has a name is a hotkey device.
abbrev pub is_hotkey : InputDevice → Bool
is_hotkey dev = elim (match_hotkey_device dev) [ none ↦ false | some name ↦ true ]

-- One with a node that is not the AT keyboard is preferred.
abbrev pub is_preferred : InputDevice → Bool
is_preferred dev = elim (match_hotkey_device dev) [
  | none ↦ false
  | some name ↦ elim dev.devnode [ none ↦ false | some node ↦ not (is_at_keyboard name) ]
]

-- The first preferred device, or the last hotkey device if there is none.
abbrev pub best_node : List InputDevice → Option String
best_node devs = elim (find_first is_preferred devs) [
  | none ↦ find_last is_hotkey devs >>= (λ dev. dev.devnode)
  | some dev ↦ dev.devnode
]

choose_step :
    (dev : InputDevice) (devs : List InputDevice) (old : Option String)
    → choose_node (dev ∷ devs) old ≡ (
        if is_preferred dev
        then dev.devnode
        else choose_node devs (if is_hotkey dev then dev.devnode else old))
unfolding choose_node
choose_step dev devs old = elim (Option-cases (match_hotkey_device dev)) [
  | inl e ↦ rw (e, choose_node, is_preferred, is_hotkey) refl
  | inr (name, e) ↦ elim (Option-cases dev.devnode) [
    | inl f ↦ rw (e, f, choose_node, is_preferred, is_hotkey) (ap (choose_node devs) f)
    | inr (n, f) ↦ elim (Bool-cases (is_at_keyboard name)) [
      | inl h ↦ rw (e, f, h, choose_node, is_preferred, is_hotkey) (ap (choose_node devs) f)
      | inr h ↦ rw (e, f, h, choose_node, is_preferred, is_hotkey) refl
    ]
  ]
]

abbrev node_of : Option InputDevice → Option String → Option String
node_of none old = old
node_of (some dev) old = dev.devnode

abbrev best : (preferred last : Option InputDevice) → Option String → Option String
best none last old = node_of last old
best (some dev) last old = dev.devnode

best_step :
    (p h : Bool) (dev : InputDevice) (preferred last : Option InputDevice) (old : Option String)
    → best
        (if p then some dev else preferred)
        (elim last as (λ _. Option InputDevice) [
          | none ↦ if h then some dev else none
          | some d ↦ some d
        ])
        old
      ≡ (if p then dev.devnode else best preferred last (if h then dev.devnode else old))
best_step true h dev preferred last old = refl
best_step false h dev (some d) last old = refl
best_step false h dev none (some d) old = refl
best_step false true dev none none old = refl
best_step false false dev none none old = refl

choose_node_lem :
    (devs : List InputDevice) (old : Option String)
    → choose_node devs old ≡ best (find_first is_preferred devs) (find_last is_hotkey devs) old
unfolding choose_node
choose_node_lem [] old = refl
choose_node_lem (dev ∷ devs) old =
    let later = choose_node_lem devs (if is_hotkey dev then dev.devnode else old) in
    choose_step dev devs old
    ∙ ap (λ x. if is_preferred dev then dev.devnode else x) later
    ∙ sym (
        best_step (is_preferred dev) (is_hotkey dev) dev (find_first is_preferred devs)
          (find_last is_hotkey devs) old)

best-none :
    (preferred last : Option InputDevice)
    → best preferred last none ≡ (elim preferred as (λ _. Option String) [
      | none ↦ last >>= (λ dev. dev.devnode)
      | some dev ↦ dev.devnode
    ])
best-none none none = refl
best-none none (some dev) = refl
best-none (some dev) last = refl

module _ (devices : List InputDevice) (opens : String → Option ℕ) (input : Input) where
  -- The start of the input watches the node of the first hotkey device (one of the platform, with
  -- a name) that has a node and is not the AT keyboard; if there is none, that of the last hotkey
  -- device, and it fails if that has no node or there is no hotkey device. It fails, too, if the
  -- node does not open.
  pub urf_input_startup_lem :
      urf_input_startup (some devices) opens input
      ≡ (elim (best_node devices) as (λ _. Bool × Input) [
        | none ↦ (false, input)
        | some dev_node ↦ input_dev_open_channel opens dev_node input
      ])
  unfolding urf_input_startup
  urf_input_startup_lem =
      ap
        (λ x. elim x as (λ _. Bool × Input) [
          | none ↦ (false, input)
          | some dev_node ↦ input_dev_open_channel opens dev_node input
        ])
        (choose_node_lem devices none
          ∙ best-none (find_first is_preferred devices) (find_last is_hotkey devices))
