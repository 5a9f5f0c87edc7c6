-- ===== src/Daemon/Pressing.antt =====
-- The keys from the keyboard to the radios: input_event_cb of src/urf-input.c emits rf-key-pressed,
-- to which urf_daemon_init of src/urf-daemon.c connects urf_daemon_input_event_cb.
use urfkill.Prelude.{
  ℕ, ◌≡◌, ◌≢◌, refl, ◌∙◌, ap, true, false, Option, some, List, [], ◌∷◌, ◌==◌, ◌&&◌, ◌>>=◌, ◌<◌,
  arith, All, Bool-cases, inl, inr,
}
use urfkill.Utils.{num_rfkill_types}
use urfkill.Store.{Outside}
use urfkill.Config.{KeyFile}
use urfkill.Arbitrator.Invariant.{IsValid}
use urfkill.Input.{InputRead, stopped, whole, is_rf_key, read_keys, input_event_cb}
use urfkill.Daemon.{Daemon, Signal, urfkey_pressed, press, key_type, urf_daemon_input_event_cb}
use urfkill.Daemon.Keys.{input_event_cb_lem}

-- The signals of the keys, the latest first, before those that were sent already.
abbrev pub signalled : List ℕ → List Signal → List Signal
signalled [] sent = sent
signalled (key ∷ keys) sent = signalled keys (urfkey_pressed key ∷ sent)

-- No event of the key KEY_RFKILL.
abbrev pub IsTyped : InputRead → Type 0
IsTyped stopped = Unit
IsTyped (whole event) = event.code ≢ 247

-- A key whose type the daemon has a switch for.
abbrev HasSwitch : ℕ → Type 0
HasSwitch code = (t : ℕ) × (key_type code ≡ some t) × (0 < t) × (t < num_rfkill_types)

rf_key-HasSwitch : (code : ℕ) → is_rf_key code ≡ true → code ≢ 247 → HasSwitch code
unfolding key_type
rf_key-HasSwitch code known typed = elim (Bool-cases (code == 238)) [
  | inl e ↦ (1, rw e refl, omega arith, omega arith)
  | inr e ↦ elim (Bool-cases (code == 237)) [
    | inl f ↦ (2, rw (e, f) refl, omega arith, omega arith)
    | inr f ↦ elim (Bool-cases (code == 239)) [
      | inl g ↦ (3, rw (e, f, g) refl, omega arith, omega arith)
      | inr g ↦ elim (Bool-cases (code == 246)) [
        | inl h ↦ (4, rw (e, f, g, h) refl, omega arith, omega arith)
        | inr h ↦ absurd (ground arith)
      ]
    ]
  ]
]

read_keys-HasSwitch : (reads : List InputRead) → All IsTyped reads → All HasSwitch (read_keys reads)
unfolding read_keys
read_keys-HasSwitch [] h = tt
read_keys-HasSwitch (stopped ∷ reads) h = tt
read_keys-HasSwitch (whole event ∷ reads) h =
    let rest = read_keys-HasSwitch reads h.1 in
    elim (Bool-cases (event.value == 1 && is_rf_key event.code)) [
      | inl e ↦
          let known : is_rf_key event.code ≡ true = ground (arith, e) in
          rw e (rf_key-HasSwitch event.code known h.0, rest)
      | inr e ↦ rw e rest
    ]

module _ {File : Type 0} (kf : KeyFile File) (w : Outside) where
  -- The handler runs for each emission, in their order.
  unfoldable pub press_keys : List ℕ → Daemon File → Option (Daemon File)
  unfolding urf_daemon_input_event_cb
  press_keys [] d = some d
  press_keys (key ∷ keys) d = urf_daemon_input_event_cb kf w key d >>= press_keys keys

  -- What a run of keys leaves.
  abbrev pub Pressed : List ℕ → Daemon File → Daemon File → Type 0
  Pressed keys d d' =
      IsValid d'.arbitrator
      × (d'.signals ≡ signalled keys d.signals)
      × (d'.session_checker ≡ d.session_checker)
      × (d.session_checker.inhibit ≡ true → d'.arbitrator ≡ d.arbitrator)

  press_lem :
      (key : ℕ) (d : Daemon File)
      → IsValid d.arbitrator
      → d.master_key ≡ false
      → HasSwitch key
      → (d' : Daemon File) × (urf_daemon_input_event_cb kf w key d ≡ some d')
        × Pressed (key ∷ []) d d'
        × (d'.master_key ≡ false)
  unfolding urf_daemon_input_event_cb
  press_lem key d v own (t, e, lo, hi) = elim (Bool-cases d.session_checker.inhibit) [
    | inl inhibited ↦ (press key d, rw inhibited refl, (v, refl, refl, λ h. refl), own)
    | inr free ↦
        let (a', done, v', tog) = input_event_cb_lem kf w key t d v free own e lo hi in
        (_, done, (v', refl, refl, λ h. absurd (cc (h, free))), own)
  ]

  press_keys_lem :
      (keys : List ℕ) (d : Daemon File)
      → IsValid d.arbitrator
      → d.master_key ≡ false
      → All HasSwitch keys
      → (d' : Daemon File) × (press_keys keys d ≡ some d') × Pressed keys d d'
  unfolding press_keys
  press_keys_lem [] d v own h = (d, refl, (v, refl, refl, λ i. refl))
  press_keys_lem (key ∷ keys) d v own h =
      let (d1, e1, (v1, s1, c1, a1), own1) = press_lem key d v own h.0 in
      let (d2, e2, (v2, s2, c2, a2)) = press_keys_lem keys d1 v1 own1 h.1 in
      (
        d2,
        rw e1 e2,
        (v2, s2 ∙ ap (signalled keys) s1, c2 ∙ c1, λ i. a2 (ap (λ c. c.inhibit) c1 ∙ i) ∙ a1 i),
      )

  -- What the keyboard sends, as long as it is no KEY_RFKILL, goes through the callback of the
  -- input and the handler of the daemon without a fault, if the option master_key is off and the
  -- arbitrator is well-formed: it stays well-formed, a signal goes out for each of the keys that
  -- the callback emits, in their order, the session checker is as it was, and while the keys are
  -- inhibited so is the arbitrator.
  pub keys_lem :
      (reads : List InputRead) (d : Daemon File)
      → IsValid d.arbitrator
      → d.master_key ≡ false
      → All IsTyped reads
      → (d' : Daemon File) × (press_keys (input_event_cb true reads).1 d ≡ some d')
        × Pressed (read_keys reads) d d'
  unfolding input_event_cb
  keys_lem reads d v own typed =
      press_keys_lem (read_keys reads) d v own (read_keys-HasSwitch reads typed)
