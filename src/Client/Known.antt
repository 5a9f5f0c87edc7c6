-- ===== src/Client/Known.antt =====
-- Which devices the client knows after what the daemon said (liburfkill-glib/urf-client.c).
use urfkill.Prelude.{
  ◌≡◌, refl, sym, ◌∙◌, ap, Bool, true, false, not, String, List, [], ◌∷◌, str_eq, ◌&&◌, ◌||◌,
  if◌then◌else◌, All, Option-cases, inl, inr, subst,
}
use urfkill.Config.Rules.{opt_eq}
use urfkill.Client.{
  Remote, DaemonSignal, added, removed, changed, urfkey_pressed, Client, find_remote,
  urf_client_find_device, urf_client_add, urf_client_device_added, urf_client_device_removed,
  urf_client_device_changed, urf_client_proxy_signal_cb, hear_signals,
}
use urfkill.Client.Paths.{
  has_path, IsUnique, IsReachable, find_remote-none, find_remote-some, has_path-append, new_path,
  has_path-remove, IsUnique-remove, IsUnique-append, or_last, still_known, never_known,
}

-- Whether a path is there after the signals: the last that adds or removes it says so.
abbrev pub last_word : String → List DaemonSignal → Bool → Bool
last_word path [] known = known
last_word path (added p ∷ ss) known = last_word path ss (known || str_eq p path)
last_word path (removed p ∷ ss) known = last_word path ss (not (str_eq p path) && known)
last_word path (changed p ∷ ss) known = last_word path ss known
last_word path (urfkey_pressed k ∷ ss) known = last_word path ss known

abbrev pub Reaches : Remote → DaemonSignal → Type 0
Reaches remote (added path) = IsReachable remote path
Reaches remote _ = Unit

-- What a client that has enumerated keeps, and what it knows after.
pub record Knows (known : String → Bool) (c' : Client) : Type 0 where
  pub enumerated : c'.is_enumerated ≡ true
  pub unique : IsUnique c'.devices
  pub knows : (path : String) → has_path path c'.devices ≡ known path

added_lem :
    (remote : Remote) (p : String) (c : Client)
    → IsUnique c.devices
    → c.is_enumerated ≡ true
    → IsReachable remote p
    → Knows (λ path. has_path path c.devices || str_eq p path) (urf_client_device_added remote p c)
unfolding urf_client_device_added urf_client_find_device urf_client_add
added_lem remote p c u on r = elim (Option-cases (find_remote c.devices p)) [
  | inr (d, e) ↦
      rw (e, urf_client_device_added)
        (record {
          enumerated = on;
          unique = u;
          knows = λ path. still_known p path c.devices (find_remote-some c.devices p d e);
        })
  | inl e ↦
      let new = new_path remote p r in
      let absent = find_remote-none c.devices p e in
      rw (e, urf_client_device_added)
        (record {
          enumerated = on;
          unique = IsUnique-append _ p c.devices new absent u;
          knows = λ path.
              has_path-append path c.devices (_ ∷ [])
              ∙ ap (λ o. has_path path c.devices || (opt_eq o path || false)) new
              ∙ or_last (has_path path c.devices) (str_eq p path);
        })
]

removed_lem :
    (p : String) (c : Client)
    → IsUnique c.devices
    → c.is_enumerated ≡ true
    → Knows (λ path. not (str_eq p path) && has_path path c.devices) (urf_client_device_removed p c)
unfolding urf_client_device_removed urf_client_find_device
removed_lem p c u on = elim (Option-cases (find_remote c.devices p)) [
  | inl e ↦
      rw (e, urf_client_device_removed)
        (record {
          enumerated = on;
          unique = u;
          knows = λ path. never_known p path c.devices (find_remote-none c.devices p e);
        })
  | inr (d, e) ↦
      rw (e, urf_client_device_removed)
        (record {
          enumerated = on;
          unique = IsUnique-remove p c.devices u;
          knows = λ path. has_path-remove p path c.devices u;
        })
]

changed_lem :
    (p : String) (c : Client)
    → IsUnique c.devices
    → c.is_enumerated ≡ true
    → Knows (λ path. has_path path c.devices) (urf_client_device_changed p c)
unfolding urf_client_device_changed urf_client_find_device
changed_lem p c u on = elim (Option-cases (find_remote c.devices p)) [
  | inl e ↦
      rw (e, urf_client_device_changed)
        (record { enumerated = on; unique = u; knows = λ path. refl })
  | inr (d, e) ↦
      rw (e, urf_client_device_changed)
        (record { enumerated = on; unique = u; knows = λ path. refl })
]

signal_lem :
    (remote : Remote) (s : DaemonSignal) (c : Client)
    → IsUnique c.devices
    → c.is_enumerated ≡ true
    → Reaches remote s
    → Knows
        (λ path. last_word path (s ∷ []) (has_path path c.devices))
        (urf_client_proxy_signal_cb remote s c)
unfolding urf_client_proxy_signal_cb
signal_lem remote (added p) c u on r =
    subst
      (λ b.
        Knows (λ path. has_path path c.devices || str_eq p path)
          (if b then urf_client_device_added remote p c else c))
      (sym on) (added_lem remote p c u on r)
signal_lem remote (removed p) c u on r =
    subst
      (λ b.
        Knows (λ path. not (str_eq p path) && has_path path c.devices)
          (if b then urf_client_device_removed p c else c))
      (sym on) (removed_lem p c u on)
signal_lem remote (changed p) c u on r =
    subst
      (λ b.
        Knows (λ path. has_path path c.devices) (if b then urf_client_device_changed p c else c))
      (sym on) (changed_lem p c u on)
signal_lem remote (urfkey_pressed k) c u on r = record {
  enumerated = on;
  unique = u;
  knows = λ path. refl;
}

last_word-cons :
    (path : String) (s : DaemonSignal) (ss : List DaemonSignal) (b : Bool)
    → last_word path (s ∷ ss) b ≡ last_word path ss (last_word path (s ∷ []) b)
last_word-cons path (added p) ss b = refl
last_word-cons path (removed p) ss b = refl
last_word-cons path (changed p) ss b = refl
last_word-cons path (urfkey_pressed k) ss b = refl

-- A client that has enumerated the devices, no two of them with one path, hears any list of
-- signals of the daemon, each added path being one that the bus has an object for. After them it
-- has no two devices with one path, and it has a device with a path exactly if the last signal
-- that adds or removes the path adds it, or if there is none and it had one before.
pub hear_signals_lem :
    (remote : Remote) (ss : List DaemonSignal) (c : Client)
    → IsUnique c.devices
    → c.is_enumerated ≡ true
    → All (Reaches remote) ss
    → Knows (λ path. last_word path ss (has_path path c.devices)) (hear_signals remote ss c)
unfolding hear_signals
hear_signals_lem remote [] c u on r = record { enumerated = on; unique = u; knows = λ path. refl }
hear_signals_lem remote (s ∷ ss) c u on r =
    let k = signal_lem remote s c u on r.0 in
    let rest =
      hear_signals_lem remote ss (urf_client_proxy_signal_cb remote s c) k.unique k.enumerated
        r.1 in
    record {
      enumerated = rest.enumerated;
      unique = rest.unique;
      knows = λ path.
          rest.knows path
          ∙ ap (last_word path ss) (k.knows path)
          ∙ sym (last_word-cons path s ss (has_path path c.devices));
    }
