-- ===== src/Client/Switches/Kept.antt =====
-- The array of switches over the life of a program that uses the library
-- (liburfkill-glib/urf-killswitch.c).
use urfkill.Prelude.{
  ℕ, ◌+◌, ◌-◌, ◌≡◌, ◌<◌, refl, sym, ◌∙◌, ap, subst, true, false, Option, none, some, String, List,
  [], ◌∷◌, All, ◌==◌, leb, ◌>>=◌, zero, suc, arith, ℤ, Option-cases, Bool-cases, inl, inr, ==-refl,
  if◌then◌else◌, if_either,
}
use native.Mathlib.Decide.{ℕ_discrete}
use urfkill.Utils.{num_rfkill_types}
use urfkill.Killswitch.Registration.{urf_killswitch_register_switch}
use urfkill.Client.{is_absolute}
use urfkill.Client.Switches.{
  Switch, SwitchBus, Switches, int_eq, set_switch, urf_killswitch_init, startup_path,
  urf_killswitch_startup, urf_killswitch_set_object_path_sync, urf_killswitch_new, unref,
  urf_killswitch_changed_cb,
}

-- A switch is asked for, given back, or hears of a state.
pub data SwitchEvent : Type 0 where
  new : SwitchBus → (type : ℕ) → SwitchEvent
  given_back : (type : ℕ) → SwitchEvent
  changed : (type : ℕ) (state : ℤ) → SwitchEvent

unfoldable pub step : SwitchEvent → Switches → Option Switches
step (new bus type) table = do (k, table') ← urf_killswitch_new bus type table; some table'
step (given_back type) table = some (unref type table)
step (changed type state) table = elim (table type) [
  | none ↦ some table
  | some k ↦ some (set_switch type (some (urf_killswitch_changed_cb state k)) table)
]

unfoldable pub run : List SwitchEvent → Switches → Option Switches
unfolding step
run [] table = some table
run (e ∷ es) table = do table' ← step e table; run es table'

-- The object of the array for the type `t`.
pub record IsSwitch (t : ℕ) (k : Switch) : Type 0 where
  pub type : k.type ≡ t
  pub known : 0 < t
  pub below : t < num_rfkill_types
  pub proxy : k.proxy ≡ true
  pub object_path :
      (p : String) × (urf_killswitch_register_switch true true t ≡ some (true, p))
      × (k.object_path ≡ some p)
  pub held : 0 < k.references

abbrev pub IsKept : Switches → Type 0
IsKept table = (t : ℕ) (k : Switch) → table t ≡ some k → IsSwitch t k

-- How often a type is held.
abbrev pub references_of : Option Switch → ℕ
references_of none = 0
references_of (some k) = k.references

-- The same, counted.
abbrev pub count : (t : ℕ) → List SwitchEvent → ℕ → ℕ
count t [] n = n
count t (new bus u ∷ es) n = count t es (if u == t then n + 1 else n)
count t (given_back u ∷ es) n = count t es (if u == t then n - 1 else n)
count t (changed u state ∷ es) n = count t es n

-- What is asked of the bus and the program: a type is one of the enum, and there is a daemon.
abbrev pub IsServed : SwitchEvent → Type 0
IsServed (new bus u) = (u < num_rfkill_types) × ((p : String) → (v : ℤ) × (bus p ≡ some (some v)))
IsServed _ = Unit

-- The library takes the path at which the daemon registers the switch of the type.
startup_path_lem :
    (t : ℕ)
    → 0 < t
    → t < num_rfkill_types
    → (p : String) × (startup_path t ≡ some p)
      × (is_absolute p ≡ true)
      × (urf_killswitch_register_switch true true t ≡ some (true, p))
unfolding startup_path urf_killswitch_register_switch
startup_path_lem zero lo hi = absurd (omega arith)
startup_path_lem (suc zero) lo hi = ("/org/freedesktop/URfkill/WLAN", refl, refl, refl)
startup_path_lem (suc (suc zero)) lo hi = ("/org/freedesktop/URfkill/BLUETOOTH", refl, refl, refl)
startup_path_lem (suc (suc (suc zero))) lo hi = ("/org/freedesktop/URfkill/UWB", refl, refl, refl)
startup_path_lem (suc (suc (suc (suc zero)))) lo hi =
    ("/org/freedesktop/URfkill/WIMAX", refl, refl, refl)
startup_path_lem (suc (suc (suc (suc (suc zero))))) lo hi =
    ("/org/freedesktop/URfkill/WWAN", refl, refl, refl)
startup_path_lem (suc (suc (suc (suc (suc (suc zero)))))) lo hi =
    ("/org/freedesktop/URfkill/GPS", refl, refl, refl)
startup_path_lem (suc (suc (suc (suc (suc (suc (suc zero))))))) lo hi =
    ("/org/freedesktop/URfkill/FM", refl, refl, refl)
startup_path_lem (suc (suc (suc (suc (suc (suc (suc (suc zero)))))))) lo hi =
    ("/org/freedesktop/URfkill/NFC", refl, refl, refl)
startup_path_lem (suc (suc (suc (suc (suc (suc (suc (suc (suc t))))))))) lo hi =
    absurd (omega arith)

set_switch-IsKept :
    (t : ℕ) (o : Option Switch) (table : Switches)
    → IsKept table
    → ((k : Switch) → o ≡ some k → IsSwitch t k)
    → IsKept (set_switch t o table)
set_switch-IsKept t o table v fresh u k h = elim (ℕ_discrete t u) [
  | yes e ↦ subst (λ x. IsSwitch x k) e (fresh k (ground arith))
  | no n ↦ v u k (ground arith)
]

put-IsKept :
    (t : ℕ) (k : Switch) (table : Switches)
    → IsKept table
    → IsSwitch t k
    → IsKept (set_switch t (some k) table)
put-IsKept t k table v h =
    set_switch-IsKept t (some k) table v (λ x same. let e : k ≡ x = cc in subst (IsSwitch t) e h)

-- The references after an update that changes them by `f`.
set_switch-references :
    (t : ℕ) (o : Option Switch) (table : Switches) (f : ℕ → ℕ)
    → references_of o ≡ f (references_of (table t))
    → (u : ℕ)
    → references_of (set_switch t o table u)
      ≡ (if t == u then f (references_of (table u)) else references_of (table u))
set_switch-references t o table f h u = elim (ℕ_discrete t u) [
  | yes e ↦
      subst
        (λ x.
          references_of (set_switch t o table x)
          ≡ (if t == x then f (references_of (table x)) else references_of (table x)))
        e (rw (==-refl t) h)
  | no n ↦ ground arith
]

-- What an event leaves of the array.
record Stepped (e : SwitchEvent) (table table' : Switches) : Type 0 where
  kept : IsKept table'
  counted : (u : ℕ) → 0 < u → references_of (table' u) ≡ count u (e ∷ []) (references_of (table u))

startup_lem :
    (bus : SwitchBus) (t : ℕ)
    → 0 < t
    → t < num_rfkill_types
    → ((p : String) → (v : ℤ) × (bus p ≡ some (some v)))
    → (k : Switch) × (urf_killswitch_startup bus (urf_killswitch_init t) ≡ some (true, k))
      × IsSwitch t k
      × (k.references ≡ 1)
unfolding urf_killswitch_startup urf_killswitch_init
startup_lem bus t lo hi there =
    let (p, path, absolute, same) = startup_path_lem t lo hi in
    let (v, value) = there p in
    (
      record (urf_killswitch_init t) { proxy = true; object_path = some p; state = v },
      rw (path, urf_killswitch_set_object_path_sync) (rw (absolute, value) refl),
      record {
        type = refl;
        known = lo;
        below = hi;
        proxy = refl;
        object_path = (p, same, refl);
        held = omega arith;
      },
      refl,
    )

new-Stepped :
    (bus : SwitchBus) (t : ℕ) (table : Switches)
    → IsServed (new bus t)
    → IsKept table
    → (table' : Switches) × (step (new bus t) table ≡ some table')
      × Stepped (new bus t) table table'
unfolding step urf_killswitch_new
new-Stepped bus zero table s v = (table, refl, record { kept = v; counted = λ u lo. ground arith })
new-Stepped bus (suc t) table s v =
    let proper : (suc t == 0) ≡ false = ground arith in
    let below : leb num_rfkill_types (suc t) ≡ false = ground (arith, s.0) in
    elim (Option-cases (table (suc t))) [
      | inr (k, e) ↦
          let k' : Switch = record k { references = k.references + 1 } in
          let old = v (suc t) k e in
          let held : IsSwitch (suc t) k' = record {
            type = old.type;
            known = old.known;
            below = old.below;
            proxy = old.proxy;
            object_path = old.object_path;
            held = omega arith;
          } in
          (
            set_switch (suc t) (some k') table,
            rw (e, proper, below, urf_killswitch_new) refl,
            record {
              kept = put-IsKept (suc t) k' table v held;
              counted = λ u lo.
                  set_switch-references (suc t) (some k') table (λ n. n + 1)
                    (ap (λ o. references_of o + 1) (sym e)) u;
            },
          )
      | inl e ↦
          let (k, made, fresh, one) = startup_lem bus (suc t) (omega arith) s.0 s.1 in
          (
            set_switch (suc t) (some k) table,
            rw (e, made, proper, below, urf_killswitch_new) refl,
            record {
              kept = put-IsKept (suc t) k table v fresh;
              counted = λ u lo.
                  set_switch-references (suc t) (some k) table (λ n. n + 1)
                    (one ∙ ap (λ o. references_of o + 1) (sym e)) u;
            },
          )
    ]

absent :
    (t u : ℕ) (table : Switches)
    → table t ≡ none
    → references_of (table u)
      ≡ (if t == u then references_of (table u) - 1 else references_of (table u))
absent t u table e = elim (ℕ_discrete t u) [
  | yes same ↦
      let nothing : references_of (table u) ≡ 0 = ap references_of (ap table (sym same) ∙ e) in
      ground arith
  | no n ↦ ground arith
]

unref-Stepped :
    (t : ℕ) (table : Switches) → IsKept table → Stepped (given_back t) table (unref t table)
unfolding unref
unref-Stepped t table v = elim (Option-cases (table t)) [
  | inl e ↦ rw (e, unref) (record { kept = v; counted = λ u lo. absent t u table e })
  | inr (k, e) ↦
      let old = v t k e in
      elim (Bool-cases (leb k.references 1)) [
        | inl last ↦
            rw (e, last, unref)
              (record {
                kept = set_switch-IsKept t none table v (λ x same. cc);
                counted =
                    λ u lo. set_switch-references t none table (λ n. n - 1) (rw e (ground arith)) u;
              })
        | inr more ↦
            let k' : Switch = record k { references = k.references - 1 } in
            rw (e, more, unref)
              (record {
                kept = put-IsKept t k' table v (record {
                  type = old.type;
                  known = old.known;
                  below = old.below;
                  proxy = old.proxy;
                  object_path = old.object_path;
                  held = ground arith;
                });
                counted = λ u lo.
                    set_switch-references t (some k') table (λ n. n - 1)
                      (ap (λ o. references_of o - 1) (sym e)) u;
              })
      ]
]

changed-Stepped :
    (t : ℕ) (state : ℤ) (table : Switches)
    → IsKept table
    → (table' : Switches) × (step (changed t state) table ≡ some table')
      × Stepped (changed t state) table table'
unfolding step urf_killswitch_changed_cb
changed-Stepped t state table v = elim (Option-cases (table t)) [
  | inl e ↦ (table, rw (e, step) refl, record { kept = v; counted = λ u lo. refl })
  | inr (k, e) ↦
      let k' = urf_killswitch_changed_cb state k in
      let old = v t k e in
      (
        set_switch t (some k') table,
        rw (e, step) refl,
        record {
          kept = put-IsKept t k' table v (
              if_either (IsSwitch t) (int_eq k.state state) old (record {
                type = old.type;
                known = old.known;
                below = old.below;
                proxy = old.proxy;
                object_path = old.object_path;
                held = old.held;
              }));
          counted = λ u lo.
              set_switch-references t (some k') table (λ n. n)
                (if_either (λ (x : Switch). x.references ≡ references_of (table t))
                  (int_eq k.state state) (ap references_of (sym e)) (ap references_of (sym e)))
                u
              ∙ if_either (λ n. n ≡ references_of (table u)) (t == u) refl refl;
        },
      )
]

step-Stepped :
    (e : SwitchEvent) (table : Switches)
    → IsServed e
    → IsKept table
    → (table' : Switches) × (step e table ≡ some table') × Stepped e table table'
unfolding step
step-Stepped (new bus t) table s v = new-Stepped bus t table s v
step-Stepped (given_back t) table s v = (unref t table, refl, unref-Stepped t table v)
step-Stepped (changed t state) table s v = changed-Stepped t state table v

-- What a history leaves.
pub record Kept (es : List SwitchEvent) (table table' : Switches) : Type 0 where
  pub kept : IsKept table'
  pub counted : (u : ℕ) → 0 < u → references_of (table' u) ≡ count u es (references_of (table u))

count-cons :
    (u : ℕ) (e : SwitchEvent) (es : List SwitchEvent) (n : ℕ)
    → count u es (count u (e ∷ []) n) ≡ count u (e ∷ es) n
count-cons u (new bus t) es n = refl
count-cons u (given_back t) es n = refl
count-cons u (changed t state) es n = refl

-- Whatever a program does with the switches of the library, asking for those of known types while
-- the daemon has registered them, giving them back and hearing of states, it meets no fault. Each
-- object in the array has the type of its place, between 1 and 8, a proxy, at least one reference,
-- and the path at which the daemon registers the switch of that type; and a type is held as often
-- as it was asked for and not given back since.
pub run-Kept :
    (es : List SwitchEvent) (table : Switches)
    → All IsServed es
    → IsKept table
    → (table' : Switches) × (run es table ≡ some table') × Kept es table table'
unfolding run
run-Kept [] table s v = (table, refl, record { kept = v; counted = λ u lo. refl })
run-Kept (e ∷ es) table s v =
    let (table1, done, st) = step-Stepped e table s.0 v in
    let (table2, rest, k) = run-Kept es table1 s.1 st.kept in
    (
      table2,
      rw done rest,
      record {
        kept = k.kept;
        counted = λ u lo.
            k.counted u lo
            ∙ ap (count u es) (st.counted u lo)
            ∙ count-cons u e es (references_of (table u));
      },
    )
