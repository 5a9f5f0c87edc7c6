-- ===== src/OfonoManager/Refine.antt =====
-- What oFono says, and the modems that the daemon has then (src/urf-ofono-manager.c).
use urfkill.Prelude.{
  ℕ, ◌+◌, ◌^◌, ◌≡◌, ◌<◌, refl, sym, ◌∙◌, ap, true, false, Option, none, some, String, List, [], ◌∷◌,
  ◌++◌, map, str_eq, length, if◌then◌else◌, arith, Bool-cases, inl, inr, append-nil, append_assoc,
}
use urfkill.Store.{Outside}
use urfkill.Config.{KeyFile}
use urfkill.OfonoManager.{
  OfonoManager, OfonoEvent, signal, modems, add_modems, ofono_get_modems_cb, ofono_signal_cb,
  hear_ofono, hear_all,
}
use urfkill.OfonoManager.Modems.{
  forget_path, modem_paths, IsManaged, Stepped, remove_modem_lem, add_modem_lem,
}

-- The paths of the modems, as the words of oFono change them.
abbrev pub paths_after : OfonoEvent → List (Option String) → List (Option String)
paths_after (signal name object_path) paths =
    if str_eq name "ModemAdded"
    then paths ++ some object_path ∷ []
    else if str_eq name "ModemRemoved"
    then forget_path object_path paths
    else paths
paths_after (modems none) paths = paths
paths_after (modems (some more)) paths = paths ++ map some more

unfoldable pub paths_after_all : List OfonoEvent → List (Option String) → List (Option String)
paths_after_all [] paths = paths
paths_after_all (e ∷ es) paths = paths_after_all es (paths_after e paths)

-- How many modems an event announces at most.
abbrev pub announced : OfonoEvent → ℕ
announced (signal name object_path) = 1
announced (modems none) = 0
announced (modems (some more)) = length more

abbrev pub announced_all : List OfonoEvent → ℕ
announced_all [] = 0
announced_all (e ∷ es) = announced e + announced_all es

module _ {File : Type 0} (kf : KeyFile File) (w : Outside) where
  add_modems_lem :
      (paths : List String) (m : OfonoManager File)
      → IsManaged m
      → m.modem_idx + length paths < 2 ^ 31
      → (m' : OfonoManager File) × (add_modems kf w paths m ≡ some m')
        × Stepped (length paths) (modem_paths m ++ map some paths) m m'
  unfolding add_modems
  add_modems_lem [] m h bound = (
    m,
    refl,
    record {
      managed = h;
      paths_are = sym (append-nil (modem_paths m));
      count = omega arith;
      proxy_is = refl;
    },
  )
  add_modems_lem (path ∷ paths) m h bound =
      let (m1, e1, s1) = add_modem_lem kf w m path h (omega arith) in
      let (m2, e2, s2) = add_modems_lem paths m1 s1.managed (omega (arith, s1.count)) in
      (
        m2,
        rw e1 e2,
        record {
          managed = s2.managed;
          paths_are =
              s2.paths_are
              ∙ ap (λ ps. ps ++ map some paths) s1.paths_are
              ∙ append_assoc (modem_paths m) (some path ∷ []) (map some paths);
          count = omega (arith, s1.count, s2.count);
          proxy_is = s2.proxy_is ∙ s1.proxy_is;
        },
      )

  abbrev answered : OfonoManager File → OfonoManager File
  answered m = record m { asked = false }

  answered-IsManaged : (m : OfonoManager File) → IsManaged m → IsManaged (answered m)
  answered-IsManaged m h = record {
    good = h.good;
    first = h.first;
    unused = h.unused;
    below = h.below;
    listed = h.listed;
    modems = h.modems;
    distinct = h.distinct;
  }

  get_modems_lem :
      (answer : Option (List String)) (m : OfonoManager File)
      → IsManaged m
      → m.proxy ≡ true
      → m.modem_idx + announced (modems answer) < 2 ^ 31
      → (m' : OfonoManager File) × (ofono_get_modems_cb kf w answer m ≡ some m')
        × Stepped (announced (modems answer)) (paths_after (modems answer) (modem_paths m)) m m'
  unfolding ofono_get_modems_cb
  get_modems_lem none m h proxy bound = (
    answered m,
    ap (λ b. if b then some (answered m) else none) proxy,
    record {
      managed = answered-IsManaged m h;
      paths_are = refl;
      count = omega arith;
      proxy_is = refl;
    },
  )
  get_modems_lem (some paths) m h proxy bound =
      let (m', e, s) = add_modems_lem paths (answered m) (answered-IsManaged m h) bound in
      (
        m',
        ap (λ b. if b then add_modems kf w paths (answered m) else none) proxy ∙ e,
        record {
          managed = s.managed;
          paths_are = s.paths_are;
          count = s.count;
          proxy_is = s.proxy_is;
        },
      )

  signal_lem :
      (name object_path : String) (m : OfonoManager File)
      → IsManaged m
      → m.modem_idx + 1 < 2 ^ 31
      → (m' : OfonoManager File) × (ofono_signal_cb kf w name object_path m ≡ some m')
        × Stepped 1 (paths_after (signal name object_path) (modem_paths m)) m m'
  unfolding ofono_signal_cb
  signal_lem name object_path m h bound = elim (Bool-cases (str_eq name "ModemAdded")) [
    | inl a ↦ rw (a, ofono_signal_cb) (add_modem_lem kf w m object_path h bound)
    | inr a ↦ elim (Bool-cases (str_eq name "ModemRemoved")) [
      | inl r ↦
          let (m', e, s) = remove_modem_lem m object_path h in
          (
            m',
            rw (a, r, ofono_signal_cb) e,
            record {
              managed = s.managed;
              paths_are = rw (a, r) s.paths_are;
              count = omega (arith, s.count);
              proxy_is = s.proxy_is;
            },
          )
      | inr r ↦ (
        m,
        rw (a, r, ofono_signal_cb) refl,
        record { managed = h; paths_are = rw (a, r) refl; count = omega arith; proxy_is = refl },
      )
    ]
  ]

  hear_ofono_lem :
      (e : OfonoEvent) (m : OfonoManager File)
      → IsManaged m
      → m.proxy ≡ true
      → m.modem_idx + announced e < 2 ^ 31
      → (m' : OfonoManager File) × (hear_ofono kf w e m ≡ some m')
        × Stepped (announced e) (paths_after e (modem_paths m)) m m'
  unfolding hear_ofono
  hear_ofono_lem (signal name path) m h proxy bound = signal_lem name path m h bound
  hear_ofono_lem (modems answer) m h proxy bound = get_modems_lem answer m h proxy bound

  -- From a well-formed manager whose proxy is there, the daemon takes in any list of signals and
  -- answers of oFono without a fault, as long as the indices of the modems stay below 2 ^ 31. The
  -- paths of its modems are those that the same words make of the old ones (a modem that is added
  -- or listed stands at the end, one that is removed goes), the proxy stays, and the manager stays
  -- well-formed: each modem is a device of the arbitrator, no two devices have one index, and
  -- those of the modems are 100 or more.
  pub hear_all_refines :
      (es : List OfonoEvent) (m : OfonoManager File)
      → IsManaged m
      → m.proxy ≡ true
      → m.modem_idx + announced_all es < 2 ^ 31
      → (m' : OfonoManager File) × (hear_all kf w es m ≡ some m')
        × Stepped (announced_all es) (paths_after_all es (modem_paths m)) m m'
  unfolding hear_all paths_after_all
  hear_all_refines [] m h proxy bound =
      (m, refl, record { managed = h; paths_are = refl; count = omega arith; proxy_is = refl })
  hear_all_refines (e ∷ es) m h proxy bound =
      let (m1, e1, s1) = hear_ofono_lem e m h proxy (omega arith) in
      let (m2, e2, s2) =
        hear_all_refines es m1 s1.managed (s1.proxy_is ∙ proxy) (omega (arith, s1.count)) in
      (
        m2,
        rw e1 e2,
        record {
          managed = s2.managed;
          paths_are = s2.paths_are ∙ ap (paths_after_all es) s1.paths_are;
          count = omega (arith, s1.count, s2.count);
          proxy_is = s2.proxy_is ∙ s1.proxy_is;
        },
      )
