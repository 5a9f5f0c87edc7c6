-- ===== src/OfonoManager/Modems.antt =====
-- The modems that are registered, and their indices (src/urf-ofono-manager.c).
use urfkill.Prelude.{
  ℕ, ◌+◌, ◌-◌, ◌^◌, ◌≡◌, ◌≢◌, ==-refl, ==_iff, mem-remove_kept, mem-remove_self, ◌≤◌, ◌<◌, refl,
  sym, ◌∙◌, ap, true, false, Option, none, some, String, List, [], ◌∷◌, ◌++◌, map, ◌==◌, mem,
  remove, IsDistinct, IsDistinct-snoc, IsDistinct-remove, mem-snoc_cases, mem-append,
  mem_of_mem-remove, map_cong, map-append, if◌then◌else◌, arith, Bool-cases, Option-cases, inl, inr,
}
use urfkill.Store.{ofono, Outside, Store}
use urfkill.Device.{get_index, urf_device_ofono_get_path}
use urfkill.Device.Ofono
use urfkill.Device.Register.{
  exported, urf_device_ofono_new, register_new, exported_cong, Same-exported, exported-allocate,
}
use urfkill.Device.Laws.{identity}
use urfkill.Config.{KeyFile}
use urfkill.Arbitrator.{Arbitrator, find_from}
use urfkill.Arbitrator.Invariant.{IsValid}
use urfkill.Arbitrator.Lookup.{find_from-none, UniqueIndices-remove}
use urfkill.Arbitrator.Table.{IsGood, alloc_old, alloc_new, alloc_absent}
use urfkill.Arbitrator.Register.{register_lem}
use urfkill.Arbitrator.Devices.{drop_device_lem, drop_device_next}
use urfkill.OfonoManager.{
  OfonoManager, is_path, find_modem, urf_ofono_manager_remove_modem, urf_ofono_manager_add_modem,
}

-- The paths of the modems, as the words of oFono change them.
abbrev pub forget_path : String → List (Option String) → List (Option String)
forget_path object_path [] = []
forget_path object_path (path ∷ paths) =
    if is_path object_path path then paths else path ∷ forget_path object_path paths

abbrev path_at : Store → ℕ → Option String
path_at s p = urf_device_ofono_get_path (s.heap p)

find_modem-none :
    (s : Store) (ps : List ℕ) (object_path : String)
    → find_modem s ps object_path ≡ none
    → forget_path object_path (map (path_at s) ps) ≡ map (path_at s) ps
unfolding find_modem
find_modem-none s [] object_path h = refl
find_modem-none s (p ∷ ps) object_path h = elim (Bool-cases (is_path object_path (path_at s p))) [
  | inl e ↦ absurd (ground arith)
  | inr e ↦
      let rest = find_modem-none s ps object_path (ground arith) in
      rw e (ap (◌∷◌ (path_at s p)) rest)
]

-- The modem that is found is the first with the path.
find_modem_found :
    (s : Store) (ps : List ℕ) (object_path : String) (p : ℕ)
    → find_modem s ps object_path ≡ some p
    → (mem p ps ≡ true)
      × (is_path object_path (path_at s p) ≡ true)
      × (forget_path object_path (map (path_at s) ps) ≡ map (path_at s) (remove p ps))
unfolding find_modem
find_modem_found s [] object_path p h = cc
find_modem_found s (q ∷ qs) object_path p h =
    elim (Bool-cases (is_path object_path (path_at s q))) [
      | inl e ↦
          let same : q ≡ p = ground arith in
          (ground arith, rw (← same) e, rw (← same) (rw (e, ==-refl q) refl))
      | inr e ↦
          let (m, t, f) = find_modem_found s qs object_path p (ground arith) in
          let other : (q == p) ≡ false = elim (Bool-cases (q == p)) [
            | inl y ↦
                absurd (cc (ap (λ x. is_path object_path (path_at s x)) ((==_iff q p).0 y), e, t))
            | inr y ↦ y
          ] in
          (ground arith, t, rw (e, other) (ap (◌∷◌ (path_at s q)) f))
    ]

module _ {File : Type 0} where
  abbrev pub modem_paths : OfonoManager File → List (Option String)
  modem_paths m = map (λ p. urf_device_ofono_get_path (m.arbitrator.store.heap p)) m.devices

  -- Every device has its own index, and those to come are not in use.
  pub record IsManaged (m : OfonoManager File) : Type 0 where
    pub good : IsGood m.arbitrator
    pub first : 100 ≤ m.modem_idx
    pub unused : (i : ℕ) → m.modem_idx ≤ i → exported m.arbitrator.store i ≡ false
    pub below :
        (p : ℕ)
        → mem p m.arbitrator.devices ≡ true
        → get_index (m.arbitrator.store.heap p) < m.modem_idx
    pub listed : (p : ℕ) → mem p m.devices ≡ true → mem p m.arbitrator.devices ≡ true
    pub modems : (p : ℕ) → mem p m.devices ≡ true → 100 ≤ get_index (m.arbitrator.store.heap p)
    pub distinct : IsDistinct m.devices

  below-free :
      (m : OfonoManager File)
      → IsManaged m
      → find_from m.arbitrator.store.heap m.arbitrator.devices m.modem_idx ≡ none
  below-free m h =
      find_from-none m.arbitrator.store.heap m.arbitrator.devices m.modem_idx
        (λ p l e. omega (arith, h.below p l, e))

  -- What a step leaves: the proxy, the paths it should, and not more than `n` new indices.
  pub record Stepped (n : ℕ) (paths : List (Option String)) (m m' : OfonoManager File)
      : Type 0 where
    pub managed : IsManaged m'
    pub paths_are : modem_paths m' ≡ paths
    pub count : m'.modem_idx ≤ m.modem_idx + n
    pub proxy_is : m'.proxy ≡ m.proxy

  dropped :
      (m : OfonoManager File) (p : ℕ) (a' : Arbitrator File)
      → IsManaged m
      → IsValid a'
      → a'.devices ≡ remove p m.arbitrator.devices
      → a'.store.heap ≡ m.arbitrator.store.heap
      → a'.store.next ≡ m.arbitrator.store.next
      → IsManaged (record m { arbitrator = a'; devices = remove p m.devices })
  dropped m p a' h v ds heap next =
      let held : (q : ℕ) → mem q (remove p m.devices) ≡ true → mem q m.devices ≡ true =
        λ q l. mem_of_mem-remove p q m.devices l in
      let other : (q : ℕ) → mem q (remove p m.devices) ≡ true → p ≢ q =
        λ q l e. ground (arith, mem-remove_self p m.devices h.distinct) in
      record {
        good = record {
          valid = v;
          unique =
              rw (heap, ds)
                (UniqueIndices-remove m.arbitrator.store.heap m.arbitrator.devices p h.good.unique);
        };
        first = h.first;
        unused = λ i le.
            exported_cong m.arbitrator.store a'.store i next (λ q. ap (λ f. get_index (f q)) heap)
            ∙ h.unused i le;
        below =
            λ q l. rw heap (h.below q (mem_of_mem-remove p q m.arbitrator.devices (rw (← ds) l)));
        listed = λ q l.
            rw ds (mem-remove_kept p q m.arbitrator.devices (other q l) (h.listed q (held q l)));
        modems = λ q l. rw heap (h.modems q (held q l));
        distinct = IsDistinct-remove p m.devices h.distinct;
      }

  pub remove_modem_lem :
      (m : OfonoManager File) (object_path : String)
      → IsManaged m
      → (m' : OfonoManager File) × (urf_ofono_manager_remove_modem object_path m ≡ some m')
        × Stepped 0 (forget_path object_path (modem_paths m)) m m'
  unfolding urf_ofono_manager_remove_modem
  remove_modem_lem m object_path h =
      let a = m.arbitrator in
      elim (Option-cases (find_modem a.store m.devices object_path)) [
        | inl e ↦ (
          m,
          rw (e, urf_ofono_manager_remove_modem) refl,
          record {
            managed = h;
            paths_are = sym (find_modem-none a.store m.devices object_path e);
            count = omega arith;
            proxy_is = refl;
          },
        )
        | inr (p, e) ↦
            let (held, t, f) = find_modem_found a.store m.devices object_path p e in
            let (a', done, v, ds, heap) = drop_device_lem a p h.good.valid (h.listed p held) in
            (
              record m { arbitrator = a'; devices = remove p m.devices },
              rw (e, urf_ofono_manager_remove_modem) (rw done refl),
              record {
                managed = dropped m p a' h v ds heap (drop_device_next p a a' done);
                paths_are = rw heap (sym f);
                count = omega arith;
                proxy_is = refl;
              },
            )
      ]

module _ {File : Type 0} (kf : KeyFile File) (w : Outside) where
  pub add_modem_lem :
      (m : OfonoManager File) (object_path : String)
      → IsManaged m
      → m.modem_idx + 1 < 2 ^ 31
      → (m' : OfonoManager File) × (urf_ofono_manager_add_modem kf w object_path m ≡ some m')
        × Stepped 1 (modem_paths m ++ some object_path ∷ []) m m'
  unfolding urf_ofono_manager_add_modem urf_device_ofono_new Ofono.ofono_fields
  add_modem_lem m object_path h bound =
      let a = m.arbitrator in
      let p = a.store.next in
      let d = ofono (Ofono.ofono_fields m.modem_idx object_path) in
      let registered = register_new d a.store (h.unused m.modem_idx (omega arith)) in
      let (a', done, good, ds, same) =
        register_lem kf w a d h.good (below-free m h) (omega arith) (omega arith) in
      let made : identity (a'.store.heap p) ≡ identity d =
        same.identities p ∙ ap identity (alloc_new a d) in
      let new : urf_device_ofono_get_path (a'.store.heap p) ≡ some object_path =
        ap (λ x. x.4) made in
      let new_index : get_index (a'.store.heap p) ≡ m.modem_idx = ap (λ x. x.0) made in
      let old : (q : ℕ)
          → mem q a.devices ≡ true
          → identity (a'.store.heap q) ≡ identity (a.store.heap q) =
        λ q l. same.identities q ∙ ap identity (alloc_old a d q h.good l) in
      let room : (m.modem_idx == 2 ^ 31 - 1) ≡ false = ground arith in
      let listed : (q : ℕ) → mem q (m.devices ++ p ∷ []) ≡ true → mem q a'.devices ≡ true = λ q l.
        rw ds (
          mem-snoc_cases p q m.devices l
            (λ o. ground (arith, mem-append q a.devices (p ∷ []), h.listed q o))
            (λ e. ground (arith, mem-append q a.devices (p ∷ []), e))) in
      let absent : mem p m.devices ≡ false = elim (Bool-cases (mem p m.devices)) [
        | inl e ↦ absurd (cc (h.listed p e, alloc_absent a h.good))
        | inr e ↦ e
      ] in
      let kept : map (λ q. urf_device_ofono_get_path (a'.store.heap q)) m.devices ≡ modem_paths m =
        map_cong (λ q. urf_device_ofono_get_path (a'.store.heap q))
          (λ q. urf_device_ofono_get_path (a.store.heap q)) m.devices
          (λ q l. ap (λ x. x.4) (old q (h.listed q l))) in
      (
        record m { arbitrator = a'; devices = m.devices ++ p ∷ []; modem_idx = m.modem_idx + 1 },
        rw (room, registered, done) refl,
        record {
          managed = record {
            good = good;
            first = omega (arith, h.first);
            unused = λ i le.
                Same-exported i same
                ∙ exported-allocate a.store d i
                ∙ ground (arith, h.unused i (omega (arith, le)), le);
            below = λ q l.
                mem-snoc_cases p q a.devices (rw (← ds) l)
                  (λ o. omega (arith, h.below q o, ap (λ x. x.0) (old q o)))
                  (λ e. rw (← e) (omega (arith, new_index)));
            listed = listed;
            modems = λ q l.
                mem-snoc_cases p q m.devices l
                  (λ o. omega (arith, h.modems q o, ap (λ x. x.0) (old q (h.listed q o))))
                  (λ e. rw (← e) (omega (arith, new_index, h.first)));
            distinct = IsDistinct-snoc p m.devices absent h.distinct;
          };
          paths_are =
              map-append (λ q. urf_device_ofono_get_path (a'.store.heap q)) m.devices (p ∷ [])
              ∙ (λ i. kept i ++ new i ∷ []);
          count = omega arith;
          proxy_is = refl;
        },
      )
