-- ===== src/Client/Paths.antt =====
-- The paths of the devices that the client lists (liburfkill-glib/urf-client.c).
use urfkill.Prelude.{
  ◌≡◌, refl, sym, ◌∙◌, ap, Bool, true, false, not, Option, none, some, String, List, [], ◌∷◌, ◌++◌,
  str_eq, ◌&&◌, ◌||◌, arith, Bool-cases, inl, inr, eq_iff, subst,
}
use urfkill.Config.Rules.{opt_eq}
use urfkill.Client.{
  RemoteDevice, Properties, Remote, is_absolute, urf_device_init, urf_device_set_object_path_sync,
  find_remote, remove_remote,
}

-- Whether a device of the list has the path.
abbrev pub has_path : String → List RemoteDevice → Bool
has_path path [] = false
has_path path (d ∷ ds) = opt_eq d.object_path path || has_path path ds

-- No two devices have one path.
abbrev pub IsUnique : List RemoteDevice → Type 0
IsUnique [] = Unit
IsUnique (d ∷ ds) =
    ((path : String) → opt_eq d.object_path path ≡ true → has_path path ds ≡ false) × IsUnique ds

-- A path that the bus has an object for.
pub record IsReachable (remote : Remote) (path : String) : Type 0 where
  pub absolute : is_absolute path ≡ true
  pub properties : Properties
  pub there : remote.properties path ≡ some properties

pub find_remote-none :
    (ds : List RemoteDevice) (path : String) → find_remote ds path ≡ none → has_path path ds ≡ false
unfolding find_remote
find_remote-none [] path e = refl
find_remote-none (d ∷ ds) path e = ground (arith, find_remote-none ds path)

pub find_remote-some :
    (ds : List RemoteDevice) (path : String) (d : RemoteDevice)
    → find_remote ds path ≡ some d
    → has_path path ds ≡ true
unfolding find_remote
find_remote-some [] path d e = cc
find_remote-some (x ∷ ds) path d e = ground (arith, find_remote-some ds path d)

pub has_path-append :
    (path : String) (ds es : List RemoteDevice)
    → has_path path (ds ++ es) ≡ (has_path path ds || has_path path es)
has_path-append path [] es = refl
has_path-append path (d ∷ ds) es = ground (arith, has_path-append path ds es)

-- The object of a new device has its path.
pub new_path :
    (remote : Remote) (path : String)
    → IsReachable remote path
    → (urf_device_set_object_path_sync remote path urf_device_init).1.object_path ≡ some path
unfolding urf_device_set_object_path_sync
new_path remote path h = rw (h.absolute, h.there) (ground arith)

str_eq-sym : (s t : String) → str_eq s t ≡ true → str_eq t s ≡ true
str_eq-sym s t e = (eq_iff t s).1 (sym ((eq_iff s t).0 e))

opt_eq_same :
    (o : Option String) (p path : String) → opt_eq o p ≡ true → opt_eq o path ≡ str_eq p path
opt_eq_same none p path e = cc
opt_eq_same (some s) p path e = ap (λ x. str_eq x path) ((eq_iff s p).0 e)

same_path : (p path : String) → str_eq p path ≡ true → ◌≡◌ {A = String} p path
same_path p path e = (eq_iff p path).0 e

pub has_path-remove :
    (p path : String) (ds : List RemoteDevice)
    → IsUnique ds
    → has_path path (remove_remote p ds) ≡ (not (str_eq p path) && has_path path ds)
unfolding remove_remote
has_path-remove p path [] u = ground arith
has_path-remove p path (d ∷ ds) (n, u) = elim (Bool-cases (opt_eq d.object_path p)) [
  | inl e ↦ elim (Bool-cases (str_eq p path)) [
    | inl f ↦
        let gone : has_path path ds ≡ false =
          subst (λ x. has_path x ds ≡ false) (same_path p path f) (n p e) in
        rw (e, f) gone
    | inr f ↦
        rw (e, f) (ap (λ b. b || has_path path ds) (sym (opt_eq_same d.object_path p path e ∙ f)))
  ]
  | inr e ↦
      let rest = has_path-remove p path ds u in
      elim (Bool-cases (str_eq p path)) [
        | inl f ↦
            let other : opt_eq d.object_path path ≡ false =
              subst (λ x. opt_eq d.object_path x ≡ false) (same_path p path f) e in
            rw (e, f, other) (rest ∙ ap (λ b. not b && has_path path ds) f)
        | inr f ↦
            rw (e, f)
              (ap (λ b. opt_eq d.object_path path || b)
                (rest ∙ ap (λ b. not b && has_path path ds) f))
      ]
]

pub IsUnique-remove :
    (p : String) (ds : List RemoteDevice) → IsUnique ds → IsUnique (remove_remote p ds)
unfolding remove_remote
IsUnique-remove p [] u = tt
IsUnique-remove p (d ∷ ds) (n, u) = elim (Bool-cases (opt_eq d.object_path p)) [
  | inl e ↦ rw e u
  | inr e ↦ rw e (
    (λ path h. rw (has_path-remove p path ds u, n path h) (ground arith)),
    IsUnique-remove p ds u,
  )
]

pub IsUnique-append :
    (d : RemoteDevice) (path : String) (ds : List RemoteDevice)
    → d.object_path ≡ some path
    → has_path path ds ≡ false
    → IsUnique ds
    → IsUnique (ds ++ d ∷ [])
IsUnique-append d path [] at absent u = ((λ p h. refl), tt)
IsUnique-append d path (x ∷ ds) at absent (n, u) =
    let free : opt_eq x.object_path path ≡ false = ground arith in
    (
      λ p h.
          let other : opt_eq d.object_path p ≡ false = elim (Bool-cases (opt_eq d.object_path p)) [
            | inr e ↦ e
            | inl e ↦
                let same : str_eq path p ≡ true = sym (ap (λ o. opt_eq o p) at) ∙ e in
                absurd
                  (cc (subst (λ y. opt_eq x.object_path y ≡ false) (same_path path p same) free, h))
          ] in
          has_path-append p ds (d ∷ []) ∙ rw (n p h, other) refl,
      IsUnique-append d path ds at (ground arith) u,
    )

pub or_last : (a b : Bool) → (a || (b || false)) ≡ (a || b)
or_last true b = refl
or_last false true = refl
or_last false false = refl

pub still_known :
    (p path : String) (ds : List RemoteDevice)
    → has_path p ds ≡ true
    → has_path path ds ≡ (has_path path ds || str_eq p path)
still_known p path ds h = elim (Bool-cases (str_eq p path)) [
  | inl f ↦
      let known : has_path path ds ≡ true =
        subst (λ x. has_path x ds ≡ true) (same_path p path f) h in
      rw known refl
  | inr f ↦ ground (arith, f)
]

pub never_known :
    (p path : String) (ds : List RemoteDevice)
    → has_path p ds ≡ false
    → has_path path ds ≡ (not (str_eq p path) && has_path path ds)
never_known p path ds h = elim (Bool-cases (str_eq p path)) [
  | inl f ↦
      let unknown : has_path path ds ≡ false =
        subst (λ x. has_path x ds ≡ false) (same_path p path f) h in
      rw (unknown, f) refl
  | inr f ↦ ground (arith, f)
]
