-- ===== src/Device/Udev.antt =====
-- The attributes of a radio that udev has: get_rfkill_device_by_index of src/urf-utils.c and
-- get_udev_attrs of src/urf-device-kernel.c.
use urfkill.Prelude.{
  ◌≡◌, refl, Bool, true, false, Option, none, some, String, List, [], ◌∷◌, ℤ, pos, negsuc, ℕ, ◌==◌,
  ◌>>=◌, if◌then◌else◌, Bool-cases, inl, inr,
}

-- A device of the subsystem rfkill: two attributes of sysfs, which may not be there, and whether
-- it has a parent of the subsystem platform.
pub record UdevDevice : Type 0 where
  pub index_attribute : Option String
  pub name_attribute : Option String
  pub has_platform_parent : Bool

abbrev same_int : ℤ → ℕ → Bool
same_int (pos m) n = m == n
same_int (negsuc m) n = false

module _ (atoi : String → ℤ) where
  -- `index_c && atoi (index_c) == index`
  unfoldable pub has_index : (index : ℕ) → UdevDevice → Bool
  has_index index dev = elim dev.index_attribute [
    | none ↦ false
    | some index_c ↦ same_int (atoi index_c) index
  ]

  -- The loop over the list; `dev` is what the variable holds: none while nothing has set it, and
  -- some none for NULL.
  unfoldable pub find_udev :
      (index : ℕ) (dev : Option (Option UdevDevice)) → List UdevDevice → Option (Option UdevDevice)
  unfolding has_index
  find_udev index dev [] = dev
  find_udev index dev (d ∷ ds) =
      let rest = find_udev index (some none) ds in if has_index index d then some (some d) else rest

  -- none is a pointer that was never set.
  unfoldable pub get_rfkill_device_by_index :
      (index : ℤ) → List UdevDevice → Option (Option UdevDevice)
  unfolding find_udev
  get_rfkill_device_by_index (negsuc n) devices = some none
  get_rfkill_device_by_index (pos index) devices = find_udev index none devices

  -- The name and the flag platform that a new device gets. `udev` is the list of udev, or none if
  -- udev_new failed; a pointer that was never set is a fault.
  unfoldable pub get_udev_attrs :
      (udev : Option (List UdevDevice)) (index : ℤ) → Option (Option String × Bool)
  unfolding get_rfkill_device_by_index
  get_udev_attrs none index = some (none, false)
  get_udev_attrs (some devices) index = do
    dev ← get_rfkill_device_by_index index devices
    some (elim dev [ none ↦ (none, false) | some d ↦ (d.name_attribute, d.has_platform_parent) ])

  -- The list has a first device of the index, or none.
  pub data First (index : ℕ) : List UdevDevice → Option UdevDevice → Type 0 where
    at_head :
        {d : UdevDevice} {ds : List UdevDevice}
        → has_index index d ≡ true
        → First index (d ∷ ds) (some d)
    later :
        {d : UdevDevice} {ds : List UdevDevice} {o : Option UdevDevice}
        → has_index index d ≡ false
        → First index ds o
        → First index (d ∷ ds) o
    nowhere : First index [] none

  find_udev_lem :
      (index : ℕ) (ds : List UdevDevice)
      → (o : Option UdevDevice) × (find_udev index (some none) ds ≡ some o) × First index ds o
  unfolding find_udev
  find_udev_lem index [] = (none, refl, nowhere)
  find_udev_lem index (d ∷ ds) =
      let (o, e, f) = find_udev_lem index ds in
      elim (Bool-cases (has_index index d)) [
        | inl yes_it_is ↦ (some d, rw yes_it_is refl, at_head yes_it_is)
        | inr not_it ↦ (o, rw not_it e, later not_it f)
      ]

  -- Where udev lists a radio, the search gives the first of the index, or NULL if there is none.
  pub get_rfkill_device_by_index_lem :
      (index : ℕ) (d : UdevDevice) (ds : List UdevDevice)
      → (o : Option UdevDevice) × (get_rfkill_device_by_index (pos index) (d ∷ ds) ≡ some o)
        × First index (d ∷ ds) o
  unfolding get_rfkill_device_by_index find_udev
  get_rfkill_device_by_index_lem index d ds = find_udev_lem index (d ∷ ds)

  -- Without a radio the pointer is never set.
  pub get_udev_attrs_unset : (index : ℕ) → get_udev_attrs (some []) (pos index) ≡ none
  unfolding get_udev_attrs get_rfkill_device_by_index find_udev
  get_udev_attrs_unset index = refl
