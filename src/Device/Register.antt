-- ===== src/Device/Register.antt =====
-- The registration of a device on the bus (urf_device_register_device of src/urf-device.c), with
-- which src/urf-device-kernel.c and src/urf-device-ofono.c end the making of an object.
use urfkill.Prelude.{
  ℕ, zero, suc, ◌+◌, ◌<◌, ◌≡◌, refl, ◌∙◌, ap, Bool, true, false, Option, none, some, String, ◌==◌,
  ◌||◌, if◌then◌else◌, arith, ==-refl,
}
use native.Mathlib.Decide.{ℕ_discrete}
use urfkill.Store.{Device, kernel, ofono, Outside, Store, allocate, assign}
use urfkill.Device.{get_index}
use urfkill.Device.Kernel
use urfkill.Device.Ofono
use urfkill.Device.Laws.{Same, assign_self, assign_other}

-- Whether GDBus has an object at the path of an index: each object of the heap was registered when
-- it was made, the first `n` of them here, and nothing takes a registration back.
unfoldable pub is_exported : (heap : ℕ → Device) (n index : ℕ) → Bool
is_exported heap zero index = false
is_exported heap (suc n) index = get_index (heap n) == index || is_exported heap n index

abbrev pub exported : Store → (index : ℕ) → Bool
exported s index = is_exported s.heap s.next index

-- g_object_new and urf_device_register_device: the new object and the store with it. GDBus refuses
-- a path that has an object with the interface, and the assertion `reg_id > 0` ends the program.
unfoldable pub urf_device_register_device : Device → Store → Option (ℕ × Store)
unfolding is_exported
urf_device_register_device d s =
    if exported s (get_index d) then none else some (s.next, allocate s d)

unfoldable pub urf_device_kernel_new :
    Outside → (index type : ℕ) (soft hard : Bool) → Store → Option (ℕ × Store)
unfolding Kernel.kernel_fields urf_device_register_device
urf_device_kernel_new w index type soft hard s =
    urf_device_register_device (kernel (Kernel.kernel_fields w index type soft hard)) s

-- The proxy is made later (proxy_ready_cb).
unfoldable pub urf_device_ofono_new :
    (index : ℕ) (object_path : String) → Store → Option (ℕ × Store)
unfolding Ofono.ofono_fields urf_device_register_device
urf_device_ofono_new index object_path s =
    urf_device_register_device (ofono (Ofono.ofono_fields index object_path)) s

is_exported_cong :
    (heap heap' : ℕ → Device) (n i : ℕ)
    → ((p : ℕ) → p < n → get_index (heap' p) ≡ get_index (heap p))
    → is_exported heap' n i ≡ is_exported heap n i
unfolding is_exported
is_exported_cong heap heap' zero i h = refl
is_exported_cong heap heap' (suc n) i h =
    let rest = is_exported_cong heap heap' n i (λ p l. h p (omega (arith, l))) in
    rw (h n (omega arith), rest) refl

-- Stores with the same objects have the same paths.
pub exported_cong :
    (s s' : Store) (i : ℕ)
    → s'.next ≡ s.next
    → ((p : ℕ) → get_index (s'.heap p) ≡ get_index (s.heap p))
    → exported s' i ≡ exported s i
exported_cong s s' i n h =
    ap (λ k. is_exported s'.heap k i) n ∙ is_exported_cong s.heap s'.heap s.next i (λ p l. h p)

pub Same-exported : {s s' : Store} (i : ℕ) → Same s s' → exported s' i ≡ exported s i
Same-exported {s} {s'} i same =
    exported_cong s s' i same.next (λ p. ap (λ x. x.0) (same.identities p))

pub exported-allocate :
    (s : Store) (d : Device) (i : ℕ)
    → exported (allocate s d) i ≡ (get_index d == i || exported s i)
unfolding is_exported
exported-allocate s d i =
    let heap = assign s.heap s.next d in
    let later : s.next + 1 ≡ suc s.next = omega arith in
    let old =
      is_exported_cong s.heap heap s.next i
        (λ p l. ap get_index (assign_other s.heap s.next p d (λ e. omega (arith, e, l)))) in
    ap (λ k. is_exported heap k i) later ∙ rw (assign_self s.heap s.next d, old) refl

is_exported-made :
    (heap : ℕ → Device) (n p : ℕ) → p < n → is_exported heap n (get_index (heap p)) ≡ true
unfolding is_exported
is_exported-made heap zero p l = absurd (omega (arith, l))
is_exported-made heap (suc n) p l = elim (ℕ_discrete p n) [
  | yes e ↦ rw (e, ==-refl (get_index (heap n))) refl
  | no other ↦ ground (arith, is_exported-made heap n p (omega (arith, l, other)))
]

-- The path of an object that was made.
pub exported-made : (s : Store) (p : ℕ) → p < s.next → exported s (get_index (s.heap p)) ≡ true
exported-made s p l = is_exported-made s.heap s.next p l

pub register_new :
    (d : Device) (s : Store)
    → exported s (get_index d) ≡ false
    → urf_device_register_device d s ≡ some (s.next, allocate s d)
unfolding urf_device_register_device
register_new d s free = rw free refl

pub register_again :
    (d : Device) (s : Store)
    → exported s (get_index d) ≡ true
    → urf_device_register_device d s ≡ none
unfolding urf_device_register_device
register_again d s taken = rw taken refl
