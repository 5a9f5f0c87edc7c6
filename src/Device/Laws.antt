-- ===== src/Device/Laws.antt =====
-- What the calls on a device change, and what they leave (src/urf-device.c).
use urfkill.Prelude.{
  ℕ, ◌≡◌, refl, Bool, true, false, Option, String, List, arith, ◌≢◌, ==-refl, ◌∙◌,
}
use native.Mathlib.Decide.{ℕ_discrete}
use urfkill.Store.{Device, kernel, ofono, Output, Outside, Store, assign}
use urfkill.Device.{
  get_index, get_device_type, is_platform, is_hardware_blocked, set_soft, update_states,
  urf_device_ofono_get_path, urf_device_set_software_blocked, urf_device_update_states,
}

abbrev pub is_kernel : Device → Bool
is_kernel (kernel d) = true
is_kernel (ofono d) = false

-- The parts of a device that never change.
abbrev pub identity : Device → ℕ × ℕ × Bool × Bool × Option String
identity d =
    (get_index d, get_device_type d, is_platform d, is_kernel d, urf_device_ofono_get_path d)

-- The block that was last asked for, or that the kernel reported.
abbrev pub wanted : Device → Bool
wanted (kernel d) = d.soft
wanted (ofono d) = d.soft

-- All of a device but its soft block.
abbrev pub but_soft : Device → Device
but_soft (kernel d) = kernel (record d { soft = false })
but_soft (ofono d) = ofono (record d { soft = false })

-- The two stores hold the same objects, which may differ in their soft blocks.
pub record Same (s s' : Store) : Type 0 where
  pub next : s'.next ≡ s.next
  pub identities : (p : ℕ) → identity (s'.heap p) ≡ identity (s.heap p)
  pub hards : (p : ℕ) → is_hardware_blocked (s'.heap p) ≡ is_hardware_blocked (s.heap p)
  pub frames : (p : ℕ) → but_soft (s'.heap p) ≡ but_soft (s.heap p)

pub Same-refl : (s : Store) → Same s s
Same-refl s = record { next = refl; identities = λ p. refl; hards = λ p. refl; frames = λ p. refl }

pub Same-trans : {s t u : Store} → Same s t → Same t u → Same s u
Same-trans h k = record {
  next = k.next ∙ h.next;
  identities = λ p. k.identities p ∙ h.identities p;
  hards = λ p. k.hards p ∙ h.hards p;
  frames = λ p. k.frames p ∙ h.frames p;
}

pub assign_self : (heap : ℕ → Device) (p : ℕ) (d : Device) → assign heap p d p ≡ d
assign_self heap p d = ground (arith, ==-refl p)

pub assign_other : (heap : ℕ → Device) (p q : ℕ) (d : Device) → p ≢ q → assign heap p d q ≡ heap q
assign_other heap p q d h = ground arith

set_soft-identity :
    (w : Outside) (d : Device) (b : Bool) (out : List Output)
    → identity (set_soft w d b out).1 ≡ identity d
unfolding set_soft
set_soft-identity w (kernel d) b out = ground arith
set_soft-identity w (ofono d) b out = refl

pub set_soft-hard :
    (w : Outside) (d : Device) (b : Bool) (out : List Output)
    → is_hardware_blocked (set_soft w d b out).1 ≡ is_hardware_blocked d
unfolding set_soft
set_soft-hard w (kernel d) b out = ground arith
set_soft-hard w (ofono d) b out = refl

set_soft-frame :
    (w : Outside) (d : Device) (b : Bool) (out : List Output)
    → but_soft (set_soft w d b out).1 ≡ but_soft d
unfolding set_soft
set_soft-frame w (kernel d) b out = ground arith
set_soft-frame w (ofono d) b out = refl

update_states-identity :
    (w : Outside) (d : Device) (soft hard : Bool) (out : List Output)
    → identity (update_states w d soft hard out).1 ≡ identity d
unfolding update_states
update_states-identity w (kernel d) soft hard out = ground arith
update_states-identity w (ofono d) soft hard out = refl

assign-identity :
    (heap : ℕ → Device) (p : ℕ) (d : Device)
    → identity d ≡ identity (heap p)
    → (q : ℕ) → identity (assign heap p d q) ≡ identity (heap q)
assign-identity heap p d h q = elim (ℕ_discrete p q) [
  | yes e ↦ rw (← e) (rw (assign_self heap p d) h)
  | no n ↦ rw (assign_other heap p q d n)
]

assign-hard :
    (heap : ℕ → Device) (p : ℕ) (d : Device)
    → is_hardware_blocked d ≡ is_hardware_blocked (heap p)
    → (q : ℕ) → is_hardware_blocked (assign heap p d q) ≡ is_hardware_blocked (heap q)
assign-hard heap p d h q = elim (ℕ_discrete p q) [
  | yes e ↦ rw (← e) (rw (assign_self heap p d) h)
  | no n ↦ rw (assign_other heap p q d n)
]

assign-frame :
    (heap : ℕ → Device) (p : ℕ) (d : Device)
    → but_soft d ≡ but_soft (heap p)
    → (q : ℕ) → but_soft (assign heap p d q) ≡ but_soft (heap q)
assign-frame heap p d h q = elim (ℕ_discrete p q) [
  | yes e ↦ rw (← e) (rw (assign_self heap p d) h)
  | no n ↦ rw (assign_other heap p q d n)
]

pub set_software_blocked-Same :
    (w : Outside) (p : ℕ) (b : Bool) (s : Store)
    → Same s (urf_device_set_software_blocked w p b s).1
unfolding urf_device_set_software_blocked
set_software_blocked-Same w p b s = record {
  next = refl;
  identities =
      assign-identity s.heap p (set_soft w (s.heap p) b s.out).1
        (set_soft-identity w (s.heap p) b s.out);
  hards =
      assign-hard s.heap p (set_soft w (s.heap p) b s.out).1 (set_soft-hard w (s.heap p) b s.out);
  frames =
      assign-frame s.heap p (set_soft w (s.heap p) b s.out).1 (set_soft-frame w (s.heap p) b s.out);
}

pub update_states-identities :
    (w : Outside) (p : ℕ) (soft hard : Bool) (s : Store) (q : ℕ)
    → identity ((urf_device_update_states w p soft hard s).1.heap q) ≡ identity (s.heap q)
unfolding urf_device_update_states
update_states-identities w p soft hard s =
    assign-identity s.heap p (update_states w (s.heap p) soft hard s.out).1
      (update_states-identity w (s.heap p) soft hard s.out)

-- The result of a call that succeeds on a device.
pub set_soft-wanted :
    (w : Outside) (d : Device) (b : Bool) (out : List Output)
    → (set_soft w d b out).0 ≡ true
    → wanted (set_soft w d b out).1 ≡ b
unfolding set_soft
set_soft-wanted w (kernel d) b out h = ground arith
set_soft-wanted w (ofono d) b out h = refl

pub set_soft-accepted :
    (w : Outside) (d : Device) (b : Bool) (out : List Output)
    → ((out : List Output) (t : ℕ) → w.accepts out t b ≡ true)
    → (set_soft w d b out).0 ≡ true
unfolding set_soft
set_soft-accepted w (kernel d) b out h = ground (arith, h out d.type)
set_soft-accepted w (ofono d) b out h = refl
