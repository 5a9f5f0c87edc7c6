-- ===== src/Killswitch/Block.antt =====
-- What a block or unblock of a whole switch does to the devices, and what the calls on a switch
-- leave as it was (src/urf-killswitch.c).
use urfkill.Prelude.{
  if_either, ℕ, ◌≡◌, refl, ◌≢◌, Bool, true, false, not, List, [], ◌∷◌, arith, if◌then◌else◌, mem,
  Bool-cases, inl, inr, ap, IsDistinct, ◌∙◌, is_empty, ◌||◌, remove, ◌==◌,
}
use native.Mathlib.Decide.{ℕ_discrete}
use urfkill.Utils.{no_adapter, state_eq}
use urfkill.Store.{Outside, Output, Store, switch_changed}
use urfkill.Device.{get_device_type, is_hardware_blocked, set_soft, urf_device_set_software_blocked}
use urfkill.Device.Laws.{
  wanted, but_soft, Same, Same-refl, Same-trans, set_software_blocked-Same, set_soft-wanted,
  set_soft-accepted, assign_self, assign_other,
}
use urfkill.Killswitch.Aggregate.{current_state-empty}
use urfkill.Killswitch.{
  Killswitch, block_devices, urf_killswitch_state_refresh, urf_killswitch_set_software_blocked,
  urf_killswitch_add_device, urf_killswitch_del_device, current_state,
}

block_devices-Same :
    (w : Outside) (ps : List ℕ) (b ret : Bool) (s : Store) → Same s (block_devices w ps b ret s).1
unfolding block_devices
block_devices-Same w [] b ret s = Same-refl s
block_devices-Same w (p ∷ ps) b ret s =
    let (result, s') = urf_device_set_software_blocked w p b s in
    Same-trans (set_software_blocked-Same w p b s)
      (block_devices-Same w ps b (if not result then false else ret) s')

pub set_software_blocked-Same_switch :
    (w : Outside) (ks : Killswitch) (b : Bool) (s : Store)
    → Same s (urf_killswitch_set_software_blocked w ks b s).1
unfolding urf_killswitch_set_software_blocked
set_software_blocked-Same_switch w ks b s = block_devices-Same w ks.devices b true s

-- A failure is never forgotten.
block_devices-false :
    (w : Outside) (ps : List ℕ) (b : Bool) (s : Store) → (block_devices w ps b false s).0 ≡ false
unfolding block_devices
block_devices-false w [] b s = refl
block_devices-false w (p ∷ ps) b s =
    let (result, s') = urf_device_set_software_blocked w p b s in
    ground (arith, block_devices-false w ps b s')

block_other :
    (w : Outside) (p q : ℕ) (b : Bool) (s : Store)
    → p ≢ q
    → (urf_device_set_software_blocked w p b s).1.heap q ≡ s.heap q
unfolding urf_device_set_software_blocked
block_other w p q b s h = assign_other s.heap p q _ h

block_self :
    (w : Outside) (p : ℕ) (b : Bool) (s : Store)
    → (urf_device_set_software_blocked w p b s).1.heap p ≡ (set_soft w (s.heap p) b s.out).1
unfolding urf_device_set_software_blocked
block_self w p b s = assign_self s.heap p _

block_devices_other :
    (w : Outside) (ps : List ℕ) (b ret : Bool) (s : Store) (q : ℕ)
    → mem q ps ≡ false
    → (block_devices w ps b ret s).1.heap q ≡ s.heap q
unfolding block_devices
block_devices_other w [] b ret s q h = refl
block_devices_other w (p ∷ ps) b ret s q h =
    let (result, s') = urf_device_set_software_blocked w p b s in
    block_devices_other w ps b (if not result then false else ret) s' q (ground arith)
    ∙ block_other w p q b s (ground arith)

-- While the kernel accepts every write, every block succeeds.
block_devices-accepted :
    (w : Outside) (ps : List ℕ) (b ret : Bool) (s : Store)
    → ((out : List Output) (t : ℕ) → w.accepts out t b ≡ true)
    → (block_devices w ps b ret s).0 ≡ ret
unfolding block_devices urf_device_set_software_blocked
block_devices-accepted w [] b ret s h = refl
block_devices-accepted w (p ∷ ps) b ret s h =
    let (result, s') = urf_device_set_software_blocked w p b s in
    let ok : result ≡ true = set_soft-accepted w (s.heap p) b s.out h in
    block_devices-accepted w ps b (if not result then false else ret) s' h
    ∙ ap (λ x. if not x then false else ret) ok

pub set_software_blocked-accepted :
    (w : Outside) (ks : Killswitch) (b : Bool) (s : Store)
    → ((out : List Output) (t : ℕ) → w.accepts out t b ≡ true)
    → (urf_killswitch_set_software_blocked w ks b s).0 ≡ true
unfolding urf_killswitch_set_software_blocked
set_software_blocked-accepted w ks b s h = block_devices-accepted w ks.devices b true s h

block_ok :
    (w : Outside) (p : ℕ) (ps : List ℕ) (b ret : Bool) (s : Store)
    → (block_devices w (p ∷ ps) b ret s).0 ≡ true
    → (set_soft w (s.heap p) b s.out).0 ≡ true
unfolding block_devices urf_device_set_software_blocked
block_ok w p ps b ret s h =
    let (result, s') = urf_device_set_software_blocked w p b s in
    elim (Bool-cases result) [ inl e ↦ e | inr e ↦ ground (arith, block_devices-false w ps b s') ]

wanted-block_devices :
    (w : Outside) (ps : List ℕ) (b ret : Bool) (s : Store) (q : ℕ)
    → IsDistinct ps
    → (block_devices w ps b ret s).0 ≡ true
    → mem q ps ≡ true
    → wanted ((block_devices w ps b ret s).1.heap q) ≡ b
unfolding block_devices
wanted-block_devices w [] b ret s q d h m = cc
wanted-block_devices w (p ∷ ps) b ret s q d h m =
    let (result, s') = urf_device_set_software_blocked w p b s in
    let ret' : Bool = if not result then false else ret in
    elim (ℕ_discrete p q) [
      | yes e ↦
          rw (← e, block_devices_other w ps b ret' s' p d.0, block_self w p b s)
            (set_soft-wanted w (s.heap p) b s.out (block_ok w p ps b ret s h))
      | no n ↦ wanted-block_devices w ps b ret' s' q d.1 h (ground arith)
    ]

-- A block or unblock of a switch, whose list names no device twice. If it reports success, each
-- device of the switch has the block that was asked for; whatever it reports, all other devices
-- are untouched, and no hard block has changed.
pub set_software_blocked_lem :
    (w : Outside) (ks : Killswitch) (b : Bool) (s : Store)
    → IsDistinct ks.devices
    → let (result, s') = urf_killswitch_set_software_blocked w ks b s in
      (result ≡ true → (q : ℕ) → mem q ks.devices ≡ true → wanted (s'.heap q) ≡ b)
      × ((q : ℕ) → mem q ks.devices ≡ false → s'.heap q ≡ s.heap q)
      × ((q : ℕ) → is_hardware_blocked (s'.heap q) ≡ is_hardware_blocked (s.heap q))
unfolding urf_killswitch_set_software_blocked
set_software_blocked_lem w ks b s d = (
  λ h q m. wanted-block_devices w ks.devices b true s q d h m,
  λ q m. block_devices_other w ks.devices b true s q m,
  (block_devices-Same w ks.devices b true s).hards,
)

-- A refresh leaves the objects, the devices of the switch and its type.
pub refresh_heap :
    (ks : Killswitch) (s : Store) → (urf_killswitch_state_refresh ks s).1.heap ≡ s.heap
unfolding urf_killswitch_state_refresh
refresh_heap ks s = ground arith

pub refresh-Same : (ks : Killswitch) (s : Store) → Same s (urf_killswitch_state_refresh ks s).1
unfolding urf_killswitch_state_refresh
refresh-Same ks s = record {
  next = ground arith;
  identities = λ p. ground arith;
  hards = λ p. ground arith;
  frames = λ p. ap (λ h. but_soft (h p)) (refresh_heap ks s);
}

pub refresh_shape :
    (ks : Killswitch) (s : Store)
    → ((urf_killswitch_state_refresh ks s).0.devices ≡ ks.devices)
      × ((urf_killswitch_state_refresh ks s).0.type ≡ ks.type)
unfolding urf_killswitch_state_refresh
refresh_shape ks s = (ground arith, ground arith)

-- A refresh of a switch makes its cached state the state of its devices, and puts out exactly one
-- change, with that state, if the switch has devices and the cached state was another. The saved
-- state is kept, unless the switch has no device.
pub refresh_lem :
    (ks : Killswitch) (s : Store)
    → let (ks', s') = urf_killswitch_state_refresh ks s in
      let now = current_state s.heap ks.devices in
      (ks'.state ≡ now)
      × (s'.out ≡ (
          if is_empty ks.devices || state_eq ks.state now
          then s.out
          else switch_changed ks.type now ∷ s.out))
      × (ks'.saved_state ≡ (if is_empty ks.devices then no_adapter else ks.saved_state))
unfolding urf_killswitch_state_refresh
refresh_lem ks s =
    (ground (arith, current_state-empty s.heap ks.devices), ground arith, ground arith)

add_taken :
    (ks : Killswitch) (p : ℕ) (s : Store)
    → get_device_type (s.heap p) ≡ ks.type
    → mem p ks.devices ≡ false
    → (not (get_device_type (s.heap p) == ks.type) || mem p ks.devices) ≡ false
add_taken ks p s h m = ground arith

del_taken :
    (ks : Killswitch) (p : ℕ) (s : Store)
    → get_device_type (s.heap p) ≡ ks.type
    → mem p ks.devices ≡ true
    → (not (get_device_type (s.heap p) == ks.type) || not (mem p ks.devices)) ≡ false
del_taken ks p s h m = ground arith

-- A device of the type that the switch does not hold yet is put in front.
pub add_device_lem :
    (ks : Killswitch) (p : ℕ) (s : Store)
    → get_device_type (s.heap p) ≡ ks.type
    → mem p ks.devices ≡ false
    → let (ks', s') = urf_killswitch_add_device ks p s in
      (ks'.devices ≡ p ∷ ks.devices) × (ks'.type ≡ ks.type) × (s'.heap ≡ s.heap) × Same s s'
unfolding urf_killswitch_add_device
add_device_lem ks p s h m =
    let added = record ks { devices = p ∷ ks.devices } in
    let (d, t) = refresh_shape added s in
    let heap = refresh_heap added s in
    let same = refresh-Same added s in rw (add_taken ks p s h m) (d, t, heap, same)

-- A device that the switch holds is taken out.
pub del_device_lem :
    (ks : Killswitch) (p : ℕ) (s : Store)
    → get_device_type (s.heap p) ≡ ks.type
    → mem p ks.devices ≡ true
    → let (ks', s') = urf_killswitch_del_device ks p s in
      (ks'.devices ≡ remove p ks.devices) × (ks'.type ≡ ks.type) × (s'.heap ≡ s.heap) × Same s s'
unfolding urf_killswitch_del_device
del_device_lem ks p s h m =
    let less = record ks { devices = remove p ks.devices } in
    let (d, t) = refresh_shape less s in
    let heap = refresh_heap less s in
    let same = refresh-Same less s in rw (del_taken ks p s h m) (d, t, heap, same)

pub del_device_next :
    (ks : Killswitch) (p : ℕ) (s : Store) → (urf_killswitch_del_device ks p s).1.next ≡ s.next
unfolding urf_killswitch_del_device
del_device_next ks p s =
    let less = record ks { devices = remove p ks.devices } in
    if_either (λ (r : Killswitch × Store). r.1.next ≡ s.next)
      (not (get_device_type (s.heap p) == ks.type) || not (mem p ks.devices)) refl
      (refresh-Same less s).next
