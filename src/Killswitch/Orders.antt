-- ===== src/Killswitch/Orders.antt =====
-- What a block of a switch and a refresh send out (src/urf-killswitch.c).
use urfkill.Prelude.{
  ℕ, ◌≡◌, refl, Bool, true, false, not, List, [], ◌∷◌, mem, if◌then◌else◌, arith, subst, if_either,
  is_empty,
}
use native.Mathlib.Decide.{ℕ_discrete}
use urfkill.Utils.{state_eq}
use urfkill.Store.{Outside, Output, Store, switch_changed}
use urfkill.Device.{urf_device_set_software_blocked}
use urfkill.Device.Laws.{set_software_blocked-Same}
use urfkill.Device.Orders.{
  orders, orders-Same, Grows, Grows-refl, Grows-trans, Sent, Sent-later, Sent-earlier,
  set_software_blocked-Grows, set_software_blocked-Sent,
}
use urfkill.Killswitch.{
  Killswitch, block_devices, urf_killswitch_state_refresh, urf_killswitch_set_software_blocked,
  current_state,
}

block_devices-Grows :
    (w : Outside) (ps : List ℕ) (b ret : Bool) (s : Store)
    → Grows s.out (block_devices w ps b ret s).1.out
unfolding block_devices
block_devices-Grows w [] b ret s = Grows-refl s.out
block_devices-Grows w (p ∷ ps) b ret s =
    let (result, s') = urf_device_set_software_blocked w p b s in
    Grows-trans (set_software_blocked-Grows w p b s)
      (block_devices-Grows w ps b (if not result then false else ret) s')

block_devices-Sent :
    (w : Outside) (ps : List ℕ) (b ret : Bool) (s : Store) (q : ℕ)
    → mem q ps ≡ true
    → Sent (orders (s.heap q) b) s.out (block_devices w ps b ret s).1.out
unfolding block_devices
block_devices-Sent w [] b ret s q m = cc
block_devices-Sent w (p ∷ ps) b ret s q m =
    let (result, s') = urf_device_set_software_blocked w p b s in
    let ret' : Bool = if not result then false else ret in
    let out' : List Output = (block_devices w ps b ret' s').1.out in
    elim (ℕ_discrete p q) [
      | yes e ↦
          subst (λ x. Sent (orders (s.heap x) b) s.out out') e
            (Sent-later (set_software_blocked-Sent w p b s) (block_devices-Grows w ps b ret' s'))
      | no n ↦ Sent-earlier (set_software_blocked-Grows w p b s) (
          subst (λ ms. Sent ms s'.out out') (orders-Same q b (set_software_blocked-Same w p b s))
            (block_devices-Sent w ps b ret' s' q (ground arith)))
    ]

pub block-Grows :
    (w : Outside) (ks : Killswitch) (b : Bool) (s : Store)
    → Grows s.out (urf_killswitch_set_software_blocked w ks b s).1.out
unfolding urf_killswitch_set_software_blocked
block-Grows w ks b s = block_devices-Grows w ks.devices b true s

-- A block of a switch sends the order of each of its devices.
pub block-Sent :
    (w : Outside) (ks : Killswitch) (b : Bool) (s : Store) (q : ℕ)
    → mem q ks.devices ≡ true
    → Sent (orders (s.heap q) b) s.out (urf_killswitch_set_software_blocked w ks b s).1.out
unfolding urf_killswitch_set_software_blocked
block-Sent w ks b s q m = block_devices-Sent w ks.devices b true s q m

pub refresh-Grows :
    (ks : Killswitch) (s : Store) → Grows s.out (urf_killswitch_state_refresh ks s).1.out
unfolding urf_killswitch_state_refresh
refresh-Grows ks s =
    let now = current_state s.heap ks.devices in
    let same = Grows-refl s.out in
    if_either (λ (r : Killswitch × Store). Grows s.out r.1.out) (is_empty ks.devices) same
      (if_either (λ (r : Killswitch × Store). Grows s.out r.1.out) (state_eq ks.state now) same
        (record { outs = switch_changed ks.type now ∷ []; new = refl }))
