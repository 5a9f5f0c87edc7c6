-- ===== src/Arbitrator/Outputs.antt =====
-- What the operations on devices tell the world of the devices that are listed
-- (src/urf-arbitrator.c).
use urfkill.Prelude.{
  ℕ, ◌≡◌, refl, ◌∙◌, ap, sym, Bool, true, false, not, some, List, [], ◌∷◌, ◌++◌, ◌==◌, ◌&&◌, ◌||◌,
  arith, if◌then◌else◌, ℤ, pos, mem, remove, Bool-cases, Option-cases, inl, inr, append_assoc,
  if_either, differ, is_empty,
}
use urfkill.Utils.{state_eq}
use urfkill.Store.{
  Device, KernelDevice, kernel, ofono, device_path, Output, write_change_all, set_online,
  get_properties, switch_changed, device_state_changed, device_added, device_removed,
  device_changed, Outside, Store, put_out,
}
use urfkill.Device.{
  get_index, get_device_type, get_object_path, is_platform, is_software_blocked,
  is_hardware_blocked, set_soft, update_states, urf_device_set_software_blocked,
  urf_device_update_states,
}
use urfkill.Device.Kernel
use urfkill.Killswitch.{
  Killswitch, urf_killswitch_state_refresh, urf_killswitch_add_device, urf_killswitch_del_device,
  current_state,
}
use urfkill.Config.{KeyFile, urf_config_get_persist_state}
use urfkill.Arbitrator.{
  Arbitrator, urf_arbitrator_find_device, urf_arbitrator_set_block_idx, sync_new_device,
  restore_new_device, urf_arbitrator_add_device, drop_device,
}
use urfkill.Arbitrator.Events.{sync_change, update_killswitch}
use urfkill.Arbitrator.Devices.{listed}

-- Whether a listener who thought `b` of the device of an index thinks that it is listed, after the
-- outputs, the latest first.
abbrev pub knows : ℕ → List Output → Bool → Bool
knows i [] b = b
knows i (device_added (device_path j) ∷ os) b = if j == i then true else knows i os b
knows i (device_removed (device_path j) ∷ os) b = if j == i then false else knows i os b
knows i (device_changed p ∷ os) b = knows i os b
knows i (write_change_all t s ∷ os) b = knows i os b
knows i (set_online m o ∷ os) b = knows i os b
knows i (get_properties m ∷ os) b = knows i os b
knows i (switch_changed t s ∷ os) b = knows i os b
knows i (device_state_changed s h ∷ os) b = knows i os b

pub knows-append :
    (i : ℕ) (xs ys : List Output) (b : Bool) → knows i (xs ++ ys) b ≡ knows i xs (knows i ys b)
knows-append i [] ys b = refl
knows-append i (device_added (device_path j) ∷ os) ys b = ground (arith, knows-append i os ys b)
knows-append i (device_removed (device_path j) ∷ os) ys b = ground (arith, knows-append i os ys b)
knows-append i (device_changed p ∷ os) ys b = knows-append i os ys b
knows-append i (write_change_all t s ∷ os) ys b = knows-append i os ys b
knows-append i (set_online m o ∷ os) ys b = knows-append i os ys b
knows-append i (get_properties m ∷ os) ys b = knows-append i os ys b
knows-append i (switch_changed t s ∷ os) ys b = knows-append i os ys b
knows-append i (device_state_changed s h ∷ os) ys b = knows-append i os ys b

-- The outputs that are new, and what they tell.
pub record Adds (out out' : List Output) (f : ℕ → Bool → Bool) : Type 0 where
  pub outs : List Output
  pub new : out' ≡ outs ++ out
  pub told : (i : ℕ) (b : Bool) → knows i outs b ≡ f i b

-- Outputs that tell nothing of the list.
abbrev pub Quiet : List Output → List Output → Type 0
Quiet out out' = Adds out out' (λ i b. b)

pub Quiet-refl : (out : List Output) → Quiet out out
Quiet-refl out = record { outs = []; new = refl; told = λ i b. refl }

pub Quiet-eq : {out out' : List Output} → out' ≡ out → Quiet out out'
Quiet-eq {out} e = record { outs = []; new = e; told = λ i b. refl }

pub Adds-trans :
    {out out' out'' : List Output} (f g : ℕ → Bool → Bool)
    → Adds out out' f
    → Adds out' out'' g
    → Adds out out'' (λ i b. g i (f i b))
Adds-trans {out} f g h k = record {
  outs = k.outs ++ h.outs;
  new = k.new ∙ ap (λ xs. k.outs ++ xs) h.new ∙ sym (append_assoc k.outs h.outs out);
  told =
      λ i b. knows-append i k.outs h.outs b ∙ ap (knows i k.outs) (h.told i b) ∙ k.told i (f i b);
}

pub Quiet-trans :
    {out out' out'' : List Output} → Quiet out out' → Quiet out' out'' → Quiet out out''
Quiet-trans h k = Adds-trans (λ i b. b) (λ i b. b) h k

pub Adds-one : (o : Output) (out : List Output) → Adds out (o ∷ out) (λ i b. knows i (o ∷ []) b)
Adds-one o out = record { outs = o ∷ []; new = refl; told = λ i b. refl }

module _ (w : Outside) where
  set_soft-Quiet : (d : Device) (b : Bool) (out : List Output) → Quiet out (set_soft w d b out).2
  unfolding set_soft
  set_soft-Quiet (kernel d) b out =
      if_either (λ (r : Bool × KernelDevice × List Output). Quiet out r.2) (w.accepts out d.type b)
        (Adds-one (write_change_all d.type b) out) (Adds-one (write_change_all d.type b) out)
  set_soft-Quiet (ofono d) b out =
      if_either (Quiet out) d.proxy (Adds-one (set_online d.object_path (not b)) out)
        (Quiet-refl out)

  update_states-Quiet :
      (d : Device) (soft hard : Bool) (out : List Output)
      → Quiet out (update_states w d soft hard out).2
  unfolding update_states Kernel.emit_changed
  update_states-Quiet (kernel d) soft hard out =
      if_either (λ (r : Bool × KernelDevice × List Output). Quiet out r.2)
        (differ d.soft soft || differ d.hard hard)
        (if_either (Quiet out) d.connection (Adds-one (device_state_changed soft hard) out)
          (Quiet-refl out))
        (Quiet-refl out)
  update_states-Quiet (ofono d) soft hard out = Quiet-refl out

refresh-Quiet :
    (ks : Killswitch) (s : Store) → Quiet s.out (urf_killswitch_state_refresh ks s).1.out
unfolding urf_killswitch_state_refresh
refresh-Quiet ks s =
    if_either (λ (r : Killswitch × Store). Quiet s.out r.1.out) (is_empty ks.devices)
      (Quiet-refl s.out)
      (if_either (λ (r : Killswitch × Store). Quiet s.out r.1.out)
        (state_eq ks.state (current_state s.heap ks.devices)) (Quiet-refl s.out)
        (Adds-one (switch_changed ks.type (current_state s.heap ks.devices)) s.out))

add_device-Quiet :
    (ks : Killswitch) (p : ℕ) (s : Store) → Quiet s.out (urf_killswitch_add_device ks p s).1.out
unfolding urf_killswitch_add_device
add_device-Quiet ks p s =
    if_either (λ (r : Killswitch × Store). Quiet s.out r.1.out)
      (not (get_device_type (s.heap p) == ks.type) || mem p ks.devices) (Quiet-refl s.out)
      (refresh-Quiet (record ks { devices = p ∷ ks.devices }) s)

del_device-Quiet :
    (ks : Killswitch) (p : ℕ) (s : Store) → Quiet s.out (urf_killswitch_del_device ks p s).1.out
unfolding urf_killswitch_del_device
del_device-Quiet ks p s =
    if_either (λ (r : Killswitch × Store). Quiet s.out r.1.out)
      (not (get_device_type (s.heap p) == ks.type) || not (mem p ks.devices)) (Quiet-refl s.out)
      (refresh-Quiet (record ks { devices = remove p ks.devices }) s)

module _ {File : Type 0} where
  abbrev pub out_of : Arbitrator File → List Output
  out_of a = a.store.out

  -- The outputs of a removal tell that the device is gone.
  pub drop_device-Adds :
      (p : ℕ) (a a' : Arbitrator File)
      → drop_device p a ≡ some a'
      → Adds (out_of a) (out_of a') (λ i b. if get_index (a.store.heap p) == i then false else b)
  unfolding drop_device
  drop_device-Adds p a a' h =
      elim (Option-cases (a.killswitch (get_device_type (a.store.heap p)))) [
        | inl e ↦ ground arith
        | inr (ks, e) ↦
            let path = get_object_path (a.store.heap p) in
            let quiet = del_device-Quiet ks p a.store in
            let (ks', s) = urf_killswitch_del_device ks p a.store in
            let done : out_of a' ≡ device_removed path ∷ s.out = ground arith in
            rw done (
              Adds-trans (λ i b. b) (λ i b. knows i (device_removed path ∷ []) b) quiet
                (Adds-one (device_removed path) s.out))
      ]

  module _ (kf : KeyFile File) (w : Outside) where
    set_block_idx-Quiet :
        (index : ℤ) (b : Bool) (a : Arbitrator File)
        → Quiet (out_of a) (out_of (urf_arbitrator_set_block_idx kf w index b a).1)
    unfolding urf_arbitrator_set_block_idx urf_device_set_software_blocked
    set_block_idx-Quiet index b a = elim (Option-cases (urf_arbitrator_find_device a index)) [
      | inl e ↦ rw (e, urf_arbitrator_set_block_idx) (Quiet-refl (out_of a))
      | inr (p, e) ↦
          rw (e, urf_arbitrator_set_block_idx) (set_soft-Quiet w (a.store.heap p) b a.store.out)
    ]

    sync_new_device-Quiet :
        (p : ℕ) (a : Arbitrator File) → Quiet (out_of a) (out_of (sync_new_device kf w p a))
    unfolding sync_new_device
    sync_new_device-Quiet p a =
        let d = a.store.heap p in
        if_either (λ (x : Arbitrator File). Quiet (out_of a) (out_of x))
          (a.force_sync && not (is_platform d))
          (set_block_idx-Quiet (pos (get_index d)) (is_software_blocked d) a)
          (Quiet-refl (out_of a))

    restore_new_device-Quiet :
        (index type : ℕ) (a a' : Arbitrator File)
        → restore_new_device kf w index type a ≡ some a'
        → Quiet (out_of a) (out_of a')
    unfolding restore_new_device
    restore_new_device-Quiet index type a a' h = elim (Bool-cases a.persist) [
      | inr off ↦ Quiet-eq (ground arith)
      | inl on ↦ elim (Option-cases (urf_config_get_persist_state kf a.config (pos type))) [
        | inl e ↦ ground arith
        | inr (soft, e) ↦
            let done : a' ≡ (urf_arbitrator_set_block_idx kf w (pos index) soft a).1 =
              ground arith in
            rw done (set_block_idx-Quiet (pos index) soft a)
      ]
    ]

    -- The outputs of a registration tell that the device is there.
    pub add_device-Adds :
        (p : ℕ) (a a' : Arbitrator File)
        → urf_arbitrator_add_device kf w p a ≡ some a'
        → Adds (out_of a) (out_of a') (λ i b. if get_index (a.store.heap p) == i then true else b)
    unfolding urf_arbitrator_add_device
    add_device-Adds p a a' h =
        let d = a.store.heap p in
        elim (Option-cases (a.killswitch (get_device_type d))) [
          | inl e ↦ ground arith
          | inr (ks, e) ↦
              let quiet = add_device-Quiet ks p a.store in
              let (ks', s) = urf_killswitch_add_device ks p a.store in
              let b = listed a p ks' s in
              elim (Option-cases (
                restore_new_device kf w (get_index d) (get_device_type d)
                  (sync_new_device kf w p b))) [
                    | inl f ↦ ground arith
                    | inr (c, f) ↦
                        let path = get_object_path d in
                        let done : out_of a' ≡ device_added path ∷ out_of c = ground arith in
                        rw done (
                          Adds-trans (λ i x. x) (λ i x. knows i (device_added path ∷ []) x)
                            (Quiet-trans quiet (
                              Quiet-trans (sync_new_device-Quiet p b) (
                                restore_new_device-Quiet (get_index d) (get_device_type d)
                                  (sync_new_device kf w p b) c f)))
                            (Adds-one (device_added path) (out_of c)))
                  ]
        ]

    sync_change-Quiet :
        (index : ℕ) (soft hard old_hard : Bool) (a : Arbitrator File)
        → Quiet (out_of a) (out_of (sync_change kf w index soft hard old_hard a))
    unfolding sync_change
    sync_change-Quiet index soft hard old_hard a =
        if_either (λ (x : Arbitrator File). Quiet (out_of a) (out_of x)) (not a.force_sync)
          (Quiet-refl (out_of a))
          (if_either (λ (x : Arbitrator File). Quiet (out_of a) (out_of x)) (hard && not soft)
            (set_block_idx-Quiet (pos index) true a)
            (if_either (λ (x : Arbitrator File). Quiet (out_of a) (out_of x))
              (differ hard old_hard && not hard) (set_block_idx-Quiet (pos index) false a)
              (Quiet-refl (out_of a))))

    pub update_killswitch-Quiet :
        (index : ℕ) (soft hard : Bool) (a : Arbitrator File)
        → Quiet (out_of a) (out_of (update_killswitch kf w (pos index) soft hard a))
    unfolding update_killswitch urf_device_update_states
    update_killswitch-Quiet index soft hard a =
        elim (Option-cases (urf_arbitrator_find_device a (pos index))) [
          | inl e ↦ rw (e, update_killswitch) (Quiet-refl (out_of a))
          | inr (p, e) ↦
              let d = a.store.heap p in
              let quiet = update_states-Quiet w d soft hard a.store.out in
              let s = (urf_device_update_states w p soft hard a.store).1 in
              let path = get_object_path (s.heap p) in
              rw (e, update_killswitch)
                (if_either (λ (x : Arbitrator File). Quiet (out_of a) (out_of x))
                  (urf_device_update_states w p soft hard a.store).0
                  (Quiet-trans quiet (
                    Quiet-trans (Adds-one (device_changed path) s.out) (
                      sync_change-Quiet index soft hard (is_hardware_blocked d)
                        (record a { store = put_out s (device_changed path) }))))
                  quiet)
        ]
