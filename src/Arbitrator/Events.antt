-- ===== src/Arbitrator/Events.antt =====
-- src/urf-arbitrator.c: events of /dev/rfkill, at startup and from the main loop.
use urfkill.Prelude.{
  ℕ, Bool, true, false, not, Option, none, some, List, [], ◌∷◌, ◌&&◌, ◌>>=◌, leb, ℤ, pos, negsuc,
  to_gint, differ, if◌then◌else◌,
}
use urfkill.Utils.{rfkill_type_all, num_rfkill_types, type_to_string}
use urfkill.Store.{Outside, put_out, device_changed}
use urfkill.Device.{get_object_path, is_hardware_blocked, urf_device_update_states}
use urfkill.Device.Register.{urf_device_kernel_new}
use urfkill.Config.{KeyFile, urf_config_get_persist_state}
use urfkill.Arbitrator.{
  Arbitrator, switch_types, urf_arbitrator_find_device, urf_arbitrator_set_block,
  urf_arbitrator_set_block_idx, urf_arbitrator_set_flight_mode, urf_arbitrator_add_device,
  drop_device,
}

-- enum rfkill_operation; op_to_string knows no other value.
pub data Op : Type 0 where
  add del change change_all unknown : Op

-- struct rfkill_event: idx has 32 bits, the other fields 8. `soft` and `hard` tell whether the
-- byte is not 0.
pub record RfkillEvent : Type 0 where
  pub idx : ℕ
  pub type : ℕ
  pub op : Op
  pub soft : Bool
  pub hard : Bool

-- One result of read () at startup: a full event, or too few bytes for one. The list of reads
-- ends where read () fails, with EAGAIN or another error.
pub data ReadResult : Type 0 where
  short : ReadResult
  full : RfkillEvent → ReadResult

module _ {File : Type 0} where
  unfoldable pub remove_killswitch : ℤ → Arbitrator File → Option (Arbitrator File)
  unfolding urf_arbitrator_find_device
  remove_killswitch index a = elim (urf_arbitrator_find_device a index) [
    | none ↦ some a
    | some p ↦ drop_device p a
  ]

-- The assertions of print_event: the type has a name, and the operation is known.
unfoldable pub print_event : RfkillEvent → Option (Unit {0})
print_event e = do name ← type_to_string (pos e.type); elim e.op [ unknown ↦ none | _ ↦ some tt ]

module _ {File : Type 0} (kf : KeyFile File) (w : Outside) where
  -- The synchronisation that update_killswitch makes after a change.
  unfoldable pub sync_change :
      (index : ℕ) (soft hard old_hard : Bool) → Arbitrator File → Arbitrator File
  unfolding urf_arbitrator_set_block_idx
  sync_change index soft hard old_hard a =
      if not a.force_sync
      then a
      else if hard && not soft
      then (urf_arbitrator_set_block_idx kf w (pos index) true a).1
      else if differ hard old_hard && not hard
      then (urf_arbitrator_set_block_idx kf w (pos index) false a).1
      else a

  unfoldable pub update_killswitch : ℤ → (soft hard : Bool) → Arbitrator File → Arbitrator File
  unfolding urf_arbitrator_find_device sync_change
  update_killswitch (negsuc n) soft hard a = a
  update_killswitch (pos index) soft hard a = elim (urf_arbitrator_find_device a (pos index)) [
    | none ↦ a
    | some p ↦
        let old_hard = is_hardware_blocked (a.store.heap p) in
        let (changed, s) = urf_device_update_states w p soft hard a.store in
        let path = get_object_path (s.heap p) in
        if changed
        then sync_change index soft hard old_hard
            (record a { store = put_out s (device_changed path) })
        else record a { store = s }
  ]

  unfoldable pub add_killswitch :
      ℤ → (type : ℕ) (soft hard : Bool) → Arbitrator File → Option (Arbitrator File)
  unfolding urf_arbitrator_find_device urf_device_kernel_new
  add_killswitch (negsuc n) type soft hard a = some a
  add_killswitch (pos index) type soft hard a =
      let added : Option (Arbitrator File) = (do
        (device, s) ← urf_device_kernel_new w index type soft hard a.store
        urf_arbitrator_add_device kf w device (record a { store = s })) in
      elim (urf_arbitrator_find_device a (pos index)) [ none ↦ added | some p ↦ some a ]

  -- The operation of an event.
  unfoldable pub dispatch : Op → RfkillEvent → Arbitrator File → Option (Arbitrator File)
  unfolding update_killswitch remove_killswitch add_killswitch
  dispatch change e a = some (update_killswitch (to_gint e.idx) e.soft e.hard a)
  dispatch del e a = remove_killswitch (to_gint e.idx) a
  dispatch add e a = add_killswitch (to_gint e.idx) e.type e.soft e.hard a
  dispatch _ e a = some a

  -- The body of the loop of event_cb.
  unfoldable pub handle_event : RfkillEvent → Arbitrator File → Option (Arbitrator File)
  unfolding print_event dispatch
  handle_event e a = do _ ← print_event e; dispatch e.op e a

  -- The loop of event_cb over the events that the channel holds.
  unfoldable pub handle_events : List RfkillEvent → Arbitrator File → Option (Arbitrator File)
  handle_events [] a = some a
  handle_events (e ∷ es) a = do a' ← handle_event e a; handle_events es a'

  -- `readable` is `condition & G_IO_IN`. FALSE ends the watch.
  unfoldable pub event_cb :
      (readable : Bool) → List RfkillEvent → Arbitrator File → Option (Bool × Arbitrator File)
  unfolding handle_events
  event_cb true es a = do a' ← handle_events es a; some (true, a')
  event_cb false es a = some (false, a)

  unfoldable pub startup_event : RfkillEvent → Arbitrator File → Option (Arbitrator File)
  unfolding add_killswitch
  startup_event e a =
      let added = add_killswitch (to_gint e.idx) e.type e.soft e.hard a in
      elim e.op [ add ↦ if leb num_rfkill_types e.type then some a else added | _ ↦ some a ]

  -- The loop of urf_arbitrator_startup over what read () gives.
  unfoldable pub startup_reads : List ReadResult → Arbitrator File → Option (Arbitrator File)
  startup_reads [] a = some a
  startup_reads (short ∷ rs) a = startup_reads rs a
  startup_reads (full e ∷ rs) a = do a' ← startup_event e a; startup_reads rs a'

  -- The loop that sets the saved state of each type, at the end of urf_arbitrator_startup.
  unfoldable pub restore_states : List ℕ → Arbitrator File → Option (Arbitrator File)
  restore_states [] a = some a
  restore_states (i ∷ is) a = do
    soft ← urf_config_get_persist_state kf a.config (pos i)
    (_, a') ← urf_arbitrator_set_block kf w (pos i) soft a
    restore_states is a'

  -- The calls at startup that depend on the option `persist`.
  unfoldable pub startup_flight_mode : Arbitrator File → Option (Arbitrator File)
  startup_flight_mode a =
      let flown : Option (Arbitrator File) = (do
        flight ← urf_config_get_persist_state kf a.config (pos rfkill_type_all)
        (_, a') ← urf_arbitrator_set_flight_mode kf w flight a
        some a') in
      if a.persist then flown else some a

  unfoldable pub startup_restore : Arbitrator File → Option (Arbitrator File)
  unfolding restore_states
  startup_restore a = if a.persist then restore_states switch_types a else some a

  -- `opened` tells whether open ("/dev/rfkill") succeeds.
  unfoldable pub urf_arbitrator_startup :
      (opened : Bool) → List ReadResult → Arbitrator File → Option (Bool × Arbitrator File)
  unfolding startup_reads startup_flight_mode startup_restore
  urf_arbitrator_startup false rs a = some (false, a)
  urf_arbitrator_startup true rs a = do
    flown ← startup_flight_mode a
    ready ← startup_reads rs flown
    restored ← startup_restore ready
    some (true, restored)
