-- ===== src/Device/Kernel.antt =====
-- src/urf-device-kernel.c: a device of the kernel's rfkill subsystem. A method that changes the
-- object returns it, with its result and all that the daemon has put out so far.
use urfkill.Prelude.{ℕ, Bool, true, false, List, ◌∷◌, differ, ◌||◌, if◌then◌else◌}
use urfkill.Utils.{KillswitchState, event_to_state}
use urfkill.Store.{KernelDevice, Output, write_change_all, device_state_changed, Outside}

-- The emission of "PropertiesChanged" by emit_properites_changed and that of "Changed": GIO's
-- check of its argument refuses a connection that is NULL, and sets no error.
unfoldable pub emit_changed : KernelDevice → List Output → List Output
emit_changed d out = if d.connection then device_state_changed d.soft d.hard ∷ out else out

-- `error == NULL` after the emission of "Changed".
unfoldable pub emit_ok : Outside → KernelDevice → List Output → Bool
emit_ok w d out = if d.connection then w.emits out else true

-- The class signal "changed" has no handler, so that its emission does nothing.
unfoldable pub update_states :
    Outside → KernelDevice → (soft hard : Bool) → List Output → Bool × KernelDevice × List Output
unfolding emit_changed emit_ok
update_states w d soft hard out =
    let d' = record d { soft = soft; hard = hard } in
    if differ d.soft soft || differ d.hard hard
    then (emit_ok w d' (emit_changed d' out), d', emit_changed d' out)
    else (false, d, out)

-- Asks the kernel to change all devices of the type; the field follows only if `write` succeeds.
unfoldable pub set_soft :
    Outside → KernelDevice → Bool → List Output → Bool × KernelDevice × List Output
set_soft w d blocked out =
    if w.accepts out d.type blocked
    then (true, record d { soft = blocked }, write_change_all d.type blocked ∷ out)
    else (false, d, write_change_all d.type blocked ∷ out)

unfoldable pub set_hard : KernelDevice → Bool → Bool × KernelDevice
set_hard d blocked = (true, record d { hard = blocked })

unfoldable pub get_state : KernelDevice → KillswitchState
unfolding event_to_state
get_state d = event_to_state d.soft d.hard

-- The fields that urf_device_kernel_new sets, with get_udev_attrs. Nothing sets `connection` or the private
-- `object_path`: the registration keeps its connection in the private part of the base class.
unfoldable pub kernel_fields : Outside → (index type : ℕ) (soft hard : Bool) → KernelDevice
kernel_fields w index type soft hard = record {
  index = index;
  type = type;
  name = w.udev_name index;
  soft = soft;
  hard = hard;
  platform = w.udev_platform index;
  connection = false;
}
