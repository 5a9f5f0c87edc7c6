-- ===== src/Device.antt =====
-- src/urf-device.c: the virtual methods of UrfDevice, each a dispatch on the subclass to
-- src/urf-device-kernel.c (Device/Kernel) or src/urf-device-ofono.c (Device/Ofono). A method that
-- UrfDeviceOfono does not override takes the default of the base class.
pub mod Orders
pub mod Kernel
pub mod Ofono
pub mod Laws
pub mod Modem
pub mod Names
pub mod Udev
pub mod Register
use urfkill.Prelude.{ℕ, Bool, false, Option, none, some, String, List, if◌then◌else◌}
use urfkill.Utils.{KillswitchState, rfkill_type_wwan}
use urfkill.Store.{
  Device, kernel, ofono, DevicePath, device_path, Output, Outside, Store, write_object,
}
use Kernel
use Ofono

abbrev pub get_index : Device → ℕ
get_index (kernel d) = d.index
get_index (ofono d) = d.index

abbrev pub get_device_type : Device → ℕ
get_device_type (kernel d) = d.type
get_device_type (ofono d) = rfkill_type_wwan

abbrev pub is_hardware_blocked : Device → Bool
is_hardware_blocked (kernel d) = d.hard
is_hardware_blocked (ofono d) = false

unfoldable pub is_software_blocked : Device → Bool
unfolding Ofono.get_soft
is_software_blocked (kernel d) = d.soft
is_software_blocked (ofono d) = Ofono.get_soft d

abbrev pub is_platform : Device → Bool
is_platform (kernel d) = d.platform
is_platform (ofono d) = false

unfoldable pub get_state : Device → KillswitchState
unfolding Kernel.get_state Ofono.get_state
get_state (kernel d) = Kernel.get_state d
get_state (ofono d) = Ofono.get_state d

unfoldable pub set_soft : Outside → Device → Bool → List Output → Bool × Device × List Output
unfolding Kernel.set_soft Ofono.set_soft
set_soft w (kernel d) blocked out =
    let (ok, d', out') = Kernel.set_soft w d blocked out in (ok, kernel d', out')
set_soft w (ofono d) blocked out =
    let (ok, d', out') = Ofono.set_soft d blocked out in (ok, ofono d', out')

unfoldable pub update_states :
    Outside → Device → (soft hard : Bool) → List Output → Bool × Device × List Output
unfolding Kernel.update_states
update_states w (kernel d) soft hard out =
    let (changed, d', out') = Kernel.update_states w d soft hard out in (changed, kernel d', out')
update_states w (ofono d) soft hard out = (false, ofono d, out)

-- urf_device_get_object_path, as urf_device_compute_object_path sets it.
abbrev pub get_object_path : Device → DevicePath
get_object_path d = device_path (get_index d)

-- The argument is checked: NULL for an object that is no modem.
abbrev pub urf_device_ofono_get_path : Device → Option String
urf_device_ofono_get_path (kernel d) = none
urf_device_ofono_get_path (ofono d) = some d.object_path

-- urf_device_set_software_blocked on the object at `p`.
unfoldable pub urf_device_set_software_blocked : Outside → ℕ → Bool → Store → Bool × Store
unfolding set_soft
urf_device_set_software_blocked w p blocked s =
    let (ok, d, out) = set_soft w (s.heap p) blocked s.out in
    (ok, record (write_object s p d) { out = out })

-- urf_device_update_states on the object at `p`.
unfoldable pub urf_device_update_states : Outside → ℕ → (soft hard : Bool) → Store → Bool × Store
unfolding update_states
urf_device_update_states w p soft hard s =
    let (changed, d, out) = update_states w (s.heap p) soft hard s.out in
    (changed, record (write_object s p d) { out = out })
