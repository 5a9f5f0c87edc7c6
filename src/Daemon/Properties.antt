-- ===== src/Daemon/Properties.antt =====
-- The properties of the daemon's objects, as D-Bus and GObject read them: the handlers and getters
-- of src/urf-device.c, src/urf-device-kernel.c, src/urf-device-ofono.c, src/urf-killswitch.c and
-- src/urf-daemon.c.
pub mod Objects
pub mod Typed
use urfkill.Prelude.{
  ℕ, Bool, true, false, Option, none, some, String, str_eq, ℤ, pos, negsuc, if◌then◌else◌,
}
use urfkill.Utils.{KillswitchState, no_adapter, unblocked, soft_blocked, hard_blocked}
use urfkill.Store.{KernelDevice, OfonoDevice, Device}
use urfkill.Device.{get_index, get_device_type, get_state, is_platform}
use urfkill.Device.Ofono
use urfkill.Device.Names.{get_urf_type, get_name}
use urfkill.Killswitch.{Killswitch}
use urfkill.Daemon.{Daemon}

-- A GVariant of a type that the properties have.
pub data Value : Type 0 where
  int32 : ℤ → Value
  string : String → Value
  boolean : Bool → Value

-- The types of D-Bus that they stand for: i, s and b.
pub data Signature : Type 0 where
  i s b : Signature

-- The C values of the enum.
abbrev pub state_code : KillswitchState → ℤ
state_code no_adapter = negsuc 0
state_code unblocked = pos 0
state_code soft_blocked = pos 1
state_code hard_blocked = pos 2

-- g_variant_new_string, which is NULL for NULL.
abbrev pub new_string : Option String → Option Value
new_string none = none
new_string (some t) = some (string t)

-- The registrations of an object with an interface: the generic one of a device, that of its
-- subclass, that of a switch and that of the daemon.
pub data Exported (File : Type 0) : Type 0 where
  device : Device → Exported File
  kernel_device : KernelDevice → Exported File
  ofono_device : OfonoDevice → Exported File
  killswitch : Killswitch → Exported File
  main_object : Daemon File → Exported File

-- handle_get_property of src/urf-device.c. A modem keeps the name that is made for it.
unfoldable pub device_property : (unknown : String) → Device → String → Option Value × Device
device_property unknown d property_name =
    let (name, named) = get_name unknown d in
    if str_eq property_name "index"
    then (some (int32 (pos (get_index d))), d)
    else if str_eq property_name "type"
    then (some (int32 (pos (get_device_type d))), d)
    else if str_eq property_name "state"
    then (some (int32 (state_code (get_state d))), d)
    else if str_eq property_name "urftype"
    then (some (string (get_urf_type d)), d)
    else if str_eq property_name "name"
    then (new_string name, named)
    else if str_eq property_name "platform"
    then (some (boolean (is_platform d)), d)
    else (none, d)

unfoldable pub kernel_property : KernelDevice → String → Option Value
kernel_property d property_name =
    if str_eq property_name "soft"
    then some (boolean d.soft)
    else if str_eq property_name "hard"
    then some (boolean d.hard)
    else none

unfoldable pub ofono_property : OfonoDevice → String → Option Value
ofono_property d property_name =
    if str_eq property_name "soft" then some (boolean (Ofono.get_soft d)) else none

unfoldable pub killswitch_property : Killswitch → String → Option Value
killswitch_property ks property_name =
    if str_eq property_name "state" then some (int32 (state_code ks.state)) else none

unfoldable pub daemon_property :
    {File : Type 0} → (package_version : String) → Daemon File → String → Option Value
daemon_property package_version d property_name =
    if str_eq property_name "DaemonVersion"
    then some (string package_version)
    else if str_eq property_name "KeyControl"
    then some (boolean d.key_control)
    else none

-- The handler that GDBus runs for a property.
unfoldable pub handle_get_property :
    {File : Type 0} (package_version unknown : String) → Exported File → String → Option Value
unfolding device_property kernel_property ofono_property killswitch_property daemon_property
handle_get_property package_version unknown (device d) name = (device_property unknown d name).0
handle_get_property package_version unknown (kernel_device d) name = kernel_property d name
handle_get_property package_version unknown (ofono_device d) name = ofono_property d name
handle_get_property package_version unknown (killswitch ks) name = killswitch_property ks name
handle_get_property package_version unknown (main_object d) name =
    daemon_property package_version d name

-- What the introspection data of the interface declare.
unfoldable pub declared : {File : Type 0} → Exported File → String → Option Signature
declared (device d) name =
    if str_eq name "index"
    then some i
    else if str_eq name "type"
    then some i
    else if str_eq name "urftype"
    then some s
    else if str_eq name "name"
    then some s
    else if str_eq name "platform"
    then some b
    else none
declared (kernel_device d) name =
    if str_eq name "soft" then some b else if str_eq name "hard" then some b else none
declared (ofono_device d) name = if str_eq name "soft" then some b else none
declared (killswitch ks) name = if str_eq name "state" then some i else none
declared (main_object d) name =
    if str_eq name "DaemonVersion"
    then some s
    else if str_eq name "KeyControl"
    then some b
    else none
