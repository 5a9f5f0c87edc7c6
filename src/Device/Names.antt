-- ===== src/Device/Names.antt =====
-- src/urf-device.c, src/urf-device-kernel.c, src/urf-device-ofono.c: the names of a device and of
-- its D-Bus interface, and the setters that the arbitrator does not call.
use urfkill.Prelude.{Bool, false, Option, none, some, String}
use urfkill.Utils.{KillswitchState}
use urfkill.Store.{Variant, boolean, string, other, OfonoDevice, Device, kernel, ofono}
use urfkill.Device.Kernel
use urfkill.Device.Ofono
use Prim.Native.String.{◌++◌}

abbrev pub urf_device_interface : String
urf_device_interface = "org.freedesktop.URfkill.Device"

abbrev pub urf_device_kernel_interface : String
urf_device_kernel_interface = "org.freedesktop.URfkill.Device.Kernel"

abbrev pub urf_device_ofono_interface : String
urf_device_ofono_interface = "org.freedesktop.URfkill.Device.Ofono"

abbrev pub get_urf_type : Device → String
get_urf_type (kernel d) = urf_device_kernel_interface
get_urf_type (ofono d) = urf_device_ofono_interface

-- g_variant_get_string, which is NULL on a value of another type.
abbrev pub get_string : Variant → Option String
get_string (string s) = some s
get_string (boolean b) = none
get_string other = none

-- g_strjoin (" ", first, second, NULL): the arguments end at the first NULL.
abbrev pub strjoin : (first second : Option String) → String
strjoin none second = ""
strjoin (some s) none = s
strjoin (some s) (some t) = s ++ (" " ++ t)

-- `unknown` is the translation of that word.
abbrev pub property_string : (unknown : String) → Option Variant → Option String
property_string unknown none = some unknown
property_string unknown (some v) = get_string v

-- The name of a modem, which it keeps.
unfoldable pub ofono_get_name : (unknown : String) → OfonoDevice → String × OfonoDevice
unfolding Ofono.lookup
ofono_get_name unknown d =
    let manufacturer = property_string unknown (Ofono.lookup "Manufacturer" d.properties) in
    let model = property_string unknown (Ofono.lookup "Model" d.properties) in
    let name = strjoin manufacturer model in (name, record d { name = some name })

unfoldable pub get_name : (unknown : String) → Device → Option String × Device
unfolding ofono_get_name
get_name unknown (kernel d) = (d.name, kernel d)
get_name unknown (ofono d) =
    let (name, named) = ofono_get_name unknown d in (some name, ofono named)

-- The default is that of the base class.
unfoldable pub urf_device_set_hardware_blocked : Device → Bool → Bool × Device
unfolding Kernel.set_hard
urf_device_set_hardware_blocked (kernel d) blocked =
    let (result, d') = Kernel.set_hard d blocked in (result, kernel d')
urf_device_set_hardware_blocked (ofono d) blocked = (false, ofono d)

-- No class has the method set_state.
unfoldable pub urf_device_set_state : Device → KillswitchState → Device
urf_device_set_state d state = d
