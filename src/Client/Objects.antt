-- ===== src/Client/Objects.antt =====
-- The objects of the library as GObject reads and writes them (liburfkill-glib/urf-device.c and
-- liburfkill-glib/urf-client.c), and the one client of a program.
pub mod Reads
use urfkill.Prelude.{
  ℕ, ◌+◌, ◌-◌, ◌^◌, Bool, true, false, Option, none, some, String, str_eq, ℤ, pos, negsuc, ◌>>=◌,
  [], if◌then◌else◌,
}
use urfkill.Utils.{num_rfkill_types}
use urfkill.Daemon.Properties.{Value, int32, boolean, new_string}
use urfkill.Client.{RemoteDevice, Client, urf_client_init}
use urfkill.Client.Calls.{Bus, urf_device_set_block}

-- The ids of the properties of a device.
pub data DeviceProp : Type 0 where
  prop_device_index prop_device_type prop_device_soft prop_device_hard : DeviceProp
  prop_device_name prop_device_platform : DeviceProp

-- A param spec: the kind with its bounds and its default, and the flags.
pub data Kind : Type 0 where
  int_kind : (minimum maximum default_value : ℤ) → Kind
  boolean_kind : (default_value : Bool) → Kind
  string_kind : (default_value : Option String) → Kind

pub record ParamSpec : Type 0 where
  pub id : DeviceProp
  pub kind : Kind
  pub writable : Bool

-- What urf_device_class_init installs; all of it is readable.
unfoldable pub urf_device_class_init : (name : String) → Option ParamSpec
urf_device_class_init name =
    if str_eq name "index"
    then some (record {
      id = prop_device_index;
      kind = int_kind (negsuc 0) (pos (2 ^ 31 - 1)) (pos 0);
      writable = false;
    })
    else if str_eq name "type"
    then some (record {
      id = prop_device_type;
      kind = int_kind (negsuc 0) (pos (num_rfkill_types - 1)) (pos 0);
      writable = false;
    })
    else if str_eq name "soft"
    then some (record { id = prop_device_soft; kind = boolean_kind false; writable = true })
    else if str_eq name "hard"
    then some (record { id = prop_device_hard; kind = boolean_kind false; writable = false })
    else if str_eq name "name"
    then some (record { id = prop_device_name; kind = string_kind none; writable = false })
    else if str_eq name "platform"
    then some (record { id = prop_device_platform; kind = boolean_kind false; writable = false })
    else none

-- none stands for a string that is NULL.
unfoldable pub urf_device_get_property : RemoteDevice → DeviceProp → Option Value
urf_device_get_property d prop_device_index = some (int32 (pos d.index))
urf_device_get_property d prop_device_type = some (int32 (pos d.type))
urf_device_get_property d prop_device_soft = some (boolean d.soft)
urf_device_get_property d prop_device_hard = some (boolean d.hard)
urf_device_get_property d prop_device_name = new_string d.name
urf_device_get_property d prop_device_platform = some (boolean d.platform)

-- The value is a Boolean: only `soft` gets one. `connected` is as in urf_device_set_block.
unfoldable pub urf_device_set_property :
    {World : Type 0}
    → Bus World
    → (connected : Bool) → RemoteDevice
    → DeviceProp
    → Bool
    → World
    → World
unfolding urf_device_set_block
urf_device_set_property call connected d prop_device_soft b world =
    urf_device_set_block call connected d b world
urf_device_set_property call connected d _ b world = world

unfoldable pub urf_device_dispose : RemoteDevice → RemoteDevice
urf_device_dispose d = record d { proxy = false; specialized_proxy = false }

-- The two properties of the daemon that the proxy of a client holds, none where it holds none.
pub record Cache : Type 0 where
  pub daemon_version : Option String
  pub key_control : Option Bool

-- The fields of struct _UrfClientPrivate for them.
pub record ClientProperties : Type 0 where
  pub daemon_version : Option String
  pub key_control : Bool

pub data ClientProp : Type 0 where
  prop_daemon_version prop_key_control : ClientProp

-- A property that the proxy does not hold is read from NULL, which is a fault.
unfoldable pub urf_client_get_properties_sync : Cache → ClientProperties → Option ClientProperties
urf_client_get_properties_sync cache c = do
  version ← cache.daemon_version
  control ← cache.key_control
  some (record { daemon_version = some version; key_control = control })

unfoldable pub urf_client_get_daemon_version :
    Cache → ClientProperties → Option (Option String × ClientProperties)
unfolding urf_client_get_properties_sync
urf_client_get_daemon_version cache c = do
  c' ← urf_client_get_properties_sync cache c
  some (c'.daemon_version, c')

unfoldable pub urf_client_get_key_control :
    Cache → ClientProperties → Option (Bool × ClientProperties)
unfolding urf_client_get_properties_sync
urf_client_get_key_control cache c = do
  c' ← urf_client_get_properties_sync cache c
  some (c'.key_control, c')

unfoldable pub urf_client_get_property :
    Cache → ClientProperties → ClientProp → Option (Option Value × ClientProperties)
unfolding urf_client_get_properties_sync urf_client_get_daemon_version urf_client_get_key_control
urf_client_get_property cache c prop_daemon_version = do
  c' ← urf_client_get_properties_sync cache c
  (version, c'') ← urf_client_get_daemon_version cache c'
  some (new_string version, c'')
urf_client_get_property cache c prop_key_control = do
  c' ← urf_client_get_properties_sync cache c
  (control, c'') ← urf_client_get_key_control cache c'
  some (some (boolean control), c'')

-- The ids that urf_client_class_init installs.
unfoldable pub urf_client_class_init : (name : String) → Option ClientProp
urf_client_class_init name =
    if str_eq name "daemon-version"
    then some prop_daemon_version
    else if str_eq name "key-control"
    then some prop_key_control
    else none

unfoldable pub urf_client_dispose : Client → Client
urf_client_dispose c = record c { proxy = false }

unfoldable pub urf_client_finalize : Client → Client
urf_client_finalize c = record c { devices = [] }

-- urf_client_object with the number of its references.
unfoldable pub urf_client_new :
    (connected : Bool) → Option (Client × ℕ) → Client × Option (Client × ℕ)
unfolding urf_client_init
urf_client_new connected none = let c = urf_client_init connected in (c, some (c, 1))
urf_client_new connected (some (c, references)) = (c, some (c, references + 1))
