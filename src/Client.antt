-- ===== src/Client.antt =====
-- liburfkill-glib/urf-client.c with the devices of liburfkill-glib/urf-device.c: what a program that
-- uses the library knows of the daemon's devices.
pub mod Paths
pub mod Known
pub mod Calls
pub mod Mirror
pub mod Sync
pub mod Following
pub mod Objects
pub mod Switches
use urfkill.Prelude.{
  ℕ, Bool, true, false, not, Option, none, some, String, List, [], ◌∷◌, ◌++◌, str_eq, ◌==◌, ◌&&◌,
  ◌||◌, ◌>>=◌, is_empty, if◌then◌else◌,
}
use Prim.Native.String
use Prim.Native.Char.{code}
use urfkill.Config.Rules.{opt_eq}

-- struct _UrfDevicePrivate of the library. The pointers to proxies are told to be NULL or not.
pub record RemoteDevice : Type 0 where
  pub proxy : Bool
  pub specialized_proxy : Bool
  pub object_path : Option String
  pub index : ℕ
  pub type : ℕ
  pub soft : Bool
  pub hard : Bool
  pub name : Option String
  pub urftype : Option String
  pub platform : Bool
  pub is_initialized : Bool

-- The properties that the proxies of a device hold; soft and hard may not be there.
pub record Properties : Type 0 where
  pub index : ℕ
  pub type : ℕ
  pub platform : Bool
  pub name : Option String
  pub urftype : Option String
  pub soft : Option Bool
  pub hard : Option Bool

-- The bus, as the library sees it: the properties of the object at a path, or none if the proxy
-- cannot be made, and whether the second proxy, by the type of the device, can.
pub record Remote : Type 0 where
  pub properties : String → Option Properties
  pub specialized : String → Bool

-- What the client emits.
pub data ClientSignal : Type 0 where
  device_added device_removed device_changed : RemoteDevice → ClientSignal
  rf_key_pressed : (keycode : ℕ) → ClientSignal

-- What the daemon signals.
pub data DaemonSignal : Type 0 where
  added removed changed : (object_path : String) → DaemonSignal
  urfkey_pressed : (keycode : ℕ) → DaemonSignal

-- struct _UrfClientPrivate, with the signals emitted, the latest first.
pub record Client : Type 0 where
  pub proxy : Bool
  pub devices : List RemoteDevice
  pub is_enumerated : Bool
  pub signals : List ClientSignal

abbrev pub urf_device_init : RemoteDevice
urf_device_init = record {
  proxy = false;
  specialized_proxy = false;
  object_path = none;
  index = 0;
  type = 0;
  soft = false;
  hard = false;
  name = none;
  urftype = none;
  platform = false;
  is_initialized = false;
}

abbrev pub cached : Option Bool → (old : Bool) → Bool
cached none old = old
cached (some b) old = b

-- urf_device_refresh_private; urf_device_changed_cb is a call of it.
unfoldable pub urf_device_refresh_private : Properties → RemoteDevice → RemoteDevice
urf_device_refresh_private p d =
    let d' : RemoteDevice =
      if d.specialized_proxy
      then record d { soft = cached p.soft d.soft; hard = cached p.hard d.hard }
      else d in
    if d'.is_initialized
    then d'
    else record d' { index = p.index; type = p.type; platform = p.platform; name = p.name }

-- `object_path[0] == '/'`
abbrev pub is_absolute : String → Bool
is_absolute String.[] = false
is_absolute (String.◌∷◌ c s) = code c == b'/'

-- The result is FALSE in any case: nothing sets `ret`.
unfoldable pub urf_device_set_object_path_sync :
    Remote → (object_path : String) → RemoteDevice → Bool × RemoteDevice
unfolding urf_device_refresh_private
urf_device_set_object_path_sync remote object_path d =
    let connected : Properties → RemoteDevice = λ p.
      let d' = record d { proxy = true; object_path = some object_path; urftype = p.urftype } in
      let fresh = urf_device_refresh_private p (record d' { specialized_proxy = true }) in
      if remote.specialized object_path then record fresh { is_initialized = true } else d' in
    let made : RemoteDevice = elim (remote.properties object_path) [
      | none ↦ d
      | some p ↦ connected p
    ] in
    let is_new : Bool = elim d.object_path [ none ↦ true | some old ↦ false ] in
    (false, if is_new && is_absolute object_path then made else d)

unfoldable pub find_remote : List RemoteDevice → (object_path : String) → Option RemoteDevice
find_remote [] object_path = none
find_remote (d ∷ ds) object_path =
    if opt_eq d.object_path object_path then some d else find_remote ds object_path

unfoldable pub urf_client_find_device : Client → (object_path : String) → Option RemoteDevice
unfolding find_remote
urf_client_find_device c object_path = find_remote c.devices object_path

unfoldable pub urf_client_add : Remote → (object_path : String) → Client → RemoteDevice × Client
unfolding urf_device_set_object_path_sync
urf_client_add remote object_path c =
    let (_, device) = urf_device_set_object_path_sync remote object_path urf_device_init in
    (device, record c { devices = c.devices ++ device ∷ [] })

abbrev pub emit : ClientSignal → Client → Client
emit s c = record c { signals = s ∷ c.signals }

unfoldable pub urf_client_device_added : Remote → (object_path : String) → Client → Client
unfolding urf_client_find_device urf_client_add
urf_client_device_added remote object_path c =
    let (device, c') = urf_client_add remote object_path c in
    elim (urf_client_find_device c object_path) [
      | none ↦ emit (device_added device) c'
      | some old ↦ c
    ]

-- g_list_remove of the device that the search has found: the first with the path.
unfoldable pub remove_remote : (object_path : String) → List RemoteDevice → List RemoteDevice
remove_remote object_path [] = []
remove_remote object_path (d ∷ ds) =
    if opt_eq d.object_path object_path then ds else d ∷ remove_remote object_path ds

unfoldable pub urf_client_device_removed : (object_path : String) → Client → Client
unfolding urf_client_find_device remove_remote
urf_client_device_removed object_path c = elim (urf_client_find_device c object_path) [
  | none ↦ c
  | some device ↦
      emit (device_removed device) (record c { devices = remove_remote object_path c.devices })
]

unfoldable pub urf_client_device_changed : (object_path : String) → Client → Client
unfolding urf_client_find_device
urf_client_device_changed object_path c = elim (urf_client_find_device c object_path) [
  | none ↦ c
  | some device ↦ emit (device_changed device) c
]

-- The loop of urf_client_get_devices_private over the answer of EnumerateDevices.
unfoldable pub add_remotes : Remote → List String → Client → Client
unfolding urf_client_add
add_remotes remote [] c = c
add_remotes remote (object_path ∷ paths) c =
    add_remotes remote paths (urf_client_add remote object_path c).1

-- urf_client_enumerate_devices_sync; none is an error of the call.
unfoldable pub urf_client_enumerate_devices_sync :
    Remote → (answer : Option (List String)) → Client → Bool × Client
unfolding add_remotes
urf_client_enumerate_devices_sync remote none c = (false, c)
urf_client_enumerate_devices_sync remote (some paths) c =
    (true, record (add_remotes remote paths c) { is_enumerated = true })

unfoldable pub urf_client_proxy_signal_cb : Remote → DaemonSignal → Client → Client
unfolding urf_client_device_added urf_client_device_removed urf_client_device_changed
urf_client_proxy_signal_cb remote (urfkey_pressed keycode) c = emit (rf_key_pressed keycode) c
urf_client_proxy_signal_cb remote (added path) c =
    if c.is_enumerated then urf_client_device_added remote path c else c
urf_client_proxy_signal_cb remote (removed path) c =
    if c.is_enumerated then urf_client_device_removed path c else c
urf_client_proxy_signal_cb remote (changed path) c =
    if c.is_enumerated then urf_client_device_changed path c else c

-- One signal after the other.
unfoldable pub hear_signals : Remote → List DaemonSignal → Client → Client
unfolding urf_client_proxy_signal_cb
hear_signals remote [] c = c
hear_signals remote (s ∷ ss) c = hear_signals remote ss (urf_client_proxy_signal_cb remote s c)

-- `connected` tells whether the proxy of the daemon can be made.
unfoldable pub urf_client_init : (connected : Bool) → Client
urf_client_init connected = record {
  proxy = connected;
  devices = [];
  is_enumerated = false;
  signals = [];
}
