-- ===== src/Client/Mirror.antt =====
-- A client that enumerates sees the devices of the daemon (urf_client_enumerate_devices_sync of
-- liburfkill-glib/urf-client.c with the properties of src/urf-device.c and its subclasses).
use urfkill.Prelude.{
  ℕ, ◌≡◌, refl, ap, ◌∙◌, sym, Bool, true, false, Option, none, some, String, List, [], ◌∷◌, ◌++◌,
  map, All, pos, append_assoc, append-nil,
}
use urfkill.Store.{Device, kernel, ofono, DevicePath}
use urfkill.Device.{
  get_index, get_device_type, is_platform, is_software_blocked, is_hardware_blocked,
  get_object_path,
}
use urfkill.Device.Names.{get_urf_type, get_name}
use urfkill.Daemon.{Daemon, urf_daemon_enumerate_devices, Reply, paths}
use urfkill.Daemon.Properties.{
  Value, int32, boolean, new_string, device_property, kernel_property, ofono_property,
}
use urfkill.Client.{
  RemoteDevice, Properties, Remote, cached, Client, is_absolute, urf_device_init,
  urf_device_set_object_path_sync, urf_client_add, add_remotes, urf_client_enumerate_devices_sync,
}

-- The interface of the subclass.
abbrev pub specialized_property : Device → String → Option Value
specialized_property (kernel d) = kernel_property d
specialized_property (ofono d) = ofono_property d

abbrev pub new_boolean : Option Bool → Option Value
new_boolean none = none
new_boolean (some x) = some (boolean x)

-- What the library relies on of GDBus: the two proxies that are made for the path of a device
-- hold what the handlers of its two interfaces give for the properties, and none where a handler
-- gives NULL.
pub record Serves (unknown : String) (remote : Remote) (path : String) (d : Device) : Type 0 where
  pub properties : Properties
  pub there : remote.properties path ≡ some properties
  pub specialized : remote.specialized path ≡ true
  pub index : (device_property unknown d "index").0 ≡ some (int32 (pos properties.index))
  pub type : (device_property unknown d "type").0 ≡ some (int32 (pos properties.type))
  pub platform : (device_property unknown d "platform").0 ≡ some (boolean properties.platform)
  pub name : (device_property unknown d "name").0 ≡ new_string properties.name
  pub urftype : (device_property unknown d "urftype").0 ≡ new_string properties.urftype
  pub soft : specialized_property d "soft" ≡ new_boolean properties.soft
  pub hard : specialized_property d "hard" ≡ new_boolean properties.hard

-- The object of the client has the values of the daemon's.
pub record Mirrors (unknown : String) (path : String) (d : Device) (r : RemoteDevice) : Type 0 where
  pub object_path : r.object_path ≡ some path
  pub index : r.index ≡ get_index d
  pub type : r.type ≡ get_device_type d
  pub platform : r.platform ≡ is_platform d
  pub name : r.name ≡ (get_name unknown d).0
  pub urftype : r.urftype ≡ some (get_urf_type d)
  pub soft : r.soft ≡ is_software_blocked d
  pub hard : r.hard ≡ is_hardware_blocked d
  pub is_initialized : r.is_initialized ≡ true

int32_inj : {a b : ℕ} → some (int32 (pos a)) ≡ some (int32 (pos b)) → a ≡ b
int32_inj h = cc

boolean_inj : {a b : Bool} → some (boolean a) ≡ some (boolean b) → b ≡ a
boolean_inj h = cc

new_string_inj : (a b : Option String) → new_string a ≡ new_string b → a ≡ b
new_string_inj none none h = refl
new_string_inj none (some t) h = cc
new_string_inj (some t) none h = cc
new_string_inj (some t) (some u) h = cc

value_told : (o : Option Bool) {x : Bool} → some (boolean x) ≡ new_boolean o → cached o false ≡ x
value_told none h = cc
value_told (some y) h = cc

value_left : (o : Option Bool) → none ≡ new_boolean o → cached o false ≡ false
value_left none h = refl
value_left (some y) h = cc

set_object_path-Mirrors :
    (unknown : String) (remote : Remote) (path : String) (d : Device)
    → is_absolute path ≡ true
    → Serves unknown remote path d
    → Mirrors unknown path d (urf_device_set_object_path_sync remote path urf_device_init).1
unfolding urf_device_set_object_path_sync device_property kernel_property ofono_property
    is_software_blocked
set_object_path-Mirrors unknown remote path (kernel d) a v =
    rw (a, v.there, v.specialized)
      (record {
        object_path = refl;
        index = sym (int32_inj v.index);
        type = sym (int32_inj v.type);
        platform = boolean_inj v.platform;
        name = sym (new_string_inj _ _ v.name);
        urftype = sym (new_string_inj _ _ v.urftype);
        soft = value_told v.properties.soft v.soft;
        hard = value_told v.properties.hard v.hard;
        is_initialized = refl;
      })
set_object_path-Mirrors unknown remote path (ofono d) a v =
    rw (a, v.there, v.specialized)
      (record {
        object_path = refl;
        index = sym (int32_inj v.index);
        type = sym (int32_inj v.type);
        platform = boolean_inj v.platform;
        name = sym (new_string_inj _ _ v.name);
        urftype = sym (new_string_inj _ _ v.urftype);
        soft = value_told v.properties.soft v.soft;
        hard = value_left v.properties.hard v.hard;
        is_initialized = refl;
      })

-- One object of the client for each device, in the order of the daemon's list.
abbrev pub MirrorsAll :
    (unknown : String) (print : DevicePath → String) → List Device → List RemoteDevice → Type 0
MirrorsAll unknown print [] [] = Unit
MirrorsAll unknown print (d ∷ ds) (r ∷ rs) =
    Mirrors unknown (print (get_object_path d)) d r × MirrorsAll unknown print ds rs
MirrorsAll unknown print [] (r ∷ rs) = ⊥
MirrorsAll unknown print (d ∷ ds) [] = ⊥

abbrev pub new_device : Remote → String → RemoteDevice
new_device remote path = (urf_device_set_object_path_sync remote path urf_device_init).1

pub add_remotes-devices :
    (remote : Remote) (ps : List String) (c : Client)
    → (add_remotes remote ps c).devices ≡ c.devices ++ map (new_device remote) ps
unfolding add_remotes urf_client_add
add_remotes-devices remote [] c = sym (append-nil c.devices)
add_remotes-devices remote (p ∷ ps) c =
    add_remotes-devices remote ps (urf_client_add remote p c).1
    ∙ append_assoc c.devices (new_device remote p ∷ []) (map (new_device remote) ps)

new_devices-MirrorsAll :
    (unknown : String) (print : DevicePath → String) (remote : Remote)
    → ((p : DevicePath) → is_absolute (print p) ≡ true)
    → (ds : List Device) → All (λ d. Serves unknown remote (print (get_object_path d)) d) ds
    → MirrorsAll unknown print ds
        (map (new_device remote) (map (λ d. print (get_object_path d)) ds))
new_devices-MirrorsAll unknown print remote a [] v = tt
new_devices-MirrorsAll unknown print remote a (d ∷ ds) v = (
  set_object_path-Mirrors unknown remote (print (get_object_path d)) d (a (get_object_path d)) v.0,
  new_devices-MirrorsAll unknown print remote a ds v.1,
)

-- The paths of the latest reply, as texts.
abbrev pub answer_of : (print : DevicePath → String) → List Reply → Option (List String)
answer_of print (paths ps ∷ rs) = some (map print ps)
answer_of print _ = none

printed_paths :
    (print : DevicePath → String) (heap : ℕ → Device) (refs : List ℕ)
    → map print (map (λ p. get_object_path (heap p)) refs)
      ≡ map (λ x. print (get_object_path x)) (map heap refs)
printed_paths print heap [] = refl
printed_paths print heap (p ∷ ps) =
    ap (λ qs. print (get_object_path (heap p)) ∷ qs) (printed_paths print heap ps)

-- A client that enumerates the devices of a daemon, by the paths that the daemon replies, each one
-- printed as an absolute path, succeeds, and gets at the end of its list one object for each
-- device of the daemon, in that order, with the path of the device and the index, type, platform,
-- name, interface, soft block and hard block that the daemon has for it. GDBus is relied on to
-- hold, in the two proxies of a path, what the handlers of the daemon give for the properties.
pub enumerate_mirrors :
    {File : Type 0} (unknown : String) (print : DevicePath → String) (remote : Remote)
    (d : Daemon File) (c : Client)
    → ((p : DevicePath) → is_absolute (print p) ≡ true)
    → let devices = map d.arbitrator.store.heap d.arbitrator.devices in
      All (λ x. Serves unknown remote (print (get_object_path x)) x) devices
      → let answer = answer_of print (urf_daemon_enumerate_devices d).replies in
        let x = urf_client_enumerate_devices_sync remote answer c in
        (x.0 ≡ true)
        × (x.1.is_enumerated ≡ true)
        × ((rs : List RemoteDevice) × (x.1.devices ≡ c.devices ++ rs)
            × MirrorsAll unknown print devices rs)
unfolding urf_daemon_enumerate_devices urf_client_enumerate_devices_sync
enumerate_mirrors unknown print remote d c a v =
    let heap = d.arbitrator.store.heap in
    let ps = map (λ x. print (get_object_path x)) (map heap d.arbitrator.devices) in
    let same = printed_paths print heap d.arbitrator.devices in
    (
      refl,
      refl,
      (
        map (new_device remote) ps,
        add_remotes-devices remote _ c
            ∙ ap (λ (qs : List String). c.devices ++ map (new_device remote) qs) same,
        new_devices-MirrorsAll unknown print remote a _ v,
      ),
    )
