-- ===== src/Client/Objects/Reads.antt =====
-- What the objects of the library give and take, compared with the daemon
-- (liburfkill-glib/urf-device.c and liburfkill-glib/urf-client.c).
use urfkill.Prelude.{
  ℕ, ◌≡◌, refl, Bool, true, false, Option, none, some, String, List, [], ◌∷◌, ◌<◌, ◌≤◌, ◌^◌, ◌||◌,
  All, arith, str_eq, pos, if◌then◌else◌, subst, some-injective,
}
use urfkill.Utils.{num_rfkill_types}
use urfkill.Store.{Device, kernel, ofono, Outside}
use urfkill.Device.{is_software_blocked}
use urfkill.Config.{KeyFile}
use urfkill.Session
use urfkill.Arbitrator.{Arbitrator, urf_arbitrator_has_devices}
use urfkill.Arbitrator.BlockIndex.{BlockedIndex}
use urfkill.Daemon.{Daemon, Caller, boolean, reply}
use urfkill.Daemon.Properties.{
  Value, int32, string, boolean as boolean_value, new_string, device_property, daemon_property,
  kernel_property, ofono_property, handle_get_property, main_object,
}
use urfkill.Daemon.Properties.Objects.{name_cases}
use urfkill.Client.{RemoteDevice, urf_client_init}
use urfkill.Client.Calls.{Bus, urf_device_set_block, urf_client_set_block_idx}
use urfkill.Client.Calls.Answers.{Delivers, client_block_idx}
use urfkill.Client.Mirror.{Mirrors, specialized_property, new_boolean}
use urfkill.Client.Objects.{
  prop_device_soft, Kind, int_kind, boolean_kind, string_kind, ParamSpec, urf_device_class_init,
  urf_device_get_property, urf_device_set_property, Cache, ClientProperties, ClientProp,
  prop_daemon_version, prop_key_control, urf_client_get_properties_sync,
  urf_client_get_daemon_version, urf_client_get_key_control, urf_client_get_property,
}

-- The property that the daemon's two interfaces of a device give.
abbrev pub bus_value : (unknown : String) → Device → (name : String) → Option Value
bus_value unknown d name =
    if str_eq name "soft" || str_eq name "hard"
    then specialized_property d name
    else (device_property unknown d name).0

abbrev pub property_names : List String
property_names = "index" ∷ "type" ∷ "soft" ∷ "hard" ∷ "name" ∷ "platform" ∷ []

pub Reads : (unknown : String) → Device → RemoteDevice → (name : String) → Type 0
Reads unknown d r name =
    (spec : ParamSpec) (v : Value)
    → urf_device_class_init name ≡ some spec
    → bus_value unknown d name ≡ some v
    → urf_device_get_property r spec.id ≡ some v

-- Six proofs, one for each property.
property_cases :
    (P : String → Type 0)
    → P "index"
    → P "type"
    → P "soft"
    → P "hard"
    → P "name"
    → P "platform"
    → ((name : String) → All (λ k. str_eq name k ≡ false) property_names → P name)
    → (name : String) → P name
property_cases P index type soft hard called platform other name =
    name_cases P name property_names (index, (type, (soft, (hard, (called, (platform, tt))))))
      (other name)

module _ (unknown path : String) (r : RemoteDevice) where
  pub property_read :
      (d : Device) → Mirrors unknown path d r → (name : String) → Reads unknown d r name
  unfolding Reads urf_device_class_init urf_device_get_property device_property kernel_property
      ofono_property is_software_blocked
  property_read (kernel d) m =
      property_cases (Reads unknown (kernel d) r) (λ spec v e h. ground (arith, m.index))
        (λ spec v e h. ground (arith, m.type)) (λ spec v e h. ground (arith, m.soft))
        (λ spec v e h. ground (arith, m.hard)) (λ spec v e h. ground (arith, m.name))
        (λ spec v e h. ground (arith, m.platform)) (λ name others spec v e h. ground arith)
  property_read (ofono d) m =
      property_cases (Reads unknown (ofono d) r) (λ spec v e h. ground (arith, m.index))
        (λ spec v e h. ground (arith, m.type)) (λ spec v e h. ground (arith, m.soft))
        (λ spec v e h. ground (arith, m.hard)) (λ spec v e h. ground (arith, m.name))
        (λ spec v e h. ground (arith, m.platform)) (λ name others spec v e h. ground arith)

-- A value that the kind allows.
abbrev pub Allows : Kind → Option Value → Type 0
Allows (int_kind low (pos high) x) (some (int32 (pos n))) = n ≤ high
Allows (int_kind low high x) v = ⊥
Allows (boolean_kind x) (some (boolean_value b)) = Unit
Allows (boolean_kind x) v = ⊥
Allows (string_kind x) (some (int32 n)) = ⊥
Allows (string_kind x) (some (boolean_value b)) = ⊥
Allows (string_kind x) v = Unit

pub HasKind : RemoteDevice → (name : String) → Type 0
HasKind r name =
    (spec : ParamSpec)
    → urf_device_class_init name ≡ some spec
    → Allows spec.kind (urf_device_get_property r spec.id)

allowed :
    (r : RemoteDevice) {x spec : ParamSpec}
    → some x ≡ some spec
    → Allows x.kind (urf_device_get_property r x.id)
    → Allows spec.kind (urf_device_get_property r spec.id)
allowed r {x} {spec} e h =
    subst (λ s. Allows s.kind (urf_device_get_property r s.id)) (some-injective x spec e) h

text_allowed : (o : Option String) → Allows (string_kind none) (new_string o)
text_allowed none = tt
text_allowed (some t) = tt

-- The values are in the bounds of the param specs, for an index of a gint and a known type.
pub property-HasKind :
    (r : RemoteDevice)
    → r.index < 2 ^ 31
    → r.type < num_rfkill_types
    → (name : String) → HasKind r name
unfolding HasKind urf_device_class_init urf_device_get_property
property-HasKind r lo hi =
    property_cases (HasKind r) (λ spec e. allowed r e (ground arith))
      (λ spec e. allowed r e (ground arith)) (λ spec e. allowed r e tt) (λ spec e. allowed r e tt)
      (λ spec e. allowed r e (text_allowed r.name)) (λ spec e. allowed r e tt)
      (λ name others spec e. absurd (ground (arith, others)))

version_held : (v : String) (o : Option String) → some (string v) ≡ new_string o → o ≡ some v
version_held v none h = cc
version_held v (some u) h = cc

control_held : (x : Bool) (o : Option Bool) → some (boolean_value x) ≡ new_boolean o → o ≡ some x
control_held x none h = cc
control_held x (some u) h = cc

abbrev pub dbus_name_of : ClientProp → String
dbus_name_of prop_daemon_version = "DaemonVersion"
dbus_name_of prop_key_control = "KeyControl"

-- A client whose proxy holds the properties of the daemon gives them.
pub client_property_read :
    {File : Type 0} (package_version unknown : String) (d : Daemon File) (cache : Cache)
    (c : ClientProperties)
    → handle_get_property package_version unknown (main_object d) "DaemonVersion"
      ≡ new_string cache.daemon_version
    → handle_get_property package_version unknown (main_object d) "KeyControl"
      ≡ new_boolean cache.key_control
    → (p : ClientProp)
    → (c' : ClientProperties) × (urf_client_get_property cache c p
        ≡ some (handle_get_property package_version unknown (main_object d) (dbus_name_of p), c'))
unfolding handle_get_property daemon_property urf_client_get_property urf_client_get_daemon_version
    urf_client_get_key_control urf_client_get_properties_sync
client_property_read package_version unknown d cache c version control prop_daemon_version =
    let v = version_held package_version cache.daemon_version version in
    let k = control_held d.key_control cache.key_control control in rw (v, k) (_, refl)
client_property_read package_version unknown d cache c version control prop_key_control =
    let v = version_held package_version cache.daemon_version version in
    let k = control_held d.key_control cache.key_control control in rw (v, k) (_, refl)

-- A write of the soft block of a device of the library is the method BlockIdx for its index.
pub set_property_lem :
    {File : Type 0} (kf : KeyFile File) (w : Outside) (sessions : Session.Bus) (draws : List ℕ)
    (caller : Caller) (call : Bus (Daemon File)) (r : RemoteDevice) (b : Bool) (d : Daemon File)
    → Delivers kf w sessions draws caller call
    → urf_arbitrator_has_devices d.arbitrator ≡ true
    → caller.subject ≡ true
    → caller.authorization "org.freedesktop.urfkill.blockidx" ≡ some true
    → r.index < 2 ^ 31
    → (x : Bool) × (a' : Arbitrator File) × (urf_device_set_property call true r prop_device_soft b
          d
        ≡ reply (boolean x) (record d { arbitrator = a' }))
      × BlockedIndex r.index b d.arbitrator x a'
unfolding urf_device_set_property urf_device_set_block urf_client_set_block_idx urf_client_init
set_property_lem kf w sessions draws caller call r b d bus some_device found may small =
    let k =
      client_block_idx kf w sessions draws caller call bus (urf_client_init true) refl (pos r.index)
        b d some_device found may small in
    let (a', done, blocked) = k.sent r.index refl in (_, a', done, blocked)
