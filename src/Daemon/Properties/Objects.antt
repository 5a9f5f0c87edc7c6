-- ===== src/Daemon/Properties/Objects.antt =====
-- The properties of the daemon's objects as GObject reads them: what the class_init functions
-- install and what the get_property functions give.
use urfkill.Prelude.{
  ◌≡◌, false, Option, none, some, String, List, [], ◌∷◌, All, str_eq, pos, if◌then◌else◌, arith,
  sym, subst, eq_iff, Bool-cases, inl, inr,
}
use urfkill.Store.{KernelDevice, OfonoDevice, Device}
use urfkill.Device.{get_index, get_device_type, is_platform}
use urfkill.Device.Ofono
use urfkill.Device.Names.{get_urf_type, get_name}
use urfkill.Killswitch.{Killswitch}
use urfkill.Daemon.{Daemon}
use urfkill.Daemon.Properties.{
  Value, int32, string, boolean, Signature, i, s, b, Exported, device, kernel_device, ofono_device,
  killswitch, main_object, handle_get_property, declared, new_string, state_code,
}

-- The ids of the properties. Each class has an enum of its own.
pub data Prop : Type 0 where
  prop_device_index prop_device_type prop_urf_type prop_device_name prop_device_platform : Prop
  prop_device_soft prop_device_hard : Prop
  prop_soft : Prop
  prop_state : Prop
  prop_daemon_version prop_key_control : Prop

-- urf_device_get_property; none stands for a string that is NULL, and for an id of no property.
unfoldable pub urf_device_get_property : (unknown : String) → Device → Prop → Option Value × Device
urf_device_get_property unknown d prop_device_index = (some (int32 (pos (get_index d))), d)
urf_device_get_property unknown d prop_device_type = (some (int32 (pos (get_device_type d))), d)
urf_device_get_property unknown d prop_device_name =
    let (name, named) = get_name unknown d in (new_string name, named)
urf_device_get_property unknown d prop_urf_type = (some (string (get_urf_type d)), d)
urf_device_get_property unknown d prop_device_platform = (some (boolean (is_platform d)), d)
urf_device_get_property unknown d _ = (none, d)

unfoldable pub kernel_get_property : KernelDevice → Prop → Option Value
kernel_get_property d prop_device_soft = some (boolean d.soft)
kernel_get_property d prop_device_hard = some (boolean d.hard)
kernel_get_property d _ = none

unfoldable pub ofono_get_property : OfonoDevice → Prop → Option Value
ofono_get_property d prop_soft = some (boolean (Ofono.get_soft d))
ofono_get_property d _ = none

unfoldable pub urf_killswitch_get_property : Killswitch → Prop → Option Value
urf_killswitch_get_property ks prop_state = some (int32 (state_code ks.state))
urf_killswitch_get_property ks _ = none

module _ {File : Type 0} where
  unfoldable pub urf_daemon_get_property :
      (package_version : String) → Daemon File → Prop → Option Value
  urf_daemon_get_property package_version d prop_daemon_version = some (string package_version)
  urf_daemon_get_property package_version d prop_key_control = some (boolean d.key_control)
  urf_daemon_get_property package_version d _ = none

  unfoldable pub get_property :
      (package_version unknown : String) → Exported File → Prop → Option Value
  unfolding urf_device_get_property kernel_get_property ofono_get_property
      urf_killswitch_get_property urf_daemon_get_property
  get_property package_version unknown (device d) p = (urf_device_get_property unknown d p).0
  get_property package_version unknown (kernel_device d) p = kernel_get_property d p
  get_property package_version unknown (ofono_device d) p = ofono_get_property d p
  get_property package_version unknown (killswitch ks) p = urf_killswitch_get_property ks p
  get_property package_version unknown (main_object d) p =
      urf_daemon_get_property package_version d p

  -- What the class_init functions install: the id and the kind of the param spec.
  unfoldable pub find_property : Exported File → String → Option (Prop × Signature)
  find_property (device d) name =
      if str_eq name "index"
      then some (prop_device_index, i)
      else if str_eq name "type"
      then some (prop_device_type, i)
      else if str_eq name "urftype"
      then some (prop_urf_type, s)
      else if str_eq name "name"
      then some (prop_device_name, s)
      else if str_eq name "platform"
      then some (prop_device_platform, b)
      else none
  find_property (kernel_device d) name =
      if str_eq name "soft"
      then some (prop_device_soft, b)
      else if str_eq name "hard"
      then some (prop_device_hard, b)
      else none
  find_property (ofono_device d) name = if str_eq name "soft" then some (prop_soft, b) else none
  find_property (killswitch ks) name = if str_eq name "state" then some (prop_state, i) else none
  find_property (main_object d) name =
      if str_eq name "daemon-version"
      then some (prop_daemon_version, s)
      else if str_eq name "key-control"
      then some (prop_key_control, b)
      else none

  -- The name on D-Bus of a property of GObject.
  abbrev pub dbus_name : Exported File → String → String
  dbus_name (main_object d) name =
      if str_eq name "daemon-version"
      then "DaemonVersion"
      else if str_eq name "key-control"
      then "KeyControl"
      else name
  dbus_name _ name = name

-- A name is one of those that are known, or none of them.
pub name_cases {ℓ} :
    (P : String → Type ℓ) (name : String) (known : List String)
    → All P known
    → (All (λ k. str_eq name k ≡ false) known → P name)
    → P name
name_cases P name [] h other = other tt
name_cases P name (k ∷ ks) h other = elim (Bool-cases (str_eq name k)) [
  | inl e ↦ subst P (sym ((eq_iff name k).0 e)) h.0
  | inr e ↦ name_cases P name ks h.1 (λ rest. other (e, rest))
]

module _ {File : Type 0} (package_version unknown : String) where
  -- GObject and D-Bus give one value of a property that a class installs, and one type.
  pub Agrees : Exported File → String → Type 0
  Agrees x name =
      (p : Prop) (t : Signature)
      → find_property x name ≡ some (p, t)
      → (declared x (dbus_name x name) ≡ some t)
        × (get_property package_version unknown x p
            ≡ handle_get_property package_version unknown x (dbus_name x name))

  pub get_property-Agrees : (x : Exported File) (name : String) → Agrees x name
  unfolding Agrees find_property get_property handle_get_property declared
  get_property-Agrees (kernel_device d) name =
      name_cases (Agrees (kernel_device d)) name ("soft" ∷ "hard" ∷ [])
        ((λ p t h. ground arith), ((λ p t h. ground arith), tt)) (λ others p t h. ground arith)
  get_property-Agrees (ofono_device d) name = λ p t h. ground arith
  get_property-Agrees (killswitch ks) name = λ p t h. ground arith
  get_property-Agrees (main_object d) name =
      name_cases (Agrees (main_object d)) name ("daemon-version" ∷ "key-control" ∷ [])
        ((λ p t h. ground arith), ((λ p t h. ground arith), tt)) (λ others p t h. ground arith)
  get_property-Agrees (device d) name =
      name_cases (Agrees (device d)) name ("index" ∷ "type" ∷ "urftype" ∷ "name" ∷ "platform" ∷ [])
        (
          (λ p t h. ground arith),
          (
            (λ p t h. ground arith),
            ((λ p t h. ground arith), ((λ p t h. ground arith), ((λ p t h. ground arith), tt))),
          ),
        )
        (λ others p t h. ground arith)
