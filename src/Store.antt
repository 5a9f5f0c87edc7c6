-- ===== src/Store.antt =====
-- The objects of the daemon and what it says to the world outside: UrfDevice of src/urf-device.h
-- with the private parts of its subclasses (src/urf-device-kernel.c, src/urf-device-ofono.c).
use urfkill.Prelude.{ℕ, ◌+◌, Bool, Option, String, List, ◌∷◌, ◌==◌, if◌then◌else◌}
use urfkill.Utils.{KillswitchState}

-- struct _UrfDeviceKernelPrivate. `connection` tells whether the pointer is not NULL.
pub record KernelDevice : Type 0 where
  pub index : ℕ
  pub type : ℕ
  pub name : Option String
  pub soft : Bool
  pub hard : Bool
  pub platform : Bool
  pub connection : Bool

-- A GVariant, as far as the properties of a modem are read.
pub data Variant : Type 0 where
  boolean : Bool → Variant
  string : String → Variant
  other : Variant

-- struct _UrfDeviceOfonoPrivate, with the hash table as an association list.
pub record OfonoDevice : Type 0 where
  pub index : ℕ
  pub object_path : String
  pub name : Option String
  pub properties : List (String × Variant)
  pub soft : Bool
  pub proxy : Bool

pub data Device : Type 0 where
  kernel : KernelDevice → Device
  ofono : OfonoDevice → Device

-- "/org/freedesktop/URfkill/devices/%u"
pub data DevicePath : Type 0 where
  device_path : ℕ → DevicePath

-- What leaves the daemon: writes to /dev/rfkill, calls of oFono, signals of the killswitches,
-- signals of the devices, and the three signals of the arbitrator, which the daemon passes on.
pub data Output : Type 0 where
  write_change_all : (type : ℕ) (soft : Bool) → Output
  set_online : (modem : String) (online : Bool) → Output
  get_properties : (modem : String) → Output
  switch_changed : (type : ℕ) → KillswitchState → Output
  device_state_changed : (soft hard : Bool) → Output
  device_added device_removed device_changed : DevicePath → Output

-- What the kernel, udev and the bus answer, given all that the daemon has put out so far (the
-- latest first): whether a write to /dev/rfkill succeeds, whether a D-Bus emission sets no error,
-- and the udev attributes of an rfkill index.
pub record Outside : Type 0 where
  pub accepts : List Output → (type : ℕ) (soft : Bool) → Bool
  pub emits : List Output → Bool
  pub udev_name : ℕ → Option String
  pub udev_platform : ℕ → Bool

-- `heap` gives the object at a reference, and references from `next` on are free.
pub record Store : Type 0 where
  pub heap : ℕ → Device
  pub next : ℕ
  pub out : List Output

abbrev pub assign : (ℕ → Device) → ℕ → Device → ℕ → Device
assign heap p d q = if p == q then d else heap q

abbrev pub put_out : Store → Output → Store
put_out s o = record s { out = o ∷ s.out }

abbrev pub write_object : Store → ℕ → Device → Store
write_object s p d = record s { heap = assign s.heap p d }

-- g_object_new
abbrev pub allocate : Store → Device → Store
allocate s d = record s { heap = assign s.heap s.next d; next = s.next + 1 }
