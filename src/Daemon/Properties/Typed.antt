-- ===== src/Daemon/Properties/Typed.antt =====
-- The handlers of the properties keep to the introspection data that stand beside them.
use urfkill.Prelude.{◌≡◌, Bool, true, false, none, some, String, str_eq, ◌⊎◌, arith}
use urfkill.Store.{kernel, ofono}
use urfkill.Device.Names.{get_name}
use urfkill.Daemon.Properties.{
  Value, int32, string, boolean, Signature, i, s, b, Exported, device, kernel_device, ofono_device,
  killswitch, main_object, handle_get_property, declared,
}
use urfkill.Daemon.Properties.Objects.{Agrees, get_property-Agrees}

abbrev pub signature : Value → Signature
signature (int32 n) = i
signature (string t) = s
signature (boolean x) = b

-- A generic interface of a device, and one of a radio that udev knows no name of.
abbrev pub is_generic : {File : Type 0} → Exported File → Bool
is_generic (device d) = true
is_generic _ = false

abbrev pub is_nameless : {File : Type 0} → Exported File → Bool
is_nameless (device (kernel d)) = elim d.name [ none ↦ true | some t ↦ false ]
is_nameless _ = false

module _ {File : Type 0} (package_version unknown : String) where
  pub record IsTyped (x : Exported File) : Type 0 where
    pub typed :
        (name : String) (v : Value)
        → handle_get_property package_version unknown x name ≡ some v
        → (declared x name ≡ some (signature v))
          ⊎ ((is_generic x ≡ true) × (str_eq name "state" ≡ true))
    pub answered :
        (name : String) (t : Signature)
        → declared x name ≡ some t
        → handle_get_property package_version unknown x name ≡ none
        → (is_nameless x ≡ true) × (str_eq name "name" ≡ true)
    pub agrees : (name : String) → Agrees package_version unknown x name

  -- For each object and interface of the daemon, a property that the handler gives has the type
  -- that the introspection data in the program declare, unless it is the property state of the
  -- generic interface of a device, which they do not declare. A declared property is always given,
  -- but for the name of a radio that udev knows no name of. A property that a GObject class
  -- installs has the type and the value that D-Bus gives for it.
  pub handle_get_property-IsTyped : (x : Exported File) → IsTyped x
  unfolding handle_get_property declared get_name
  handle_get_property-IsTyped (kernel_device d) = record {
    typed = λ name v h. ground arith;
    answered = λ name t h e. ground arith;
    agrees = get_property-Agrees package_version unknown (kernel_device d);
  }
  handle_get_property-IsTyped (ofono_device d) = record {
    typed = λ name v h. ground arith;
    answered = λ name t h e. ground arith;
    agrees = get_property-Agrees package_version unknown (ofono_device d);
  }
  handle_get_property-IsTyped (killswitch ks) = record {
    typed = λ name v h. ground arith;
    answered = λ name t h e. ground arith;
    agrees = get_property-Agrees package_version unknown (killswitch ks);
  }
  handle_get_property-IsTyped (main_object d) = record {
    typed = λ name v h. ground arith;
    answered = λ name t h e. ground arith;
    agrees = get_property-Agrees package_version unknown (main_object d);
  }
  handle_get_property-IsTyped (device (kernel d)) = record {
    typed = λ name v h. ground arith;
    answered = λ name t h e. ground arith;
    agrees = get_property-Agrees package_version unknown (device (kernel d));
  }
  handle_get_property-IsTyped (device (ofono d)) = record {
    typed = λ name v h. ground arith;
    answered = λ name t h e. ground arith;
    agrees = get_property-Agrees package_version unknown (device (ofono d));
  }
