-- ===== src/Device/Ofono.antt =====
-- src/urf-device-ofono.c: a modem of oFono, which is told to go online or offline over D-Bus.
use urfkill.Prelude.{
  ℕ, Bool, true, false, not, Option, none, some, String, List, [], ◌∷◌, str_eq, ◌&&◌, if◌then◌else◌,
}
use urfkill.Utils.{KillswitchState, unblocked, soft_blocked}
use urfkill.Store.{Variant, boolean, OfonoDevice, Output, set_online, get_properties}

-- g_hash_table_lookup, and g_hash_table_replace or g_hash_table_insert.
unfoldable pub lookup : String → List (String × Variant) → Option Variant
lookup k [] = none
lookup k ((j, v) ∷ m) = if str_eq j k then some v else lookup k m

unfoldable pub replace : String → Variant → List (String × Variant) → List (String × Variant)
replace k v [] = (k, v) ∷ []
replace k v ((j, w) ∷ m) = if str_eq j k then (j, v) ∷ m else (j, w) ∷ replace k v m

-- g_variant_get_boolean, which is FALSE on a value of another type.
abbrev pub get_boolean : Variant → Bool
get_boolean (boolean b) = b
get_boolean _ = false

unfoldable pub get_soft : OfonoDevice → Bool
get_soft d = elim (lookup "Online" d.properties) [ none ↦ false | some v ↦ not (get_boolean v) ]

unfoldable pub get_state : OfonoDevice → KillswitchState
unfolding get_soft
get_state d = if get_soft d then soft_blocked else unblocked

-- The call is asynchronous, and its answer (set_online_cb) only makes a log line. GIO's check of
-- its argument drops the call while the proxy is NULL.
unfoldable pub set_soft : OfonoDevice → Bool → List Output → Bool × OfonoDevice × List Output
set_soft d blocked out = (
  true,
  record d { soft = blocked },
  if d.proxy then set_online d.object_path (not blocked) ∷ out else out,
)

-- modem_signal_cb, on "PropertyChanged": a modem that is powered gets the wanted state.
unfoldable pub modem_signal_cb :
    OfonoDevice → String → Variant → List Output → OfonoDevice × List Output
unfolding set_soft
modem_signal_cb d prop_name prop_value out =
    let d' = record d { properties = replace prop_name prop_value d.properties } in
    let (_, powered, sent) = set_soft d' d'.soft out in
    if str_eq "Powered" prop_name && get_boolean prop_value then (powered, sent) else (d', out)

-- The loop of get_properties_cb over the properties that oFono returned.
unfoldable pub get_properties_cb :
    OfonoDevice → List (String × Variant) → List Output → OfonoDevice × List Output
unfolding set_soft
get_properties_cb d [] out = (d, out)
get_properties_cb d ((key, value) ∷ rest) out =
    let (_, powered, sent) = set_soft d d.soft out in
    let on = str_eq "Powered" key && get_boolean value in
    let d' = if on then powered else d in
    get_properties_cb (record d' { properties = replace key value d'.properties }) rest
      (if on then sent else out)

-- proxy_ready_cb without an error.
unfoldable pub proxy_ready_cb : OfonoDevice → List Output → OfonoDevice × List Output
proxy_ready_cb d out = (record d { proxy = true }, get_properties d.object_path ∷ out)

-- The fields that urf_device_ofono_new sets, with urf_device_ofono_init.
unfoldable pub ofono_fields : (index : ℕ) (object_path : String) → OfonoDevice
ofono_fields index object_path = record {
  index = index;
  object_path = object_path;
  name = none;
  properties = [];
  soft = false;
  proxy = false;
}
