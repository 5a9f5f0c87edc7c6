-- ===== src/Killswitch/Registration.antt =====
-- urf_killswitch_register_switch of src/urf-killswitch.c: the path at which the daemon registers a
-- switch.
use urfkill.Prelude.{ℕ, Bool, true, Option, none, some, String, pos, ◌>>=◌, ◌&&◌, if◌then◌else◌}
use urfkill.Utils.{type_to_string}
use Prim.Native.String.{◌++◌}

abbrev pub base_object_path : String
base_object_path = "/org/freedesktop/URfkill/"

-- The result with the path. Without a connection, or where the registration fails, the program
-- ends (g_error and g_assert).
unfoldable pub urf_killswitch_register_switch :
    (connected registered : Bool) → (type : ℕ) → Option (Bool × String)
unfolding type_to_string
urf_killswitch_register_switch connected registered type =
    let done : Option (Bool × String) = (do
      name ← type_to_string (pos type)
      some (true, base_object_path ++ name)) in
    if connected && registered then done else none
