-- ===== src/Config.antt =====
-- src/urf-config.c: the options of the daemon and the states that it keeps across restarts.
pub mod Rules
pub mod Matching
pub mod Profile
pub mod Reading
pub mod Loading
pub mod Precedence
use urfkill.Prelude.{◌≡◌, ◌≢◌, Bool, false, Option, none, some, String, ◌>>=◌, ℤ, pos, negsuc}
use urfkill.Utils.{KillswitchState, unblocked, gtb, type_to_string}

-- GLib's GKeyFile, as far as the program needs it: `get_boolean` gives none where GLib sets an
-- error, and a value that was set is read back.
pub record KeyFile (File : Type 0) : Type 0 where
  pub new : File
  pub get_boolean : File → (group key : String) → Option Bool
  pub set_boolean : File → (group key : String) → Bool → File
  pub get_boolean-set_boolean :
      (f : File) (group key : String) (v : Bool)
      → get_boolean (set_boolean f group key v) group key ≡ some v
  pub get_boolean-set_boolean_ne :
      (f : File) (group key group' key' : String) (v : Bool)
      → group ≢ group'
      → get_boolean (set_boolean f group key v) group' key' ≡ get_boolean f group' key'

pub record Options : Type 0 where
  pub key_control : Bool
  pub master_key : Bool
  pub force_sync : Bool
  pub persist : Bool

-- struct UrfConfigPrivate.
pub record Config (File : Type 0) : Type 0 where
  pub user : Option String
  pub options : Options
  pub persistence_file : File

module _ {File : Type 0} (kf : KeyFile File) where
  -- The value that an error leaves in `state` is that of g_key_file_get_boolean: FALSE.
  unfoldable pub urf_config_get_persist_state : Config File → ℤ → Option Bool
  urf_config_get_persist_state c (negsuc n) = some false
  urf_config_get_persist_state c (pos t) = do
    name ← type_to_string (pos t)
    elim (kf.get_boolean c.persistence_file name "soft") [ none ↦ some false | some b ↦ some b ]

  unfoldable pub urf_config_set_persist_state :
      Config File → ℤ → KillswitchState → Option (Config File)
  urf_config_set_persist_state c (negsuc n) state = some c
  urf_config_set_persist_state c (pos t) state = do
    name ← type_to_string (pos t)
    let file = kf.set_boolean c.persistence_file name "soft" (gtb state unblocked)
    some (record c { persistence_file = file })
