-- ===== src/Config/Loading.antt =====
-- src/urf-config.c: the options from the saved profile, the hardware profiles and the
-- configuration file, and what is kept of them.
use urfkill.Prelude.{
  ◌≡◌, ◌≢◌, Bool, true, false, not, Option, none, some, String, List, [], ◌∷◌, ◌>>=◌, if◌then◌else◌,
  ◌==◌, ◌||◌,
}
use Prim.Native.Char.{code}
use urfkill.Config.{KeyFile, Options, Config}
use urfkill.Config.Rules.{Texts, DmiInfo}
use urfkill.Config.Profile.{Event, profile_xml_parse}

-- More of GKeyFile: what is loaded from a text is what was written to it, up to the questions that
-- the program asks.
pub record KeyFileText (File : Type 0) (kf : KeyFile File) : Type 1 where
  pub Content : Type 0
  pub load_from_data : Content → Option File
  pub to_data : File → Content
  pub has_group : File → String → Bool
  pub get_value : File → (group key : String) → Option String
  pub set_value : File → (group key value : String) → File
  pub load-to_data :
      (f : File)
      → (f' : File) × (load_from_data (to_data f) ≡ some f')
        × ((group : String) → has_group f' group ≡ has_group f group)
        × ((group key : String) → kf.get_boolean f' group key ≡ kf.get_boolean f group key)
  pub has_group-set_value :
      (f : File) (group key value : String) → has_group (set_value f group key value) group ≡ true
  pub get_boolean-set_true :
      (f : File) (group key : String)
      → kf.get_boolean (set_value f group key "true") group key ≡ some true
  pub get_boolean-set_false :
      (f : File) (group key : String)
      → kf.get_boolean (set_value f group key "false") group key ≡ some false
  pub get_boolean-set_value_ne :
      (f : File) (group key key' value : String)
      → key ≢ key'
      → kf.get_boolean (set_value f group key value) group key' ≡ kf.get_boolean f group key'

-- The value of a key, or the old one where GLib sets an error.
abbrev pub keep : Option Bool → (old : Bool) → Bool
keep none old = old
keep (some b) old = b

abbrev pub value_text : Bool → String
value_text true = "true"
value_text false = "false"

module _ {File : Type 0} (kf : KeyFile File) where
  -- The four reads of load_configured_settings and of urf_config_load_from_file.
  unfoldable pub read_options : File → (group : String) → Options → Options
  read_options f group o = record {
    key_control = keep (kf.get_boolean f group "key_control") o.key_control;
    master_key = keep (kf.get_boolean f group "master_key") o.master_key;
    force_sync = keep (kf.get_boolean f group "force_sync") o.force_sync;
    persist = keep (kf.get_boolean f group "persist") o.persist;
  }

module _ {File : Type 0} (kf : KeyFile File) (kt : KeyFileText File kf) where
  -- `disk` is the content of the file URFKILL_CONFIGURED_PROFILE; none is a file that cannot be
  -- read.
  unfoldable pub load_configured_settings :
      (disk : Option kt.Content) → Config File → Bool × Config File
  unfolding read_options
  load_configured_settings disk c =
      let loaded : Option File = disk >>= kt.load_from_data in
      let read : File → Bool × Config File = λ f.
        if kt.has_group f "Profile"
        then (true, record c { options = read_options kf f "Profile" c.options })
        else (false, c) in
      elim loaded [ none ↦ (false, c) | some f ↦ read f ]

  unfoldable pub write_options : File → Options → File
  write_options f o =
      let f1 = kt.set_value f "Profile" "key_control" (value_text o.key_control) in
      let f2 = kt.set_value f1 "Profile" "master_key" (value_text o.master_key) in
      let f3 = kt.set_value f2 "Profile" "force_sync" (value_text o.force_sync) in
      kt.set_value f3 "Profile" "persist" (value_text o.persist)

  -- The content of the file after the call. `header` is the key file that g_key_file_load_from_data
  -- makes of the comment, and `writable` tells whether g_file_set_contents succeeds: the old file
  -- is removed first.
  unfoldable pub save_configured_profile :
      (header : Option File) (writable : Bool) → Config File → Option kt.Content
  unfolding write_options
  save_configured_profile none writable c = none
  save_configured_profile (some header) writable c =
      if writable then some (kt.to_data (write_options header c.options)) else none

-- The directory of the hardware profiles: the names that g_dir_read_name gives (no name for a
-- directory that cannot be opened), which of them are regular files, what expat makes of a file, and
-- g_list_sort by g_strcmp0.
pub record ProfileDir : Type 0 where
  pub names : List String
  pub regular : String → Bool
  pub content : String → Option (List Event × Bool)
  pub sort : List String → List String

-- `file[0] == '.'`
unfoldable pub is_hidden : String → Bool
is_hidden String.[] = false
is_hidden (String.◌∷◌ c s) = code c == b'.'

module _ (g : Texts) where
  -- The first loop of urf_config_load_profile.
  unfoldable pub profile_list : ProfileDir → List String → List String
  unfolding is_hidden
  profile_list dir [] = []
  profile_list dir (file ∷ files) =
      let rest = profile_list dir files in
      if is_hidden file || not (g.has_suffix file ".xml")
      then rest
      else if dir.regular file
      then file ∷ rest
      else rest

  -- The second one.
  unfoldable pub parse_profiles : DmiInfo → ProfileDir → List String → Options → Option Options
  unfolding profile_xml_parse
  parse_profiles hardware_info dir [] options = some options
  parse_profiles hardware_info dir (file ∷ files) options = do
    (parsed, options') ← profile_xml_parse g (some hardware_info) options (dir.content file)
    parse_profiles hardware_info dir files options'

  module _ {File : Type 0} (kf : KeyFile File) (kt : KeyFileText File kf) where
    -- The configuration and the content of the saved profile after the call.
    unfoldable pub urf_config_load_profile :
        (disk : Option kt.Content) (hardware_info : Option DmiInfo) (dir : ProfileDir)
        → (header : Option File) (writable : Bool) → Config File
        → Option (Config File × Option kt.Content)
    unfolding load_configured_settings profile_list parse_profiles save_configured_profile
    urf_config_load_profile disk hardware_info dir header writable c =
        let (loaded, c') = load_configured_settings kf kt disk c in
        let no_keys = record c' { options = record c'.options { key_control = false } } in
        let from_profiles : DmiInfo → Option (Config File × Option kt.Content) = λ info.
          parse_profiles info dir (dir.sort (profile_list dir dir.names)) c'.options >>= (λ options.
            let c'' = record c' { options = options } in
            some (c'', save_configured_profile kf kt header writable c'')) in
        let searched : Option (Config File × Option kt.Content) = elim hardware_info [
          | none ↦ some (no_keys, disk)
          | some info ↦ from_profiles info
        ] in
        if loaded then some (c', disk) else searched

    -- `key_file` is what g_key_file_load_from_file makes of the configuration file.
    unfoldable pub urf_config_load_from_file :
        (key_file : Option File)
        → (disk : Option kt.Content) (hardware_info : Option DmiInfo) (dir : ProfileDir)
        → (header : Option File) (writable : Bool) → Config File
        → Option (Config File × Option kt.Content)
    unfolding urf_config_load_profile read_options
    urf_config_load_from_file key_file disk hardware_info dir header writable c = do
      (c', disk') ← urf_config_load_profile disk hardware_info dir header writable c
      elim key_file as (λ _. Option (Config File × Option kt.Content)) [
        | none ↦ some (c', disk')
        | some f ↦ some (
          record c' {
            user = kt.get_value f "general" "user";
            options = read_options kf f "general" c'.options;
          },
          disk',
        )
      ]

module _ {File : Type 0} (kf : KeyFile File) (kt : KeyFileText File kf) where
  -- urf_config_get_persistence_file: a file that cannot be loaded leaves the key file empty.
  unfoldable pub urf_config_get_persistence_file : (disk : Option kt.Content) → File
  urf_config_get_persistence_file disk = elim (disk >>= kt.load_from_data) [
    | none ↦ kf.new
    | some f ↦ f
  ]

  unfoldable pub urf_config_init : (disk : Option kt.Content) → Config File
  unfolding urf_config_get_persistence_file
  urf_config_init disk = record {
    user = none;
    options = record { key_control = true; master_key = false; force_sync = false; persist = true };
    persistence_file = urf_config_get_persistence_file disk;
  }

  -- urf_config_save_persistence_file, which urf_config_finalize calls: the content of the file after
  -- it. `writable` tells whether g_file_set_contents succeeds.
  unfoldable pub urf_config_save_persistence_file :
      (writable : Bool) (disk : Option kt.Content) → Config File → Option kt.Content
  urf_config_save_persistence_file writable disk c =
      if writable then some (kt.to_data c.persistence_file) else disk
