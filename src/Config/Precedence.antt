-- ===== src/Config/Precedence.antt =====
-- What the saved files of src/urf-config.c give at the next start of the daemon.
use urfkill.Prelude.{
  ◌≡◌, ◌≢◌, refl, ◌∙◌, ap, subst, Bool, true, false, Option, none, some, String, arith,
  Option-cases, inl, inr, ne_of_str_eq,
}
use urfkill.Config.{KeyFile, Options, Config}
use urfkill.Config.Rules.{Texts, DmiInfo}
use urfkill.Config.Loading.{
  KeyFileText, keep, read_options, load_configured_settings, value_text, write_options,
  save_configured_profile, ProfileDir, profile_list, parse_profiles, urf_config_load_profile,
  urf_config_load_from_file,
}

module _ {File : Type 0} (kf : KeyFile File) (kt : KeyFileText File kf) where
  value_lem :
      (f : File) (key : String) (b : Bool)
      → kf.get_boolean (kt.set_value f "Profile" key (value_text b)) "Profile" key ≡ some b
  value_lem f key true = kt.get_boolean-set_true f "Profile" key
  value_lem f key false = kt.get_boolean-set_false f "Profile" key

  -- A key that another write does not touch.
  past :
      (f : File) (key key' : String) (b : Bool) {v : Option Bool}
      → key ≢ key'
      → kf.get_boolean f "Profile" key' ≡ v
      → kf.get_boolean (kt.set_value f "Profile" key (value_text b)) "Profile" key' ≡ v
  past f key key' b n e = kt.get_boolean-set_value_ne f "Profile" key key' (value_text b) n ∙ e

  -- The key file after the first writes of save_configured_profile.
  abbrev first : File → Options → File
  first f o = kt.set_value f "Profile" "key_control" (value_text o.key_control)

  abbrev second : File → Options → File
  second f o = kt.set_value (first f o) "Profile" "master_key" (value_text o.master_key)

  abbrev third : File → Options → File
  third f o = kt.set_value (second f o) "Profile" "force_sync" (value_text o.force_sync)

  abbrev Kept : File → Options → String → Bool → Type 0
  Kept header o key b = kf.get_boolean (write_options kf kt header o) "Profile" key ≡ some b

  saved_persist : (header : File) (o : Options) → Kept header o "persist" o.persist
  unfolding write_options
  saved_persist f o = value_lem (third f o) "persist" o.persist

  saved_force_sync : (header : File) (o : Options) → Kept header o "force_sync" o.force_sync
  unfolding write_options
  saved_force_sync f o =
      past (third f o) "persist" "force_sync" o.persist (ne_of_str_eq "persist" "force_sync" refl)
        (value_lem (second f o) "force_sync" o.force_sync)

  saved_master_key : (header : File) (o : Options) → Kept header o "master_key" o.master_key
  unfolding write_options
  saved_master_key f o =
      past (third f o) "persist" "master_key" o.persist (ne_of_str_eq "persist" "master_key" refl) (
        past (second f o) "force_sync" "master_key" o.force_sync
          (ne_of_str_eq "force_sync" "master_key" refl)
          (value_lem (first f o) "master_key" o.master_key))

  saved_key_control : (header : File) (o : Options) → Kept header o "key_control" o.key_control
  unfolding write_options
  saved_key_control f o =
      past (third f o) "persist" "key_control" o.persist (ne_of_str_eq "persist" "key_control" refl)
        (past (second f o) "force_sync" "key_control" o.force_sync
          (ne_of_str_eq "force_sync" "key_control" refl)
          (past (first f o) "master_key" "key_control" o.master_key
            (ne_of_str_eq "master_key" "key_control" refl)
            (value_lem f "key_control" o.key_control)))

  -- The saved profile gives its options back.
  load_saved :
      (header : File) (o : Options) (c : Config File)
      → load_configured_settings kf kt (some (kt.to_data (write_options kf kt header o))) c
        ≡ (true, record c { options = o })
  unfolding load_configured_settings read_options write_options
  load_saved header o c =
      let (f, loaded, groups, reads) = kt.load-to_data (write_options kf kt header o) in
      let found : kt.has_group f "Profile" ≡ true =
        groups "Profile"
        ∙ kt.has_group-set_value (third header o) "Profile" "persist" (value_text o.persist) in
      let options : read_options kf f "Profile" c.options ≡ o = λ i. record {
        key_control =
            keep ((reads "Profile" "key_control" ∙ saved_key_control header o) i)
              c.options.key_control;
        master_key =
            keep ((reads "Profile" "master_key" ∙ saved_master_key header o) i)
              c.options.master_key;
        force_sync =
            keep ((reads "Profile" "force_sync" ∙ saved_force_sync header o) i)
              c.options.force_sync;
        persist = keep ((reads "Profile" "persist" ∙ saved_persist header o) i) c.options.persist;
      } in
      rw (loaded, found, load_configured_settings)
        (ap (λ x. (true, record c { options = x })) options)

  module _ (g : Texts) where
    -- The configuration file does not change the saved profile.
    same_disk :
        (key_file : Option File) (disk : Option kt.Content) (hardware_info : Option DmiInfo)
        → (dir : ProfileDir) (header : Option File) (writable : Bool) (c c1 c' : Config File)
          (d d' : Option kt.Content)
        → urf_config_load_profile g kf kt disk hardware_info dir header writable c ≡ some (c1, d)
        → urf_config_load_from_file g kf kt key_file disk hardware_info dir header writable c
          ≡ some (c', d')
        → d ≡ d'
    unfolding urf_config_load_from_file
    same_disk none disk hardware_info dir header writable c c1 c' d d' e h = ground arith
    same_disk (some f) disk hardware_info dir header writable c c1 c' d d' e h = ground arith

    -- The first start reads the profiles, and keeps what they give.
    first_start :
        (info : DmiInfo) (dir : ProfileDir) (header : File) (c : Config File) (o : Options)
        → parse_profiles g info dir (dir.sort (profile_list g dir dir.names)) c.options ≡ some o
        → urf_config_load_profile g kf kt none (some info) dir (some header) true c
          ≡ some (record c { options = o }, some (kt.to_data (write_options kf kt header o)))
    unfolding urf_config_load_profile load_configured_settings save_configured_profile
    first_start info dir header c o e = rw e refl

    first_fault :
        (info : DmiInfo) (dir : ProfileDir) (header : File) (c : Config File)
        → parse_profiles g info dir (dir.sort (profile_list g dir dir.names)) c.options ≡ none
        → urf_config_load_profile g kf kt none (some info) dir (some header) true c ≡ none
    unfolding urf_config_load_profile load_configured_settings
    first_fault info dir header c e = rw e refl

    -- A start with a saved profile does not look at the hardware.
    saved_start :
        (hardware_info : Option DmiInfo) (dir : ProfileDir) (header' : Option File)
        (writable : Bool)
        → (header : File) (o : Options) (c : Config File)
        → let disk = some (kt.to_data (write_options kf kt header o)) in
          urf_config_load_profile g kf kt disk hardware_info dir header' writable c
          ≡ some (record c { options = o }, disk)
    unfolding urf_config_load_profile
    saved_start hardware_info dir header' writable header o c =
        rw (load_saved header o c, urf_config_load_profile) refl

    -- If a first start, without a saved profile, on hardware that is known and with a file that
    -- can be written, gives a configuration, then a second start from the same defaults, with the
    -- same configuration file and the profile that the first start saved, gives the same
    -- configuration and leaves the saved profile, whatever the hardware and the profiles are then.
    pub second_start :
        (key_file : Option File) (info : DmiInfo) (dir : ProfileDir) (header : File)
        → (c c' : Config File) (disk' : Option kt.Content)
        → urf_config_load_from_file g kf kt key_file none (some info) dir (some header) true c
          ≡ some (c', disk')
        → (hardware_info : Option DmiInfo) (dir' : ProfileDir) (header' : Option File)
          (writable : Bool)
        → urf_config_load_from_file g kf kt key_file disk' hardware_info dir' header' writable c
          ≡ some (c', disk')
    unfolding urf_config_load_from_file
    second_start key_file info dir header c c' disk' started hardware_info dir' header' writable =
        elim (Option-cases
          (parse_profiles g info dir (dir.sort (profile_list g dir dir.names)) c.options)) [
            | inl fault ↦
                let gone : urf_config_load_from_file g kf kt key_file none (some info) dir
                      (some header) true c
                    ≡ none =
                  rw (first_fault info dir header c fault, urf_config_load_from_file) refl in
                cc (gone, started)
            | inr (o, e) ↦
                let saved = some (kt.to_data (write_options kf kt header o)) in
                let now = first_start info dir header c o e in
                let later = saved_start hardware_info dir' header' writable header o c in
                subst
                  (λ d.
                    urf_config_load_from_file g kf kt key_file d hardware_info dir' header' writable
                      c
                    ≡ some (c', disk'))
                  (same_disk key_file none (some info) dir (some header) true c
                    (record c { options = o }) c' saved disk' now started)
                  (rw (later, now, urf_config_load_from_file) refl ∙ started)
          ]
