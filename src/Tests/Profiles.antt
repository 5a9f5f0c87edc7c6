-- ===== src/Tests/Profiles.antt =====
-- Examples for the theorems on src/urf-config.c.
use urfkill.Prelude.{
  ◌≡◌, ◌≢◌, ◌↔◌, refl, Bool, true, false, none, some, String, List, [], ◌∷◌, str_eq, ◌==◌, ◌>>=◌,
  if◌then◌else◌, eq_refl, str_eq-ne,
}
use Prim.Native.Char.{Char, code}
use package.text.Mathlib.Text.{starts_with, find?}
use urfkill.Config.{Options, Config, urf_config_get_persist_state}
use urfkill.Config.Rules.{Texts, opt_none, contains_outof, DmiInfo, no_dmi, match_rule}
use urfkill.Config.Matching.{Matches, match_rule_iff}
use urfkill.Config.Profile.{profile_xml_parse}
use urfkill.Config.Reading.{Forest, leaf, text, element, events, read, profile_xml_parse_lem}
use urfkill.Config.Loading.{KeyFileText, ProfileDir, write_options, urf_config_load_from_file}
use urfkill.Config.Precedence.{second_start}
use urfkill.Tests.Fixtures.{Table, table, set_key, config}

abbrev extend : Char → List String → List String
extend c [] = String.◌∷◌ c "" ∷ []
extend c (t ∷ ts) = String.◌∷◌ c t ∷ ts

-- The tokens between the semicolons.
abbrev split : String → List String
split String.[] = "" ∷ []
split (String.◌∷◌ c s) = let rest = split s in if code c == b';' then "" ∷ rest else extend c rest

abbrev ends_with : String → String → Bool
ends_with String.[] t = str_eq "" t
ends_with (String.◌∷◌ c s) t =
    let rest = ends_with s t in if str_eq (String.◌∷◌ c s) t then true else rest

abbrev pub texts : Texts
texts = record {
  split = split;
  has_text = λ s t. elim (find? s t) [ none ↦ false | some i ↦ true ];
  has_prefix = starts_with;
  has_suffix = ends_with;
  lower = λ s. s;
  same_ncase = str_eq;
}

match_rule_iff_example :
    (match_rule texts "ThinkPad X200" contains_outof "IdeaPad;;Think" ≡ true) ↔ (
      ◌≢◌ {A = String} "ThinkPad X200" ""
      × ◌≢◌ {A = String} "IdeaPad;;Think" ""
      × Matches texts contains_outof "ThinkPad X200" "IdeaPad;;Think")
match_rule_iff_example = match_rule_iff texts contains_outof "ThinkPad X200" "IdeaPad;;Think"

matches_token : match_rule texts "ThinkPad X200" contains_outof "IdeaPad;;Think" ≡ true
unfolding match_rule
matches_token = refl

abbrev laptop : DmiInfo
laptop = record no_dmi { product_name = some "ThinkPad X200" }

-- Two rules: one that the laptop does not fulfil, and one that it does.
abbrev profile : Forest
profile =
    element "profile" []
      (element "match" ("key" ∷ "product_name" ∷ "prefix" ∷ "IdeaPad" ∷ [])
        (element "option" ("key" ∷ "master_key" ∷ "type" ∷ "bool" ∷ []) (text "TRUE" leaf) leaf)
        (element "match" ("key" ∷ "product_name" ∷ "prefix" ∷ "ThinkPad" ∷ [])
          (element "option" ("key" ∷ "key_control" ∷ "type" ∷ "bool" ∷ []) (text "FALSE" leaf) leaf)
          leaf))
      leaf

profile_xml_parse_lem_example :
    profile_xml_parse texts (some laptop) config.options (some (events profile, true))
    ≡ (read texts (some laptop) opt_none profile config.options >>= (λ y. some (true, y)))
profile_xml_parse_lem_example = profile_xml_parse_lem texts (some laptop) profile config.options

profile_result :
    profile_xml_parse texts (some laptop) config.options (some (events profile, true))
    ≡ some (true, record config.options { key_control = false })
unfolding profile_xml_parse events urfkill.Config.Profile.handle_xml
    urfkill.Config.Rules.get_operator
profile_result = refl

abbrev pub stored : KeyFileText Table table
stored = record {
  Content = Table;
  load_from_data = λ f. some f;
  to_data = λ f. f;
  has_group = λ f group. true;
  get_value = λ f group key. none;
  set_value = λ f group key value. set_key f group key (str_eq value "true");
  load-to_data = λ f. (f, refl, (λ group. refl), (λ group key. refl));
  has_group-set_value = λ f group key value. refl;
  get_boolean-set_true = λ f group key. table.get_boolean-set_boolean f group key true;
  get_boolean-set_false = λ f group key. table.get_boolean-set_boolean f group key false;
  get_boolean-set_value_ne =
      λ f group key key' value n. rw (eq_refl group, str_eq-ne key key' n) refl;
}

-- One profile, a hidden file and a file of another kind.
abbrev pub directory : ProfileDir
directory = record {
  names = ".x.xml" ∷ "laptop.xml" ∷ "README" ∷ [];
  regular = λ name. true;
  content = λ name. some (events profile, true);
  sort = λ names. names;
}

abbrev pub key_file : Table
key_file = set_key config.persistence_file "general" "master_key" true

abbrev first_options : Options
first_options = record config.options { key_control = false }

abbrev started_config : Config Table
started_config = record config { options = record first_options { master_key = true } }

second_start_example :
    urf_config_load_from_file texts table stored
      (some key_file)
      (some (write_options table stored table.new first_options))
      none
      directory
      none
      false
      config
    ≡ some (started_config, some (write_options table stored table.new first_options))
unfolding urf_config_load_from_file events urfkill.Config.Profile.handle_xml
    urfkill.Config.Rules.get_operator
second_start_example =
    second_start table stored texts (some key_file) laptop directory table.new config started_config
      (some (write_options table stored table.new first_options)) refl none directory none false
