-- ===== src/Config/Rules.antt =====
-- src/urf-config.c: the words of a hardware profile, and the rules that compare a text of the DMI
-- table with a pattern.
use urfkill.Prelude.{
  Bool, true, false, not, Option, none, some, String, List, [], ◌∷◌, str_eq, ◌||◌, if◌then◌else◌,
}

-- GLib's functions on texts, as far as a rule needs them: g_strsplit at ";", g_strrstr (whether it
-- finds the text), g_str_has_prefix, g_str_has_suffix, g_ascii_strdown, and
-- g_ascii_strcasecmp (whether it gives 0).
pub record Texts : Type 0 where
  pub split : String → List String
  pub has_text : String → String → Bool
  pub has_prefix : String → String → Bool
  pub has_suffix : String → String → Bool
  pub lower : String → String
  pub same_ncase : String → String → Bool

-- OPT_NONE to OPT_UNKNOWN.
pub data Opt : Type 0 where
  opt_none key_control master_key force_sync persist opt_unknown : Opt

pub data OptType : Type 0 where
  type_none type_boolean type_unknown : OptType

-- OPER_STRING to OPER_UNKNOWN.
pub data Operator : Type 0 where
  string string_outof : Operator
  contains contains_ncase contains_not contains_outof : Operator
  prefix prefix_ncase prefix_outof : Operator
  suffix suffix_ncase suffix_outof : Operator
  oper_unknown : Operator

pub record DmiInfo : Type 0 where
  pub sys_vendor : Option String
  pub bios_date : Option String
  pub bios_vendor : Option String
  pub bios_version : Option String
  pub product_name : Option String
  pub product_version : Option String

-- `g_strcmp0 (s, t) == 0` where `s` may be NULL.
abbrev pub opt_eq : Option String → String → Bool
opt_eq none t = false
opt_eq (some s) t = str_eq s t

unfoldable pub get_option : Option String → Opt
get_option option =
    if opt_eq option "key_control"
    then key_control
    else if opt_eq option "master_key"
    then master_key
    else if opt_eq option "force_sync"
    then force_sync
    else if opt_eq option "persist"
    then persist
    else opt_unknown

unfoldable pub get_option_type : Option String → OptType
get_option_type type = if opt_eq type "bool" then type_boolean else type_unknown

unfoldable pub get_match_key : Option DmiInfo → Option String → Option String
get_match_key none key = none
get_match_key (some info) key =
    if opt_eq key "sys_vendor"
    then info.sys_vendor
    else if opt_eq key "bios_date"
    then info.bios_date
    else if opt_eq key "bios_vendor"
    then info.bios_vendor
    else if opt_eq key "bios_version"
    then info.bios_version
    else if opt_eq key "product_name"
    then info.product_name
    else if opt_eq key "product_version"
    then info.product_version
    else none

unfoldable pub get_operator : String → Operator
get_operator operator =
    if str_eq operator "string"
    then string
    else if str_eq operator "string_outof"
    then string_outof
    else if str_eq operator "contains"
    then contains
    else if str_eq operator "contains_ncase"
    then contains_ncase
    else if str_eq operator "contains_not"
    then contains_not
    else if str_eq operator "contains_outof"
    then contains_outof
    else if str_eq operator "prefix"
    then prefix
    else if str_eq operator "prefix_ncase"
    then prefix_ncase
    else if str_eq operator "prefix_outof"
    then prefix_outof
    else if str_eq operator "suffix"
    then suffix
    else if str_eq operator "suffix_ncase"
    then suffix_ncase
    else if str_eq operator "suffix_outof"
    then suffix_outof
    else oper_unknown

-- get_dmi_info of src/urf-utils.c. A device of udev gives the value of an attribute; `devices` is
-- none if udev cannot be set up, and the list is empty if there is no dmi device.
keep_latest : Option String → Option String → Option String
keep_latest none old = old
keep_latest (some attribute) old = some attribute

unfoldable pub read_dmi : List (String → Option String) → DmiInfo → DmiInfo
unfolding keep_latest
read_dmi [] info = info
read_dmi (dev ∷ devs) info = read_dmi devs (record {
  sys_vendor = keep_latest (dev "sys_vendor") info.sys_vendor;
  bios_date = keep_latest (dev "bios_date") info.bios_date;
  bios_vendor = keep_latest (dev "bios_vendor") info.bios_vendor;
  bios_version = keep_latest (dev "bios_version") info.bios_version;
  product_name = keep_latest (dev "product_name") info.product_name;
  product_version = keep_latest (dev "product_version") info.product_version;
})

abbrev pub no_dmi : DmiInfo
no_dmi = record {
  sys_vendor = none;
  bios_date = none;
  bios_vendor = none;
  bios_version = none;
  product_name = none;
  product_version = none;
}

unfoldable pub get_dmi_info : (devices : Option (List (String → Option String))) → Option DmiInfo
unfolding read_dmi
get_dmi_info none = none
get_dmi_info (some []) = none
get_dmi_info (some (dev ∷ devs)) = some (read_dmi (dev ∷ devs) no_dmi)

module _ (g : Texts) where
  -- The loops over the tokens of a pattern.
  unfoldable pub equals_token : String → List String → Bool
  equals_token s [] = false
  equals_token s (t ∷ ts) = if str_eq s t then true else equals_token s ts

  -- Empty tokens are passed over.
  unfoldable pub any_token : (String → Bool) → List String → Bool
  any_token test [] = false
  any_token test (t ∷ ts) =
      let rest = any_token test ts in if str_eq t "" then rest else if test t then true else rest

  -- The switch of match_rule.
  unfoldable pub compare_texts : (str1 : String) → Operator → (str2 : String) → Bool
  unfolding equals_token any_token
  compare_texts s string p = str_eq s p
  compare_texts s string_outof p = equals_token s (g.split p)
  compare_texts s contains p = g.has_text s p
  compare_texts s contains_ncase p = g.has_text (g.lower s) (g.lower p)
  compare_texts s contains_not p = not (g.has_text s p)
  compare_texts s contains_outof p = any_token (g.has_text s) (g.split p)
  compare_texts s prefix p = g.has_prefix s p
  compare_texts s prefix_ncase p = g.has_prefix (g.lower s) (g.lower p)
  compare_texts s prefix_outof p = any_token (g.has_prefix s) (g.split p)
  compare_texts s suffix p = g.has_suffix s p
  compare_texts s suffix_ncase p = g.has_suffix (g.lower s) (g.lower p)
  compare_texts s suffix_outof p = any_token (g.has_suffix s) (g.split p)
  compare_texts s oper_unknown p = false

  unfoldable pub match_rule : (str1 : String) → Operator → (str2 : String) → Bool
  unfolding compare_texts
  match_rule str1 operator str2 =
      if str_eq str1 "" || str_eq str2 "" then false else compare_texts str1 operator str2
