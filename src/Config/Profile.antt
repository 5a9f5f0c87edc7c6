-- ===== src/Config/Profile.antt =====
-- src/urf-config.c: the handlers that expat calls while it reads a hardware profile.
use urfkill.Prelude.{
  ℕ, ◌+◌, ◌-◌, Bool, true, false, Option, none, some, String, List, [], ◌∷◌, str_eq, ltb, ◌>>=◌,
  if◌then◌else◌,
}
use urfkill.Config.{Options}
use urfkill.Config.Rules.{
  Texts, Opt, opt_none, key_control, master_key, force_sync, persist, OptType, type_none, Operator,
  string, oper_unknown, DmiInfo, get_option, get_option_type, get_match_key, get_operator,
  match_rule,
}

-- The calls of expat: an element with the list of its attributes, each name followed by its value;
-- the end of an element; a piece of text. Each end has its start.
pub data Event : Type 0 where
  start : (name : String) (atts : List String) → Event
  end : (name : String) → Event
  cdata : String → Event

pub record ParseInfo : Type 0 where
  pub xml_depth : ℕ
  pub xml_bound : ℕ
  pub opt : Opt
  pub opt_type : OptType
  pub options : Options
  pub hardware_info : Option DmiInfo

-- What the loop over the attributes of "match" finds.
pub record MatchAtts : Type 0 where
  pub key : Option String
  pub operator : Operator
  pub match_body : Option String

-- A word that is no operator changes `operator` too, and the word after it is read as a name.
unfoldable pub match_atts : List String → MatchAtts → MatchAtts
match_atts [] m = m
match_atts (a ∷ []) m = if str_eq a "key" then m else record m { operator = get_operator a }
match_atts (a ∷ b ∷ rest) m =
    let m' = record m { operator = get_operator a } in
    let is_key = match_atts rest (record m { key = some b }) in
    let is_rule = match_atts rest (record m' { match_body = some b }) in
    let other = match_atts (b ∷ rest) m' in
    if str_eq a "key" then is_key else elim (get_operator a) [ oper_unknown ↦ other | _ ↦ is_rule ]

-- What the loop over the attributes of "option" finds.
pub record OptionAtts : Type 0 where
  pub key : Option String
  pub type : Option String

unfoldable pub option_atts : List String → OptionAtts → OptionAtts
option_atts [] m = m
option_atts (a ∷ []) m = m
option_atts (a ∷ b ∷ rest) m =
    let is_key = option_atts rest (record m { key = some b }) in
    let is_type = option_atts rest (record m { type = some b }) in
    let other = option_atts (b ∷ rest) m in
    if str_eq a "key" then is_key else if str_eq a "type" then is_type else other

module _ (g : Texts) where
  -- The value of a text for an option that has `old`.
  unfoldable pub read_boolean : String → (old : Bool) → Bool
  read_boolean str old =
      if g.same_ncase str "TRUE" then true else if g.same_ncase str "FALSE" then false else old

  unfoldable pub set_option : Opt → String → Options → Options
  unfolding read_boolean
  set_option key_control str o = record o { key_control = read_boolean str o.key_control }
  set_option master_key str o = record o { master_key = read_boolean str o.master_key }
  set_option force_sync str o = record o { force_sync = read_boolean str o.force_sync }
  set_option persist str o = record o { persist = read_boolean str o.persist }
  set_option _ str o = o

  unfoldable pub parse_xml_cdata_handler : String → ParseInfo → ParseInfo
  unfolding set_option
  parse_xml_cdata_handler str info = record info { options = set_option info.opt str info.options }

  -- Whether the rule of a "match" element holds. A key that the DMI table does not have counts as
  -- matching, and an empty one as not
  -- matching before the body is looked at; without a body that is read through NULL.
  unfoldable pub rule_holds : Option DmiInfo → List String → Option Bool
  unfolding match_atts get_match_key match_rule
  rule_holds hardware_info atts =
      let m = match_atts atts (record { key = none; operator = string; match_body = none }) in
      let test = λ (match_key : String).
        let compared : Option Bool =
          m.match_body >>= (λ body. some (match_rule g match_key m.operator body)) in
        if str_eq match_key "" then some false else compared in
      elim (get_match_key hardware_info m.key) [
        | none ↦ some true
        | some match_key ↦ test match_key
      ]

  -- The start of an element that is not skipped; `info` has the new depth and no option.
  unfoldable pub enter_element : String → List String → ParseInfo → Option ParseInfo
  unfolding rule_holds get_option get_option_type option_atts
  enter_element name atts info =
      let o = option_atts atts (record { key = none; type = none }) in
      let deeper = record info { xml_bound = info.xml_bound + 1 } in
      let chosen = record deeper { opt = get_option o.key; opt_type = get_option_type o.type } in
      let matched : Option ParseInfo = (do
        holds ← rule_holds info.hardware_info atts
        some (if holds then deeper else info)) in
      if str_eq name "match"
      then matched
      else if str_eq name "option"
      then some chosen
      else some deeper

  unfoldable pub parse_xml_start_element : String → List String → ParseInfo → Option ParseInfo
  unfolding enter_element
  parse_xml_start_element name atts info =
      let depth = info.xml_depth + 1 in
      let bound = if ltb depth info.xml_bound then depth + 1 else info.xml_bound in
      let entered = enter_element name atts (record info {
        xml_depth = depth;
        xml_bound = bound;
        opt = opt_none;
        opt_type = type_none;
      }) in
      if ltb info.xml_bound depth then some (record info { xml_depth = depth }) else entered

  -- The depth at an end is not 0, since each end has its start.
  unfoldable pub parse_xml_end_element : ParseInfo → ParseInfo
  parse_xml_end_element info = record info {
    xml_bound = if ltb info.xml_depth info.xml_bound then info.xml_depth else info.xml_bound;
    opt = opt_none;
    opt_type = type_none;
    xml_depth = info.xml_depth - 1;
  }

  unfoldable pub handle_xml : Event → ParseInfo → Option ParseInfo
  unfolding parse_xml_start_element parse_xml_end_element parse_xml_cdata_handler
  handle_xml (start name atts) info = parse_xml_start_element name atts info
  handle_xml (end name) info = some (parse_xml_end_element info)
  handle_xml (cdata str) info = some (parse_xml_cdata_handler str info)

  -- XML_Parse, as the calls that it makes.
  unfoldable pub run_handlers : List Event → ParseInfo → Option ParseInfo
  run_handlers [] info = some info
  run_handlers (e ∷ es) info = do info' ← handle_xml e info; run_handlers es info'

  -- `content` is what the file holds, as the calls that expat makes and whether it ends without an
  -- error; none is a file that cannot be read.
  unfoldable pub profile_xml_parse :
      Option DmiInfo → Options → (content : Option (List Event × Bool)) → Option (Bool × Options)
  unfolding run_handlers
  profile_xml_parse hardware_info options none = some (false, options)
  profile_xml_parse hardware_info options (some (events, well_formed)) = do
    info ← run_handlers events (record {
      xml_depth = 0;
      xml_bound = 1;
      opt = opt_none;
      opt_type = type_none;
      options = options;
      hardware_info = hardware_info;
    })
    some (well_formed, if well_formed then info.options else options)
