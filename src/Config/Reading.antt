-- ===== src/Config/Reading.antt =====
-- The handlers of a profile against a reading of the tree that the file holds (src/urf-config.c).
use urfkill.Prelude.{
  ℕ, ◌+◌, ◌≡◌, ◌≤◌, refl, sym, ◌∙◌, ap, true, false, Option, none, some, String, List, [], ◌∷◌,
  ◌++◌, str_eq, ltb, ◌>>=◌, if◌then◌else◌, arith, Bool-cases, Option-cases, inl, inr, append_assoc,
  append-nil,
}
use urfkill.Config.{Options}
use urfkill.Config.Rules.{
  Texts, Opt, opt_none, OptType, type_none, DmiInfo, get_option, get_option_type,
}
use urfkill.Config.Profile.{
  Event, start, end, cdata, ParseInfo, option_atts, set_option, rule_holds, enter_element,
  parse_xml_start_element, parse_xml_end_element, parse_xml_cdata_handler, handle_xml, run_handlers,
  profile_xml_parse,
}

-- What stands inside an element: pieces of text and elements, in their order.
pub data Forest : Type 0 where
  leaf : Forest
  text : String → Forest → Forest
  element : (name : String) (atts : List String) → (kids rest : Forest) → Forest

-- The calls that expat makes for it.
unfoldable pub events : Forest → List Event
events leaf = []
events (text s rest) = cdata s ∷ events rest
events (element name atts kids rest) = start name atts ∷ (events kids ++ (end name ∷ events rest))

-- The value at the end: `x`, or `reset` if an element has been passed.
pub last {ℓ} : {A : Type ℓ} → A → A → Forest → A
last reset x leaf = x
last reset x (text s rest) = last reset x rest
last reset x (element name atts kids rest) = last reset reset rest

module _ (g : Texts) (hardware_info : Option DmiInfo) where
  -- What an element is: skipped, or the option that its text sets.
  abbrev pub visit : String → List String → Option (Option (Opt × OptType))
  visit name atts =
      let o = option_atts atts (record { key = none; type = none }) in
      let matched : Option (Option (Opt × OptType)) =
        rule_holds g hardware_info atts
        >>= (λ b. some (if b then some (opt_none, type_none) else none)) in
      if str_eq name "match"
      then matched
      else if str_eq name "option"
      then some (some (get_option o.key, get_option_type o.type))
      else some (some (opt_none, type_none))

  -- The options after a reading of the tree, where `opt` is the option that the text sets. Text
  -- after an element inside an option sets nothing. none is a rule without a body.
  pub read : Opt → Forest → Options → Option Options
  read opt leaf x = some x
  read opt (text s rest) x = read opt rest (set_option g opt s x)
  read opt (element name atts kids rest) x = visit name atts >>= (λ v.
      (elim v as (λ _. Option Options) [ none ↦ some x | some (o, t) ↦ read o kids x ])
      >>= (λ x'. read opt_none rest x'))

  abbrev state : (depth bound : ℕ) → Opt → OptType → Options → ParseInfo
  state depth bound opt opt_type options = record {
    xml_depth = depth;
    xml_bound = bound;
    opt = opt;
    opt_type = opt_type;
    options = options;
    hardware_info = hardware_info;
  }

  end_lem :
      (d : ℕ) (o : Opt) (t : OptType) (x : Options)
      → parse_xml_end_element g (state (d + 1) (d + 1 + 1) o t x)
        ≡ state d (d + 1) opt_none type_none x
  unfolding parse_xml_end_element
  end_lem d o t x = ground arith

  -- The end of an element that was skipped, or that stands in one.
  end_skipped :
      (d b : ℕ) (o : Opt) (t : OptType) (x : Options)
      → b ≤ d + 1
      → parse_xml_end_element g (state (d + 1) b o t x) ≡ state d b opt_none type_none x
  unfolding parse_xml_end_element
  end_skipped d b o t x h = ground arith

  start_lem :
      (d : ℕ) (name : String) (atts : List String) (o : Opt) (t : OptType) (x : Options)
      → parse_xml_start_element g name atts (state d (d + 1) o t x) ≡ (
          visit name atts >>= (λ v. some (elim v as (λ _. ParseInfo) [
            | none ↦ state (d + 1) (d + 1) opt_none type_none x
            | some (p, q) ↦ state (d + 1) (d + 1 + 1) p q x
          ])))
  unfolding parse_xml_start_element enter_element
  start_lem d name atts o t x =
      let e : ltb (d + 1) (d + 1) ≡ false = ground arith in
      elim (Bool-cases (str_eq name "match")) [
        | inl m ↦ elim (Option-cases (rule_holds g hardware_info atts)) [
          | inl n ↦ rw (e, m, n) refl
          | inr (true, n) ↦ rw (e, m, n) refl
          | inr (false, n) ↦ rw (e, m, n) refl
        ]
        | inr m ↦ elim (Bool-cases (str_eq name "option")) [
          | inl p ↦ rw (e, m, p) refl
          | inr p ↦ rw (e, m, p) refl
        ]
      ]

  start_skipped :
      (d b : ℕ) (name : String) (atts : List String) (o : Opt) (t : OptType) (x : Options)
      → b ≤ d
      → parse_xml_start_element g name atts (state d b o t x) ≡ some (state (d + 1) b o t x)
  unfolding parse_xml_start_element
  start_skipped d b name atts o t x h = ground arith

  -- In a skipped element nothing is set.
  skip_lem :
      (f : Forest) (es : List Event) (d b : ℕ) (t : OptType) (x : Options)
      → b ≤ d
      → run_handlers g (events f ++ es) (state d b opt_none t x)
        ≡ run_handlers g es (state d b opt_none (last type_none t f) x)
  unfolding events run_handlers handle_xml parse_xml_cdata_handler set_option last
  skip_lem leaf es d b t x h = refl
  skip_lem (text s rest) es d b t x h = skip_lem rest es d b t x h
  skip_lem (element name atts kids rest) es d b t x h =
      rw
        (
          start_skipped d b name atts opt_none t x h,
          append_assoc (events kids) (end name ∷ events rest) es,
        )
        (skip_lem kids (end name ∷ (events rest ++ es)) (d + 1) b t x (omega arith)
          ∙ ap (run_handlers g (events rest ++ es))
              (end_skipped d b opt_none (last type_none t kids) x (omega arith))
          ∙ skip_lem rest es d b type_none x h)

  pub read_lem :
      (f : Forest) (es : List Event) (d : ℕ) (o : Opt) (t : OptType) (x : Options)
      → run_handlers g (events f ++ es) (state d (d + 1) o t x) ≡ (
          read o f x
          >>= (λ y. run_handlers g es (state d (d + 1) (last opt_none o f) (last type_none t f) y)))
  unfolding events run_handlers handle_xml parse_xml_cdata_handler last read
  read_lem leaf es d o t x = refl
  read_lem (text s rest) es d o t x = read_lem rest es d o t (set_option g o s x)
  read_lem (element name atts kids rest) es d o t x =
      rw (start_lem d name atts o t x, append_assoc (events kids) (end name ∷ events rest) es)
        (elim (Option-cases (visit name atts)) [
          | inl fault ↦ rw fault refl
          | inr (none, skipped) ↦ rw skipped (
              skip_lem kids (end name ∷ (events rest ++ es)) (d + 1) (d + 1) type_none x
                (omega arith)
              ∙ ap (run_handlers g (events rest ++ es))
                  (end_skipped d (d + 1) opt_none (last type_none type_none kids) x (omega arith))
              ∙ read_lem rest es d opt_none type_none x)
          | inr (some (p, q), entered) ↦ rw entered (
              read_lem kids (end name ∷ (events rest ++ es)) (d + 1) p q x
              ∙ elim (Option-cases (read p kids x)) [
                | inl fault ↦ rw fault refl
                | inr (y, done) ↦ rw done (
                    ap (run_handlers g (events rest ++ es))
                      (end_lem d (last opt_none p kids) (last type_none q kids) y)
                    ∙ read_lem rest es d opt_none type_none y)
              ])
        ])

  -- For a file that is a tree of elements and texts, the options that the handlers of expat make,
  -- with their counters of depth, are those of a reading of the tree by recursion: the inside of a
  -- rule that does not hold is skipped, each other element is entered, and the text of an option
  -- sets it up to the first element inside. The two fault on the same trees.
  pub profile_xml_parse_lem :
      (f : Forest) (x : Options)
      → profile_xml_parse g hardware_info x (some (events f, true))
        ≡ (read opt_none f x >>= (λ y. some (true, y)))
  unfolding profile_xml_parse
  profile_xml_parse_lem f x =
      let ran : run_handlers g (events f) (state 0 1 opt_none type_none x) ≡ (
          read opt_none f x
          >>= (λ y. some (state 0 1 (last opt_none opt_none f) (last type_none type_none f) y))) =
        ap (λ es. run_handlers g es (state 0 1 opt_none type_none x)) (sym (append-nil (events f)))
        ∙ read_lem f [] 0 opt_none type_none x in
      elim (Option-cases (read opt_none f x)) [
        | inl fault ↦ rw (ran, fault) refl
        | inr (y, done) ↦ rw (ran, done) refl
      ]
