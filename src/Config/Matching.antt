-- ===== src/Config/Matching.antt =====
-- What a rule of a profile means (match_rule of src/urf-config.c).
use urfkill.Prelude.{
  ◌≡◌, ◌≢◌, ◌↔◌, ◌⊎◌, inl, inr, refl, Bool, true, String, List, [], ◌∷◌, str_eq, arith, eq_iff,
  ne_of_str_eq, Bool-cases,
}
use urfkill.Config.Rules.{
  Texts, Operator, string, string_outof, contains, contains_ncase, contains_not, contains_outof,
  prefix, prefix_ncase, prefix_outof, suffix, suffix_ncase, suffix_outof, oper_unknown,
  equals_token, any_token, compare_texts, match_rule,
}

-- A token of the list has the property.
pub SomeToken : (String → Type 0) → List String → Type 0
SomeToken P [] = ⊥
SomeToken P (t ∷ ts) = P t ⊎ SomeToken P ts

module _ (g : Texts) where
  -- A token that is not empty stands in the pattern.
  abbrev pub Listed : (String → Bool) → String → Type 0
  Listed test p = SomeToken (λ t. (t ≢ "") × (test t ≡ true)) (g.split p)

  -- What each operator says of a text `s` and a pattern `p`.
  pub Matches : Operator → (s p : String) → Type 0
  Matches string s p = s ≡ p
  Matches string_outof s p = SomeToken (λ t. s ≡ t) (g.split p)
  Matches contains s p = g.has_text s p ≡ true
  Matches contains_ncase s p = g.has_text (g.lower s) (g.lower p) ≡ true
  Matches contains_not s p = ¬ (g.has_text s p ≡ true)
  Matches contains_outof s p = Listed (g.has_text s) p
  Matches prefix s p = g.has_prefix s p ≡ true
  Matches prefix_ncase s p = g.has_prefix (g.lower s) (g.lower p) ≡ true
  Matches prefix_outof s p = Listed (g.has_prefix s) p
  Matches suffix s p = g.has_suffix s p ≡ true
  Matches suffix_ncase s p = g.has_suffix (g.lower s) (g.lower p) ≡ true
  Matches suffix_outof s p = Listed (g.has_suffix s) p
  Matches oper_unknown s p = ⊥

  equals_token_iff :
      (s : String) (ts : List String) → (equals_token g s ts ≡ true) ↔ SomeToken (λ t. s ≡ t) ts
  unfolding equals_token SomeToken
  equals_token_iff s [] = ((λ h. cc), (λ h. absurd h))
  equals_token_iff s (t ∷ ts) =
      let (there, back) = equals_token_iff s ts in
      elim (Bool-cases (str_eq s t)) [
        | inl e ↦ rw e ((λ h. inl ((eq_iff s t).0 e)), (λ h. refl))
        | inr e ↦ rw e (
          (λ h. inr (there h)),
          (λ h. elim h [ inl same ↦ cc (e, (eq_iff s t).1 same) | inr rest ↦ back rest ]),
        )
      ]

  any_token_iff :
      (test : String → Bool) (ts : List String)
      → (any_token g test ts ≡ true) ↔ SomeToken (λ t. (t ≢ "") × (test t ≡ true)) ts
  unfolding any_token SomeToken
  any_token_iff test [] = ((λ h. cc), (λ h. absurd h))
  any_token_iff test (t ∷ ts) =
      let (there, back) = any_token_iff test ts in
      elim (Bool-cases (str_eq t "")) [
        | inl e ↦ rw e (
          (λ h. inr (there h)),
          (λ h. elim h [ inl found ↦ absurd (found.0 ((eq_iff t "").0 e)) | inr rest ↦ back rest ]),
        )
        | inr e ↦ elim (Bool-cases (test t)) [
          | inl f ↦ rw (e, f) ((λ h. inl (ne_of_str_eq t "" e, refl)), (λ h. refl))
          | inr f ↦
              rw (e, f)
                (
                  (λ h. inr (there h)),
                  (λ h. elim h [ inl found ↦ cc (found.1) | inr rest ↦ back rest ]),
                )
        ]
      ]

  compare_texts_iff :
      (op : Operator) (s p : String) → (compare_texts g s op p ≡ true) ↔ Matches op s p
  unfolding compare_texts Matches
  compare_texts_iff string s p = eq_iff s p
  compare_texts_iff string_outof s p = equals_token_iff s (g.split p)
  compare_texts_iff contains s p = ((λ h. h), (λ h. h))
  compare_texts_iff contains_ncase s p = ((λ h. h), (λ h. h))
  compare_texts_iff contains_not s p = ground arith
  compare_texts_iff contains_outof s p = any_token_iff (g.has_text s) (g.split p)
  compare_texts_iff prefix s p = ((λ h. h), (λ h. h))
  compare_texts_iff prefix_ncase s p = ((λ h. h), (λ h. h))
  compare_texts_iff prefix_outof s p = any_token_iff (g.has_prefix s) (g.split p)
  compare_texts_iff suffix s p = ((λ h. h), (λ h. h))
  compare_texts_iff suffix_ncase s p = ((λ h. h), (λ h. h))
  compare_texts_iff suffix_outof s p = any_token_iff (g.has_suffix s) (g.split p)
  compare_texts_iff oper_unknown s p = ((λ h. cc), (λ h. absurd h))

  -- A rule of a profile matches a text exactly when neither the text nor the pattern is empty and
  -- they stand in the relation that the operator means: equality, containing, beginning or ending,
  -- of the texts or of both in lower case, for the pattern or for one of its tokens, where only
  -- the test for equality takes an empty token.
  pub match_rule_iff :
      (op : Operator) (s p : String)
      → (match_rule g s op p ≡ true) ↔ ((s ≢ "") × (p ≢ "") × Matches op s p)
  unfolding match_rule
  match_rule_iff op s p =
      let (there, back) = compare_texts_iff op s p in
      elim (Bool-cases (str_eq s "")) [
        | inl e ↦ rw e ((λ h. cc), (λ h. absurd (h.0 ((eq_iff s "").0 e))))
        | inr e ↦ elim (Bool-cases (str_eq p "")) [
          | inl f ↦ rw (e, f) ((λ h. cc), (λ h. absurd (h.1 ((eq_iff p "").0 f))))
          | inr f ↦
              rw (e, f)
                ((λ h. (ne_of_str_eq s "" e, ne_of_str_eq p "" f, there h)), (λ h. back h.2))
        ]
      ]
