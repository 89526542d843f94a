-- ===== src/ContextMatch/Validation.antt =====
-- pkg/contextmatch/matcher.go: ValidateRules, and which bundles of rules it takes.
use gesta_agent.Prelude.{
  ◌≤◌, ◌≡◌, ◌≢◌, ◌⊎◌, ◌∙◌, ap, refl, sym, Bool, true, false, not, ◌&&◌, ◌||◌, List, [], ◌∷◌, ◌++◌,
  Option, none, some, arith, All, if◌then◌else◌, ltb, is_some, none_ne_some,
}
use gesta_agent.Bytes.{Bytes, codes, bytes_eq, bytes_eq_iff}
use gesta_agent.Strings.{trim_space}
use gesta_agent.ContextMatch.{ContextRule, rune_count, max_context_content}

-- The errors of ValidateRules, by their texts.
pub data RuleError : Type 0 where
  invalid_identity_or_status invalid_agent_type invalid_content : RuleError
  empty_keyword_matcher invalid_regular_expression invalid_match_type : RuleError

unfoldable pub any_named : List Bytes → Bool
any_named [] = false
any_named (keyword ∷ keywords) = not (bytes_eq (trim_space keyword) []) || any_named keywords

module _ (compile : Bytes → Option (Bytes → Bool)) where
  unfoldable pub validate_matcher : ContextRule → Option RuleError
  validate_matcher rule =
      if bytes_eq rule.match_type (codes "always")
      then none
      else if bytes_eq rule.match_type (codes "keyword_any")
      then (if any_named rule.keywords then none else some empty_keyword_matcher)
      else if bytes_eq rule.match_type (codes "regex")
      then (if is_some (compile rule.pattern) then none else some invalid_regular_expression)
      else some invalid_match_type

  unfoldable pub validate_rule : ContextRule → Option RuleError
  validate_rule rule =
      if bytes_eq (trim_space rule.rule_id) [] || not (bytes_eq rule.status (codes "active"))
      then some invalid_identity_or_status
      else if not (bytes_eq rule.agent_type (codes "all"))
          && (not (bytes_eq rule.agent_type (codes "codex"))
              && not (bytes_eq rule.agent_type (codes "claude_code")))
      then some invalid_agent_type
      else if bytes_eq (trim_space rule.context_content) []
          || ltb max_context_content (rune_count rule.context_content)
      then some invalid_content
      else validate_matcher rule

  unfoldable pub validate_rules : List ContextRule → Option RuleError
  validate_rules [] = none
  validate_rules (rule ∷ rules) = elim (validate_rule rule) [
    | some e ↦ some e
    | none ↦ validate_rules rules
  ]

  -- What a rule of a bundle must be.
  pub record IsValid (rule : ContextRule) : Type 0 where
    pub named : trim_space rule.rule_id ≢ []
    pub active : rule.status ≡ codes "active"
    pub agent :
        (rule.agent_type ≡ codes "all")
        ⊎ ((rule.agent_type ≡ codes "codex") ⊎ (rule.agent_type ≡ codes "claude_code"))
    pub content : trim_space rule.context_content ≢ []
    pub short : rune_count rule.context_content ≤ 8000
    pub matcher :
        (rule.match_type ≡ codes "always")
        ⊎ (((rule.match_type ≡ codes "keyword_any") × (any_named rule.keywords ≡ true))
            ⊎ ((rule.match_type ≡ codes "regex") × (is_some (compile rule.pattern) ≡ true)))

  validate_matcher-valid :
      (rule : ContextRule)
      → validate_matcher rule ≡ none
      → (rule.match_type ≡ codes "always")
        ⊎ (((rule.match_type ≡ codes "keyword_any") × (any_named rule.keywords ≡ true))
            ⊎ ((rule.match_type ≡ codes "regex") × (is_some (compile rule.pattern) ≡ true)))
  unfolding validate_matcher
  validate_matcher-valid rule h = ground (
    arith,
    h,
    bytes_eq_iff rule.match_type (codes "always"),
    bytes_eq_iff rule.match_type (codes "keyword_any"),
    bytes_eq_iff rule.match_type (codes "regex"),
  )

  validate_matcher-none : (rule : ContextRule) → IsValid rule → validate_matcher rule ≡ none
  unfolding validate_matcher
  validate_matcher-none rule v = ground (
    arith,
    v.matcher,
    bytes_eq_iff rule.match_type (codes "always"),
    bytes_eq_iff rule.match_type (codes "keyword_any"),
    bytes_eq_iff rule.match_type (codes "regex"),
  )

  validate_rule-IsValid : (rule : ContextRule) → validate_rule rule ≡ none → IsValid rule
  unfolding validate_rule
  validate_rule-IsValid rule h = record {
    named = ground (arith, h, bytes_eq_iff (trim_space rule.rule_id) []);
    active = ground (arith, h, bytes_eq_iff rule.status (codes "active"));
    agent = ground (
      arith,
      h,
      bytes_eq_iff rule.agent_type (codes "all"),
      bytes_eq_iff rule.agent_type (codes "codex"),
      bytes_eq_iff rule.agent_type (codes "claude_code"),
    );
    content = ground (arith, h, bytes_eq_iff (trim_space rule.context_content) []);
    short = ground (arith, h);
    matcher = validate_matcher-valid rule (ground (arith, h));
  }

  validate_rule-none : (rule : ContextRule) → IsValid rule → validate_rule rule ≡ none
  unfolding validate_rule
  validate_rule-none rule v = ground (
    arith,
    v.named,
    v.active,
    v.agent,
    v.content,
    v.short,
    validate_matcher-none rule v,
    bytes_eq_iff (trim_space rule.rule_id) [],
    bytes_eq_iff rule.status (codes "active"),
    bytes_eq_iff rule.agent_type (codes "all"),
    bytes_eq_iff rule.agent_type (codes "codex"),
    bytes_eq_iff rule.agent_type (codes "claude_code"),
    bytes_eq_iff (trim_space rule.context_content) [],
  )

  -- The first rule that is not valid, and the error of it.
  pub record FirstInvalid (rules : List ContextRule) (e : RuleError) : Type 0 where
    pub before : List ContextRule
    pub rule : ContextRule
    pub after : List ContextRule
    pub split : rules ≡ before ++ (rule ∷ after)
    pub valid : All IsValid before
    pub invalid : ¬ IsValid rule
    pub error : validate_rule rule ≡ some e

  -- Either every rule is valid and there is no error, or the error is that of the first rule that is
  -- not valid.
  abbrev pub Validated : List ContextRule → Option RuleError → Type 0
  Validated rules none = All IsValid rules
  Validated rules (some e) = FirstInvalid rules e

  validate_rule-invalid :
      (rule : ContextRule) (e : RuleError) → validate_rule rule ≡ some e → ¬ IsValid rule
  validate_rule-invalid rule e h v = none_ne_some (sym (validate_rule-none rule v) ∙ h)

  Validated-later :
      (rule : ContextRule) (rules : List ContextRule) (o : Option RuleError)
      → IsValid rule
      → Validated rules o
      → Validated (rule ∷ rules) o
  Validated-later rule rules none v h = (v, h)
  Validated-later rule rules (some e) v h = record {
    before = rule ∷ h.before;
    rule = h.rule;
    after = h.after;
    split = ap (◌∷◌ rule) h.split;
    valid = (v, h.valid);
    invalid = h.invalid;
    error = h.error;
  }

  Validated-first :
      (rule : ContextRule) (rules : List ContextRule) (rest o : Option RuleError)
      → validate_rule rule ≡ o
      → Validated rules rest
      → Validated
          (rule ∷ rules)
          (elim o as (λ x. Option RuleError) [ some e ↦ some e | none ↦ rest ])
  Validated-first rule rules rest none h v =
      Validated-later rule rules rest (validate_rule-IsValid rule h) v
  Validated-first rule rules rest (some e) h v = record {
    before = [];
    rule = rule;
    after = rules;
    split = refl;
    valid = tt;
    invalid = validate_rule-invalid rule e h;
    error = h;
  }

  -- ValidateRules takes exactly the bundles whose rules are all valid, and its error is that of the
  -- first rule that is not.
  pub validate_rules-Validated : (rules : List ContextRule) → Validated rules (validate_rules rules)
  unfolding validate_rules
  validate_rules-Validated [] = tt
  validate_rules-Validated (rule ∷ rules) =
      Validated-first rule rules (validate_rules rules) (validate_rule rule) refl
        (validate_rules-Validated rules)
