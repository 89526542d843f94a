-- ===== src/Policy/Evaluate.antt =====
-- pkg/policy/policy.go: the rules of the control plane on a command. The redacted preview is an
-- argument, and `compile` stands for regexp.Compile with the matching of what it returns.
use gesta_agent.Prelude.{
  Bool, true, false, ◌&&◌, ◌||◌, List, [], ◌∷◌, ◌++◌, Option, none, some, if◌then◌else◌,
}
use gesta_agent.Bytes.{Bytes, codes}
use gesta_agent.Strings.{trim_space, join_with}
use gesta_agent.Go.{Go, hash_string}
use gesta_agent.Policy.{
  allow, PolicyRule, RuleMatch, Evaluation, policy_rule_applies_to_agent,
  decision_from_policy_action, risk_score_from_policy_rule, first_non_empty, apply_rule_matches,
}
use gesta_agent.Policy.Commands.{guarded_command_forms}

abbrev pub any_form : (Bytes → Bool) → List (List Bytes) → Bool
any_form expr [] = false
any_form expr (form ∷ forms) = expr (join_with (codes " ") form) || any_form expr forms

module _ (compile : Bytes → Option (Bytes → Bool)) where
  unfoldable pub policy_rule_matches_command : PolicyRule → List Bytes → Bool
  policy_rule_matches_command rule args = elim (trim_space rule.match_value) [
    | [] ↦ true
    | c ∷ s ↦ elim (compile (c ∷ s)) [
      | none ↦ false
      | some expr ↦ any_form expr (guarded_command_forms args)
    ]
  ]

  unfoldable pub match_of : PolicyRule → RuleMatch
  match_of rule = record {
    id = rule.rule_id;
    decision = decision_from_policy_action rule.action;
    risk_score = risk_score_from_policy_rule rule;
    reason =
        first_non_empty
          (rule.description ∷ rule.name ∷ codes "matched control-plane policy rule" ∷ []);
  }

  unfoldable pub policy_rule_matches : Bytes → List Bytes → List PolicyRule → List RuleMatch
  policy_rule_matches agent_type args [] = []
  policy_rule_matches agent_type args (rule ∷ rules) =
      let rest = policy_rule_matches agent_type args rules in
      if policy_rule_applies_to_agent rule agent_type && policy_rule_matches_command rule args
      then match_of rule ∷ rest
      else rest

abbrev pub or_unknown : Bytes → Bytes
or_unknown [] = codes "unknown"
or_unknown (c ∷ s) = c ∷ s

module _ ⦃go : Go⦄ where
  unfoldable pub new_evaluation : Bytes → List Bytes → Bytes → Bytes → Evaluation
  new_evaluation agent_type args preview reason = record {
    agent_type = or_unknown agent_type;
    command_hash = hash_string (or_unknown agent_type ++ (0 ∷ join_with (0 ∷ []) args));
    command_preview = preview;
    decision = allow;
    risk_score = 0;
    rule_ids = [];
    reason = reason;
  }

  unfoldable pub evaluate_command : Bytes → List Bytes → Bytes → Evaluation
  evaluate_command agent_type args preview =
      new_evaluation agent_type args preview (codes "no local policy rules configured")

  unfoldable pub evaluate_command_with_rules :
      (Bytes → Option (Bytes → Bool)) → Bytes → List Bytes → Bytes → List PolicyRule → Evaluation
  evaluate_command_with_rules compile agent_type args preview rules =
      apply_rule_matches
        (new_evaluation agent_type args preview (codes "no control-plane policy rules matched"))
        (policy_rule_matches compile agent_type args rules)
