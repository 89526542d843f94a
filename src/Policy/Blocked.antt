-- ===== src/Policy/Blocked.antt =====
-- When the rules of the control plane block a command (policy.go).
use gesta_agent.Prelude.{
  ◌≡◌, refl, ap, ◌∙◌, Bool, true, false, ◌&&◌, ◌||◌, List, [], ◌∷◌, Option, arith,
}
use gesta_agent.Bytes.{Bytes, codes}
use gesta_agent.Go.{Go}
use gesta_agent.Policy.{
  Decision, allow, warn, approval, block, PolicyRule, RuleMatch, Evaluation, next_decision,
  apply_match, apply_loop, apply_rule_matches, one_of, add_reason, policy_rule_applies_to_agent,
  decision_from_policy_action,
}
use gesta_agent.Policy.Evaluate.{
  policy_rule_matches_command, match_of, policy_rule_matches, new_evaluation,
  evaluate_command_with_rules,
}

abbrev pub is_block : Decision → Bool
is_block allow = false
is_block warn = false
is_block approval = false
is_block block = true

abbrev any_block : List RuleMatch → Bool
any_block [] = false
any_block (m ∷ matches) = is_block m.decision || any_block matches

next_decision-is_block : (d e : Decision) → is_block (next_decision d e) ≡ is_block d || is_block e
unfolding next_decision
next_decision-is_block d e = ground arith

apply_loop-is_block :
    (matches : List RuleMatch) (seen reasons : List Bytes) (e : Evaluation)
    → is_block (apply_loop matches seen reasons e).0.decision
      ≡ is_block e.decision || any_block matches
unfolding apply_loop apply_match
apply_loop-is_block [] seen reasons e = ground arith
apply_loop-is_block (m ∷ matches) seen reasons e = ground (
  arith,
  apply_loop-is_block matches (m.id ∷ seen) (add_reason reasons m.reason)
      (apply_match m (one_of m.id seen) e),
  next_decision-is_block e.decision m.decision,
)

apply_rule_matches-is_block :
    (e : Evaluation) (matches : List RuleMatch)
    → is_block e.decision ≡ false
    → is_block (apply_rule_matches e matches).decision ≡ any_block matches
unfolding apply_rule_matches
apply_rule_matches-is_block e [] h = h
apply_rule_matches-is_block e (m ∷ matches) h =
    apply_loop-is_block (m ∷ matches) [] [] e ∙ ap (λ b. b || any_block (m ∷ matches)) h

module _ (compile : Bytes → Option (Bytes → Bool)) where
  -- A rule that is in force for the agent, matches the command, and asks to block it.
  abbrev pub blocks : Bytes → List Bytes → PolicyRule → Bool
  blocks agent_type args rule =
      policy_rule_applies_to_agent rule agent_type
      && (policy_rule_matches_command compile rule args
          && is_block (decision_from_policy_action rule.action))

  abbrev pub any_blocks : Bytes → List Bytes → List PolicyRule → Bool
  any_blocks agent_type args [] = false
  any_blocks agent_type args (rule ∷ rules) =
      blocks agent_type args rule || any_blocks agent_type args rules

  policy_rule_matches-any_block :
      (agent_type : Bytes) (args : List Bytes) (rules : List PolicyRule)
      → any_block (policy_rule_matches compile agent_type args rules)
        ≡ any_blocks agent_type args rules
  unfolding policy_rule_matches match_of
  policy_rule_matches-any_block agent_type args [] = refl
  policy_rule_matches-any_block agent_type args (rule ∷ rules) =
      ground (arith, policy_rule_matches-any_block agent_type args rules)

  -- A command is blocked exactly where some rule of the list is in force for the agent, matches a
  -- form of the command, and asks to block it, whatever the other rules ask and their order.
  pub evaluate_command_with_rules-is_block :
      ⦃go : Go⦄ (agent_type : Bytes) (args : List Bytes) (preview : Bytes) (rules : List PolicyRule)
      → is_block (evaluate_command_with_rules compile agent_type args preview rules).decision
        ≡ any_blocks agent_type args rules
  unfolding evaluate_command_with_rules new_evaluation
  evaluate_command_with_rules-is_block agent_type args preview rules =
      apply_rule_matches-is_block
        (new_evaluation agent_type args preview (codes "no control-plane policy rules matched"))
        (policy_rule_matches compile agent_type args rules) refl
      ∙ policy_rule_matches-any_block agent_type args rules
