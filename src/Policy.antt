-- ===== src/Policy.antt =====
-- pkg/policy/policy.go: what a rule of the control plane asks for, and what several matched rules
-- decide together.
pub mod Verdict
pub mod Commands
pub mod Evaluate
pub mod Blocked
pub mod Unwrapped
use gesta_agent.Prelude.{
  ℕ, Bool, true, false, ◌||◌, List, [], ◌∷◌, ◌++◌, map, ltb, ◌==◌, if◌then◌else◌,
}
use gesta_agent.Bytes.{Bytes, codes, bytes_eq}
use gesta_agent.Strings.{trim_space, to_lower}

pub data Decision : Type 0 where
  allow warn approval block : Decision

-- The fields of a rule that its evaluation reads.
pub record PolicyRule : Type 0 where
  pub rule_id : Bytes
  pub name : Bytes
  pub description : Bytes
  pub status : Bytes
  pub agent_type : Bytes
  pub match_value : Bytes
  pub action : Bytes
  pub risk_level : Bytes

pub record RuleMatch : Type 0 where
  pub id : Bytes
  pub decision : Decision
  pub risk_score : ℕ
  pub reason : Bytes

pub record Evaluation : Type 0 where
  pub agent_type : Bytes
  pub command_hash : Bytes
  pub command_preview : Bytes
  pub decision : Decision
  pub risk_score : ℕ
  pub rule_ids : List Bytes
  pub reason : Bytes

unfoldable pub one_of : Bytes → List Bytes → Bool
one_of s [] = false
one_of s (t ∷ l) = bytes_eq s t || one_of s l

unfoldable pub matched_rule : Evaluation → Bool
matched_rule e = elim e.rule_ids [ [] ↦ false | id ∷ ids ↦ true ]

-- strings.NewReplacer("-", "_", " ", "_")
abbrev underscore : ℕ → ℕ
underscore c = if (c == 45) || (c == 32) then 95 else c

unfoldable pub normalize_rule_token : Bytes → Bytes
normalize_rule_token value = to_lower (map underscore (trim_space value))

unfoldable pub first_non_empty : List Bytes → Bytes
first_non_empty [] = []
first_non_empty (value ∷ values) = elim (trim_space value) [
  | [] ↦ first_non_empty values
  | c ∷ s ↦ c ∷ s
]

unfoldable pub policy_rule_applies_to_agent : PolicyRule → Bytes → Bool
policy_rule_applies_to_agent rule agent_type =
    let rule_agent = normalize_rule_token rule.agent_type in
    if bytes_eq (normalize_rule_token rule.status) (codes "active")
    then (if one_of rule_agent ([] ∷ codes "all" ∷ codes "all_agents" ∷ [])
        then true
        else if bytes_eq rule_agent (codes "codex")
        then true
        else bytes_eq rule_agent (normalize_rule_token agent_type))
    else false

unfoldable pub decision_from_policy_action : Bytes → Decision
decision_from_policy_action value =
    let token = normalize_rule_token value in
    if one_of token (codes "block" ∷ codes "blocked" ∷ codes "deny" ∷ codes "denied" ∷ [])
    then block
    else if one_of token (
        codes "approval"
        ∷ codes "requires_approval"
        ∷ codes "require_approval"
        ∷ codes "approval_required"
        ∷ codes "review"
        ∷ codes "review_required"
        ∷ [])
    then approval
    else if one_of token (codes "warn" ∷ codes "warning" ∷ codes "warned" ∷ [])
    then warn
    else allow

abbrev pub decision_risk : Decision → ℕ
decision_risk block = 85
decision_risk approval = 70
decision_risk warn = 50
decision_risk allow = 0

unfoldable pub risk_score_from_policy_rule : PolicyRule → ℕ
risk_score_from_policy_rule rule =
    let level = normalize_rule_token rule.risk_level in
    if bytes_eq level (codes "critical")
    then 95
    else if bytes_eq level (codes "high")
    then 80
    else if bytes_eq level (codes "medium")
    then 55
    else if bytes_eq level (codes "low")
    then 25
    else decision_risk (decision_from_policy_action rule.action)

-- The decision after one more match.
unfoldable pub next_decision : Decision → Decision → Decision
next_decision current block = block
next_decision block approval = block
next_decision allow approval = approval
next_decision warn approval = approval
next_decision approval approval = approval
next_decision block warn = block
next_decision allow warn = warn
next_decision warn warn = warn
next_decision approval warn = warn
next_decision current allow = current

abbrev add_reason : List Bytes → Bytes → List Bytes
add_reason reasons [] = reasons
add_reason reasons (c ∷ s) = reasons ++ ((c ∷ s) ∷ [])

-- One turn of the loop of applyRuleMatches, reasons aside.
unfoldable pub apply_match : RuleMatch → Bool → Evaluation → Evaluation
apply_match m seen e = record e {
  decision = next_decision e.decision m.decision;
  risk_score = if ltb e.risk_score m.risk_score then m.risk_score else e.risk_score;
  rule_ids = if seen then e.rule_ids else e.rule_ids ++ (m.id ∷ []);
}

-- The loop, with the identifiers that it has seen and the reasons so far.
unfoldable pub apply_loop :
    List RuleMatch → List Bytes → List Bytes → Evaluation → Evaluation × List Bytes
apply_loop [] seen reasons e = (e, reasons)
apply_loop (m ∷ matches) seen reasons e =
    apply_loop matches (m.id ∷ seen) (add_reason reasons m.reason)
      (apply_match m (one_of m.id seen) e)

-- strings.Join with "; "
unfoldable pub join_reasons : List Bytes → Bytes
join_reasons [] = []
join_reasons (r ∷ []) = r
join_reasons (r ∷ s ∷ l) = r ++ codes "; " ++ join_reasons (s ∷ l)

unfoldable pub apply_rule_matches : Evaluation → List RuleMatch → Evaluation
apply_rule_matches e [] = e
apply_rule_matches e (m ∷ matches) =
    let (e', reasons) = apply_loop (m ∷ matches) [] [] e in
    record e' { reason = join_reasons reasons }
