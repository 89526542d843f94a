-- ===== src/Tests/Verdicts.antt =====
-- The theorems on policy rules applied to three matches.
use gesta_agent.Prelude.{◌≡◌, refl, [], ◌∷◌}
use gesta_agent.Bytes.{codes, bytes_eq}
use gesta_agent.Policy.{
  allow, warn, approval, RuleMatch, Evaluation, apply_rule_matches, apply_loop, apply_match,
  next_decision, one_of, join_reasons,
}
use gesta_agent.Policy.Verdict.{Applied, apply_rule_matches-Applied}

abbrev an_evaluation : Evaluation
an_evaluation = record {
  agent_type = codes "codex";
  command_hash = [];
  command_preview = codes "kubectl";
  decision = allow;
  risk_score = 0;
  rule_ids = [];
  reason = codes "no control-plane policy rules matched";
}

abbrev asking : RuleMatch
asking = record { id = codes "r1"; decision = approval; risk_score = 70; reason = codes "ask" }

abbrev warning : RuleMatch
warning = record { id = codes "r2"; decision = warn; risk_score = 50; reason = codes "watch" }

together :
    apply_rule_matches an_evaluation (asking ∷ warning ∷ asking ∷ []) ≡ record an_evaluation {
      decision = approval;
      risk_score = 70;
      rule_ids = codes "r1" ∷ codes "r2" ∷ [];
      reason = codes "ask; watch; ask";
    }
unfolding apply_rule_matches apply_loop apply_match next_decision one_of join_reasons bytes_eq
together = refl

apply_rule_matches-Applied_example :
    Applied an_evaluation []
      (asking ∷ warning ∷ [])
      (apply_rule_matches an_evaluation (asking ∷ warning ∷ []))
apply_rule_matches-Applied_example =
    apply_rule_matches-Applied an_evaluation (asking ∷ warning ∷ [])
