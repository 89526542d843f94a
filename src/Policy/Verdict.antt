-- ===== src/Policy/Verdict.antt =====
-- applyRuleMatches: what the matched rules decide together.
use gesta_agent.Prelude.{
  ℕ, ◌≡◌, refl, sym, ◌∙◌, Bool, true, false, ◌||◌, List, [], ◌∷◌, ◌++◌, arith, max, ltb,
  if◌then◌else◌, inl, inr, Bool-cases, append_assoc, append-nil,
}
use gesta_agent.Bytes.{Bytes}
use gesta_agent.Policy.{
  Decision, allow, warn, approval, block, RuleMatch, Evaluation, one_of, next_decision, apply_match,
  apply_loop, apply_rule_matches,
}

abbrev pub blocks : Decision → Bool
blocks block = true
blocks allow = false
blocks warn = false
blocks approval = false

abbrev pub any_blocks : List RuleMatch → Bool
any_blocks [] = false
any_blocks (m ∷ l) = blocks m.decision || any_blocks l

-- The decision of the last match that is no `allow`, or else the one before them all.
abbrev pub last_asked : Decision → List RuleMatch → Decision
last_asked d [] = d
last_asked d (m ∷ l) =
    last_asked (elim m.decision [ allow ↦ d | warn ↦ warn | approval ↦ approval | block ↦ block ]) l

abbrev pub greatest_risk : ℕ → List RuleMatch → ℕ
greatest_risk n [] = n
greatest_risk n (m ∷ l) = max m.risk_score (greatest_risk n l)

-- The identifiers that are not in `seen`, each at its first place.
abbrev pub new_ids : List Bytes → List RuleMatch → List Bytes
new_ids seen [] = []
new_ids seen (m ∷ l) =
    if one_of m.id seen then new_ids (m.id ∷ seen) l else m.id ∷ new_ids (m.id ∷ seen) l

pub record Applied (e : Evaluation) (seen : List Bytes) (l : List RuleMatch) (r : Evaluation)
    : Type 0 where
  pub decision_eq :
      r.decision ≡ (if blocks e.decision || any_blocks l then block else last_asked e.decision l)
  pub risk_eq : r.risk_score ≡ greatest_risk e.risk_score l
  pub ids_eq : r.rule_ids ≡ e.rule_ids ++ new_ids seen l

decided :
    (c d : Decision) (l : List RuleMatch) (m : RuleMatch)
    → m.decision ≡ d
    → (if blocks (next_decision c d) || any_blocks l
        then block
        else last_asked (next_decision c d) l)
      ≡ (if blocks c || any_blocks (m ∷ l) then block else last_asked c (m ∷ l))
unfolding next_decision
decided allow allow l m h = rw h refl
decided allow warn l m h = rw h refl
decided allow approval l m h = rw h refl
decided allow block l m h = rw h refl
decided warn allow l m h = rw h refl
decided warn warn l m h = rw h refl
decided warn approval l m h = rw h refl
decided warn block l m h = rw h refl
decided approval allow l m h = rw h refl
decided approval warn l m h = rw h refl
decided approval approval l m h = rw h refl
decided approval block l m h = rw h refl
decided block allow l m h = refl
decided block warn l m h = refl
decided block approval l m h = refl
decided block block l m h = refl

risked :
    (n : ℕ) (m : RuleMatch) (l : List RuleMatch)
    → greatest_risk (if ltb n m.risk_score then m.risk_score else n) l
      ≡ max m.risk_score (greatest_risk n l)
risked n m [] = ground arith
risked n m (x ∷ l) = ground (arith, risked n m l)

named :
    (ids seen : List Bytes) (m : RuleMatch) (l : List RuleMatch)
    → (if one_of m.id seen then ids else ids ++ (m.id ∷ [])) ++ new_ids (m.id ∷ seen) l
      ≡ ids ++ new_ids seen (m ∷ l)
named ids seen m l = elim (Bool-cases (one_of m.id seen)) [
  | inl old ↦ rw old refl
  | inr new ↦ rw new (append_assoc ids (m.id ∷ []) (new_ids (m.id ∷ seen) l))
]

apply_loop-Applied :
    (l : List RuleMatch) (seen reasons : List Bytes) (e : Evaluation)
    → Applied e seen l (apply_loop l seen reasons e).0
unfolding apply_loop apply_match
apply_loop-Applied [] seen reasons e = record {
  decision_eq = unblocked e.decision;
  risk_eq = refl;
  ids_eq = sym (append-nil e.rule_ids);
}
  where
    unblocked : (d : Decision) → d ≡ (if blocks d || false then block else d)
    unblocked allow = refl
    unblocked warn = refl
    unblocked approval = refl
    unblocked block = refl
apply_loop-Applied (m ∷ l) seen reasons e =
    let a = apply_loop-Applied l (m.id ∷ seen) _ (apply_match m (one_of m.id seen) e) in
    record {
      decision_eq = a.decision_eq ∙ decided e.decision m.decision l m refl;
      risk_eq = a.risk_eq ∙ risked e.risk_score m l;
      ids_eq = a.ids_eq ∙ named e.rule_ids seen m l;
    }

-- What the matches decide together: a block where the evaluation or one match blocks, and otherwise
-- the decision of the last match that is no `allow`, if there is one; the greatest risk score; and
-- each identifier once, in the order of the first matches.
pub apply_rule_matches-Applied :
    (e : Evaluation) (l : List RuleMatch) → Applied e [] l (apply_rule_matches e l)
unfolding apply_rule_matches apply_loop
apply_rule_matches-Applied e [] =
    let a = apply_loop-Applied [] [] [] e in
    record { decision_eq = a.decision_eq; risk_eq = a.risk_eq; ids_eq = a.ids_eq }
apply_rule_matches-Applied e (m ∷ l) =
    let a = apply_loop-Applied (m ∷ l) [] [] e in
    record { decision_eq = a.decision_eq; risk_eq = a.risk_eq; ids_eq = a.ids_eq }
