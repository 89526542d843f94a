-- ===== src/Tests/Contexts.antt =====
-- The limits on context rules applied to two rules.
use gesta_agent.Prelude.{◌≡◌, refl, Bool, [], ◌∷◌, Option, none}
use gesta_agent.Prelude.Int.{pos}
use gesta_agent.Bytes.{Bytes, codes, bytes_eq, bytes_lt}
use gesta_agent.Strings.{to_lower, trim_space, trim_left, is_space}
use gesta_agent.ContextMatch.{
  ContextRule, match_rules, match_loop, add_rule, matches_prompt, any_keyword,
  contains_bounded_keyword, keyword_from, keyword_boundary_matches, is_ascii_word_byte,
  supports_agent, sort_rules, insert_rule, comes_before,
}
use gesta_agent.ContextMatch.Limits.{IsLimited, match_rules-IsLimited}

-- No pattern is one.
abbrev pub no_patterns : Bytes → Option (Bytes → Bool)
no_patterns pattern = none

abbrev pub a_rule : ContextRule
a_rule = record {
  rule_id = codes "r1";
  status = codes "active";
  agent_type = codes "all";
  match_type = codes "keyword_any";
  keywords = codes "Deploy" ∷ [];
  pattern = [];
  context_content = codes " ask first ";
  priority = pos 1;
}

abbrev another_rule : ContextRule
another_rule = record a_rule { rule_id = codes "r2"; match_type = codes "always"; priority = pos 2 }

-- A keyword stands for itself, and not inside another word.
both :
    (match_rules no_patterns
      (codes "now deploy it")
      (codes "codex")
      (a_rule ∷ another_rule ∷ [])).rules
    ≡ another_rule ∷ a_rule ∷ []
unfolding match_rules match_loop add_rule matches_prompt any_keyword contains_bounded_keyword
    keyword_from keyword_boundary_matches is_ascii_word_byte supports_agent sort_rules insert_rule
    comes_before to_lower trim_space trim_left is_space bytes_eq bytes_lt
both = refl

one :
    (match_rules no_patterns
      (codes "now redeploy it")
      (codes "codex")
      (a_rule ∷ another_rule ∷ [])).rules
    ≡ another_rule ∷ []
unfolding match_rules match_loop add_rule matches_prompt any_keyword contains_bounded_keyword
    keyword_from keyword_boundary_matches is_ascii_word_byte supports_agent sort_rules insert_rule
    comes_before to_lower trim_space trim_left is_space bytes_eq bytes_lt
one = refl

match_rules-IsLimited_example :
    IsLimited no_patterns
      (trim_space (codes "now deploy it"))
      (trim_space (to_lower (codes "codex")))
      (match_rules no_patterns (codes "now deploy it") (codes "codex") (a_rule ∷ another_rule ∷ []))
match_rules-IsLimited_example =
    match_rules-IsLimited no_patterns (codes "now deploy it") (codes "codex")
      (a_rule ∷ another_rule ∷ [])
