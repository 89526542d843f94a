-- ===== src/ContextMatch/Limits.antt =====
-- Match: what is added to a prompt stays within the limits.
use gesta_agent.Prelude.{
  ◌+◌, ◌≤◌, ◌≡◌, refl, Bool, true, ◌&&◌, ◌||◌, List, [], ◌∷◌, ◌++◌, Option, arith, length,
  length-append, inl, inr, Bool-cases, ltb, leb, All, ◌==◌,
}
use gesta_agent.Bytes.{Bytes, codes, bytes_eq}
use gesta_agent.Strings.{trim_space, to_lower}
use gesta_agent.ContextMatch.{
  ContextRule, Matching, max_matched_rules, max_context_content, rune_count, separator_length,
  join_contents, matches_prompt, supports_agent, add_rule, match_loop, match_rules, sort_rules,
  no_match,
}

rune_count-append : (a b : Bytes) → rune_count (a ++ b) ≡ rune_count a + rune_count b
rune_count-append [] b = omega arith
rune_count-append (c ∷ a) b = ground (arith, rune_count-append a b)

-- One more content is joined by a separator, unless it is the first.
rune_count-join_contents :
    (l : List Bytes) (c : Bytes)
    → rune_count (join_contents (l ++ (c ∷ [])))
      ≡ rune_count (join_contents l) + separator_length l + rune_count c
unfolding join_contents
rune_count-join_contents [] c = omega arith
rune_count-join_contents (a ∷ []) c = omega (arith, rune_count-append a (10 ∷ 10 ∷ c))
rune_count-join_contents (a ∷ b ∷ l) c = omega (
  arith,
  rune_count-append a (10 ∷ 10 ∷ join_contents ((b ∷ l) ++ (c ∷ []))),
  rune_count-append a (10 ∷ 10 ∷ join_contents (b ∷ l)),
  rune_count-join_contents (b ∷ l) c,
)

-- The joined contents have the length that the loop counts; it and the number of rules are within
-- the limits; and each rule that was taken is active, fits the agent and matches the prompt.
pub record IsLimited (compile : Bytes → Option (Bytes → Bool)) (prompt agent_type : Bytes)
    (m : Matching) : Type 0 where
  pub few : length m.rules ≤ max_matched_rules
  pub short : rune_count (join_contents m.contents) ≤ max_context_content
  pub counted : m.content_length ≡ rune_count (join_contents m.contents)
  pub matching :
      All
        (λ rule.
          (bytes_eq rule.status (codes "active")
            && (supports_agent rule.agent_type agent_type && matches_prompt compile rule prompt))
          ≡ true)
        m.rules

All-snoc {ℓ κ} :
    {A : Type ℓ} (P : A → Type κ) (l : List A) (x : A) → All P l → P x → All P (l ++ (x ∷ []))
All-snoc P [] x a p = (p, tt)
All-snoc P (y ∷ l) x (q, a) p = (q, All-snoc P l x a p)

module _ (compile : Bytes → Option (Bytes → Bool)) where
  add_rule-IsLimited :
      (prompt agent_type : Bytes) (rule : ContextRule) (m : Matching)
      → (bytes_eq rule.status (codes "active")
          && (supports_agent rule.agent_type agent_type && matches_prompt compile rule prompt))
        ≡ true
      → IsLimited compile prompt agent_type m
      → IsLimited compile prompt agent_type (add_rule compile rule m)
  unfolding add_rule
  add_rule-IsLimited prompt agent_type rule m fits v =
      let content = trim_space rule.context_content in
      let new_length = m.content_length + separator_length m.contents + rune_count content in
      elim (Bool-cases
        (leb max_matched_rules (length m.rules) || ltb max_context_content new_length)) [
          | inl full ↦
              rw full (record {
                few = v.few;
                short = v.short;
                counted = v.counted;
                matching = v.matching;
              })
          | inr room ↦
              let joined = rune_count-join_contents m.contents content in
              rw room (record {
                few = ground (arith, length-append m.rules (rule ∷ []));
                short = ground (arith, joined, v.counted);
                counted = omega (arith, joined, v.counted);
                matching = All-snoc _ m.rules rule v.matching fits;
              })
        ]

  match_loop-IsLimited :
      (prompt agent_type : Bytes) (l : List ContextRule) (m : Matching)
      → IsLimited compile prompt agent_type m
      → IsLimited compile prompt agent_type (match_loop compile prompt agent_type l m)
  unfolding match_loop
  match_loop-IsLimited prompt agent_type [] m v = v
  match_loop-IsLimited prompt agent_type (rule ∷ l) m v =
      elim (Bool-cases (
        bytes_eq rule.status (codes "active")
        && (supports_agent rule.agent_type agent_type && matches_prompt compile rule prompt))) [
          | inl fits ↦ rw fits (
              match_loop-IsLimited prompt agent_type l (add_rule compile rule m)
                (add_rule-IsLimited prompt agent_type rule m fits v))
          | inr other ↦ rw other (match_loop-IsLimited prompt agent_type l m v)
        ]

  no_match-IsLimited :
      (prompt agent_type : Bytes) → IsLimited compile prompt agent_type (no_match compile)
  unfolding join_contents
  no_match-IsLimited prompt agent_type = record {
    few = omega arith;
    short = omega arith;
    counted = refl;
    matching = tt;
  }

  -- Match takes at most ten rules and adds at most 8000 runes with the separators, whatever the
  -- rules; each rule that it takes is active, fits the agent and matches the prompt.
  pub match_rules-IsLimited :
      (prompt agent_type : Bytes) (rules : List ContextRule)
      → IsLimited compile
          (trim_space prompt)
          (trim_space (to_lower agent_type))
          (match_rules compile prompt agent_type rules)
  unfolding match_rules
  match_rules-IsLimited prompt agent_type rules =
      elim (Bool-cases (length (trim_space prompt) == 0)) [
        | inl blank ↦ rw blank (no_match-IsLimited _ _)
        | inr some_text ↦ rw some_text (
            match_loop-IsLimited (trim_space prompt) (trim_space (to_lower agent_type))
              (sort_rules rules) (no_match compile) (no_match-IsLimited _ _))
      ]
