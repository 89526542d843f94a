-- ===== src/ContextMatch.antt =====
-- pkg/contextmatch/matcher.go: the context that the rules add to a prompt. `compile` stands for
-- regexp.Compile and MatchString: the test of a text, where the pattern is one.
pub mod Limits
pub mod Validation
use gesta_agent.Prelude.{
  ℕ, zero, suc, ◌+◌, Bool, true, false, not, ◌&&◌, ◌||◌, List, [], ◌∷◌, ◌++◌, map, Option, none,
  some, length, drop, take, ltb, leb, ◌==◌, if◌then◌else◌,
}
use gesta_agent.Prelude.Int.{ℤ, ltb_ℤ}
use gesta_agent.Bytes.{Bytes, codes, bytes_eq, bytes_lt}
use gesta_agent.Strings.{trim_space, to_lower}

pub record ContextRule : Type 0 where
  pub rule_id : Bytes
  pub status : Bytes
  pub agent_type : Bytes
  pub match_type : Bytes
  pub keywords : List Bytes
  pub pattern : Bytes
  pub context_content : Bytes
  pub priority : ℤ

abbrev pub max_matched_rules : ℕ
max_matched_rules = 10

abbrev pub max_context_content : ℕ
max_context_content = 8000

-- utf8.RuneCountInString of valid UTF-8: each byte counts that continues no rune.
abbrev pub rune_count : Bytes → ℕ
rune_count [] = 0
rune_count (c ∷ s) = (if leb 128 c && ltb c 192 then 0 else 1) + rune_count s

unfoldable pub is_ascii_word_byte : ℕ → Bool
is_ascii_word_byte c = (leb 97 c && leb c 122) || ((leb 48 c && leb c 57) || (c == 95))

abbrev pub is_word : Option ℕ → Bool
is_word none = false
is_word (some c) = is_ascii_word_byte c

abbrev pub first_byte : Bytes → Option ℕ
first_byte [] = none
first_byte (c ∷ s) = some c

abbrev pub last_byte : Bytes → Option ℕ
last_byte [] = none
last_byte (c ∷ []) = some c
last_byte (c ∷ d ∷ s) = last_byte (d ∷ s)

-- keywordBoundaryMatches: the bytes before and after the keyword, if there are any.
unfoldable pub keyword_boundary_matches : Option ℕ → Bytes → Option ℕ → Bool
keyword_boundary_matches before keyword after =
    if is_word (first_byte keyword) && is_word before
    then false
    else not (is_word (last_byte keyword) && is_word after)

-- The keyword stands in the prompt from here on, at a place whose boundaries match.
unfoldable pub keyword_from : Bytes → Option ℕ → Bytes → Bool
keyword_from keyword before [] = false
keyword_from keyword before (c ∷ s) =
    (bytes_eq (take (length keyword) (c ∷ s)) keyword
      && keyword_boundary_matches before keyword (first_byte (drop (length keyword) (c ∷ s))))
    || keyword_from keyword (some c) s

unfoldable pub contains_bounded_keyword : Bytes → Bytes → Bool
contains_bounded_keyword lower_prompt keyword = elim (to_lower (trim_space keyword)) [
  | [] ↦ false
  | c ∷ s ↦ keyword_from (c ∷ s) none lower_prompt
]

unfoldable pub any_keyword : Bytes → List Bytes → Bool
any_keyword lower_prompt [] = false
any_keyword lower_prompt (k ∷ l) =
    contains_bounded_keyword lower_prompt k || any_keyword lower_prompt l

unfoldable pub supports_agent : Bytes → Bytes → Bool
supports_agent rule_agent_type agent_type =
    let rule_agent = trim_space (to_lower rule_agent_type) in
    bytes_eq rule_agent (codes "all") || bytes_eq rule_agent agent_type

-- The order of the candidates: by falling priority, then by identifier.
unfoldable pub comes_before : ContextRule → ContextRule → Bool
comes_before a b =
    if ltb_ℤ b.priority a.priority
    then true
    else if ltb_ℤ a.priority b.priority
    then false
    else bytes_lt a.rule_id b.rule_id

-- sort.SliceStable: a rule goes in front of the first one that does not come
-- before it, so that equal ones keep their order.
unfoldable pub insert_rule : ContextRule → List ContextRule → List ContextRule
insert_rule rule [] = rule ∷ []
insert_rule rule (r ∷ l) = if comes_before r rule then r ∷ insert_rule rule l else rule ∷ r ∷ l

unfoldable pub sort_rules : List ContextRule → List ContextRule
sort_rules [] = []
sort_rules (rule ∷ l) = insert_rule rule (sort_rules l)

-- strings.Join with a blank line
unfoldable pub join_contents : List Bytes → Bytes
join_contents [] = []
join_contents (c ∷ []) = c
join_contents (c ∷ d ∷ l) = c ++ (10 ∷ 10 ∷ join_contents (d ∷ l))

-- The state of the loop of Match.
pub record Matching : Type 0 where
  pub rules : List ContextRule
  pub contents : List Bytes
  pub content_length : ℕ
  pub truncated : Bool

abbrev pub separator_length : List Bytes → ℕ
separator_length [] = 0
separator_length (c ∷ l) = 2

module _ (compile : Bytes → Option (Bytes → Bool)) where
  unfoldable pub matches_prompt : ContextRule → Bytes → Bool
  matches_prompt rule prompt =
      if bytes_eq rule.match_type (codes "always")
      then true
      else if bytes_eq rule.match_type (codes "keyword_any")
      then any_keyword (to_lower prompt) rule.keywords
      else if bytes_eq rule.match_type (codes "regex")
      then elim (compile rule.pattern) [ none ↦ false | some test ↦ test prompt ]
      else false

  unfoldable pub add_rule : ContextRule → Matching → Matching
  add_rule rule m =
      let content = trim_space rule.context_content in
      let new_length = m.content_length + separator_length m.contents + rune_count content in
      if leb max_matched_rules (length m.rules) || ltb max_context_content new_length
      then record m { truncated = true }
      else record {
        rules = m.rules ++ (rule ∷ []);
        contents = m.contents ++ (content ∷ []);
        content_length = new_length;
        truncated = m.truncated;
      }

  unfoldable pub match_loop : Bytes → Bytes → List ContextRule → Matching → Matching
  match_loop prompt agent_type [] m = m
  match_loop prompt agent_type (rule ∷ l) m = match_loop prompt agent_type l (
      if bytes_eq rule.status (codes "active")
        && (supports_agent rule.agent_type agent_type && matches_prompt rule prompt)
      then add_rule rule m
      else m)

  abbrev pub no_match : Matching
  no_match = record { rules = []; contents = []; content_length = 0; truncated = false }

  unfoldable pub match_rules : Bytes → Bytes → List ContextRule → Matching
  match_rules prompt agent_type rules =
      let trimmed = trim_space prompt in
      if length trimmed == 0
      then no_match
      else match_loop trimmed (trim_space (to_lower agent_type)) (sort_rules rules) no_match
