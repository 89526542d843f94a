-- ===== src/Usage/Fork/Owner.antt =====
-- claude_fork_accounting.go: the ranks of sessions, and which session owns what several of them hold.
pub mod Least
pub mod Holders
pub mod Once
use gesta_agent.Prelude.{
  ℕ, ◌+◌, ◌%◌, Bool, not, ◌&&◌, ◌||◌, List, [], ◌∷◌, ◌++◌, Option, none, some, if◌then◌else◌, ◌==◌,
  ltb, length, is_some,
}
use gesta_agent.Bytes.{Bytes, bytes_eq, bytes_lt}
use gesta_agent.Bytes.Endian.{two64}
use gesta_agent.Strings.{trim_space}
use gesta_agent.Assoc.{get, put}
use gesta_agent.Go.{Go, hash_string, short_hash}
use gesta_agent.Usage.Claude.{InvocationUsage, TurnUsage, ToolCall, SessionUsage}
use gesta_agent.Usage.Merge.{mcp_tool_call_key, one_of_names}

abbrev pub Ranks : Type 0
Ranks = List (Bytes × ℕ)

-- The sessions that hold an identity, in the order in which they are seen.
abbrev pub Occurrences : Type 0
Occurrences = List (Bytes × List Bytes)

abbrev pub Owners : Type 0
Owners = List (Bytes × Bytes)

-- A missing key of a map reads as the zero value.
abbrev pub or_nil {ℓ} : {A : Type ℓ} → Option (List A) → List A
or_nil none = []
or_nil (some l) = l

abbrev pub or_nought : Option ℕ → ℕ
or_nought none = 0
or_nought (some n) = n

unfoldable pub rank_of : Ranks → Bytes → ℕ
rank_of ranks id = or_nought (get id ranks)

unfoldable pub number_ranks : List Bytes → ℕ → Ranks → ℕ × Ranks
number_ranks [] next ranks = (next, ranks)
number_ranks (id ∷ ids) next ranks =
    let rank = (next + 1) % two64 in number_ranks ids rank (put id rank ranks)

unfoldable pub add_member : Bytes → List Bytes → List Bytes
add_member id members = if one_of_names id members then members else members ++ (id ∷ [])

unfoldable pub add_claude_accounting_occurrence : Occurrences → Bytes → Bytes → Occurrences
add_claude_accounting_occurrence occurrences identity id =
    let i = trim_space identity in
    let s = trim_space id in
    if bytes_eq i [] || bytes_eq s []
    then occurrences
    else put i (add_member s (or_nil (get i occurrences))) occurrences

unfoldable pub precedes : Ranks → Bytes → Bytes → Bool
precedes ranks id owner =
    bytes_eq owner []
    || (ltb (rank_of ranks id) (rank_of ranks owner)
        || (rank_of ranks id == rank_of ranks owner && bytes_lt id owner))

unfoldable pub choose_owner : Ranks → Bytes → List Bytes → Bytes
choose_owner ranks owner [] = owner
choose_owner ranks owner (id ∷ l) =
    choose_owner ranks (if precedes ranks id owner then id else owner) l

unfoldable pub resolve_claude_accounting_owners : Occurrences → Ranks → Owners
resolve_claude_accounting_owners [] ranks = []
resolve_claude_accounting_owners ((identity, sessions) ∷ l) ranks =
    let rest = resolve_claude_accounting_owners l ranks in
    if ltb (length sessions) 2 then rest else (identity, choose_owner ranks [] sessions) ∷ rest

abbrev pub owner_of : Bytes → Owners → Bytes
owner_of identity owners = or_nil (get identity owners)

-- Another session counts the identity.
unfoldable pub inherited : Owners → Bytes → Bytes → Bool
inherited owners id identity =
    let owner = owner_of identity owners in not (bytes_eq owner []) && not (bytes_eq owner id)

module _ ⦃go : Go⦄ where
  abbrev pub id_of : SessionUsage → Bytes
  id_of session = short_hash session.session_id

  unfoldable pub unranked : Ranks → List SessionUsage → List Bytes
  unranked ranks [] = []
  unranked ranks (session ∷ sessions) =
      let rest = unranked ranks sessions in
      if is_some (get (id_of session) ranks) then rest else id_of session ∷ rest

  -- The occurrences of the identities of one session.
  unfoldable pub occurrences_in : List Bytes → Bytes → Occurrences → Occurrences
  occurrences_in [] id occurrences = occurrences
  occurrences_in (identity ∷ l) id occurrences =
      occurrences_in l id (add_claude_accounting_occurrence occurrences (hash_string identity) id)

  unfoldable pub occurrences_of :
      (SessionUsage → List Bytes) → List SessionUsage → Occurrences → Occurrences
  occurrences_of identities [] occurrences = occurrences
  occurrences_of identities (session ∷ sessions) occurrences =
      occurrences_of identities sessions
        (occurrences_in (identities session) (id_of session) occurrences)

  abbrev pub invocation_ids : List InvocationUsage → List Bytes
  invocation_ids [] = []
  invocation_ids (i ∷ l) = i.invocation_id ∷ invocation_ids l

  abbrev pub turn_ids : List TurnUsage → List Bytes
  turn_ids [] = []
  turn_ids (t ∷ l) = t.turn_id ∷ turn_ids l

  abbrev pub call_keys : List ToolCall → List Bytes
  call_keys [] = []
  call_keys (c ∷ l) = mcp_tool_call_key c ∷ call_keys l

  -- Of the invocations, the turns and the tool calls.
  unfoldable pub claude_accounting_occurrences :
      List SessionUsage → Occurrences × (Occurrences × Occurrences)
  claude_accounting_occurrences sessions = (
    occurrences_of (λ s. invocation_ids s.invocations) sessions [],
    (
      occurrences_of (λ s. turn_ids s.turns) sessions [],
      occurrences_of (λ s. call_keys s.mcp_tool_calls) sessions [],
    ),
  )
