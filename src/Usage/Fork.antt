-- ===== src/Usage/Fork.antt =====
-- pkg/daemon/claude_fork_accounting.go: what sessions share that were forked from one another is
-- counted in one of them.
pub mod Owner
pub mod Offset
pub mod Order
pub mod Marks
use gesta_agent.Prelude.{
  ℕ, ◌+◌, ◌%◌, Bool, true, false, not, ◌&&◌, ◌||◌, List, [], ◌∷◌, ◌++◌, Option, none, some,
  if◌then◌else◌, ◌==◌, ltb, length, is_some,
}
use gesta_agent.Prelude.Int.{ℤ, pos, max_ℤ}
use gesta_agent.Int64.{add64, sub64}
use gesta_agent.Bytes.{Bytes, bytes_eq, bytes_lt}
use gesta_agent.Bytes.Endian.{two64}
use gesta_agent.Strings.{trim_space}
use gesta_agent.Assoc.{get, put, del}
use gesta_agent.Sorting.{sort_by}
use gesta_agent.Go.{Go, hash_string, short_hash}
use gesta_agent.Model.{is_zero}
use gesta_agent.Usage.Observation.{join_zero}
use gesta_agent.Usage.Claude.{
  AssistantUsage, InvocationUsage, TurnUsage, ToolCall, ModelDay, Buckets, SessionUsage, no_usage,
  add_usage, is_zero_usage,
}
use gesta_agent.Usage.Merge.{mcp_tool_call_key, one_of_names, day_of}
use gesta_agent.Usage.Fork.Owner.{
  Ranks, Occurrences, Owners, or_nil, or_nought, rank_of, number_ranks, add_member,
  add_claude_accounting_occurrence, precedes, choose_owner, resolve_claude_accounting_owners,
  owner_of, inherited, id_of, unranked, occurrences_in, occurrences_of, invocation_ids, turn_ids,
  call_keys, claude_accounting_occurrences,
}
use gesta_agent.Usage.Fork.Offset.{
  UsageOffset, Offsets, max_usage, merge_claude_usage_offsets, subtract_claude_fork_usage_offset,
  or_no_usage, claude_accounting_bucket_key_from_day, claude_accounting_bucket_key,
  observed_offsets, put_offsets, collect_offsets, next_claude_inherited_offsets, subtract_offsets,
  apply_claude_inherited_offsets,
}

pub record ForkStore : Type 0 where
  pub version : ℕ
  pub initialized_at : Bytes
  pub next_session_rank : ℕ
  pub session_ranks : Ranks
  pub active_sessions : List (Bytes × Bool)
  pub inherited_offsets : List (Bytes × Offsets)

abbrev pub fork_accounting_schema : ℕ
fork_accounting_schema = 2

abbrev pub or_false : Option Bool → Bool
or_false none = false
or_false (some b) = b

unfoldable pub earliest_turn : List TurnUsage → ℕ → ℕ
earliest_turn [] first = first
earliest_turn (turn ∷ turns) first = earliest_turn turns (
    if turn.accounting_inherited || is_zero turn.started_at
    then first
    else if is_zero first || ltb turn.started_at first
    then turn.started_at
    else first)

unfoldable pub first_claude_accounted_turn_at : List TurnUsage → ℕ
first_claude_accounted_turn_at turns = earliest_turn turns 0

unfoldable pub claude_accounting_needs_cutover : ℕ → ℕ → Bool
claude_accounting_needs_cutover version baseline_sessions =
    if version == fork_accounting_schema then false else ltb 0 baseline_sessions

module _ ⦃go : Go⦄ where
  unfoldable pub assign_claude_session_ranks : ForkStore → List SessionUsage → ForkStore
  assign_claude_session_ranks store sessions =
      let (next, ranks) =
        number_ranks (sort_by bytes_lt (unranked store.session_ranks sessions))
          store.next_session_rank store.session_ranks in
      record store { next_session_rank = next; session_ranks = ranks }

  unfoldable pub mark_claude_inherited_turns : List TurnUsage → Bytes → Owners → List TurnUsage
  mark_claude_inherited_turns [] id owners = []
  mark_claude_inherited_turns (turn ∷ turns) id owners =
      record turn { accounting_inherited = inherited owners id (hash_string turn.turn_id) }
      ∷ mark_claude_inherited_turns turns id owners

  unfoldable pub mark_claude_inherited_mcp_calls : List ToolCall → Bytes → Owners → List ToolCall
  mark_claude_inherited_mcp_calls [] id owners = []
  mark_claude_inherited_mcp_calls (call ∷ calls) id owners =
      record call {
        accounting_inherited = inherited owners id (hash_string (mcp_tool_call_key call));
      }
      ∷ mark_claude_inherited_mcp_calls calls id owners

  -- The owners that a round of accounting decides with.
  pub record Decided : Type 0 where
    pub cutover : Bool
    pub initialized_at : ℕ
    pub active : List (Bytes × Bool)
    pub offsets : List (Bytes × Offsets)
    pub turn_owners : Owners
    pub mcp_call_owners : Owners

  unfoldable pub account_session : Decided → SessionUsage → SessionUsage
  account_session d session =
      let id = id_of session in
      let filtered = apply_claude_inherited_offsets session (or_nil (get id d.offsets)) in
      let turns = mark_claude_inherited_turns session.turns id d.turn_owners in
      let first = first_claude_accounted_turn_at turns in
      record filtered {
        turns = turns;
        mcp_tool_calls =
            mark_claude_inherited_mcp_calls session.mcp_tool_calls id d.mcp_call_owners;
        accounting_first_event_at = first;
        accounting_seed_only =
            d.cutover
            || (not (or_false (get id d.active))
                && (not (is_zero d.initialized_at)
                    && (not (is_zero first) && ltb first d.initialized_at)));
      }

  abbrev pub account_sessions : Decided → List SessionUsage → List SessionUsage
  account_sessions d [] = []
  account_sessions d (session ∷ sessions) = account_session d session ∷ account_sessions d sessions

  unfoldable pub activate : List SessionUsage → List (Bytes × Bool) → List (Bytes × Bool)
  activate [] active = active
  activate (session ∷ sessions) active = activate sessions (put (id_of session) true active)

  abbrev parsed_or_zero : Option ℕ → ℕ
  parsed_or_zero none = 0
  parsed_or_zero (some t) = t

  -- The sessions as they are accounted, and the store that the commit saves. The number of sessions
  -- of the baseline decides on a cutover.
  unfoldable pub prepare_claude_fork_accounting :
      ForkStore → ℕ → List SessionUsage → ℕ → List SessionUsage × ForkStore
  prepare_claude_fork_accounting store baseline_sessions sessions observed_at =
      let ranked = assign_claude_session_ranks store sessions in
      let (invocations, (turns, mcp_calls)) = claude_accounting_occurrences sessions in
      let ranks = ranked.session_ranks in
      let offsets =
        next_claude_inherited_offsets store.inherited_offsets sessions
          (resolve_claude_accounting_owners invocations ranks) in
      (
        account_sessions
            (record {
              cutover = claude_accounting_needs_cutover store.version baseline_sessions;
              initialized_at = parsed_or_zero (go.parse_time store.initialized_at);
              active = store.active_sessions;
              offsets = offsets;
              turn_owners = resolve_claude_accounting_owners turns ranks;
              mcp_call_owners = resolve_claude_accounting_owners mcp_calls ranks;
            })
            sessions,
        record ranked {
          version = fork_accounting_schema;
          initialized_at =
              if bytes_eq store.initialized_at []
              then go.format_time observed_at
              else store.initialized_at;
          active_sessions = activate sessions [];
          inherited_offsets = offsets;
        },
      )
