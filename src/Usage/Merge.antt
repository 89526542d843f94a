-- ===== src/Usage/Merge.antt =====
-- pkg/daemon/claude_transcript_merge.go: one session out of the transcripts of its files, and each of
-- its invocations, turns and tool calls once.
pub mod Kept
pub mod Held
pub mod Sessions
pub mod Totals
pub mod Invocations
use gesta_agent.Prelude.{
  ℕ, ◌+◌, ◌/◌, ◌%◌, zero, suc, Bool, true, false, not, ◌&&◌, ◌||◌, List, [], ◌∷◌, ◌++◌, map, Option,
  none, some, if◌then◌else◌, ◌==◌, ltb,
}
use gesta_agent.Prelude.Int.{ℤ, pos, ltb_ℤ, pos_part, neg_part}
use gesta_agent.Int64.{add64}
use gesta_agent.Bytes.{Bytes, codes, bytes_eq, bytes_lt}
use gesta_agent.Strings.{trim_space, itoa}
use gesta_agent.Assoc.{get, put}
use gesta_agent.Sorting.{sort_by}
use gesta_agent.Go.{Go}
use gesta_agent.Model.{is_zero}
use gesta_agent.Usage.Observation.{join_zero}
use gesta_agent.Usage.Claude.{
  AssistantUsage, InvocationUsage, TurnUsage, ToolCall, ModelDay, Buckets, SessionUsage, no_usage,
  total_tokens, add_usage, bucket, put_bucket,
}

-- The list and the indexes of its keys: what is found replaces an entry with its key if it is
-- better, and is appended where no entry has its key.
unfoldable pub add_found {ℓ} : {A : Type ℓ} → (A → Bytes) → (A → A → Bool) → A → List A → List A
add_found key better found [] = found ∷ []
add_found key better found (entry ∷ merged) =
    if bytes_eq (key entry) (key found)
    then (if better found entry then found else entry) ∷ merged
    else entry ∷ add_found key better found merged

unfoldable pub add_all {ℓ} : {A : Type ℓ} → (A → List A → List A) → List A → List A → List A
add_all add [] merged = merged
add_all add (found ∷ l) merged = add_all add l (add found merged)

-- By time, then by identifier.
abbrev pub earlier : ℕ → Bytes → ℕ → Bytes → Bool
earlier t i u j = if t == u then bytes_lt i j else ltb t u

abbrev pub invocation_key : InvocationUsage → Bytes
invocation_key i = trim_space i.invocation_id

unfoldable pub better_invocation : InvocationUsage → InvocationUsage → Bool
better_invocation found entry = ltb_ℤ (total_tokens entry.usage) (total_tokens found.usage)

unfoldable pub add_invocation : InvocationUsage → List InvocationUsage → List InvocationUsage
add_invocation found merged =
    if bytes_eq (invocation_key found) []
    then merged
    else add_found invocation_key better_invocation found merged

unfoldable pub invocation_before : InvocationUsage → InvocationUsage → Bool
invocation_before i j = earlier i.observed_at i.invocation_id j.observed_at j.invocation_id

unfoldable pub merge_claude_invocations :
    List InvocationUsage → List InvocationUsage → List InvocationUsage
merge_claude_invocations existing next =
    sort_by invocation_before (add_all add_invocation next (add_all add_invocation existing []))

abbrev pub turn_key : TurnUsage → Bytes
turn_key t = trim_space t.turn_id

abbrev same_total : ℤ → ℤ → Bool
same_total a b = not (ltb_ℤ a b) && not (ltb_ℤ b a)

unfoldable pub better_turn : TurnUsage → TurnUsage → Bool
better_turn found entry =
    let t = total_tokens found.usage in
    let u = total_tokens entry.usage in
    ltb_ℤ u t || (same_total t u && bytes_eq found.status (codes "completed"))

unfoldable pub add_turn : TurnUsage → List TurnUsage → List TurnUsage
add_turn found merged =
    if bytes_eq (turn_key found) [] then merged else add_found turn_key better_turn found merged

unfoldable pub turn_before : TurnUsage → TurnUsage → Bool
turn_before t u = earlier t.ended_at t.turn_id u.ended_at u.turn_id

unfoldable pub merge_claude_turns : List TurnUsage → List TurnUsage → List TurnUsage
merge_claude_turns existing next =
    sort_by turn_before (add_all add_turn next (add_all add_turn existing []))

-- claudeMCPToolCallKey of claude_transcript_parse.go
unfoldable pub mcp_tool_call_key : ToolCall → Bytes
mcp_tool_call_key call = elim (trim_space call.call_id) [
  | [] ↦ join_zero (codes "metadata" ∷ call.timestamp ∷ call.name ∷ itoa call.block_index ∷ [])
  | c ∷ s ↦ join_zero (codes "id" ∷ (c ∷ s) ∷ [])
]

unfoldable pub better_call : ToolCall → ToolCall → Bool
better_call found entry = bytes_eq entry.timestamp [] && not (bytes_eq found.timestamp [])

unfoldable pub add_call : ToolCall → List ToolCall → List ToolCall
add_call found merged = add_found mcp_tool_call_key better_call found merged

unfoldable pub call_before : ToolCall → ToolCall → Bool
call_before a b =
    if not (bytes_eq a.timestamp b.timestamp)
    then bytes_lt a.timestamp b.timestamp
    else if not (bytes_eq a.call_id b.call_id)
    then bytes_lt a.call_id b.call_id
    else if not (bytes_eq a.name b.name)
    then bytes_lt a.name b.name
    else ltb a.block_index b.block_index

unfoldable pub merge_claude_mcp_tool_calls : List ToolCall → List ToolCall → List ToolCall
merge_claude_mcp_tool_calls existing next =
    sort_by call_before (add_all add_call next (add_all add_call existing []))

unfoldable pub one_of_names : Bytes → List Bytes → Bool
one_of_names name [] = false
one_of_names name (n ∷ l) = bytes_eq n name || one_of_names name l

-- The names that are not seen yet, appended in order.
unfoldable pub add_names : List Bytes → List Bytes → List Bytes
add_names [] models = models
add_names (name ∷ l) models =
    add_names l (if one_of_names name models then models else models ++ (name ∷ []))

-- The first file of a session. The messages are left out.
unfoldable pub first_file : SessionUsage → SessionUsage
first_file file = record {
  session_id = file.session_id;
  cwd = file.cwd;
  git_branch = file.git_branch;
  title = file.title;
  first_event_at = file.first_event_at;
  last_event_at = file.last_event_at;
  assistant_events = file.assistant_events;
  models = sort_by bytes_lt (add_names file.models []);
  by_model_day = [];
  total = no_usage;
  mcp_tool_calls = merge_claude_mcp_tool_calls [] file.mcp_tool_calls;
  turns = merge_claude_turns [] file.turns;
  invocations = merge_claude_invocations [] file.invocations;
  accounting_seed_only = false;
  accounting_first_event_at = 0;
}

abbrev or_else : Bytes → Bytes → Bytes
or_else [] s = s
or_else (c ∷ t) s = c ∷ t

-- A further file of a session.
unfoldable pub join_file : SessionUsage → SessionUsage → SessionUsage
join_file existing file = record existing {
  cwd = or_else existing.cwd file.cwd;
  git_branch = or_else existing.git_branch file.git_branch;
  title = or_else existing.title file.title;
  first_event_at =
      if not (is_zero file.first_event_at)
        && (is_zero existing.first_event_at || ltb file.first_event_at existing.first_event_at)
      then file.first_event_at
      else existing.first_event_at;
  last_event_at =
      if ltb existing.last_event_at file.last_event_at
      then file.last_event_at
      else existing.last_event_at;
  assistant_events = add64 existing.assistant_events file.assistant_events;
  mcp_tool_calls = merge_claude_mcp_tool_calls existing.mcp_tool_calls file.mcp_tool_calls;
  turns = merge_claude_turns existing.turns file.turns;
  invocations = merge_claude_invocations existing.invocations file.invocations;
  models = sort_by bytes_lt (add_names file.models existing.models);
}

unfoldable pub merged_file : Option SessionUsage → SessionUsage → SessionUsage
merged_file none file = first_file file
merged_file (some existing) file = join_file existing file

-- The sessions by identifier, in the order in which they are first seen.
unfoldable pub merge_files :
    List SessionUsage → List (Bytes × SessionUsage) → List (Bytes × SessionUsage)
merge_files [] merged = merged
merge_files (file ∷ files) merged =
    merge_files files (put file.session_id (merged_file (get file.session_id merged) file) merged)

unfoldable pub file_before : SessionUsage → SessionUsage → Bool
file_before a b = earlier a.first_event_at a.session_id b.first_event_at b.session_id

unfoldable pub session_before : SessionUsage → SessionUsage → Bool
session_before a b = bytes_lt a.session_id b.session_id

module _ ⦃go : Go⦄ where
  -- The day of a time, and the empty one for the zero time.
  unfoldable pub day_of : ℕ → Bytes
  day_of t = if is_zero t then [] else go.format_day t

  -- The totals of the invocations, over the buckets so far.
  unfoldable pub rebuild_totals :
      List InvocationUsage → Buckets → AssistantUsage → Buckets × AssistantUsage
  rebuild_totals [] buckets total = (buckets, total)
  rebuild_totals (i ∷ l) buckets total =
      let key : ModelDay = (i.model, day_of i.observed_at) in
      rebuild_totals l (put_bucket key (add_usage (bucket key buckets) i.usage) buckets)
        (add_usage total i.usage)

  unfoldable pub rebuild_claude_invocation_totals : SessionUsage → SessionUsage
  rebuild_claude_invocation_totals session =
      let (buckets, total) = rebuild_totals session.invocations [] no_usage in
      record session { by_model_day = buckets; total = total }

  unfoldable pub finish_session : SessionUsage → SessionUsage
  finish_session session = elim session.invocations [
    | [] ↦ session
    | i ∷ l ↦ rebuild_claude_invocation_totals session
  ]

  abbrev pub finish_all : List (Bytes × SessionUsage) → List SessionUsage
  finish_all [] = []
  finish_all ((id, session) ∷ merged) = finish_session session ∷ finish_all merged

  unfoldable pub merge_claude_sessions_by_id : List SessionUsage → List SessionUsage
  merge_claude_sessions_by_id sessions =
      sort_by session_before (finish_all (merge_files (sort_by file_before sessions) []))
