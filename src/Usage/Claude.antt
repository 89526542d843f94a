-- ===== src/Usage/Claude.antt =====
-- pkg/daemon/claude_usage_types.go: what a transcript of Claude Code says about its tokens.
pub mod Sums
use gesta_agent.Prelude.{ℕ, Bool, ◌&&◌, List, [], ◌∷◌, if◌then◌else◌, ◌==◌}
use gesta_agent.Prelude.Int.{ℤ, pos, pos_part, neg_part}
use gesta_agent.Int64.{add64}
use gesta_agent.Bytes.{Bytes, bytes_eq}

pub record AssistantUsage : Type 0 where
  pub input_tokens : ℤ
  pub output_tokens : ℤ
  pub cache_creation_tokens : ℤ
  pub cache_read_tokens : ℤ

abbrev pub no_usage : AssistantUsage
no_usage = record {
  input_tokens = pos 0;
  output_tokens = pos 0;
  cache_creation_tokens = pos 0;
  cache_read_tokens = pos 0;
}

unfoldable pub total_tokens : AssistantUsage → ℤ
total_tokens u =
    add64 (add64 (add64 u.input_tokens u.output_tokens) u.cache_creation_tokens) u.cache_read_tokens

unfoldable pub add_usage : AssistantUsage → AssistantUsage → AssistantUsage
add_usage u v = record {
  input_tokens = add64 u.input_tokens v.input_tokens;
  output_tokens = add64 u.output_tokens v.output_tokens;
  cache_creation_tokens = add64 u.cache_creation_tokens v.cache_creation_tokens;
  cache_read_tokens = add64 u.cache_read_tokens v.cache_read_tokens;
}

abbrev is_nought : ℤ → Bool
is_nought z = (pos_part z == 0) && (neg_part z == 0)

unfoldable pub is_zero_usage : AssistantUsage → Bool
is_zero_usage u =
    is_nought u.input_tokens
    && (is_nought u.output_tokens
        && (is_nought u.cache_creation_tokens && is_nought u.cache_read_tokens))

pub record InvocationUsage : Type 0 where
  pub invocation_id : Bytes
  pub observed_at : ℕ
  pub model : Bytes
  pub usage : AssistantUsage

-- The evidence of a turn is carried along unread, and left out.
pub record TurnUsage : Type 0 where
  pub turn_id : Bytes
  pub status : Bytes
  pub started_at : ℕ
  pub ended_at : ℕ
  pub model : Bytes
  pub usage : AssistantUsage
  pub accounting_inherited : Bool

pub record ToolCall : Type 0 where
  pub name : Bytes
  pub call_id : Bytes
  pub timestamp : Bytes
  pub mcp_server : Bytes
  pub mcp_tool : Bytes
  pub block_index : ℕ
  pub accounting_inherited : Bool

-- The model and the day of a bucket.
abbrev pub ModelDay : Type 0
ModelDay = Bytes × Bytes

abbrev pub Buckets : Type 0
Buckets = List (ModelDay × AssistantUsage)

pub record SessionUsage : Type 0 where
  pub session_id : Bytes
  pub cwd : Bytes
  pub git_branch : Bytes
  pub title : Bytes
  pub first_event_at : ℕ
  pub last_event_at : ℕ
  pub assistant_events : ℤ
  pub models : List Bytes
  pub by_model_day : Buckets
  pub total : AssistantUsage
  pub mcp_tool_calls : List ToolCall
  pub turns : List TurnUsage
  pub invocations : List InvocationUsage
  pub accounting_seed_only : Bool
  pub accounting_first_event_at : ℕ

unfoldable pub same_bucket : ModelDay → ModelDay → Bool
same_bucket (m, d) (n, e) = bytes_eq m n && bytes_eq d e

-- A missing bucket reads as no usage.
unfoldable pub bucket : ModelDay → Buckets → AssistantUsage
bucket key [] = no_usage
bucket key ((k, u) ∷ l) = if same_bucket k key then u else bucket key l

unfoldable pub put_bucket : ModelDay → AssistantUsage → Buckets → Buckets
put_bucket key u [] = (key, u) ∷ []
put_bucket key u ((k, v) ∷ l) =
    if same_bucket k key then (k, u) ∷ l else (k, v) ∷ put_bucket key u l
