-- ===== src/Usage/Fork/Offset.antt =====
-- claude_fork_accounting.go: what a session does not count, because another session does.
pub mod Growing
pub mod Reduced
use gesta_agent.Prelude.{ℕ, List, [], ◌∷◌, ◌++◌, Option, none, some, if◌then◌else◌}
use gesta_agent.Prelude.Int.{pos, max_ℤ}
use gesta_agent.Int64.{sub64}
use gesta_agent.Bytes.{Bytes}
use gesta_agent.Assoc.{get, put, del}
use gesta_agent.Go.{Go, hash_string}
use gesta_agent.Usage.Observation.{join_zero}
use gesta_agent.Usage.Claude.{
  AssistantUsage, InvocationUsage, Buckets, SessionUsage, no_usage, add_usage, is_zero_usage,
}
use gesta_agent.Usage.Merge.{day_of}
use gesta_agent.Usage.Fork.Owner.{Owners, or_nil, inherited, id_of}

-- claudeForkUsageOffset has the four counters of a usage.
abbrev pub UsageOffset : Type 0
UsageOffset = AssistantUsage

-- The offsets of a session, by bucket.
abbrev pub Offsets : Type 0
Offsets = List (Bytes × UsageOffset)

abbrev pub or_no_usage : Option AssistantUsage → AssistantUsage
or_no_usage none = no_usage
or_no_usage (some u) = u

abbrev pub max_usage : AssistantUsage → AssistantUsage → AssistantUsage
max_usage u v = record {
  input_tokens = max_ℤ u.input_tokens v.input_tokens;
  output_tokens = max_ℤ u.output_tokens v.output_tokens;
  cache_creation_tokens = max_ℤ u.cache_creation_tokens v.cache_creation_tokens;
  cache_read_tokens = max_ℤ u.cache_read_tokens v.cache_read_tokens;
}

unfoldable pub merge_claude_usage_offsets : Offsets → Offsets → Offsets
merge_claude_usage_offsets merged [] = merged
merge_claude_usage_offsets merged ((key, candidate) ∷ right) =
    merge_claude_usage_offsets (put key (max_usage (or_no_usage (get key merged)) candidate) merged)
      right

unfoldable pub subtract_claude_fork_usage_offset : AssistantUsage → UsageOffset → AssistantUsage
subtract_claude_fork_usage_offset u offset = record {
  input_tokens = max_ℤ (pos 0) (sub64 u.input_tokens offset.input_tokens);
  output_tokens = max_ℤ (pos 0) (sub64 u.output_tokens offset.output_tokens);
  cache_creation_tokens =
      max_ℤ (pos 0) (sub64 u.cache_creation_tokens offset.cache_creation_tokens);
  cache_read_tokens = max_ℤ (pos 0) (sub64 u.cache_read_tokens offset.cache_read_tokens);
}

module _ ⦃go : Go⦄ where
  unfoldable pub claude_accounting_bucket_key_from_day : Bytes → Bytes → Bytes
  claude_accounting_bucket_key_from_day model day = hash_string (join_zero (model ∷ day ∷ []))

  unfoldable pub claude_accounting_bucket_key : Bytes → ℕ → Bytes
  claude_accounting_bucket_key model t = claude_accounting_bucket_key_from_day model (day_of t)

  -- What the invocations of a session have used that another session counts.
  unfoldable pub observed_offsets : Owners → Bytes → List InvocationUsage → Offsets → Offsets
  observed_offsets owners id [] observed = observed
  observed_offsets owners id (i ∷ l) observed =
      let key = claude_accounting_bucket_key i.model i.observed_at in
      observed_offsets owners id l (
        if inherited owners id (hash_string i.invocation_id)
        then put key (add_usage (or_no_usage (get key observed)) i.usage) observed
        else observed)

  -- An empty map of offsets is deleted again.
  abbrev pub put_offsets : Bytes → Offsets → List (Bytes × Offsets) → List (Bytes × Offsets)
  put_offsets id [] next = del id next
  put_offsets id (o ∷ l) next = put id (o ∷ l) next

  unfoldable pub collect_offsets :
      List (Bytes × Offsets)
      → List SessionUsage
      → Owners
      → List (Bytes × Offsets)
      → List (Bytes × Offsets)
  collect_offsets stored [] owners next = next
  collect_offsets stored (session ∷ sessions) owners next =
      let id = id_of session in
      let merged =
        merge_claude_usage_offsets (or_nil (get id stored))
          (observed_offsets owners id session.invocations []) in
      collect_offsets stored sessions owners (put_offsets id merged next)

  unfoldable pub next_claude_inherited_offsets :
      List (Bytes × Offsets) → List SessionUsage → Owners → List (Bytes × Offsets)
  next_claude_inherited_offsets stored sessions owners = collect_offsets stored sessions owners []

  -- The buckets that keep some usage, and their sum.
  unfoldable pub subtract_offsets :
      Offsets → Buckets → Buckets → AssistantUsage → Buckets × AssistantUsage
  subtract_offsets offsets [] kept total = (kept, total)
  subtract_offsets offsets (((model, day), usage) ∷ buckets) kept total =
      let offset = or_no_usage (get (claude_accounting_bucket_key_from_day model day) offsets) in
      let left = subtract_claude_fork_usage_offset usage offset in
      if is_zero_usage left
      then subtract_offsets offsets buckets kept total
      else subtract_offsets offsets buckets (kept ++ (((model, day), left) ∷ []))
          (add_usage total left)

  unfoldable pub apply_claude_inherited_offsets : SessionUsage → Offsets → SessionUsage
  apply_claude_inherited_offsets session [] = session
  apply_claude_inherited_offsets session (o ∷ l) =
      let (kept, total) = subtract_offsets (o ∷ l) session.by_model_day [] no_usage in
      record session { by_model_day = kept; total = total }
