-- ===== src/Usage/Delta.antt =====
-- pkg/daemon/usage_delta.go: the cumulative token counts of a session become one delta for each poll.
pub mod Reported
pub mod Polls
pub mod Seen
use gesta_agent.Prelude.{
  ℕ, zero, suc, ◌+◌, ◌-◌, ◌*◌, ◌/◌, Bool, true, false, not, ◌&&◌, ◌||◌, List, [], ◌∷◌, ◌++◌, Option,
  none, some, ltb, leb, if◌then◌else◌, is_some,
}
use gesta_agent.Prelude.Int.{ℤ, pos, negsuc, ltb_ℤ, leb_ℤ, max_ℤ}
use gesta_agent.Int64.{sub64}
use gesta_agent.Bytes.{Bytes, codes, bytes_eq}
use gesta_agent.Strings.{trim_space}
use gesta_agent.Assoc.{get, put}
use gesta_agent.Model.{EventEnvelope, Value, boolean, number, text}
use gesta_agent.Go.{Go, new_id, hash_string}
use gesta_agent.Payload.{
  Payload, field, first_payload_string, payload_int_value, payload_int, payload_bool, or_zero,
  first_non_empty_string, copy_payload_string, copy_payload_int_as,
}
use gesta_agent.Usage.Observation.{
  UsageCursor, UsageCursorStore, UsageObservation, UsageTokenDelta, Config, second,
  calculate_usage_token_delta, is_usage_event, usage_observation_from_event, join_zero, blank_or,
  seed_cache, model_keys, repo_keys, copy_fields,
}

module _ ⦃go : Go⦄ where
  unfoldable pub effective_usage_window : Config → ℕ
  effective_usage_window cfg = elim (go.parse_duration cfg.usage_window) [
    | none ↦ 600 * second
    | some window ↦ elim window [
      | pos n ↦ if ltb 0 n then n else 600 * second
      | negsuc n ↦ 600 * second
    ]
  ]

  unfoldable pub parse_usage_cursor_time : Bytes → ℕ → ℕ
  parse_usage_cursor_time value fallback = elim (go.parse_time value) [
    | none ↦ fallback
    | some t ↦ t
  ]

  -- The last second of the day that an adapter pins the usage to.
  unfoldable pub usage_delta_window : Config → Payload → UsageCursor → ℕ → ℕ × ℕ
  usage_delta_window cfg payload previous observed_at =
      let start =
        parse_usage_cursor_time previous.observed_at (observed_at - effective_usage_window cfg) in
      elim (first_payload_string payload (codes "usage_day" ∷ [])) [
        | [] ↦ (start, observed_at)
        | c ∷ s ↦ elim (go.parse_day (c ∷ s)) [
          | none ↦ (start, observed_at)
          | some day ↦
              let day_end = day + 86399 * second in
              let window_end = if ltb observed_at day_end then observed_at else day_end in
              (if ltb window_end start then window_end else start, window_end)
        ]
      ]

  unfoldable pub usage_cursor_key : EventEnvelope → Bytes → Bytes → Bytes
  usage_cursor_key event session_id token_accounting = hash_string (
      join_zero (
        event.daemon_id
        ∷ event.source
        ∷ event.agent_type
        ∷ session_id
        ∷ blank_or (trim_space token_accounting)))

  unfoldable pub previous_usage_cursor_from_payload : Payload → ℕ → Option UsageCursor
  previous_usage_cursor_from_payload p fallback =
      let cache_read =
        payload_int_value p (codes "_gesta_internal_previous_cache_read_tokens" ∷ []) in
      elim (payload_int_value p (codes "_gesta_internal_previous_total_tokens" ∷ [])) [
        | none ↦ none
        | some total ↦ some (record {
          total_tokens = total;
          input_tokens = payload_int p (codes "_gesta_internal_previous_input_tokens" ∷ []);
          output_tokens = payload_int p (codes "_gesta_internal_previous_output_tokens" ∷ []);
          cache_read_tokens = or_zero cache_read;
          cache_write_tokens =
              payload_int p (codes "_gesta_internal_previous_cache_write_tokens" ∷ []);
          observed_at =
              elim (first_payload_string p (codes "_gesta_internal_previous_observed_at" ∷ [])) [
                | [] ↦ go.format_time fallback
                | c ∷ s ↦ c ∷ s
              ];
          cache_observed = is_some cache_read;
        })
      ]

  -- The cursor that an observation leaves.
  unfoldable pub next_cursor : UsageObservation → ℕ → UsageCursor
  next_cursor o observed_at = record {
    total_tokens = o.total;
    input_tokens = o.input;
    output_tokens = o.output;
    cache_read_tokens = o.cache_read;
    cache_write_tokens = o.cache_write;
    observed_at = go.format_time observed_at;
    cache_observed = o.cache_observed;
  }

  -- What an observation with no cursor is diffed against, if it is at all.
  unfoldable pub baseline_cursor : Config → Payload → ℕ → Option UsageCursor
  baseline_cursor cfg p observed_at =
      let window_start = observed_at - effective_usage_window cfg in
      elim (previous_usage_cursor_from_payload p window_start) [
        | some cursor ↦ some cursor
        | none ↦
            if payload_bool p (codes "_gesta_internal_initial_delta")
            then some (record {
              total_tokens = pos 0;
              input_tokens = pos 0;
              output_tokens = pos 0;
              cache_read_tokens = pos 0;
              cache_write_tokens = pos 0;
              observed_at = go.format_time window_start;
              cache_observed = true;
            })
            else none
      ]

  -- The fields that a delta has of its own.
  unfoldable pub delta_fields :
      Config → EventEnvelope → UsageObservation → UsageCursor → UsageTokenDelta → ℕ × ℕ → Payload
  delta_fields cfg event o previous d (window_start, window_end) =
      (codes "accounting", text (codes "delta"))
      ∷ (codes "source_event_id", text event.event_id)
      ∷ (codes "source_session_id", text o.session_id)
      ∷ (codes "session_id", text o.output_session_id)
      ∷ (codes "window_start", text (go.format_time window_start))
      ∷ (codes "window_end", text (go.format_time window_end))
      ∷ (codes "configured_window_sec", number (pos (effective_usage_window cfg / second)))
      ∷ (codes "total_tokens", number d.total)
      ∷ (codes "tokens_used", number d.total)
      ∷ (codes "input_tokens", number d.input)
      ∷ (codes "output_tokens", number d.output)
      ∷ (codes "cache_read_tokens", number d.cache_read)
      ∷ (codes "cache_write_tokens", number d.cache_write)
      ∷ (codes "session_total_tokens", number o.total)
      ∷ (codes "session_input_tokens", number o.input)
      ∷ (codes "session_output_tokens", number o.output)
      ∷ (codes "session_previous_total", number previous.total_tokens)
      ∷ []

  unfoldable pub delta_payload :
      Config
      → EventEnvelope
      → UsageObservation
      → UsageCursor
      → UsageTokenDelta
      → Bool
      → ℕ × ℕ
      → Payload
  delta_payload cfg event o previous d seen window =
      let base = delta_fields cfg event o previous d window in
      copy_fields (if seen then base else put (codes "initial_observation") (boolean true) base)
        event.payload

  -- baseEvent of collect.go, for the n-th identifier, with its time.
  unfoldable pub base_event : Config → ℕ → Bytes → Bytes → Bytes → ℕ → Payload → EventEnvelope
  base_event cfg n event_type source agent_type created_at payload = record {
    event_id = new_id (codes "evt") n;
    customer_id = [];
    deployment_id = [];
    daemon_id = cfg.daemon_id;
    device_id = cfg.device_id;
    user_id = [];
    user_name = [];
    team_id = cfg.team_id;
    event_type = event_type;
    source = source;
    agent_type = agent_type;
    created_at = created_at;
    payload = payload;
  }

  -- The event of a delta, where there is one.
  unfoldable pub delta_event :
      Config → ℕ → EventEnvelope → UsageObservation → UsageCursor → Bool → ℕ → Option EventEnvelope
  delta_event cfg n event o previous seen observed_at =
      elim (calculate_usage_token_delta o previous) [
        | none ↦ none
        | some d ↦
            let window = usage_delta_window cfg event.payload previous observed_at in
            some (
              base_event cfg n (codes "usage.delta") event.source event.agent_type window.1
                (delta_payload cfg event o previous d seen window))
      ]

  -- The cursor to compare with, and whether the store had it.
  unfoldable pub previous_cursor :
      Config → Payload → ℕ → Option UsageCursor → Option (UsageCursor × Bool)
  previous_cursor cfg payload observed_at (some previous) = some (previous, true)
  previous_cursor cfg payload observed_at none = elim (baseline_cursor cfg payload observed_at) [
    | none ↦ none
    | some previous ↦ some (previous, false)
  ]

  unfoldable pub delta_against :
      Config
      → ℕ
      → EventEnvelope
      → UsageObservation
      → ℕ
      → Option (UsageCursor × Bool)
      → Option EventEnvelope
  delta_against cfg n event o observed_at none = none
  delta_against cfg n event o observed_at (some (previous, seen)) =
      delta_event cfg n event o (seed_cache o previous) seen observed_at

  unfoldable pub cursor_key_of : EventEnvelope → UsageObservation → Bytes
  cursor_key_of event o =
      usage_cursor_key event o.session_id
        (first_payload_string event.payload (codes "token_accounting" ∷ []))

  -- The empty event that stands for "no delta" is `none`.
  pub record DeltaResult : Type 0 where
    pub delta : Option EventEnvelope
    pub key : Bytes
    pub cursor : UsageCursor

  unfoldable pub delta_of_observation :
      Config → ℕ → EventEnvelope → UsageCursorStore → ℕ → UsageObservation → DeltaResult
  delta_of_observation cfg n event store observed_at o = record {
    delta =
        delta_against cfg n event o observed_at
          (previous_cursor cfg event.payload observed_at (get (cursor_key_of event o) store));
    key = cursor_key_of event o;
    cursor = next_cursor o observed_at;
  }

  unfoldable pub maybe_delta :
      Config
      → ℕ
      → EventEnvelope
      → UsageCursorStore
      → ℕ
      → Option UsageObservation
      → Option DeltaResult
  maybe_delta cfg n event store observed_at none = none
  maybe_delta cfg n event store observed_at (some o) =
      some (delta_of_observation cfg n event store observed_at o)

  unfoldable pub usage_delta_from_event :
      Config → ℕ → EventEnvelope → UsageCursorStore → ℕ → Option DeltaResult
  usage_delta_from_event cfg n event store observed_at =
      maybe_delta cfg n event store observed_at (usage_observation_from_event event)

  abbrev pub add_delta : Option EventEnvelope → List EventEnvelope → List EventEnvelope
  add_delta none deltas = deltas
  add_delta (some delta) deltas = delta ∷ deltas

  abbrev pub store_cursor : Option DeltaResult → UsageCursorStore → UsageCursorStore
  store_cursor none next = next
  store_cursor (some r) next = put r.key r.cursor next

  abbrev pub delta_of : Option DeltaResult → Option EventEnvelope
  delta_of none = none
  delta_of (some r) = r.delta

  -- The loop of BuildUsageDeltaEvents: the deltas, and the cursors that its commit saves. Each event
  -- is compared with the cursors of before the poll.
  unfoldable pub build_usage_deltas :
      Config
      → ℕ
      → UsageCursorStore
      → ℕ
      → List EventEnvelope
      → UsageCursorStore
      → List EventEnvelope × UsageCursorStore
  build_usage_deltas cfg n store observed_at [] next = ([], next)
  build_usage_deltas cfg n store observed_at (event ∷ events) next =
      let r = usage_delta_from_event cfg n event store observed_at in
      let (deltas, next') =
        build_usage_deltas cfg (n + 1) store observed_at events (store_cursor r next) in
      (add_delta (delta_of r) deltas, next')

  unfoldable pub build_usage_delta_events :
      Config → ℕ → UsageCursorStore → ℕ → List EventEnvelope → List EventEnvelope × UsageCursorStore
  build_usage_delta_events cfg n store observed_at events =
      build_usage_deltas cfg n store observed_at events store
