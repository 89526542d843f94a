-- ===== src/Usage/Observation.antt =====
-- pkg/daemon/usage_delta.go: the token counts that an event of a session carries, and what a cursor
-- keeps of them.
use gesta_agent.Prelude.{
  ℕ, Bool, not, ◌||◌, List, [], ◌∷◌, ◌++◌, Option, none, some, if◌then◌else◌, is_some,
}
use gesta_agent.Prelude.Int.{ℤ, pos, ltb_ℤ, leb_ℤ, max_ℤ}
use gesta_agent.Int64.{sub64}
use gesta_agent.Bytes.{Bytes, codes, bytes_eq}
use gesta_agent.Strings.{trim_space}
use gesta_agent.Model.{EventEnvelope}
use gesta_agent.Payload.{
  Payload, first_payload_string, payload_int_value, payload_int, or_zero, first_non_empty_string,
  copy_payload_string, copy_payload_int_as,
}

pub record UsageCursor : Type 0 where
  pub total_tokens : ℤ
  pub input_tokens : ℤ
  pub output_tokens : ℤ
  pub cache_read_tokens : ℤ
  pub cache_write_tokens : ℤ
  pub observed_at : Bytes
  pub cache_observed : Bool

-- usageCursorStore: the cursors by key.
abbrev pub UsageCursorStore : Type 0
UsageCursorStore = List (Bytes × UsageCursor)

pub record UsageObservation : Type 0 where
  pub session_id : Bytes
  pub output_session_id : Bytes
  pub total : ℤ
  pub input : ℤ
  pub output : ℤ
  pub cache_read : ℤ
  pub cache_write : ℤ
  pub cache_observed : Bool

pub record UsageTokenDelta : Type 0 where
  pub total : ℤ
  pub input : ℤ
  pub output : ℤ
  pub cache_read : ℤ
  pub cache_write : ℤ

-- The fields of Config that are read here.
pub record Config : Type 0 where
  pub daemon_id : Bytes
  pub device_id : Bytes
  pub team_id : Bytes
  pub usage_window : Bytes

abbrev pub second : ℕ
second = 1000000000

unfoldable pub calculate_usage_token_delta : UsageObservation → UsageCursor → Option UsageTokenDelta
calculate_usage_token_delta o previous =
    let total = sub64 o.total previous.total_tokens in
    if ltb_ℤ (pos 0) total
    then some (record {
      total = total;
      input = max_ℤ (sub64 o.input previous.input_tokens) (pos 0);
      output = max_ℤ (sub64 o.output previous.output_tokens) (pos 0);
      cache_read = max_ℤ (sub64 o.cache_read previous.cache_read_tokens) (pos 0);
      cache_write = max_ℤ (sub64 o.cache_write previous.cache_write_tokens) (pos 0);
    })
    else none

unfoldable pub is_usage_event : Bytes → Bool
is_usage_event event_type =
    bytes_eq event_type (codes "usage.summary") || bytes_eq event_type (codes "session.summary")

-- The observation of an event of the right type, with a session and with tokens. A payload that is
-- nil has no session.
unfoldable pub usage_observation_from_event : EventEnvelope → Option UsageObservation
usage_observation_from_event event =
    let p = event.payload in
    let session_id = trim_space (
      first_payload_string p (
        codes "session_id"
        ∷ codes "session_id_hash"
        ∷ codes "thread_id"
        ∷ codes "conversation_id"
        ∷ [])) in
    let total = payload_int p (codes "total_tokens" ∷ codes "tokens_used" ∷ []) in
    let cache_read = payload_int_value p (
      codes "cache_read_tokens"
      ∷ codes "cached_input_tokens"
      ∷ codes "cache_read_input_tokens"
      ∷ []) in
    let cache_write = payload_int_value p (
      codes "cache_creation_tokens"
      ∷ codes "cache_write_tokens"
      ∷ codes "cache_creation_input_tokens"
      ∷ []) in
    if not (is_usage_event event.event_type)
    then none
    else if bytes_eq session_id []
    then none
    else if leb_ℤ total (pos 0)
    then none
    else some (record {
      session_id = session_id;
      output_session_id =
          first_non_empty_string
            (first_payload_string p (codes "index_session_id" ∷ []) ∷ session_id ∷ []);
      total = total;
      input = payload_int p (codes "input_tokens" ∷ codes "prompt_tokens" ∷ []);
      output = payload_int p (codes "output_tokens" ∷ codes "completion_tokens" ∷ []);
      cache_read = or_zero cache_read;
      cache_write = or_zero cache_write;
      cache_observed = is_some cache_read || is_some cache_write;
    })

-- strings.Join with a zero byte
unfoldable pub join_zero : List Bytes → Bytes
join_zero [] = []
join_zero (s ∷ []) = s
join_zero (s ∷ t ∷ l) = s ++ (0 ∷ join_zero (t ∷ l))

abbrev pub blank_or : Bytes → List Bytes
blank_or [] = []
blank_or (c ∷ s) = (c ∷ s) ∷ []

-- Seeds the cache counters of a cursor that never recorded them.
unfoldable pub seed_cache : UsageObservation → UsageCursor → UsageCursor
seed_cache o previous =
    if previous.cache_observed
    then previous
    else record previous { cache_read_tokens = o.cache_read; cache_write_tokens = o.cache_write }

abbrev pub model_keys : List Bytes
model_keys = codes "model" ∷ codes "model_name" ∷ codes "model_id" ∷ []

abbrev pub repo_keys : List Bytes
repo_keys =
    codes "repo"
    ∷ codes "repository"
    ∷ codes "repo_name"
    ∷ codes "repo_path_hash"
    ∷ codes "workspace"
    ∷ codes "workspace_hash"
    ∷ codes "source_hash"
    ∷ []

-- What a delta takes over from the event of the session.
unfoldable pub copy_fields : Payload → Payload → Payload
copy_fields dst src =
    let p₁ = copy_payload_string dst src model_keys in
    let p₂ = copy_payload_string p₁ src repo_keys in
    let p₃ = copy_payload_string p₂ src (codes "model_provider" ∷ []) in
    let p₄ = copy_payload_string p₃ src (codes "token_accounting" ∷ []) in
    copy_payload_int_as p₄ src (codes "raw_total_tokens") (codes "session_raw_total_tokens")
