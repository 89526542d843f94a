-- ===== src/Tests/Usages.antt =====
-- The theorems on usage accounting applied to one session, over a concrete choice of Go's library.
use gesta_agent.Prelude.{
  zero, suc, length, ℕ, ◌≡◌, refl, subst, List, [], ◌∷◌, Option, none, some, arith, All, true,
  false,
}
use gesta_agent.Prelude.Int.{pos, ◌-ℤ◌}
use gesta_agent.Bytes.{Bytes, codes, bytes_eq, bytes_eq_iff}
use gesta_agent.Strings.{trim_space, trim_left, is_space}
use gesta_agent.Assoc.{get}
use gesta_agent.Model.{EventEnvelope, number, text}
use gesta_agent.Go.{Go, hash_string, hex_encode}
use gesta_agent.Payload.{
  text_of, first_payload_string, as_int64, payload_int_value, payload_int, first_non_empty_string,
}
use gesta_agent.Usage.Observation.{
  UsageCursor, UsageCursorStore, UsageObservation, Config, is_usage_event,
  usage_observation_from_event, join_zero,
}
use gesta_agent.Usage.Delta.{usage_cursor_key, cursor_key_of, build_usage_delta_events}
use gesta_agent.Usage.Delta.Reported.{IsReport, build_usage_delta_events-IsReport}
use gesta_agent.Usage.Delta.Polls.{reported_by_polls}
use gesta_agent.Usage.Delta.Seen.{
  Sees, SeesAll, ended, absent, observed, poll, polled, total_of, reported_by_polls_lem,
}

-- A time is written as one byte; a digest is the value, cut or padded to the size of one.
abbrev padded : ℕ → Bytes → Bytes
padded zero s = []
padded (suc n) [] = 0 ∷ padded n []
padded (suc n) (c ∷ s) = c ∷ padded n s

length-padded : (n : ℕ) (s : Bytes) → length (padded n s) ≡ n
length-padded zero s = refl
length-padded (suc n) [] = omega (arith, length-padded n [])
length-padded (suc n) (c ∷ s) = omega (arith, length-padded n s)

abbrev head_of : Bytes → Option ℕ
head_of [] = none
head_of (c ∷ s) = some c

instance pub plain : Go
plain = record {
  sha256 = padded 32;
  sha256-length = length-padded 32;
  random = λ n. n ∷ [];
  format_time = λ t. t ∷ [];
  parse_time = head_of;
  format_day = λ t. t ∷ [];
  parse_day = head_of;
  parse_duration = λ s. none;
  parse_time-format_time = λ t. refl;
}

abbrev a_config : Config
a_config = record { daemon_id = codes "d"; device_id = []; team_id = []; usage_window = [] }

-- What the session has used by now.
abbrev a_summary : ℕ → EventEnvelope
a_summary total = record {
  event_id = codes "e1";
  customer_id = [];
  deployment_id = [];
  daemon_id = codes "d";
  device_id = [];
  user_id = [];
  user_name = [];
  team_id = [];
  event_type = codes "usage.summary";
  source = codes "codex";
  agent_type = codes "codex";
  created_at = 0;
  payload =
      (codes "session_id", text (codes " s1 "))
      ∷ (codes "total_tokens", number (pos total))
      ∷ (codes "model", text (codes "m"))
      ∷ [];
}

abbrev an_observation : ℕ → UsageObservation
an_observation total = record {
  session_id = codes "s1";
  output_session_id = codes "s1";
  total = pos total;
  input = pos 0;
  output = pos 0;
  cache_read = pos 0;
  cache_write = pos 0;
  cache_observed = false;
}

abbrev a_cursor : UsageCursor
a_cursor = record {
  total_tokens = pos 10;
  input_tokens = pos 0;
  output_tokens = pos 0;
  cache_read_tokens = pos 0;
  cache_write_tokens = pos 0;
  observed_at = [];
  cache_observed = true;
}

abbrev a_key : Bytes
a_key = cursor_key_of (a_summary 12) (an_observation 12)

abbrev a_store : UsageCursorStore
a_store = (a_key, a_cursor) ∷ []

build_usage_delta_events-IsReport_example :
    All IsReport (build_usage_delta_events a_config 0 a_store 5 (a_summary 12 ∷ [])).0
build_usage_delta_events-IsReport_example =
    build_usage_delta_events-IsReport a_config 0 a_store 5 (a_summary 12 ∷ [])

-- A session of another daemon.
abbrev another_summary : ℕ → EventEnvelope
another_summary total = record (a_summary total) { daemon_id = codes "other" }

abbrev another_key : Bytes
another_key = cursor_key_of (another_summary 7) (an_observation 7)

abbrev two_sessions : UsageCursorStore
two_sessions = (another_key, record a_cursor { total_tokens = pos 5 }) ∷ (a_key, a_cursor) ∷ []

what_is_observed :
    (usage_observation_from_event (a_summary 12) ≡ some (an_observation 12))
    × (usage_observation_from_event (a_summary 30) ≡ some (an_observation 30))
    × (cursor_key_of (a_summary 30) (an_observation 30) ≡ a_key)
    × (get a_key two_sessions ≡ some a_cursor)
    × (usage_observation_from_event (another_summary 7) ≡ some (an_observation 7))
    × (get another_key two_sessions ≡ some (record a_cursor { total_tokens = pos 5 }))
    × (bytes_eq another_key a_key ≡ false)
unfolding usage_observation_from_event is_usage_event first_payload_string payload_int_value
    payload_int text_of as_int64 first_non_empty_string trim_space trim_left is_space bytes_eq get
    cursor_key_of usage_cursor_key hash_string hex_encode join_zero plain
what_is_observed = (refl, refl, refl, refl, refl, refl, refl)

abbrev two_polls : List (ℕ × List EventEnvelope)
two_polls = (5, another_summary 7 ∷ a_summary 12 ∷ []) ∷ (9, a_summary 30 ∷ []) ∷ []

-- The first poll sees both sessions, the second one of them.
both_seen :
    SeesAll
      ((another_key, pos 5) ∷ (a_key, pos 10) ∷ [])
      two_polls
      ((another_key, pos 7) ∷ (a_key, pos 30) ∷ [])
both_seen =
    poll _ ((another_key, pos 7) ∷ (a_key, pos 12) ∷ []) _ 5 _ _
      (observed (pos 5) ((a_key, pos 10) ∷ []) ((a_key, pos 12) ∷ []) (another_summary 7)
        (a_summary 12 ∷ []) (an_observation 7) what_is_observed.4 (refl, omega arith) (omega arith)
        (observed (pos 10) [] [] (a_summary 12) [] (an_observation 12) what_is_observed.0
          (refl, omega arith) (omega arith) ended))
      (poll _ _ _ 9 _ _
        (absent another_key (pos 7) ((a_key, pos 12) ∷ []) ((a_key, pos 30) ∷ [])
          (a_summary 30 ∷ [])
          (subst (λ (k : Bytes). Sees ((k, pos 12) ∷ []) (a_summary 30 ∷ []) ((k, pos 30) ∷ []))
            what_is_observed.2
            (observed (pos 12) [] [] (a_summary 30) [] (an_observation 30) what_is_observed.1
              (refl, omega arith) (omega arith) ended)))
        (polled _))

reported_by_polls_lem_example :
    reported_by_polls a_config 0 two_sessions two_polls
    ≡ total_of ((another_key, pos 7) ∷ (a_key, pos 30) ∷ [])
      -ℤ total_of ((another_key, pos 5) ∷ (a_key, pos 10) ∷ [])
reported_by_polls_lem_example =
    reported_by_polls_lem a_config 0 two_sessions ((another_key, pos 5) ∷ (a_key, pos 10) ∷ [])
      two_polls ((another_key, pos 7) ∷ (a_key, pos 30) ∷ []) both_seen
      (((λ e. ground (arith, what_is_observed.6, bytes_eq_iff another_key a_key, e)), tt), (tt, tt))
      (
        (record a_cursor { total_tokens = pos 5 }, what_is_observed.5, refl, (refl, omega arith)),
        ((a_cursor, what_is_observed.3, refl, (refl, omega arith)), tt),
      )
