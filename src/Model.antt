-- ===== src/Model.antt =====
-- The event that the agent records and sends (pkg/model/types.go).
--
-- A `time.Time` is the number of nanoseconds since the first of January of year 1, the zero time.
use gesta_agent.Prelude.{ℕ, Bool, List, ◌==◌}
use gesta_agent.Prelude.Int.{ℤ}
use gesta_agent.Bytes.{Bytes}

-- A dynamic payload value. A number is the int64 that the agent reads from it; an array or an
-- object is kept as its JSON text.
pub data Value : Type 0 where
  null : Value
  boolean : Bool → Value
  number : ℤ → Value
  text : Bytes → Value
  other : Bytes → Value

-- The texts are valid UTF-8. The payload is a Go map from texts, kept as the list of its entries; the
-- order of the list has no meaning in the source.
pub record EventEnvelope : Type 0 where
  pub event_id : Bytes
  pub customer_id : Bytes
  pub deployment_id : Bytes
  pub daemon_id : Bytes
  pub device_id : Bytes
  pub user_id : Bytes
  pub user_name : Bytes
  pub team_id : Bytes
  pub event_type : Bytes
  pub source : Bytes
  pub agent_type : Bytes
  pub created_at : ℕ
  pub payload : List (Bytes × Value)

-- time.Time.IsZero
abbrev pub is_zero : ℕ → Bool
is_zero t = t == 0
