-- ===== src/Go.antt =====
-- What the agent takes from Go's library beyond texts and numbers: SHA-256, random identifiers, and
-- the textual forms of times and durations. They are parameters.
pub mod Digests
use gesta_agent.Prelude.{
  ℕ, ◌/◌, ◌%◌, ◌++◌, ◌≡◌, [], ◌∷◌, Option, some, ltb, take, length, if◌then◌else◌, ◌+◌,
}
use gesta_agent.Prelude.Int.{ℤ}
use gesta_agent.Bytes.{Bytes}

-- A time is the number of nanoseconds since year 1, as in Model.antt.
pub record Go : Type 0 where
  pub sha256 : Bytes → Bytes
  -- "Sum256 returns the SHA256 checksum of the data", of Size = 32 bytes
  pub sha256-length : (s : Bytes) → length (sha256 s) ≡ 32
  -- What crypto/rand fills the n-th identifier with.
  pub random : ℕ → Bytes
  -- The layout RFC3339Nano, in UTC.
  pub format_time : ℕ → Bytes
  pub parse_time : Bytes → Option ℕ
  -- The layout of a date, and the midnight at which the day begins.
  pub format_day : ℕ → Bytes
  pub parse_day : Bytes → Option ℕ
  pub parse_duration : Bytes → Option ℤ
  -- "a time formatted by this layout is parsed to the same instant"
  pub parse_time-format_time : (t : ℕ) → parse_time (format_time t) ≡ some t

-- encoding/hex
abbrev pub digit : ℕ → ℕ
digit n = if ltb n 10 then 48 + n else 87 + n

unfoldable pub hex_encode : Bytes → Bytes
hex_encode [] = []
hex_encode (c ∷ s) = digit (c / 16) ∷ digit (c % 16) ∷ hex_encode s

-- pkg/util/id.go
module _ ⦃go : Go⦄ where
  unfoldable pub new_id : Bytes → ℕ → Bytes
  new_id prefix n = prefix ++ (95 ∷ hex_encode (go.random n))

  unfoldable pub hash_string : Bytes → Bytes
  hash_string value = hex_encode (go.sha256 value)

  unfoldable pub short_hash : Bytes → Bytes
  short_hash value = let h = hash_string value in if ltb 16 (length h) then take 16 h else h
