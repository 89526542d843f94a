-- ===== src/Queue/Codec.antt =====
-- pkg/eventqueue/queue_codec.go: the encodings of numbers, times, keys and records.
pub mod Keys
use gesta_agent.Prelude.{
  ℕ, ◌+◌, ◌-◌, ◌%◌, ◌≤◌, ◌<◌, ◌++◌, Bool, ◌&&◌, List, [], ◌∷◌, Option, none, some, not, length,
  take, drop, ltb, leb, ◌==◌, if◌then◌else◌,
}
use gesta_agent.Bytes.{Bytes, codes, bytes_eq}
use gesta_agent.Bytes.Endian.{big_endian, from_big_endian, two64}
use gesta_agent.Model.{EventEnvelope}
use gesta_agent.Bolt.{EventJson}

pub data Error : Type 0 where
  put_failed unencodable truncated undecodable underflow bad_time_key bad_delivered_key : Error
  out_of_fuel send_failed empty_rejected_id no_rejected_ids rejected_mismatch : Error

pub data Result {ℓ} (A : Type ℓ) : Type ℓ where
  err : Error → Result A
  ok : A → Result A

-- Go's early return on an error.
infixl 5 ◌>>=◌
abbrev pub ◌>>=◌ {ℓ κ} : {A : Type ℓ} {B : Type κ} → Result A → (A → Result B) → Result B
err failure >>= next = err failure
ok result >>= next = next result

abbrev pub or_fail {ℓ} : {A : Type ℓ} → Option A → Error → Result A
or_fail none e = err e
or_fail (some a) e = ok a

-- 2 ^ 63, and the zero of Unix time counted from year 1.
abbrev pub two63 : ℕ
two63 = 9223372036854775808

abbrev pub unix_epoch : ℕ
unix_epoch = 62135596800000000000

-- uint64(t.UnixNano()); the added constant is 4 * 2 ^ 64 - unix_epoch.
unfoldable pub unix_nano : ℕ → ℕ
unix_nano t = (t + 11651379494838206464) % two64

-- time.Unix(0, int64(x)).UTC()
unfoldable pub time_of_unix_nano : ℕ → ℕ
time_of_unix_nano x = if ltb x two63 then unix_epoch + x else unix_epoch + x - two64

-- x ^ (uint64(1) << 63) turns the top bit over.
unfoldable pub flip_sign : ℕ → ℕ
flip_sign x = (x + two63) % two64

-- The instants whose UnixNano is an int64.
abbrev pub IsRepresentable : ℕ → Type 0
IsRepresentable t = (52912224763145224192 ≤ t) × (t < 71358968836854775808)

unfoldable pub encode_uint64 : ℕ → Bytes
encode_uint64 value = big_endian 8 value

unfoldable pub decode_uint64 : Bytes → ℕ
decode_uint64 encoded = if length encoded == 8 then from_big_endian 0 encoded else 0

-- copy(key[8:], sequence) into eight zero bytes
unfoldable pub copy_sequence : Bytes → Bytes
copy_sequence sequence = take 8 (sequence ++ (0 ∷ 0 ∷ 0 ∷ 0 ∷ 0 ∷ 0 ∷ 0 ∷ 0 ∷ []))

unfoldable pub queue_time_key : ℕ → Bytes → Bytes
queue_time_key created_at sequence =
    big_endian 8 (flip_sign (unix_nano created_at)) ++ copy_sequence sequence

unfoldable pub decode_queue_time_key : Bytes → Result (ℕ × Bytes)
decode_queue_time_key key =
    if length key == 16
    then ok (time_of_unix_nano (flip_sign (from_big_endian 0 (take 8 key))), drop 8 key)
    else err bad_time_key

unfoldable pub delivered_time_key : ℕ → Bytes → Bytes
delivered_time_key delivered_at event_id =
    big_endian 8 (flip_sign (unix_nano delivered_at)) ++ event_id

unfoldable pub decode_delivered_time_key : Bytes → Result (ℕ × Bytes)
decode_delivered_time_key key =
    if leb (length key) 8
    then err bad_delivered_key
    else ok (time_of_unix_nano (flip_sign (from_big_endian 0 (take 8 key))), drop 8 key)

unfoldable pub encode_queued_event : ℕ → Bytes → Bytes
encode_queued_event created_at encoded = big_endian 8 (unix_nano created_at) ++ encoded

unfoldable pub decode_queued_event : EventJson → Bytes → Result (EventEnvelope × ℕ)
decode_queued_event json stored = if ltb (length stored) 8 then err truncated else do
  event ← or_fail (json.unmarshal (drop 8 stored)) undecodable
  ok (event, length stored - 8)

-- queue.go: compactableSnapshotEventTypes
abbrev pub compactable_snapshot_event_types : List Bytes
compactable_snapshot_event_types =
    codes "adapter.warning"
    ∷ codes "agent.discovery"
    ∷ codes "claude_code.config_snapshot"
    ∷ codes "claude_code.usage_summary"
    ∷ codes "codex.usage_summary"
    ∷ codes "daemon.system_snapshot"
    ∷ []

unfoldable pub contains : Bytes → List Bytes → Bool
contains k [] = Bool.false
contains k (j ∷ l) = if bytes_eq j k then Bool.true else contains k l

abbrev pub is_empty : Bytes → Bool
is_empty [] = Bool.true
is_empty (b ∷ bs) = Bool.false

unfoldable pub is_compactable_snapshot : EventEnvelope → Bool
is_compactable_snapshot event =
    contains event.event_type compactable_snapshot_event_types && not (is_empty event.event_id)
