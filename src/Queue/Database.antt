-- ===== src/Queue/Database.antt =====
-- The queue's database: the eight buckets of queue_store.go, and the counters of queue_codec.go.
-- A transaction is a function that returns the database that it leaves, or the error on which
-- bbolt rolls it back.
pub mod Counters
use gesta_agent.Prelude.{
  ℕ, suc, ◌+◌, ◌-◌, ◌%◌, Bool, ◌||◌, List, [], ◌∷◌, Option, none, some, not, ltb, leb, ◌==◌,
  if◌then◌else◌,
}
use gesta_agent.Bytes.{Bytes, codes, bytes_eq}
use gesta_agent.Bytes.Endian.{two64}
use gesta_agent.Bolt.{Bolt, EventJson}
use gesta_agent.Queue.Codec.{
  Result, ok, err, ◌>>=◌, or_fail, put_failed, underflow, two63, encode_uint64, decode_uint64,
}

pub record Db ⦃bolt : Bolt⦄ : Type 0 where
  pub events : bolt.Bucket
  pub times : bolt.Bucket
  pub event_ids : bolt.Bucket
  pub event_seqs : bolt.Bucket
  pub delivered_ids : bolt.Bucket
  pub delivered_times : bolt.Bucket
  pub quarantine : bolt.Bucket
  pub meta : bolt.Bucket

abbrev pub meta_count_key : Bytes
meta_count_key = codes "count"

abbrev pub meta_bytes_key : Bytes
meta_bytes_key = codes "bytes"

abbrev pub meta_next_key : Bytes
meta_next_key = codes "next_sequence"

abbrev pub meta_event_ids_key : Bytes
meta_event_ids_key = codes "event_id_index_version"

-- decodeUint64 of what Get returns; a missing key is read as no bytes.
unfoldable pub decode_value : Option Bytes → ℕ
decode_value none = decode_uint64 []
decode_value (some v) = decode_uint64 v

module _ ⦃bolt : Bolt⦄ where
  open bolt use {Bucket, empty, entries, get, put, delete}

  unfoldable pub empty_db : Db
  empty_db = record {
    events = empty;
    times = empty;
    event_ids = empty;
    event_seqs = empty;
    delivered_ids = empty;
    delivered_times = empty;
    quarantine = empty;
    meta = empty;
  }

  abbrev pub put_in : Bucket → Bytes → Bytes → Result Bucket
  put_in b k v = or_fail (put b k v) put_failed

  unfoldable pub queue_meta : Db → Bytes → ℕ
  queue_meta db key = decode_value (get db.meta key)

  unfoldable pub next_queue_sequence : Db → Result (Bytes × Db)
  next_queue_sequence db = do
    let encoded = encode_uint64 ((queue_meta db meta_next_key + 1) % two64)
    meta ← put_in db.meta meta_next_key encoded
    ok (encoded, record db { meta = meta })

  -- An int64 is kept as its bit pattern: one of 2 ^ 63 or more is below zero.
  unfoldable pub write_counters : ℕ → ℕ → Db → Result Db
  write_counters count bytes db = if leb two63 count || leb two63 bytes then err underflow else do
    meta ← put_in db.meta meta_count_key (encode_uint64 count)
    meta' ← put_in meta meta_bytes_key (encode_uint64 bytes)
    ok (record db { meta = meta' })

  -- Each delta is the bit pattern of an int64 too.
  unfoldable pub increment_queue_meta : ℕ → ℕ → Db → Result Db
  increment_queue_meta count_delta bytes_delta db =
      write_counters ((queue_meta db meta_count_key + count_delta) % two64)
        ((queue_meta db meta_bytes_key + bytes_delta) % two64) db
