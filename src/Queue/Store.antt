-- ===== src/Queue/Store.antt =====
-- pkg/eventqueue/queue_store.go and queue_index.go: one event goes in, one comes out, and the
-- indexes that make both idempotent.
use gesta_agent.Prelude.{
  ℕ, ◌+◌, ◌-◌, ◌%◌, Bool, true, false, [], ◌∷◌, Option, none, some, length, leb, if◌then◌else◌,
  is_some,
}
use gesta_agent.Bytes.{Bytes, bytes_eq}
use gesta_agent.Bytes.Endian.{two64}
use gesta_agent.SortedMap.{Entries}
use gesta_agent.Model.{EventEnvelope}
use gesta_agent.Bolt.{Bolt, EventJson}
use gesta_agent.Queue.Codec.{
  Result, ok, ◌>>=◌, or_fail, unencodable, encode_uint64, encode_queued_event, decode_queued_event,
  queue_time_key, delivered_time_key, is_compactable_snapshot, is_empty,
}
use gesta_agent.Queue.Database.{
  Db, put_in, queue_meta, meta_event_ids_key, next_queue_sequence, increment_queue_meta,
}

module _ ⦃bolt : Bolt⦄ ⦃json : EventJson⦄ where
  open bolt use {Bucket, entries, get, delete}

  -- int64(n), for the counter deltas: -n is 2 ^ 64 - n.
  abbrev minus : ℕ → ℕ
  minus n = (two64 - n) % two64

  -- The identifier indexes of a deleted event: the entry by identifier goes only if it names this
  -- sequence.
  unfoldable pub unindex : Bytes → Option Bytes → Db → Db
  unindex sequence none db = db
  unindex sequence (some event_id) db = record db {
    event_ids = elim (get db.event_ids event_id) [
      | none ↦ db.event_ids
      | some indexed ↦
          if bytes_eq indexed sequence then delete db.event_ids event_id else db.event_ids
    ];
    event_seqs = delete db.event_seqs sequence;
  }

  unfoldable pub drop_time : Bool → Bytes → Db → Db
  drop_time false key db = db
  drop_time true key db = record db { times = delete db.times key }

  unfoldable pub delete_stored : Bytes → Bool → Bytes → Db → Result Db
  delete_stored sequence remove_time_index stored db = do
    (event, encoded_bytes) ← decode_queued_event json stored
    let untimed = drop_time remove_time_index (queue_time_key event.created_at sequence) db
    let unindexed = unindex sequence (get db.event_seqs sequence) untimed
    increment_queue_meta (minus 1) (minus (encoded_bytes + 1))
        (record unindexed { events = delete db.events sequence })

  unfoldable pub delete_queued_event : Bytes → Bool → Db → Result Db
  delete_queued_event sequence remove_time_index db = elim (get db.events sequence) [
    | none ↦ ok db
    | some stored ↦ delete_stored sequence remove_time_index stored db
  ]

  unfoldable pub index_event : Bytes → Bytes → Db → Result Db
  index_event [] sequence db = ok db
  index_event (b ∷ bs) sequence db = do
    event_ids ← put_in db.event_ids (b ∷ bs) sequence
    event_seqs ← put_in db.event_seqs sequence (b ∷ bs)
    ok (record db { event_ids = event_ids; event_seqs = event_seqs })

  -- insertQueuedEvent from the encoding on: the event is new.
  unfoldable pub insert_new : EventEnvelope → Db → Result Db
  insert_new event db = do
    encoded ← or_fail (json.marshal event) unencodable
    (sequence, db₁) ← next_queue_sequence db
    events ← put_in db₁.events sequence (encode_queued_event event.created_at encoded)
    times ← put_in db₁.times (queue_time_key event.created_at sequence) []
    db₂ ← index_event event.event_id sequence (record db₁ { events = events; times = times })
    increment_queue_meta 1 ((length encoded + 1) % two64) db₂

  unfoldable pub replace_queued : EventEnvelope → Bytes → Db → Result (Bool × Db)
  replace_queued event queued_sequence db =
      if is_compactable_snapshot event
      then (do
        db₁ ← delete_queued_event queued_sequence true db
        db₂ ← insert_new event db₁
        ok (true, db₂))
      else ok (true, db)

  -- The result says whether a duplicate was removed, or the event was one.
  unfoldable pub insert_queued_event : EventEnvelope → Db → Result (Bool × Db)
  insert_queued_event event db =
      if is_empty event.event_id
      then (do db₁ ← insert_new event db; ok (false, db₁))
      else if is_some (get db.quarantine event.event_id)
      then ok (true, db)
      else if is_some (get db.delivered_ids event.event_id)
      then ok (true, db)
      else elim (get db.event_ids event.event_id) [
        | none ↦ do db₁ ← insert_new event db; ok (false, db₁)
        | some queued_sequence ↦ replace_queued event queued_sequence db
      ]

  unfoldable pub record_delivered_event_id : Bytes → ℕ → Db → Result Db
  record_delivered_event_id event_id delivered_at db = do
    let untimed : Bucket = elim (get db.delivered_ids event_id) [
      | none ↦ db.delivered_times
      | some previous_key ↦ delete db.delivered_times previous_key
    ]
    let time_key = delivered_time_key delivered_at event_id
    delivered_ids ← put_in db.delivered_ids event_id time_key
    delivered_times ← put_in untimed time_key []
    ok (record db { delivered_ids = delivered_ids; delivered_times = delivered_times })

  -- The walk of backfillQueuedEventIDs over the events of a database that has no such index.
  unfoldable pub backfill_events : Entries → Db → Result Db
  backfill_events [] db = ok db
  backfill_events ((sequence, stored) ∷ rest) db = do
    (event, size) ← decode_queued_event json stored
    db₁ ← index_event event.event_id sequence db
    backfill_events rest db₁

  unfoldable pub backfill_queued_event_ids : Db → Result Db
  backfill_queued_event_ids db = if leb 1 (queue_meta db meta_event_ids_key) then ok db else do
    db₁ ← backfill_events (entries db.events) db
    meta ← put_in db₁.meta meta_event_ids_key (encode_uint64 1)
    ok (record db₁ { meta = meta })
