-- ===== src/Tests.antt =====
-- The theorems applied to one small queue, over the store and the coding of Tests/Instances.antt.
mod Instances
mod Verdicts
mod Contexts
mod Usages
mod Sessions
mod Forks
mod Rules
use gesta_agent.Prelude.{
  sym, ap, ◌∙◌, some_inj, ℕ, ◌+◌, ◌*◌, ◌≤◌, ◌<◌, ◌≡◌, refl, suc, Bool, true, false, List, [], ◌∷◌,
  Option, none, some, arith, length, if◌then◌else◌, ◌==◌, ltb, take,
}
use gesta_agent.Bytes.{Bytes, codes, bytes_eq, bytes_lt}
use gesta_agent.Bytes.Endian.{two64, big_endian, from_big_endian}
use gesta_agent.SortedMap.{Entries, lookup, insert, erase, last_key}
use gesta_agent.Model.{EventEnvelope}
use gesta_agent.Queue.Codec.{
  Result, ok, err, encode_uint64, decode_uint64, queue_time_key, decode_queue_time_key,
  delivered_time_key, decode_delivered_time_key, encode_queued_event, decode_queued_event,
  copy_sequence, unix_nano, flip_sign, is_compactable_snapshot, contains, time_of_unix_nano,
}
use gesta_agent.Queue.Codec.Keys.{
  decode_uint64-encode_uint64, length-encode_uint64, queue_time_key_roundtrip,
  bytes_lt-queue_time_key, bytes_lt-encode_uint64, decode_delivered_time_key-delivered_time_key,
}
use gesta_agent.Queue.Database.{
  Db, empty_db, meta_next_key, meta_count_key, meta_bytes_key, meta_event_ids_key, queue_meta,
  decode_value, next_queue_sequence, write_counters, increment_queue_meta,
}
use gesta_agent.Queue.Store.{
  insert_queued_event, insert_new, replace_queued, index_event, delete_queued_event, delete_stored,
  unindex, drop_time, backfill_queued_event_ids, backfill_events, record_delivered_event_id,
}
use gesta_agent.Queue.Retention.{
  Queue, cutoff, effective_max_bytes, prune_expired, prune_delivered_event_ids,
  prune_delivered_loop, prune_loop, exceeds, forget_delivered, evict_over_capacity, evict_loop,
}
use gesta_agent.Queue.Append.{
  QueueStats, append_with_stats, append_tx, append_events, open_queue, queue_stats_from_tx,
}
use gesta_agent.Queue.Drain.{
  unfinished, QueuedBatchEvent, quarantine_events, Outcome, delivered, drained, drain,
  drain_watermark, watermark_tx, drain_from, drain_loop, drain_round, next_drain_batch, batch_tx,
  collect_batch, after_reply, after_acknowledge, acknowledge, acknowledge_events,
}
use gesta_agent.Queue.Consistent.{IsConsistent, Removed}
use gesta_agent.Queue.Consistent.Empty.{queue_meta-empty, empty_db-IsConsistent}
use gesta_agent.Queue.Consistent.Delete.{delete_queued_event-Removed}
use gesta_agent.Queue.Consistent.Total.{delete_queued_event-total}
use gesta_agent.Queue.Consistent.Pruned.{PruneOutcome, prune_expired-PruneOutcome}
use gesta_agent.Queue.Consistent.Evicted.{Evicted, evict_over_capacity-Evicted}
use gesta_agent.Queue.Consistent.Backfilled.{IsUnindexed, OpenOutcome, open_queue-OpenOutcome}
use gesta_agent.Queue.Consistent.Outcome.{Inserted, insert_queued_event-Inserted}
use gesta_agent.Queue.Delivery.Appending.{
  AppendOutcome, append_with_stats-AppendOutcome, append_with_stats-Keeps,
}
use gesta_agent.Queue.Delivery.Finishing.{HasEnded, drain-Ends}
use gesta_agent.Queue.Delivery.Draining.{drain-IsConsistent}
use gesta_agent.Queue.Delivery.Acknowledged.{Acknowledged, acknowledge_events-Acknowledged}
use gesta_agent.Queue.Delivery.Quarantined.{Quarantined, quarantine_events-Quarantined}
use Instances.{map_bolt, fields_json, text, marshal_event, unmarshal_event}

-- 2024, in nanoseconds since year 1.
abbrev a_time : ℕ
a_time = 63839664000000000000

abbrev an_event : EventEnvelope
an_event = record {
  event_id = codes "e1";
  customer_id = [];
  deployment_id = [];
  daemon_id = [];
  device_id = [];
  user_id = [];
  user_name = [];
  team_id = [];
  event_type = codes "turn.completed";
  source = codes "agent";
  agent_type = codes "codex";
  created_at = a_time;
  payload = [];
}

abbrev a_queue : Queue
a_queue = record { now = a_time; max_age = 604800000000000; max_bytes = 104857600 }

append_runs :
    (append_with_stats a_queue (an_event ∷ an_event ∷ []) empty_db).0
    ≡ ok (record {
      queued_events = 1;
      queued_bytes = 39;
      removed_expired = 0;
      removed_duplicate = 1;
      removed_capacity = 0;
      quarantined_events = 0;
      oldest_queued_at = a_time;
    })
unfolding append_with_stats append_tx append_events open_queue queue_stats_from_tx
    insert_queued_event insert_new replace_queued index_event delete_queued_event delete_stored
    unindex drop_time backfill_queued_event_ids backfill_events cutoff effective_max_bytes
    prune_expired prune_delivered_event_ids prune_delivered_loop prune_loop evict_over_capacity
    evict_loop encode_uint64 decode_uint64 queue_time_key decode_queue_time_key encode_queued_event
    decode_queued_event copy_sequence unix_nano flip_sign is_compactable_snapshot contains
    time_of_unix_nano empty_db queue_meta decode_value next_queue_sequence write_counters
    increment_queue_meta lookup insert erase bytes_eq bytes_lt big_endian from_big_endian text
    marshal_event unmarshal_event exceeds forget_delivered
append_runs = refl

-- The control plane takes each batch, and one event arrives meanwhile.
abbrev a_send : Unit {0} → List EventEnvelope → Outcome × Unit {0}
a_send w events = (record { reply = delivered; appended = an_event ∷ []; clock = a_time + 1 }, tt)

-- The queue of one event.
unfoldable one_db : Db
one_db = (append_with_stats a_queue (an_event ∷ []) empty_db).1

room : queue_meta empty_db meta_next_key + 1 < two64
room = omega (arith, queue_meta-empty meta_next_key)

one_db-IsConsistent : IsConsistent one_db
unfolding one_db
one_db-IsConsistent =
    (append_with_stats-Keeps a_queue (an_event ∷ []) empty_db empty_db-IsConsistent room).0

-- Forty days later the event has expired.
abbrev later : Queue
later = record a_queue { now = a_time + 3456000000000000 }

abbrev or_else {ℓ} : {A : Type ℓ} → A → Result A → A
or_else d (err e) = d
or_else d (ok r) = r

abbrev is_ok {ℓ} : {A : Type ℓ} → Result A → Bool
is_ok (err e) = false
is_ok (ok a) = true

ok_or_else {ℓ} : {A : Type ℓ} (d : A) (r : Result A) → is_ok r ≡ true → r ≡ ok (or_else d r)
ok_or_else d (err e) h = ground arith
ok_or_else d (ok r) h = refl

abbrev pruned : ℕ × Db
pruned = or_else (0, empty_db) (prune_expired later one_db)

-- A snapshot under the identifier of the queued event.
abbrev a_snapshot : EventEnvelope
a_snapshot = record an_event { event_type = codes "agent.discovery" }

abbrev inserted : Bool × Db
inserted = or_else (false, empty_db) (insert_queued_event a_snapshot one_db)

abbrev a_batch : List QueuedBatchEvent
a_batch = record { sequence = encode_uint64 1; event = an_event } ∷ []

abbrev acknowledged : Unit {0} × Db
acknowledged = or_else (tt, empty_db) (acknowledge_events a_time a_batch one_db)

abbrev moved_aside : List Bytes × Db
moved_aside =
    or_else ([], empty_db) (quarantine_events a_time (codes "r") (codes "e1" ∷ []) a_batch one_db)

one_db-runs :
    (queue_meta one_db meta_next_key ≡ 1)
    × (length (map_bolt.entries (drain_watermark a_queue one_db).1.events) ≡ 1)
    × (is_ok (prune_expired later one_db) ≡ true)
    × (length (map_bolt.entries pruned.1.events) ≡ 0)
    × (is_ok (insert_queued_event a_snapshot one_db) ≡ true)
    × (queue_meta inserted.1 meta_next_key ≡ 2)
    × (is_ok (acknowledge_events a_time a_batch one_db) ≡ true)
    × (is_ok (quarantine_events a_time (codes "r") (codes "e1" ∷ []) a_batch one_db) ≡ true)
    × ((drain a_send a_queue tt one_db).0 ≡ drained)
unfolding append_with_stats append_tx append_events open_queue queue_stats_from_tx
    insert_queued_event insert_new replace_queued index_event delete_queued_event delete_stored
    unindex drop_time backfill_queued_event_ids backfill_events cutoff effective_max_bytes
    prune_expired prune_delivered_event_ids prune_delivered_loop prune_loop evict_over_capacity
    evict_loop encode_uint64 decode_uint64 queue_time_key decode_queue_time_key encode_queued_event
    decode_queued_event copy_sequence unix_nano flip_sign is_compactable_snapshot contains
    time_of_unix_nano empty_db queue_meta decode_value next_queue_sequence write_counters
    increment_queue_meta lookup insert erase bytes_eq bytes_lt big_endian from_big_endian text
    marshal_event unmarshal_event exceeds forget_delivered watermark_tx drain_watermark one_db drain
    drain_from drain_loop drain_round next_drain_batch batch_tx collect_batch after_reply
    after_acknowledge acknowledge acknowledge_events quarantine_events record_delivered_event_id
    delivered_time_key decode_delivered_time_key last_key
one_db-runs = (refl, refl, refl, refl, refl, refl, refl, refl, refl)

append_with_stats-AppendOutcome_example :
    let (result, after) = append_with_stats a_queue (an_event ∷ []) one_db in
    AppendOutcome a_queue (an_event ∷ []) one_db result after
append_with_stats-AppendOutcome_example =
    append_with_stats-AppendOutcome a_queue (an_event ∷ []) one_db one_db-IsConsistent
      (omega (arith, one_db-runs.0))

drain-IsConsistent_example : IsConsistent (drain a_send a_queue tt one_db).2
drain-IsConsistent_example =
    drain-IsConsistent a_send 1 a_queue tt one_db (λ w events. omega arith) one_db-IsConsistent
      (omega (arith, one_db-runs.0, one_db-runs.1))

drain-Ends_example : HasEnded (drain a_send a_queue tt one_db).0
drain-Ends_example =
    drain-Ends a_send 1 a_queue tt one_db (λ w events. omega arith) one_db-IsConsistent
      (omega (arith, one_db-runs.0, one_db-runs.1))

prune_expired-PruneOutcome_example : PruneOutcome (cutoff later) one_db (prune_expired later one_db)
prune_expired-PruneOutcome_example = prune_expired-PruneOutcome later one_db one_db-IsConsistent

-- A queue of at most 20 bytes.
abbrev narrow : Queue
narrow = record a_queue { max_bytes = 20 }

evict_over_capacity-Evicted_example :
    (n : ℕ) × (db' : Db) × (evict_over_capacity narrow one_db ≡ ok (n, db'))
    × Evicted (effective_max_bytes narrow) n one_db db'
evict_over_capacity-Evicted_example = evict_over_capacity-Evicted narrow one_db one_db-IsConsistent

insert_queued_event-Inserted_example : Inserted a_snapshot one_db inserted
insert_queued_event-Inserted_example =
    insert_queued_event-Inserted a_snapshot one_db inserted one_db-IsConsistent
      (omega (arith, one_db-runs.0))
      (ok_or_else (false, empty_db) (insert_queued_event a_snapshot one_db) one_db-runs.4)

delete_queued_event-total_example :
    (db' : Db) × (delete_queued_event (encode_uint64 1) true one_db ≡ ok db')
delete_queued_event-total_example =
    delete_queued_event-total (encode_uint64 1) true one_db one_db-IsConsistent

delete_queued_event-Removed_example :
    Removed
      (encode_uint64 1)
      one_db
      (delete_queued_event-total (encode_uint64 1) true one_db one_db-IsConsistent).0
delete_queued_event-Removed_example =
    delete_queued_event-Removed (encode_uint64 1) one_db
      (delete_queued_event-total (encode_uint64 1) true one_db one_db-IsConsistent).0
      one_db-IsConsistent
      (delete_queued_event-total (encode_uint64 1) true one_db one_db-IsConsistent).1

-- The queue of one event as an older version left it, with no identifier index.
abbrev old_db : Db
old_db = record one_db {
  event_ids = map_bolt.empty;
  event_seqs = map_bolt.empty;
  meta = map_bolt.delete one_db.meta meta_event_ids_key;
}

old_db-runs :
    (queue_meta old_db meta_count_key ≡ queue_meta one_db meta_count_key)
    × (queue_meta old_db meta_bytes_key ≡ queue_meta one_db meta_bytes_key)
    × (queue_meta old_db meta_next_key ≡ queue_meta one_db meta_next_key)
    × (queue_meta old_db meta_event_ids_key ≡ 0)
    × ((open_queue old_db).0 ≡ ok tt)
    × (map_bolt.get (open_queue old_db).1.event_ids (codes "e1") ≡ some (encode_uint64 1))
unfolding append_with_stats append_tx append_events open_queue queue_stats_from_tx
    insert_queued_event insert_new replace_queued index_event delete_queued_event delete_stored
    unindex drop_time backfill_queued_event_ids backfill_events cutoff effective_max_bytes
    prune_expired prune_delivered_event_ids prune_delivered_loop prune_loop evict_over_capacity
    evict_loop encode_uint64 decode_uint64 queue_time_key decode_queue_time_key encode_queued_event
    decode_queued_event copy_sequence unix_nano flip_sign is_compactable_snapshot contains
    time_of_unix_nano empty_db queue_meta decode_value next_queue_sequence write_counters
    increment_queue_meta lookup insert erase bytes_eq bytes_lt big_endian from_big_endian text
    marshal_event unmarshal_event exceeds forget_delivered watermark_tx drain_watermark one_db drain
    drain_from drain_loop drain_round next_drain_batch batch_tx collect_batch after_reply
    after_acknowledge acknowledge acknowledge_events quarantine_events record_delivered_event_id
    delivered_time_key decode_delivered_time_key last_key
old_db-runs = (refl, refl, refl, refl, refl, refl)

old_db-IsUnindexed : IsUnindexed old_db
unfolding lookup
old_db-IsUnindexed =
    let c = one_db-IsConsistent in
    record {
      counted = old_db-runs.0 ∙ c.counted;
      weighed = old_db-runs.1 ∙ c.weighed;
      count_fits = c.count_fits;
      bytes_fit = c.bytes_fit;
      next_fits = rw old_db-runs.2 c.next_fits;
      fresh = λ s v p.
          let (n, below, eq) = c.fresh s v p in (n, omega (arith, below, old_db-runs.2), eq);
      readable = c.readable;
      is_timed = c.is_timed;
      no_version = old_db-runs.3;
      no_ids = λ i. refl;
      no_seqs = λ s. refl;
      distinct = λ s t e f held held' named same.
          let first = c.is_indexed.by_id s e held named in
          let second = c.is_indexed.by_id t f held' (rw (← same) named) in
          some_inj (sym first ∙ ap (map_bolt.get one_db.event_ids) same ∙ second);
    }

open_queue-OpenOutcome_example :
    let (result, after) = open_queue old_db in OpenOutcome old_db result after
open_queue-OpenOutcome_example = open_queue-OpenOutcome old_db old_db-IsUnindexed

queue_time_key_roundtrip_example :
    decode_queue_time_key (queue_time_key a_time (encode_uint64 7)) ≡ ok (a_time, encode_uint64 7)
queue_time_key_roundtrip_example =
    queue_time_key_roundtrip a_time (encode_uint64 7) (omega arith, omega arith)
      (length-encode_uint64 7)

bytes_lt-queue_time_key_example :
    bytes_lt
      (queue_time_key a_time (encode_uint64 7))
      (queue_time_key (a_time + 1) (encode_uint64 3))
    ≡ (if a_time == a_time + 1
        then bytes_lt (encode_uint64 7) (encode_uint64 3)
        else ltb a_time (a_time + 1))
bytes_lt-queue_time_key_example =
    bytes_lt-queue_time_key a_time (a_time + 1) (encode_uint64 7) (encode_uint64 3)
      (omega arith, omega arith) (omega arith, omega arith) (length-encode_uint64 7)
      (length-encode_uint64 3)

bytes_lt-encode_uint64_example : bytes_lt (encode_uint64 255) (encode_uint64 256) ≡ ltb 255 256
bytes_lt-encode_uint64_example = bytes_lt-encode_uint64 255 256 (omega arith) (omega arith)

decode_uint64-encode_uint64_example : decode_uint64 (encode_uint64 1000) ≡ 1000
decode_uint64-encode_uint64_example = decode_uint64-encode_uint64 1000 (omega arith)

decode_delivered_time_key-delivered_time_key_example :
    decode_delivered_time_key (delivered_time_key a_time (codes "e1")) ≡ ok (a_time, codes "e1")
decode_delivered_time_key-delivered_time_key_example =
    decode_delivered_time_key-delivered_time_key a_time (codes "e1") (omega arith, omega arith)
      (omega arith)

acknowledge_events-Acknowledged_example : Acknowledged a_batch one_db acknowledged.1
acknowledge_events-Acknowledged_example =
    acknowledge_events-Acknowledged a_time a_batch one_db acknowledged one_db-IsConsistent
      (ok_or_else (tt, empty_db) (acknowledge_events a_time a_batch one_db) one_db-runs.6)

quarantine_events-Quarantined_example : Quarantined (codes "e1" ∷ []) a_batch one_db moved_aside
quarantine_events-Quarantined_example =
    quarantine_events-Quarantined a_time (codes "r") (codes "e1" ∷ []) a_batch one_db moved_aside
      one_db-IsConsistent
      (ok_or_else ([], empty_db)
        (quarantine_events a_time (codes "r") (codes "e1" ∷ []) a_batch one_db) one_db-runs.7)
