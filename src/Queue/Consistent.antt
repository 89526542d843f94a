-- ===== src/Queue/Consistent.antt =====
-- The invariant of the queue's database: the counters are exact, every record is readable under a
-- fresh sequence, and the three indexes agree with the events.
pub mod Delete
pub mod Insert
pub mod Outcome
pub mod Retained
pub mod Halting
pub mod Total
pub mod Evicted
pub mod Expired
pub mod Pruned
pub mod Opened
pub mod Backfilled
pub mod Operations
pub mod Empty
use gesta_agent.Prelude.{ℕ, suc, ◌+◌, ◌-◌, ◌≤◌, ◌<◌, ◌≡◌, Option, none, some, length}
use gesta_agent.Bytes.{Bytes}
use gesta_agent.Bytes.Endian.{two64}
use gesta_agent.SortedMap.{erase, total}
use gesta_agent.Model.{EventEnvelope}
use gesta_agent.Bolt.{Bolt, EventJson, read_back}
use gesta_agent.Queue.Codec.{Result, ok, err, two63, encode_uint64, decode_queued_event}
use gesta_agent.Queue.Database.{Db, meta_count_key, meta_bytes_key, meta_next_key, queue_meta}
use gesta_agent.Queue.Views.{IsTimed, IsIndexed, without, updated}

-- What an event adds to the counter of bytes: its JSON text and one.
abbrev pub weight : Bytes → ℕ
weight stored = length stored - 8 + 1

abbrev pub event_of : Result (EventEnvelope × ℕ) → Option EventEnvelope
event_of (err e) = none
event_of (ok (event, size)) = some event

module _ ⦃bolt : Bolt⦄ ⦃json : EventJson⦄ where
  open bolt use {entries, get}

  abbrev pub read_event : Option Bytes → Option EventEnvelope
  read_event none = none
  read_event (some stored) = event_of (decode_queued_event json stored)

  -- The event that is queued under a sequence.
  abbrev pub event_at : Db → Bytes → Option EventEnvelope
  event_at db s = read_event (get db.events s)

pub record IsConsistent ⦃bolt : Bolt⦄ ⦃json : EventJson⦄ (db : Db) : Type 0 where
  pub counted : queue_meta db meta_count_key ≡ length (bolt.entries db.events)
  pub weighed : queue_meta db meta_bytes_key ≡ total weight (bolt.entries db.events)
  pub count_fits : length (bolt.entries db.events) < two63
  pub bytes_fit : total weight (bolt.entries db.events) < two63
  pub next_fits : queue_meta db meta_next_key < two64
  pub fresh :
      (s v : Bytes)
      → bolt.get db.events s ≡ some v
      → (n : ℕ) × (n ≤ queue_meta db meta_next_key) × (s ≡ encode_uint64 n)
  pub readable :
      (s v : Bytes)
      → bolt.get db.events s ≡ some v
      → (e : EventEnvelope) × (decode_queued_event json v ≡ ok (e, length v - 8))
  pub is_timed : IsTimed (event_at db) (bolt.get db.times)
  pub is_indexed : IsIndexed (event_at db) (bolt.get db.event_ids) (bolt.get db.event_seqs)

-- What was delivered and what was moved aside is as before.
pub record SameLedgers ⦃bolt : Bolt⦄ (db db' : Db) : Type 0 where
  pub quarantine : db'.quarantine ≡ db.quarantine
  pub delivered_ids : db'.delivered_ids ≡ db.delivered_ids
  pub delivered_times : db'.delivered_times ≡ db.delivered_times

-- The event under `s`, if there is one, is gone, and nothing else.
pub record Removed ⦃bolt : Bolt⦄ ⦃json : EventJson⦄ (s : Bytes) (db db' : Db) : Type 0 where
  pub consistent : IsConsistent db'
  pub next_eq : queue_meta db' meta_next_key ≡ queue_meta db meta_next_key
  pub events_eq : (j : Bytes) → bolt.get db'.events j ≡ without s (bolt.get db.events) j
  pub entries_eq : bolt.entries db'.events ≡ erase s (bolt.entries db.events)
  pub ledgers : SameLedgers db db'

-- The event `e`, as it is read back, is queued under the next sequence, and nothing else has changed.
pub record Added ⦃bolt : Bolt⦄ ⦃json : EventJson⦄ (e : EventEnvelope) (db db' : Db) : Type 0 where
  pub consistent : IsConsistent db'
  pub next_eq : queue_meta db' meta_next_key ≡ queue_meta db meta_next_key + 1
  pub events_eq :
      (j : Bytes)
      → event_at db' j
        ≡ updated
            (encode_uint64 (queue_meta db meta_next_key + 1))
            (read_back json e)
            (event_at db)
            j
  pub ledgers : SameLedgers db db'

module _ ⦃bolt : Bolt⦄ ⦃json : EventJson⦄ where
  -- A step to a consistent database, on which at most `n` sequences were given out.
  abbrev pub Keeps : ℕ → Db → Db → Type 0
  Keeps n db db' =
      IsConsistent db' × (queue_meta db' meta_next_key ≤ queue_meta db meta_next_key + n)
