-- ===== src/Queue/Drain.antt =====
-- pkg/eventqueue/queue.go: Drain, with the batches of queue_store.go and queue_quarantine.go.
--
-- The control plane and the other processes are a parameter: `send` answers a batch, and says what
-- was appended to the queue meanwhile and what the clock then shows.
use gesta_agent.Prelude.{
  ℕ, zero, suc, true, false, ◌&&◌, not, List, [], ◌∷◌, ◌++◌, map, Option, none, some, length, take,
  ◌==◌, if◌then◌else◌,
}
use gesta_agent.Bytes.{Bytes, bytes_lt}
use gesta_agent.Strings.{trim_space}
use gesta_agent.SortedMap.{Entries, last_key}
use gesta_agent.Model.{EventEnvelope}
use gesta_agent.Bolt.{Bolt, EventJson}
use gesta_agent.Queue.Codec.{
  Error, Result, ok, err, ◌>>=◌, or_fail, send_failed, empty_rejected_id, no_rejected_ids,
  rejected_mismatch, unencodable, decode_queued_event, is_empty, contains,
}
use gesta_agent.Queue.Database.{Db, put_in}
use gesta_agent.Queue.Store.{delete_queued_event, record_delivered_event_id}
use gesta_agent.Queue.Retention.{Queue, prune_expired}
use gesta_agent.Queue.Append.{transaction, append_with_stats}

pub record QueuedBatchEvent : Type 0 where
  pub sequence : Bytes
  pub event : EventEnvelope

abbrev pub queue_drain_batch_size : ℕ
queue_drain_batch_size = 500

abbrev pub quarantine_reason_max_bytes : ℕ
quarantine_reason_max_bytes = 1000

-- A permanent rejection carries the identifiers and the error's text.
pub data Reply : Type 0 where
  delivered failed : Reply
  rejected : List Bytes → Bytes → Reply

pub record Outcome : Type 0 where
  pub reply : Reply
  pub appended : List EventEnvelope
  pub clock : ℕ

-- `unfinished` says that the fuel was too little.
pub data DrainResult : Type 0 where
  drained unfinished : DrainResult
  quarantined : List Bytes → Bytes → DrainResult
  stopped : Error → DrainResult

-- The set of the trimmed identifiers, each once.
unfoldable pub rejected_set : List Bytes → List Bytes → Result (List Bytes)
rejected_set seen [] = ok seen
rejected_set seen (id ∷ ids) =
    let event_id = trim_space id in
    let rest = rejected_set (if contains event_id seen then seen else event_id ∷ seen) ids in
    if is_empty event_id then err empty_rejected_id else rest

-- The identifiers of the batch that are in the set, each once.
unfoldable pub batch_ids : List Bytes → List Bytes → List QueuedBatchEvent → List Bytes
batch_ids rejects seen [] = seen
batch_ids rejects seen (queued ∷ rest) =
    let id = queued.event.event_id in
    batch_ids rejects (if contains id rejects && not (contains id seen) then id ∷ seen else seen)
      rest

module _ ⦃bolt : Bolt⦄ ⦃json : EventJson⦄ where
  open bolt use {entries}

  unfoldable pub collect_batch : ℕ → Bytes → Entries → Result (List QueuedBatchEvent)
  collect_batch zero watermark l = ok []
  collect_batch (suc room) watermark [] = ok []
  collect_batch (suc room) watermark ((sequence, stored) ∷ l) =
      let rest = do
        (event, size) ← decode_queued_event json stored
        batch ← collect_batch room watermark l
        ok (record { sequence = sequence; event = event } ∷ batch)
      in if bytes_lt watermark sequence then ok [] else rest

  unfoldable pub watermark_tx : Queue → Db → Result (Option Bytes × Db)
  watermark_tx q db = do
    (removed, db₁) ← prune_expired q db
    ok (last_key (entries db₁.events), db₁)

  unfoldable pub drain_watermark : Queue → Db → Result (Option Bytes) × Db
  drain_watermark q = transaction (watermark_tx q)

  unfoldable pub batch_tx : Queue → Bytes → Db → Result (List QueuedBatchEvent × Db)
  batch_tx q watermark db = do
    (removed, db₁) ← prune_expired q db
    batch ← collect_batch queue_drain_batch_size watermark (entries db₁.events)
    ok (batch, db₁)

  unfoldable pub next_drain_batch : Queue → Bytes → Db → Result (List QueuedBatchEvent) × Db
  next_drain_batch q watermark = transaction (batch_tx q watermark)

  unfoldable pub acknowledge_events : ℕ → List QueuedBatchEvent → Db → Result (Unit {0} × Db)
  acknowledge_events now [] db = ok (tt, db)
  acknowledge_events now (queued ∷ rest) db = do
    db₁ ←
        (if is_empty queued.event.event_id
          then ok db
          else record_delivered_event_id queued.event.event_id now db)
    db₂ ← delete_queued_event queued.sequence true db₁
    acknowledge_events now rest db₂

  unfoldable pub acknowledge : Queue → List QueuedBatchEvent → Db → Result (Unit {0}) × Db
  acknowledge q batch = transaction (acknowledge_events q.now batch)

  unfoldable pub quarantine_events :
      ℕ → Bytes → List Bytes → List QueuedBatchEvent → Db → Result (List Bytes × Db)
  quarantine_events now reason rejects [] db = ok ([], db)
  quarantine_events now reason rejects (queued ∷ rest) db =
      elim (contains queued.event.event_id rejects) [
        | false ↦ quarantine_events now reason rejects rest db
        | true ↦ do
          stored ← or_fail (json.marshal_quarantined now reason queued.event) unencodable
          quarantine ← put_in db.quarantine queued.event.event_id stored
          db₁ ← delete_queued_event queued.sequence true (record db { quarantine = quarantine })
          (moved, db₂) ← quarantine_events now reason rejects rest db₁
          ok (queued.event.event_id ∷ moved, db₂)
      ]

  unfoldable pub check_rejected : List QueuedBatchEvent → List Bytes → Result (List Bytes)
  check_rejected batch rejected_event_ids = do
    rejects ← rejected_set [] rejected_event_ids
    let matched = length (batch_ids rejects [] batch)
    (if length rejects == 0
        then err no_rejected_ids
        else if matched == length rejects
        then ok rejects
        else err rejected_mismatch)

  -- The transaction, where the check of the identifiers passed.
  unfoldable pub quarantine_checked :
      Queue → List QueuedBatchEvent → Bytes → Db → Result (List Bytes) → Result (List Bytes) × Db
  quarantine_checked q batch reason db (err e) = (err e, db)
  quarantine_checked q batch reason db (ok rejects) =
      transaction (quarantine_events q.now (take quarantine_reason_max_bytes reason) rejects batch)
        db

  unfoldable pub quarantine_rejected_events :
      Queue → List QueuedBatchEvent → List Bytes → Bytes → Db → Result (List Bytes) × Db
  quarantine_rejected_events q batch rejected_event_ids reason db =
      quarantine_checked q batch reason db (check_rejected batch rejected_event_ids)

  -- What a drain has moved aside so far, and the first reason.
  pub record Aside : Type 0 where
    pub ids : List Bytes
    pub reason : Bytes

  abbrev pub finish : Aside → DrainResult
  finish aside = elim aside.ids [ [] ↦ drained | id ∷ ids ↦ quarantined (id ∷ ids) aside.reason ]

  abbrev pub first_reason : Bytes → Bytes → Bytes
  first_reason [] reason = reason
  first_reason (c ∷ s) reason = c ∷ s

  -- What other processes append while a batch is being sent.
  abbrev pub append_others : Queue → List EventEnvelope → Db → Db
  append_others q [] db = db
  append_others q (event ∷ events) db = (append_with_stats q (event ∷ events) db).1

  module _ {ℓ} {World : Type ℓ} (send : World → List EventEnvelope → Outcome × World) where
    abbrev pub Drain : Type ℓ
    Drain = Queue → Bytes → Aside → World → Db → DrainResult × World × Db

    -- A round's end, once its transaction is done; `again` is the next round.
    unfoldable pub after_quarantine :
        Drain
        → Queue
        → Bytes
        → Aside
        → Bytes
        → World
        → Result (List Bytes) × Db
        → DrainResult × World × Db
    after_quarantine again q watermark aside reason w (err e, db) = (stopped e, w, db)
    after_quarantine again q watermark aside reason w (ok moved, db) =
        again q watermark
          (record { ids = aside.ids ++ moved; reason = first_reason aside.reason reason }) w db

    unfoldable pub after_acknowledge :
        Drain → Queue → Bytes → Aside → World → Result (Unit {0}) × Db → DrainResult × World × Db
    after_acknowledge again q watermark aside w (err e, db) = (stopped e, w, db)
    after_acknowledge again q watermark aside w (ok u, db) = again q watermark aside w db

    -- The rest of a round, once the reply is there.
    unfoldable pub after_reply :
        Drain
        → Queue
        → Bytes
        → Aside
        → List QueuedBatchEvent
        → Reply
        → World
        → Db
        → DrainResult × World × Db
    after_reply again q watermark aside batch failed w db = (stopped send_failed, w, db)
    after_reply again q watermark aside batch (rejected [] reason) w db =
        (stopped send_failed, w, db)
    after_reply again q watermark aside batch (rejected (id ∷ ids) reason) w db =
        after_quarantine again q watermark aside reason w
          (quarantine_rejected_events q batch (id ∷ ids) reason db)
    after_reply again q watermark aside batch delivered w db =
        after_acknowledge again q watermark aside w (acknowledge q batch db)

    unfoldable pub drain_round :
        Drain
        → Queue
        → Bytes
        → Aside
        → World
        → Result (List QueuedBatchEvent) × Db
        → DrainResult × World × Db
    drain_round again q watermark aside w (err e, db) = (stopped e, w, db)
    drain_round again q watermark aside w (ok [], db) = (finish aside, w, db)
    drain_round again q watermark aside w (ok (first ∷ rest), db) =
        let (outcome, w') = send w (map (λ queued. queued.event) (first ∷ rest)) in
        let q' = record q { now = outcome.clock } in
        after_reply again q' watermark aside (first ∷ rest) outcome.reply w'
          (append_others q' outcome.appended db)

    unfoldable pub drain_loop : ℕ → Drain
    drain_loop zero q watermark aside w db = (unfinished, w, db)
    drain_loop (suc fuel) q watermark aside w db =
        drain_round (drain_loop fuel) q watermark aside w (next_drain_batch q watermark db)

    -- What follows the choice of the watermark: one round more than there are events is enough.
    unfoldable pub drain_from :
        Queue → World → Result (Option Bytes) × Db → DrainResult × World × Db
    drain_from q w (err e, db) = (stopped e, w, db)
    drain_from q w (ok none, db) = (drained, w, db)
    drain_from q w (ok (some watermark), db) =
        drain_loop (suc (length (entries db.events))) q watermark (record { ids = []; reason = [] })
          w db

    -- Queue.Drain under the drain lock.
    unfoldable pub drain : Queue → World → Db → DrainResult × World × Db
    drain q w db = drain_from q w (drain_watermark q db)
