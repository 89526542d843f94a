-- ===== src/Queue/Delivery/Halting.antt =====
-- The transactions of Drain (queue.go) never end for want of fuel.
use gesta_agent.Prelude.{
  ℕ, zero, suc, if◌then◌else◌, inl, inr, true, List, [], ◌∷◌, Bool-cases, take,
}
use gesta_agent.Bytes.{Bytes, bytes_lt}
use gesta_agent.SortedMap.{Entries}
use gesta_agent.Bolt.{Bolt, EventJson}
use gesta_agent.Queue.Codec.{
  Result, ok, err, ◌>>=◌, contains, decode_queued_event, is_empty, or_fail,
}
use gesta_agent.Queue.Database.{Db, put_in}
use gesta_agent.Queue.Store.{
  backfill_queued_event_ids, delete_queued_event, record_delivered_event_id,
}
use gesta_agent.Queue.Retention.{Queue, prune_expired}
use gesta_agent.Queue.Append.{open_queue, update, transaction}
use gesta_agent.Queue.Drain.{
  QueuedBatchEvent, rejected_set, collect_batch, watermark_tx, batch_tx, acknowledge_events,
  quarantine_events, check_rejected, queue_drain_batch_size, drain_watermark, next_drain_batch,
  acknowledge, quarantine_rejected_events, quarantine_checked, quarantine_reason_max_bytes,
}
use gesta_agent.Queue.Consistent.{IsConsistent}
use gesta_agent.Queue.Consistent.Opened.{open_queue-Reindexed}
use gesta_agent.Queue.Consistent.Pruned.{prune_expired-Halts}
use gesta_agent.Queue.Consistent.Halting.{
  Fails, NoFuelError, Halts, Fails-ok, Fails-err, bind-Fails, or_fail-Fails, if-Fails,
  decode_queued_event-Halts, put_in-Halts, delete_queued_event-Halts,
  record_delivered_event_id-Halts, backfill_queued_event_ids-Halts,
}

module _ ⦃bolt : Bolt⦄ ⦃json : EventJson⦄ where
  open bolt use {entries}

  pub watermark_tx-Halts : (q : Queue) (db : Db) → IsConsistent db → Halts (watermark_tx q db)
  unfolding watermark_tx
  watermark_tx-Halts q db c =
      bind-Fails NoFuelError (prune_expired q db) _ (prune_expired-Halts q db c)
        λ x. Fails-ok NoFuelError _

  collect_batch-Halts : (n : ℕ) (w : Bytes) (l : Entries) → Halts (collect_batch n w l)
  unfolding collect_batch
  collect_batch-Halts zero w l = Fails-ok NoFuelError _
  collect_batch-Halts (suc n) w [] = Fails-ok NoFuelError _
  collect_batch-Halts (suc n) w ((s, v) ∷ l) =
      if-Fails NoFuelError (bytes_lt w s) _ _ (Fails-ok NoFuelError _) (
        bind-Fails NoFuelError (decode_queued_event json v) _ (decode_queued_event-Halts json v)
          λ r.
            bind-Fails NoFuelError (collect_batch n w l) _ (collect_batch-Halts n w l)
              λ batch. Fails-ok NoFuelError _)

  pub batch_tx-Halts : (q : Queue) (w : Bytes) (db : Db) → IsConsistent db → Halts (batch_tx q w db)
  unfolding batch_tx
  batch_tx-Halts q w db c =
      bind-Fails NoFuelError (prune_expired q db) _ (prune_expired-Halts q db c) λ x.
        bind-Fails NoFuelError (collect_batch queue_drain_batch_size w (entries x.1.events)) _
          (collect_batch-Halts queue_drain_batch_size w (entries x.1.events))
          λ batch. Fails-ok NoFuelError _

  pub acknowledge_events-Halts :
      (now : ℕ) (batch : List QueuedBatchEvent) (db : Db) → Halts (acknowledge_events now batch db)
  unfolding acknowledge_events
  acknowledge_events-Halts now [] db = Fails-ok NoFuelError _
  acknowledge_events-Halts now (queued ∷ rest) db =
      bind-Fails NoFuelError
        (if is_empty queued.event.event_id
          then ok db
          else record_delivered_event_id queued.event.event_id now db)
        _
        (if-Fails NoFuelError _ _ _ (Fails-ok NoFuelError db)
          (record_delivered_event_id-Halts queued.event.event_id now db))
        λ db₁.
          bind-Fails NoFuelError (delete_queued_event queued.sequence true db₁) _
            (delete_queued_event-Halts queued.sequence true db₁)
            λ db₂. acknowledge_events-Halts now rest db₂

  pub quarantine_events-Halts :
      (now : ℕ) (reason : Bytes) (rejects : List Bytes) (batch : List QueuedBatchEvent) (db : Db)
      → Halts (quarantine_events now reason rejects batch db)
  unfolding quarantine_events
  quarantine_events-Halts now reason rejects [] db = Fails-ok NoFuelError _
  quarantine_events-Halts now reason rejects (queued ∷ rest) db =
      elim (Bool-cases (contains queued.event.event_id rejects)) [
        | inr keep ↦
            rw (keep, quarantine_events) (quarantine_events-Halts now reason rejects rest db)
        | inl reject ↦
            rw (reject, quarantine_events)
              (bind-Fails NoFuelError (or_fail (json.marshal_quarantined now reason queued.event) _)
                _ (or_fail-Fails NoFuelError _ _ (λ x. cc))
                λ stored.
                  bind-Fails NoFuelError (put_in db.quarantine queued.event.event_id stored) _
                    (put_in-Halts db.quarantine queued.event.event_id stored)
                    λ q.
                      bind-Fails NoFuelError
                        (delete_queued_event queued.sequence true (record db { quarantine = q })) _
                        (delete_queued_event-Halts queued.sequence true
                          (record db { quarantine = q }))
                        λ db₁.
                          bind-Fails NoFuelError (quarantine_events now reason rejects rest db₁) _
                            (quarantine_events-Halts now reason rejects rest db₁)
                            λ r. Fails-ok NoFuelError _)
      ]

  rejected_set-Halts : (ids seen : List Bytes) → Halts (rejected_set seen ids)
  unfolding rejected_set
  rejected_set-Halts [] seen = Fails-ok NoFuelError _
  rejected_set-Halts (id ∷ ids) seen =
      if-Fails NoFuelError _ _ _ (Fails-err _ NoFuelError _ (λ x. cc)) (rejected_set-Halts ids _)

  pub check_rejected-Halts :
      (batch : List QueuedBatchEvent) (ids : List Bytes) → Halts (check_rejected batch ids)
  unfolding check_rejected
  check_rejected-Halts batch ids =
      bind-Fails NoFuelError (rejected_set [] ids) _ (rejected_set-Halts ids []) λ rejects.
        if-Fails NoFuelError _ _ _ (Fails-err _ NoFuelError _ (λ x. cc)) (
          if-Fails NoFuelError _ _ _ (Fails-ok NoFuelError rejects)
            (Fails-err _ NoFuelError _ (λ x. cc)))

  open_queue-Halts : (db : Db) → Halts (open_queue db).0
  unfolding open_queue
  open_queue-Halts db = go (backfill_queued_event_ids db) (backfill_queued_event_ids-Halts db)
    where
      go :
          (r : Result Db)
          → Halts r
          → Halts (update {0, 0} (λ (d : Db). r >>= λ d'. ok (tt, d')) db).0
      go (err e) h = unfold Fails in h
      go (ok d) h = Fails-ok NoFuelError _

  -- A transaction on a consistent database runs out of fuel only where its body does.
  pub transaction-Halts {ℓ} :
      {A : Type ℓ} (m : Db → Result (A × Db)) (db : Db)
      → IsConsistent db
      → ((d : Db) → IsConsistent d → Halts (m d))
      → Halts (transaction m db).0
  transaction-Halts {A} m db c h =
      go (open_queue db).0 (open_queue db).1 (open_queue-Halts db)
        (open_queue-Reindexed db c).consistent
    where
      finish : (d : Db) (r : Result (A × Db)) → Halts r → Halts (update (λ (x : Db). r) d).0
      finish d (err e) i = unfold Fails in i
      finish d (ok r) i = Fails-ok NoFuelError _

      go :
          (opened : Result (Unit {0})) (d : Db)
          → Halts opened
          → IsConsistent d
          → Halts (elim opened as (λ o. Result A × Db) [ err e ↦ (err e, d) | ok u ↦ update m d ]).0
      go (err e) d i k = unfold Fails in i
      go (ok u) d i k = finish d (m d) (h d k)

  pub drain_watermark-Halts :
      (q : Queue) (db : Db) → IsConsistent db → Halts (drain_watermark q db).0
  unfolding drain_watermark
  drain_watermark-Halts q db c = transaction-Halts (watermark_tx q) db c (watermark_tx-Halts q)

  pub next_drain_batch-Halts :
      (q : Queue) (w : Bytes) (db : Db) → IsConsistent db → Halts (next_drain_batch q w db).0
  unfolding next_drain_batch
  next_drain_batch-Halts q w db c = transaction-Halts (batch_tx q w) db c (batch_tx-Halts q w)

  pub acknowledge-Halts :
      (q : Queue) (batch : List QueuedBatchEvent) (db : Db)
      → IsConsistent db
      → Halts (acknowledge q batch db).0
  unfolding acknowledge
  acknowledge-Halts q batch db c =
      transaction-Halts (acknowledge_events q.now batch) db c
        (λ d k. acknowledge_events-Halts q.now batch d)

  pub quarantine_rejected_events-Halts :
      (q : Queue) (batch : List QueuedBatchEvent) (ids : List Bytes) (reason : Bytes) (db : Db)
      → IsConsistent db
      → Halts (quarantine_rejected_events q batch ids reason db).0
  unfolding quarantine_rejected_events quarantine_checked
  quarantine_rejected_events-Halts q batch ids reason db c =
      go (check_rejected batch ids) (check_rejected-Halts batch ids)
    where
      go : (r : Result (List Bytes)) → Halts r → Halts (quarantine_checked q batch reason db r).0
      go (err e) h = unfold Fails in h
      go (ok rejects) h =
          transaction-Halts
            (quarantine_events q.now (take quarantine_reason_max_bytes reason) rejects batch) db c
            (λ d k.
              quarantine_events-Halts q.now (take quarantine_reason_max_bytes reason) rejects batch
                d)
