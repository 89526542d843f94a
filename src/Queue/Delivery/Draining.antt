-- ===== src/Queue/Delivery/Draining.antt =====
-- queue.go, Drain: every round, whatever the control plane answers and whatever other processes
-- append meanwhile, leaves a consistent database.
use gesta_agent.Prelude.{
  ℕ, zero, suc, ◌+◌, ◌*◌, ◌≤◌, ◌<◌, ◌≡◌, subst, List, [], ◌∷◌, Option, none, some, arith, length,
  map, take,
}
use gesta_agent.Bytes.{Bytes}
use gesta_agent.Bytes.Endian.{two64}
use gesta_agent.Model.{EventEnvelope}
use gesta_agent.Bolt.{Bolt, EventJson}
use gesta_agent.Queue.Codec.{Result, ok, err}
use gesta_agent.Queue.Database.{Db, meta_next_key, queue_meta}
use gesta_agent.Queue.Database.Counters.{>>=-elim, ok_inj}
use gesta_agent.Queue.Retention.{Queue, prune_expired}
use gesta_agent.Queue.Append.{transaction}
use gesta_agent.Queue.Drain.{
  QueuedBatchEvent, Reply, delivered, failed, rejected, Outcome, Aside, collect_batch,
  drain_watermark, next_drain_batch, watermark_tx, batch_tx, acknowledge, acknowledge_events,
  quarantine_events, quarantine_rejected_events, quarantine_checked, check_rejected, append_others,
  after_reply, drain_round, drain_loop, drain, Drain, after_quarantine, after_acknowledge,
  drain_from, queue_drain_batch_size, quarantine_reason_max_bytes,
}
use gesta_agent.Queue.Consistent.{IsConsistent, Keeps}
use gesta_agent.Queue.Consistent.Opened.{transaction_rule}
use gesta_agent.Queue.Consistent.Pruned.{prune_expired-Pruned}
use gesta_agent.Queue.Consistent.Operations.{acknowledge_events-Keeps, quarantine_events-Keeps}
use gesta_agent.Queue.Delivery.Appending.{append_with_stats-Keeps}

module _ ⦃bolt : Bolt⦄ ⦃json : EventJson⦄ where
  open bolt use {entries}

  transaction-Keeps {ℓ} :
      {A : Type ℓ} (m : Db → Result (A × Db)) (db : Db)
      → IsConsistent db
      → ((d : Db) (r : A × Db) → IsConsistent d → m d ≡ ok r → Keeps 0 d r.1)
      → Keeps 0 db (transaction m db).1
  transaction-Keeps m db c step =
      transaction_rule (λ r d. Keeps 0 db d) m db c
        (λ e d i. (i.consistent, omega (arith, i.next_eq)))
        (λ d r i h.
          let (c', next) = step d r i.consistent h in (c', omega (arith, next, i.next_eq)))

  drain_watermark-Keeps :
      (q : Queue) (db : Db) → IsConsistent db → Keeps 0 db (drain_watermark q db).1
  unfolding drain_watermark watermark_tx
  drain_watermark-Keeps q db c = transaction-Keeps (watermark_tx q) db c λ d r c' h.
      >>=-elim (prune_expired q d) _ h λ x pruned last.
        let (expired, p) = prune_expired-Pruned q d x c' pruned in
        subst (λ (y : Option Bytes × Db). Keeps 0 d y.1) (ok_inj last)
          (p.consistent, omega (arith, p.next_eq))

  next_drain_batch-Keeps :
      (q : Queue) (watermark : Bytes) (db : Db)
      → IsConsistent db
      → Keeps 0 db (next_drain_batch q watermark db).1
  unfolding next_drain_batch batch_tx
  next_drain_batch-Keeps q watermark db c =
      transaction-Keeps (batch_tx q watermark) db c λ d r c' h.
        >>=-elim (prune_expired q d) _ h λ x pruned h₁.
          let (expired, p) = prune_expired-Pruned q d x c' pruned in
          >>=-elim (collect_batch queue_drain_batch_size watermark _) _ h₁ λ batch collected last.
            subst (λ (y : List QueuedBatchEvent × Db). Keeps 0 d y.1) (ok_inj last)
              (p.consistent, omega (arith, p.next_eq))

  acknowledge-Keeps :
      (q : Queue) (batch : List QueuedBatchEvent) (db : Db)
      → IsConsistent db
      → Keeps 0 db (acknowledge q batch db).1
  unfolding acknowledge
  acknowledge-Keeps q batch db c =
      transaction-Keeps (acknowledge_events q.now batch) db c (acknowledge_events-Keeps q.now batch)

  quarantine_checked-Keeps :
      (q : Queue) (batch : List QueuedBatchEvent) (reason : Bytes) (db : Db)
      (r : Result (List Bytes))
      → IsConsistent db
      → Keeps 0 db (quarantine_checked q batch reason db r).1
  unfolding quarantine_checked
  quarantine_checked-Keeps q batch reason db (err e) c = (c, omega arith)
  quarantine_checked-Keeps q batch reason db (ok rejects) c =
      transaction-Keeps
        (quarantine_events q.now (take quarantine_reason_max_bytes reason) rejects batch) db c
        (quarantine_events-Keeps q.now (take quarantine_reason_max_bytes reason) rejects batch)

  quarantine_rejected_events-Keeps :
      (q : Queue) (batch : List QueuedBatchEvent) (ids : List Bytes) (reason : Bytes) (db : Db)
      → IsConsistent db
      → Keeps 0 db (quarantine_rejected_events q batch ids reason db).1
  unfolding quarantine_rejected_events
  quarantine_rejected_events-Keeps q batch ids reason db c =
      quarantine_checked-Keeps q batch reason db (check_rejected batch ids) c

  append_others-Keeps :
      (q : Queue) (events : List EventEnvelope) (n : ℕ) (db : Db)
      → IsConsistent db
      → length events ≤ n
      → queue_meta db meta_next_key + n < two64
      → Keeps n db (append_others q events db)
  append_others-Keeps q [] n db c few room = (c, omega arith)
  append_others-Keeps q (e ∷ events) n db c few room =
      let (c', next) = append_with_stats-Keeps q (e ∷ events) db c (omega arith) in
      (c', omega (arith, next))

  module _ {ℓ} {World : Type ℓ} (send : World → List EventEnvelope → Outcome × World) where
    -- Sending any batch, other processes append at most `k` events.
    abbrev pub Appends : ℕ → Type ℓ
    Appends k = (w : World) (events : List EventEnvelope) → length (send w events).0.appended ≤ k

    -- What a round that follows keeps, where `n` more sequences may be used.
    abbrev DrainKeeps : ℕ → Drain send → Type ℓ
    DrainKeeps n again =
        (q : Queue) (watermark : Bytes) (aside : Aside) (w : World) (db : Db)
        → IsConsistent db
        → queue_meta db meta_next_key + n < two64
        → Keeps n db (again q watermark aside w db).2

    after_quarantine-Keeps :
        (n : ℕ) (again : Drain send)
        → DrainKeeps n again
        → (q : Queue) (watermark : Bytes) (aside : Aside) (reason : Bytes) (w : World) (db : Db)
          (r : Result (List Bytes) × Db)
        → Keeps 0 db r.1
        → queue_meta db meta_next_key + n < two64
        → Keeps n db (after_quarantine send again q watermark aside reason w r).2
    unfolding after_quarantine
    after_quarantine-Keeps n again keeps q watermark aside reason w db (err e, db₁) (c, next) room =
        (c, omega (arith, next))
    after_quarantine-Keeps n again keeps q watermark aside reason w db (ok moved, db₁) (c, next)
          room =
        let (c', next') = keeps q watermark _ w db₁ c (omega (arith, next)) in
        (c', omega (arith, next, next'))

    after_acknowledge-Keeps :
        (n : ℕ) (again : Drain send)
        → DrainKeeps n again
        → (q : Queue) (watermark : Bytes) (aside : Aside) (w : World) (db : Db)
          (r : Result (Unit {0}) × Db)
        → Keeps 0 db r.1
        → queue_meta db meta_next_key + n < two64
        → Keeps n db (after_acknowledge send again q watermark aside w r).2
    unfolding after_acknowledge
    after_acknowledge-Keeps n again keeps q watermark aside w db (err e, db₁) (c, next) room =
        (c, omega (arith, next))
    after_acknowledge-Keeps n again keeps q watermark aside w db (ok u, db₁) (c, next) room =
        let (c', next') = keeps q watermark aside w db₁ c (omega (arith, next)) in
        (c', omega (arith, next, next'))

    after_reply-Keeps :
        (n : ℕ) (again : Drain send)
        → DrainKeeps n again
        → (q : Queue) (watermark : Bytes) (aside : Aside) (batch : List QueuedBatchEvent)
          (reply : Reply) (w : World) (db : Db)
        → IsConsistent db
        → queue_meta db meta_next_key + n < two64
        → Keeps n db (after_reply send again q watermark aside batch reply w db).2
    unfolding after_reply
    after_reply-Keeps n again keeps q watermark aside batch failed w db c room = (c, omega arith)
    after_reply-Keeps n again keeps q watermark aside batch (rejected [] reason) w db c room =
        (c, omega arith)
    after_reply-Keeps n again keeps q watermark aside batch (rejected (id ∷ ids) reason) w db c
          room =
        after_quarantine-Keeps n again keeps q watermark aside reason w db
          (quarantine_rejected_events q batch (id ∷ ids) reason db)
          (quarantine_rejected_events-Keeps q batch (id ∷ ids) reason db c) room
    after_reply-Keeps n again keeps q watermark aside batch delivered w db c room =
        after_acknowledge-Keeps n again keeps q watermark aside w db (acknowledge q batch db)
          (acknowledge-Keeps q batch db c) room

    drain_round-Keeps :
        (k n : ℕ) (again : Drain send)
        → Appends k
        → DrainKeeps n again
        → (q : Queue) (watermark : Bytes) (aside : Aside) (w : World) (db : Db)
          (r : Result (List QueuedBatchEvent) × Db)
        → Keeps 0 db r.1
        → queue_meta db meta_next_key + (k + n) < two64
        → Keeps (k + n) db (drain_round send again q watermark aside w r).2
    unfolding drain_round
    drain_round-Keeps k n again few keeps q watermark aside w db (err e, db₁) (c, next) room =
        (c, omega (arith, next))
    drain_round-Keeps k n again few keeps q watermark aside w db (ok [], db₁) (c, next) room =
        (c, omega (arith, next))
    drain_round-Keeps k n again few keeps q watermark aside w db (ok (first ∷ rest), db₁) (c, next)
          room =
        let events = map (λ queued. queued.event) (first ∷ rest) in
        let outcome = (send w events).0 in
        let q' = record q { now = outcome.clock } in
        let db₂ = append_others q' outcome.appended db₁ in
        let (c₂, next₂) : Keeps k db₁ db₂ =
          append_others-Keeps q' outcome.appended k db₁ c (few w events) (omega (arith, next)) in
        let (c₃, next₃) =
          after_reply-Keeps n again keeps q' watermark aside (first ∷ rest) outcome.reply
            (send w events).1 db₂ c₂ (omega (arith, next, next₂)) in
        (c₃, omega (arith, next, next₂, next₃))

    drain_loop-Keeps : (k fuel : ℕ) → Appends k → DrainKeeps (fuel * k) (drain_loop send fuel)
    unfolding drain_loop
    drain_loop-Keeps k zero few q watermark aside w db c room = (c, omega arith)
    drain_loop-Keeps k (suc fuel) few q watermark aside w db c room =
        let (c', next) =
          drain_round-Keeps k (fuel * k) (drain_loop send fuel) few (drain_loop-Keeps k fuel few) q
            watermark aside w db (next_drain_batch q watermark db)
            (next_drain_batch-Keeps q watermark db c) (omega (arith, room)) in
        (c', omega (arith, next))

    drain_from-Keeps :
        (k : ℕ) (q : Queue) (w : World) (db : Db) (r : Result (Option Bytes) × Db)
        → Appends k
        → Keeps 0 db r.1
        → queue_meta db meta_next_key + suc (length (entries r.1.events)) * k < two64
        → Keeps (suc (length (entries r.1.events)) * k) db (drain_from send q w r).2
    unfolding drain_from
    drain_from-Keeps k q w db (err e, db₁) few (c, next) room = (c, omega (arith, next))
    drain_from-Keeps k q w db (ok none, db₁) few (c, next) room = (c, omega (arith, next))
    drain_from-Keeps k q w db (ok (some watermark), db₁) few (c, next) room =
        let (c', next') =
          drain_loop-Keeps k (suc (length (entries db₁.events))) few q watermark _ w db₁ c
            (omega (arith, next)) in
        (c', omega (arith, next, next'))

    -- Drain leaves a consistent database on every path: whatever the control plane answers to each
    -- batch, whatever the clock shows, and whatever at most `k` events other processes append while
    -- it answers, if the sequences last for `k` events in each round.
    pub drain-IsConsistent :
        (k : ℕ) (q : Queue) (w : World) (db : Db)
        → Appends k
        → IsConsistent db
        → queue_meta db meta_next_key + suc (length (entries (drain_watermark q db).1.events)) * k
          < two64
        → IsConsistent (drain send q w db).2
    unfolding drain
    drain-IsConsistent k q w db few c room =
        (drain_from-Keeps k q w db (drain_watermark q db) few (drain_watermark-Keeps q db c) room).0
