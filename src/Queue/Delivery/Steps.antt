-- ===== src/Queue/Delivery/Steps.antt =====
-- The steps of a drain (queue.go, queue_store.go, queue_quarantine.go): each goes on from a watermark,
-- and the acknowledgement or the quarantine of a batch takes an event away.
use gesta_agent.Prelude.{
  ℕ, ◌+◌, ◌≤◌, ◌<◌, ◌≡◌, sym, subst, ◌∙◌, inl, inr, ◌||◌, List, [], ◌∷◌, arith, length, ltb,
  Bool-cases,
}
use gesta_agent.Bytes.{Bytes}
use gesta_agent.Bytes.Endian.{two64}
use gesta_agent.Model.{EventEnvelope, is_zero}
use gesta_agent.Bolt.{Bolt, EventJson}
use gesta_agent.Queue.Codec.{Result, ok}
use gesta_agent.Queue.Database.{Db, meta_next_key, queue_meta}
use gesta_agent.Queue.Database.Counters.{>>=-elim, ok_inj}
use gesta_agent.Queue.Store.{insert_queued_event, backfill_queued_event_ids}
use gesta_agent.Queue.Retention.{
  Queue, prune_expired, evict_over_capacity, effective_max_bytes, cutoff,
}
use gesta_agent.Queue.Append.{
  QueueStats, Counts, append_events, append_tx, append_with_stats, transaction,
}
use gesta_agent.Queue.Drain.{QueuedBatchEvent, append_others}
use gesta_agent.Queue.Consistent.{IsConsistent}
use gesta_agent.Queue.Consistent.Outcome.{insert_queued_event-Inserted}
use gesta_agent.Queue.Consistent.Pruned.{prune_expired-Pruned}
use gesta_agent.Queue.Consistent.Evicted.{evict_over_capacity-Evicted}
use gesta_agent.Queue.Consistent.Opened.{transaction_rule, backfill_queued_event_ids-Reindexed}
use gesta_agent.Queue.Delivery.Onward.{
  Onward, Onward-widen, Onward-refl, Onward-trans, Pruned-Onward, Reindexed-Onward, Inserted-Onward,
  Evicted-Onward,
}
use gesta_agent.Queue.Delivery.Acknowledged.{Acknowledged, sends_sequence}
use gesta_agent.Queue.Delivery.Quarantined.{Quarantined, rejects_sequence}

module _ ⦃bolt : Bolt⦄ ⦃json : EventJson⦄ where
  open bolt use {entries, get}

  append_events-Onward :
      (n limit : ℕ) (events : List EventEnvelope) (k : Counts) (db : Db) (r : Counts × Db)
      → IsConsistent db
      → n ≤ queue_meta db meta_next_key
      → queue_meta db meta_next_key + length events < two64
      → append_events limit k events db ≡ ok r
      → Onward n (length events) db r.1
  unfolding append_events
  append_events-Onward n limit [] k db r c old room h =
      subst (λ (x : Counts × Db). Onward n 0 db x.1) (ok_inj h) (Onward-refl n 0 db c)
  append_events-Onward n limit (e ∷ events) k db r c old room h =
      elim (Bool-cases (is_zero e.created_at || ltb e.created_at limit)) [
        | inl late ↦ Onward-widen n (length events) (length (e ∷ events)) db r.1 (omega arith) (
            append_events-Onward n limit events _ db r c old (omega arith)
              (rw (late, append_events) at h))
        | inr fresh ↦
            >>=-elim (insert_queued_event e db) _ (rw (fresh, append_events) at h) λ x inserted h₁.
              let first =
                Inserted-Onward n e db x c old (omega arith)
                  (insert_queued_event-Inserted e db x c (omega arith) inserted) in
              let rest =
                append_events-Onward n limit events _ x.1 r first.consistent
                  (omega (arith, first.next_ge)) (omega (arith, first.next_le)) h₁ in
              Onward-trans n 1 (length events) (length (e ∷ events)) db x.1 r.1 (omega arith) first
                rest
      ]

  append_tx-Onward :
      (n : ℕ) (q : Queue) (events : List EventEnvelope) (db : Db) (r : QueueStats × Db)
      → IsConsistent db
      → n ≤ queue_meta db meta_next_key
      → queue_meta db meta_next_key + length events < two64
      → append_tx q events db ≡ ok r
      → Onward n (length events) db r.1
  unfolding append_tx
  append_tx-Onward n q events db r c old room h =
      >>=-elim (backfill_queued_event_ids db) _ h λ db₀ filled h₀.
        let b = Reindexed-Onward n db db₀ (backfill_queued_event_ids-Reindexed db db₀ c filled) in
        >>=-elim (prune_expired q db₀) _ h₀ λ x pruned h₁.
          let p =
            Pruned-Onward n (cutoff q) db₀ x.1
              (prune_expired-Pruned q db₀ x b.consistent pruned).1 in
          >>=-elim (append_events (cutoff q) _ events x.1) _ h₁ λ y appended h₂.
            let a =
              append_events-Onward n (cutoff q) events _ x.1 y p.consistent
                (omega (arith, b.next_ge, p.next_ge)) (omega (arith, b.next_le, p.next_le))
                appended in
            >>=-elim (evict_over_capacity q y.1) _ h₂ λ z evicted last.
              let (m, db₃, runs, e) = evict_over_capacity-Evicted q y.1 a.consistent in
              let same : (m, db₃) ≡ z = ok_inj (sym runs ∙ evicted) in
              let e' =
                subst (λ (w : ℕ × Db). Onward n 0 y.1 w.1) same
                  (Evicted-Onward n (effective_max_bytes q) m y.1 db₃ a.consistent e) in
              subst (λ (w : QueueStats × Db). Onward n (length events) db w.1) (ok_inj last)
                (record {
                  consistent = e'.consistent;
                  next_ge = omega (arith, b.next_ge, p.next_ge, a.next_ge, e'.next_ge);
                  next_le = omega (arith, b.next_le, p.next_le, a.next_le, e'.next_le);
                  shrinks = λ j low absent.
                      e'.shrinks j low (a.shrinks j low (p.shrinks j low (b.shrinks j low absent)));
                })

  -- A transaction goes on if its body does.
  pub transaction-Onward {ℓ} :
      {A : Type ℓ} (n k : ℕ) (m : Db → Result (A × Db)) (db : Db)
      → IsConsistent db
      → ((d : Db) (r : A × Db)
          → IsConsistent d
          → queue_meta d meta_next_key ≡ queue_meta db meta_next_key
          → m d ≡ ok r
          → Onward n k d r.1)
      → Onward n k db (transaction m db).1
  transaction-Onward n k m db c step =
      transaction_rule (λ r d. Onward n k db d) m db c
        (λ e d i. Onward-widen n 0 k db d (omega arith) (Reindexed-Onward n db d i))
        (λ d r i h.
          Onward-trans n 0 k k db d r.1 (omega arith) (Reindexed-Onward n db d i)
            (step d r i.consistent i.next_eq h))

  append_with_stats-Onward :
      (n : ℕ) (q : Queue) (events : List EventEnvelope) (db : Db)
      → IsConsistent db
      → n ≤ queue_meta db meta_next_key
      → queue_meta db meta_next_key + length events < two64
      → Onward n (length events) db (append_with_stats q events db).1
  unfolding append_with_stats
  append_with_stats-Onward n q events db c old room =
      transaction-Onward n (length events) (append_tx q events) db c λ d r c' next h.
        append_tx-Onward n q events d r c' (omega (arith, next)) (omega (arith, next)) h

  pub append_others-Onward :
      (n : ℕ) (q : Queue) (events : List EventEnvelope) (k : ℕ) (db : Db)
      → IsConsistent db
      → n ≤ queue_meta db meta_next_key
      → length events ≤ k
      → queue_meta db meta_next_key + k < two64
      → Onward n k db (append_others q events db)
  append_others-Onward n q [] k db c old few room = Onward-refl n k db c
  append_others-Onward n q (e ∷ events) k db c old few room =
      Onward-widen n (length (e ∷ events)) k db (append_with_stats q (e ∷ events) db).1 few
        (append_with_stats-Onward n q (e ∷ events) db c old (omega arith))

  pub Acknowledged-Onward :
      (n : ℕ) (batch : List QueuedBatchEvent) (db db' : Db)
      → Acknowledged batch db db'
      → Onward n 0 db db'
  Acknowledged-Onward n batch db db' a = record {
    consistent = a.consistent;
    next_ge = omega (arith, a.next_eq);
    next_le = omega (arith, a.next_eq);
    shrinks = λ j low absent. elim (Bool-cases (sends_sequence j batch)) [
      | inl sent ↦ rw (a.events_eq j, sent)
      | inr kept ↦ rw (a.events_eq j, kept) absent
    ];
  }

  pub Quarantined-Onward :
      (n : ℕ) (rejects : List Bytes) (batch : List QueuedBatchEvent) (db : Db) (r : List Bytes × Db)
      → Quarantined rejects batch db r
      → Onward n 0 db r.1
  Quarantined-Onward n rejects batch db r a = record {
    consistent = a.consistent;
    next_ge = omega (arith, a.next_eq);
    next_le = omega (arith, a.next_eq);
    shrinks = λ j low absent. elim (Bool-cases (rejects_sequence rejects j batch)) [
      | inl gone ↦ rw (a.events_eq j, gone)
      | inr kept ↦ rw (a.events_eq j, kept) absent
    ];
  }
