-- ===== src/Queue/Delivery/Appending.antt =====
-- queue.go, AppendWithStats: what holds after it, whether it succeeds or not.
use gesta_agent.Prelude.{ℕ, ◌+◌, ◌≤◌, ◌<◌, ◌≡◌, refl, sym, ap, subst, ◌∙◌, List, arith, length}
use gesta_agent.Bytes.Endian.{two64}
use gesta_agent.SortedMap.{total}
use gesta_agent.Model.{EventEnvelope}
use gesta_agent.Bolt.{Bolt, EventJson}
use gesta_agent.Queue.Codec.{Result, ok, err}
use gesta_agent.Queue.Database.{Db, meta_next_key, queue_meta}
use gesta_agent.Queue.Database.Counters.{>>=-elim, ok_inj}
use gesta_agent.Queue.Store.{backfill_queued_event_ids}
use gesta_agent.Queue.Retention.{
  Queue, prune_expired, evict_over_capacity, effective_max_bytes, cutoff,
}
use gesta_agent.Queue.Append.{
  QueueStats, append_events, append_tx, append_with_stats, queue_stats_from_tx,
}
use gesta_agent.Queue.Consistent.{IsConsistent, Keeps, weight}
use gesta_agent.Queue.Consistent.Opened.{
  Reindexed, transaction_rule, backfill_queued_event_ids-Reindexed,
}
use gesta_agent.Queue.Consistent.Pruned.{Pruned, prune_expired-Pruned}
use gesta_agent.Queue.Consistent.Expired.{expired_count}
use gesta_agent.Queue.Consistent.Evicted.{Evicted, evict_over_capacity-Evicted}
use gesta_agent.Queue.Consistent.Operations.{append_events-Keeps}
use gesta_agent.Queue.Delivery.Filling.{Filled, append_events-Counting}

module _ ⦃bolt : Bolt⦄ ⦃json : EventJson⦄ where
  open bolt use {entries}

  -- What a successful append has done: it pruned, inserted the events that are not late, and evicted
  -- the oldest, and its statistics count what each of these steps did and what is there now.
  pub record Appended (q : Queue) (events : List EventEnvelope) (db : Db) (r : QueueStats × Db)
      : Type 0 where
    pub consistent : IsConsistent r.1
    pub next_le : queue_meta r.1 meta_next_key ≤ queue_meta db meta_next_key + length events
    pub within : total weight (entries r.1.events) ≤ effective_max_bytes q
    pub pruned : Db
    pub full : Db
    pub late_count : ℕ
    pub prunes : Pruned (cutoff q) db pruned
    pub fills : Filled (cutoff q) events late_count r.0.removed_duplicate pruned full
    pub evicts : Evicted (effective_max_bytes q) r.0.removed_capacity full r.1
    pub expired_eq : r.0.removed_expired ≡ expired_count (cutoff q) (entries db.events) + late_count
    pub count_eq : r.0.queued_events ≡ length (entries r.1.events)
    pub bytes_eq : r.0.queued_bytes ≡ total weight (entries r.1.events)
    pub quarantine_eq : r.0.quarantined_events ≡ length (entries r.1.quarantine)

  Reindexed-Pruned :
      (limit : ℕ) (db db₀ db₁ : Db) → Reindexed db db₀ → Pruned limit db₀ db₁ → Pruned limit db db₁
  Reindexed-Pruned limit db db₀ db₁ i p = record {
    consistent = p.consistent;
    next_eq = p.next_eq ∙ i.next_eq;
    exact = λ s. rw (← i.events_eq) (p.exact s);
  }

  append_tx-Appended :
      (q : Queue) (events : List EventEnvelope) (db : Db) (r : QueueStats × Db)
      → IsConsistent db
      → queue_meta db meta_next_key + length events < two64
      → append_tx q events db ≡ ok r
      → Appended q events db r
  unfolding append_tx queue_stats_from_tx
  append_tx-Appended q events db r c room h =
      >>=-elim (backfill_queued_event_ids db) _ h λ db₀ indexed h₀.
        let b = backfill_queued_event_ids-Reindexed db db₀ c indexed in
        >>=-elim (prune_expired q db₀) _ h₀ λ x pruned h₁.
          let (expired, p) = prune_expired-Pruned q db₀ x b.consistent pruned in
          >>=-elim (append_events (cutoff q) _ events x.1) _ h₁ λ y appended h₂.
            let room' : queue_meta x.1 meta_next_key + length events < two64 =
              omega (arith, room, p.next_eq, b.next_eq) in
            let k = append_events-Counting (cutoff q) events _ x.1 y p.consistent room' appended in
            let (c₂, next₂) =
              append_events-Keeps (cutoff q) events _ x.1 y p.consistent room' appended in
            >>=-elim (evict_over_capacity q y.1) _ h₂ λ z evicted last.
              let (n, db₃, runs, e) = evict_over_capacity-Evicted q y.1 c₂ in
              let same : (n, db₃) ≡ z = ok_inj (sym runs ∙ evicted) in
              let e' = subst (λ (w : ℕ × Db). Evicted (effective_max_bytes q) w.0 y.1 w.1) same e in
              subst (Appended q events db) (ok_inj last) (record {
                consistent = e'.consistent;
                next_le = omega (arith, e'.next_eq, next₂, p.next_eq, b.next_eq);
                within = e'.fits;
                pruned = x.1;
                full = y.1;
                late_count = k.late_count;
                prunes = Reindexed-Pruned (cutoff q) db db₀ x.1 b p;
                fills =
                    subst (λ (d : ℕ). Filled (cutoff q) events k.late_count d x.1 y.1)
                      (omega (arith, k.duplicate_eq)) k.fills;
                evicts = e';
                expired_eq =
                    k.expired_eq
                    ∙ ap (λ (m : ℕ). m + k.late_count)
                        (expired
                          ∙ ap (λ (l : bolt.Bucket). expired_count (cutoff q) (entries l))
                              b.events_eq);
                count_eq = e'.consistent.counted;
                bytes_eq = e'.consistent.weighed;
                quarantine_eq = refl;
              })

  -- What AppendWithStats leaves: on an error a consistent database, on success one within its limit
  -- with the statistics that it reports.
  abbrev pub AppendOutcome : Queue → List EventEnvelope → Db → Result QueueStats → Db → Type 0
  AppendOutcome q events db (err e) after = Keeps (length events) db after
  AppendOutcome q events db (ok stats) after = Appended q events db (stats, after)

  -- From a consistent database with room for the sequences of `events`, AppendWithStats leaves a
  -- consistent database on every path. Where it succeeds, it has pruned the events before the
  -- cutoff, inserted the events that are not late one after another, and evicted the first keys of
  -- the time index; the queued events have at most the configured number of bytes. It reports as
  -- expired how many queued events were pruned and how many new ones were late, as duplicates how
  -- many insertions dropped the event or replaced another, as evicted how many time keys went, and
  -- the numbers of queued events, of their bytes and of quarantined events that are there after it.
  pub append_with_stats-AppendOutcome :
      (q : Queue) (events : List EventEnvelope) (db : Db)
      → IsConsistent db
      → queue_meta db meta_next_key + length events < two64
      → let (result, after) = append_with_stats q events db in
        AppendOutcome q events db result after
  unfolding append_with_stats
  append_with_stats-AppendOutcome q events db c room =
      transaction_rule (AppendOutcome q events db) (append_tx q events) db c
        (λ e d i. (i.consistent, omega (arith, i.next_eq)))
        (λ d r i h.
          let a = append_tx-Appended q events d r i.consistent (omega (arith, i.next_eq, room)) h in
          record {
            consistent = a.consistent;
            next_le = omega (arith, a.next_le, i.next_eq);
            within = a.within;
            pruned = a.pruned;
            full = a.full;
            late_count = a.late_count;
            prunes = Reindexed-Pruned (cutoff q) db d a.pruned i a.prunes;
            fills = a.fills;
            evicts = a.evicts;
            expired_eq =
                a.expired_eq
                ∙ ap (λ (l : bolt.Bucket). expired_count (cutoff q) (entries l) + a.late_count)
                    i.events_eq;
            count_eq = a.count_eq;
            bytes_eq = a.bytes_eq;
            quarantine_eq = a.quarantine_eq;
          })

  AppendOutcome-Keeps :
      (q : Queue) (events : List EventEnvelope) (db : Db) (r : Result QueueStats) (after : Db)
      → AppendOutcome q events db r after
      → Keeps (length events) db after
  AppendOutcome-Keeps q events db (err e) after k = k
  AppendOutcome-Keeps q events db (ok stats) after a = (a.consistent, a.next_le)

  pub append_with_stats-Keeps :
      (q : Queue) (events : List EventEnvelope) (db : Db)
      → IsConsistent db
      → queue_meta db meta_next_key + length events < two64
      → Keeps (length events) db (append_with_stats q events db).1
  append_with_stats-Keeps q events db c room =
      AppendOutcome-Keeps q events db (append_with_stats q events db).0 _
        (append_with_stats-AppendOutcome q events db c room)
