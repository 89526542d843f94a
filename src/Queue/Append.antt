-- ===== src/Queue/Append.antt =====
-- pkg/eventqueue/queue.go: opening, Append, Stats.
use gesta_agent.Prelude.{
  ℕ, ◌+◌, Bool, true, false, ◌||◌, List, [], ◌∷◌, Option, none, some, length, ltb, if◌then◌else◌,
}
use gesta_agent.Bytes.{Bytes}
use gesta_agent.Model.{EventEnvelope, is_zero}
use gesta_agent.Bolt.{Bolt, EventJson}
use gesta_agent.Queue.Codec.{Result, ok, err, ◌>>=◌, decode_queue_time_key}
use gesta_agent.Queue.Database.{Db, queue_meta, meta_count_key, meta_bytes_key}
use gesta_agent.Queue.Store.{insert_queued_event, backfill_queued_event_ids}
use gesta_agent.Queue.Retention.{Queue, cutoff, first_key, prune_expired, evict_over_capacity}

-- The zero time stands for "no event".
pub record QueueStats : Type 0 where
  pub queued_events : ℕ
  pub queued_bytes : ℕ
  pub removed_expired : ℕ
  pub removed_duplicate : ℕ
  pub removed_capacity : ℕ
  pub quarantined_events : ℕ
  pub oldest_queued_at : ℕ

-- What a loop over the events to append has counted.
pub record Counts : Type 0 where
  pub expired : ℕ
  pub duplicate : ℕ

-- db.Update: an error leaves the database as it was.
abbrev pub update {ℓ κ} : {A : Type ℓ} {D : Type κ} → (D → Result (A × D)) → D → Result A × D
update m db = elim (m db) [ err e ↦ (err e, db) | ok (a, db') ↦ (ok a, db') ]

abbrev pub count_duplicate : Bool → Counts → Counts
count_duplicate removed c = if removed then record c { duplicate = c.duplicate + 1 } else c

abbrev oldest : Option Bytes → ℕ
oldest none = 0
oldest (some key) = elim (decode_queue_time_key key) [ err e ↦ 0 | ok (created_at, s) ↦ created_at ]

module _ ⦃bolt : Bolt⦄ where
  open bolt use {entries}

  unfoldable pub queue_stats_from_tx : Db → QueueStats
  queue_stats_from_tx db = record {
    queued_events = queue_meta db meta_count_key;
    queued_bytes = queue_meta db meta_bytes_key;
    removed_expired = 0;
    removed_duplicate = 0;
    removed_capacity = 0;
    quarantined_events = length (entries db.quarantine);
    oldest_queued_at = oldest (first_key (entries db.times));
  }

  module _ ⦃json : EventJson⦄ where
    -- Queue.open: each bucket is there, and the identifier index is built once.
    unfoldable pub open_queue : Db → Result (Unit {0}) × Db
    open_queue db = update (λ d. do d' ← backfill_queued_event_ids d; ok (tt, d')) db

    unfoldable pub append_events : ℕ → Counts → List EventEnvelope → Db → Result (Counts × Db)
    append_events limit c [] db = ok (c, db)
    append_events limit c (event ∷ rest) db =
        elim (is_zero event.created_at || ltb event.created_at limit) [
          | true ↦ append_events limit (record c { expired = c.expired + 1 }) rest db
          | false ↦ do
            (removed, db₁) ← insert_queued_event event db
            append_events limit (count_duplicate removed c) rest db₁
        ]

    unfoldable pub append_tx : Queue → List EventEnvelope → Db → Result (QueueStats × Db)
    append_tx q events db = do
      db₀ ← backfill_queued_event_ids db
      (expired, db₁) ← prune_expired q db₀
      (c, db₂) ← append_events (cutoff q) (record { expired = expired; duplicate = 0 }) events db₁
      (capacity, db₃) ← evict_over_capacity q db₂
      let current = queue_stats_from_tx db₃
      ok (
        record current {
          removed_expired = c.expired;
          removed_duplicate = c.duplicate;
          removed_capacity = capacity;
        },
        db₃,
      )

    -- A call opens the database, and makes its changes in one transaction.
    abbrev pub transaction {ℓ} : {A : Type ℓ} → (Db → Result (A × Db)) → Db → Result A × Db
    transaction m db =
        let (opened, db₀) = open_queue db in
        elim opened [ err e ↦ (err e, db₀) | ok u ↦ update m db₀ ]

    unfoldable pub append_with_stats : Queue → List EventEnvelope → Db → Result QueueStats × Db
    append_with_stats q events = transaction (append_tx q events)

    unfoldable pub stats : Db → Result QueueStats × Db
    stats = transaction (λ db. ok (queue_stats_from_tx db, db))
