-- ===== src/Queue/Retention.antt =====
-- pkg/eventqueue/queue_retention.go: age and size limits. Each loop reads the first key of an index
-- anew, so it runs on fuel; one more than the index has keys is enough.
use gesta_agent.Prelude.{
  ℕ, zero, suc, ◌+◌, ◌-◌, Bool, false, ◌&&◌, [], ◌∷◌, Option, none, some, length, ltb, ◌==◌,
  if◌then◌else◌,
}
use gesta_agent.Bytes.{Bytes, bytes_eq}
use gesta_agent.SortedMap.{Entries}
use gesta_agent.Bolt.{Bolt, EventJson}
use gesta_agent.Queue.Codec.{
  Result, ok, err, ◌>>=◌, out_of_fuel, two63, decode_queue_time_key, decode_delivered_time_key,
}
use gesta_agent.Queue.Database.{Db, queue_meta, meta_bytes_key}
use gesta_agent.Queue.Store.{delete_queued_event}

-- The settings of a queue, and the reading of its clock for one call. A zero setting is unset.
pub record Queue : Type 0 where
  pub now : ℕ
  pub max_age : ℕ
  pub max_bytes : ℕ

abbrev pub queue_max_age : ℕ
queue_max_age = 2592000000000000

abbrev pub queue_max_bytes : ℕ
queue_max_bytes = 536870912

unfoldable pub cutoff : Queue → ℕ
cutoff q = q.now - (if q.max_age == 0 then queue_max_age else q.max_age)

unfoldable pub effective_max_bytes : Queue → ℕ
effective_max_bytes q = if ltb 0 q.max_bytes then q.max_bytes else queue_max_bytes

abbrev pub first_key : Entries → Option Bytes
first_key [] = none
first_key ((k, v) ∷ l) = some k

-- int64(bytes) > limit
unfoldable pub exceeds : ℕ → ℕ → Bool
exceeds bytes limit = ltb bytes two63 && ltb limit bytes

module _ ⦃bolt : Bolt⦄ where
  open bolt use {Bucket, entries, get, delete}

  -- The identifier goes with the time key unless it was delivered again later.
  unfoldable pub forget_delivered : Bytes → Bytes → Db → Db
  forget_delivered key event_id db = record db {
    delivered_ids = elim (get db.delivered_ids event_id) [
      | none ↦ db.delivered_ids
      | some current ↦
          if bytes_eq current key then delete db.delivered_ids event_id else db.delivered_ids
    ];
    delivered_times = delete db.delivered_times key;
  }

  unfoldable pub prune_delivered_loop : ℕ → ℕ → Db → Result Db
  prune_delivered_loop zero limit db = err out_of_fuel
  prune_delivered_loop (suc fuel) limit db = elim (first_key (entries db.delivered_times)) [
    | none ↦ ok db
    | some key ↦ do
      (delivered_at, event_id) ← decode_delivered_time_key key
      let rest = prune_delivered_loop fuel limit (forget_delivered key event_id db)
      if ltb delivered_at limit then rest else ok db
  ]

  unfoldable pub prune_delivered_event_ids : ℕ → Db → Result Db
  prune_delivered_event_ids limit db =
      prune_delivered_loop (suc (length (entries db.delivered_times))) limit db

  module _ ⦃json : EventJson⦄ where
    abbrev pub drop_first : Bytes → Bytes → Db → Result Db
    drop_first key sequence db =
        delete_queued_event sequence false (record db { times = delete db.times key })

    unfoldable pub prune_loop : ℕ → ℕ → ℕ → Db → Result (ℕ × Db)
    prune_loop zero limit removed db = err out_of_fuel
    prune_loop (suc fuel) limit removed db = elim (first_key (entries db.times)) [
      | none ↦ ok (removed, db)
      | some key ↦ do
        (created_at, sequence) ← decode_queue_time_key key
        let rest = do db₁ ← drop_first key sequence db; prune_loop fuel limit (removed + 1) db₁
        if ltb created_at limit then rest else ok (removed, db)
    ]

    unfoldable pub prune_expired : Queue → Db → Result (ℕ × Db)
    prune_expired q db = do
      db₁ ← prune_delivered_event_ids (cutoff q) db
      prune_loop (suc (length (entries db₁.times))) (cutoff q) 0 db₁

    unfoldable pub evict_loop : ℕ → ℕ → ℕ → Db → Result (ℕ × Db)
    evict_loop zero limit removed db = err out_of_fuel
    evict_loop (suc fuel) limit removed db = elim (exceeds (queue_meta db meta_bytes_key) limit) [
      | Bool.false ↦ ok (removed, db)
      | Bool.true ↦ elim (first_key (entries db.times)) [
        | none ↦ ok (removed, db)
        | some key ↦ do
          (created_at, sequence) ← decode_queue_time_key key
          db₁ ← drop_first key sequence db
          evict_loop fuel limit (removed + 1) db₁
      ]
    ]

    unfoldable pub evict_over_capacity : Queue → Db → Result (ℕ × Db)
    evict_over_capacity q db =
        evict_loop (suc (length (entries db.times))) (effective_max_bytes q) 0 db
