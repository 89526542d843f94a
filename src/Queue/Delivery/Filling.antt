-- ===== src/Queue/Delivery/Filling.antt =====
-- queue.go, AppendWithStats: what the loop over the new events does and counts.
use native.Mathlib.Nat.{add-zero}
use gesta_agent.Prelude.{
  ℕ, suc, ◌+◌, ◌<◌, ◌≡◌, sym, subst, inl, inr, true, false, Bool, ◌||◌, List, [], ◌∷◌, arith,
  length, ltb, Bool-cases,
}
use gesta_agent.Bytes.Endian.{two64}
use gesta_agent.Model.{EventEnvelope, is_zero}
use gesta_agent.Bolt.{Bolt, EventJson}
use gesta_agent.Queue.Codec.{ok}
use gesta_agent.Queue.Database.{Db, meta_next_key, queue_meta}
use gesta_agent.Queue.Database.Counters.{>>=-elim, ok_inj}
use gesta_agent.Queue.Store.{insert_queued_event}
use gesta_agent.Queue.Append.{Counts, count_duplicate, append_events}
use gesta_agent.Queue.Consistent.{IsConsistent}
use gesta_agent.Queue.Consistent.Outcome.{
  Inserted, insert_queued_event-Inserted, insert_queued_event-Keeps,
}

-- An event that is too old to be queued, or has no time.
abbrev pub is_late : ℕ → EventEnvelope → Bool
is_late limit e = is_zero e.created_at || ltb e.created_at limit

-- The events are inserted one after another, but for those that are late: so many are late, so many
-- are duplicates or replace one.
pub data Filled ⦃bolt : Bolt⦄ ⦃json : EventJson⦄ (limit : ℕ)
    : List EventEnvelope → ℕ → ℕ → Db → Db → Type 0 where
  filled : (db : Db) → Filled limit [] 0 0 db db
  late :
      (e : EventEnvelope) (events : List EventEnvelope) (n d : ℕ) (db db' : Db)
      → is_late limit e ≡ true
      → Filled limit events n d db db'
      → Filled limit (e ∷ events) (suc n) d db db'
  single :
      (e : EventEnvelope) (events : List EventEnvelope) (n d : ℕ) (db db₁ db' : Db)
      → is_late limit e ≡ false
      → Inserted e db (false, db₁)
      → Filled limit events n d db₁ db'
      → Filled limit (e ∷ events) n d db db'
  duplicate :
      (e : EventEnvelope) (events : List EventEnvelope) (n d : ℕ) (db db₁ db' : Db)
      → is_late limit e ≡ false
      → Inserted e db (true, db₁)
      → Filled limit events n d db₁ db'
      → Filled limit (e ∷ events) n (suc d) db db'

module _ ⦃bolt : Bolt⦄ ⦃json : EventJson⦄ where
  -- What the loop has counted, on top of what it began with.
  pub record Counting (limit : ℕ) (c : Counts) (events : List EventEnvelope) (db : Db)
      (r : Counts × Db) : Type 0 where
    pub late_count : ℕ
    pub duplicate_count : ℕ
    pub expired_eq : r.0.expired ≡ c.expired + late_count
    pub duplicate_eq : r.0.duplicate ≡ c.duplicate + duplicate_count
    pub fills : Filled limit events late_count duplicate_count db r.1

  after_insertion :
      (limit : ℕ) (c : Counts) (e : EventEnvelope) (events : List EventEnvelope) (db : Db)
      (removed : Bool) (db₁ : Db) (r : Counts × Db)
      → is_late limit e ≡ false
      → Inserted e db (removed, db₁)
      → Counting limit (count_duplicate removed c) events db₁ r
      → Counting limit c (e ∷ events) db r
  after_insertion limit c e events db false db₁ r early i k = record {
    late_count = k.late_count;
    duplicate_count = k.duplicate_count;
    expired_eq = k.expired_eq;
    duplicate_eq = k.duplicate_eq;
    fills = single e events k.late_count k.duplicate_count db db₁ r.1 early i k.fills;
  }
  after_insertion limit c e events db true db₁ r early i k = record {
    late_count = k.late_count;
    duplicate_count = suc k.duplicate_count;
    expired_eq = k.expired_eq;
    duplicate_eq = omega (arith, k.duplicate_eq);
    fills = duplicate e events k.late_count k.duplicate_count db db₁ r.1 early i k.fills;
  }

  pub append_events-Counting :
      (limit : ℕ) (events : List EventEnvelope) (c : Counts) (db : Db) (r : Counts × Db)
      → IsConsistent db
      → queue_meta db meta_next_key + length events < two64
      → append_events limit c events db ≡ ok r
      → Counting limit c events db r
  unfolding append_events
  append_events-Counting limit [] c db r k room h =
      subst (Counting limit c [] db) (ok_inj h) (record {
        late_count = 0;
        duplicate_count = 0;
        expired_eq = sym (add-zero c.expired);
        duplicate_eq = sym (add-zero c.duplicate);
        fills = filled db;
      })
  append_events-Counting limit (e ∷ events) c db r k room h = elim (Bool-cases (is_late limit e)) [
    | inl old ↦
        let rest =
          append_events-Counting limit events _ db r k (omega (arith, room))
            (rw (old, append_events) at h) in
        record {
          late_count = suc rest.late_count;
          duplicate_count = rest.duplicate_count;
          expired_eq = omega (arith, rest.expired_eq);
          duplicate_eq = rest.duplicate_eq;
          fills = late e events rest.late_count rest.duplicate_count db r.1 old rest.fills;
        }
    | inr early ↦
        >>=-elim (insert_queued_event e db) _ (rw (early, append_events) at h) λ x inserted h₁.
          let i = insert_queued_event-Inserted e db x k (omega (arith, room)) inserted in
          let (k₁, next₁) = insert_queued_event-Keeps e db x k (omega (arith, room)) inserted in
          after_insertion limit c e events db x.0 x.1 r early i (
            append_events-Counting limit events (count_duplicate x.0 c) x.1 r k₁
              (omega (arith, next₁, room)) h₁)
  ]
