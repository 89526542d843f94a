-- ===== src/Queue/Consistent/Operations.antt =====
-- Every operation of the queue keeps the database consistent: each is made of insertions and
-- deletions, and of writes to the ledgers, which are no part of the invariant.
use gesta_agent.Prelude.{
  ℕ, ◌+◌, ◌<◌, ◌≡◌, refl, subst, inl, inr, true, false, Bool, ◌||◌, List, [], ◌∷◌, arith, length,
  ltb, if◌then◌else◌, Bool-cases,
}
use gesta_agent.Bytes.{Bytes}
use gesta_agent.Bytes.Endian.{two64}
use gesta_agent.Model.{EventEnvelope, is_zero}
use gesta_agent.Bolt.{Bolt, EventJson}
use gesta_agent.Queue.Codec.{ok, or_fail, is_empty, contains, delivered_time_key}
use gesta_agent.Queue.Database.{Db, meta_next_key, queue_meta, put_in}
use gesta_agent.Queue.Database.Counters.{>>=-elim, ok_inj}
use gesta_agent.Queue.Store.{insert_queued_event, delete_queued_event, record_delivered_event_id}
use gesta_agent.Queue.Append.{Counts, append_events}
use gesta_agent.Queue.Drain.{QueuedBatchEvent, acknowledge_events, quarantine_events}
use gesta_agent.Queue.Consistent.{IsConsistent, Keeps, Removed}
use gesta_agent.Queue.Consistent.Delete.{delete_queued_event-Removed}
use gesta_agent.Queue.Consistent.Outcome.{insert_queued_event-Keeps}
use gesta_agent.Queue.Consistent.Pruned.{consistent_ledgers}

module _ ⦃bolt : Bolt⦄ ⦃json : EventJson⦄ where
  open bolt use {Bucket, entries, get}

  Keeps-trans : (m n : ℕ) (a b c : Db) → Keeps m a b → Keeps n b c → Keeps (m + n) a c
  Keeps-trans m n a b c p q = (q.0, omega (arith, p.1, q.1))

  Removed-Keeps : (s : Bytes) (db db' : Db) → Removed s db db' → Keeps 0 db db'
  Removed-Keeps s db db' d = (d.consistent, omega (arith, d.next_eq))

  pub append_events-Keeps :
      (limit : ℕ) (events : List EventEnvelope) (k : Counts) (db : Db) (r : Counts × Db)
      → IsConsistent db
      → queue_meta db meta_next_key + length events < two64
      → append_events limit k events db ≡ ok r
      → Keeps (length events) db r.1
  unfolding append_events
  append_events-Keeps limit [] k db r c room h =
      subst (λ (x : Counts × Db). Keeps 0 db x.1) (ok_inj h) (c, omega arith)
  append_events-Keeps limit (e ∷ events) k db r c room h =
      elim (Bool-cases (is_zero e.created_at || ltb e.created_at limit)) [
        | inl late ↦
            let (c', next) =
              append_events-Keeps limit events _ db r c (omega arith)
                (rw (late, append_events) at h) in
            (c', omega (arith, next))
        | inr fresh ↦
            >>=-elim (insert_queued_event e db) _ (rw (fresh, append_events) at h) λ x inserted h₁.
              let (c₁, next₁) = insert_queued_event-Keeps e db x c (omega arith) inserted in
              let (c₂, next₂) =
                append_events-Keeps limit events _ x.1 r c₁ (omega (arith, next₁)) h₁ in
              (c₂, omega (arith, next₁, next₂))
      ]

  record_delivered_event_id-Keeps :
      (id : Bytes) (now : ℕ) (db db' : Db)
      → IsConsistent db
      → record_delivered_event_id id now db ≡ ok db'
      → Keeps 0 db db'
  unfolding record_delivered_event_id queue_meta
  record_delivered_event_id-Keeps id now db db' c h =
      >>=-elim (put_in db.delivered_ids id (delivered_time_key now id)) _ h λ ids put_id h₁.
        >>=-elim (put_in _ (delivered_time_key now id) []) _ h₁ λ times put_time last.
          subst (Keeps 0 db) (ok_inj last)
            (consistent_ledgers db ids times db.quarantine c, omega arith)

  pub acknowledge_events-Keeps :
      (now : ℕ) (batch : List QueuedBatchEvent) (db : Db) (r : Unit {0} × Db)
      → IsConsistent db
      → acknowledge_events now batch db ≡ ok r
      → Keeps 0 db r.1
  unfolding acknowledge_events
  acknowledge_events-Keeps now [] db r c h =
      subst (λ (x : Unit {0} × Db). Keeps 0 db x.1) (ok_inj h) (c, omega arith)
  acknowledge_events-Keeps now (queued ∷ rest) db r c h = >>=-elim _ _ h λ db₁ noted h₁.
      let (c₁, next₁) = noted-Keeps (is_empty queued.event.event_id) db₁ noted in
      >>=-elim (delete_queued_event queued.sequence true db₁) _ h₁ λ db₂ deleted h₂.
        let d = delete_queued_event-Removed queued.sequence db₁ db₂ c₁ deleted in
        let (c₃, next₃) = acknowledge_events-Keeps now rest db₂ r d.consistent h₂ in
        (c₃, omega (arith, next₁, d.next_eq, next₃))
    where
      noted-Keeps :
          (b : Bool) (db₁ : Db)
          → (if b then ok db else record_delivered_event_id queued.event.event_id now db) ≡ ok db₁
          → Keeps 0 db db₁
      noted-Keeps true db₁ p = subst (Keeps 0 db) (ok_inj p) (c, omega arith)
      noted-Keeps false db₁ p = record_delivered_event_id-Keeps _ now db db₁ c p

  queue_meta-quarantine :
      (db : Db) (q : Bucket) (k : Bytes)
      → queue_meta (record db { quarantine = q }) k ≡ queue_meta db k
  unfolding queue_meta
  queue_meta-quarantine db q k = refl

  pub quarantine_events-Keeps :
      (now : ℕ) (reason : Bytes) (rejects : List Bytes) (batch : List QueuedBatchEvent) (db : Db)
      (r : List Bytes × Db)
      → IsConsistent db
      → quarantine_events now reason rejects batch db ≡ ok r
      → Keeps 0 db r.1
  unfolding quarantine_events
  quarantine_events-Keeps now reason rejects [] db r c h =
      subst (λ (x : List Bytes × Db). Keeps 0 db x.1) (ok_inj h) (c, omega arith)
  quarantine_events-Keeps now reason rejects (queued ∷ rest) db r c h =
      elim (Bool-cases (contains queued.event.event_id rejects)) [
        | inr keep ↦
            quarantine_events-Keeps now reason rejects rest db r c
              (rw (keep, quarantine_events) at h)
        | inl reject ↦
            >>=-elim (or_fail (json.marshal_quarantined now reason queued.event) _) _
              (rw (reject, quarantine_events) at h)
              λ stored marshalled h₁.
                >>=-elim (put_in db.quarantine queued.event.event_id stored) _ h₁
                  λ quarantine put_q h₂.
                    >>=-elim (delete_queued_event queued.sequence true (aside quarantine)) _ h₂
                      λ db₁ deleted h₃.
                        let d =
                          delete_queued_event-Removed queued.sequence (aside quarantine) db₁
                            (consistent_ledgers db db.delivered_ids db.delivered_times quarantine c)
                            deleted in
                        >>=-elim (quarantine_events now reason rejects rest db₁) _ h₃
                          λ x moved last.
                            let (c₂, next₂) =
                              quarantine_events-Keeps now reason rejects rest db₁ x d.consistent
                                moved in
                            subst (λ (x : List Bytes × Db). Keeps 0 db x.1) (ok_inj last)
                              (
                                c₂,
                                omega (
                                  arith,
                                  queue_meta-quarantine db quarantine meta_next_key,
                                  d.next_eq,
                                  next₂,
                                ),
                              )
      ]
    where
      aside : Bucket → Db
      aside quarantine = record db { quarantine = quarantine }
