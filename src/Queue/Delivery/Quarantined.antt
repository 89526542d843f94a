-- ===== src/Queue/Delivery/Quarantined.antt =====
-- queue_quarantine.go: what is gone from the queue after a permanent rejection, and what is kept
-- aside for good.
use gesta_agent.Prelude.{
  ℕ, ◌≡◌, refl, ap, subst, ◌∙◌, inl, inr, true, false, Bool, ◌||◌, ◌&&◌, List, [], ◌∷◌, none, arith,
  is_some, Bool-cases, if◌then◌else◌,
}
use gesta_agent.Bytes.{Bytes, bytes_eq}
use gesta_agent.Bolt.{Bolt, EventJson}
use gesta_agent.Queue.Codec.{ok, or_fail, contains}
use gesta_agent.Queue.Database.{Db, meta_next_key, queue_meta, put_in}
use gesta_agent.Queue.Database.Counters.{>>=-elim, ok_inj, get-put}
use gesta_agent.Queue.Store.{delete_queued_event}
use gesta_agent.Queue.Drain.{QueuedBatchEvent, quarantine_events}
use gesta_agent.Queue.Consistent.{IsConsistent, Removed}
use gesta_agent.Queue.Consistent.Delete.{delete_queued_event-Removed}
use gesta_agent.Queue.Consistent.Pruned.{consistent_ledgers}

-- The batch has the sequence under a rejected identifier; the identifiers that are rejected, in the
-- order of the batch.
abbrev pub rejects_sequence : List Bytes → Bytes → List QueuedBatchEvent → Bool
rejects_sequence rejects j [] = false
rejects_sequence rejects j (queued ∷ rest) =
    (contains queued.event.event_id rejects && bytes_eq queued.sequence j)
    || rejects_sequence rejects j rest

abbrev pub rejected_ids : List Bytes → List QueuedBatchEvent → List Bytes
rejected_ids rejects [] = []
rejected_ids rejects (queued ∷ rest) =
    if contains queued.event.event_id rejects
    then queued.event.event_id ∷ rejected_ids rejects rest
    else rejected_ids rejects rest

module _ ⦃bolt : Bolt⦄ ⦃json : EventJson⦄ where
  open bolt use {Bucket, get}

  -- Exactly the rejected records of the batch are gone, and exactly their identifiers are kept
  -- aside in addition.
  pub record Quarantined (rejects : List Bytes) (batch : List QueuedBatchEvent) (db : Db)
      (r : List Bytes × Db) : Type 0 where
    pub consistent : IsConsistent r.1
    pub next_eq : queue_meta r.1 meta_next_key ≡ queue_meta db meta_next_key
    pub moved_eq : r.0 ≡ rejected_ids rejects batch
    pub events_eq :
        (j : Bytes)
        → get r.1.events j ≡ (if rejects_sequence rejects j batch then none else get db.events j)
    pub quarantine_eq :
        (j : Bytes)
        → is_some (get r.1.quarantine j)
          ≡ (is_some (get db.quarantine j) || contains j (rejected_ids rejects batch))
    pub delivered_ids_eq : r.1.delivered_ids ≡ db.delivered_ids

  queue_meta_aside :
      (db : Db) (q : Bucket) (k : Bytes)
      → queue_meta (record db { quarantine = q }) k ≡ queue_meta db k
  unfolding queue_meta
  queue_meta_aside db q k = refl

  -- One more event is moved aside before the rest.
  quarantine_one :
      (rejects : List Bytes) (queued : QueuedBatchEvent) (rest : List QueuedBatchEvent)
      (stored : Bytes) (db : Db) (quarantine : Bucket) (db₁ : Db) (r : List Bytes × Db)
      → contains queued.event.event_id rejects ≡ true
      → put_in db.quarantine queued.event.event_id stored ≡ ok quarantine
      → Removed queued.sequence (record db { quarantine = quarantine }) db₁
      → Quarantined rejects rest db₁ r
      → Quarantined rejects (queued ∷ rest) db (queued.event.event_id ∷ r.0, r.1)
  unfolding contains
  quarantine_one rejects queued rest stored db quarantine db₁ r reject put_q d a = record {
    consistent = a.consistent;
    next_eq = a.next_eq ∙ d.next_eq ∙ queue_meta_aside db quarantine meta_next_key;
    moved_eq = rw reject (ap (◌∷◌ queued.event.event_id) a.moved_eq);
    events_eq = λ j. ground (arith, a.events_eq j, d.events_eq j);
    quarantine_eq = λ j. ground (
      arith,
      a.quarantine_eq j,
      ap (λ (b : Bucket). get b j) d.ledgers.quarantine,
      get-put db.quarantine quarantine queued.event.event_id stored j put_q,
    );
    delivered_ids_eq = a.delivered_ids_eq ∙ d.ledgers.delivered_ids;
  }

  -- Where moving the rejected events of a batch aside succeeds on a consistent database, it leaves
  -- a consistent one: exactly the records of the batch whose identifier is rejected are gone,
  -- exactly their identifiers are quarantined in addition, they are reported in the batch's order,
  -- and the identifiers that count as delivered and the counter of sequences are unchanged.
  pub quarantine_events-Quarantined :
      (now : ℕ) (reason : Bytes) (rejects : List Bytes) (batch : List QueuedBatchEvent) (db : Db)
      (r : List Bytes × Db)
      → IsConsistent db
      → quarantine_events now reason rejects batch db ≡ ok r
      → Quarantined rejects batch db r
  unfolding quarantine_events contains
  quarantine_events-Quarantined now reason rejects [] db r c h =
      subst (Quarantined rejects [] db) (ok_inj h) (record {
        consistent = c;
        next_eq = refl;
        moved_eq = refl;
        events_eq = λ j. refl;
        quarantine_eq = λ j. ground arith;
        delivered_ids_eq = refl;
      })
  quarantine_events-Quarantined now reason rejects (queued ∷ rest) db r c h =
      elim (Bool-cases (contains queued.event.event_id rejects)) [
        | inr keep ↦
            let a =
              quarantine_events-Quarantined now reason rejects rest db r c
                (rw (keep, quarantine_events) at h) in
            record {
              consistent = a.consistent;
              next_eq = a.next_eq;
              moved_eq = rw keep a.moved_eq;
              events_eq = λ j. rw keep (a.events_eq j);
              quarantine_eq = λ j. rw keep (a.quarantine_eq j);
              delivered_ids_eq = a.delivered_ids_eq;
            }
        | inl reject ↦
            >>=-elim (or_fail (json.marshal_quarantined now reason queued.event) _) _
              (rw (reject, quarantine_events) at h)
              λ stored marshalled h₁.
                >>=-elim (put_in db.quarantine queued.event.event_id stored) _ h₁
                  λ quarantine put_q h₂.
                    >>=-elim
                      (delete_queued_event queued.sequence true
                        (record db { quarantine = quarantine }))
                      _ h₂
                      λ db₁ deleted h₃.
                        let d =
                          delete_queued_event-Removed queued.sequence
                            (record db { quarantine = quarantine }) db₁
                            (consistent_ledgers db db.delivered_ids db.delivered_times quarantine c)
                            deleted in
                        >>=-elim (quarantine_events now reason rejects rest db₁) _ h₃
                          λ x moved last.
                            subst (Quarantined rejects (queued ∷ rest) db) (ok_inj last) (
                              quarantine_one rejects queued rest stored db quarantine db₁ x reject
                                put_q d
                                (quarantine_events-Quarantined now reason rejects rest db₁ x
                                  d.consistent moved))
      ]
