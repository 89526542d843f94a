-- ===== src/Queue/Delivery/Acknowledged.antt =====
-- queue_store.go, acknowledge: what is gone after it, and what counts as delivered.
use gesta_agent.Prelude.{
  ℕ, ◌≡◌, refl, ap, subst, ◌∙◌, inl, inr, true, false, Bool, ◌||◌, ◌&&◌, not, List, [], ◌∷◌, none,
  arith, is_some, Bool-cases, if◌then◌else◌,
}
use gesta_agent.Bytes.{Bytes, bytes_eq}
use gesta_agent.Bolt.{Bolt, EventJson}
use gesta_agent.Queue.Codec.{ok, is_empty, delivered_time_key}
use gesta_agent.Queue.Database.{Db, meta_next_key, queue_meta, put_in}
use gesta_agent.Queue.Database.Counters.{>>=-elim, ok_inj, get-put}
use gesta_agent.Queue.Store.{delete_queued_event, record_delivered_event_id}
use gesta_agent.Queue.Drain.{QueuedBatchEvent, acknowledge_events}
use gesta_agent.Queue.Consistent.{IsConsistent}
use gesta_agent.Queue.Consistent.Delete.{delete_queued_event-Removed}
use gesta_agent.Queue.Consistent.Pruned.{consistent_ledgers}

-- The batch has the sequence; the batch has the identifier, and it is not empty.
abbrev pub sends_sequence : Bytes → List QueuedBatchEvent → Bool
sends_sequence j [] = false
sends_sequence j (queued ∷ rest) = bytes_eq queued.sequence j || sends_sequence j rest

abbrev pub sends_id : Bytes → List QueuedBatchEvent → Bool
sends_id j [] = false
sends_id j (queued ∷ rest) =
    (not (is_empty queued.event.event_id) && bytes_eq queued.event.event_id j) || sends_id j rest

module _ ⦃bolt : Bolt⦄ ⦃json : EventJson⦄ where
  open bolt use {Bucket, entries, get}

  -- Exactly the records of the batch are gone, and exactly its identifiers count as delivered in
  -- addition.
  pub record Acknowledged (batch : List QueuedBatchEvent) (db db' : Db) : Type 0 where
    pub consistent : IsConsistent db'
    pub next_eq : queue_meta db' meta_next_key ≡ queue_meta db meta_next_key
    pub events_eq :
        (j : Bytes) → get db'.events j ≡ (if sends_sequence j batch then none else get db.events j)
    pub delivered_eq :
        (j : Bytes)
        → is_some (get db'.delivered_ids j) ≡ (is_some (get db.delivered_ids j) || sends_id j batch)

  -- The identifier of one event is noted.
  record Noted (id : Bytes) (db db' : Db) : Type 0 where
    consistent : IsConsistent db'
    next_eq : queue_meta db' meta_next_key ≡ queue_meta db meta_next_key
    events_eq : db'.events ≡ db.events
    delivered_eq :
        (j : Bytes)
        → is_some (get db'.delivered_ids j)
          ≡ (is_some (get db.delivered_ids j) || (not (is_empty id) && bytes_eq id j))

  record_delivered_event_id-Noted :
      (id : Bytes) (now : ℕ) (db db' : Db)
      → IsConsistent db
      → is_empty id ≡ false
      → record_delivered_event_id id now db ≡ ok db'
      → Noted id db db'
  unfolding record_delivered_event_id queue_meta
  record_delivered_event_id-Noted id now db db' c named h =
      >>=-elim (put_in db.delivered_ids id (delivered_time_key now id)) _ h λ ids put_id h₁.
        >>=-elim (put_in _ (delivered_time_key now id) []) _ h₁ λ times put_time last.
          subst (Noted id db) (ok_inj last) (record {
            consistent = consistent_ledgers db ids times db.quarantine c;
            next_eq = refl;
            events_eq = refl;
            delivered_eq = λ j. ground (arith, get-put db.delivered_ids ids id _ j put_id);
          })

  note-Noted :
      (queued : QueuedBatchEvent) (now : ℕ) (db db' : Db)
      → IsConsistent db
      → (if is_empty queued.event.event_id
          then ok db
          else record_delivered_event_id queued.event.event_id now db)
        ≡ ok db'
      → Noted queued.event.event_id db db'
  note-Noted queued now db db' c h = elim (Bool-cases (is_empty queued.event.event_id)) [
    | inl anonymous ↦ subst (Noted queued.event.event_id db) (ok_inj (rw anonymous at h)) (record {
      consistent = c;
      next_eq = refl;
      events_eq = refl;
      delivered_eq = λ j. ground arith;
    })
    | inr named ↦
        record_delivered_event_id-Noted queued.event.event_id now db db' c named (rw named at h)
  ]

  -- Where an acknowledgement of a batch succeeds on a consistent database, it leaves a consistent
  -- one: exactly the records of the batch's sequences are gone, exactly the batch's non-empty
  -- identifiers count as delivered in addition, and the counter of sequences is unchanged.
  pub acknowledge_events-Acknowledged :
      (now : ℕ) (batch : List QueuedBatchEvent) (db : Db) (r : Unit {0} × Db)
      → IsConsistent db
      → acknowledge_events now batch db ≡ ok r
      → Acknowledged batch db r.1
  unfolding acknowledge_events
  acknowledge_events-Acknowledged now [] db r c h =
      subst (λ (x : Unit {0} × Db). Acknowledged [] db x.1) (ok_inj h)
        (record {
          consistent = c;
          next_eq = refl;
          events_eq = λ j. refl;
          delivered_eq = λ j. ground arith;
        })
  acknowledge_events-Acknowledged now (queued ∷ rest) db r c h = >>=-elim _ _ h λ db₁ noted h₁.
      let n = note-Noted queued now db db₁ c noted in
      >>=-elim (delete_queued_event queued.sequence true db₁) _ h₁ λ db₂ deleted h₂.
        let d = delete_queued_event-Removed queued.sequence db₁ db₂ n.consistent deleted in
        let a = acknowledge_events-Acknowledged now rest db₂ r d.consistent h₂ in
        record {
          consistent = a.consistent;
          next_eq = a.next_eq ∙ d.next_eq ∙ n.next_eq;
          events_eq = λ j.
              ground
                (arith, a.events_eq j, d.events_eq j, ap (λ (b : Bucket). get b j) n.events_eq);
          delivered_eq = λ j. ground (
            arith,
            a.delivered_eq j,
            ap (λ (b : Bucket). get b j) d.ledgers.delivered_ids,
            n.delivered_eq j,
          );
        }
