-- ===== src/Queue/Delivery/Rounds.antt =====
-- One round of a drain (queue.go): the batch that it takes lies up to the watermark, and after the
-- control plane took or rejected it an event less is left there.
use gesta_agent.Prelude.{
  ℕ, zero, suc, ◌≤◌, ◌<◌, ◌≡◌, refl, sym, ap, subst, ◌∙◌, ◌⊎◌, inl, inr, true, false, List, [], ◌∷◌,
  none, some, arith, length, take, All, Bool-cases, Option-cases, none_ne_some,
}
use gesta_agent.Bytes.{Bytes, bytes_lt, bytes_eq_refl}
use gesta_agent.SortedMap.{Entries, lookup, IsSorted}
use gesta_agent.SortedMap.Laws.{lookup_first}
use gesta_agent.SortedMap.Order.{lookup-cons}
use gesta_agent.SortedMap.Count.{upto, Within, upto-Within, upto-Within_lt}
use gesta_agent.Bolt.{Bolt, EventJson}
use gesta_agent.Queue.Codec.{Result, ok, err, encode_uint64, contains, decode_queued_event}
use gesta_agent.Queue.Database.{Db}
use gesta_agent.Queue.Database.Counters.{>>=-elim, ok_inj}
use gesta_agent.Queue.Retention.{Queue, prune_expired, cutoff}
use gesta_agent.Queue.Drain.{
  QueuedBatchEvent, collect_batch, batch_tx, next_drain_batch, acknowledge, acknowledge_events,
  quarantine_events, quarantine_checked, quarantine_rejected_events, check_rejected, rejected_set,
  batch_ids, queue_drain_batch_size, quarantine_reason_max_bytes,
}
use gesta_agent.Queue.Consistent.{IsConsistent, event_at, read_event}
use gesta_agent.Queue.Consistent.Pruned.{prune_expired-Pruned}
use gesta_agent.Queue.Consistent.Opened.{transaction_rule}
use gesta_agent.Queue.Delivery.Onward.{
  Onward, Onward-trans, Pruned-Onward, Reindexed-Onward, Shrinks,
}
use gesta_agent.Queue.Delivery.Steps.{Acknowledged-Onward, Quarantined-Onward}
use gesta_agent.Queue.Delivery.Acknowledged.{acknowledge_events-Acknowledged}
use gesta_agent.Queue.Delivery.Quarantined.{rejects_sequence, quarantine_events-Quarantined}

module _ ⦃bolt : Bolt⦄ ⦃json : EventJson⦄ where
  open bolt use {entries, get, get_lem, entries-IsSorted}

  -- How many events are queued up to the sequence `n`.
  abbrev pub pending : ℕ → Db → ℕ
  pending n db = upto (encode_uint64 n) (entries db.events)

  Shrinks-Within :
      (n : ℕ) (db db' : Db)
      → IsConsistent db'
      → Shrinks n db db'
      → Within (encode_uint64 n) (entries db.events) (entries db'.events)
  Shrinks-Within n db db' c f j low absent = elim (Option-cases (get db'.events j)) [
    | inl gone ↦ sym (get_lem db'.events j) ∙ gone
    | inr (v, stored) ↦
        let (e, reads) = c.readable j v stored in
        let before : event_at db j ≡ none = ap read_event (get_lem db.events j ∙ absent) in
        let after : event_at db' j ≡ some e = rw (stored, reads) in
        absurd (none_ne_some (sym (f j low before) ∙ after))
  ]

  pub Onward-pending : (n k : ℕ) (db db' : Db) → Onward n k db db' → pending n db' ≤ pending n db
  Onward-pending n k db db' o =
      upto-Within (encode_uint64 n) (entries db'.events) (entries db.events)
        (entries-IsSorted db'.events) (entries-IsSorted db.events)
        (Shrinks-Within n db db' o.consistent o.shrinks)

  -- A sequence of the batch that the queue held before, and holds no more.
  pub record Lost (n : ℕ) (db db' : Db) : Type 0 where
    pub sequence : Bytes
    pub stored : Bytes
    pub low : bytes_lt (encode_uint64 n) sequence ≡ false
    pub held : get db.events sequence ≡ some stored
    pub gone : get db'.events sequence ≡ none

  pub Lost-pending :
      (n k : ℕ) (db db' : Db) → Onward n k db db' → Lost n db db' → pending n db' < pending n db
  Lost-pending n k db db' o l =
      upto-Within_lt (encode_uint64 n) l.sequence l.stored (entries db'.events) (entries db.events)
        (entries-IsSorted db'.events) (entries-IsSorted db.events)
        (Shrinks-Within n db db' o.consistent o.shrinks) l.low
        (sym (get_lem db.events l.sequence) ∙ l.held) (sym (get_lem db'.events l.sequence) ∙ l.gone)

  -- Each event of the batch lies up to the watermark, and the walk has it.
  abbrev InWalk : Bytes → Entries → QueuedBatchEvent → Type 0
  InWalk w l queued =
      (bytes_lt w queued.sequence ≡ false) × (v : Bytes) × (lookup queued.sequence l ≡ some v)

  InWalk-cons :
      (w k v : Bytes) (l : Entries) (batch : List QueuedBatchEvent)
      → IsSorted ((k, v) ∷ l)
      → All (InWalk w l) batch
      → All (InWalk w ((k, v) ∷ l)) batch
  InWalk-cons w k v l [] s a = tt
  InWalk-cons w k v l (queued ∷ rest) s ((low, x, found), a) =
      ((low, x, lookup-cons k v queued.sequence x l s found), InWalk-cons w k v l rest s a)

  collect_batch-InWalk :
      (room : ℕ) (w : Bytes) (l : Entries) (batch : List QueuedBatchEvent)
      → IsSorted l
      → collect_batch room w l ≡ ok batch
      → All (InWalk w l) batch
  unfolding collect_batch
  collect_batch-InWalk zero w l batch s h = subst (All (InWalk w l)) (ok_inj h) tt
  collect_batch-InWalk (suc room) w [] batch s h = subst (All (InWalk w [])) (ok_inj h) tt
  collect_batch-InWalk (suc room) w ((k, v) ∷ l) batch s h = elim (Bool-cases (bytes_lt w k)) [
    | inl high ↦ subst (All (InWalk w ((k, v) ∷ l))) (ok_inj (rw (high, collect_batch) at h)) tt
    | inr low ↦
        >>=-elim (decode_queued_event json v) _ (rw (low, collect_batch) at h) λ r decoded h₁.
          >>=-elim (collect_batch room w l) _ h₁ λ rest collected last.
            subst (All (InWalk w ((k, v) ∷ l))) (ok_inj last) (
              (low, v, lookup_first k v l),
              InWalk-cons w k v l rest s (collect_batch-InWalk room w l rest s.1 collected),
            )
  ]

  abbrev pub Held : ℕ → Db → List QueuedBatchEvent → Type 0
  Held n db batch = All (InWalk (encode_uint64 n) (entries db.events)) batch

  abbrev pub Batched : ℕ → Db → Result (List QueuedBatchEvent) → Db → Type 0
  Batched n db (err e) d = Unit {0}
  Batched n db (ok batch) d = Onward n 0 db d × Held n d batch

  pub next_drain_batch-Batched :
      (n : ℕ) (q : Queue) (db : Db)
      → IsConsistent db
      → let (result, after) = next_drain_batch q (encode_uint64 n) db in Batched n db result after
  unfolding next_drain_batch batch_tx
  next_drain_batch-Batched n q db c =
      transaction_rule (Batched n db) (batch_tx q (encode_uint64 n)) db c (λ e d i. tt)
        (λ d r i h. >>=-elim (prune_expired q d) _ h λ x pruned h₁.
          >>=-elim (collect_batch queue_drain_batch_size (encode_uint64 n) (entries x.1.events)) _
            h₁
            λ batch collected last.
              subst (λ (y : List QueuedBatchEvent × Db). Batched n db (ok y.0) y.1) (ok_inj last)
                (
                  Onward-trans n 0 0 0 db d x.1 (omega arith) (Reindexed-Onward n db d i) (
                      Pruned-Onward n (cutoff q) d x.1
                        (prune_expired-Pruned q d x i.consistent pruned).1),
                  collect_batch-InWalk queue_drain_batch_size (encode_uint64 n) (entries x.1.events)
                      batch (entries-IsSorted x.1.events) collected,
                ))

  -- Where the transaction of a round succeeds, it goes on, and an event of the batch is gone.
  abbrev pub Took {ℓ} : {A : Type ℓ} → ℕ → Db → Db → Result A → Db → Type 0
  Took n db db₂ (err e) d = Unit {0}
  Took n db db₂ (ok x) d = Onward n 0 db₂ d × Lost n db d

  pub acknowledge-Took :
      (n : ℕ) (q : Queue) (first : QueuedBatchEvent) (rest : List QueuedBatchEvent) (db db₂ : Db)
      → Held n db (first ∷ rest)
      → IsConsistent db₂
      → let (result, after) = acknowledge q (first ∷ rest) db₂ in Took n db db₂ result after
  unfolding acknowledge
  acknowledge-Took n q first rest db db₂ ((low, v, found), held) c =
      transaction_rule (Took n db db₂) (acknowledge_events q.now (first ∷ rest)) db₂ c (λ e d i. tt)
        (λ d r i h.
          let a = acknowledge_events-Acknowledged q.now (first ∷ rest) d r i.consistent h in
          (
            Onward-trans n 0 0 0 db₂ d r.1 (omega arith) (Reindexed-Onward n db₂ d i)
                (Acknowledged-Onward n (first ∷ rest) d r.1 a),
            record {
              sequence = first.sequence;
              stored = v;
              low = low;
              held = get_lem db.events first.sequence ∙ found;
              gone = rw (a.events_eq first.sequence, bytes_eq_refl first.sequence);
            },
          ))

  -- An event of the batch whose identifier is in the set.
  record Hit (n : ℕ) (db : Db) (rejects : List Bytes) (batch : List QueuedBatchEvent) : Type 0 where
    sequence : Bytes
    stored : Bytes
    low : bytes_lt (encode_uint64 n) sequence ≡ false
    held : get db.events sequence ≡ some stored
    hits : rejects_sequence rejects sequence batch ≡ true

  batch_ids-Hit :
      (n : ℕ) (db : Db) (rejects seen : List Bytes) (batch : List QueuedBatchEvent)
      → Held n db batch
      → (batch_ids rejects seen batch ≡ seen) ⊎ Hit n db rejects batch
  unfolding batch_ids
  batch_ids-Hit n db rejects seen [] held = inl refl
  batch_ids-Hit n db rejects seen (queued ∷ rest) ((low, v, found), held) =
      elim (Bool-cases (contains queued.event.event_id rejects)) [
        | inl hit ↦ inr (record {
          sequence = queued.sequence;
          stored = v;
          low = low;
          held = get_lem db.events queued.sequence ∙ found;
          hits = rw (hit, bytes_eq_refl queued.sequence);
        })
        | inr miss ↦ elim (batch_ids-Hit n db rejects seen rest held) [
          | inl none_hit ↦ inl (rw miss none_hit)
          | inr later ↦ inr (record {
            sequence = later.sequence;
            stored = later.stored;
            low = later.low;
            held = later.held;
            hits = rw miss later.hits;
          })
        ]
      ]

  check_rejected-Hit :
      (n : ℕ) (db : Db) (batch : List QueuedBatchEvent) (ids rejects : List Bytes)
      → Held n db batch
      → check_rejected batch ids ≡ ok rejects
      → Hit n db rejects batch
  unfolding check_rejected
  check_rejected-Hit n db batch ids rejects held h =
      >>=-elim (rejected_set [] ids) _ h λ found set h₁.
        elim (batch_ids-Hit n db found [] batch held) [
          | inl none_hit ↦ absurd (ground (arith, ap length none_hit, h₁))
          | inr hit ↦
              let same : found ≡ rejects = ground (arith, h₁) in
              subst (λ (l : List Bytes). Hit n db l batch) same hit
        ]

  pub quarantine_rejected_events-Took :
      (n : ℕ) (q : Queue) (batch : List QueuedBatchEvent) (ids : List Bytes) (reason : Bytes)
      (db db₂ : Db)
      → Held n db batch
      → IsConsistent db₂
      → let (result, after) = quarantine_rejected_events q batch ids reason db₂ in
        Took n db db₂ result after
  unfolding quarantine_rejected_events quarantine_checked
  quarantine_rejected_events-Took n q batch ids reason db db₂ held c =
      go (check_rejected batch ids) refl
    where
      go :
          (checked : Result (List Bytes))
          → check_rejected batch ids ≡ checked
          → let (result, after) = quarantine_checked q batch reason db₂ checked in
            Took n db db₂ result after
      go (err e) p = tt
      go (ok rejects) p =
          let hit = check_rejected-Hit n db batch ids rejects held p in
          transaction_rule (Took n db db₂)
            (quarantine_events q.now (take quarantine_reason_max_bytes reason) rejects batch) db₂ c
            (λ e d i. tt)
            (λ d r i h.
              let a =
                quarantine_events-Quarantined q.now (take quarantine_reason_max_bytes reason)
                  rejects batch d r i.consistent h in
              (
                Onward-trans n 0 0 0 db₂ d r.1 (omega arith) (Reindexed-Onward n db₂ d i)
                    (Quarantined-Onward n rejects batch d r a),
                record {
                  sequence = hit.sequence;
                  stored = hit.stored;
                  low = hit.low;
                  held = hit.held;
                  gone = rw (a.events_eq hit.sequence, hit.hits);
                },
              ))
