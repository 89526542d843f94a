-- ===== src/Queue/Consistent/Opened.antt =====
-- queue_index.go, backfillQueuedEventIDs: on a consistent database it writes what the indexes
-- hold already, so opening the queue changes nothing that the invariant reads.
use mathlib.Core.Path.{subst₂, fun_ext}
use gesta_agent.Prelude.{
  ◌≡◌, refl, sym, ap, subst, ◌∙◌, inl, inr, false, [], ◌∷◌, some, leb, Bool-cases,
}
use gesta_agent.Bytes.{Bytes, bytes_eq, bytes_eq_iff}
use gesta_agent.SortedMap.{Entries, IsSorted, lookup}
use gesta_agent.SortedMap.Laws.{lookup_first}
use gesta_agent.SortedMap.Order.{lookup-cons}
use gesta_agent.Model.{EventEnvelope}
use gesta_agent.Bolt.{Bolt, EventJson}
use gesta_agent.Queue.Codec.{
  Error, Result, ok, err, ◌>>=◌, is_empty, decode_queued_event, encode_uint64,
}
use gesta_agent.Queue.Database.{
  Db, meta_next_key, meta_count_key, meta_bytes_key, meta_event_ids_key, queue_meta, decode_value,
  put_in,
}
use gesta_agent.Queue.Database.Counters.{>>=-elim, ok_inj, get-put}
use gesta_agent.Queue.Store.{index_event, backfill_events, backfill_queued_event_ids}
use gesta_agent.Queue.Append.{open_queue, update, transaction}
use gesta_agent.Queue.Views.{IsIndexed}
use gesta_agent.Queue.Consistent.{IsConsistent, event_at}

module _ ⦃bolt : Bolt⦄ ⦃json : EventJson⦄ where
  open bolt use {Bucket, entries, get, get_lem}

  -- A database that is as consistent as `db`, with the same events and sequences.
  pub record Reindexed (db db' : Db) : Type 0 where
    pub consistent : IsConsistent db'
    pub next_eq : queue_meta db' meta_next_key ≡ queue_meta db meta_next_key
    pub events_eq : db'.events ≡ db.events

  same_index :
      (b b' : Bucket) (k v j : Bytes) → put_in b k v ≡ ok b' → get b k ≡ some v → get b' j ≡ get b j
  same_index b b' k v j p held = elim (Bool-cases (bytes_eq k j)) [
    | inl same ↦ rw (get-put b b' k v j p, same) (sym held ∙ ap (get b) ((bytes_eq_iff k j).0 same))
    | inr other ↦ rw (get-put b b' k v j p, other)
  ]

  pub reindex :
      (db : Db) (ids seqs : Bucket)
      → IsConsistent db
      → ((j : Bytes) → get ids j ≡ get db.event_ids j)
      → ((j : Bytes) → get seqs j ≡ get db.event_seqs j)
      → Reindexed db (record db { event_ids = ids; event_seqs = seqs })
  unfolding queue_meta
  reindex db ids seqs c p q = record {
    consistent = record {
      counted = c.counted;
      weighed = c.weighed;
      count_fits = c.count_fits;
      bytes_fit = c.bytes_fit;
      next_fits = c.next_fits;
      fresh = c.fresh;
      readable = c.readable;
      is_timed = c.is_timed;
      is_indexed =
          subst₂ (IsIndexed (event_at db)) (fun_ext (λ j. sym (p j))) (fun_ext (λ j. sym (q j)))
            c.is_indexed;
    };
    next_eq = refl;
    events_eq = refl;
  }

  index_event-Reindexed :
      (id s : Bytes) (e : EventEnvelope) (db db' : Db)
      → IsConsistent db
      → event_at db s ≡ some e
      → id ≡ e.event_id
      → index_event id s db ≡ ok db'
      → Reindexed db db'
  unfolding index_event
  index_event-Reindexed [] s e db db' c held same h =
      subst (Reindexed db) (ok_inj h)
        (reindex db db.event_ids db.event_seqs c (λ j. refl) (λ j. refl))
  index_event-Reindexed (b ∷ bs) s e db db' c held same h =
      let named : is_empty e.event_id ≡ false = rw (← same) in
      >>=-elim (put_in db.event_ids (b ∷ bs) s) _ h λ ids put_id h₁.
        >>=-elim (put_in db.event_seqs s (b ∷ bs)) _ h₁ λ seqs put_seq last.
          subst (Reindexed db) (ok_inj last) (
            reindex db ids seqs c
              (λ j.
                same_index db.event_ids ids (b ∷ bs) s j put_id
                  (rw same (c.is_indexed.by_id s e held named)))
              (λ j.
                same_index db.event_seqs seqs s (b ∷ bs) j put_seq
                  (rw same (c.is_indexed.by_seq s e held named))))

  -- The walk visits pairs that the bucket holds.
  abbrev Holds : Bucket → Entries → Type 0
  Holds b [] = Unit {0}
  Holds b ((s, v) ∷ l) = (get b s ≡ some v) × Holds b l

  backfill_events-Reindexed :
      (l : Entries) (db db' : Db)
      → IsConsistent db
      → Holds db.events l
      → backfill_events l db ≡ ok db'
      → Reindexed db db'
  unfolding backfill_events
  backfill_events-Reindexed [] db db' c held h =
      subst (Reindexed db) (ok_inj h)
        (reindex db db.event_ids db.event_seqs c (λ j. refl) (λ j. refl))
  backfill_events-Reindexed ((s, v) ∷ l) db db' c held h =
      >>=-elim (decode_queued_event json v) _ h λ r reads h₁.
        >>=-elim (index_event r.0.event_id s db) _ h₁ λ db₁ indexed h₂.
          let one =
            index_event-Reindexed r.0.event_id s r.0 db db₁ c (rw held.0 (rw reads)) refl indexed in
          let rest =
            backfill_events-Reindexed l db₁ db' one.consistent
              (subst (λ b. Holds b l) (sym one.events_eq) held.1) h₂ in
          record {
            consistent = rest.consistent;
            next_eq = rest.next_eq ∙ one.next_eq;
            events_eq = rest.events_eq ∙ one.events_eq;
          }

  -- The version of the index is no counter.
  pub versioned :
      (db db₁ : Db) (m : Bucket)
      → Reindexed db db₁
      → put_in db₁.meta meta_event_ids_key (encode_uint64 1) ≡ ok m
      → Reindexed db (record db₁ { meta = m })
  unfolding queue_meta bytes_eq
  versioned db db₁ m r h =
      let same = λ (k : Bytes). get-put db₁.meta m meta_event_ids_key (encode_uint64 1) k h in
      let c = r.consistent in
      let count = ap decode_value (same meta_count_key) in
      let bytes = ap decode_value (same meta_bytes_key) in
      let next = ap decode_value (same meta_next_key) in
      record {
        consistent = record {
          counted = count ∙ c.counted;
          weighed = bytes ∙ c.weighed;
          count_fits = c.count_fits;
          bytes_fit = c.bytes_fit;
          next_fits = rw next c.next_fits;
          fresh = λ s v p. let (n, below, eq) = c.fresh s v p in (n, rw next below, eq);
          readable = c.readable;
          is_timed = c.is_timed;
          is_indexed = c.is_indexed;
        };
        next_eq = next ∙ r.next_eq;
        events_eq = r.events_eq;
      }

  Holds-lookup :
      (b : Bucket) (l : Entries)
      → IsSorted l
      → ((j w : Bytes) → lookup j l ≡ some w → get b j ≡ some w)
      → Holds b l
  Holds-lookup b [] s f = tt
  Holds-lookup b ((k, v) ∷ l) s f =
      (f k v (lookup_first k v l), Holds-lookup b l s.1 λ j w p. f j w (lookup-cons k v j w l s p))

  pub backfill_queued_event_ids-Reindexed :
      (db db' : Db) → IsConsistent db → backfill_queued_event_ids db ≡ ok db' → Reindexed db db'
  unfolding backfill_queued_event_ids
  backfill_queued_event_ids-Reindexed db db' c h =
      elim (Bool-cases (leb 1 (queue_meta db meta_event_ids_key))) [
        | inl built ↦
            subst (Reindexed db) (ok_inj (rw (built, backfill_queued_event_ids) at h))
              (reindex db db.event_ids db.event_seqs c (λ j. refl) (λ j. refl))
        | inr new ↦
            >>=-elim (backfill_events (entries db.events) db) _
              (rw (new, backfill_queued_event_ids) at h)
              λ db₁ filled h₁.
                let r =
                  backfill_events-Reindexed (entries db.events) db db₁ c
                    (Holds-lookup db.events (entries db.events) (bolt.entries-IsSorted db.events)
                      (λ j w p. get_lem db.events j ∙ p))
                    filled in
                >>=-elim (put_in db₁.meta meta_event_ids_key (encode_uint64 1)) _ h₁
                  λ m put_version last.
                    subst (Reindexed db) (ok_inj last) (versioned db db₁ m r put_version)
      ]

  -- Opening a consistent database leaves a consistent one with the same events and the same counter
  -- of sequences, whether the identifier index is there, is built, or cannot be built.
  pub open_queue-Reindexed : (db : Db) → IsConsistent db → Reindexed db (open_queue db).1
  unfolding open_queue
  open_queue-Reindexed db c = go (backfill_queued_event_ids db) refl
    where
      go :
          (r : Result Db)
          → backfill_queued_event_ids db ≡ r
          → Reindexed db (update {0, 0} (λ (d : Db). r >>= λ d'. ok (tt, d')) db).1
      go (err e) p = reindex db db.event_ids db.event_seqs c (λ j. refl) (λ j. refl)
      go (ok db') p = backfill_queued_event_ids-Reindexed db db' c p

  -- What holds of the result and the database after a transaction: `failed` for the errors, of the
  -- opening or of the transaction, and `done` for its success.
  pub transaction_rule {ℓ κ} :
      {A : Type ℓ} (P : Result A → Db → Type κ) (m : Db → Result (A × Db)) (db : Db)
      → IsConsistent db
      → ((e : Error) (d : Db) → Reindexed db d → P (err e) d)
      → ((d : Db) (r : A × Db) → Reindexed db d → m d ≡ ok r → P (ok r.0) r.1)
      → let (result, after) = transaction m db in P result after
  transaction_rule {A} P m db c failed done =
      go (open_queue db).0 (open_queue db).1 (open_queue-Reindexed db c)
    where
      Holds_after : Result A × Db → Type κ
      Holds_after r = P r.0 r.1

      finish :
          (d : Db) (r : Result (A × Db))
          → Reindexed db d
          → m d ≡ r
          → Holds_after (update (λ (x : Db). r) d)
      finish d (err e) i h = failed e d i
      finish d (ok r) i h = done d r i h

      go :
          (opened : Result (Unit {0})) (d : Db)
          → Reindexed db d
          → Holds_after
              (elim opened as (λ o. Result A × Db) [ err e ↦ (err e, d) | ok u ↦ update m d ])
      go (err e) d i = failed e d i
      go (ok u) d i = finish d (m d) i refl
