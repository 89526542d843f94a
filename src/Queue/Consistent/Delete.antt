-- ===== src/Queue/Consistent/Delete.antt =====
-- Removing an event keeps the database consistent.
use mathlib.Core.Path.{subst₂, fun_ext}
use gesta_agent.Prelude.{
  ℕ, ◌+◌, ◌-◌, ◌%◌, ◌≡◌, refl, sym, ap, subst, ◌∙◌, inl, inr, true, [], ◌∷◌, none, some, arith,
  length, if◌then◌else◌, Bool-cases, Option-cases,
}
use gesta_agent.Bytes.{Bytes, bytes_eq, bytes_eq_iff, bytes_eq_refl}
use gesta_agent.Bytes.Endian.{two64}
use gesta_agent.SortedMap.{Entries, lookup, erase}
use gesta_agent.SortedMap.Laws.{lookup-erase, total-erase, length-erase}
use gesta_agent.Model.{EventEnvelope}
use gesta_agent.Bolt.{Bolt, EventJson}
use gesta_agent.Queue.Codec.{ok, decode_queued_event, queue_time_key, is_empty}
use gesta_agent.Queue.Database.{
  Db, meta_count_key, meta_bytes_key, queue_meta, increment_queue_meta,
}
use gesta_agent.Queue.Database.Counters.{Counted, ok_inj, write_counters-Counted}
use gesta_agent.Queue.Store.{delete_stored, delete_queued_event, unindex, drop_time}
use gesta_agent.Queue.Views.{
  IsTimed, IsIndexed, without, without-IsTimed, without-IsIndexed, without-IsIndexed_anonymous,
  seqs_anonymous,
}
use gesta_agent.Queue.Consistent.{weight, event_at, read_event, IsConsistent, Removed}

module _ ⦃bolt : Bolt⦄ where
  open bolt use {Bucket, entries, get, delete, get_lem, entries-delete, entries-IsSorted}

  pub get-delete :
      (b : Bucket) (k j : Bytes) → get (delete b k) j ≡ (if bytes_eq k j then none else get b j)
  get-delete b k j =
      rw (get_lem (delete b k) j, entries-delete b k, get_lem b j)
        (lookup-erase k j (entries b) (entries-IsSorted b))

module _ ⦃bolt : Bolt⦄ ⦃json : EventJson⦄ where
  open bolt use {Bucket, entries, get, delete, get_lem, entries-delete}

  event_at-delete :
      (db : Db) (s j : Bytes) → read_event (get (delete db.events s) j) ≡ without s (event_at db) j
  event_at-delete db s j = elim (Bool-cases (bytes_eq s j)) [
    | inl same ↦ rw (get-delete db.events s j, same)
    | inr other ↦ rw (get-delete db.events s j, other)
  ]

  module _ (db : Db) (s v : Bytes) (e : EventEnvelope) (held : get db.events s ≡ some v)
      (reads : decode_queued_event json v ≡ ok (e, length v - 8)) (c : IsConsistent db) where
    is_held : event_at db s ≡ some e
    is_held = rw (held, reads)

    found : lookup s (entries db.events) ≡ some v
    found = sym (get_lem db.events s) ∙ held

    -- The database without the event, whatever its identifier indexes have become.
    pub after_delete :
        (ids seqs m : Bucket) (count bytes : ℕ)
        → count ≡ (queue_meta db meta_count_key + 18446744073709551615) % two64
        → bytes ≡ (queue_meta db meta_bytes_key + (two64 - (length v - 8 + 1)) % two64) % two64
        → Counted db.meta count bytes m
        → IsIndexed (without s (event_at db)) (get ids) (get seqs)
        → IsConsistent (record db {
          events = delete db.events s;
          times = delete db.times (queue_time_key e.created_at s);
          event_ids = ids;
          event_seqs = seqs;
          meta = m;
        })
    unfolding queue_meta
    after_delete ids seqs m count bytes hc hb k i =
        let shorter = length-erase s v (entries db.events) found in
        let lighter = total-erase weight s v (entries db.events) found in
        record {
          counted =
              rw entries-delete (omega (arith, k.count_eq, hc, c.counted, c.count_fits, shorter));
          weighed =
              rw entries-delete (omega (arith, k.bytes_eq, hb, c.weighed, c.bytes_fit, lighter));
          count_fits = rw entries-delete (omega (arith, c.count_fits, shorter));
          bytes_fit = rw entries-delete (omega (arith, c.bytes_fit, lighter));
          next_fits = rw k.next_eq c.next_fits;
          fresh = λ j w p.
              let (n, below, eq) = c.fresh j w (ground (arith, get-delete db.events s j)) in
              (n, rw k.next_eq below, eq);
          readable = λ j w p. c.readable j w (ground (arith, get-delete db.events s j));
          is_timed =
              subst₂ IsTimed (fun_ext (λ j. sym (event_at-delete db s j)))
                (fun_ext (λ j. sym (get-delete db.times (queue_time_key e.created_at s) j)))
                (without-IsTimed (event_at db) (get db.times) s e is_held c.is_timed);
          is_indexed =
              subst (λ f. IsIndexed f (get ids) (get seqs))
                (fun_ext (λ j. sym (event_at-delete db s j))) i;
        }

    abbrev removed : Bucket → Bucket → Db
    removed ids seqs = record db {
      events = delete db.events s;
      times = delete db.times (queue_time_key e.created_at s);
      event_ids = ids;
      event_seqs = seqs;
    }

    after_counters :
        (ids seqs : Bucket) (db' : Db)
        → increment_queue_meta 18446744073709551615
            ((two64 - (length v - 8 + 1)) % two64)
            (removed ids seqs)
          ≡ ok db'
        → IsIndexed (without s (event_at db)) (get ids) (get seqs)
        → Removed s db db'
    unfolding increment_queue_meta queue_meta
    after_counters ids seqs db' h i =
        let (m, eq, k) = write_counters-Counted _ _ _ db' h in
        subst (Removed s db) eq (record {
          consistent = after_delete ids seqs m _ _ refl refl k i;
          next_eq = k.next_eq;
          events_eq = get-delete db.events s;
          entries_eq = entries-delete db.events s;
          ledgers = record { quarantine = refl; delivered_ids = refl; delivered_times = refl };
        })

    -- The identifier goes with the event.
    pub delete_stored-Removed : (db' : Db) → delete_stored s true v db ≡ ok db' → Removed s db db'
    unfolding delete_stored unindex drop_time
    delete_stored-Removed db' h = elim (Bool-cases (is_empty e.event_id)) [
      | inl anonymous ↦
          after_counters db.event_ids db.event_seqs db'
            (rw (reads, seqs_anonymous (event_at db) _ _ s e is_held c.is_indexed anonymous) at h)
            (without-IsIndexed_anonymous (event_at db) _ _ s e is_held c.is_indexed anonymous)
      | inr named ↦
          after_counters (delete db.event_ids e.event_id) (delete db.event_seqs s) db'
            (rw
              (
                reads,
                c.is_indexed.by_seq s e is_held named,
                c.is_indexed.by_id s e is_held named,
                bytes_eq_refl s,
              )
              at h)
            (subst₂ (IsIndexed (without s (event_at db)))
              (fun_ext (λ j. sym (get-delete db.event_ids e.event_id j)))
              (fun_ext (λ j. sym (get-delete db.event_seqs s j)))
              (without-IsIndexed (event_at db) _ _ s e is_held c.is_indexed named))
    ]

  erase-absent : (s : Bytes) (l : Entries) → lookup s l ≡ none → erase s l ≡ l
  unfolding lookup erase
  erase-absent s [] h = refl
  erase-absent s ((j, v) ∷ l) h = elim (Bool-cases (bytes_eq j s)) [
    | inl same ↦ absurd (ground (arith, h))
    | inr other ↦ rw other (ap (λ (m : Entries). (j, v) ∷ m) (erase-absent s l (ground (arith, h))))
  ]

  not_held : (s : Bytes) (db : Db) → get db.events s ≡ none → IsConsistent db → Removed s db db
  not_held s db missing c = record {
    consistent = c;
    next_eq = refl;
    events_eq = λ j. ground (arith, bytes_eq_iff s j);
    entries_eq = sym (erase-absent s (entries db.events) (sym (get_lem db.events s) ∙ missing));
    ledgers = record { quarantine = refl; delivered_ids = refl; delivered_times = refl };
  }

  -- A deletion that succeeds on a consistent database, of whatever sequence, leaves a consistent
  -- one: the record under the sequence is gone, and the other records, the counter of sequences and
  -- what was delivered or quarantined are unchanged.
  pub delete_queued_event-Removed :
      (s : Bytes) (db db' : Db)
      → IsConsistent db
      → delete_queued_event s true db ≡ ok db'
      → Removed s db db'
  unfolding delete_queued_event
  delete_queued_event-Removed s db db' c h = elim (Option-cases (get db.events s)) [
    | inl missing ↦
        let same : ok db ≡ ok db' = rw (missing, delete_queued_event) at h in
        subst (Removed s db) (ok_inj same) (not_held s db missing c)
    | inr (v, held) ↦
        let (e, reads) = c.readable s v held in
        delete_stored-Removed db s v e held reads c db' (rw (held, delete_queued_event) at h)
  ]
