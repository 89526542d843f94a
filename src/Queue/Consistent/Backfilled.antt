-- ===== src/Queue/Consistent/Backfilled.antt =====
-- queue_index.go, backfillQueuedEventIDs: the identifier index of a database from before there was
-- one.
use mathlib.Core.Path.{subst₂, fun_ext}
use gesta_agent.Prelude.{
  ◌≡◌, refl, sym, ap, subst, ◌∙◌, inl, inr, false, [], ◌∷◌, Option, none, some, length, ℕ, ◌-◌, ◌<◌,
  ◌≤◌, Bool-cases, Option-cases, none_ne_some,
}
use gesta_agent.Bytes.{Bytes, bytes_eq, bytes_eq_iff}
use gesta_agent.Bytes.Endian.{two64}
use gesta_agent.SortedMap.{Entries, IsSorted, lookup, total}
use gesta_agent.SortedMap.Laws.{lookup_first}
use gesta_agent.SortedMap.Order.{lookup-Above, lookup-cons}
use gesta_agent.Model.{EventEnvelope}
use gesta_agent.Bolt.{Bolt, EventJson}
use gesta_agent.Queue.Codec.{
  Result, ok, err, ◌>>=◌, two63, is_empty, decode_queued_event, encode_uint64,
}
use gesta_agent.Queue.Database.{
  Db, meta_next_key, meta_count_key, meta_bytes_key, meta_event_ids_key, queue_meta, put_in,
}
use gesta_agent.Queue.Database.Counters.{>>=-elim, ok_inj, get-put}
use gesta_agent.Queue.Store.{index_event, backfill_events, backfill_queued_event_ids}
use gesta_agent.Queue.Append.{open_queue, update}
use gesta_agent.Queue.Views.{
  Events, IsTimed, IsIndexed, updated, updated-IsIndexed, updated-IsIndexed_anonymous,
}
use gesta_agent.Queue.Consistent.{IsConsistent, event_at, read_event, event_of, weight}
use gesta_agent.Queue.Consistent.Opened.{Reindexed, reindex, versioned}

-- A database whose identifier index was never built: its counters and its time index are right, its
-- version is that of no index, the two buckets of identifiers are empty, and no two of the queued
-- events have one identifier.
pub record IsUnindexed ⦃bolt : Bolt⦄ ⦃json : EventJson⦄ (db : Db) : Type 0 where
  pub counted : queue_meta db meta_count_key ≡ length (bolt.entries db.events)
  pub weighed : queue_meta db meta_bytes_key ≡ total weight (bolt.entries db.events)
  pub count_fits : length (bolt.entries db.events) < two63
  pub bytes_fit : total weight (bolt.entries db.events) < two63
  pub next_fits : queue_meta db meta_next_key < two64
  pub fresh :
      (s v : Bytes)
      → bolt.get db.events s ≡ some v
      → (n : ℕ) × (n ≤ queue_meta db meta_next_key) × (s ≡ encode_uint64 n)
  pub readable :
      (s v : Bytes)
      → bolt.get db.events s ≡ some v
      → (e : EventEnvelope) × (decode_queued_event json v ≡ ok (e, length v - 8))
  pub is_timed : IsTimed (event_at db) (bolt.get db.times)
  pub no_version : queue_meta db meta_event_ids_key ≡ 0
  pub no_ids : (i : Bytes) → bolt.get db.event_ids i ≡ none
  pub no_seqs : (s : Bytes) → bolt.get db.event_seqs s ≡ none
  pub distinct :
      (s t : Bytes) (e f : EventEnvelope)
      → event_at db s ≡ some e
      → event_at db t ≡ some f
      → is_empty e.event_id ≡ false
      → e.event_id ≡ f.event_id
      → s ≡ t

module _ ⦃bolt : Bolt⦄ ⦃json : EventJson⦄ where
  open bolt use {Bucket, entries, get, get_lem, entries-IsSorted}

  -- With the identifier index the database is consistent.
  with_index :
      (db : Db) (ids seqs : Bucket)
      → IsUnindexed db
      → IsIndexed (event_at db) (get ids) (get seqs)
      → IsConsistent (record db { event_ids = ids; event_seqs = seqs })
  unfolding queue_meta
  with_index db ids seqs u i = record {
    counted = u.counted;
    weighed = u.weighed;
    count_fits = u.count_fits;
    bytes_fit = u.bytes_fit;
    next_fits = u.next_fits;
    fresh = u.fresh;
    readable = u.readable;
    is_timed = u.is_timed;
    is_indexed = i;
  }

  -- The events of which the walk `l` is not yet to come.
  abbrev walked : Option Bytes → Option EventEnvelope → Option EventEnvelope
  walked none o = o
  walked (some v) o = none

  abbrev before : Entries → Events → Events
  before l events s = walked (lookup s l) (events s)

  before-cons :
      (s v : Bytes) (l : Entries) (events : Events) (e : EventEnvelope)
      → IsSorted ((s, v) ∷ l)
      → events s ≡ some e
      → (j : Bytes) → before l events j ≡ updated s e (before ((s, v) ∷ l) events) j
  unfolding lookup
  before-cons s v l events e sorted held j = elim (Bool-cases (bytes_eq s j)) [
    | inl same ↦
        let at_j : s ≡ j = (bytes_eq_iff s j).0 same in
        let later : lookup j l ≡ none =
          subst (λ (i : Bytes). lookup i l ≡ none) at_j (lookup-Above s l sorted.1 sorted.0) in
        rw (later, same) (ap events (sym at_j) ∙ held)
    | inr other ↦ rw other refl
  ]

  before-first : (s v : Bytes) (l : Entries) (events : Events) → before ((s, v) ∷ l) events s ≡ none
  before-first s v l events = rw (lookup_first s v l) refl

  -- What the walk has indexed holds, and so it does after one event more.
  module _ (db : Db) (u : IsUnindexed db) where
    abbrev Indexed : Entries → Bucket → Bucket → Type 0
    Indexed l ids seqs = IsIndexed (before l (event_at db)) (get ids) (get seqs)

    abbrev indexed : Bucket → Bucket → Db
    indexed ids seqs = record db { event_ids = ids; event_seqs = seqs }

    held_before :
        (l : Entries) (s : Bytes) (e : EventEnvelope)
        → before l (event_at db) s ≡ some e
        → event_at db s ≡ some e
    held_before l s e h = elim (Option-cases (lookup s l)) [
      | inl missing ↦ rw missing at h
      | inr (v, found) ↦ absurd (none_ne_some (rw found at h))
    ]

    free :
        (s v : Bytes) (l : Entries) (e : EventEnvelope) (ids seqs : Bucket)
        → event_at db s ≡ some e
        → is_empty e.event_id ≡ false
        → Indexed ((s, v) ∷ l) ids seqs
        → get ids e.event_id ≡ none
    free s v l e ids seqs held named i = elim (Option-cases (get ids e.event_id)) [
      | inl missing ↦ missing
      | inr (t, found) ↦
          let (f, seen, same, some_id) = i.id_sound e.event_id t found in
          let one : s ≡ t =
            u.distinct s t e f held (held_before ((s, v) ∷ l) t f seen) named (sym same) in
          absurd (
            none_ne_some (
              sym (before-first s v l (event_at db))
              ∙ ap (before ((s, v) ∷ l) (event_at db)) one
              ∙ seen))
    ]

    index_event-Indexed :
        (s v : Bytes) (l : Entries) (e : EventEnvelope) (id : Bytes) (ids seqs : Bucket) (db' : Db)
        → IsSorted ((s, v) ∷ l)
        → event_at db s ≡ some e
        → id ≡ e.event_id
        → Indexed ((s, v) ∷ l) ids seqs
        → index_event id s (indexed ids seqs) ≡ ok db'
        → (ids' seqs' : Bucket) × (indexed ids' seqs' ≡ db') × Indexed l ids' seqs'
    unfolding index_event
    index_event-Indexed s v l e [] ids seqs db' sorted held same i h = (
      ids,
      seqs,
      ok_inj h,
      subst (λ (f : Events). IsIndexed f (get ids) (get seqs))
          (fun_ext (λ j. sym (before-cons s v l (event_at db) e sorted held j)))
          (updated-IsIndexed_anonymous (before ((s, v) ∷ l) (event_at db)) (get ids) (get seqs) s e
            (before-first s v l (event_at db)) i (rw (← same) refl)),
    )
    index_event-Indexed s v l e (b ∷ bs) ids seqs db' sorted held same i h =
        let named : is_empty e.event_id ≡ false = rw (← same) refl in
        let more =
          updated-IsIndexed (before ((s, v) ∷ l) (event_at db)) (get ids) (get seqs) s e
            (before-first s v l (event_at db)) i named (free s v l e ids seqs held named i) in
        >>=-elim (put_in ids (b ∷ bs) s) _ h λ ids' put_id h₁.
          >>=-elim (put_in seqs s (b ∷ bs)) _ h₁ λ seqs' put_seq last. (
            ids',
            seqs',
            ok_inj last,
            subst (λ (f : Events). IsIndexed f (get ids') (get seqs'))
                (fun_ext (λ j. sym (before-cons s v l (event_at db) e sorted held j)))
                (subst₂ (IsIndexed (updated s e (before ((s, v) ∷ l) (event_at db))))
                  (fun_ext (λ j. sym (rw (← same) (get-put ids ids' (b ∷ bs) s j put_id))))
                  (fun_ext (λ j. sym (rw (← same) (get-put seqs seqs' s (b ∷ bs) j put_seq))))
                  more),
          )

    -- The walk has visited what it does not have any more.
    abbrev Walks : Entries → Type 0
    Walks l = (s v : Bytes) → lookup s l ≡ some v → get db.events s ≡ some v

    backfill_events-Indexed :
        (l : Entries) (ids seqs : Bucket) (db' : Db)
        → IsSorted l
        → Walks l
        → Indexed l ids seqs
        → backfill_events l (indexed ids seqs) ≡ ok db'
        → (ids' seqs' : Bucket) × (indexed ids' seqs' ≡ db')
          × IsIndexed (event_at db) (get ids') (get seqs')
    unfolding backfill_events lookup
    backfill_events-Indexed [] ids seqs db' sorted walks i h = (ids, seqs, ok_inj h, i)
    backfill_events-Indexed ((s, v) ∷ l) ids seqs db' sorted walks i h =
        let found = walks s v (lookup_first s v l) in
        >>=-elim (decode_queued_event json v) _ h λ r reads h₁.
          >>=-elim (index_event r.0.event_id s (indexed ids seqs)) _ h₁ λ db₁ done h₂.
            let held : event_at db s ≡ some r.0 = ap read_event found ∙ ap event_of reads in
            let (ids', seqs', same, more) =
              index_event-Indexed s v l r.0 r.0.event_id ids seqs db₁ sorted held refl i done in
            backfill_events-Indexed l ids' seqs' db' sorted.1
              (λ t w p. walks t w (lookup-cons s v t w l sorted p)) more
              (subst (λ (d : Db). backfill_events l d ≡ ok db') (sym same) h₂)

    -- Before the walk nothing is indexed.
    none-Indexed : Indexed (entries db.events) db.event_ids db.event_seqs
    none-Indexed = record {
      by_id = λ s e p n. absurd (none_ne_some (sym (none_before s) ∙ p));
      by_seq = λ s e p n. absurd (none_ne_some (sym (none_before s) ∙ p));
      id_sound = λ i s p. absurd (none_ne_some (sym (u.no_ids i) ∙ p));
      seq_sound = λ s i p. absurd (none_ne_some (sym (u.no_seqs s) ∙ p));
    }
      where
        none_before : (s : Bytes) → before (entries db.events) (event_at db) s ≡ none
        none_before s = elim (Option-cases (lookup s (entries db.events))) [
          | inl missing ↦ rw missing (ap read_event (get_lem db.events s ∙ missing))
          | inr (v, found) ↦ rw found refl
        ]

  -- The database with an index, and the same events and deliveries.
  pub record Backfilled (db db' : Db) : Type 0 where
    pub consistent : IsConsistent db'
    pub events_eq : db'.events ≡ db.events
    pub next_eq : queue_meta db' meta_next_key ≡ queue_meta db meta_next_key

  backfill_queued_event_ids-Backfilled :
      (db db' : Db) → IsUnindexed db → backfill_queued_event_ids db ≡ ok db' → Backfilled db db'
  unfolding backfill_queued_event_ids
  backfill_queued_event_ids-Backfilled db db' u h =
      >>=-elim (backfill_events (entries db.events) db) _
        (rw (u.no_version, backfill_queued_event_ids) at h)
        λ db₁ filled h₁.
          let (ids, seqs, same, i) =
            backfill_events-Indexed db u (entries db.events) db.event_ids db.event_seqs db₁
              (entries-IsSorted db.events) (λ s v p. get_lem db.events s ∙ p) (none-Indexed db u)
              filled in
          >>=-elim (put_in db₁.meta meta_event_ids_key (encode_uint64 1)) _ h₁ λ m put_version last.
            let c = with_index db ids seqs u i in
            let r =
              reindex (record db { event_ids = ids; event_seqs = seqs }) ids seqs c (λ j. refl)
                (λ j. refl) in
            let v = versioned _ db₁ m (subst (Reindexed _) same r) put_version in
            let b : Backfilled db (record db₁ { meta = m }) = record {
              consistent = v.consistent;
              events_eq = v.events_eq;
              next_eq = next_kept db ids seqs _ v.next_eq;
            } in
            subst (Backfilled db) (ok_inj last) b
    where
      next_kept :
          (d : Db) (ids seqs : Bucket) (n : ℕ)
          → n ≡ queue_meta (record d { event_ids = ids; event_seqs = seqs }) meta_next_key
          → n ≡ queue_meta d meta_next_key
      next_kept d ids seqs n p = unfold queue_meta in p

  -- What opening leaves of a database that has no index: on an error the database.
  abbrev pub OpenOutcome : Db → Result (Unit {0}) → Db → Type 0
  OpenOutcome db (err e) after = after ≡ db
  OpenOutcome db (ok u) after = Backfilled db after

  -- Opening a database whose identifier index was never built, and in which no two queued events
  -- have one identifier, builds the index: where it succeeds, the database is consistent, with the
  -- same events and the same counter of sequences, and where it fails the database is as before.
  pub open_queue-OpenOutcome :
      (db : Db)
      → IsUnindexed db
      → let (result, after) = open_queue db in OpenOutcome db result after
  unfolding open_queue
  open_queue-OpenOutcome db u = go (backfill_queued_event_ids db) refl
    where
      go :
          (r : Result Db)
          → backfill_queued_event_ids db ≡ r
          → let (result, after) = update {0, 0} (λ (d : Db). r >>= λ d'. ok (tt, d')) db in
            OpenOutcome db result after
      go (err e) p = refl
      go (ok db') p = backfill_queued_event_ids-Backfilled db db' u p
