-- ===== src/Queue/Consistent/Insert.antt =====
-- Adding an event under the next sequence keeps the database consistent.
use mathlib.Core.Path.{subst₂, fun_ext}
use native.Mathlib.Nat.{mod-eq_of_lt}
use gesta_agent.Prelude.{
  ℕ, ◌+◌, ◌-◌, ◌%◌, ◌<◌, ◌≡◌, refl, sym, ap, subst, ◌∙◌, inl, inr, true, false, [], ◌∷◌, none, some,
  arith, length, length-append, drop-append, Bool-cases, Option-cases, some_inj,
}
use gesta_agent.Bytes.{Bytes, bytes_eq, bytes_eq_iff}
use gesta_agent.Bytes.Endian.{two64, big_endian, length-big_endian}
use gesta_agent.SortedMap.{lookup, insert}
use gesta_agent.SortedMap.Laws.{total-insert, length-insert}
use gesta_agent.Model.{EventEnvelope}
use gesta_agent.Bolt.{Bolt, EventJson, read_back}
use gesta_agent.Queue.Codec.{
  ok, or_fail, two63, encode_uint64, encode_queued_event, decode_queued_event, queue_time_key,
  is_empty, unix_nano,
}
use gesta_agent.Queue.Codec.Keys.{encode_uint64_inj, length-encode_uint64}
use gesta_agent.Queue.Database.{
  Db, meta_count_key, meta_bytes_key, meta_next_key, queue_meta, put_in, next_queue_sequence,
  increment_queue_meta,
}
use gesta_agent.Queue.Database.Counters.{
  Counted, write_counters-Counted, >>=-eq-ok, >>=-elim, or_fail-eq-ok, ok_inj, get-put, Sequenced,
  next_queue_sequence-Sequenced,
}
use gesta_agent.Queue.Store.{index_event, insert_new}
use gesta_agent.Queue.Views.{
  IsTimed, IsIndexed, updated, updated-IsTimed, updated-IsIndexed, updated-IsIndexed_anonymous,
}
use gesta_agent.Queue.Consistent.{weight, event_at, read_event, IsConsistent, Added}

-- The record of an event that json.Marshal encodes is read back as what encoding/json makes of the
-- event, and the length of its text.
pub decode_queued_event-encode_queued_event :
    (json : EventJson) (e : EventEnvelope) (s : Bytes)
    → json.marshal e ≡ some s
    → decode_queued_event json (encode_queued_event e.created_at s)
      ≡ ok (read_back json e, length s)
unfolding decode_queued_event encode_queued_event
decode_queued_event-encode_queued_event json e s h =
    rw
      (
        drop-append 8 (big_endian 8 (unix_nano e.created_at)) s (length-big_endian 8 _),
        json.unmarshal-marshal e s h,
      )
      (ground (
        arith,
        length-append (big_endian 8 (unix_nano e.created_at)) s,
        length-big_endian 8 (unix_nano e.created_at),
      ))

weight-encode_queued_event : (t : ℕ) (s : Bytes) → weight (encode_queued_event t s) ≡ length s + 1
unfolding encode_queued_event
weight-encode_queued_event t s =
    omega (arith, length-append (big_endian 8 (unix_nano t)) s, length-big_endian 8 (unix_nano t))

module _ ⦃bolt : Bolt⦄ ⦃json : EventJson⦄ where
  open bolt use {Bucket, entries, get, put, get_lem, entries-put, put_storable}

  module _ (db : Db) (c : IsConsistent db) (room : queue_meta db meta_next_key + 1 < two64) where
    next : Bytes
    next = encode_uint64 (queue_meta db meta_next_key + 1)

    next_lem : encode_uint64 ((queue_meta db meta_next_key + 1) % two64) ≡ next
    unfolding next
    next_lem = rw (mod-eq_of_lt room)

    -- No event has the next sequence yet.
    next_free : get db.events next ≡ none
    unfolding next
    next_free = elim (Option-cases (get db.events next)) [
      | inl missing ↦ missing
      | inr (v, held) ↦
          let (n, below, eq) = c.fresh next v held in
          absurd (
            omega
              (arith, encode_uint64_inj (queue_meta db meta_next_key + 1) n room (omega arith) eq))
    ]

    module _ (e : EventEnvelope) (encoded : Bytes) (marshalled : json.marshal e ≡ some encoded)
        (events times : Bucket)
        (put_event : put_in db.events next (encode_queued_event e.created_at encoded) ≡ ok events)
        (put_time : put_in db.times (queue_time_key e.created_at next) [] ≡ ok times) where
      event_at-put :
          (j : Bytes) → read_event (get events j) ≡ updated next (read_back json e) (event_at db) j
      event_at-put j = elim (Bool-cases (bytes_eq next j)) [
        | inl same ↦ rw (
          get-put db.events events next _ j put_event,
          same,
          decode_queued_event-encode_queued_event json e encoded marshalled,
        )
        | inr other ↦ rw (get-put db.events events next _ j put_event, other)
      ]

      abbrev stored : Bytes
      stored = encode_queued_event e.created_at encoded

      entries-events : entries events ≡ insert next stored (entries db.events)
      entries-events =
          entries-put db.events next stored events
            (or_fail-eq-ok (put db.events next stored) _ put_event)

      absent : lookup next (entries db.events) ≡ none
      absent = sym (get_lem db.events next) ∙ next_free

      encoded_fits : length encoded < two63
      encoded_fits =
          let small =
            put_storable db.events next stored events
              (or_fail-eq-ok (put db.events next stored) _ put_event) in
          omega (arith, weight-encode_queued_event e.created_at encoded, small.2)

      old_entry :
          (j w : Bytes) → bytes_eq next j ≡ false → get events j ≡ some w → get db.events j ≡ some w
      old_entry j w other p = rw (get-put db.events events next stored j put_event, other) at p

      new_reads :
          (j w : Bytes)
          → bytes_eq next j ≡ true
          → get events j ≡ some w
          → decode_queued_event json w ≡ ok (read_back json e, length w - 8)
      new_reads j w same p =
          let w' : stored ≡ w =
            some_inj (rw (get-put db.events events next stored j put_event, same) at p) in
          rw (← w', decode_queued_event-encode_queued_event json e encoded marshalled)
            (ap (λ (n : ℕ). ok (read_back json e, n))
              (omega (arith, weight-encode_queued_event e.created_at encoded)))

      after_insert :
          (ids seqs m m' : Bucket) (count bytes : ℕ)
          → Sequenced db m
          → count ≡ (queue_meta db meta_count_key + 1) % two64
          → bytes ≡ (queue_meta db meta_bytes_key + (length encoded + 1) % two64) % two64
          → Counted m count bytes m'
          → IsIndexed (updated next (read_back json e) (event_at db)) (get ids) (get seqs)
          → IsConsistent (record db {
            events = events;
            times = times;
            event_ids = ids;
            event_seqs = seqs;
            meta = m';
          })
      unfolding queue_meta next
      after_insert ids seqs m m' count bytes q hc hb k i =
          let longer = length-insert next stored (entries db.events) absent in
          let heavier = total-insert weight next stored (entries db.events) absent in
          let weighs = weight-encode_queued_event e.created_at encoded in
          record {
            counted =
                rw entries-events (omega (arith, k.count_eq, hc, c.counted, c.count_fits, longer));
            weighed = rw entries-events (
                omega
                  (arith, k.bytes_eq, hb, c.weighed, c.bytes_fit, heavier, weighs, encoded_fits));
            count_fits =
                rw entries-events
                  (omega (arith, k.count_fits, hc, c.counted, c.count_fits, longer));
            bytes_fit = rw entries-events (
                omega
                  (arith, k.bytes_fits, hb, c.weighed, c.bytes_fit, heavier, weighs, encoded_fits));
            next_fits = omega (arith, k.next_eq, q.next_eq, room);
            fresh = λ j w p. elim (Bool-cases (bytes_eq next j)) [
              | inl same ↦ (
                queue_meta db meta_next_key + 1,
                omega (arith, k.next_eq, q.next_eq, room),
                sym ((bytes_eq_iff next j).0 same),
              )
              | inr other ↦
                  let (n, below, eq) = c.fresh j w (old_entry j w other p) in
                  (n, omega (arith, k.next_eq, q.next_eq, room, below), eq)
            ];
            readable = λ j w p. elim (Bool-cases (bytes_eq next j)) [
              | inl same ↦ (read_back json e, new_reads j w same p)
              | inr other ↦ c.readable j w (old_entry j w other p)
            ];
            is_timed =
                subst₂ IsTimed (fun_ext (λ j. sym (event_at-put j)))
                  (fun_ext (λ j. sym (get-put db.times times _ _ j put_time)))
                  (updated-IsTimed (event_at db) (get db.times) next (read_back json e)
                    (rw next_free) (length-encode_uint64 _) c.is_timed);
            is_indexed =
                subst (λ f. IsIndexed f (get ids) (get seqs)) (fun_ext (λ j. sym (event_at-put j)))
                  i;
          }

      abbrev added : Bucket → Bucket → Bucket → Db
      added ids seqs m = record db {
        events = events;
        times = times;
        event_ids = ids;
        event_seqs = seqs;
        meta = m;
      }

      after_counters :
          (ids seqs m : Bucket) (db' : Db)
          → Sequenced db m
          → increment_queue_meta 1 ((length encoded + 1) % two64) (added ids seqs m) ≡ ok db'
          → IsIndexed (updated next (read_back json e) (event_at db)) (get ids) (get seqs)
          → Added e db db'
      unfolding increment_queue_meta queue_meta next
      after_counters ids seqs m db' q h i =
          let (m', eq, k) = write_counters-Counted _ _ _ db' h in
          subst (Added e db) eq (record {
            consistent =
                after_insert ids seqs m m' _ _ q (ap (λ (n : ℕ). (n + 1) % two64) q.count_eq)
                  (ap (λ (n : ℕ). (n + (length encoded + 1) % two64) % two64) q.bytes_eq) k i;
            next_eq = omega (arith, k.next_eq, q.next_eq, room);
            events_eq = event_at-put;
            ledgers = record { quarantine = refl; delivered_ids = refl; delivered_times = refl };
          })

      -- The identifier indexes of the new event, whose identifier is not queued.
      after_index :
          (id : Bytes) (m : Bucket) (db₂ db' : Db)
          → id ≡ e.event_id
          → (is_empty id ≡ false → get db.event_ids id ≡ none)
          → Sequenced db m
          → index_event id next (added db.event_ids db.event_seqs m) ≡ ok db₂
          → increment_queue_meta 1 ((length encoded + 1) % two64) db₂ ≡ ok db'
          → Added e db db'
      unfolding index_event
      after_index [] m db₂ db' same new q h h' =
          after_counters db.event_ids db.event_seqs m db' q (rw (← ok_inj h) at h') (
            updated-IsIndexed_anonymous (event_at db) _ _ next (read_back json e) (rw next_free)
              c.is_indexed (rw (← same)))
      after_index (b ∷ bs) m db₂ db' same new q h h' =
          let (ids, put_id, rest) = >>=-eq-ok (put_in db.event_ids (b ∷ bs) next) _ h in
          let (seqs, put_seq, last) = >>=-eq-ok (put_in db.event_seqs next (b ∷ bs)) _ rest in
          after_counters ids seqs m db' q (rw (← ok_inj last) at h') (
            subst₂ (IsIndexed (updated next (read_back json e) (event_at db)))
              (fun_ext (λ j. sym (get-put db.event_ids ids (b ∷ bs) next j put_id)))
              (fun_ext (λ j. sym (get-put db.event_seqs seqs next (b ∷ bs) j put_seq)))
              (rw same (
                updated-IsIndexed (event_at db) _ _ next (read_back json e) (rw next_free)
                  c.is_indexed (rw (← same)) (rw (← same) (new refl)))))

    pub insert_new-Added :
        (e : EventEnvelope) (db' : Db)
        → (is_empty e.event_id ≡ false → get db.event_ids e.event_id ≡ none)
        → insert_new e db ≡ ok db'
        → Added e db db'
    unfolding insert_new
    insert_new-Added e db' new h =
        >>=-elim (or_fail (json.marshal e) _) _ h λ encoded marshalled h₁.
          >>=-elim (next_queue_sequence db) _ h₁ λ r sequenced h₂.
            let (m, eq, q) = next_queue_sequence-Sequenced db r sequenced in
            >>=-elim (put_in db.events next (encode_queued_event e.created_at encoded)) _
              (rw (eq, next_lem) at h₂)
              λ events put_event h₃.
                >>=-elim (put_in db.times (queue_time_key e.created_at next) []) _ h₃
                  λ times put_time h₄.
                    >>=-elim (index_event e.event_id next _) _ h₄ λ db₂ indexed h₅.
                      after_index e encoded (or_fail-eq-ok _ _ marshalled) events times put_event
                        put_time e.event_id m db₂ db' refl new q indexed h₅
