-- ===== src/Queue/Consistent/Total.antt =====
-- A deletion from a consistent database never fails, and leaves the time index alone if told to.
use gesta_agent.Prelude.{
  ℕ, ◌+◌, ◌-◌, ◌%◌, ◌<◌, ◌≡◌, refl, sym, ap, ◌∙◌, inl, inr, true, false, Bool, Option, none, some,
  arith, length, Option-cases,
}
use gesta_agent.Bytes.{Bytes}
use gesta_agent.Bytes.Endian.{two64}
use gesta_agent.SortedMap.Laws.{total-erase, length-erase}
use gesta_agent.Bolt.{Bolt, EventJson}
use gesta_agent.Queue.Codec.{ok, two63, encode_uint64, decode_queued_event, queue_time_key}
use gesta_agent.Queue.Codec.Keys.{length-encode_uint64}
use gesta_agent.Queue.Database.{
  Db, meta_count_key, meta_bytes_key, queue_meta, write_counters, increment_queue_meta,
}
use gesta_agent.Queue.Database.Counters.{>>=-elim, ok_inj, write_counters-Counted}
use gesta_agent.Queue.Store.{delete_queued_event, delete_stored, drop_time, unindex}
use gesta_agent.Queue.Consistent.{IsConsistent, weight}

module _ ⦃bolt : Bolt⦄ where
  open bolt use {Bucket, entries, get, put, delete, get_lem, put_total}

  write_counters-total :
      (count bytes : ℕ) (db : Db)
      → count < two63
      → bytes < two63
      → (db' : Db) × (write_counters count bytes db ≡ ok db')
  unfolding write_counters
  write_counters-total count bytes db hc hb =
      let (m, p) =
        put_total db.meta meta_count_key (encode_uint64 count)
          (omega (arith, length-encode_uint64 count)) in
      let (m', q) =
        put_total m meta_bytes_key (encode_uint64 bytes)
          (omega (arith, length-encode_uint64 bytes)) in
      (record db { meta = m' }, ground arith)

module _ ⦃bolt : Bolt⦄ ⦃json : EventJson⦄ where
  open bolt use {Bucket, entries, get, put, delete, get_lem}

  meta-unindex :
      (s : Bytes) (o : Option Bytes) (flag : Bool) (key : Bytes) (db : Db)
      → (unindex s o (drop_time flag key db)).meta ≡ db.meta
  unfolding unindex drop_time
  meta-unindex s none false key db = refl
  meta-unindex s none true key db = refl
  meta-unindex s (some id) false key db = refl
  meta-unindex s (some id) true key db = refl

  times-unindex : (s : Bytes) (o : Option Bytes) (db : Db) → (unindex s o db).times ≡ db.times
  unfolding unindex
  times-unindex s none db = refl
  times-unindex s (some id) db = refl

  increment_queue_meta-total :
      (cd bd : ℕ) (db d : Db)
      → d.meta ≡ db.meta
      → (queue_meta db meta_count_key + cd) % two64 < two63
      → (queue_meta db meta_bytes_key + bd) % two64 < two63
      → (db' : Db) × (increment_queue_meta cd bd d ≡ ok db')
  unfolding increment_queue_meta queue_meta
  increment_queue_meta-total cd bd db d same hc hb =
      write_counters-total _ _ d (rw same hc) (rw same hb)

  -- On a consistent database a deletion does not fail, whatever the sequence, and with or without
  -- the removal of the time key.
  pub delete_queued_event-total :
      (s : Bytes) (flag : Bool) (db : Db)
      → IsConsistent db
      → (db' : Db) × (delete_queued_event s flag db ≡ ok db')
  unfolding delete_queued_event delete_stored
  delete_queued_event-total s flag db c = elim (Option-cases (get db.events s)) [
    | inl missing ↦ (db, rw (missing, delete_queued_event))
    | inr (v, stored) ↦
        let (e, reads) = c.readable s v stored in
        let found = sym (get_lem db.events s) ∙ stored in
        let lighter = total-erase weight s v (entries db.events) found in
        let shorter = length-erase s v (entries db.events) found in
        let (db', done) =
          increment_queue_meta-total 18446744073709551615 ((two64 - (length v - 8 + 1)) % two64) db
            (record (unindex s (get db.event_seqs s)
              (drop_time flag (queue_time_key e.created_at s) db)) { events = delete db.events s })
            (meta-unindex s (get db.event_seqs s) flag (queue_time_key e.created_at s) db)
            (omega (arith, c.counted, c.count_fits, shorter))
            (omega (arith, c.weighed, c.bytes_fit, lighter)) in
        (db', rw (stored, delete_queued_event) (rw (reads, delete_stored) done))
  ]

  pub delete_queued_event-times :
      (s : Bytes) (db db' : Db) → delete_queued_event s false db ≡ ok db' → db'.times ≡ db.times
  unfolding delete_queued_event delete_stored drop_time increment_queue_meta
  delete_queued_event-times s db db' h = elim (Option-cases (get db.events s)) [
    | inl missing ↦ ap (λ (d : Db). d.times) (sym (ok_inj (rw (missing, delete_queued_event) at h)))
    | inr (v, stored) ↦
        >>=-elim (decode_queued_event json v) _ (rw (stored, delete_queued_event) at h)
          λ r reads h₁.
            let (m, eq, k) = write_counters-Counted _ _ _ db' h₁ in
            ap (λ (d : Db). d.times) (sym eq) ∙ times-unindex s (get db.event_seqs s) db
  ]
