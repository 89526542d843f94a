-- ===== src/Queue/Consistent/Retained.antt =====
-- The loops that drop the oldest events, and what a consistent database makes of one round.
use gesta_agent.Prelude.{
  ℕ, zero, suc, ◌+◌, ◌-◌, ◌≡◌, refl, ap, ◌∙◌, inl, inr, true, [], ◌∷◌, none, some, arith, length,
  drop, Option-cases, some_inj,
}
use gesta_agent.Bytes.{Bytes, bytes_eq_iff}
use gesta_agent.SortedMap.{Entries, lookup, erase}
use gesta_agent.SortedMap.Laws.{lookup_first}
use gesta_agent.Model.{EventEnvelope}
use gesta_agent.Bolt.{Bolt, EventJson}
use gesta_agent.Queue.Codec.{ok, queue_time_key, decode_queue_time_key, decode_queued_event}
use gesta_agent.Queue.Codec.Keys.{decoded_time, decode_queue_time_key-queue_time_key}
use gesta_agent.Queue.Database.{Db}
use gesta_agent.Queue.Store.{delete_queued_event, delete_stored, drop_time}
use gesta_agent.Queue.Retention.{first_key, drop_first}
use gesta_agent.Queue.Consistent.{IsConsistent, Removed, event_at}
use gesta_agent.Queue.Consistent.Total.{delete_queued_event-total, delete_queued_event-times}
use gesta_agent.Queue.Consistent.Delete.{delete_queued_event-Removed}

module _ ⦃bolt : Bolt⦄ ⦃json : EventJson⦄ where
  open bolt use {Bucket, entries, get, delete, get_lem, entries-delete}

  first_key-lookup :
      (l : Entries) (k : Bytes) → first_key l ≡ some k → (v : Bytes) × (lookup k l ≡ some v)
  unfolding lookup
  first_key-lookup [] k h = cc
  first_key-lookup ((j, v) ∷ l) k h = (v, ground (arith, lookup_first j v l))

  -- The event that the first key of the time index names.
  pub record Oldest (db : Db) (key s : Bytes) (e : EventEnvelope) : Type 0 where
    pub held : event_at db s ≡ some e
    pub key_eq : key ≡ queue_time_key e.created_at s
    pub decodes : decode_queue_time_key key ≡ ok (decoded_time e.created_at, s)

  pub first_key-Oldest :
      (db : Db) (key : Bytes)
      → IsConsistent db
      → first_key (entries db.times) ≡ some key
      → (s : Bytes) × (e : EventEnvelope) × Oldest db key s e
  first_key-Oldest db key c h =
      let (v, found) = first_key-lookup (entries db.times) key h in
      let (s, e, held, eq) = c.is_timed.time_sound key v (get_lem db.times key ∙ found) in
      (
        s,
        e,
        record {
          held = held;
          key_eq = eq;
          decodes =
              ap decode_queue_time_key eq
              ∙ decode_queue_time_key-queue_time_key e.created_at s (c.is_timed.sized s e held);
        },
      )

  pub stored_event :
      (db : Db) (s : Bytes) (e : EventEnvelope)
      → IsConsistent db
      → event_at db s ≡ some e
      → (v : Bytes) × (get db.events s ≡ some v)
        × (decode_queued_event json v ≡ ok (e, length v - 8))
  stored_event db s e c held = elim (Option-cases (get db.events s)) [
    | inl missing ↦ let bad : none ≡ some e = rw missing at held in cc
    | inr (v, stored) ↦
        let (x, reads) = c.readable s v stored in
        let same : x ≡ e = some_inj (rw (stored, reads) at held) in (v, stored, rw same at reads)
  ]

  -- Taking the key first and the event after is one deletion.
  drop_first-delete :
      (db : Db) (s v : Bytes) (e : EventEnvelope) (n : ℕ)
      → get db.events s ≡ some v
      → decode_queued_event json v ≡ ok (e, n)
      → drop_first (queue_time_key e.created_at s) s db ≡ delete_queued_event s true db
  unfolding delete_queued_event delete_stored drop_time
  drop_first-delete db s v e n stored reads =
      rw (stored, drop_first, delete_queued_event) (rw (reads, delete_stored))

  -- One round of a loop that drops the oldest event.
  pub record Round (db : Db) (key : Bytes) : Type 0 where
    pub sequence : Bytes
    pub event : EventEnvelope
    pub after : Db
    pub oldest : Oldest db key sequence event
    pub runs : drop_first key sequence db ≡ ok after
    pub removed : Removed sequence db after
    pub times_eq : entries after.times ≡ drop 1 (entries db.times)

  pub erase-first : (l : Entries) (key : Bytes) → first_key l ≡ some key → erase key l ≡ drop 1 l
  unfolding erase
  erase-first [] key h = cc
  erase-first ((j, v) ∷ l) key h = ground (arith, bytes_eq_iff j key)

  pub first_key-Round :
      (db : Db) (key : Bytes)
      → IsConsistent db
      → first_key (entries db.times) ≡ some key
      → Round db key
  first_key-Round db key c h =
      let (s, e, o) = first_key-Oldest db key c h in
      let (v, stored, reads) = stored_event db s e c o.held in
      let (db', done) = delete_queued_event-total s true db c in
      let runs =
        ap (λ (k : Bytes). drop_first k s db) o.key_eq
        ∙ drop_first-delete db s v e _ stored reads
        ∙ done in
      record {
        sequence = s;
        event = e;
        after = db';
        oldest = o;
        runs = runs;
        removed = delete_queued_event-Removed s db db' c done;
        times_eq =
            ap entries
              (delete_queued_event-times s (record db { times = delete db.times key }) db' runs)
            ∙ entries-delete db.times key
            ∙ erase-first (entries db.times) key h;
      }

  pub length-drop_first :
      (l : Entries) (key : Bytes) → first_key l ≡ some key → length (drop 1 l) + 1 ≡ length l
  length-drop_first [] key h = cc
  length-drop_first ((j, v) ∷ l) key h = omega arith

  pub drop-drop_first : (n : ℕ) (l : Entries) → drop n (drop 1 l) ≡ drop (suc n) l
  drop-drop_first zero [] = refl
  drop-drop_first (suc n) [] = refl
  drop-drop_first n (x ∷ l) = refl
