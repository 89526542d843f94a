-- ===== src/Queue/Consistent/Halting.antt =====
-- Which errors the operations of the queue can end with. No operation but a loop on fuel can run out
-- of it, and the loops of queue_retention.go have enough.
use gesta_agent.Prelude.{
  ℕ, zero, suc, ◌<◌, ◌≡◌, ◌≢◌, refl, ap, ◌∙◌, inl, inr, Bool, true, false, [], ◌∷◌, Option, none,
  some, arith, length, ltb, if◌then◌else◌, Option-cases,
}
use gesta_agent.Bytes.{Bytes}
use gesta_agent.SortedMap.{Entries}
use gesta_agent.Bolt.{Bolt, EventJson}
use gesta_agent.Queue.Codec.{
  Error, Result, ok, err, ◌>>=◌, or_fail, out_of_fuel, bad_delivered_key, decode_delivered_time_key,
  decode_queued_event,
}
use gesta_agent.Queue.Database.{Db, increment_queue_meta, write_counters, put_in}
use gesta_agent.Queue.Store.{
  delete_queued_event, delete_stored, index_event, record_delivered_event_id, backfill_events,
  backfill_queued_event_ids,
}
use gesta_agent.Queue.Retention.{
  first_key, prune_delivered_event_ids, prune_delivered_loop, forget_delivered,
}
use gesta_agent.Queue.Consistent.Retained.{erase-first, length-drop_first}

-- Each error of the result satisfies the predicate.
unfoldable pub Fails {ℓ} : {A : Type ℓ} → (Error → Type 0) → Result A → Type 0
Fails P (err e) = P e
Fails P (ok a) = Unit {0}

abbrev pub NoFuelError : Error → Type 0
NoFuelError e = e ≢ out_of_fuel

-- The result is not that the fuel was too little.
abbrev pub Halts {ℓ} : {A : Type ℓ} → Result A → Type 0
Halts r = Fails NoFuelError r

pub Fails-err {ℓ} : (A : Type ℓ) (P : Error → Type 0) (e : Error) → P e → Fails {A = A} P (err e)
unfolding Fails
Fails-err A P e h = h

pub Fails-ok {ℓ} : {A : Type ℓ} (P : Error → Type 0) (a : A) → Fails P (ok a)
unfolding Fails
Fails-ok P a = tt

pub bind-Fails {ℓ κ} :
    {A : Type ℓ} {B : Type κ} (P : Error → Type 0) (m : Result A) (f : A → Result B)
    → Fails P m
    → ((a : A) → Fails P (f a))
    → Fails P (m >>= f)
unfolding Fails
bind-Fails P (err e) f h g = h
bind-Fails P (ok a) f h g = g a

pub or_fail-Fails {ℓ} :
    {A : Type ℓ} (P : Error → Type 0) (o : Option A) (e : Error) → P e → Fails P (or_fail o e)
unfolding Fails
or_fail-Fails P none e h = h
or_fail-Fails P (some a) e h = tt

pub if-Fails {ℓ} :
    {A : Type ℓ} (P : Error → Type 0) (b : Bool) (x y : Result A)
    → Fails P x
    → Fails P y
    → Fails P (if b then x else y)
if-Fails P true x y p q = p
if-Fails P false x y p q = q

pub decode_queued_event-Halts : (json : EventJson) (v : Bytes) → Halts (decode_queued_event json v)
unfolding decode_queued_event
decode_queued_event-Halts json v =
    if-Fails NoFuelError _ _ _ (Fails-err _ NoFuelError _ (λ x. cc)) (
      bind-Fails NoFuelError _ _ (or_fail-Fails NoFuelError _ _ (λ x. cc))
        (λ e. Fails-ok NoFuelError _))

module _ ⦃bolt : Bolt⦄ ⦃json : EventJson⦄ where
  open bolt use {entries, delete, entries-delete}

  pub put_in-Halts : (b : bolt.Bucket) (k v : Bytes) → Halts (put_in b k v)
  put_in-Halts b k v = or_fail-Fails NoFuelError (bolt.put b k v) _ (λ x. cc)

  pub increment_queue_meta-Halts : (n m : ℕ) (db : Db) → Halts (increment_queue_meta n m db)
  unfolding increment_queue_meta write_counters
  increment_queue_meta-Halts n m db =
      if-Fails NoFuelError _ _ _ (Fails-err _ NoFuelError _ (λ x. cc)) (
        bind-Fails NoFuelError _ _ (put_in-Halts db.meta _ _) λ meta.
          bind-Fails NoFuelError _ _ (put_in-Halts meta _ _) λ meta'. Fails-ok NoFuelError _)

  pub index_event-Halts : (id s : Bytes) (db : Db) → Halts (index_event id s db)
  unfolding index_event
  index_event-Halts [] s db = Fails-ok NoFuelError _
  index_event-Halts (b ∷ bs) s db =
      bind-Fails NoFuelError _ _ (put_in-Halts db.event_ids _ _) λ ids.
        bind-Fails NoFuelError _ _ (put_in-Halts db.event_seqs _ _) λ seqs. Fails-ok NoFuelError _

  pub record_delivered_event_id-Halts :
      (id : Bytes) (now : ℕ) (db : Db) → Halts (record_delivered_event_id id now db)
  unfolding record_delivered_event_id
  record_delivered_event_id-Halts id now db =
      bind-Fails NoFuelError _ _ (put_in-Halts db.delivered_ids _ _)
        λ ids. bind-Fails NoFuelError _ _ (put_in-Halts _ _ _) λ times. Fails-ok NoFuelError _

  -- Each turn of the loop deletes the key that it has read, so that the index gets shorter.
  forget_delivered-shorter :
      (key id : Bytes) (db : Db)
      → first_key (entries db.delivered_times) ≡ some key
      → suc (length (entries (forget_delivered key id db).delivered_times))
        ≡ length (entries db.delivered_times)
  unfolding forget_delivered
  forget_delivered-shorter key id db first =
      let gone : entries (delete db.delivered_times key) ≡ _ =
        entries-delete db.delivered_times key
        ∙ erase-first (entries db.delivered_times) key first in
      omega (arith, ap length gone, length-drop_first (entries db.delivered_times) key first)

  abbrev BadKey : Error → Type 0
  BadKey e = e ≡ bad_delivered_key

  decode_delivered_time_key-BadKey : (key : Bytes) → Fails BadKey (decode_delivered_time_key key)
  unfolding decode_delivered_time_key
  decode_delivered_time_key-BadKey key =
      if-Fails BadKey _ _ _ (Fails-err _ BadKey bad_delivered_key refl) (Fails-ok BadKey _)

  prune_delivered_loop-BadKey :
      (fuel limit : ℕ) (db : Db)
      → length (entries db.delivered_times) < fuel
      → Fails BadKey (prune_delivered_loop fuel limit db)
  unfolding prune_delivered_loop
  prune_delivered_loop-BadKey zero limit db h = absurd (omega arith)
  prune_delivered_loop-BadKey (suc fuel) limit db h =
      elim (Option-cases (first_key (entries db.delivered_times))) [
        | inl none_left ↦ rw (none_left, prune_delivered_loop) (Fails-ok BadKey _)
        | inr (key, first) ↦
            rw (first, prune_delivered_loop)
              (bind-Fails BadKey (decode_delivered_time_key key) _
                (decode_delivered_time_key-BadKey key)
                λ r.
                  if-Fails BadKey (ltb r.0 limit) _ _
                    (prune_delivered_loop-BadKey fuel limit (forget_delivered key r.1 db)
                      (omega (arith, forget_delivered-shorter key r.1 db first)))
                    (Fails-ok BadKey _))
      ]

  -- The loop over the deliveries ends with the fuel that it is given, on every database: its only
  -- error is that of a key too short to hold an identifier.
  pub prune_delivered_event_ids-BadKey :
      (limit : ℕ) (db : Db) → Fails BadKey (prune_delivered_event_ids limit db)
  unfolding prune_delivered_event_ids
  prune_delivered_event_ids-BadKey limit db =
      prune_delivered_loop-BadKey (suc (length (entries db.delivered_times))) limit db (omega arith)

  pub delete_queued_event-Halts :
      (s : Bytes) (timed : Bool) (db : Db) → Halts (delete_queued_event s timed db)
  unfolding delete_queued_event delete_stored
  delete_queued_event-Halts s timed db = elim (Option-cases (bolt.get db.events s)) [
    | inl missing ↦ rw (missing, delete_queued_event) (Fails-ok NoFuelError _)
    | inr (v, held) ↦
        rw (held, delete_queued_event)
          (bind-Fails NoFuelError (decode_queued_event json v) _ (decode_queued_event-Halts json v)
            λ r. increment_queue_meta-Halts _ _ _)
  ]

  backfill_events-Halts : (l : Entries) (db : Db) → Halts (backfill_events l db)
  unfolding backfill_events
  backfill_events-Halts [] db = Fails-ok NoFuelError _
  backfill_events-Halts ((s, v) ∷ l) db =
      bind-Fails NoFuelError (decode_queued_event json v) _ (decode_queued_event-Halts json v) λ r.
        bind-Fails NoFuelError (index_event r.0.event_id s db) _
          (index_event-Halts r.0.event_id s db) λ db₁. backfill_events-Halts l db₁

  pub backfill_queued_event_ids-Halts : (db : Db) → Halts (backfill_queued_event_ids db)
  unfolding backfill_queued_event_ids
  backfill_queued_event_ids-Halts db = if-Fails NoFuelError _ _ _ (Fails-ok NoFuelError _) (
      bind-Fails NoFuelError (backfill_events (entries db.events) db) _
        (backfill_events-Halts (entries db.events) db)
        λ db₁.
          bind-Fails NoFuelError (put_in db₁.meta _ _) _ (put_in-Halts db₁.meta _ _)
            λ m. Fails-ok NoFuelError _)
