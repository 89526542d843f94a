-- ===== src/Queue/Consistent/Pruned.antt =====
-- queue_retention.go, pruneExpired: exactly the events from before the limit go.
use native.Mathlib.Nat.{add-zero}
use gesta_agent.Prelude.{
  ℕ, zero, suc, ◌+◌, ◌<◌, ◌≡◌, refl, sym, ap, subst, ◌∙◌, inl, inr, true, false, [], ◌∷◌, none,
  some, arith, length, ltb, Bool-cases, Option-cases, some_inj,
}
use gesta_agent.Bytes.{Bytes, bytes_lt, bytes_eq, bytes_eq_iff}
use gesta_agent.SortedMap.{Entries, lookup, IsSorted}
use gesta_agent.SortedMap.Order.{lookup-Above}
use gesta_agent.Bolt.{Bolt, EventJson}
use gesta_agent.Queue.Codec.{Result, ok, err, ◌>>=◌, bad_delivered_key, decode_delivered_time_key}
use gesta_agent.Queue.Codec.Keys.{decoded_time, decoded_time_mono}
use gesta_agent.Queue.Database.{Db, meta_next_key, queue_meta}
use gesta_agent.Queue.Database.Counters.{>>=-elim, ok_inj}
use gesta_agent.Queue.Retention.{
  Queue, first_key, prune_loop, prune_expired, prune_delivered_event_ids, prune_delivered_loop,
  forget_delivered, cutoff,
}
use gesta_agent.Queue.Consistent.{IsConsistent, event_at}
use gesta_agent.Queue.Consistent.Expired.{unexpired, expired_count, none_counted, one_counted}
use gesta_agent.Queue.Consistent.Halting.{Fails, Halts, prune_delivered_event_ids-BadKey}
use gesta_agent.Queue.Consistent.Outcome.{event_at-Removed}
use gesta_agent.Queue.Consistent.Retained.{Round, first_key-Round, length-drop_first}

-- No key of a sorted walk lies below its first.
first_key-least :
    (l : Entries) (k j v : Bytes)
    → IsSorted l
    → first_key l ≡ some k
    → lookup j l ≡ some v
    → bytes_lt j k ≡ false
unfolding lookup
first_key-least [] k j v s f h = cc
first_key-least ((i, w) ∷ l) k j v s f h = elim (Bool-cases (bytes_lt j i)) [
  | inl below ↦ let bad = sym (lookup-Above j ((i, w) ∷ l) s below) ∙ h in absurd (cc)
  | inr above ↦ let same : i ≡ k = some_inj f in rw (← same) above
]

no_key : (l : Entries) (k v : Bytes) → first_key l ≡ none → ¬ (lookup k l ≡ some v)
unfolding lookup
no_key [] k v h p = cc
no_key ((i, w) ∷ l) k v h p = cc

module _ ⦃bolt : Bolt⦄ where
  open bolt use {Bucket}

  prune_delivered_loop-same :
      (fuel limit : ℕ) (db db' : Db)
      → prune_delivered_loop fuel limit db ≡ ok db'
      → (ids times : Bucket) × (record db { delivered_ids = ids; delivered_times = times } ≡ db')
  unfolding prune_delivered_loop forget_delivered
  prune_delivered_loop-same zero limit db db' h = cc
  prune_delivered_loop-same (suc fuel) limit db db' h =
      elim (Option-cases (first_key (bolt.entries db.delivered_times))) [
        | inl none_left ↦ (
          db.delivered_ids,
          db.delivered_times,
          ok_inj (rw (none_left, prune_delivered_loop) at h),
        )
        | inr (key, first) ↦
            >>=-elim (decode_delivered_time_key key) _ (rw (first, prune_delivered_loop) at h)
              λ r decoded h₁. elim (Bool-cases (ltb r.0 limit)) [
                | inl early ↦
                    prune_delivered_loop-same fuel limit (forget_delivered key r.1 db) db'
                      (rw early at h₁)
                | inr late ↦ (db.delivered_ids, db.delivered_times, ok_inj (rw late at h₁))
              ]
      ]

  prune_delivered_event_ids-same :
      (limit : ℕ) (db db' : Db)
      → prune_delivered_event_ids limit db ≡ ok db'
      → (ids times : Bucket) × (record db { delivered_ids = ids; delivered_times = times } ≡ db')
  unfolding prune_delivered_event_ids
  prune_delivered_event_ids-same limit db db' h =
      prune_delivered_loop-same (suc (length (bolt.entries db.delivered_times))) limit db db' h

module _ ⦃bolt : Bolt⦄ ⦃json : EventJson⦄ where
  open bolt use {entries, get, get_lem, entries-IsSorted}

  pub record Pruned (limit : ℕ) (db db' : Db) : Type 0 where
    pub consistent : IsConsistent db'
    pub next_eq : queue_meta db' meta_next_key ≡ queue_meta db meta_next_key
    pub exact : (s : Bytes) → event_at db' s ≡ unexpired limit (event_at db s)

  -- Once the first key is not before the limit, no event is.
  none_expired :
      (limit : ℕ) (db : Db) (key : Bytes) (s : Bytes)
      → IsConsistent db
      → (r : Round db key) → first_key (entries db.times) ≡ some key
      → ltb (decoded_time r.event.created_at) limit ≡ false
      → event_at db s ≡ unexpired limit (event_at db s)
  none_expired limit db key s c r first late = elim (Option-cases (event_at db s)) [
    | inl missing ↦ rw missing
    | inr (e, held) ↦
        let found = sym (get_lem db.times _) ∙ c.is_timed.timed s e held in
        let least =
          first_key-least (entries db.times) key _ [] (entries-IsSorted db.times) first found in
        let order =
          decoded_time_mono e.created_at r.event.created_at s r.sequence
            (rw r.oldest.key_eq at least) in
        rw held (ground (arith, order))
  ]

  -- An event that is removed because it is before the limit.
  removed_expired :
      (limit : ℕ) (db : Db) (key s : Bytes) (r : Round db key)
      → ltb (decoded_time r.event.created_at) limit ≡ true
      → unexpired limit (event_at r.after s) ≡ unexpired limit (event_at db s)
  removed_expired limit db key s r early = elim (Bool-cases (bytes_eq r.sequence s)) [
    | inl same ↦
        let at_s : event_at db s ≡ some r.event =
          ap (event_at db) (sym ((bytes_eq_iff r.sequence s).0 same)) ∙ r.oldest.held in
        rw (event_at-Removed r.sequence db r.after r.removed s, same) (rw (at_s, early))
    | inr other ↦ rw (event_at-Removed r.sequence db r.after r.removed s, other)
  ]

  nothing_left :
      (limit : ℕ) (db : Db)
      → IsConsistent db
      → first_key (entries db.times) ≡ none
      → (s : Bytes) → event_at db s ≡ unexpired limit (event_at db s)
  nothing_left limit db c h s = elim (Option-cases (event_at db s)) [
    | inl missing ↦ rw missing
    | inr (e, held) ↦
        absurd
          (no_key (entries db.times) _ _ h (sym (get_lem db.times _) ∙ c.is_timed.timed s e held))
  ]

  prune_loop-Pruned :
      (fuel limit removed : ℕ) (db : Db)
      → IsConsistent db
      → length (entries db.times) < fuel
      → (n : ℕ) × (db' : Db) × (prune_loop fuel limit removed db ≡ ok (removed + n, db'))
        × (n ≡ expired_count limit (entries db.events))
        × Pruned limit db db'
  unfolding prune_loop
  prune_loop-Pruned zero limit removed db c h = absurd (omega arith)
  prune_loop-Pruned (suc fuel) limit removed db c h =
      elim (Option-cases (first_key (entries db.times))) [
        | inl none_left ↦ (
          0,
          db,
          rw (none_left, prune_loop) (ap (λ (k : ℕ). ok (k, db)) (sym (add-zero removed))),
          sym (none_counted limit db (λ s. nothing_left limit db c none_left s)),
          record {
            consistent = c;
            next_eq = refl;
            exact = λ s. nothing_left limit db c none_left s;
          },
        )
        | inr (key, first) ↦
            let r = first_key-Round db key c first in
            elim (Bool-cases (ltb (decoded_time r.event.created_at) limit)) [
              | inr late ↦ (
                0,
                db,
                rw (first, prune_loop)
                    (rw r.oldest.decodes
                      (rw late (ap (λ (k : ℕ). ok (k, db)) (sym (add-zero removed))))),
                sym (none_counted limit db (λ s. none_expired limit db key s c r first late)),
                record {
                  consistent = c;
                  next_eq = refl;
                  exact = λ s. none_expired limit db key s c r first late;
                },
              )
              | inl early ↦
                  let shorter = length-drop_first (entries db.times) key first in
                  let (n, db', runs, counted, v) =
                    prune_loop-Pruned fuel limit (removed + 1) r.after r.removed.consistent
                      (omega (arith, ap length r.times_eq, shorter)) in
                  (
                    suc n,
                    db',
                    rw (first, prune_loop)
                        (rw r.oldest.decodes (
                          rw early (rw r.runs (runs ∙ ap (λ (k : ℕ). ok (k, db')) (omega arith))))),
                    ap suc counted ∙ one_counted limit db key r early,
                    record {
                      consistent = v.consistent;
                      next_eq = v.next_eq ∙ r.removed.next_eq;
                      exact = λ s. v.exact s ∙ removed_expired limit db key s r early;
                    },
                  )
            ]
      ]

  -- What was delivered or moved aside is no part of the invariant.
  pub consistent_ledgers :
      (db : Db) (ids times quarantine : bolt.Bucket)
      → IsConsistent db
      → IsConsistent
          (record db { delivered_ids = ids; delivered_times = times; quarantine = quarantine })
  unfolding queue_meta
  consistent_ledgers db ids times quarantine c = record {
    counted = c.counted;
    weighed = c.weighed;
    count_fits = c.count_fits;
    bytes_fit = c.bytes_fit;
    next_fits = c.next_fits;
    fresh = c.fresh;
    readable = c.readable;
    is_timed = c.is_timed;
    is_indexed = c.is_indexed;
  }

  -- What pruning ends with: the error of a key of a delivery that is too short, or a number and a
  -- database.
  abbrev pub PruneOutcome : ℕ → Db → Result (ℕ × Db) → Type 0
  PruneOutcome limit db (err e) = e ≡ bad_delivered_key
  PruneOutcome limit db (ok (n, db')) =
      (n ≡ expired_count limit (entries db.events)) × Pruned limit db db'

  -- Pruning a consistent database ends with the fuel that its loops are given, and fails only on a
  -- key of a delivery that is too short to hold an identifier. Otherwise it leaves a consistent
  -- database with the counter of sequences unchanged, under each sequence the event from before,
  -- unless its time, as its key encodes it in an int64 of nanoseconds, is before the cutoff, and it
  -- reports how many events these are.
  pub prune_expired-PruneOutcome :
      (q : Queue) (db : Db) → IsConsistent db → PruneOutcome (cutoff q) db (prune_expired q db)
  unfolding prune_expired queue_meta
  prune_expired-PruneOutcome q db c =
      go (prune_delivered_event_ids (cutoff q) db) refl
        (prune_delivered_event_ids-BadKey (cutoff q) db)
    where
      pruned :
          (ids times : bolt.Bucket)
          → let d = record db { delivered_ids = ids; delivered_times = times } in
            PruneOutcome (cutoff q) db (prune_loop (suc (length (entries d.times))) (cutoff q) 0 d)
      pruned ids times =
          let (n, db', runs, counted, v) =
            prune_loop-Pruned (suc (length (entries db.times))) (cutoff q) 0 _
              (consistent_ledgers db ids times db.quarantine c) (omega arith) in
          subst (PruneOutcome (cutoff q) db) (sym runs) (
            omega (arith, counted),
            record { consistent = v.consistent; next_eq = v.next_eq; exact = v.exact },
          )

      go :
          (r : Result Db)
          → prune_delivered_event_ids (cutoff q) db ≡ r
          → Fails (λ e. e ≡ bad_delivered_key) r
          → PruneOutcome
              (cutoff q)
              db
              (r >>= λ db₁. prune_loop (suc (length (entries db₁.times))) (cutoff q) 0 db₁)
      go (err e) p f = unfold Fails in f
      go (ok db₁) p f =
          let (ids, times, same) = prune_delivered_event_ids-same (cutoff q) db db₁ p in
          subst
            (λ (d : Db).
              PruneOutcome (cutoff q) db
                (prune_loop (suc (length (entries d.times))) (cutoff q) 0 d))
            same (pruned ids times)

  pub prune_expired-Pruned :
      (q : Queue) (db : Db) (r : ℕ × Db)
      → IsConsistent db
      → prune_expired q db ≡ ok r
      → (r.0 ≡ expired_count (cutoff q) (entries db.events)) × Pruned (cutoff q) db r.1
  prune_expired-Pruned q db r c h =
      subst (PruneOutcome (cutoff q) db) h (prune_expired-PruneOutcome q db c)

  pub prune_expired-Halts : (q : Queue) (db : Db) → IsConsistent db → Halts (prune_expired q db)
  unfolding Fails
  prune_expired-Halts q db c = go (prune_expired q db) (prune_expired-PruneOutcome q db c)
    where
      go : (r : Result (ℕ × Db)) → PruneOutcome (cutoff q) db r → Halts r
      go (err e) p = λ x. cc
      go (ok r) p = tt
