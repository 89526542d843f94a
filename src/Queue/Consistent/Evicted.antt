-- ===== src/Queue/Consistent/Evicted.antt =====
-- queue_retention.go, evictOverCapacity: the oldest events go until the rest fits.
use native.Mathlib.Nat.{add-zero}
use gesta_agent.Prelude.{
  ℕ, zero, suc, ◌+◌, ◌≤◌, ◌<◌, ◌≡◌, refl, sym, ap, ◌∙◌, inl, inr, [], ◌∷◌, none, some, arith,
  length, drop, Bool-cases, Option-cases,
}
use gesta_agent.SortedMap.{Entries, lookup, total}
use gesta_agent.SortedMap.Laws.{lookup_first}
use gesta_agent.Bolt.{Bolt, EventJson}
use gesta_agent.Queue.Codec.{ok, queue_time_key}
use gesta_agent.Queue.Database.{Db, meta_next_key, meta_bytes_key, queue_meta}
use gesta_agent.Queue.Retention.{
  Queue, first_key, exceeds, evict_loop, evict_over_capacity, effective_max_bytes,
}
use gesta_agent.Queue.Consistent.{IsConsistent, weight}
use gesta_agent.Queue.Consistent.Retained.{first_key-Round, length-drop_first, drop-drop_first}

module _ ⦃bolt : Bolt⦄ ⦃json : EventJson⦄ where
  open bolt use {entries, get, get_lem}

  -- `n` events were evicted from `db`, the oldest ones, and the rest has at most `limit` bytes.
  pub record Evicted (limit n : ℕ) (db db' : Db) : Type 0 where
    pub consistent : IsConsistent db'
    pub next_eq : queue_meta db' meta_next_key ≡ queue_meta db meta_next_key
    pub fits : total weight (entries db'.events) ≤ limit
    pub times_eq : entries db'.times ≡ drop n (entries db.times)

  -- With no time key there is no event.
  no_events : (db : Db) → IsConsistent db → entries db.times ≡ [] → entries db.events ≡ []
  no_events db c h = go (entries db.events) refl
    where
      go : (l : Entries) → entries db.events ≡ l → l ≡ []
      go [] p = refl
      go ((s, v) ∷ l) p =
          let held : get db.events s ≡ some v =
            get_lem db.events s ∙ ap (lookup s) p ∙ lookup_first s v l in
          let (e, reads) = c.readable s v held in
          let timed = c.is_timed.timed s e (rw held (rw reads)) in
          let found : lookup (queue_time_key e.created_at s) [] ≡ some [] =
            ap (lookup _) (sym h) ∙ sym (get_lem db.times _) ∙ timed in
          absurd (unfold lookup in cc)

  first_key-none : (l : Entries) → first_key l ≡ none → l ≡ []
  first_key-none [] h = refl
  first_key-none ((k, v) ∷ l) h = cc

  kept :
      (limit : ℕ) (db : Db)
      → IsConsistent db
      → total weight (entries db.events) ≤ limit
      → Evicted limit 0 db db
  kept limit db c h = record { consistent = c; next_eq = refl; fits = h; times_eq = refl }

  evict_loop-Evicted :
      (fuel limit removed : ℕ) (db : Db)
      → IsConsistent db
      → length (entries db.times) < fuel
      → (n : ℕ) × (db' : Db) × (evict_loop fuel limit removed db ≡ ok (removed + n, db'))
        × Evicted limit n db db'
  unfolding evict_loop exceeds
  evict_loop-Evicted zero limit removed db c h = absurd (omega arith)
  evict_loop-Evicted (suc fuel) limit removed db c h =
      elim (Bool-cases (exceeds (queue_meta db meta_bytes_key) limit)) [
        | inr fits ↦ (
          0,
          db,
          rw (fits, evict_loop) (ap (λ (k : ℕ). ok (k, db)) (sym (add-zero removed))),
          kept limit db c (ground (arith, c.weighed, c.bytes_fit)),
        )
        | inl over ↦ elim (Option-cases (first_key (entries db.times))) [
          | inl none_left ↦ (
            0,
            db,
            rw (over, evict_loop)
                (rw none_left (ap (λ (k : ℕ). ok (k, db)) (sym (add-zero removed)))),
            kept limit db c
                (rw (no_events db c (first_key-none (entries db.times) none_left)) (omega arith)),
          )
          | inr (key, first) ↦
              let r = first_key-Round db key c first in
              let shorter = length-drop_first (entries db.times) key first in
              let (n, db', runs, v) =
                evict_loop-Evicted fuel limit (removed + 1) r.after r.removed.consistent
                  (omega (arith, ap length r.times_eq, shorter)) in
              (
                suc n,
                db',
                rw (over, evict_loop)
                    (rw first (
                      rw r.oldest.decodes
                        (rw r.runs (runs ∙ ap (λ (k : ℕ). ok (k, db')) (omega arith))))),
                record {
                  consistent = v.consistent;
                  next_eq = v.next_eq ∙ r.removed.next_eq;
                  fits = v.fits;
                  times_eq =
                      v.times_eq ∙ ap (drop n) r.times_eq ∙ drop-drop_first n (entries db.times);
                },
              )
        ]
      ]

  -- On a consistent database the eviction succeeds and leaves a consistent one: of the time index
  -- exactly the first keys are gone, as many as it reports, and the events left are within the
  -- limit of bytes.
  pub evict_over_capacity-Evicted :
      (q : Queue) (db : Db)
      → IsConsistent db
      → (n : ℕ) × (db' : Db) × (evict_over_capacity q db ≡ ok (n, db'))
        × Evicted (effective_max_bytes q) n db db'
  unfolding evict_over_capacity
  evict_over_capacity-Evicted q db c =
      let (n, db', runs, v) =
        evict_loop-Evicted (suc (length (entries db.times))) (effective_max_bytes q) 0 db c
          (omega arith) in
      (n, db', runs ∙ ap (λ (k : ℕ). ok (k, db')) (omega arith), v)
