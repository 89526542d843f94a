-- ===== src/Queue/Delivery/Onward.antt =====
-- What no operation does to a drain that is under way: no event appears up to its watermark.
use gesta_agent.Prelude.{
  ℕ, zero, suc, ◌+◌, ◌≤◌, ◌<◌, ◌≡◌, sym, ap, subst, ◌∙◌, inl, inr, false, Bool, [], ◌∷◌, none, some,
  arith, drop, Bool-cases, Option-cases, none_ne_some,
}
use gesta_agent.Bytes.{Bytes, bytes_eq, bytes_lt, bytes_eq_iff}
use gesta_agent.Bytes.Endian.{two64}
use gesta_agent.SortedMap.{Entries, lookup, IsSorted}
use gesta_agent.SortedMap.Order.{lookup-Above}
use gesta_agent.Model.{EventEnvelope}
use gesta_agent.Bolt.{Bolt, EventJson}
use gesta_agent.Queue.Codec.{encode_uint64, queue_time_key}
use gesta_agent.Queue.Codec.Keys.{bytes_lt-encode_uint64}
use gesta_agent.Queue.Database.{Db, meta_next_key, queue_meta}
use gesta_agent.Queue.Views.{queue_time_key_inj}
use gesta_agent.Queue.Consistent.{IsConsistent, Removed, Added, event_at}
use gesta_agent.Queue.Consistent.Outcome.{Inserted, added, replaced, dropped, event_at-Removed}
use gesta_agent.Queue.Consistent.Pruned.{Pruned}
use gesta_agent.Queue.Consistent.Evicted.{Evicted}
use gesta_agent.Queue.Consistent.Opened.{Reindexed}

lookup-drop :
    (n : ℕ) (k v : Bytes) (l : Entries)
    → IsSorted l
    → lookup k (drop n l) ≡ some v
    → lookup k l ≡ some v
unfolding lookup
lookup-drop zero k v l s h = h
lookup-drop (suc n) k v [] s h = h
lookup-drop (suc n) k v ((j, x) ∷ l) s h =
    let rest = lookup-drop n k v l s.1 h in
    ground (arith, rest, bytes_eq_iff j k, lookup-Above j l s.1 s.0)

module _ ⦃bolt : Bolt⦄ ⦃json : EventJson⦄ where
  open bolt use {entries, get, get_lem, entries-IsSorted}

  -- No event appears up to the sequence `n`.
  abbrev pub Shrinks : ℕ → Db → Db → Type 0
  Shrinks n db db' =
      (j : Bytes)
      → bytes_lt (encode_uint64 n) j ≡ false
      → event_at db j ≡ none
      → event_at db' j ≡ none

  -- A step to a consistent database that gives out at most `k` sequences, all above `n`.
  pub record Onward (n k : ℕ) (db db' : Db) : Type 0 where
    pub consistent : IsConsistent db'
    pub next_ge : queue_meta db meta_next_key ≤ queue_meta db' meta_next_key
    pub next_le : queue_meta db' meta_next_key ≤ queue_meta db meta_next_key + k
    pub shrinks : Shrinks n db db'

  pub Onward-refl : (n k : ℕ) (db : Db) → IsConsistent db → Onward n k db db
  Onward-refl n k db c = record {
    consistent = c;
    next_ge = omega arith;
    next_le = omega arith;
    shrinks = λ j low absent. absent;
  }

  pub Onward-trans :
      (n k m l : ℕ) (a b c : Db) → k + m ≤ l → Onward n k a b → Onward n m b c → Onward n l a c
  Onward-trans n k m l a b c few p q = record {
    consistent = q.consistent;
    next_ge = omega (arith, p.next_ge, q.next_ge);
    next_le = omega (arith, p.next_le, q.next_le);
    shrinks = λ j low absent. q.shrinks j low (p.shrinks j low absent);
  }

  pub Onward-widen : (n k l : ℕ) (a b : Db) → k ≤ l → Onward n k a b → Onward n l a b
  Onward-widen n k l a b few p = record {
    consistent = p.consistent;
    next_ge = p.next_ge;
    next_le = omega (arith, p.next_le);
    shrinks = p.shrinks;
  }

  pub Pruned-Onward : (n limit : ℕ) (db db' : Db) → Pruned limit db db' → Onward n 0 db db'
  Pruned-Onward n limit db db' p = record {
    consistent = p.consistent;
    next_ge = omega (arith, p.next_eq);
    next_le = omega (arith, p.next_eq);
    shrinks = λ j low absent. rw (p.exact j, absent);
  }

  pub Reindexed-Onward : (n : ℕ) (db db' : Db) → Reindexed db db' → Onward n 0 db db'
  Reindexed-Onward n db db' r = record {
    consistent = r.consistent;
    next_ge = omega (arith, r.next_eq);
    next_le = omega (arith, r.next_eq);
    shrinks = λ j low absent. rw r.events_eq absent;
  }

  Removed-Onward : (n : ℕ) (s : Bytes) (db db' : Db) → Removed s db db' → Onward n 0 db db'
  Removed-Onward n s db db' d = record {
    consistent = d.consistent;
    next_ge = omega (arith, d.next_eq);
    next_le = omega (arith, d.next_eq);
    shrinks = λ j low absent. ground (arith, event_at-Removed s db db' d j);
  }

  Added-Onward :
      (n : ℕ) (e : EventEnvelope) (db db' : Db)
      → n ≤ queue_meta db meta_next_key
      → queue_meta db meta_next_key + 1 < two64
      → Added e db db'
      → Onward n 1 db db'
  Added-Onward n e db db' old room a = record {
    consistent = a.consistent;
    next_ge = omega (arith, a.next_eq);
    next_le = omega (arith, a.next_eq);
    shrinks = λ j low absent.
        elim (Bool-cases (bytes_eq (encode_uint64 (queue_meta db meta_next_key + 1)) j)) [
          | inl same ↦
              let eq : encode_uint64 (queue_meta db meta_next_key + 1) ≡ j =
                (bytes_eq_iff (encode_uint64 (queue_meta db meta_next_key + 1)) j).0 same in
              let low' : bytes_lt (encode_uint64 n)
                    (encode_uint64 (queue_meta db meta_next_key + 1))
                  ≡ false =
                rw eq low in
              let order =
                bytes_lt-encode_uint64 n (queue_meta db meta_next_key + 1) (omega arith)
                  (omega arith) in
              absurd (ground (arith, order, low'))
          | inr other ↦ rw (a.events_eq j, other) absent
        ];
  }

  pub Inserted-Onward :
      (n : ℕ) (e : EventEnvelope) (db : Db) (r : Bool × Db)
      → IsConsistent db
      → n ≤ queue_meta db meta_next_key
      → queue_meta db meta_next_key + 1 < two64
      → Inserted e db r
      → Onward n 1 db r.1
  Inserted-Onward n e db r c old room (added u f a) = Added-Onward n e db r.1 old room a
  Inserted-Onward n e db r c old room (replaced s db₁ t u v q d a f) =
      Onward-trans n 0 1 1 db db₁ r.1 (omega arith) (Removed-Onward n s db db₁ d)
        (Added-Onward n e db₁ r.1 (omega (arith, d.next_eq)) (omega (arith, d.next_eq)) a)
  Inserted-Onward n e db r c old room (dropped named known eq) =
      subst (λ (x : Bool × Db). Onward n 1 db x.1) (sym eq) (Onward-refl n 1 db c)

  pub Evicted-Onward :
      (n limit m : ℕ) (db db' : Db) → IsConsistent db → Evicted limit m db db' → Onward n 0 db db'
  Evicted-Onward n limit m db db' c v = record {
    consistent = v.consistent;
    next_ge = omega (arith, v.next_eq);
    next_le = omega (arith, v.next_eq);
    shrinks = λ j low absent. elim (Option-cases (event_at db' j)) [
      | inl gone ↦ gone
      | inr (e, held) ↦ absurd (none_ne_some (sym absent ∙ (was_held j e held).1))
    ];
  }
    where
      was_held :
          (j : Bytes) (e : EventEnvelope)
          → event_at db' j ≡ some e
          → (x : EventEnvelope) × (event_at db j ≡ some x)
      was_held j e held =
          let key = queue_time_key e.created_at j in
          let after =
            sym (ap (lookup key) v.times_eq)
            ∙ sym (get_lem db'.times key)
            ∙ v.consistent.is_timed.timed j e held in
          let before = lookup-drop m key [] (entries db.times) (entries-IsSorted db.times) after in
          let (s, x, at_s, same) = c.is_timed.time_sound key [] (get_lem db.times key ∙ before) in
          let eq : j ≡ s =
            queue_time_key_inj e.created_at x.created_at j s (v.consistent.is_timed.sized j e held)
              (c.is_timed.sized s x at_s) same in
          (x, ap (event_at db) eq ∙ at_s)
