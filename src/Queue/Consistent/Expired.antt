-- ===== src/Queue/Consistent/Expired.antt =====
-- How many events of the queue are before a limit of time (queue_retention.go, pruneExpired).
use gesta_agent.Prelude.{
  ℕ, suc, ◌+◌, ◌≡◌, refl, sym, ap, ◌∙◌, inl, inr, true, false, Bool, [], ◌∷◌, Option, none, some,
  arith, ltb, if◌then◌else◌, Bool-cases, Option-cases, some_inj, none_ne_some,
}
use gesta_agent.Bytes.{Bytes, bytes_eq}
use gesta_agent.SortedMap.{Entries, lookup, erase, IsSorted}
use gesta_agent.SortedMap.Laws.{lookup_first}
use gesta_agent.SortedMap.Order.{lookup-cons}
use gesta_agent.Model.{EventEnvelope}
use gesta_agent.Bolt.{Bolt, EventJson}
use gesta_agent.Queue.Codec.Keys.{decoded_time}
use gesta_agent.Queue.Database.{Db}
use gesta_agent.Queue.Consistent.{event_at, read_event}
use gesta_agent.Queue.Consistent.Retained.{Round}

-- What pruning leaves of an event.
abbrev pub unexpired : ℕ → Option EventEnvelope → Option EventEnvelope
unexpired limit none = none
unexpired limit (some e) = if ltb (decoded_time e.created_at) limit then none else some e

module _ ⦃bolt : Bolt⦄ ⦃json : EventJson⦄ where
  open bolt use {entries, get, get_lem, entries-IsSorted}

  -- An event of the queue whose time, as its key encodes it, is before the limit.
  abbrev pub is_expired : ℕ → Option EventEnvelope → Bool
  is_expired limit none = false
  is_expired limit (some e) = ltb (decoded_time e.created_at) limit

  -- How many of them there are.
  abbrev pub expired_count : ℕ → Entries → ℕ
  expired_count limit [] = 0
  expired_count limit ((s, v) ∷ l) =
      (if is_expired limit (read_event (some v)) then 1 else 0) + expired_count limit l

  expired_count-erase :
      (limit : ℕ) (s v : Bytes) (l : Entries)
      → lookup s l ≡ some v
      → is_expired limit (read_event (some v)) ≡ true
      → suc (expired_count limit (erase s l)) ≡ expired_count limit l
  unfolding lookup erase
  expired_count-erase limit s v [] h late = cc
  expired_count-erase limit s v ((j, w) ∷ l) h late = elim (Bool-cases (bytes_eq j s)) [
    | inl same ↦
        let w_is_v : w ≡ v = some_inj (rw same at h) in rw (same, w_is_v, late) (omega arith)
    | inr other ↦
        let rest = expired_count-erase limit s v l (rw other at h) late in
        rw other (omega (arith, rest))
  ]

  expired_count-zero :
      (limit : ℕ) (l : Entries)
      → IsSorted l
      → ((s v : Bytes) → lookup s l ≡ some v → is_expired limit (read_event (some v)) ≡ false)
      → expired_count limit l ≡ 0
  expired_count-zero limit [] s f = refl
  expired_count-zero limit ((k, v) ∷ l) s f = rw (f k v (lookup_first k v l)) (
      ap (λ (n : ℕ). 0 + n)
        (expired_count-zero limit l s.1 (λ j w p. f j w (lookup-cons k v j w l s p))))

  -- Where no event goes, none has expired.
  pub none_counted :
      (limit : ℕ) (db : Db)
      → ((s : Bytes) → event_at db s ≡ unexpired limit (event_at db s))
      → expired_count limit (entries db.events) ≡ 0
  none_counted limit db f =
      expired_count-zero limit (entries db.events) (entries-IsSorted db.events) λ s v found.
        let held : event_at db s ≡ read_event (some v) =
          ap read_event (get_lem db.events s ∙ found) in
        go (read_event (some v)) (rw held at (f s))
    where
      go : (o : Option EventEnvelope) → o ≡ unexpired limit o → is_expired limit o ≡ false
      go none p = refl
      go (some e) p = elim (Bool-cases (ltb (decoded_time e.created_at) limit)) [
        | inl late ↦ absurd (none_ne_some (sym (rw late at p)))
        | inr early ↦ early
      ]

  pub one_counted :
      (limit : ℕ) (db : Db) (key : Bytes) (r : Round db key)
      → ltb (decoded_time r.event.created_at) limit ≡ true
      → suc (expired_count limit (entries r.after.events)) ≡ expired_count limit (entries db.events)
  one_counted limit db key r late = elim (Option-cases (get db.events r.sequence)) [
    | inl missing ↦ absurd (none_ne_some (sym (ap read_event missing) ∙ r.oldest.held))
    | inr (v, held) ↦
        let read : read_event (some v) ≡ some r.event = sym (ap read_event held) ∙ r.oldest.held in
        ap (λ (l : Entries). suc (expired_count limit l)) r.removed.entries_eq
        ∙ expired_count-erase limit r.sequence v (entries db.events)
            (sym (get_lem db.events r.sequence) ∙ held) (ap (is_expired limit) read ∙ late)
  ]
