-- ===== src/Queue/Delivery/Finishing.antt =====
-- queue.go, Drain: it ends. Each round takes at least one event up to the watermark away, and none
-- appears there, so that one round more than there are events is enough.
use gesta_agent.Prelude.{
  ℕ, zero, suc, ◌+◌, ◌*◌, ◌≤◌, ◌<◌, ◌≡◌, ◌≢◌, refl, sym, ap, subst, ◌∙◌, List, [], ◌∷◌, Option,
  none, some, arith, length, map,
}
use gesta_agent.Bytes.{Bytes}
use gesta_agent.Bytes.Endian.{two64}
use gesta_agent.SortedMap.{last_key}
use gesta_agent.SortedMap.Laws.{last_key-held}
use gesta_agent.SortedMap.Count.{upto_le}
use gesta_agent.Model.{EventEnvelope}
use gesta_agent.Bolt.{Bolt, EventJson}
use gesta_agent.Queue.Codec.{Error, Result, ok, err, out_of_fuel, encode_uint64}
use gesta_agent.Queue.Database.{Db, meta_next_key, queue_meta}
use gesta_agent.Queue.Database.Counters.{>>=-elim, ok_inj}
use gesta_agent.Queue.Retention.{Queue, prune_expired}
use gesta_agent.Queue.Drain.{
  QueuedBatchEvent, Reply, delivered, failed, rejected, Outcome, DrainResult, drained, unfinished,
  stopped, quarantined, Aside, drain_watermark, watermark_tx, next_drain_batch, acknowledge,
  quarantine_rejected_events, append_others, after_reply, after_quarantine, after_acknowledge,
  drain_round, drain_loop, drain_from, drain, Drain, finish,
}
use gesta_agent.Queue.Consistent.{IsConsistent}
use gesta_agent.Queue.Consistent.Pruned.{prune_expired-Pruned}
use gesta_agent.Queue.Consistent.Opened.{transaction_rule}
use gesta_agent.Queue.Consistent.Halting.{Fails, NoFuelError, Halts}
use gesta_agent.Queue.Delivery.Draining.{Appends}
use gesta_agent.Queue.Delivery.Halting.{
  drain_watermark-Halts, next_drain_batch-Halts, acknowledge-Halts,
  quarantine_rejected_events-Halts,
}
use gesta_agent.Queue.Delivery.Onward.{Onward, Onward-trans}
use gesta_agent.Queue.Delivery.Steps.{append_others-Onward}
use gesta_agent.Queue.Delivery.Rounds.{
  pending, Onward-pending, Lost-pending, Held, Batched, Took, next_drain_batch-Batched,
  acknowledge-Took, quarantine_rejected_events-Took,
}

module _ ⦃bolt : Bolt⦄ ⦃json : EventJson⦄ where
  open bolt use {entries, get, get_lem}

  -- The result of a drain that has ended with no lack of fuel, neither of its own nor of a loop in
  -- one of its transactions.
  abbrev pub HasEnded : DrainResult → Type 0
  HasEnded r = (r ≢ unfinished) × (r ≢ stopped out_of_fuel)

  stopped-HasEnded : (e : Error) → Fails {A = Db} NoFuelError (err e) → HasEnded (stopped e)
  unfolding Fails
  stopped-HasEnded e h = (λ x. cc, λ x. h (stopped_inj e out_of_fuel x))
    where
      error_of : DrainResult → Error
      error_of drained = e
      error_of unfinished = e
      error_of (quarantined ids reason) = e
      error_of (stopped d) = d

      stopped_inj : (d d' : Error) → stopped d ≡ stopped d' → d ≡ d'
      stopped_inj d d' x = ap error_of x

  finish-Ends : (aside : Aside) → HasEnded (finish aside)
  finish-Ends aside = go aside.ids
    where
      go : (ids : List Bytes) → HasEnded (finish (record { ids = ids; reason = aside.reason }))
      go [] = (λ e. cc, λ e. cc)
      go (id ∷ ids) = (λ e. cc, λ e. cc)

  module _ {ℓ} {World : Type ℓ} (send : World → List EventEnvelope → Outcome × World) where
    -- A drain with the watermark `n` ends where fewer than `fuel` events are queued up to it, and
    -- the sequences last for `m` more events.
    abbrev Ends : ℕ → ℕ → ℕ → Drain send → Type ℓ
    Ends n m fuel again =
        (q : Queue) (aside : Aside) (w : World) (db : Db)
        → IsConsistent db
        → n ≤ queue_meta db meta_next_key
        → queue_meta db meta_next_key + m < two64
        → pending n db < fuel
        → HasEnded (again q (encode_uint64 n) aside w db).0

    after_quarantine-Ends :
        (n k m fuel : ℕ) (again : Drain send)
        → Ends n m fuel again
        → (q : Queue) (aside : Aside) (reason : Bytes) (w : World) (db db₂ : Db)
          (r : Result (List Bytes) × Db)
        → n ≤ queue_meta db₂ meta_next_key
        → queue_meta db₂ meta_next_key + m < two64
        → Onward n k db db₂
        → pending n db ≤ fuel
        → Took n db db₂ r.0 r.1
        → Halts r.0
        → HasEnded (after_quarantine send again q (encode_uint64 n) aside reason w r).0
    unfolding after_quarantine
    after_quarantine-Ends n k m fuel again ends q aside reason w db db₂ (err e, d) old room o left t
          halts =
        unfold Fails in stopped-HasEnded e halts
    after_quarantine-Ends n k m fuel again ends q aside reason w db db₂ (ok moved, d) old room o
          left (s, l) halts =
        let fewer = Lost-pending n k db d (Onward-trans n k 0 k db db₂ d (omega arith) o s) l in
        ends q _ w d s.consistent (omega (arith, s.next_ge)) (omega (arith, s.next_le))
          (omega (arith, fewer))

    after_acknowledge-Ends :
        (n k m fuel : ℕ) (again : Drain send)
        → Ends n m fuel again
        → (q : Queue) (aside : Aside) (w : World) (db db₂ : Db) (r : Result (Unit {0}) × Db)
        → n ≤ queue_meta db₂ meta_next_key
        → queue_meta db₂ meta_next_key + m < two64
        → Onward n k db db₂
        → pending n db ≤ fuel
        → Took n db db₂ r.0 r.1
        → Halts r.0
        → HasEnded (after_acknowledge send again q (encode_uint64 n) aside w r).0
    unfolding after_acknowledge
    after_acknowledge-Ends n k m fuel again ends q aside w db db₂ (err e, d) old room o left t
          halts =
        unfold Fails in stopped-HasEnded e halts
    after_acknowledge-Ends n k m fuel again ends q aside w db db₂ (ok u, d) old room o left (s, l)
          halts =
        let fewer = Lost-pending n k db d (Onward-trans n k 0 k db db₂ d (omega arith) o s) l in
        ends q aside w d s.consistent (omega (arith, s.next_ge)) (omega (arith, s.next_le))
          (omega (arith, fewer))

    after_reply-Ends :
        (n k m fuel : ℕ) (again : Drain send)
        → Ends n m fuel again
        → (q : Queue) (aside : Aside) (first : QueuedBatchEvent) (rest : List QueuedBatchEvent)
          (reply : Reply) (w : World) (db db₂ : Db)
        → Held n db (first ∷ rest)
        → n ≤ queue_meta db₂ meta_next_key
        → queue_meta db₂ meta_next_key + m < two64
        → Onward n k db db₂
        → pending n db ≤ fuel
        → HasEnded (after_reply send again q (encode_uint64 n) aside (first ∷ rest) reply w db₂).0
    unfolding after_reply
    after_reply-Ends n k m fuel again ends q aside first rest failed w db db₂ held old room o left =
        (λ x. cc, λ x. cc)
    after_reply-Ends n k m fuel again ends q aside first rest (rejected [] reason) w db db₂ held old
          room o left =
        (λ x. cc, λ x. cc)
    after_reply-Ends n k m fuel again ends q aside first rest (rejected (id ∷ ids) reason) w db db₂
          held old room o left =
        after_quarantine-Ends n k m fuel again ends q aside reason w db db₂
          (quarantine_rejected_events q (first ∷ rest) (id ∷ ids) reason db₂) old room o left
          (quarantine_rejected_events-Took n q (first ∷ rest) (id ∷ ids) reason db db₂ held
            o.consistent)
          (quarantine_rejected_events-Halts q (first ∷ rest) (id ∷ ids) reason db₂ o.consistent)
    after_reply-Ends n k m fuel again ends q aside first rest delivered w db db₂ held old room o
          left =
        after_acknowledge-Ends n k m fuel again ends q aside w db db₂
          (acknowledge q (first ∷ rest) db₂) old room o left
          (acknowledge-Took n q first rest db db₂ held o.consistent)
          (acknowledge-Halts q (first ∷ rest) db₂ o.consistent)

    drain_round-Ends :
        (n k m fuel : ℕ) (again : Drain send)
        → Appends send k
        → Ends n m fuel again
        → (q : Queue) (aside : Aside) (w : World) (db : Db)
          (r : Result (List QueuedBatchEvent) × Db)
        → n ≤ queue_meta db meta_next_key
        → queue_meta db meta_next_key + (k + m) < two64
        → pending n db ≤ fuel
        → Batched n db r.0 r.1
        → Halts r.0
        → HasEnded (drain_round send again q (encode_uint64 n) aside w r).0
    unfolding drain_round
    drain_round-Ends n k m fuel again few ends q aside w db (err e, d) old room left b halts =
        unfold Fails in stopped-HasEnded e halts
    drain_round-Ends n k m fuel again few ends q aside w db (ok [], d) old room left b halts =
        finish-Ends aside
    drain_round-Ends n k m fuel again few ends q aside w db (ok (first ∷ rest), d) old room left
          (o, held) halts =
        let events = map (λ queued. queued.event) (first ∷ rest) in
        let outcome = (send w events).0 in
        let q' = record q { now = outcome.clock } in
        let a =
          append_others-Onward n q' outcome.appended k d o.consistent (omega (arith, o.next_ge))
            (few w events) (omega (arith, o.next_le)) in
        after_reply-Ends n k m fuel again ends q' aside first rest outcome.reply (send w events).1 d
          (append_others q' outcome.appended d) held (omega (arith, o.next_ge, a.next_ge))
          (omega (arith, o.next_le, a.next_le)) a (omega (arith, Onward-pending n 0 db d o))

    drain_loop-Ends :
        (n k fuel : ℕ) → Appends send k → Ends n (fuel * k) fuel (drain_loop send fuel)
    unfolding drain_loop
    drain_loop-Ends n k zero few q aside w db c old room left = absurd (omega arith)
    drain_loop-Ends n k (suc fuel) few q aside w db c old room left =
        drain_round-Ends n k (fuel * k) fuel (drain_loop send fuel) few
          (drain_loop-Ends n k fuel few) q aside w db (next_drain_batch q (encode_uint64 n) db) old
          (omega (arith, room)) (omega arith) (next_drain_batch-Batched n q db c)
          (next_drain_batch-Halts q (encode_uint64 n) db c)

    -- What is known once the watermark is chosen: it is the last sequence in the queue.
    abbrev Marked : Db → Result (Option Bytes) → Db → Type 0
    Marked db (err e) d = Unit {0}
    Marked db (ok none) d = Unit {0}
    Marked db (ok (some w)) d =
        IsConsistent d
        × (queue_meta d meta_next_key ≡ queue_meta db meta_next_key)
        × (v : Bytes) × (get d.events w ≡ some v)

    Marked-last_key :
        (db d : Db) (o : Option Bytes)
        → IsConsistent d
        → queue_meta d meta_next_key ≡ queue_meta db meta_next_key
        → last_key (entries d.events) ≡ o
        → Marked db (ok o) d
    Marked-last_key db d none c next h = tt
    Marked-last_key db d (some w) c next h =
        let (v, found) = last_key-held (entries d.events) w (bolt.entries-IsSorted d.events) h in
        (c, next, v, get_lem d.events w ∙ found)

    drain_watermark-Marked :
        (q : Queue) (db : Db)
        → IsConsistent db
        → let (result, after) = drain_watermark q db in Marked db result after
    unfolding drain_watermark watermark_tx
    drain_watermark-Marked q db c =
        transaction_rule (Marked db) (watermark_tx q) db c (λ e d i. tt)
          (λ d r i h. >>=-elim (prune_expired q d) _ h λ x pruned last.
            let (n, p) = prune_expired-Pruned q d x i.consistent pruned in
            subst (λ (y : Option Bytes × Db). Marked db (ok y.0) y.1) (ok_inj last)
              (Marked-last_key db x.1 (last_key (entries x.1.events)) p.consistent
                (p.next_eq ∙ i.next_eq) refl))

    drain_from-Ends :
        (k : ℕ) (q : Queue) (w : World) (db : Db) (r : Result (Option Bytes) × Db)
        → Appends send k
        → Marked db r.0 r.1
        → Halts r.0
        → queue_meta db meta_next_key + suc (length (entries r.1.events)) * k < two64
        → HasEnded (drain_from send q w r).0
    unfolding drain_from
    drain_from-Ends k q w db (err e, d) few t halts room = unfold Fails in stopped-HasEnded e halts
    drain_from-Ends k q w db (ok none, d) few t halts room = (λ x. cc, λ x. cc)
    drain_from-Ends k q w db (ok (some mark), d) few (c, next, v, held) halts room =
        let (n, old, eq) = c.fresh mark v held in
        let fuel = suc (length (entries d.events)) in
        subst
          (λ (s : Bytes).
            HasEnded (drain_loop send fuel q s (record { ids = []; reason = [] }) w d).0)
          (sym eq)
          (drain_loop-Ends n k fuel few q (record { ids = []; reason = [] }) w d c old
            (omega (arith, next)) (omega (arith, upto_le (encode_uint64 n) (entries d.events))))

    -- From a consistent database Drain ends, whatever the control plane answers to each batch,
    -- whatever the clock shows, and whatever at most `k` events other processes append while it
    -- answers, if the sequences last for `k` events in each round: a round more than there are
    -- events when the watermark is chosen is enough, and no loop of its transactions runs out of
    -- fuel.
    pub drain-Ends :
        (k : ℕ) (q : Queue) (w : World) (db : Db)
        → Appends send k
        → IsConsistent db
        → queue_meta db meta_next_key + suc (length (entries (drain_watermark q db).1.events)) * k
          < two64
        → HasEnded (drain send q w db).0
    unfolding drain
    drain-Ends k q w db few c room =
        drain_from-Ends k q w db (drain_watermark q db) few (drain_watermark-Marked q db c)
          (drain_watermark-Halts q db c) room
