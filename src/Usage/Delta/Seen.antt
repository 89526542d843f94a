-- ===== src/Usage/Delta/Seen.antt =====
-- What polls see of several sessions, and what they report (usage_delta.go).
use gesta_agent.Prelude.{
  ℕ, ◌+◌, ◌≡◌, ◌≢◌, refl, sym, ap, subst, ◌∙◌, true, List, [], ◌∷◌, Option, none, some, All,
}
use gesta_agent.Prelude.Int.{ℤ, pos, ◌+ℤ◌, ◌-ℤ◌, ◌≤ℤ◌, int_laws}
use gesta_agent.Int64.{IsCount}
use gesta_agent.Bytes.{Bytes}
use gesta_agent.Assoc.{get, put, get-put, get-put_self}
use gesta_agent.Assoc.Keys.{Keyed, bytes_ne}
use gesta_agent.Model.{EventEnvelope}
use gesta_agent.Go.{Go}
use gesta_agent.Usage.Observation.{
  UsageCursor, UsageCursorStore, UsageObservation, Config, usage_observation_from_event, seed_cache,
}
use gesta_agent.Usage.Delta.{
  delta_against, previous_cursor, maybe_delta, cursor_key_of, delta_event, delta_of_observation,
  usage_delta_from_event, add_delta, build_usage_deltas, build_usage_delta_events, next_cursor,
}
use gesta_agent.Usage.Delta.Reported.{delta_event-Told}
use gesta_agent.Usage.Delta.Polls.{
  reported_sum, reported_by_polls, add_delta-total, seed_cache-total, telescope, grown_none,
  grown_one, grown_other,
}

-- Sessions by their keys, with their totals.
abbrev pub Totals : Type 0
Totals = List (Bytes × ℤ)

abbrev pub total_of : Totals → ℤ
total_of [] = pos 0
total_of (p ∷ l) = p.1 +ℤ total_of l

module _ ⦃go : Go⦄ where
  -- The events of one poll, in the order of the sessions: one event at most of each session, whose
  -- total has not fallen; a session may have none, and an event may observe nothing.
  pub data Sees : Totals → List EventEnvelope → Totals → Type 0 where
    ended : Sees [] [] []
    ignored :
        (sessions sessions' : Totals) (event : EventEnvelope) (events : List EventEnvelope)
        → usage_observation_from_event event ≡ none
        → Sees sessions events sessions'
        → Sees sessions (event ∷ events) sessions'
    absent :
        (key : Bytes) (total : ℤ) (sessions sessions' : Totals) (events : List EventEnvelope)
        → Sees sessions events sessions'
        → Sees ((key, total) ∷ sessions) events ((key, total) ∷ sessions')
    observed :
        (total : ℤ) (sessions sessions' : Totals) (event : EventEnvelope)
        (events : List EventEnvelope) (o : UsageObservation)
        → usage_observation_from_event event ≡ some o
        → IsCount o.total
        → total ≤ℤ o.total
        → Sees sessions events sessions'
        → Sees
            ((cursor_key_of event o, total) ∷ sessions)
            (event ∷ events)
            ((cursor_key_of event o, o.total) ∷ sessions')

  pub data SeesAll : Totals → List (ℕ × List EventEnvelope) → Totals → Type 0 where
    polled : (sessions : Totals) → SeesAll sessions [] sessions
    poll :
        (first next last : Totals) (t : ℕ) (events : List EventEnvelope)
        (polls : List (ℕ × List EventEnvelope))
        → Sees first events next
        → SeesAll next polls last
        → SeesAll first ((t, events) ∷ polls) last

  -- The store has a cursor for each session, with its total.
  abbrev pub Holds : UsageCursorStore → Totals → Type 0
  Holds store [] = Unit {0}
  Holds store ((key, total) ∷ sessions) =
      ((c : UsageCursor) × (get key store ≡ some c) × (c.total_tokens ≡ total) × IsCount total)
      × Holds store sessions

  Sees-apart :
      (key : Bytes) (sessions : Totals) (events : List EventEnvelope) (sessions' : Totals)
      → Sees sessions events sessions'
      → All (λ (p : Bytes × ℤ). key ≢ p.0) sessions
      → All (λ (p : Bytes × ℤ). key ≢ p.0) sessions'
  Sees-apart key _ _ _ ended a = tt
  Sees-apart key _ _ _ (ignored ss ss' event events none_seen s) a =
      Sees-apart key ss events ss' s a
  Sees-apart key _ _ _ (absent k total ss ss' events s) (n, a) =
      (n, Sees-apart key ss events ss' s a)
  Sees-apart key _ _ _ (observed total ss ss' event events o seen count up s) (n, a) =
      (n, Sees-apart key ss events ss' s a)

  Sees-Keyed :
      (sessions : Totals) (events : List EventEnvelope) (sessions' : Totals)
      → Sees sessions events sessions'
      → Keyed sessions
      → Keyed sessions'
  Sees-Keyed _ _ _ ended d = tt
  Sees-Keyed _ _ _ (ignored ss ss' event events none_seen s) d = Sees-Keyed ss events ss' s d
  Sees-Keyed _ _ _ (absent key total ss ss' events s) (a, d) =
      (Sees-apart key ss events ss' s a, Sees-Keyed ss events ss' s d)
  Sees-Keyed _ _ _ (observed total ss ss' event events o seen count up s) (a, d) =
      (Sees-apart _ ss events ss' s a, Sees-Keyed ss events ss' s d)

  Holds-put :
      (key : Bytes) (c : UsageCursor) (store : UsageCursorStore) (sessions : Totals)
      → All (λ (p : Bytes × ℤ). key ≢ p.0) sessions
      → Holds store sessions
      → Holds (put key c store) sessions
  Holds-put key c store [] a h = tt
  Holds-put key c store ((k, total) ∷ sessions) (n, a) ((d, held, same, count), h) = (
    (d, rw (get-put key k c store, bytes_ne key k n) held, same, count),
    Holds-put key c store sessions a h,
  )

  -- A cursor is kept where the poll sees other sessions only.
  kept :
      (cfg : Config) (n : ℕ) (store : UsageCursorStore) (t : ℕ) (key : Bytes) (sessions : Totals)
      (events : List EventEnvelope) (sessions' : Totals) (next : UsageCursorStore)
      → Sees sessions events sessions'
      → All (λ (p : Bytes × ℤ). key ≢ p.0) sessions
      → get key (build_usage_deltas cfg n store t events next).1 ≡ get key next
  unfolding build_usage_deltas usage_delta_from_event maybe_delta delta_of_observation
  kept cfg n store t key _ _ _ next ended a = refl
  kept cfg n store t key _ _ _ next (ignored ss ss' event events none_seen s) a =
      rw none_seen (kept cfg (n + 1) store t key ss events ss' next s a)
  kept cfg n store t key _ _ _ next (absent k total ss ss' events s) (apart, a) =
      kept cfg n store t key ss events ss' next s a
  kept cfg n store t key _ _ _ next (observed total ss ss' event events o seen count up s)
        (apart, a) =
      rw seen (
        kept cfg (n + 1) store t key ss events ss'
          (put (cursor_key_of event o) (next_cursor o t) next) s a
        ∙ get-put (cursor_key_of event o) key (next_cursor o t) next
        ∙ rw (bytes_ne (cursor_key_of event o) key (λ e. apart (sym e))) refl)

  -- What the code makes of an event whose session the store has a cursor for.
  one_event :
      (cfg : Config) (n : ℕ) (store : UsageCursorStore) (t : ℕ) (event : EventEnvelope)
      (o : UsageObservation) (c : UsageCursor) (total : ℤ)
      → get (cursor_key_of event o) store ≡ some c
      → c.total_tokens ≡ total
      → IsCount o.total
      → IsCount total
      → total ≤ℤ o.total
      → reported_sum (add_delta (delta_of_observation cfg n event store t o).delta [])
        ≡ o.total -ℤ total
  unfolding delta_of_observation previous_cursor delta_against
  one_event cfg n store t event o c total held same co ct up =
      let seeded = seed_cache o c in
      let same' : seeded.total_tokens ≡ total = seed_cache-total o c ∙ same in
      let told = delta_event-Told cfg n event o seeded true t in
      let sum =
        add_delta-total o seeded (delta_event cfg n event o seeded true t) co (rw same' ct)
          (rw same' up) told in
      rw held (sum ∙ ap (λ (z : ℤ). o.total -ℤ z) same')

  sum_cons :
      (d : Option EventEnvelope) (l : List EventEnvelope)
      → reported_sum (add_delta d l) ≡ reported_sum (add_delta d []) +ℤ reported_sum l
  sum_cons none l = omega int_laws
  sum_cons (some e) [] = omega int_laws
  sum_cons (some e) (x ∷ l) = omega int_laws

  next_cursor-total : (o : UsageObservation) (t : ℕ) → (next_cursor o t).total_tokens ≡ o.total
  unfolding next_cursor
  next_cursor-total o t = refl

  step_none :
      (cfg : Config) (n : ℕ) (store : UsageCursorStore) (t : ℕ) (event : EventEnvelope)
      (events : List EventEnvelope) (next : UsageCursorStore)
      → usage_observation_from_event event ≡ none
      → build_usage_deltas cfg n store t (event ∷ events) next
        ≡ build_usage_deltas cfg (n + 1) store t events next
  unfolding build_usage_deltas usage_delta_from_event maybe_delta
  step_none cfg n store t event events next h = rw h refl

  step_some :
      (cfg : Config) (n : ℕ) (store : UsageCursorStore) (t : ℕ) (event : EventEnvelope)
      (events : List EventEnvelope) (next : UsageCursorStore) (o : UsageObservation)
      → usage_observation_from_event event ≡ some o
      → let (deltas, saved) =
          build_usage_deltas cfg
            (n + 1)
            store
            t
            events
            (put (cursor_key_of event o) (next_cursor o t) next) in
        build_usage_deltas cfg n store t (event ∷ events) next
        ≡ (add_delta (delta_of_observation cfg n event store t o).delta deltas, saved)
  unfolding build_usage_deltas usage_delta_from_event maybe_delta delta_of_observation
  step_some cfg n store t event events next o h = rw h refl

  -- What a poll reports, and the cursors that it saves.
  abbrev Polled : Totals → Totals → List EventEnvelope × UsageCursorStore → Type 0
  Polled sessions sessions' r =
      (reported_sum r.0 ≡ total_of sessions' -ℤ total_of sessions) × Holds r.1 sessions'

  pub one_poll :
      (cfg : Config) (n : ℕ) (store : UsageCursorStore) (t : ℕ) (sessions : Totals)
      (events : List EventEnvelope) (sessions' : Totals) (next : UsageCursorStore)
      → Sees sessions events sessions'
      → Keyed sessions
      → Holds store sessions
      → Holds next sessions
      → Polled sessions sessions' (build_usage_deltas cfg n store t events next)
  unfolding build_usage_deltas
  one_poll cfg n store t _ _ _ next ended d h g = (grown_none (pos 0), tt)
  one_poll cfg n store t _ _ _ next (ignored ss ss' event events none_seen s) d h g =
      subst (Polled ss ss') (sym (step_none cfg n store t event events next none_seen))
        (one_poll cfg (n + 1) store t ss events ss' next s d h g)
  one_poll cfg n store t _ _ _ next (absent key total ss ss' events s) (a, d) (i, h)
        ((c, held, same, count), g) =
      let (sum, saved) = one_poll cfg n store t ss events ss' next s d h g in
      (
        sum ∙ grown_other total (total_of ss) (total_of ss'),
        ((c, kept cfg n store t key ss events ss' next s a ∙ held, same, count), saved),
      )
  one_poll cfg n store t _ _ _ next (observed total ss ss' event events o seen count up s) (a, d)
        ((c, held, same, ct), h) (i, g) =
      let key = cursor_key_of event o in
      let next' = put key (next_cursor o t) next in
      let (sum, saved) =
        one_poll cfg (n + 1) store t ss events ss' next' s d h
          (Holds-put key (next_cursor o t) next ss a g) in
      let first = one_event cfg n store t event o c total held same count ct up in
      subst (Polled ((key, total) ∷ ss) ((key, o.total) ∷ ss'))
        (sym (step_some cfg n store t event events next o seen))
        (
          sum_cons (delta_of_observation cfg n event store t o).delta
                (build_usage_deltas cfg (n + 1) store t events next').0
              ∙ rw (first, sum) (grown_one total o.total (total_of ss) (total_of ss')),
          (
            (
              next_cursor o t,
              kept cfg (n + 1) store t key ss events ss' next' s a
                  ∙ get-put_self key (next_cursor o t) next,
              next_cursor-total o t,
              count,
            ),
            saved,
          ),
        )

  -- Polls of sessions whose totals never fall report together exactly what the totals of all these
  -- sessions have grown by since the cursors that the store had for them. Each poll has at most one
  -- event of each session, in the order of the sessions, and any number of events that observe
  -- nothing; the sessions have different keys, and the totals are below 2 ^ 63.
  pub reported_by_polls_lem :
      (cfg : Config) (n : ℕ) (store : UsageCursorStore) (first : Totals)
      (polls : List (ℕ × List EventEnvelope)) (last : Totals)
      → SeesAll first polls last
      → Keyed first
      → Holds store first
      → reported_by_polls cfg n store polls ≡ total_of last -ℤ total_of first
  unfolding build_usage_delta_events
  reported_by_polls_lem cfg n store _ _ _ (polled sessions) d h = grown_none (total_of sessions)
  reported_by_polls_lem cfg n store _ _ _ (poll first next last t events polls s rest) d h =
      let (sum, saved) = one_poll cfg n store t first events next store s d h h in
      let later =
        reported_by_polls_lem cfg (n + 1) (build_usage_deltas cfg n store t events store).1 next
          polls last rest (Sees-Keyed first events next s d) saved in
      rw (sum, later) (telescope (total_of first) (total_of next) (total_of last))
