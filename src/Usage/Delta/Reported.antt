-- ===== src/Usage/Delta/Reported.antt =====
-- What the deltas of a poll report (usage_delta.go).
use gesta_agent.Prelude.{
  ℕ, ◌+◌, ◌<◌, ◌≡◌, refl, ◌∙◌, subst, inl, inr, Bool, true, false, List, [], ◌∷◌, Option, none,
  some, arith, All, Bool-cases, Option-cases, some_inj, none_ne_some,
}
use gesta_agent.Prelude.Int.{ℤ, pos, negsuc, pos_part, neg_part, ltb_ℤ, max_ℤ}
use gesta_agent.Int64.{sub64}
use gesta_agent.Bytes.{Bytes, codes, bytes_eq}
use gesta_agent.Assoc.{get, put, get-put}
use gesta_agent.Model.{EventEnvelope, number, boolean}
use gesta_agent.Go.{Go}
use gesta_agent.Payload.{
  Payload, field, field-copy_payload_string, lacks, field-copy_payload_int_as,
}
use gesta_agent.Usage.Observation.{
  UsageCursor, UsageCursorStore, UsageObservation, UsageTokenDelta, Config,
  calculate_usage_token_delta, usage_observation_from_event, seed_cache, copy_fields, model_keys,
  repo_keys,
}
use gesta_agent.Usage.Delta.{
  delta_fields, delta_against, maybe_delta, delta_of, delta_payload, delta_event, base_event,
  delta_of_observation, usage_delta_from_event, add_delta, build_usage_deltas,
  build_usage_delta_events, usage_delta_window,
}

-- The five counters of a payload.
pub record Reports (p : Payload) (d : UsageTokenDelta) : Type 0 where
  pub total : field (codes "total_tokens") p ≡ some (number d.total)
  pub input : field (codes "input_tokens") p ≡ some (number d.input)
  pub output : field (codes "output_tokens") p ≡ some (number d.output)
  pub cache_read : field (codes "cache_read_tokens") p ≡ some (number d.cache_read)
  pub cache_write : field (codes "cache_write_tokens") p ≡ some (number d.cache_write)

abbrev pub IsPositive : ℤ → Type 0
IsPositive z = (neg_part z ≡ 0) × (0 < pos_part z)

abbrev pub IsNonNegative : ℤ → Type 0
IsNonNegative z = neg_part z ≡ 0

-- Some tokens in all, and no counter below zero.
pub record IsMovement (d : UsageTokenDelta) : Type 0 where
  pub total : IsPositive d.total
  pub input : IsNonNegative d.input
  pub output : IsNonNegative d.output
  pub cache_read : IsNonNegative d.cache_read
  pub cache_write : IsNonNegative d.cache_write

max_zero : (z : ℤ) → IsNonNegative (max_ℤ z (pos 0))
max_zero (pos n) = ground arith
max_zero (negsuc n) = ground arith

positive : (z : ℤ) → ltb_ℤ (pos 0) z ≡ true → IsPositive z
positive (pos n) h = ground arith
positive (negsuc n) h = ground arith

calculate-IsMovement :
    (o : UsageObservation) (previous : UsageCursor) (d : UsageTokenDelta)
    → calculate_usage_token_delta o previous ≡ some d
    → IsMovement d
unfolding calculate_usage_token_delta
calculate-IsMovement o previous d h =
    elim (Bool-cases (ltb_ℤ (pos 0) (sub64 o.total previous.total_tokens))) [
      | inl moved ↦
          subst IsMovement (some_inj (rw (moved, calculate_usage_token_delta) at h)) (record {
            total = positive (sub64 o.total previous.total_tokens) moved;
            input = max_zero (sub64 o.input previous.input_tokens);
            output = max_zero (sub64 o.output previous.output_tokens);
            cache_read = max_zero (sub64 o.cache_read previous.cache_read_tokens);
            cache_write = max_zero (sub64 o.cache_write previous.cache_write_tokens);
          })
      | inr still ↦ absurd (none_ne_some (rw (still, calculate_usage_token_delta) at h))
    ]

-- No copy writes the field.
abbrev IsOwn : Bytes → Type 0
IsOwn j =
    (lacks j model_keys ≡ true)
    × (lacks j repo_keys ≡ true)
    × (lacks j (codes "model_provider" ∷ []) ≡ true)
    × (lacks j (codes "token_accounting" ∷ []) ≡ true)
    × (bytes_eq (codes "session_raw_total_tokens") j ≡ false)

field-copy_fields :
    (j : Bytes) (dst src : Payload) → IsOwn j → field j (copy_fields dst src) ≡ field j dst
unfolding copy_fields
field-copy_fields j dst src (m, r, p, t, w) =
    field-copy_payload_int_as j _ src (codes "raw_total_tokens") (codes "session_raw_total_tokens")
      w
    ∙ field-copy_payload_string j _ src (codes "token_accounting" ∷ []) t
    ∙ field-copy_payload_string j _ src (codes "model_provider" ∷ []) p
    ∙ field-copy_payload_string j _ src repo_keys r
    ∙ field-copy_payload_string j dst src model_keys m

Reports-copy_fields :
    (dst src : Payload) (d : UsageTokenDelta) → Reports dst d → Reports (copy_fields dst src) d
unfolding bytes_eq
Reports-copy_fields dst src d r = record {
  total = field-copy_fields (codes "total_tokens") dst src (refl, refl, refl, refl, refl) ∙ r.total;
  input = field-copy_fields (codes "input_tokens") dst src (refl, refl, refl, refl, refl) ∙ r.input;
  output =
      field-copy_fields (codes "output_tokens") dst src (refl, refl, refl, refl, refl) ∙ r.output;
  cache_read =
      field-copy_fields (codes "cache_read_tokens") dst src (refl, refl, refl, refl, refl)
      ∙ r.cache_read;
  cache_write =
      field-copy_fields (codes "cache_write_tokens") dst src (refl, refl, refl, refl, refl)
      ∙ r.cache_write;
}

module _ ⦃go : Go⦄ where
  delta_fields-Reports :
      (cfg : Config) (event : EventEnvelope) (o : UsageObservation) (previous : UsageCursor)
      (d : UsageTokenDelta) (window : ℕ × ℕ)
      → Reports (delta_fields cfg event o previous d window) d
  unfolding delta_fields get bytes_eq
  delta_fields-Reports cfg event o previous d (t, u) = record {
    total = refl;
    input = refl;
    output = refl;
    cache_read = refl;
    cache_write = refl;
  }

  initial-Reports :
      (p : Payload) (d : UsageTokenDelta)
      → Reports p d
      → Reports (put (codes "initial_observation") (boolean true) p) d
  unfolding bytes_eq
  initial-Reports p d r = record {
    total = get-put _ (codes "total_tokens") _ p ∙ r.total;
    input = get-put _ (codes "input_tokens") _ p ∙ r.input;
    output = get-put _ (codes "output_tokens") _ p ∙ r.output;
    cache_read = get-put _ (codes "cache_read_tokens") _ p ∙ r.cache_read;
    cache_write = get-put _ (codes "cache_write_tokens") _ p ∙ r.cache_write;
  }

  delta_payload-Reports :
      (cfg : Config) (event : EventEnvelope) (o : UsageObservation) (previous : UsageCursor)
      (d : UsageTokenDelta) (seen : Bool) (window : ℕ × ℕ)
      → Reports (delta_payload cfg event o previous d seen window) d
  unfolding delta_payload
  delta_payload-Reports cfg event o previous d true window =
      Reports-copy_fields _ event.payload d (delta_fields-Reports cfg event o previous d window)
  delta_payload-Reports cfg event o previous d false window =
      Reports-copy_fields _ event.payload d
        (initial-Reports _ d (delta_fields-Reports cfg event o previous d window))

  -- A delta event, where there is one, reports the movement of the tokens.
  pub record IsDelta (o : UsageObservation) (previous : UsageCursor) (e : EventEnvelope)
      : Type 0 where
    pub moved : UsageTokenDelta
    pub moved_eq : calculate_usage_token_delta o previous ≡ some moved
    pub movement : IsMovement moved
    pub reports : Reports e.payload moved
    pub event_type_eq : e.event_type ≡ codes "usage.delta"

  abbrev pub Told : UsageObservation → UsageCursor → Option EventEnvelope → Type 0
  Told o previous none = calculate_usage_token_delta o previous ≡ none
  Told o previous (some e) = IsDelta o previous e

  pub delta_event-Told :
      (cfg : Config) (n : ℕ) (event : EventEnvelope) (o : UsageObservation) (previous : UsageCursor)
      (seen : Bool) (t : ℕ)
      → Told o previous (delta_event cfg n event o previous seen t)
  unfolding delta_event base_event
  delta_event-Told cfg n event o previous seen t =
      elim (Option-cases (calculate_usage_token_delta o previous)) [
        | inl still ↦ rw (still, delta_event) still
        | inr (d, moved) ↦
            rw (moved, delta_event)
              (record {
                moved = d;
                moved_eq = moved;
                movement = calculate-IsMovement o previous d moved;
                reports =
                    delta_payload-Reports cfg event o previous d seen
                      (usage_delta_window cfg event.payload previous t);
                event_type_eq = refl;
              })
      ]

  -- A delta event reports some tokens, and no counter below zero.
  pub record IsReport (e : EventEnvelope) : Type 0 where
    pub moved : UsageTokenDelta
    pub movement : IsMovement moved
    pub reports : Reports e.payload moved

  abbrev MaybeReport : Option EventEnvelope → Type 0
  MaybeReport none = Unit {0}
  MaybeReport (some e) = IsReport e

  Told-MaybeReport :
      (o : UsageObservation) (previous : UsageCursor) (d : Option EventEnvelope)
      → Told o previous d
      → MaybeReport d
  Told-MaybeReport o previous none t = tt
  Told-MaybeReport o previous (some e) t = record {
    moved = t.moved;
    movement = t.movement;
    reports = t.reports;
  }

  delta_against-MaybeReport :
      (cfg : Config) (n : ℕ) (event : EventEnvelope) (o : UsageObservation) (t : ℕ)
      (previous : Option (UsageCursor × Bool))
      → MaybeReport (delta_against cfg n event o t previous)
  unfolding delta_against
  delta_against-MaybeReport cfg n event o t none = tt
  delta_against-MaybeReport cfg n event o t (some (previous, seen)) =
      Told-MaybeReport o (seed_cache o previous) _
        (delta_event-Told cfg n event o (seed_cache o previous) seen t)

  delta_of-MaybeReport :
      (cfg : Config) (n : ℕ) (event : EventEnvelope) (store : UsageCursorStore) (t : ℕ)
      (o : Option UsageObservation)
      → MaybeReport (delta_of (maybe_delta cfg n event store t o))
  unfolding maybe_delta delta_of_observation
  delta_of-MaybeReport cfg n event store t none = tt
  delta_of-MaybeReport cfg n event store t (some o) = delta_against-MaybeReport cfg n event o t _

  All-add_delta :
      (d : Option EventEnvelope) (deltas : List EventEnvelope)
      → MaybeReport d
      → All IsReport deltas
      → All IsReport (add_delta d deltas)
  All-add_delta none deltas r a = a
  All-add_delta (some e) deltas r a = (r, a)

  build_usage_deltas-IsReport :
      (cfg : Config) (n : ℕ) (store : UsageCursorStore) (t : ℕ) (events : List EventEnvelope)
      (next : UsageCursorStore)
      → All IsReport (build_usage_deltas cfg n store t events next).0
  unfolding build_usage_deltas usage_delta_from_event
  build_usage_deltas-IsReport cfg n store t [] next = tt
  build_usage_deltas-IsReport cfg n store t (event ∷ events) next =
      All-add_delta _ _
        (delta_of-MaybeReport cfg n event store t (usage_observation_from_event event))
        (build_usage_deltas-IsReport cfg (n + 1) store t events _)

  -- Whatever the events of a poll and the cursors before it, each delta that it sends reports a
  -- total of some tokens, and no counter of it is below zero.
  pub build_usage_delta_events-IsReport :
      (cfg : Config) (n : ℕ) (store : UsageCursorStore) (t : ℕ) (events : List EventEnvelope)
      → All IsReport (build_usage_delta_events cfg n store t events).0
  unfolding build_usage_delta_events
  build_usage_delta_events-IsReport cfg n store t events =
      build_usage_deltas-IsReport cfg n store t events store
