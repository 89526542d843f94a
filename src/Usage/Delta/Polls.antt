-- ===== src/Usage/Delta/Polls.antt =====
-- What the deltas of a session report over several polls (usage_delta.go).
use gesta_agent.Prelude.{
  ℕ, ◌+◌, ◌≡◌, sym, ap, ◌∙◌, inl, inr, false, List, [], ◌∷◌, Option, none, some, arith, Bool-cases,
  some_inj, none_ne_some,
}
use gesta_agent.Prelude.Int.{ℤ, pos, negsuc, ◌+ℤ◌, ◌-ℤ◌, ◌≤ℤ◌, ltb_ℤ, int_laws}
use gesta_agent.Int64.{sub64, IsCount, sub64_count}
use gesta_agent.Bytes.{codes}
use gesta_agent.Model.{EventEnvelope, Value}
use gesta_agent.Go.{Go}
use gesta_agent.Payload.{field, as_int64, or_zero}
use gesta_agent.Usage.Observation.{
  UsageCursor, UsageCursorStore, UsageObservation, UsageTokenDelta, Config,
  calculate_usage_token_delta, seed_cache,
}
use gesta_agent.Usage.Delta.{add_delta, build_usage_delta_events}
use gesta_agent.Usage.Delta.Reported.{Told}

module _ ⦃go : Go⦄ where
  -- The tokens that deltas report in all.
  abbrev reported : EventEnvelope → ℤ
  reported e = or_zero (as_int64 (field (codes "total_tokens") e.payload))

  abbrev pub reported_sum : List EventEnvelope → ℤ
  reported_sum [] = pos 0
  reported_sum (e ∷ l) = reported e +ℤ reported_sum l

  -- The polls, at their times; the cursors that each saves are the next one's.
  abbrev pub reported_by_polls : Config → ℕ → UsageCursorStore → List (ℕ × List EventEnvelope) → ℤ
  reported_by_polls cfg n store [] = pos 0
  reported_by_polls cfg n store ((t, events) ∷ polls) =
      let (deltas, store') = build_usage_delta_events cfg n store t events in
      reported_sum deltas +ℤ reported_by_polls cfg (n + 1) store' polls

  pub telescope : (a b c : ℤ) → (b -ℤ a) +ℤ (c -ℤ b) ≡ c -ℤ a
  telescope a b c = omega int_laws

  add_zero : (z : ℤ) → z +ℤ pos 0 ≡ z
  add_zero z = omega int_laws

  no_movement : (z : ℤ) → pos 0 ≤ℤ z → ltb_ℤ (pos 0) z ≡ false → pos 0 ≡ z
  no_movement (pos n) up still = ground arith
  no_movement (negsuc n) up still = ground arith

  calculate-none :
      (o : UsageObservation) (previous : UsageCursor)
      → calculate_usage_token_delta o previous ≡ none
      → ltb_ℤ (pos 0) (sub64 o.total previous.total_tokens) ≡ false
  unfolding calculate_usage_token_delta
  calculate-none o previous h =
      elim (Bool-cases (ltb_ℤ (pos 0) (sub64 o.total previous.total_tokens))) [
        | inl moved ↦ absurd (none_ne_some (sym (rw (moved, calculate_usage_token_delta) at h)))
        | inr still ↦ still
      ]

  calculate-some :
      (o : UsageObservation) (previous : UsageCursor) (d : UsageTokenDelta)
      → calculate_usage_token_delta o previous ≡ some d
      → d.total ≡ sub64 o.total previous.total_tokens
  unfolding calculate_usage_token_delta
  calculate-some o previous d h =
      elim (Bool-cases (ltb_ℤ (pos 0) (sub64 o.total previous.total_tokens))) [
        | inl moved ↦
            ap (λ (x : UsageTokenDelta). x.total)
              (sym (some_inj (rw (moved, calculate_usage_token_delta) at h)))
        | inr still ↦ absurd (none_ne_some (rw (still, calculate_usage_token_delta) at h))
      ]

  -- One poll with a cursor.
  pub add_delta-total :
      (o : UsageObservation) (previous : UsageCursor) (d : Option EventEnvelope)
      → IsCount o.total
      → IsCount previous.total_tokens
      → previous.total_tokens ≤ℤ o.total
      → Told o previous d
      → reported_sum (add_delta d []) ≡ o.total -ℤ previous.total_tokens
  unfolding as_int64
  add_delta-total o previous none co cp up h =
      let exact = sub64_count o.total previous.total_tokens co cp in
      let still : ltb_ℤ (pos 0) (o.total -ℤ previous.total_tokens) ≡ false =
        rw exact at (calculate-none o previous h) in
      no_movement (o.total -ℤ previous.total_tokens) (omega int_laws) still
  add_delta-total o previous (some e) co cp up t =
      add_zero (reported e)
      ∙ ap (λ (v : Option Value). or_zero (as_int64 v)) t.reports.total
      ∙ calculate-some o previous t.moved t.moved_eq
      ∙ sub64_count o.total previous.total_tokens co cp

  pub seed_cache-total :
      (o : UsageObservation) (c : UsageCursor) → (seed_cache o c).total_tokens ≡ c.total_tokens
  unfolding seed_cache
  seed_cache-total o c = ground arith

  -- What sums have grown by.
  pub grown_none : (z : ℤ) → pos 0 ≡ z -ℤ z
  grown_none z = omega int_laws

  pub grown_one : (a b c d : ℤ) → (b -ℤ a) +ℤ (d -ℤ c) ≡ (b +ℤ d) -ℤ (a +ℤ c)
  grown_one a b c d = omega int_laws

  pub grown_other : (a c d : ℤ) → d -ℤ c ≡ (a +ℤ d) -ℤ (a +ℤ c)
  grown_other a c d = omega int_laws
