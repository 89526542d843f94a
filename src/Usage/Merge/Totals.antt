-- ===== src/Usage/Merge/Totals.antt =====
-- The totals of a merged session are those of its invocations (rebuildClaudeInvocationTotals of
-- claude_transcript_merge.go).
use gesta_agent.Prelude.{
  ◌≡◌, refl, sym, ap, ◌∙◌, inl, inr, List, [], ◌∷◌, if◌then◌else◌, Bool-cases,
}
use gesta_agent.Go.{Go}
use gesta_agent.Usage.Claude.{
  AssistantUsage, InvocationUsage, ModelDay, Buckets, SessionUsage, no_usage, add_usage,
  same_bucket, bucket, put_bucket,
}
use gesta_agent.Usage.Claude.Sums.{
  add_usage_assoc, IsWrapped, add_usage-IsWrapped, no_usage-IsWrapped, sum_usage, no_usage-add,
  usages_of, sum_usage-put_bucket, same_bucket_iff, bucket-put_bucket,
}
use gesta_agent.Usage.Merge.{day_of, rebuild_totals, rebuild_claude_invocation_totals}

module _ ⦃go : Go⦄ where
  abbrev pub used : List InvocationUsage → AssistantUsage
  used [] = no_usage
  used (i ∷ l) = add_usage i.usage (used l)

  -- What the invocations of one model on one day have used.
  abbrev pub used_in : ModelDay → List InvocationUsage → AssistantUsage
  used_in key [] = no_usage
  used_in key (i ∷ l) =
      if same_bucket (i.model, day_of i.observed_at) key
      then add_usage i.usage (used_in key l)
      else used_in key l

  pub record Rebuilt (s : SessionUsage) : Type 0 where
    pub total : s.total ≡ used s.invocations
    pub by_model_day : (key : ModelDay) → bucket key s.by_model_day ≡ used_in key s.invocations
    pub buckets : sum_usage (usages_of s.by_model_day) ≡ s.total

  used-IsWrapped : (l : List InvocationUsage) → IsWrapped (used l)
  used-IsWrapped [] = no_usage-IsWrapped
  used-IsWrapped (i ∷ l) = add_usage-IsWrapped i.usage (used l)

  used_in-IsWrapped : (key : ModelDay) (l : List InvocationUsage) → IsWrapped (used_in key l)
  used_in-IsWrapped key [] = no_usage-IsWrapped
  used_in-IsWrapped key (i ∷ l) =
      elim (Bool-cases (same_bucket (i.model, day_of i.observed_at) key)) [
        | inl same ↦ rw same (add_usage-IsWrapped i.usage (used_in key l))
        | inr apart ↦ rw apart (used_in-IsWrapped key l)
      ]

  rebuild_totals-total :
      (l : List InvocationUsage) (b : Buckets) (t : AssistantUsage)
      → IsWrapped t
      → (rebuild_totals l b t).1 ≡ add_usage t (used l)
  unfolding rebuild_totals
  rebuild_totals-total [] b t h = sym h
  rebuild_totals-total (i ∷ l) b t h =
      rebuild_totals-total l _ (add_usage t i.usage) (add_usage-IsWrapped t i.usage)
      ∙ add_usage_assoc t i.usage (used l)

  rebuild_totals-sum :
      (l : List InvocationUsage) (b : Buckets) (t : AssistantUsage)
      → sum_usage (usages_of b) ≡ t
      → sum_usage (usages_of (rebuild_totals l b t).0) ≡ (rebuild_totals l b t).1
  unfolding rebuild_totals
  rebuild_totals-sum [] b t h = h
  rebuild_totals-sum (i ∷ l) b t h = rebuild_totals-sum l _ (add_usage t i.usage) (
      sum_usage-put_bucket (i.model, day_of i.observed_at) i.usage b
      ∙ ap (λ u. add_usage u i.usage) h)

  rebuild_totals-bucket :
      (key : ModelDay) (l : List InvocationUsage) (b : Buckets) (t : AssistantUsage)
      → IsWrapped (bucket key b)
      → bucket key (rebuild_totals l b t).0 ≡ add_usage (bucket key b) (used_in key l)
  unfolding rebuild_totals
  rebuild_totals-bucket key [] b t h = sym h
  rebuild_totals-bucket key (i ∷ l) b t h =
      let at : ModelDay = (i.model, day_of i.observed_at) in
      let grown = add_usage (bucket at b) i.usage in
      let put = bucket-put_bucket at key grown b in
      elim (Bool-cases (same_bucket at key)) [
        | inl same ↦
            let here : bucket key (put_bucket at grown b) ≡ grown = rw same at put in
            let there : bucket at b ≡ bucket key b =
              ap (λ k. bucket k b) ((same_bucket_iff at key).0 same) in
            rw same (
              rebuild_totals-bucket key l (put_bucket at grown b) (add_usage t i.usage)
                (rw here (add_usage-IsWrapped (bucket at b) i.usage))
              ∙ ap (λ u. add_usage u (used_in key l)) (here ∙ ap (λ u. add_usage u i.usage) there)
              ∙ add_usage_assoc (bucket key b) i.usage (used_in key l))
        | inr apart ↦
            let here : bucket key (put_bucket at grown b) ≡ bucket key b = rw apart at put in
            rw apart (
              rebuild_totals-bucket key l (put_bucket at grown b) (add_usage t i.usage) (rw here h)
              ∙ ap (λ u. add_usage u (used_in key l)) here)
      ]

  -- The rebuilt total of a session is the sum over its invocations, each bucket is the sum over the
  -- invocations of its model and day, and the buckets sum to the total, with the wrap-around of an
  -- int64.
  pub rebuild_claude_invocation_totals-Rebuilt :
      (s : SessionUsage) → Rebuilt (rebuild_claude_invocation_totals s)
  unfolding rebuild_claude_invocation_totals bucket
  rebuild_claude_invocation_totals-Rebuilt s = record {
    total =
        rebuild_totals-total s.invocations [] no_usage no_usage-IsWrapped
        ∙ no_usage-add (used s.invocations) (used-IsWrapped s.invocations);
    by_model_day = λ key.
        rebuild_totals-bucket key s.invocations [] no_usage no_usage-IsWrapped
        ∙ no_usage-add (used_in key s.invocations) (used_in-IsWrapped key s.invocations);
    buckets = rebuild_totals-sum s.invocations [] no_usage refl;
  }
