-- ===== src/Usage/Fork/Offset/Reduced.antt =====
-- What a session keeps of its usage (claude_fork_accounting.go).
use gesta_agent.Prelude.{
  ◌≡◌, refl, sym, ap, ◌∙◌, inl, inr, false, List, [], ◌∷◌, ◌++◌, arith, All, Bool-cases,
}
use gesta_agent.Prelude.Int.{ℤ, pos, negsuc, neg_part, max_ℤ}
use gesta_agent.Int64.{sub64}
use gesta_agent.Bytes.{Bytes}
use gesta_agent.Assoc.{get}
use gesta_agent.Go.{Go}
use gesta_agent.Usage.Claude.{
  AssistantUsage, SessionUsage, Buckets, no_usage, add_usage, is_zero_usage,
}
use gesta_agent.Usage.Claude.Sums.{add_usage_comm, add_usage_assoc, sum_usage, usages_of}
use gesta_agent.Usage.Fork.Offset.{
  UsageOffset, Offsets, or_no_usage, subtract_claude_fork_usage_offset, subtract_offsets,
  claude_accounting_bucket_key_from_day, apply_claude_inherited_offsets,
}

-- No counter is below zero, and some counter is above it.
pub record IsLeft (u : AssistantUsage) : Type 0 where
  pub input : neg_part u.input_tokens ≡ 0
  pub output : neg_part u.output_tokens ≡ 0
  pub cache_creation : neg_part u.cache_creation_tokens ≡ 0
  pub cache_read : neg_part u.cache_read_tokens ≡ 0
  pub some_left : is_zero_usage u ≡ false

max_nought : (z : ℤ) → neg_part (max_ℤ (pos 0) z) ≡ 0
max_nought (pos n) = ground arith
max_nought (negsuc n) = ground arith

subtract-IsLeft :
    (u : AssistantUsage) (o : UsageOffset)
    → is_zero_usage (subtract_claude_fork_usage_offset u o) ≡ false
    → IsLeft (subtract_claude_fork_usage_offset u o)
unfolding subtract_claude_fork_usage_offset
subtract-IsLeft u o h = record {
  input = max_nought (sub64 u.input_tokens o.input_tokens);
  output = max_nought (sub64 u.output_tokens o.output_tokens);
  cache_creation = max_nought (sub64 u.cache_creation_tokens o.cache_creation_tokens);
  cache_read = max_nought (sub64 u.cache_read_tokens o.cache_read_tokens);
  some_left = h;
}

All-append {ℓ κ} : {A : Type ℓ} (P : A → Type κ) (l m : List A) → All P l → All P m → All P (l ++ m)
All-append P [] m h k = k
All-append P (a ∷ l) m (p, h) k = (p, All-append P l m h k)

usages_of-append : (l m : Buckets) → usages_of (l ++ m) ≡ usages_of l ++ usages_of m
usages_of-append [] m = refl
usages_of-append ((key, u) ∷ l) m = ap (◌∷◌ u) (usages_of-append l m)

sum_usage-append :
    (l : List AssistantUsage) (u : AssistantUsage)
    → sum_usage (l ++ (u ∷ [])) ≡ add_usage (sum_usage l) u
sum_usage-append [] u = add_usage_comm u no_usage
sum_usage-append (v ∷ l) u =
    ap (add_usage v) (sum_usage-append l u) ∙ sym (add_usage_assoc v (sum_usage l) u)

module _ ⦃go : Go⦄ where
  -- The total is the sum of the buckets, and each bucket keeps something.
  pub record Reduced (s : SessionUsage) : Type 0 where
    pub total : sum_usage (usages_of s.by_model_day) ≡ s.total
    pub each : All IsLeft (usages_of s.by_model_day)

  subtract_offsets-kept :
      (offsets : Offsets) (l kept : Buckets) (t : AssistantUsage)
      → sum_usage (usages_of kept) ≡ t
      → All IsLeft (usages_of kept)
      → let (buckets, total) = subtract_offsets offsets l kept t in
        (sum_usage (usages_of buckets) ≡ total) × All IsLeft (usages_of buckets)
  unfolding subtract_offsets
  subtract_offsets-kept offsets [] kept t h a = (h, a)
  subtract_offsets-kept offsets (((model, day), u) ∷ l) kept t h a =
      let key = claude_accounting_bucket_key_from_day model day in
      let left = subtract_claude_fork_usage_offset u (or_no_usage (get key offsets)) in
      let grown : usages_of (kept ++ (((model, day), left) ∷ [])) ≡ usages_of kept ++ (left ∷ []) =
        usages_of-append kept (((model, day), left) ∷ []) in
      elim (Bool-cases (is_zero_usage left)) [
        | inl nothing ↦ rw nothing (subtract_offsets-kept offsets l kept t h a)
        | inr something ↦ rw something (
            subtract_offsets-kept offsets l (kept ++ (((model, day), left) ∷ [])) (add_usage t left)
              (ap sum_usage grown
                ∙ sum_usage-append (usages_of kept) left
                ∙ ap (λ x. add_usage x left) h)
              (rw grown (
                All-append IsLeft (usages_of kept) (left ∷ []) a
                  (subtract-IsLeft u (or_no_usage (get key offsets)) something, tt))))
      ]

  -- A session that has offsets keeps buckets that each have some usage and no counter below zero,
  -- and its total is their sum.
  pub apply_claude_inherited_offsets-Reduced :
      (s : SessionUsage) (o : Bytes × UsageOffset) (l : Offsets)
      → Reduced (apply_claude_inherited_offsets s (o ∷ l))
  unfolding apply_claude_inherited_offsets
  apply_claude_inherited_offsets-Reduced s o l =
      let (sum, each) = subtract_offsets-kept (o ∷ l) s.by_model_day [] no_usage refl tt in
      record { total = sum; each = each }
