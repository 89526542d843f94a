-- ===== src/Usage/Claude/Sums.antt =====
-- Sums of usages (claude_usage_types.go), whose counters wrap around.
use gesta_agent.Prelude.{
  ◌≡◌, ◌↔◌, refl, sym, ap, ◌∙◌, inl, inr, true, List, [], ◌∷◌, if◌then◌else◌, arith, Bool-cases,
}
use gesta_agent.Prelude.Int.{◌+ℤ◌}
use gesta_agent.Int64.{int64}
use gesta_agent.Int64.Ring.{add64_comm, add64_assoc, add64_zero}
use gesta_agent.Bytes.{bytes_eq_iff}
use gesta_agent.Usage.Claude.{
  AssistantUsage, ModelDay, Buckets, no_usage, add_usage, same_bucket, bucket, put_bucket,
}

usage_eq :
    (u v : AssistantUsage)
    → u.input_tokens ≡ v.input_tokens
    → u.output_tokens ≡ v.output_tokens
    → u.cache_creation_tokens ≡ v.cache_creation_tokens
    → u.cache_read_tokens ≡ v.cache_read_tokens
    → u ≡ v
usage_eq u v i o c r = cc

pub add_usage_comm : (u v : AssistantUsage) → add_usage u v ≡ add_usage v u
unfolding add_usage
add_usage_comm u v =
    usage_eq (add_usage u v) (add_usage v u) (add64_comm _ _) (add64_comm _ _) (add64_comm _ _)
      (add64_comm _ _)

pub add_usage_assoc :
    (u v w : AssistantUsage) → add_usage (add_usage u v) w ≡ add_usage u (add_usage v w)
unfolding add_usage
add_usage_assoc u v w =
    usage_eq (add_usage (add_usage u v) w) (add_usage u (add_usage v w)) (add64_assoc _ _ _)
      (add64_assoc _ _ _) (add64_assoc _ _ _) (add64_assoc _ _ _)

-- The last usage may be moved forward.
pub add_usage_swap :
    (u v w : AssistantUsage) → add_usage (add_usage u v) w ≡ add_usage (add_usage u w) v
add_usage_swap u v w =
    add_usage_assoc u v w ∙ ap (add_usage u) (add_usage_comm v w) ∙ sym (add_usage_assoc u w v)

-- The counters are within 64 bits.
abbrev pub IsWrapped : AssistantUsage → Type 0
IsWrapped u = add_usage u no_usage ≡ u

pub add_usage-IsWrapped : (u v : AssistantUsage) → IsWrapped (add_usage u v)
unfolding add_usage
add_usage-IsWrapped u v =
    usage_eq (add_usage (add_usage u v) no_usage) (add_usage u v) (add64_zero _ _) (add64_zero _ _)
      (add64_zero _ _) (add64_zero _ _)

pub no_usage-IsWrapped : IsWrapped no_usage
unfolding add_usage int64 ◌+ℤ◌
no_usage-IsWrapped = refl

abbrev pub sum_usage : List AssistantUsage → AssistantUsage
sum_usage [] = no_usage
sum_usage (u ∷ l) = add_usage u (sum_usage l)

pub sum_usage-IsWrapped : (l : List AssistantUsage) → IsWrapped (sum_usage l)
sum_usage-IsWrapped [] = no_usage-IsWrapped
sum_usage-IsWrapped (u ∷ l) = add_usage-IsWrapped u (sum_usage l)

pub no_usage-add : (u : AssistantUsage) → IsWrapped u → add_usage no_usage u ≡ u
no_usage-add u h = add_usage_comm no_usage u ∙ h

abbrev pub usages_of : Buckets → List AssistantUsage
usages_of [] = []
usages_of ((key, u) ∷ l) = u ∷ usages_of l

sum-put_bucket :
    (key : ModelDay) (b u : AssistantUsage) (l : Buckets)
    → bucket key l ≡ b
    → sum_usage (usages_of (put_bucket key (add_usage b u) l))
      ≡ add_usage (sum_usage (usages_of l)) u
unfolding put_bucket bucket
sum-put_bucket key b u [] h =
    ap (λ x. add_usage (add_usage x u) no_usage) (sym h) ∙ add_usage-IsWrapped no_usage u
sum-put_bucket key b u ((k, v) ∷ l) h = elim (Bool-cases (same_bucket k key)) [
  | inl same ↦
      let held : v ≡ b = rw same at h in
      rw (same, sym held) (add_usage_swap v u (sum_usage (usages_of l)))
  | inr apart ↦ rw apart (
      ap (add_usage v) (sum-put_bucket key b u l (rw apart at h))
      ∙ sym (add_usage_assoc v (sum_usage (usages_of l)) u))
]

-- Adding to a bucket adds to the sum of the buckets.
pub sum_usage-put_bucket :
    (key : ModelDay) (u : AssistantUsage) (l : Buckets)
    → sum_usage (usages_of (put_bucket key (add_usage (bucket key l) u) l))
      ≡ add_usage (sum_usage (usages_of l)) u
sum_usage-put_bucket key u l = sum-put_bucket key (bucket key l) u l refl

pub same_bucket_iff : (i j : ModelDay) → (same_bucket i j ≡ true) ↔ (i ≡ j)
unfolding same_bucket
same_bucket_iff (m, d) (n, e) = ground (arith, bytes_eq_iff m n, bytes_eq_iff d e)

pub bucket-put_bucket :
    (key j : ModelDay) (u : AssistantUsage) (l : Buckets)
    → bucket j (put_bucket key u l) ≡ (if same_bucket key j then u else bucket j l)
unfolding put_bucket bucket
bucket-put_bucket key j u [] = refl
bucket-put_bucket key j u ((k, v) ∷ l) = grind (
  arith,
  same_bucket_iff key j,
  same_bucket_iff k key,
  same_bucket_iff k j,
  bucket-put_bucket key j u l,
)
