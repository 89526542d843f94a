-- ===== src/Usage/Fork/Offset/Growing.antt =====
-- The offsets of a session never shrink (claude_fork_accounting.go).
use gesta_agent.Prelude.{
  ◌≡◌, refl, subst, inl, inr, Bool, true, false, ◌||◌, List, [], ◌∷◌, arith, if◌then◌else◌,
  Bool-cases,
}
use gesta_agent.Prelude.Int.{ℤ, ◌≤ℤ◌, max_ℤ}
use gesta_agent.Bytes.{Bytes, bytes_eq, bytes_eq_iff}
use gesta_agent.Assoc.{get, put, get-put, get-del}
use gesta_agent.Go.{Go}
use gesta_agent.Usage.Claude.{AssistantUsage, SessionUsage}
use gesta_agent.Usage.Fork.Owner.{Owners, or_nil, id_of}
use gesta_agent.Usage.Fork.Offset.{
  UsageOffset, Offsets, or_no_usage, max_usage, merge_claude_usage_offsets, observed_offsets,
  put_offsets, collect_offsets, next_claude_inherited_offsets,
}

-- Counter by counter.
pub record AtMost (u v : AssistantUsage) : Type 0 where
  pub input : u.input_tokens ≤ℤ v.input_tokens
  pub output : u.output_tokens ≤ℤ v.output_tokens
  pub cache_creation : u.cache_creation_tokens ≤ℤ v.cache_creation_tokens
  pub cache_read : u.cache_read_tokens ≤ℤ v.cache_read_tokens

AtMost-refl : (u : AssistantUsage) → AtMost u u
AtMost-refl u = record {
  input = omega arith;
  output = omega arith;
  cache_creation = omega arith;
  cache_read = omega arith;
}

AtMost-trans : (u v w : AssistantUsage) → AtMost u v → AtMost v w → AtMost u w
AtMost-trans u v w p q = record {
  input = omega (arith, p.input, q.input);
  output = omega (arith, p.output, q.output);
  cache_creation = omega (arith, p.cache_creation, q.cache_creation);
  cache_read = omega (arith, p.cache_read, q.cache_read);
}

max_left : (a b : ℤ) → a ≤ℤ max_ℤ a b
max_left a b = ground arith

AtMost-max_usage : (u v : AssistantUsage) → AtMost u (max_usage u v)
AtMost-max_usage u v = record {
  input = max_left u.input_tokens v.input_tokens;
  output = max_left u.output_tokens v.output_tokens;
  cache_creation = max_left u.cache_creation_tokens v.cache_creation_tokens;
  cache_read = max_left u.cache_read_tokens v.cache_read_tokens;
}

abbrev pub offset_at : Bytes → Offsets → UsageOffset
offset_at key offsets = or_no_usage (get key offsets)

put-AtMost :
    (j key : Bytes) (u : AssistantUsage) (l : Offsets)
    → AtMost (offset_at j l) (offset_at j (put key (max_usage (offset_at key l) u) l))
put-AtMost j key u l =
    let put = get-put key j (max_usage (offset_at key l) u) l in
    elim (Bool-cases (bytes_eq key j)) [
      | inl same ↦
          rw (put, same)
            (subst (λ k. AtMost (offset_at k l) (max_usage (offset_at key l) u))
              ((bytes_eq_iff key j).0 same) (AtMost-max_usage (offset_at key l) u))
      | inr other ↦ rw (put, other) (AtMost-refl (offset_at j l))
    ]

merge-AtMost :
    (key : Bytes) (right l : Offsets)
    → AtMost (offset_at key l) (offset_at key (merge_claude_usage_offsets l right))
unfolding merge_claude_usage_offsets
merge-AtMost key [] l = AtMost-refl (offset_at key l)
merge-AtMost key ((k, u) ∷ right) l =
    AtMost-trans _ _ _ (put-AtMost key k u l) (merge-AtMost key right _)

-- The offsets of one session.
abbrev pub offsets_at : Bytes → List (Bytes × Offsets) → Offsets
offsets_at id l = or_nil (get id l)

module _ ⦃go : Go⦄ where
  offsets_at-put_offsets :
      (id j : Bytes) (o : Offsets) (l : List (Bytes × Offsets))
      → offsets_at j (put_offsets id o l) ≡ (if bytes_eq id j then o else offsets_at j l)
  offsets_at-put_offsets id j [] l = ground (arith, get-del id j l)
  offsets_at-put_offsets id j (x ∷ o) l = ground (arith, get-put id j (x ∷ o) l)

  abbrev pub is_session : Bytes → List SessionUsage → Bool
  is_session id [] = false
  is_session id (s ∷ sessions) = bytes_eq (id_of s) id || is_session id sessions

  -- What is there already, or a session in the list.
  collect_offsets-AtMost :
      (id key : Bytes) (stored : List (Bytes × Offsets)) (sessions : List SessionUsage)
      (owners : Owners) (next : List (Bytes × Offsets))
      → (is_session id sessions ≡ false
          → AtMost (offset_at key (offsets_at id stored)) (offset_at key (offsets_at id next)))
      → AtMost
          (offset_at key (offsets_at id stored))
          (offset_at key (offsets_at id (collect_offsets stored sessions owners next)))
  unfolding collect_offsets
  collect_offsets-AtMost id key stored [] owners next h = h refl
  collect_offsets-AtMost id key stored (s ∷ sessions) owners next h =
      let at = id_of s in
      let observed = observed_offsets owners at s.invocations [] in
      let merged = merge_claude_usage_offsets (offsets_at at stored) observed in
      let put = offsets_at-put_offsets at id merged next in
      collect_offsets-AtMost id key stored sessions owners (put_offsets at merged next) (λ later.
        elim (Bool-cases (bytes_eq at id)) [
          | inl same ↦
              rw (put, same)
                (subst (λ i. AtMost (offset_at key (offsets_at i stored)) (offset_at key merged))
                  ((bytes_eq_iff at id).0 same) (merge-AtMost key observed (offsets_at at stored)))
          | inr other ↦ rw (put, other) (h (ground (arith, other, later)))
        ])

  -- For each session that is accounted again, no offset that was stored for it shrinks: what it has
  -- once been told not to count it never counts later.
  pub next_claude_inherited_offsets-AtMost :
      (id key : Bytes) (stored : List (Bytes × Offsets)) (sessions : List SessionUsage)
      (owners : Owners)
      → is_session id sessions ≡ true
      → AtMost
          (offset_at key (offsets_at id stored))
          (offset_at key (offsets_at id (next_claude_inherited_offsets stored sessions owners)))
  unfolding next_claude_inherited_offsets
  next_claude_inherited_offsets-AtMost id key stored sessions owners here =
      collect_offsets-AtMost id key stored sessions owners []
        (λ gone. absurd (ground (arith, here, gone)))
