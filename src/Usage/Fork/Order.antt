-- ===== src/Usage/Fork/Order.antt =====
-- The ranks of sessions, in the order in which the agent first saw them
-- (claude_fork_accounting.go).
use gesta_agent.Prelude.{
  ℕ, suc, ◌+◌, ◌%◌, ◌≤◌, ◌<◌, ◌≡◌, refl, sym, ap, ◌∙◌, inl, inr, true, false, not, ◌&&◌, ◌||◌, List,
  [], ◌∷◌, Option, none, some, arith, Bool-cases, length, is_some, some_inj,
}
use gesta_agent.Bytes.{Bytes, bytes_eq, bytes_eq_iff, bytes_lt}
use gesta_agent.Bytes.Endian.{two64}
use gesta_agent.Assoc.{get, put, get-put}
use gesta_agent.Sorting.{insert_by, sort_by}
use gesta_agent.Go.{Go}
use gesta_agent.Usage.Claude.{SessionUsage}
use gesta_agent.Usage.Merge.{one_of_names}
use gesta_agent.Usage.Fork.{ForkStore, assign_claude_session_ranks}
use gesta_agent.Usage.Fork.Owner.{Ranks, number_ranks, unranked, id_of}
use gesta_agent.Usage.Fork.Offset.Growing.{is_session}

-- No session has a rank that is not given out yet.
abbrev pub RanksBelow : ℕ → Ranks → Type 0
RanksBelow next ranks = (id : Bytes) (r : ℕ) → get id ranks ≡ some r → r ≤ next

-- A rank that was given out after `next`.
abbrev pub RankAfter : ℕ → Option ℕ → Type 0
RankAfter next o = (r : ℕ) × (o ≡ some r) × (next < r)

one_of-insert_by :
    (id x : Bytes) (l : List Bytes)
    → one_of_names id (insert_by bytes_lt x l) ≡ bytes_eq x id || one_of_names id l
unfolding insert_by one_of_names
one_of-insert_by id x [] = refl
one_of-insert_by id x (y ∷ l) = elim (Bool-cases (bytes_lt y x)) [
  | inl first ↦ rw first (ground (arith, one_of-insert_by id x l))
  | inr last ↦ rw last refl
]

one_of-sort_by :
    (id : Bytes) (l : List Bytes) → one_of_names id (sort_by bytes_lt l) ≡ one_of_names id l
unfolding sort_by one_of_names
one_of-sort_by id [] = refl
one_of-sort_by id (x ∷ l) =
    one_of-insert_by id x (sort_by bytes_lt l) ∙ ap (λ b. bytes_eq x id || b) (one_of-sort_by id l)

length-insert_by : (x : Bytes) (l : List Bytes) → length (insert_by bytes_lt x l) ≡ suc (length l)
unfolding insert_by
length-insert_by x [] = refl
length-insert_by x (y ∷ l) = elim (Bool-cases (bytes_lt y x)) [
  | inl first ↦ rw first (ap suc (length-insert_by x l))
  | inr last ↦ rw last refl
]

length-sort_by : (l : List Bytes) → length (sort_by bytes_lt l) ≡ length l
unfolding sort_by
length-sort_by [] = refl
length-sort_by (x ∷ l) = length-insert_by x (sort_by bytes_lt l) ∙ ap suc (length-sort_by l)

-- What numbering the names after `next` leaves.
record Numbered (ids : List Bytes) (next : ℕ) (ranks : Ranks) (next' : ℕ) (ranks' : Ranks)
    : Type 0 where
  kept : (id : Bytes) → one_of_names id ids ≡ false → get id ranks' ≡ get id ranks
  given : (id : Bytes) → one_of_names id ids ≡ true → RankAfter next (get id ranks')
  below : RanksBelow next ranks → RanksBelow next' ranks'

put-RanksBelow :
    (x : Bytes) (next : ℕ) (ranks : Ranks)
    → RanksBelow next ranks
    → RanksBelow (next + 1) (put x (next + 1) ranks)
put-RanksBelow x next ranks h id r e = elim (Bool-cases (bytes_eq x id)) [
  | inl same ↦
      let put : some (next + 1) ≡ some r = rw same at (sym (get-put x id (next + 1) ranks) ∙ e) in
      omega (arith, some_inj put)
  | inr other ↦
      let held : get id ranks ≡ some r = rw other at (sym (get-put x id (next + 1) ranks) ∙ e) in
      omega (arith, h id r held)
]

number_ranks-Numbered :
    (ids : List Bytes) (next : ℕ) (ranks : Ranks)
    → next + length ids < two64
    → let (next', ranks') = number_ranks ids next ranks in Numbered ids next ranks next' ranks'
unfolding number_ranks one_of_names
number_ranks-Numbered [] next ranks room = record {
  kept = λ id e. refl;
  given = λ id e. absurd (ground arith);
  below = λ h. h;
}
number_ranks-Numbered (x ∷ ids) next ranks room =
    let exact : (next + 1) % two64 ≡ next + 1 = omega arith in
    let rest = number_ranks-Numbered ids (next + 1) (put x (next + 1) ranks) (omega arith) in
    let put = λ (id : Bytes). get-put x id (next + 1) ranks in
    rw (number_ranks, exact)
      (record {
        kept = λ id e.
            let other : bytes_eq x id ≡ false = ground (arith, e) in
            rest.kept id (ground (arith, e)) ∙ put id ∙ rw other refl;
        given = λ id e. elim (Bool-cases (one_of_names id ids)) [
          | inl later ↦ let (r, at, after) = rest.given id later in (r, at, omega arith)
          | inr here ↦
              let same : bytes_eq x id ≡ true = ground (arith, e, here) in
              (next + 1, rest.kept id here ∙ put id ∙ rw same refl, omega arith)
        ];
        below = λ h. rest.below (put-RanksBelow x next ranks h);
      })

module _ ⦃go : Go⦄ where
  one_of-unranked :
      (id : Bytes) (ranks : Ranks) (sessions : List SessionUsage)
      → one_of_names id (unranked ranks sessions)
        ≡ not (is_some (get id ranks)) && is_session id sessions
  unfolding unranked one_of_names
  one_of-unranked id ranks [] = ground arith
  one_of-unranked id ranks (s ∷ sessions) =
      let at : bytes_eq (id_of s) id ≡ true → get (id_of s) ranks ≡ get id ranks =
        λ e. ap (λ k. get k ranks) ((bytes_eq_iff (id_of s) id).0 e) in
      ground (arith, at, one_of-unranked id ranks sessions)

  length-unranked :
      (ranks : Ranks) (sessions : List SessionUsage)
      → length (unranked ranks sessions) ≤ length sessions
  unfolding unranked
  length-unranked ranks [] = omega arith
  length-unranked ranks (s ∷ sessions) = ground (arith, length-unranked ranks sessions)

  -- The store after the sessions of a poll have got their ranks.
  pub record Ranked (store after : ForkStore) (sessions : List SessionUsage) : Type 0 where
    -- A rank that a session has stays.
    pub kept :
        (id : Bytes) (r : ℕ)
        → get id store.session_ranks ≡ some r
        → get id after.session_ranks ≡ some r
    -- A session without one gets one that comes after all before it.
    pub given :
        (id : Bytes)
        → get id store.session_ranks ≡ none
        → is_session id sessions ≡ true
        → RankAfter store.next_session_rank (get id after.session_ranks)
    pub below : RanksBelow after.next_session_rank after.session_ranks

  -- If fewer than 2 ^ 64 ranks are given out, sessions keep their ranks, and each session that has
  -- none gets one after all that were given out before: what is shared is counted where it was seen
  -- first.
  pub assign_claude_session_ranks-Ranked :
      (store : ForkStore) (sessions : List SessionUsage)
      → RanksBelow store.next_session_rank store.session_ranks
      → store.next_session_rank + length sessions < two64
      → Ranked store (assign_claude_session_ranks store sessions) sessions
  unfolding assign_claude_session_ranks
  assign_claude_session_ranks-Ranked store sessions below room =
      let ranks = store.session_ranks in
      let ids = sort_by bytes_lt (unranked ranks sessions) in
      let numbered = number_ranks-Numbered ids store.next_session_rank ranks (
        omega (
          arith,
          room,
          length-sort_by (unranked ranks sessions),
          length-unranked ranks sessions,
        )) in
      let new = λ (id : Bytes).
        one_of-sort_by id (unranked ranks sessions) ∙ one_of-unranked id ranks sessions in
      record {
        kept = λ id r e. numbered.kept id (new id ∙ rw e refl) ∙ e;
        given = λ id fresh here. numbered.given id (new id ∙ rw (fresh, here) refl);
        below = numbered.below below;
      }
