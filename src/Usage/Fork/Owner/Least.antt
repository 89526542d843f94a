-- ===== src/Usage/Fork/Owner/Least.antt =====
-- The owner that claude_fork_accounting.go chooses is the least holder, by rank and then by name.
use gesta_agent.Prelude.{
  ◌≡◌, ◌≢◌, ◌⊎◌, refl, subst, inl, inr, true, false, List, [], ◌∷◌, arith, Bool-cases, length, ◌≤◌,
}
use gesta_agent.Bytes.{Bytes, bytes_eq, bytes_eq_iff, bytes_eq_refl, bytes_lt_trans, bytes_lt_total}
use gesta_agent.Usage.Merge.{one_of_names}
use gesta_agent.Usage.Fork.Owner.{Ranks, precedes, choose_owner}

-- `a` is `b`, or comes before it.
abbrev pub UpTo : Ranks → Bytes → Bytes → Type 0
UpTo ranks a b = (a ≡ b) ⊎ (precedes ranks a b ≡ true)

precedes_trans :
    (ranks : Ranks) (a b c : Bytes)
    → b ≢ []
    → c ≢ []
    → precedes ranks a b ≡ true
    → precedes ranks b c ≡ true
    → precedes ranks a c ≡ true
unfolding precedes
precedes_trans ranks a b c nb nc p q =
    ground (arith, bytes_eq_iff b [], bytes_eq_iff c [], bytes_lt_trans a b c)

precedes_total :
    (ranks : Ranks) (a b : Bytes) → a ≢ [] → precedes ranks a b ≡ false → UpTo ranks b a
unfolding precedes
precedes_total ranks a b na p =
    ground (arith, bytes_eq_iff a [], bytes_eq_iff b [], bytes_eq_iff b a, bytes_lt_total a b)

UpTo-trans :
    (ranks : Ranks) (a b c : Bytes)
    → b ≢ []
    → c ≢ []
    → UpTo ranks a b
    → UpTo ranks b c
    → UpTo ranks a c
UpTo-trans ranks a b c nb nc (inl e) q = rw e q
UpTo-trans ranks a b c nb nc (inr p) (inl e) = inr (rw e at p)
UpTo-trans ranks a b c nb nc (inr p) (inr q) = inr (precedes_trans ranks a b c nb nc p q)

-- What is chosen out of some names, the first of them `o`.
pub record Least (ranks : Ranks) (o : Bytes) (l : List Bytes) (r : Bytes) : Type 0 where
  pub named : r ≢ []
  pub among : (r ≡ o) ⊎ (one_of_names r l ≡ true)
  pub first : UpTo ranks r o
  pub least : (id : Bytes) → one_of_names id l ≡ true → UpTo ranks r id

pub choose_owner-Least :
    (ranks : Ranks) (o : Bytes) (l : List Bytes)
    → o ≢ []
    → ((id : Bytes) → one_of_names id l ≡ true → id ≢ [])
    → Least ranks o l (choose_owner ranks o l)
unfolding choose_owner one_of_names
choose_owner-Least ranks o [] o_named h = record {
  named = o_named;
  among = inl refl;
  first = inl refl;
  least = λ id e. ground arith;
}
choose_owner-Least ranks o (x ∷ l) o_named h =
    let nx : x ≢ [] = h x (ground (arith, bytes_eq_refl x)) in
    let hl : (id : Bytes) → one_of_names id l ≡ true → id ≢ [] = λ id e. h id (ground arith) in
    elim (Bool-cases (precedes ranks x o)) [
      | inl p ↦
          let rest = choose_owner-Least ranks x l nx hl in
          rw p (record {
            named = rest.named;
            among = inr (elim rest.among [
              | inl e ↦ ground (arith, bytes_eq_iff x (choose_owner ranks x l), e)
              | inr e ↦ ground (arith, e)
            ]);
            first = UpTo-trans ranks _ x o nx o_named rest.first (inr p);
            least = λ id e. elim (Bool-cases (bytes_eq x id)) [
              | inl same ↦ subst (UpTo ranks _) ((bytes_eq_iff x id).0 same) rest.first
              | inr other ↦ rest.least id (ground (arith, e, other))
            ];
          })
      | inr p ↦
          let rest = choose_owner-Least ranks o l o_named hl in
          let next = UpTo-trans ranks _ o x o_named nx rest.first (precedes_total ranks x o nx p) in
          rw p (record {
            named = rest.named;
            among = elim rest.among [ inl e ↦ inl e | inr e ↦ inr (ground (arith, e)) ];
            first = rest.first;
            least = λ id e. elim (Bool-cases (bytes_eq x id)) [
              | inl same ↦ subst (UpTo ranks _) ((bytes_eq_iff x id).0 same) next
              | inr other ↦ rest.least id (ground (arith, e, other))
            ];
          })
    ]

-- Two different names are at least two.
pub two_names :
    (a b : Bytes) (l : List Bytes)
    → bytes_eq a b ≡ false
    → one_of_names a l ≡ true
    → one_of_names b l ≡ true
    → 2 ≤ length l
unfolding one_of_names
two_names a b [] n p q = ground arith
two_names a b (x ∷ []) n p q = ground (arith, bytes_eq_iff x a, bytes_eq_iff x b, bytes_eq_iff a b)
two_names a b (x ∷ y ∷ l) n p q = ground arith

-- The first name is taken whatever its rank.
pub choose_owner-first :
    (ranks : Ranks) (x : Bytes) (l : List Bytes)
    → choose_owner ranks [] (x ∷ l) ≡ choose_owner ranks x l
unfolding choose_owner precedes bytes_eq
choose_owner-first ranks x l = refl
