-- ===== src/Usage/Fork/Owner/Holders.antt =====
-- Which sessions hold an identity, and who owns it (claude_fork_accounting.go).
use gesta_agent.Prelude.{
  ◌≡◌, ◌≢◌, refl, sym, subst, inl, inr, Bool, true, false, ◌&&◌, ◌||◌, List, [], ◌∷◌, ◌++◌, none,
  arith, All, if◌then◌else◌, Bool-cases, ltb, length,
}
use gesta_agent.Bytes.{Bytes, bytes_eq, bytes_eq_iff}
use gesta_agent.Strings.{trim_space}
use gesta_agent.Assoc.{get, get-put}
use gesta_agent.Assoc.Keys.{Keyed, put-Keyed}
use gesta_agent.Go.{Go, hash_string}
use gesta_agent.Go.Digests.{hash_string-IsPlain, short_hash-IsPlain, IsPlain}
use gesta_agent.Usage.Claude.{SessionUsage}
use gesta_agent.Usage.Merge.{one_of_names}
use gesta_agent.Usage.Fork.Owner.{
  Ranks, Occurrences, or_nil, choose_owner, add_member, add_claude_accounting_occurrence,
  resolve_claude_accounting_owners, owner_of, id_of, occurrences_in, occurrences_of,
}

abbrev pub members : Bytes → Occurrences → List Bytes
members h occurrences = or_nil (get h occurrences)

one_of-append :
    (a b : Bytes) (l : List Bytes)
    → one_of_names a (l ++ (b ∷ [])) ≡ one_of_names a l || bytes_eq b a
unfolding one_of_names
one_of-append a b [] = ground arith
one_of-append a b (x ∷ l) = ground (arith, one_of-append a b l)

one_of-add_member :
    (a b : Bytes) (l : List Bytes)
    → one_of_names a (add_member b l) ≡ bytes_eq b a || one_of_names a l
unfolding add_member
one_of-add_member a b l = elim (Bool-cases (one_of_names b l)) [
  | inl known ↦ rw known (ground (arith, bytes_eq_iff b a, known))
  | inr fresh ↦ rw fresh (ground (arith, one_of-append a b l))
]

resolve-absent :
    (h : Bytes) (l : Occurrences) (ranks : Ranks)
    → All (λ p. h ≢ p.0) l
    → get h (resolve_claude_accounting_owners l ranks) ≡ none
unfolding get resolve_claude_accounting_owners
resolve-absent h [] ranks a = refl
resolve-absent h ((k, ids) ∷ l) ranks (n, a) =
    ground (arith, bytes_eq_iff k h, n, resolve-absent h l ranks a)

-- The owner is chosen among at least two.
pub owner_of-resolve :
    (h : Bytes) (l : Occurrences) (ranks : Ranks)
    → Keyed l
    → owner_of h (resolve_claude_accounting_owners l ranks)
      ≡ (if ltb (length (members h l)) 2 then [] else choose_owner ranks [] (members h l))
unfolding get resolve_claude_accounting_owners
owner_of-resolve h [] ranks d = refl
owner_of-resolve h ((k, ids) ∷ l) ranks (apart, d) =
    let rest = resolve_claude_accounting_owners l ranks in
    elim (Bool-cases (bytes_eq k h)) [
      | inl same ↦
          let at : k ≡ h = (bytes_eq_iff k h).0 same in
          let gone = resolve-absent h l ranks (rw at at apart) in
          elim (Bool-cases (ltb (length ids) 2)) [
            | inl few ↦ rw (same, few, gone) refl
            | inr many ↦ rw (same, many, same) refl
          ]
      | inr other ↦ elim (Bool-cases (ltb (length ids) 2)) [
        | inl few ↦ rw (other, few) (owner_of-resolve h l ranks d)
        | inr many ↦ rw (other, many, other) (owner_of-resolve h l ranks d)
      ]
    ]

-- An occurrence adds one holder of one identity.
one_of-occurrence :
    (h id identity holder : Bytes) (l : Occurrences)
    → IsPlain identity
    → IsPlain holder
    → one_of_names id (members h (add_claude_accounting_occurrence l identity holder))
      ≡ (bytes_eq identity h && bytes_eq holder id) || one_of_names id (members h l)
unfolding add_claude_accounting_occurrence
one_of-occurrence h id identity holder l p q =
    let put = get-put identity h (add_member holder (members identity l)) l in
    let blank : bytes_eq identity [] || bytes_eq holder [] ≡ false =
      ground (arith, bytes_eq_iff identity [], bytes_eq_iff holder [], p.named, q.named) in
    rw (p.trimmed, q.trimmed, blank, put)
      (elim (Bool-cases (bytes_eq identity h)) [
        | inl same ↦
            rw (same, sym ((bytes_eq_iff identity h).0 same))
              (one_of-add_member id holder (members identity l))
        | inr other ↦ rw other refl
      ])

occurrence-Keyed :
    (l : Occurrences) (identity holder : Bytes)
    → Keyed l
    → Keyed (add_claude_accounting_occurrence l identity holder)
unfolding add_claude_accounting_occurrence
occurrence-Keyed l identity holder d =
    elim (Bool-cases (bytes_eq (trim_space identity) [] || bytes_eq (trim_space holder) [])) [
      | inl blank ↦ rw blank d
      | inr named ↦ rw named (put-Keyed (trim_space identity) _ l d)
    ]

module _ ⦃go : Go⦄ where
  -- The session has an identity with the digest `h`.
  abbrev pub has_digest : Bytes → List Bytes → Bool
  has_digest h [] = false
  has_digest h (identity ∷ l) = bytes_eq (hash_string identity) h || has_digest h l

  occurrences_in-holds :
      (h id holder : Bytes) (identities : List Bytes) (l : Occurrences)
      → IsPlain holder
      → one_of_names id (members h (occurrences_in identities holder l))
        ≡ (has_digest h identities && bytes_eq holder id) || one_of_names id (members h l)
  unfolding occurrences_in
  occurrences_in-holds h id holder [] l p = ground arith
  occurrences_in-holds h id holder (i ∷ identities) l p = ground (
    arith,
    occurrences_in-holds h id holder identities
        (add_claude_accounting_occurrence l (hash_string i) holder) p,
    one_of-occurrence h id (hash_string i) holder l (hash_string-IsPlain i) p,
  )

  occurrences_in-Keyed :
      (identities : List Bytes) (holder : Bytes) (l : Occurrences)
      → Keyed l
      → Keyed (occurrences_in identities holder l)
  unfolding occurrences_in
  occurrences_in-Keyed [] holder l d = d
  occurrences_in-Keyed (i ∷ identities) holder l d =
      occurrences_in-Keyed identities holder _ (occurrence-Keyed l (hash_string i) holder d)

  module _ (identities : SessionUsage → List Bytes) where
    -- A session of the name `id` holds an identity with the digest `h`.
    abbrev pub is_held : Bytes → Bytes → List SessionUsage → Bool
    is_held h id [] = false
    is_held h id (s ∷ sessions) =
        (has_digest h (identities s) && bytes_eq (id_of s) id) || is_held h id sessions

    pub occurrences_of-holds :
        (h id : Bytes) (sessions : List SessionUsage) (l : Occurrences)
        → one_of_names id (members h (occurrences_of identities sessions l))
          ≡ is_held h id sessions || one_of_names id (members h l)
    unfolding occurrences_of
    occurrences_of-holds h id [] l = refl
    occurrences_of-holds h id (s ∷ sessions) l = ground (
      arith,
      occurrences_of-holds h id sessions (occurrences_in (identities s) (id_of s) l),
      occurrences_in-holds h id (id_of s) (identities s) l (short_hash-IsPlain s.session_id),
    )

    pub occurrences_of-Keyed :
        (sessions : List SessionUsage) (l : Occurrences)
        → Keyed l
        → Keyed (occurrences_of identities sessions l)
    unfolding occurrences_of
    occurrences_of-Keyed [] l d = d
    occurrences_of-Keyed (s ∷ sessions) l d =
        occurrences_of-Keyed sessions _ (occurrences_in-Keyed (identities s) (id_of s) l d)

    pub is_held-named :
        (h id : Bytes) (sessions : List SessionUsage) → is_held h id sessions ≡ true → id ≢ []
    is_held-named h id [] e = ground arith
    is_held-named h id (s ∷ sessions) e = elim (Bool-cases (bytes_eq (id_of s) id)) [
      | inl same ↦
          subst (λ x. x ≢ []) ((bytes_eq_iff (id_of s) id).0 same)
            (short_hash-IsPlain s.session_id).named
      | inr other ↦ is_held-named h id sessions (ground (arith, e, other))
    ]
