-- ===== src/Usage/Fork/Owner/Once.antt =====
-- What several sessions hold is counted in one of them (claude_fork_accounting.go).
use gesta_agent.Prelude.{
  ◌≡◌, ◌≢◌, ◌⊎◌, refl, sym, ◌∙◌, subst, inl, inr, true, false, List, [], ◌∷◌, arith, if◌then◌else◌,
  Bool-cases, ltb, ltb→lt, length,
}
use gesta_agent.Bytes.{Bytes, bytes_eq, bytes_eq_iff, bytes_eq_refl}
use gesta_agent.Assoc.{get}
use gesta_agent.Go.{Go}
use gesta_agent.Usage.Claude.{SessionUsage}
use gesta_agent.Usage.Merge.{one_of_names}
use gesta_agent.Usage.Fork.Owner.{
  Ranks, Owners, choose_owner, resolve_claude_accounting_owners, owner_of, inherited,
  occurrences_of,
}
use gesta_agent.Usage.Fork.Owner.Holders.{
  members, owner_of-resolve, is_held, occurrences_of-holds, occurrences_of-Keyed, is_held-named,
}
use gesta_agent.Usage.Fork.Owner.Least.{UpTo, choose_owner-Least, choose_owner-first, two_names}

module _ ⦃go : Go⦄ (identities : SessionUsage → List Bytes) where
  unfoldable pub owners_of : List SessionUsage → Ranks → Owners
  owners_of sessions ranks =
      resolve_claude_accounting_owners (occurrences_of identities sessions []) ranks

  -- Among the sessions that hold the identity some session counts it, no two do, and the one
  -- that does comes before all others, by its rank and then by its name.
  pub record CountedOnce (sessions : List SessionUsage) (ranks : Ranks) (h : Bytes) : Type 0 where
    pub some_counts :
        (id : Bytes)
        → is_held identities h id sessions ≡ true
        → (o : Bytes) × (is_held identities h o sessions ≡ true)
          × (inherited (owners_of sessions ranks) o h ≡ false)
    pub one_counts :
        (i j : Bytes)
        → is_held identities h i sessions ≡ true
        → is_held identities h j sessions ≡ true
        → inherited (owners_of sessions ranks) i h ≡ false
        → inherited (owners_of sessions ranks) j h ≡ false
        → i ≡ j
    pub first_counts :
        (i j : Bytes)
        → is_held identities h i sessions ≡ true
        → inherited (owners_of sessions ranks) i h ≡ false
        → is_held identities h j sessions ≡ true
        → UpTo ranks i j

  module _ (sessions : List SessionUsage) (ranks : Ranks) (h : Bytes) where
    abbrev holders : List Bytes
    holders = members h (occurrences_of identities sessions [])

    abbrev owner : Bytes
    owner = owner_of h (owners_of sessions ranks)

    holders-held : (id : Bytes) → one_of_names id holders ≡ is_held identities h id sessions
    unfolding get one_of_names
    holders-held id = ground (arith, occurrences_of-holds identities h id sessions [])

    owner-choice : owner ≡ (if ltb (length holders) 2 then [] else choose_owner ranks [] holders)
    unfolding owners_of
    owner-choice =
        owner_of-resolve h (occurrences_of identities sessions []) ranks
          (occurrences_of-Keyed identities sessions [] tt)

    -- With two holders there is an owner, the least of them.
    record Owned (o : Bytes) : Type 0 where
      named : o ≢ []
      held : is_held identities h o sessions ≡ true
      least : (id : Bytes) → is_held identities h id sessions ≡ true → UpTo ranks o id

    choose-Owned :
        (l : List Bytes)
        → ((id : Bytes) → one_of_names id l ≡ is_held identities h id sessions)
        → ltb (length l) 2 ≡ false
        → Owned (choose_owner ranks [] l)
    unfolding one_of_names
    choose-Owned [] same many = absurd (ground arith)
    choose-Owned (x ∷ l) same many =
        let named : (id : Bytes) → one_of_names id (x ∷ l) ≡ true → id ≢ [] =
          λ id e. is_held-named identities h id sessions (sym (same id) ∙ e) in
        let first : one_of_names x (x ∷ l) ≡ true = ground (arith, bytes_eq_refl x) in
        let chosen =
          choose_owner-Least ranks x l (named x first) (λ id e. named id (ground (arith, e))) in
        let at : (id : Bytes)
            → (id ≡ x) ⊎ (one_of_names id l ≡ true)
            → one_of_names id (x ∷ l) ≡ true =
          λ id e. elim e [
            | inl e ↦ ground (arith, e, bytes_eq_iff x id)
            | inr later ↦ ground (arith, later)
          ] in
        rw (choose_owner-first ranks x l) (record {
          named = chosen.named;
          held = sym (same (choose_owner ranks x l)) ∙ at (choose_owner ranks x l) chosen.among;
          least = λ id e. elim (Bool-cases (bytes_eq x id)) [
            | inl here ↦
                subst (UpTo ranks (choose_owner ranks x l)) ((bytes_eq_iff x id).0 here)
                  chosen.first
            | inr there ↦ chosen.least id (ground (arith, same id, e, there))
          ];
        })

    owned : ltb (length holders) 2 ≡ false → Owned owner
    owned many =
        let chosen : owner ≡ choose_owner ranks [] holders = owner-choice ∙ rw many refl in
        rw chosen (choose-Owned holders holders-held many)

    unowned : ltb (length holders) 2 ≡ true → owner ≡ []
    unowned few = owner-choice ∙ rw few refl

    counts_unowned : (id : Bytes) → owner ≡ [] → inherited (owners_of sessions ranks) id h ≡ false
    unfolding inherited bytes_eq
    counts_unowned id e = rw e refl

    counts_owner : inherited (owners_of sessions ranks) owner h ≡ false
    unfolding inherited
    counts_owner = ground (arith, bytes_eq_refl owner)

    counts_other :
        (id : Bytes) → owner ≢ [] → inherited (owners_of sessions ranks) id h ≡ false → owner ≡ id
    unfolding inherited
    counts_other id n e = ground (arith, bytes_eq_iff owner [], bytes_eq_iff owner id)

    only_holder :
        (i j : Bytes)
        → is_held identities h i sessions ≡ true
        → is_held identities h j sessions ≡ true
        → ltb (length holders) 2 ≡ true
        → i ≡ j
    only_holder i j p q few = elim (Bool-cases (bytes_eq i j)) [
      | inl same ↦ (bytes_eq_iff i j).0 same
      | inr other ↦ absurd (
          omega (
            arith,
            two_names i j holders other (holders-held i ∙ p) (holders-held j ∙ q),
            ltb→lt (length holders) 2 few,
          ))
    ]

    -- What several sessions hold (an invocation, a turn, a tool call) is counted in exactly one of
    -- those that hold it, the one of the least rank.
    pub resolve_claude_accounting_owners-CountedOnce : CountedOnce sessions ranks h
    resolve_claude_accounting_owners-CountedOnce = elim (Bool-cases (ltb (length holders) 2)) [
      | inl few ↦ record {
        some_counts = λ id e. (id, e, counts_unowned id (unowned few));
        one_counts = λ i j p q a b. only_holder i j p q few;
        first_counts = λ i j p a q. inl (only_holder i j p q few);
      }
      | inr many ↦
          let o = owned many in
          record {
            some_counts = λ id e. (owner, o.held, counts_owner);
            one_counts = λ i j p q a b. sym (counts_other i o.named a) ∙ counts_other j o.named b;
            first_counts =
                λ i j p a q. subst (λ x. UpTo ranks x j) (counts_other i o.named a) (o.least j q);
          }
    ]
