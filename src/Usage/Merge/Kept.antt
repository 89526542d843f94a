-- ===== src/Usage/Merge/Kept.antt =====
-- What a merge of claude_transcript_merge.go keeps: of the entries with one key the greatest, once.
use gesta_agent.Prelude.{
  ◌≡◌, ◌≢◌, refl, sym, ap, ◌∙◌, inl, inr, Bool, true, List, [], ◌∷◌, ◌++◌, Option, none, some,
  arith, All, if◌then◌else◌, Bool-cases,
}
use gesta_agent.Prelude.Int.{ℤ, max_ℤ}
use gesta_agent.Bytes.{Bytes, bytes_eq, bytes_eq_iff}
use gesta_agent.Sorting.{insert_by, sort_by}
use gesta_agent.Usage.Merge.{add_found}

-- The greater of two sizes, where there is one.
abbrev pub join : Option ℤ → Option ℤ → Option ℤ
join none b = b
join (some a) none = some a
join (some a) (some b) = some (max_ℤ a b)

pub join_assoc : (a b c : Option ℤ) → join (join a b) c ≡ join a (join b c)
join_assoc none b c = refl
join_assoc (some a) none c = refl
join_assoc (some a) (some b) none = refl
join_assoc (some a) (some b) (some c) = ap some (max_assoc a b c)
  where
    max_assoc : (x y z : ℤ) → max_ℤ (max_ℤ x y) z ≡ max_ℤ x (max_ℤ y z)
    max_assoc x y z = ground arith

pub join_comm : (a b : Option ℤ) → join a b ≡ join b a
join_comm none none = refl
join_comm none (some b) = refl
join_comm (some a) none = refl
join_comm (some a) (some b) = ap some (max_comm a b)
  where
    max_comm : (x y : ℤ) → max_ℤ x y ≡ max_ℤ y x
    max_comm x y = ground arith

pub join_swap : (a b c : Option ℤ) → join a (join b c) ≡ join b (join a c)
join_swap a b c = sym (join_assoc a b c) ∙ ap (λ o. join o c) (join_comm a b) ∙ join_assoc b a c

-- The greatest size in a list. A sort leaves it alone.
abbrev pub joined {ℓ} : {A : Type ℓ} → (A → Option ℤ) → List A → Option ℤ
joined g [] = none
joined g (a ∷ l) = join (g a) (joined g l)

module _ {ℓ} {A : Type ℓ} (g : A → Option ℤ) (before : A → A → Bool) where
  joined-insert_by :
      (a : A) (l : List A) → joined g (insert_by before a l) ≡ join (g a) (joined g l)
  unfolding insert_by
  joined-insert_by a [] = refl
  joined-insert_by a (b ∷ l) = elim (Bool-cases (before b a)) [
    | inl first ↦
        rw first (ap (join (g b)) (joined-insert_by a l) ∙ join_swap (g b) (g a) (joined g l))
    | inr last ↦ rw last refl
  ]

  pub joined-sort_by : (l : List A) → joined g (sort_by before l) ≡ joined g l
  unfolding sort_by
  joined-sort_by [] = refl
  joined-sort_by (a ∷ l) =
      joined-insert_by a (sort_by before l) ∙ ap (join (g a)) (joined-sort_by l)

module _ {ℓ} {A : Type ℓ} (key : A → Bytes) (size : A → ℤ) where
  abbrev pub entry : Bytes → A → Option ℤ
  entry k a = if bytes_eq (key a) k then some (size a) else none

  -- The greatest size of what has a key.
  abbrev pub best : Bytes → List A → Option ℤ
  best k l = joined (entry k) l

  -- No two have one key.
  abbrev pub Distinct : List A → Type 0
  Distinct [] = Unit {0}
  Distinct (a ∷ l) = All (λ b. key a ≢ key b) l × Distinct l

  pub best-append : (k : Bytes) (l m : List A) → best k (l ++ m) ≡ join (best k l) (best k m)
  best-append k [] m = refl
  best-append k (a ∷ l) m =
      ap (join (entry k a)) (best-append k l m) ∙ sym (join_assoc (entry k a) (best k l) (best k m))

  module _ (before : A → A → Bool) where
    pub best-sort_by : (k : Bytes) (l : List A) → best k (sort_by before l) ≡ best k l
    best-sort_by k l = joined-sort_by (entry k) before l

    pub All-insert_by {κ} :
        (P : A → Type κ) (a : A) (l : List A) → P a → All P l → All P (insert_by before a l)
    unfolding insert_by
    All-insert_by P a [] p ps = (p, tt)
    All-insert_by P a (b ∷ l) p (q, qs) = elim (Bool-cases (before b a)) [
      | inl first ↦ rw first (q, All-insert_by P a l p qs)
      | inr last ↦ rw last (p, (q, qs))
    ]

    pub All-sort_by {κ} : (P : A → Type κ) (l : List A) → All P l → All P (sort_by before l)
    unfolding sort_by
    All-sort_by P [] ps = tt
    All-sort_by P (a ∷ l) (p, ps) = All-insert_by P a (sort_by before l) p (All-sort_by P l ps)

    insert_by-Distinct :
        (a : A) (l : List A)
        → All (λ b. key a ≢ key b) l
        → Distinct l
        → Distinct (insert_by before a l)
    unfolding insert_by
    insert_by-Distinct a [] apart d = (tt, tt)
    insert_by-Distinct a (b ∷ l) (p, ps) (q, qs) = elim (Bool-cases (before b a)) [
      | inl first ↦
          rw first (
            All-insert_by (λ x. key b ≢ key x) a l (λ e. p (sym e)) q,
            insert_by-Distinct a l ps qs,
          )
      | inr last ↦ rw last ((p, ps), (q, qs))
    ]

    pub sort_by-Distinct : (l : List A) → Distinct l → Distinct (sort_by before l)
    unfolding sort_by
    sort_by-Distinct [] d = tt
    sort_by-Distinct (a ∷ l) (p, d) =
        insert_by-Distinct a (sort_by before l) (All-sort_by (λ b. key a ≢ key b) l p)
          (sort_by-Distinct l d)

  -- What is better is what has the greater size.
  module _ (better : A → A → Bool)
      (honest : (f e : A) → size (if better f e then f else e) ≡ max_ℤ (size f) (size e)) where
    kept : A → A → A
    kept f e = if better f e then f else e

    key-kept :
        (f e : A) → bytes_eq (key e) (key f) ≡ true → key (if better f e then f else e) ≡ key e
    key-kept f e same = elim (Bool-cases (better f e)) [
      | inl b ↦ rw b (sym ((bytes_eq_iff (key e) (key f)).0 same))
      | inr b ↦ rw b refl
    ]

    entry-kept :
        (k : Bytes) (f e : A)
        → bytes_eq (key e) (key f) ≡ true
        → entry k (if better f e then f else e) ≡ join (entry k f) (entry k e)
    entry-kept k f e same =
        let at : key e ≡ key f = (bytes_eq_iff (key e) (key f)).0 same in
        elim (Bool-cases (bytes_eq (key e) k)) [
          | inl has ↦ rw (key-kept f e same, sym at, has, honest f e) refl
          | inr has ↦ rw (key-kept f e same, sym at, has) refl
        ]

    pub best-add_found :
        (k : Bytes) (f : A) (l : List A)
        → best k (add_found key better f l) ≡ join (entry k f) (best k l)
    unfolding add_found
    best-add_found k f [] = refl
    best-add_found k f (e ∷ l) = elim (Bool-cases (bytes_eq (key e) (key f))) [
      | inl same ↦ rw same (
          ap (λ o. join o (best k l)) (entry-kept k f e same)
          ∙ join_assoc (entry k f) (entry k e) (best k l))
      | inr apart ↦ rw apart (
          ap (join (entry k e)) (best-add_found k f l)
          ∙ join_swap (entry k e) (entry k f) (best k l))
    ]

    pub All-add_found {κ} :
        (P : Bytes → Type κ) (f : A) (l : List A)
        → P (key f)
        → All (λ a. P (key a)) l
        → All (λ a. P (key a)) (add_found key better f l)
    unfolding add_found
    All-add_found P f [] p ps = (p, tt)
    All-add_found P f (e ∷ l) p (q, qs) = elim (Bool-cases (bytes_eq (key e) (key f))) [
      | inl same ↦ rw same (rw (key-kept f e same) q, qs)
      | inr apart ↦ rw apart (q, All-add_found P f l p qs)
    ]

    pub add_found-Distinct : (f : A) (l : List A) → Distinct l → Distinct (add_found key better f l)
    unfolding add_found
    add_found-Distinct f [] d = (tt, tt)
    add_found-Distinct f (e ∷ l) (q, qs) = elim (Bool-cases (bytes_eq (key e) (key f))) [
      | inl same ↦ rw same (rw (key-kept f e same) q, qs)
      | inr apart ↦ rw apart (
        All-add_found (λ k. key e ≢ k) f l (λ at. ground (arith, bytes_eq_iff (key e) (key f))) q,
        add_found-Distinct f l qs,
      )
    ]
