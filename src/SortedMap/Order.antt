-- ===== src/SortedMap/Order.antt =====
-- The order of a sorted association list is kept by both updates.
use gesta_agent.Prelude.{
  Bool-cases, [], arith, false, inl, inr, none, none_ne_some, refl, some, subst, sym, true, ◌∙◌,
  ◌∷◌, ◌≡◌,
}
use gesta_agent.Bytes.{
  Bytes, bytes_eq, bytes_lt, bytes_eq_iff, bytes_lt_irrefl, bytes_lt_trans, bytes_lt_total,
}
use gesta_agent.SortedMap.{Entries, lookup, insert, erase, last_key, Above, IsSorted}

pub Above-trans : (k j : Bytes) (l : Entries) → bytes_lt k j ≡ true → Above j l → Above k l
Above-trans k j [] h a = tt
Above-trans k j ((i, w) ∷ l) h a = bytes_lt_trans k j i h a

pub lookup-Above : (k : Bytes) (l : Entries) → IsSorted l → Above k l → lookup k l ≡ none
unfolding lookup
lookup-Above k [] s a = refl
lookup-Above k ((j, w) ∷ l) s a = elim (Bool-cases (bytes_eq j k)) [
  | inl e ↦ absurd (apart ((bytes_eq_iff j k).0 e))
  | inr e ↦ rw e (lookup-Above k l s.1 (Above-trans k j l a s.0))
]
  where
    apart : j ≡ k → ⊥
    apart p = ground (arith, bytes_lt_irrefl k)

Above-insert :
    (i k v : Bytes) (l : Entries) → bytes_lt i k ≡ true → Above i l → Above i (insert k v l)
unfolding insert
Above-insert i k v [] h a = h
Above-insert i k v ((j, w) ∷ l) h a = ground arith

pub insert-IsSorted : (k v : Bytes) (l : Entries) → IsSorted l → IsSorted (insert k v l)
unfolding insert
insert-IsSorted k v [] s = (tt, tt)
insert-IsSorted k v ((j, w) ∷ l) s = elim (Bool-cases (bytes_eq j k)) [
  | inl e ↦ rw e (let p : j ≡ k = (bytes_eq_iff j k).0 e in (rw p at s.0, s.1))
  | inr e ↦ rw e (elim (Bool-cases (bytes_lt k j)) [
    | inl below ↦ rw below (below, s)
    | inr above ↦
        rw above (Above-insert j k v l (bytes_lt_total k j above e) s.0, insert-IsSorted k v l s.1)
  ])
]

Above-erase : (i k : Bytes) (l : Entries) → IsSorted l → Above i l → Above i (erase k l)
unfolding erase
Above-erase i k [] s a = tt
Above-erase i k ((j, w) ∷ l) s a = ground (arith, Above-trans i j l)

pub erase-IsSorted : (k : Bytes) (l : Entries) → IsSorted l → IsSorted (erase k l)
unfolding erase
erase-IsSorted k [] s = tt
erase-IsSorted k ((j, w) ∷ l) s = ground (arith, Above-erase j k l, erase-IsSorted k l)

last_key-Above :
    (j : Bytes) (l : Entries) (m : Bytes)
    → IsSorted l
    → Above j l
    → last_key l ≡ some m
    → bytes_lt j m ≡ true
unfolding last_key
last_key-Above j [] m s a e = cc
last_key-Above j ((k, v) ∷ []) m s a e = ground arith
last_key-Above j ((k, v) ∷ (i, x) ∷ l) m s a e =
    last_key-Above j ((i, x) ∷ l) m s.1 (bytes_lt_trans j k i a s.0) e

bytes_lt_asymm : (a b : Bytes) → bytes_lt a b ≡ true → bytes_lt b a ≡ false
bytes_lt_asymm a b h = ground (arith, bytes_lt_trans a b a h, bytes_lt_irrefl a)

-- No key lies above the last one.
pub last_key-greatest :
    (l : Entries) (m k v : Bytes)
    → IsSorted l
    → last_key l ≡ some m
    → lookup k l ≡ some v
    → bytes_lt m k ≡ false
unfolding last_key lookup
last_key-greatest [] m k v s e h = cc
last_key-greatest ((j, w) ∷ []) m k v s e h = ground (arith, bytes_eq_iff j k, bytes_lt_irrefl k)
last_key-greatest ((j, w) ∷ (i, x) ∷ l) m k v s e h = elim (Bool-cases (bytes_eq j k)) [
  | inl same ↦
      let above = last_key-Above j ((i, x) ∷ l) m s.1 s.0 e in
      rw (← (bytes_eq_iff j k).0 same) (bytes_lt_asymm j m above)
  | inr other ↦ last_key-greatest ((i, x) ∷ l) m k v s.1 e (rw (← h, other) refl)
]

-- What a walk holds, it holds with one more key in front.
pub lookup-cons :
    (k v j w : Bytes) (l : Entries)
    → IsSorted ((k, v) ∷ l)
    → lookup j l ≡ some w
    → lookup j ((k, v) ∷ l) ≡ some w
unfolding lookup
lookup-cons k v j w l s p = elim (Bool-cases (bytes_eq k j)) [
  | inl same ↦
      let none_here : lookup j l ≡ none =
        subst (λ (i : Bytes). lookup i l ≡ none) ((bytes_eq_iff k j).0 same)
          (lookup-Above k l s.1 s.0) in
      absurd (none_ne_some (sym none_here ∙ p))
  | inr other ↦ rw other p
]
