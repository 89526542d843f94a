-- ===== src/SortedMap/Count.antt =====
-- How many keys of a sorted association list lie up to a bound.
use gesta_agent.Prelude.{
  ℕ, ◌+◌, ◌≤◌, ◌<◌, ◌≡◌, sym, ◌∙◌, inl, inr, false, [], ◌∷◌, none, some, arith, length,
  if◌then◌else◌, Bool-cases, Option-cases, none_ne_some,
}
use gesta_agent.Bytes.{Bytes, bytes_eq, bytes_lt, bytes_eq_iff}
use gesta_agent.SortedMap.{Entries, lookup, erase, IsSorted}
use gesta_agent.SortedMap.Order.{lookup-Above, erase-IsSorted}
use gesta_agent.SortedMap.Laws.{lookup-erase, lookup_first}

-- The number of keys that are not above `w`.
abbrev pub upto : Bytes → Entries → ℕ
upto w [] = 0
upto w ((k, v) ∷ l) = (if bytes_lt w k then 0 else 1) + upto w l

pub upto_le : (w : Bytes) (l : Entries) → upto w l ≤ length l
upto_le w [] = omega arith
upto_le w ((k, v) ∷ l) = ground (arith, upto_le w l)

upto-erase :
    (w k v : Bytes) (l : Entries)
    → lookup k l ≡ some v
    → bytes_lt w k ≡ false
    → upto w (erase k l) + 1 ≡ upto w l
unfolding lookup erase
upto-erase w k v [] h low = cc
upto-erase w k v ((j, x) ∷ l) h low = ground (arith, bytes_eq_iff j k, upto-erase w k v l)

-- Every key up to `w` of `m` is one of `l`.
abbrev pub Within : Bytes → Entries → Entries → Type 0
Within w l m = (j : Bytes) → bytes_lt w j ≡ false → lookup j l ≡ none → lookup j m ≡ none

pub upto-Within :
    (w : Bytes) (m l : Entries) → IsSorted m → IsSorted l → Within w l m → upto w m ≤ upto w l
unfolding lookup
upto-Within w [] l sm sl f = omega arith
upto-Within w ((k, x) ∷ m) l sm sl f = elim (Bool-cases (bytes_lt w k)) [
  | inl high ↦
      let rest = upto-Within w m l sm.1 sl (λ j low absent. tail j low (f j low absent)) in
      ground (arith, rest)
  | inr low ↦ elim (Option-cases (lookup k l)) [
    | inl absent ↦ absurd (none_ne_some (sym (f k low absent) ∙ lookup_first k x m))
    | inr (v, found) ↦
        let rest =
          upto-Within w m (erase k l) sm.1 (erase-IsSorted k l sl)
            (λ j low' absent. inner j low' absent) in
        let fewer = upto-erase w k v l found low in ground (arith, rest, fewer)
  ]
]
  where
    tail : (j : Bytes) → bytes_lt w j ≡ false → lookup j ((k, x) ∷ m) ≡ none → lookup j m ≡ none
    tail j low absent = ground arith

    inner : (j : Bytes) → bytes_lt w j ≡ false → lookup j (erase k l) ≡ none → lookup j m ≡ none
    inner j low absent = elim (Bool-cases (bytes_eq k j)) [
      | inl same ↦
          let above = lookup-Above k m sm.1 sm.0 in
          let eq : k ≡ j = (bytes_eq_iff k j).0 same in rw eq at above
      | inr other ↦
          let at_l : lookup j l ≡ none = ground (arith, lookup-erase k j l sl) in
          tail j low (f j low at_l)
    ]

-- The count goes down where such a key is gone.
pub upto-Within_lt :
    (w k v : Bytes) (m l : Entries)
    → IsSorted m
    → IsSorted l
    → Within w l m
    → bytes_lt w k ≡ false
    → lookup k l ≡ some v
    → lookup k m ≡ none
    → upto w m < upto w l
upto-Within_lt w k v m l sm sl f low found gone =
    let rest = upto-Within w m (erase k l) sm (erase-IsSorted k l sl) inner in
    omega (arith, rest, upto-erase w k v l found low)
  where
    inner : Within w (erase k l) m
    inner j low' absent = elim (Bool-cases (bytes_eq k j)) [
      | inl same ↦ let eq : k ≡ j = (bytes_eq_iff k j).0 same in rw eq at gone
      | inr other ↦
          let at_l : lookup j l ≡ none = ground (arith, lookup-erase k j l sl) in f j low' at_l
    ]
