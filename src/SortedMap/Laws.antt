-- ===== src/SortedMap/Laws.antt =====
-- What a read finds after each update, and what the updates do to a sum over the values.
use gesta_agent.Prelude.{
  ℕ, ◌+◌, ◌≡◌, refl, [], ◌∷◌, none, some, arith, length, if◌then◌else◌, some_inj, subst,
}
use gesta_agent.Bytes.{Bytes, bytes_eq, bytes_eq_iff, bytes_eq_refl}
use gesta_agent.SortedMap.{Entries, lookup, insert, erase, IsSorted, total, last_key}
use gesta_agent.SortedMap.Order.{lookup-Above, lookup-cons}

pub lookup-insert :
    (k j v : Bytes) (l : Entries)
    → lookup j (insert k v l) ≡ (if bytes_eq k j then some v else lookup j l)
unfolding lookup insert
lookup-insert k j v [] = refl
lookup-insert k j v ((i, w) ∷ l) =
    ground (arith, bytes_eq_iff k j, bytes_eq_iff i k, bytes_eq_iff i j, lookup-insert k j v l)

pub lookup-erase :
    (k j : Bytes) (l : Entries)
    → IsSorted l
    → lookup j (erase k l) ≡ (if bytes_eq k j then none else lookup j l)
unfolding lookup erase
lookup-erase k j [] s = ground arith
lookup-erase k j ((i, w) ∷ l) s = ground (
  arith,
  bytes_eq_iff k j,
  bytes_eq_iff i k,
  bytes_eq_iff i j,
  lookup-erase k j l s.1,
  lookup-Above i l s.1 s.0,
)

pub total-insert :
    (f : Bytes → ℕ) (k v : Bytes) (l : Entries)
    → lookup k l ≡ none
    → total f (insert k v l) ≡ f v + total f l
unfolding lookup insert
total-insert f k v [] h = refl
total-insert f k v ((i, w) ∷ l) h = ground (arith, total-insert f k v l)

pub total-erase :
    (f : Bytes → ℕ) (k v : Bytes) (l : Entries)
    → lookup k l ≡ some v
    → total f (erase k l) + f v ≡ total f l
unfolding lookup erase
total-erase f k v [] h = cc
total-erase f k v ((i, w) ∷ l) h = ground (arith, total-erase f k v l)

pub length-insert :
    (k v : Bytes) (l : Entries) → lookup k l ≡ none → length (insert k v l) ≡ length l + 1
unfolding lookup insert
length-insert k v [] h = omega arith
length-insert k v ((i, w) ∷ l) h = ground (arith, length-insert k v l)

pub length-erase :
    (k v : Bytes) (l : Entries) → lookup k l ≡ some v → length (erase k l) + 1 ≡ length l
unfolding lookup erase
length-erase k v [] h = cc
length-erase k v ((i, w) ∷ l) h = ground (arith, length-erase k v l)

pub lookup_first : (k v : Bytes) (l : Entries) → lookup k ((k, v) ∷ l) ≡ some v
unfolding lookup
lookup_first k v l = rw (bytes_eq_refl k)

-- The last key is one of the walk.
pub last_key-held :
    (l : Entries) (m : Bytes)
    → IsSorted l
    → last_key l ≡ some m
    → (v : Bytes) × (lookup m l ≡ some v)
unfolding last_key
last_key-held [] m s h = cc
last_key-held ((k, v) ∷ []) m s h =
    let same : k ≡ m = some_inj h in
    (v, subst (λ (i : Bytes). lookup i ((k, v) ∷ []) ≡ some v) same (lookup_first k v []))
last_key-held ((k, v) ∷ (j, x) ∷ l) m s h =
    let (w, found) = last_key-held ((j, x) ∷ l) m s.1 h in
    (w, lookup-cons k v m w ((j, x) ∷ l) s found)
