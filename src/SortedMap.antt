-- ===== src/SortedMap.antt =====
-- Sorted association lists of byte strings: what one reads from a bucket by a cursor that walks
-- from First by Next to the end. `insert` and `erase` say what Put and Delete do to that walk.
pub mod Order
pub mod Laws
pub mod Count
use gesta_agent.Prelude.{ℕ, ◌+◌, ◌≡◌, Bool, true, List, [], ◌∷◌, Option, none, some, if◌then◌else◌}
use gesta_agent.Bytes.{Bytes, bytes_eq, bytes_lt}

abbrev pub Entries : Type 0
Entries = List (Bytes × Bytes)

unfoldable pub lookup : Bytes → Entries → Option Bytes
lookup k [] = none
lookup k ((j, v) ∷ l) = if bytes_eq j k then some v else lookup k l

unfoldable pub insert : Bytes → Bytes → Entries → Entries
insert k v [] = (k, v) ∷ []
insert k v ((j, w) ∷ l) =
    if bytes_eq j k
    then (k, v) ∷ l
    else if bytes_lt k j
    then (k, v) ∷ (j, w) ∷ l
    else (j, w) ∷ insert k v l

unfoldable pub erase : Bytes → Entries → Entries
erase k [] = []
erase k ((j, w) ∷ l) = if bytes_eq j k then l else (j, w) ∷ erase k l

-- The first key of the walk is above `k`.
abbrev pub Above : Bytes → Entries → Type 0
Above k [] = Unit {0}
Above k ((j, w) ∷ l) = bytes_lt k j ≡ true

abbrev pub IsSorted : Entries → Type 0
IsSorted [] = Unit {0}
IsSorted ((k, v) ∷ l) = Above k l × IsSorted l

-- The greatest key, if there is one: Cursor().Last().
unfoldable pub last_key : Entries → Option Bytes
last_key [] = none
last_key ((k, v) ∷ []) = some k
last_key ((k, v) ∷ e ∷ l) = last_key (e ∷ l)

-- The sum of a weight over the values.
abbrev pub total : (Bytes → ℕ) → Entries → ℕ
total f [] = 0
total f ((k, v) ∷ l) = f v + total f l
