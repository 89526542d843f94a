-- ===== src/Assoc.antt =====
-- Go's maps from strings, as association lists: the first entry of a key counts.
pub mod Keys
use gesta_agent.Prelude.{List, [], ◌∷◌, Option, none, some, if◌then◌else◌, ◌≡◌, refl, arith}
use gesta_agent.Bytes.{Bytes, bytes_eq, bytes_eq_iff, bytes_eq_refl}

module _ {ℓ} {V : Type ℓ} where
  unfoldable pub get : Bytes → List (Bytes × V) → Option V
  get key [] = none
  get key ((k, v) ∷ l) = if bytes_eq k key then some v else get key l

  unfoldable pub put : Bytes → V → List (Bytes × V) → List (Bytes × V)
  put key v [] = (key, v) ∷ []
  put key v ((k, w) ∷ l) = if bytes_eq k key then (k, v) ∷ l else (k, w) ∷ put key v l

  unfoldable pub del : Bytes → List (Bytes × V) → List (Bytes × V)
  del key [] = []
  del key ((k, v) ∷ l) = if bytes_eq k key then del key l else (k, v) ∷ del key l

  pub get-put :
      (k j : Bytes) (v : V) (l : List (Bytes × V))
      → get j (put k v l) ≡ (if bytes_eq k j then some v else get j l)
  unfolding get put
  get-put k j v [] = refl
  get-put k j v ((i, w) ∷ l) =
      ground (arith, bytes_eq_iff k j, bytes_eq_iff i k, bytes_eq_iff i j, get-put k j v l)

  pub get-put_self : (k : Bytes) (v : V) (l : List (Bytes × V)) → get k (put k v l) ≡ some v
  get-put_self k v l = simp (get-put, bytes_eq_refl)

  pub get-del :
      (k j : Bytes) (l : List (Bytes × V))
      → get j (del k l) ≡ (if bytes_eq k j then none else get j l)
  unfolding get del
  get-del k j [] = ground arith
  get-del k j ((i, w) ∷ l) =
      ground (arith, bytes_eq_iff k j, bytes_eq_iff i k, bytes_eq_iff i j, get-del k j l)
