-- ===== src/Assoc/Keys.antt =====
-- Association lists that have each key once.
use gesta_agent.Prelude.{
  ◌≡◌, ◌≢◌, refl, inl, inr, false, List, [], ◌∷◌, none, some, arith, All, Bool-cases,
}
use gesta_agent.Bytes.{Bytes, bytes_eq, bytes_eq_iff, bytes_eq_refl}
use gesta_agent.Assoc.{get, put}

pub bytes_ne : (a b : Bytes) → a ≢ b → bytes_eq a b ≡ false
bytes_ne a b n = ground (arith, bytes_eq_iff a b)

module _ {ℓ} {V : Type ℓ} where
  abbrev pub Keyed : List (Bytes × V) → Type 0
  Keyed [] = Unit {0}
  Keyed (p ∷ m) = All (λ q. p.0 ≢ q.0) m × Keyed m

  pub All-put {κ} :
      (P : Bytes → Type κ) (k : Bytes) (v : V) (m : List (Bytes × V))
      → P k
      → All (λ p. P p.0) m
      → All (λ p. P p.0) (put k v m)
  unfolding put
  All-put P k v [] p ps = (p, tt)
  All-put P k v ((j, w) ∷ m) p (q, qs) = elim (Bool-cases (bytes_eq j k)) [
    | inl same ↦ rw same (q, qs)
    | inr apart ↦ rw apart (q, All-put P k v m p qs)
  ]

  pub put-Keyed : (k : Bytes) (v : V) (m : List (Bytes × V)) → Keyed m → Keyed (put k v m)
  unfolding put
  put-Keyed k v [] d = (tt, tt)
  put-Keyed k v ((j, w) ∷ m) (q, qs) = elim (Bool-cases (bytes_eq j k)) [
    | inl same ↦ rw same (q, qs)
    | inr apart ↦
        rw apart
          (All-put (λ i. j ≢ i) k v m (λ e. ground (arith, bytes_eq_iff j k)) q, put-Keyed k v m qs)
  ]

  pub get-absent : (k : Bytes) (m : List (Bytes × V)) → All (λ p. k ≢ p.0) m → get k m ≡ none
  unfolding get
  get-absent k [] h = refl
  get-absent k ((j, v) ∷ m) (n, h) =
      rw (bytes_ne j k (λ e. ground (arith, bytes_eq_iff j k))) (get-absent k m h)

  -- What the map holds is what it lists.
  pub All-get {κ} :
      (P : Bytes → V → Type κ) (m : List (Bytes × V))
      → Keyed m
      → ((k : Bytes) (v : V) → get k m ≡ some v → P k v)
      → All (λ p. P p.0 p.1) m
  unfolding get
  All-get P [] d h = tt
  All-get P ((k, v) ∷ m) (apart, d) h = (
    h k v (rw (bytes_eq_refl k) refl),
    apply m apart (All-get (λ j w. k ≢ j → P j w) m d (λ j w e n. h j w (rw (bytes_ne k j n) e))),
  )
    where
      apply :
          (l : List (Bytes × V))
          → All (λ p. k ≢ p.0) l
          → All (λ p. k ≢ p.0 → P p.0 p.1) l
          → All (λ p. P p.0 p.1) l
      apply [] u w = tt
      apply (p ∷ l) (n, u) (f, w) = (f n, apply l u w)
