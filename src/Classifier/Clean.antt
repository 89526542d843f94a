-- ===== src/Classifier/Clean.antt =====
-- What NewClassifier keeps of the suffixes of a configuration (toolinput/classifier.go).
use gesta_agent.Prelude.{
  ◌≡◌, refl, ap, ◌∙◌, inl, inr, Bool, true, false, not, ◌&&◌, ◌||◌, List, [], ◌∷◌, ◌++◌, arith,
  Bool-cases,
}
use gesta_agent.Bytes.{Bytes, bytes_eq, bytes_eq_iff}
use gesta_agent.Strings.{trim_space, to_lower}
use gesta_agent.Policy.{one_of}
use gesta_agent.Classifier.{is_suffix, add_suffixes, new_classifier}

-- Each suffix once.
abbrev pub Distinct : List Bytes → Type 0
Distinct [] = Unit {0}
Distinct (s ∷ l) = (one_of s l ≡ false) × Distinct l

-- A suffix of the configuration, in the form in which it is kept.
abbrev pub is_configured : Bytes → List Bytes → Bool
is_configured s [] = false
is_configured s (value ∷ values) =
    bytes_eq s (to_lower (trim_space value)) || is_configured s values

one_of-append :
    (s t : Bytes) (l : List Bytes) → one_of s (l ++ (t ∷ [])) ≡ one_of s l || bytes_eq s t
unfolding one_of
one_of-append s t [] = ground arith
one_of-append s t (x ∷ l) = ground (arith, one_of-append s t l)

append-Distinct :
    (s : Bytes) (l : List Bytes) → one_of s l ≡ false → Distinct l → Distinct (l ++ (s ∷ []))
unfolding one_of
append-Distinct s [] fresh d = (refl, tt)
append-Distinct s (x ∷ l) fresh (apart, d) = (
  one_of-append x s l ∙ ground (arith, fresh, apart, bytes_eq_iff s x, bytes_eq_iff x s),
  append-Distinct s l (ground (arith, fresh)) d,
)

add_suffixes-Distinct : (values l : List Bytes) → Distinct l → Distinct (add_suffixes values l)
unfolding add_suffixes
add_suffixes-Distinct [] l d = d
add_suffixes-Distinct (value ∷ values) l d =
    let suffix = to_lower (trim_space value) in
    elim (Bool-cases (is_suffix suffix && not (one_of suffix l))) [
      | inl kept ↦ rw kept (
          add_suffixes-Distinct values (l ++ (suffix ∷ []))
            (append-Distinct suffix l (ground (arith, kept)) d))
      | inr dropped ↦ rw dropped (add_suffixes-Distinct values l d)
    ]

add_suffixes-one_of :
    (s : Bytes) (values l : List Bytes)
    → one_of s (add_suffixes values l) ≡ one_of s l || (is_suffix s && is_configured s values)
unfolding add_suffixes
add_suffixes-one_of s [] l = ground arith
add_suffixes-one_of s (value ∷ values) l =
    let suffix = to_lower (trim_space value) in
    let same : bytes_eq s suffix ≡ true
        → (is_suffix s ≡ is_suffix suffix) × (one_of s l ≡ one_of suffix l) =
      λ e.
        let at : s ≡ suffix = (bytes_eq_iff s suffix).0 e in
        (ap is_suffix at, ap (λ x. one_of x l) at) in
    elim (Bool-cases (is_suffix suffix && not (one_of suffix l))) [
      | inl kept ↦ rw kept (
          add_suffixes-one_of s values (l ++ (suffix ∷ []))
          ∙ ground (arith, kept, same, one_of-append s suffix l))
      | inr dropped ↦ rw dropped (add_suffixes-one_of s values l ∙ ground (arith, dropped, same))
    ]

-- A classifier has exactly those configured suffixes, trimmed and in lower case, that begin with a
-- dot, have more than the dot, and hold no slash, and each of them once.
pub new_classifier-code_suffixes :
    (suffixes filenames : List Bytes)
    → Distinct (new_classifier suffixes filenames).code_suffixes
      × ((s : Bytes)
          → one_of s (new_classifier suffixes filenames).code_suffixes
            ≡ is_suffix s && is_configured s suffixes)
unfolding new_classifier one_of
new_classifier-code_suffixes suffixes filenames =
    (add_suffixes-Distinct suffixes [] tt, λ s. add_suffixes-one_of s suffixes [])
