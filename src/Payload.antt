-- ===== src/Payload.antt =====
-- The dynamic payload of an event as pkg/daemon reads and writes it (usage_delta.go, codex.go). A
-- payload is an association list; the first entry of a key counts.
use gesta_agent.Prelude.{
  not, ◌&&◌, Bool, true, false, List, [], ◌∷◌, Option, none, some, ◌≡◌, refl, arith,
}
use gesta_agent.Prelude.Int.{ℤ, pos}
use gesta_agent.Bytes.{Bytes, bytes_eq}
use gesta_agent.Strings.{trim_space}
use gesta_agent.Assoc.{get, put, get-put}
use gesta_agent.Model.{Value, null, boolean, number, text, other}

abbrev pub Payload : Type 0
Payload = List (Bytes × Value)

abbrev pub field : Bytes → Payload → Option Value
field key payload = get key payload

-- The trimmed text of a value that is one and is not blank.
unfoldable pub text_of : Option Value → Bytes
text_of none = []
text_of (some null) = []
text_of (some (boolean b)) = []
text_of (some (number z)) = []
text_of (some (text s)) = trim_space s
text_of (some (other s)) = []

unfoldable pub first_payload_string : Payload → List Bytes → Bytes
first_payload_string payload [] = []
first_payload_string payload (key ∷ keys) = elim (text_of (field key payload)) [
  | [] ↦ first_payload_string payload keys
  | c ∷ s ↦ c ∷ s
]

unfoldable pub as_int64 : Option Value → Option ℤ
as_int64 none = none
as_int64 (some null) = none
as_int64 (some (boolean b)) = none
as_int64 (some (number z)) = some z
as_int64 (some (text s)) = none
as_int64 (some (other s)) = none

-- The pair of an int64 and whether it was found, as an option.
unfoldable pub payload_int_value : Payload → List Bytes → Option ℤ
payload_int_value payload [] = none
payload_int_value payload (key ∷ keys) = elim (as_int64 (field key payload)) [
  | none ↦ payload_int_value payload keys
  | some z ↦ some z
]

abbrev pub or_zero : Option ℤ → ℤ
or_zero none = pos 0
or_zero (some z) = z

unfoldable pub payload_int : Payload → List Bytes → ℤ
payload_int payload keys = or_zero (payload_int_value payload keys)

abbrev truth : Option Value → Bool
truth none = false
truth (some null) = false
truth (some (boolean b)) = b
truth (some (number z)) = false
truth (some (text s)) = false
truth (some (other s)) = false

unfoldable pub payload_bool : Payload → Bytes → Bool
payload_bool payload key = truth (field key payload)

unfoldable pub first_non_empty_string : List Bytes → Bytes
first_non_empty_string [] = []
first_non_empty_string (value ∷ values) = elim (trim_space value) [
  | [] ↦ first_non_empty_string values
  | c ∷ s ↦ c ∷ s
]

-- The first of the keys that has a text is copied.
unfoldable pub copy_payload_string : Payload → Payload → List Bytes → Payload
copy_payload_string dst src [] = dst
copy_payload_string dst src (key ∷ keys) = elim (first_payload_string src (key ∷ [])) [
  | [] ↦ copy_payload_string dst src keys
  | c ∷ s ↦ put key (text (c ∷ s)) dst
]

unfoldable pub copy_payload_int_as : Payload → Payload → Bytes → Bytes → Payload
copy_payload_int_as dst src from into = elim (as_int64 (field from src)) [
  | none ↦ dst
  | some z ↦ put into (number z) dst
]

-- A copy leaves a field alone that is none of its keys.
abbrev pub lacks : Bytes → List Bytes → Bool
lacks j [] = true
lacks j (k ∷ l) = not (bytes_eq k j) && lacks j l

lacks-cons :
    (j k : Bytes) (l : List Bytes)
    → lacks j (k ∷ l) ≡ true
    → (bytes_eq k j ≡ false) × (lacks j l ≡ true)
lacks-cons j k l h = ground arith

pub field-copy_payload_string :
    (j : Bytes) (dst src : Payload) (keys : List Bytes)
    → lacks j keys ≡ true
    → field j (copy_payload_string dst src keys) ≡ field j dst
unfolding copy_payload_string
field-copy_payload_string j dst src [] apart = refl
field-copy_payload_string j dst src (key ∷ keys) apart =
    go (first_payload_string src (key ∷ []))
      (field-copy_payload_string j dst src keys (lacks-cons j key keys apart).1)
  where
    go :
        (s : Bytes)
        → field j (copy_payload_string dst src keys) ≡ field j dst
        → field j (elim s as (λ t. Payload) [
          | [] ↦ copy_payload_string dst src keys
          | c ∷ t ↦ put key (text (c ∷ t)) dst
        ])
          ≡ field j dst
    go [] rest = rest
    go (c ∷ t) rest = rw (get-put key j (text (c ∷ t)) dst, (lacks-cons j key keys apart).0)

pub field-copy_payload_int_as :
    (j : Bytes) (dst src : Payload) (from into : Bytes)
    → bytes_eq into j ≡ false
    → field j (copy_payload_int_as dst src from into) ≡ field j dst
unfolding copy_payload_int_as
field-copy_payload_int_as j dst src from into differs = go (as_int64 (field from src))
  where
    go :
        (o : Option ℤ)
        → field j (elim o as (λ t. Payload) [ none ↦ dst | some z ↦ put into (number z) dst ])
          ≡ field j dst
    go none = refl
    go (some z) = rw (get-put into j (number z) dst, differs)
