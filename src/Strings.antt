-- ===== src/Strings.antt =====
-- What the agent uses of the package strings, over the bytes of a text. Beyond ASCII the bytes are
-- left as they are: strings.TrimSpace also drops the two spaces U+0085 and U+00A0, and
-- strings.ToLower also maps letters outside ASCII.
use gesta_agent.Prelude.{
  ℕ, zero, suc, List, Option, none, some, ◌++◌, ◌+◌, ◌/◌, ◌%◌, Bool, true, false, ◌&&◌, ◌||◌, [],
  ◌∷◌, map, leb, ltb, ◌==◌, if◌then◌else◌,
}
use gesta_agent.Bytes.{Bytes}
use mathlib.Core.List.{reverse}

-- unicode.IsSpace on ASCII
unfoldable pub is_space : ℕ → Bool
is_space c = (leb 9 c && leb c 13) || c == 32

unfoldable pub trim_left : Bytes → Bytes
trim_left [] = []
trim_left (c ∷ s) = elim (is_space c) [ true ↦ trim_left s | false ↦ c ∷ s ]

unfoldable pub trim_space : Bytes → Bytes
trim_space s = reverse (trim_left (reverse (trim_left s)))

abbrev pub lower : ℕ → ℕ
lower c = if leb 65 c && leb c 90 then c + 32 else c

unfoldable pub to_lower : Bytes → Bytes
to_lower s = map lower s

-- strconv.Itoa of a number that is not below zero
abbrev decimal : ℕ → ℕ → Bytes → Bytes
decimal zero n s = s
decimal (suc fuel) n s =
    let more = decimal fuel (n / 10) ((48 + n % 10) ∷ s) in if ltb n 10 then (48 + n) ∷ s else more

unfoldable pub itoa : ℕ → Bytes
itoa n = decimal (suc n) n []

abbrev pub drop_while : (ℕ → Bool) → Bytes → Bytes
drop_while p [] = []
drop_while p (c ∷ s) = elim (p c) [ true ↦ drop_while p s | false ↦ c ∷ s ]

-- strings.Trim with the characters of `p`
unfoldable pub trim_both : (ℕ → Bool) → Bytes → Bytes
trim_both p s = reverse (drop_while p (reverse (drop_while p s)))

abbrev add_field : Bytes → List Bytes → List Bytes
add_field [] l = l
add_field (c ∷ s) l = (c ∷ s) ∷ l

abbrev fields_from : Bytes → Bytes → List Bytes
fields_from [] word = add_field word []
fields_from (c ∷ s) word =
    let next = fields_from s [] in
    let grown = fields_from s (word ++ (c ∷ [])) in
    if is_space c then add_field word next else grown

-- strings.Fields
unfoldable pub fields : Bytes → List Bytes
fields s = fields_from s []

unfoldable pub contains_byte : ℕ → Bytes → Bool
contains_byte b [] = false
contains_byte b (c ∷ s) = (c == b) || contains_byte b s

-- The text without a last byte `b`, if it has one.
unfoldable pub without_suffix : ℕ → Bytes → Option Bytes
without_suffix b s = elim (reverse s) [
  | [] ↦ none
  | c ∷ r ↦ if c == b then some (reverse r) else none
]

abbrev up_to_slash : Bytes → Bytes
up_to_slash [] = []
up_to_slash (c ∷ s) = if c == 47 then [] else c ∷ up_to_slash s

abbrev or_slash : Bytes → Bytes
or_slash [] = 47 ∷ []
or_slash (c ∷ s) = reverse (c ∷ s)

-- filepath.Base: the last element of a path.
unfoldable pub last_element : Bytes → Bytes
last_element [] = 46 ∷ []
last_element (c ∷ s) = or_slash (up_to_slash (drop_while (λ d. d == 47) (reverse (c ∷ s))))

-- strings.Join
unfoldable pub join_with : Bytes → List Bytes → Bytes
join_with separator [] = []
join_with separator (s ∷ []) = s
join_with separator (s ∷ t ∷ l) = s ++ separator ++ join_with separator (t ∷ l)

unfoldable pub has_prefix : Bytes → Bytes → Bool
has_prefix [] s = true
has_prefix (c ∷ p) [] = false
has_prefix (c ∷ p) (d ∷ s) = (c == d) && has_prefix p s

abbrev pub drop_bytes : Bytes → Bytes → Bytes
drop_bytes [] s = s
drop_bytes (c ∷ p) [] = []
drop_bytes (c ∷ p) (d ∷ s) = drop_bytes p s

abbrev pub after_first : ℕ → Option (Bytes × Bytes) → Option (Bytes × Bytes)
after_first c none = none
after_first c (some (a, b)) = some (c ∷ a, b)

-- strings.SplitN with at most two parts: what stands before and after the first separator.
unfoldable pub split_once : Bytes → Bytes → Option (Bytes × Bytes)
split_once separator [] =
    if has_prefix separator [] then some ([], drop_bytes separator []) else none
split_once separator (c ∷ s) =
    let rest = after_first c (split_once separator s) in
    if has_prefix separator (c ∷ s) then some ([], drop_bytes separator (c ∷ s)) else rest

unfoldable pub has_suffix : Bytes → Bytes → Bool
has_suffix suffix s = has_prefix (reverse suffix) (reverse s)

unfoldable pub contains : Bytes → Bytes → Bool
contains part [] = has_prefix part []
contains part (c ∷ s) = has_prefix part (c ∷ s) || contains part s
