-- ===== src/Classifier.antt =====
-- pkg/toolinput/classifier.go: which files of a turn are code, tests, documents or configuration.
pub mod Clean
use gesta_agent.Prelude.{
  Bool, true, false, not, ◌&&◌, ◌||◌, List, [], ◌∷◌, ◌++◌, map, if◌then◌else◌, ◌==◌,
}
use gesta_agent.Bytes.{Bytes, codes, bytes_eq}
use gesta_agent.Strings.{
  trim_space, to_lower, has_prefix, has_suffix, contains, contains_byte, last_element,
}
use gesta_agent.Policy.{one_of}

pub data Category : Type 0 where
  code tests docs config other : Category

pub record Classifier : Type 0 where
  pub code_suffixes : List Bytes
  pub code_filenames : List Bytes

-- A slash or a backslash.
abbrev has_slash : Bytes → Bool
has_slash s = contains_byte 47 s || contains_byte 92 s

unfoldable pub is_suffix : Bytes → Bool
is_suffix suffix =
    not (bytes_eq suffix [])
    && (not (bytes_eq suffix (codes "."))
        && (has_prefix (codes ".") suffix && not (has_slash suffix)))

unfoldable pub is_filename : Bytes → Bool
is_filename filename =
    not (bytes_eq filename [])
    && (not (bytes_eq filename (codes "."))
        && (not (bytes_eq filename (codes "..")) && not (has_slash filename)))

-- The suffixes in order, each once.
unfoldable pub add_suffixes : List Bytes → List Bytes → List Bytes
add_suffixes [] suffixes = suffixes
add_suffixes (value ∷ values) suffixes =
    let suffix = to_lower (trim_space value) in
    add_suffixes values (
      if is_suffix suffix && not (one_of suffix suffixes)
      then suffixes ++ (suffix ∷ [])
      else suffixes)

-- The set of the names.
unfoldable pub add_filenames : List Bytes → List Bytes → List Bytes
add_filenames [] filenames = filenames
add_filenames (value ∷ values) filenames =
    let filename = trim_space value in
    let lower = to_lower filename in
    add_filenames values (
      if is_filename filename && not (one_of lower filenames)
      then filenames ++ (lower ∷ [])
      else filenames)

unfoldable pub new_classifier : List Bytes → List Bytes → Classifier
new_classifier suffixes filenames = record {
  code_suffixes = add_suffixes suffixes [];
  code_filenames = add_filenames filenames [];
}

unfoldable pub any_suffix : List Bytes → Bytes → Bool
any_suffix [] path = false
any_suffix (suffix ∷ suffixes) path = has_suffix suffix path || any_suffix suffixes path

unfoldable pub is_test_path : Bytes → Bool
is_test_path path =
    contains (codes "/tests/") path
    || (contains (codes "/__tests__/") path
        || (has_prefix (codes "tests/") path
            || (has_prefix (codes "__tests__/") path
                || (contains (codes ".test.") path
                    || (contains (codes ".spec.") path || has_suffix (codes "_test.go") path)))))

abbrev pub doc_suffixes : List Bytes
doc_suffixes = codes ".md" ∷ codes ".mdx" ∷ codes ".txt" ∷ codes ".rst" ∷ codes ".adoc" ∷ []

abbrev pub config_suffixes : List Bytes
config_suffixes =
    codes ".json"
    ∷ codes ".yaml"
    ∷ codes ".yml"
    ∷ codes ".toml"
    ∷ codes ".ini"
    ∷ codes ".conf"
    ∷ codes ".env"
    ∷ []

-- strings.ReplaceAll of backslashes by slashes
abbrev with_slashes : Bytes → Bytes
with_slashes s = map (λ c. if c == 92 then 47 else c) s

unfoldable pub classify_path : Classifier → Bytes → Category
classify_path c path =
    let lower = to_lower (trim_space path) in
    let normalized = with_slashes lower in
    if bytes_eq lower []
    then other
    else if is_test_path normalized
    then tests
    else if one_of (last_element normalized) c.code_filenames
    then code
    else if any_suffix c.code_suffixes normalized
    then code
    else if any_suffix doc_suffixes normalized
    then docs
    else if any_suffix config_suffixes normalized
    then config
    else other
