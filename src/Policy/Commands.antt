-- ===== src/Policy/Commands.antt =====
-- pkg/policy/policy.go: the forms of a command that its rules are tried on.
use gesta_agent.Prelude.{
  ℕ, zero, suc, Bool, false, ◌&&◌, ◌||◌, List, [], ◌∷◌, ◌++◌, Option, none, some, leb, ◌==◌,
  if◌then◌else◌, length,
}
use gesta_agent.Bytes.{Bytes, codes, bytes_eq}
use gesta_agent.Strings.{trim_space, trim_both, fields, last_element, without_suffix, contains_byte}
use gesta_agent.Policy.{one_of}

-- strings.Trim with the two quotes
unfoldable pub clean_target_token : Bytes → Bytes
clean_target_token target = trim_both (λ c. (c == 34) || (c == 39)) (trim_space target)

unfoldable pub command_name : Bytes → Bytes
command_name path = last_element (clean_target_token path)

abbrev pub is_option : Bytes → Bool
is_option [] = false
is_option (c ∷ s) = c == 45

unfoldable pub sudo_takes_value : Bytes → Bool
sudo_takes_value opt =
    one_of opt (
      codes "-u" ∷ codes "-g" ∷ codes "-h" ∷ codes "--user" ∷ codes "--group" ∷ codes "--host" ∷ [])

-- The options of sudo, and the values that some of them take.
unfoldable pub drop_sudo_options : List Bytes → List Bytes
drop_sudo_options [] = []
drop_sudo_options (opt ∷ []) = if is_option opt then [] else opt ∷ []
drop_sudo_options (opt ∷ value ∷ args) =
    let past = drop_sudo_options args in
    let next = drop_sudo_options (value ∷ args) in
    if is_option opt then (if sudo_takes_value opt then past else next) else opt ∷ value ∷ args

-- The assignments and the options of env.
unfoldable pub drop_env_options : List Bytes → List Bytes
drop_env_options [] = []
drop_env_options (arg ∷ []) =
    if contains_byte 61 arg then [] else if is_option arg then [] else arg ∷ []
drop_env_options (arg ∷ value ∷ args) =
    let past = drop_env_options args in
    let next = drop_env_options (value ∷ args) in
    if contains_byte 61 arg
    then next
    else if one_of arg (codes "-u" ∷ codes "--unset" ∷ [])
    then past
    else if is_option arg
    then next
    else arg ∷ value ∷ args

abbrev pub is_sudo : Bytes → Bool
is_sudo name = one_of name (codes "sudo" ∷ codes "doas" ∷ [])

abbrev pub is_env : Bytes → Bool
is_env name = bytes_eq name (codes "env")

abbrev pub is_plain_wrapper : Bytes → Bool
is_plain_wrapper name =
    one_of name (codes "command" ∷ codes "builtin" ∷ codes "nohup" ∷ codes "time" ∷ [])

-- The loop runs on fuel: each turn drops at least the wrapper.
unfoldable pub unwrap_loop : ℕ → List Bytes → List Bytes
unwrap_loop zero args = args
unwrap_loop (suc fuel) [] = []
unwrap_loop (suc fuel) (arg ∷ args) =
    let name = command_name arg in
    let past_sudo = unwrap_loop fuel (drop_sudo_options args) in
    let past_env = unwrap_loop fuel (drop_env_options args) in
    let past = unwrap_loop fuel args in
    if is_sudo name
    then past_sudo
    else if is_env name
    then past_env
    else if is_plain_wrapper name
    then past
    else arg ∷ args

unfoldable pub unwrap_command_prefix : List Bytes → List Bytes
unwrap_command_prefix args = unwrap_loop (length args) args

abbrev pub is_operator : Bytes → Bool
is_operator s = one_of s (codes "&&" ∷ codes "||" ∷ codes "|" ∷ codes ";" ∷ [])

abbrev pub flush : List Bytes → List (List Bytes) → List (List Bytes)
flush [] forms = forms
flush (s ∷ current) forms = (s ∷ current) ∷ forms

abbrev pub add_word : Bytes → List Bytes → List Bytes
add_word [] current = current
add_word (c ∷ s) current = current ++ ((c ∷ s) ∷ [])

-- What a field of the line is: nothing, an operator, a word that ends a command, or a word.
pub data Field : Type 0 where
  blank operator : Field
  closing word : Bytes → Field

unfoldable pub word_of : Bytes → Field
word_of trimmed = elim (without_suffix 59 trimmed) [ none ↦ word trimmed | some s ↦ closing s ]

unfoldable pub field_of : Bytes → Field
field_of field =
    let trimmed = trim_space field in
    if bytes_eq trimmed [] then blank else if is_operator trimmed then operator else word_of trimmed

-- The commands of a line, with the words of the one that is being read.
unfoldable pub split_fields : List Bytes → List Bytes → List (List Bytes)
split_fields [] current = flush current []
split_fields (field ∷ l) current = elim (field_of field) [
  | blank ↦ split_fields l current
  | operator ↦ flush current (split_fields l [])
  | closing s ↦ flush (add_word s current) (split_fields l [])
  | word s ↦ split_fields l (current ++ (s ∷ []))
]

unfoldable pub split_shell_command_fields : List Bytes → List (List Bytes)
split_shell_command_fields l = split_fields l []

-- What follows the first "-c" that has something after it.
unfoldable pub script_of : List Bytes → Option Bytes
script_of [] = none
script_of (flag ∷ []) = none
script_of (flag ∷ script ∷ args) =
    let rest = script_of (script ∷ args) in if bytes_eq flag (codes "-c") then some script else rest

abbrev pub is_shell : Bytes → Bool
is_shell name = one_of name (codes "bash" ∷ codes "sh" ∷ codes "zsh" ∷ [])

abbrev pub script_forms : List Bytes → List (List Bytes)
script_forms [] = []
script_forms (w ∷ words) = (w ∷ words) ∷ split_shell_command_fields (w ∷ words)

unfoldable pub shell_forms : List Bytes → List (List Bytes)
shell_forms [] = []
shell_forms (shell ∷ args) =
    if leb 2 (length args) && is_shell (command_name shell)
    then elim (script_of args) [ none ↦ [] | some script ↦ script_forms (fields script) ]
    else []

unfoldable pub guarded_command_forms : List Bytes → List (List Bytes)
guarded_command_forms args = args ∷ shell_forms (unwrap_command_prefix args)
