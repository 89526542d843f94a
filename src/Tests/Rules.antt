-- ===== src/Tests/Rules.antt =====
-- The theorems on commands, on bundles of context rules, on the names of tools, on the outputs of a
-- turn and on the kinds of files, applied to small inputs.
use gesta_agent.Prelude.{◌≡◌, ◌⊎◌, ◌&&◌, refl, arith, Bool, List, [], ◌∷◌, Option, some}
use gesta_agent.Prelude.Int.{pos}
use gesta_agent.Bytes.{Bytes, codes, bytes_eq}
use gesta_agent.Strings.{
  trim_space, trim_left, is_space, trim_both, fields, last_element, without_suffix, contains_byte,
  to_lower, has_prefix, split_once, has_suffix, contains,
}
use gesta_agent.Tests.Usages.{plain}
use gesta_agent.Tests.Contexts.{a_rule, no_patterns}
use gesta_agent.Policy.{PolicyRule, one_of}
use gesta_agent.Policy.Commands.{
  command_name, clean_target_token, drop_sudo_options, drop_env_options, sudo_takes_value,
  unwrap_loop, unwrap_command_prefix, split_fields, split_shell_command_fields, field_of, word_of,
  script_of, shell_forms, guarded_command_forms,
}
use gesta_agent.Policy.Evaluate.{evaluate_command_with_rules}
use gesta_agent.Policy.Blocked.{is_block, any_blocks, evaluate_command_with_rules-is_block}
use gesta_agent.Policy.Unwrapped.{Unwrapped, unwrap_command_prefix-Unwrapped}
use gesta_agent.ContextMatch.Validation.{Validated, validate_rules, validate_rules-Validated}
use gesta_agent.McpMeta.{
  server_identity, tool_parts, normalize_server_name, is_reserved, is_uuid_shaped_server_id,
  is_uuid_from,
}
use gesta_agent.McpMeta.Parts.{Tool, tool_parts-Tool}
use gesta_agent.Classifier.{
  code, tests, docs, is_suffix, is_filename, add_suffixes, add_filenames, new_classifier,
  any_suffix, is_test_path, classify_path,
}
use gesta_agent.Classifier.Clean.{Distinct, is_configured, new_classifier-code_suffixes}
use gesta_agent.Receipt.{OutputSummary, add_summary}
use gesta_agent.Receipt.Sums.{IsSummary, Summed, add_summary-swap}

-- A pattern matches the commands that it is.
abbrev literal : Bytes → Option (Bytes → Bool)
literal pattern = some (bytes_eq pattern)

abbrev a_policy : PolicyRule
a_policy = record {
  rule_id = codes "p1";
  name = [];
  description = [];
  status = codes "active";
  agent_type = codes "all";
  match_value = codes "ls";
  action = codes "block";
  risk_level = [];
}

abbrev a_command : List Bytes
a_command =
    codes "sudo" ∷ codes "-u" ∷ codes "x" ∷ codes "/bin/sh" ∷ codes "-c" ∷ codes "ls; pwd" ∷ []

-- The script of a shell is tried as a whole and command by command.
forms_of_command :
    guarded_command_forms a_command
    ≡ a_command ∷ (codes "ls;" ∷ codes "pwd" ∷ []) ∷ (codes "ls" ∷ []) ∷ (codes "pwd" ∷ []) ∷ []
unfolding guarded_command_forms shell_forms script_of split_shell_command_fields split_fields
    field_of word_of unwrap_command_prefix unwrap_loop drop_sudo_options drop_env_options
    sudo_takes_value command_name clean_target_token one_of bytes_eq trim_space trim_left is_space
    trim_both fields last_element without_suffix contains_byte
forms_of_command = refl

evaluate_command_with_rules-is_block_example :
    is_block
      (evaluate_command_with_rules literal (codes "codex") a_command [] (a_policy ∷ [])).decision
    ≡ any_blocks literal (codes "codex") a_command (a_policy ∷ [])
evaluate_command_with_rules-is_block_example =
    evaluate_command_with_rules-is_block literal (codes "codex") a_command [] (a_policy ∷ [])

unwrap_command_prefix-Unwrapped_example : Unwrapped a_command (unwrap_command_prefix a_command)
unwrap_command_prefix-Unwrapped_example = unwrap_command_prefix-Unwrapped a_command

validate_rules-Validated_example :
    Validated no_patterns (a_rule ∷ []) (validate_rules no_patterns (a_rule ∷ []))
validate_rules-Validated_example = validate_rules-Validated no_patterns (a_rule ∷ [])

names_taken_apart :
    (tool_parts (codes " mcp__GitHub__search ") ≡ (codes "github", codes "search"))
    × (tool_parts (codes "mcp__checking.x") ≡ ([], []))
    × (server_identity (codes " `GitHub`: ") ≡ (codes "github`", codes "github`"))
unfolding tool_parts server_identity normalize_server_name is_reserved is_uuid_shaped_server_id
    is_uuid_from trim_space trim_left is_space trim_both to_lower has_prefix split_once bytes_eq
names_taken_apart = (refl, refl, refl)

tool_parts-Tool_example :
    let (server, tool) = tool_parts (codes "mcp__github__search") in
    ((server ≡ []) × (tool ≡ [])) ⊎ Tool (codes "mcp__github__search") server tool
tool_parts-Tool_example = tool_parts-Tool (codes "mcp__github__search")

abbrev an_output : OutputSummary
an_output = record {
  code_lines = pos 9223372036854775807;
  test_lines = pos 2;
  doc_words = pos 0;
  config_lines = pos 1;
  other_words = pos 3;
}

an_output-IsSummary : IsSummary an_output
an_output-IsSummary = record {
  code = (omega arith, omega arith);
  test = (omega arith, omega arith);
  doc = (omega arith, omega arith);
  config = (omega arith, omega arith);
  others = (omega arith, omega arith);
}

abbrev another_output : OutputSummary
another_output = record an_output { code_lines = pos 5 }

another_output-IsSummary : IsSummary another_output
another_output-IsSummary = record {
  code = (omega arith, omega arith);
  test = (omega arith, omega arith);
  doc = (omega arith, omega arith);
  config = (omega arith, omega arith);
  others = (omega arith, omega arith);
}

add_summary-swap_example :
    (add_summary (add_summary another_output an_output) another_output
      ≡ add_summary (add_summary another_output another_output) an_output)
    × Summed another_output an_output (add_summary another_output an_output)
add_summary-swap_example =
    add_summary-swap another_output an_output another_output another_output-IsSummary
      an_output-IsSummary another_output-IsSummary

abbrev some_suffixes : List Bytes
some_suffixes = codes " .GO" ∷ codes "go" ∷ codes ".go" ∷ []

paths_classified :
    let c = new_classifier some_suffixes (codes "Makefile" ∷ []) in
    (c.code_suffixes ≡ codes ".go" ∷ [])
    × (classify_path c (codes "a/Makefile") ≡ code)
    × (classify_path c (codes "a_test.go") ≡ tests)
    × (classify_path c (codes "x.md") ≡ docs)
unfolding new_classifier add_suffixes add_filenames is_suffix is_filename one_of classify_path
    is_test_path any_suffix has_suffix contains has_prefix trim_space trim_left is_space to_lower
    bytes_eq contains_byte last_element
paths_classified = (refl, refl, refl, refl)

new_classifier-code_suffixes_example :
    Distinct (new_classifier some_suffixes []).code_suffixes
    × ((s : Bytes)
        → one_of s (new_classifier some_suffixes []).code_suffixes
          ≡ is_suffix s && is_configured s some_suffixes)
new_classifier-code_suffixes_example = new_classifier-code_suffixes some_suffixes []
