-- ===== src/McpMeta.antt =====
-- pkg/mcpmeta: the names of MCP servers and of their tools.
pub mod Parts
use gesta_agent.Prelude.{
  ℕ, suc, Bool, true, false, not, ◌&&◌, ◌||◌, List, [], ◌∷◌, Option, none, some, if◌then◌else◌,
  length, leb, ltb, ◌==◌,
}
use gesta_agent.Bytes.{Bytes, codes, bytes_eq}
use gesta_agent.Strings.{
  trim_space, trim_both, drop_while, to_lower, has_prefix, drop_bytes, split_once,
}
use mathlib.Core.List.{reverse}

abbrev pub max_server_identity_bytes : ℕ
max_server_identity_bytes = 255

-- A grave accent and the two quotes.
abbrev is_quote : ℕ → Bool
is_quote c = (c == 96) || ((c == 34) || (c == 39))

-- strings.TrimRight with a colon
abbrev trim_colons : Bytes → Bytes
trim_colons s = reverse (drop_while (λ c. c == 58) (reverse s))

unfoldable pub is_reserved : Bytes → Bool
is_reserved lower =
    bytes_eq lower []
    || (bytes_eq lower (codes "checking")
        || (bytes_eq lower (codes "codex_apps") || bytes_eq lower (codes "codex-apps")))

unfoldable pub normalize_server_name : Bytes → Bytes
normalize_server_name value =
    let lower = to_lower (trim_space (trim_colons (trim_both is_quote (trim_space value)))) in
    if is_reserved lower then [] else lower

abbrev pub is_hex : ℕ → Bool
is_hex c = (leb 48 c && leb c 57) || ((leb 97 c && leb c 102) || (leb 65 c && leb c 70))

-- From the place `i` on: dashes at four places, and hexadecimal digits elsewhere.
unfoldable pub is_uuid_from : ℕ → Bytes → Bool
is_uuid_from i [] = i == 36
is_uuid_from i (c ∷ s) =
    (if (i == 8) || ((i == 13) || ((i == 18) || (i == 23))) then c == 45 else is_hex c)
    && is_uuid_from (suc i) s

unfoldable pub is_uuid_shaped_server_id : Bytes → Bool
is_uuid_shaped_server_id value = is_uuid_from 0 value

unfoldable pub server_identity : Bytes → Bytes × Bytes
server_identity value =
    let server_id = normalize_server_name value in
    if bytes_eq server_id [] || ltb max_server_identity_bytes (length server_id)
    then ([], [])
    else if is_uuid_shaped_server_id server_id
    then (server_id, [])
    else (server_id, server_id)

abbrev pub first_split : Option (Bytes × Bytes) → Option (Bytes × Bytes) → Option (Bytes × Bytes)
first_split none other = other
first_split (some parts) other = some parts

-- The parts before and after the first "__", or else the first dot.
abbrev pub split_tool : Bytes → Option (Bytes × Bytes)
split_tool rest = first_split (split_once (codes "__") rest) (split_once (codes ".") rest)

abbrev pub named_parts : Bytes → Bytes → Bytes × Bytes
named_parts server tool =
    if bytes_eq server [] || bytes_eq tool [] then ([], []) else (server, tool)

unfoldable pub tool_parts : Bytes → Bytes × Bytes
tool_parts name =
    let trimmed = trim_space name in
    if has_prefix (codes "mcp__") trimmed
    then elim (split_tool (drop_bytes (codes "mcp__") trimmed)) [
      | none ↦ ([], [])
      | some parts ↦ named_parts (normalize_server_name parts.0) (trim_space parts.1)
    ]
    else ([], [])
