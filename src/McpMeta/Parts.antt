-- ===== src/McpMeta/Parts.antt =====
-- What the names of pkg/mcpmeta are taken apart into.
use gesta_agent.Prelude.{
  ℕ, ◌≡◌, ◌≢◌, ◌⊎◌, refl, ap, ◌∙◌, inl, inr, true, ◌||◌, [], ◌∷◌, ◌++◌, Option, none, some, arith,
  Bool-cases, Option-cases, some_inj, none_ne_some,
}
use gesta_agent.Bytes.{Bytes, codes, bytes_eq, bytes_eq_iff}
use gesta_agent.Strings.{trim_space, has_prefix, drop_bytes, split_once, after_first}
use gesta_agent.McpMeta.{normalize_server_name, split_tool, tool_parts}

-- A text that was split stands around its separator.
has_prefix-append : (p s : Bytes) → has_prefix p s ≡ true → s ≡ p ++ drop_bytes p s
unfolding has_prefix
has_prefix-append [] s h = refl
has_prefix-append (c ∷ p) [] h = absurd (ground arith)
has_prefix-append (c ∷ p) (d ∷ s) h =
    let e : c ≡ d = ground (arith, h) in
    rw e (ap (◌∷◌ d) (has_prefix-append p s (ground (arith, h))))

after_first-append :
    (sep s : Bytes) (c : ℕ) (o : Option (Bytes × Bytes)) (a b : Bytes)
    → ((x y : Bytes) → o ≡ some (x, y) → s ≡ x ++ sep ++ y)
    → after_first c o ≡ some (a, b)
    → c ∷ s ≡ a ++ sep ++ b
after_first-append sep s c none a b whole h = absurd (none_ne_some h)
after_first-append sep s c (some (x, y)) a b whole h =
    let e = some_inj h in
    ap (◌∷◌ c) (whole x y refl) ∙ ap (λ (p : Bytes × Bytes). p.0 ++ sep ++ p.1) e

split_once-append : (sep s a b : Bytes) → split_once sep s ≡ some (a, b) → s ≡ a ++ sep ++ b
unfolding split_once
split_once-append sep [] a b h = elim (Bool-cases (has_prefix sep [])) [
  | inl here ↦
      let e = some_inj (rw here at h) in
      has_prefix-append sep [] here ∙ ap (λ (p : Bytes × Bytes). p.0 ++ sep ++ p.1) e
  | inr gone ↦ absurd (none_ne_some (rw gone at h))
]
split_once-append sep (c ∷ s) a b h = elim (Bool-cases (has_prefix sep (c ∷ s))) [
  | inl here ↦
      let e = some_inj (rw here at h) in
      has_prefix-append sep (c ∷ s) here ∙ ap (λ (p : Bytes × Bytes). p.0 ++ sep ++ p.1) e
  | inr later ↦
      after_first-append sep s c (split_once sep s) a b (λ x y e. split_once-append sep s x y e)
        (rw later at h)
]

-- A name of a tool and the parts that it is taken apart into.
pub record Tool (name server tool : Bytes) : Type 0 where
  pub before : Bytes
  pub separator : Bytes
  pub after : Bytes
  pub whole : trim_space name ≡ codes "mcp__" ++ before ++ separator ++ after
  pub separated : (separator ≡ codes "__") ⊎ (separator ≡ codes ".")
  pub server_normal : server ≡ normalize_server_name before
  pub tool_trimmed : tool ≡ trim_space after
  pub server_named : server ≢ []
  pub tool_named : tool ≢ []

split_tool-append :
    (s a b : Bytes)
    → split_tool s ≡ some (a, b)
    → (sep : Bytes) × (s ≡ a ++ sep ++ b) × ((sep ≡ codes "__") ⊎ (sep ≡ codes "."))
split_tool-append s a b h = elim (Option-cases (split_once (codes "__") s)) [
  | inl dot ↦ (codes ".", split_once-append (codes ".") s a b (rw dot at h), inr refl)
  | inr ((x, y), at) ↦
      let e : some (x, y) ≡ some (a, b) = rw at at h in
      (codes "__", split_once-append (codes "__") s a b (at ∙ e), inl refl)
]

-- A name has no parts, or it is "mcp__", the server, a separator, and the tool, neither blank, with
-- the name of the server normalized.
pub tool_parts-Tool :
    (name : Bytes)
    → let (server, tool) = tool_parts name in ((server ≡ []) × (tool ≡ [])) ⊎ Tool name server tool
unfolding tool_parts
tool_parts-Tool name = elim (Bool-cases (has_prefix (codes "mcp__") (trim_space name))) [
  | inr no_prefix ↦ rw no_prefix (inl (refl, refl))
  | inl prefixed ↦
      let rest = drop_bytes (codes "mcp__") (trim_space name) in
      elim (Option-cases (split_tool rest)) [
        | inl whole ↦ rw (prefixed, whole) (inl (refl, refl))
        | inr ((a, b), at) ↦
            let (sep, e, which) = split_tool-append rest a b at in
            let server = normalize_server_name a in
            let tool = trim_space b in
            elim (Bool-cases (bytes_eq server [] || bytes_eq tool [])) [
              | inl blank ↦ rw (prefixed, at, blank) (inl (refl, refl))
              | inr named ↦
                  rw (prefixed, at, named)
                    (inr (record {
                      before = a;
                      separator = sep;
                      after = b;
                      whole =
                          has_prefix-append (codes "mcp__") (trim_space name) prefixed
                          ∙ ap (λ s. codes "mcp__" ++ s) e;
                      separated = which;
                      server_normal = refl;
                      tool_trimmed = refl;
                      server_named = λ f. ground (arith, named, bytes_eq_iff server [], f);
                      tool_named = λ f. ground (arith, named, bytes_eq_iff tool [], f);
                    }))
            ]
      ]
]
