-- ===== src/Policy/Unwrapped.antt =====
-- What is left of a command without its wrappers (unwrapCommandPrefix of policy.go).
use gesta_agent.Prelude.{
  ℕ, zero, suc, ◌≤◌, ◌≡◌, refl, ap, ◌∙◌, inl, inr, Bool, true, false, ◌||◌, List, [], ◌∷◌, ◌++◌,
  arith, if◌then◌else◌, Bool-cases, length, length-append, append_assoc,
}
use gesta_agent.Bytes.{Bytes, codes}
use gesta_agent.Strings.{contains_byte}
use gesta_agent.Policy.{one_of}
use gesta_agent.Policy.Commands.{
  command_name, drop_sudo_options, drop_env_options, is_sudo, is_env, is_plain_wrapper, unwrap_loop,
  is_option, sudo_takes_value, unwrap_command_prefix,
}

abbrev pub is_wrapper : Bytes → Bool
is_wrapper name = is_sudo name || (is_env name || is_plain_wrapper name)

-- The first word is no wrapper.
abbrev pub IsBare : List Bytes → Type 0
IsBare [] = Unit {0}
IsBare (arg ∷ args) = is_wrapper (command_name arg) ≡ false

-- The last words of a command.
abbrev pub IsTail : List Bytes → List Bytes → Type 0
IsTail tail args = (dropped : List Bytes) × (dropped ++ tail ≡ args)

IsTail-later : (arg : Bytes) (tail args : List Bytes) → IsTail tail args → IsTail tail (arg ∷ args)
IsTail-later arg tail args (dropped, e) = (arg ∷ dropped, ap (◌∷◌ arg) e)

pick-IsTail :
    (c : Bool) (s t args : List Bytes)
    → IsTail s args
    → IsTail t args
    → IsTail (if c then s else t) args
pick-IsTail true s t args p q = p
pick-IsTail false s t args p q = q

length-tail : (tail args : List Bytes) → IsTail tail args → length tail ≤ length args
length-tail tail args ([], e) = omega (arith, ap length e)
length-tail tail [] (arg ∷ dropped, e) = omega (arith, ap length e, length-append dropped tail)
length-tail tail (a ∷ args) (arg ∷ dropped, e) =
    omega (arith, ap length e, length-append dropped tail)

drop_sudo_options-IsTail : (args : List Bytes) → IsTail (drop_sudo_options args) args
unfolding drop_sudo_options
drop_sudo_options-IsTail [] = ([], refl)
drop_sudo_options-IsTail (opt ∷ []) =
    pick-IsTail (is_option opt) [] (opt ∷ []) (opt ∷ []) (opt ∷ [], refl) ([], refl)
drop_sudo_options-IsTail (opt ∷ value ∷ args) =
    let past = drop_sudo_options-IsTail args in
    let next = drop_sudo_options-IsTail (value ∷ args) in
    pick-IsTail (is_option opt) _ _ _
      (pick-IsTail (sudo_takes_value opt) _ _ _ (IsTail-later opt _ _ (IsTail-later value _ _ past))
        (IsTail-later opt _ _ next))
      ([], refl)

drop_env_options-IsTail : (args : List Bytes) → IsTail (drop_env_options args) args
unfolding drop_env_options
drop_env_options-IsTail [] = ([], refl)
drop_env_options-IsTail (arg ∷ []) =
    pick-IsTail (contains_byte 61 arg) _ _ _ (arg ∷ [], refl)
      (pick-IsTail (is_option arg) [] (arg ∷ []) (arg ∷ []) (arg ∷ [], refl) ([], refl))
drop_env_options-IsTail (arg ∷ value ∷ args) =
    let past = drop_env_options-IsTail args in
    let next = IsTail-later arg _ _ (drop_env_options-IsTail (value ∷ args)) in
    pick-IsTail (contains_byte 61 arg) _ _ _ next (
      pick-IsTail (one_of arg (codes "-u" ∷ codes "--unset" ∷ [])) _ _ _
        (IsTail-later arg _ _ (IsTail-later value _ _ past))
        (pick-IsTail (is_option arg) _ _ _ next ([], refl)))

-- What is left of a command: its last words, of which the first is no wrapper.
pub record Unwrapped (args left : List Bytes) : Type 0 where
  pub tail : IsTail left args
  pub bare : IsBare left

later :
    (arg : Bytes) (rest args left : List Bytes)
    → IsTail rest args
    → Unwrapped rest left
    → Unwrapped (arg ∷ args) left
later arg rest args left (dropped, e) u =
    let (more, f) = u.tail in
    record {
      tail = (
        arg ∷ (dropped ++ more),
        ap (◌∷◌ arg) (append_assoc dropped more left ∙ ap (λ l. dropped ++ l) f ∙ e),
      );
      bare = u.bare;
    }

unwrap_loop-Unwrapped :
    (fuel : ℕ) (args : List Bytes) → length args ≤ fuel → Unwrapped args (unwrap_loop fuel args)
unfolding unwrap_loop
unwrap_loop-Unwrapped zero [] enough = record { tail = ([], refl); bare = tt }
unwrap_loop-Unwrapped zero (arg ∷ args) enough = absurd (omega (arith, enough))
unwrap_loop-Unwrapped (suc fuel) [] enough = record { tail = ([], refl); bare = tt }
unwrap_loop-Unwrapped (suc fuel) (arg ∷ args) enough =
    let name = command_name arg in
    let again : (rest : List Bytes)
        → IsTail rest args
        → Unwrapped (arg ∷ args) (unwrap_loop fuel rest) =
      λ rest t.
        later arg rest args (unwrap_loop fuel rest) t
          (unwrap_loop-Unwrapped fuel rest (omega (arith, enough, length-tail rest args t))) in
    elim (Bool-cases (is_sudo name)) [
      | inl sudo ↦ rw sudo (again (drop_sudo_options args) (drop_sudo_options-IsTail args))
      | inr not_sudo ↦ elim (Bool-cases (is_env name)) [
        | inl env ↦
            rw (not_sudo, env) (again (drop_env_options args) (drop_env_options-IsTail args))
        | inr not_env ↦ elim (Bool-cases (is_plain_wrapper name)) [
          | inl plain ↦ rw (not_sudo, not_env, plain) (again args ([], refl))
          | inr other ↦
              rw (not_sudo, not_env, other)
                (record { tail = ([], refl); bare = ground (arith, not_sudo, not_env, other) })
        ]
      ]
    ]

-- Unwrapping ends, with the fuel of one turn for each word: it leaves the last words of the command,
-- and the first of them is none of the wrappers.
pub unwrap_command_prefix-Unwrapped :
    (args : List Bytes) → Unwrapped args (unwrap_command_prefix args)
unfolding unwrap_command_prefix
unwrap_command_prefix-Unwrapped args = unwrap_loop-Unwrapped (length args) args (omega arith)
