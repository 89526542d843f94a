-- ===== src/Usage/Fork/Marks.antt =====
-- The turns that a round of accounting leaves to a session (claude_fork_accounting.go).
use gesta_agent.Prelude.{ℕ, ◌≡◌, refl, true, false, List, [], ◌∷◌, arith, All}
use gesta_agent.Bytes.{Bytes, bytes_eq_refl}
use gesta_agent.Assoc.{get}
use gesta_agent.Go.{Go, hash_string}
use gesta_agent.Usage.Claude.{SessionUsage, TurnUsage}
use gesta_agent.Usage.Fork.{
  ForkStore, Decided, mark_claude_inherited_turns, account_session, account_sessions,
  assign_claude_session_ranks, prepare_claude_fork_accounting,
}
use gesta_agent.Usage.Fork.Owner.{Ranks, or_nil, id_of, turn_ids, claude_accounting_occurrences}
use gesta_agent.Usage.Fork.Offset.{Offsets, apply_claude_inherited_offsets}
use gesta_agent.Usage.Fork.Owner.Holders.{has_digest, is_held}
use gesta_agent.Usage.Fork.Owner.Least.{UpTo}
use gesta_agent.Usage.Fork.Owner.Once.{owners_of, resolve_claude_accounting_owners-CountedOnce}

module _ ⦃go : Go⦄ where
  abbrev pub turns_of : SessionUsage → List Bytes
  turns_of s = turn_ids s.turns

  -- A turn is left to a session only if the session is the first of those that hold the turn.
  abbrev pub IsFirst : List SessionUsage → Ranks → Bytes → TurnUsage → Type 0
  IsFirst sessions ranks id turn =
      turn.accounting_inherited ≡ false
      → (j : Bytes) → is_held turns_of (hash_string turn.turn_id) j sessions ≡ true
      → UpTo ranks id j

  has_digest-All :
      (l : List TurnUsage) (known : List Bytes)
      → ((h : Bytes) → has_digest h (turn_ids l) ≡ true → has_digest h known ≡ true)
      → All (λ t. has_digest (hash_string t.turn_id) known ≡ true) l
  has_digest-All [] known sub = tt
  has_digest-All (t ∷ l) known sub = (
    sub (hash_string t.turn_id) (ground (arith, bytes_eq_refl (hash_string t.turn_id))),
    has_digest-All l known (λ h e. sub h (ground (arith, e))),
  )

  -- Each turn is held by its session.
  AllHeld : List SessionUsage → SessionUsage → Type 0
  AllHeld sessions s =
      All (λ t. is_held turns_of (hash_string t.turn_id) (id_of s) sessions ≡ true) s.turns

  turns-held :
      (s : SessionUsage) (sessions : List SessionUsage) (l : List TurnUsage)
      → ((h : Bytes)
          → has_digest h (turns_of s) ≡ true
          → is_held turns_of h (id_of s) sessions ≡ true)
      → All (λ t. has_digest (hash_string t.turn_id) (turns_of s) ≡ true) l
      → All (λ t. is_held turns_of (hash_string t.turn_id) (id_of s) sessions ≡ true) l
  turns-held s sessions [] f a = tt
  turns-held s sessions (t ∷ l) f (e, a) =
      (f (hash_string t.turn_id) e, turns-held s sessions l f a)

  sessions-held :
      (l sessions : List SessionUsage)
      → ((h id : Bytes) → is_held turns_of h id l ≡ true → is_held turns_of h id sessions ≡ true)
      → All (AllHeld sessions) l
  unfolding AllHeld
  sessions-held [] sessions sub = tt
  sessions-held (s ∷ l) sessions sub = (
    turns-held s sessions s.turns
        (λ h e. sub h (id_of s) (ground (arith, e, bytes_eq_refl (id_of s))))
        (has_digest-All s.turns (turns_of s) (λ h e. e)),
    sessions-held l sessions (λ h id e. sub h id (ground (arith, e))),
  )

  marked-IsFirst :
      (sessions : List SessionUsage) (ranks : Ranks) (id : Bytes) (l : List TurnUsage)
      → All (λ t. is_held turns_of (hash_string t.turn_id) id sessions ≡ true) l
      → All
          (IsFirst sessions ranks id)
          (mark_claude_inherited_turns l id (owners_of turns_of sessions ranks))
  unfolding mark_claude_inherited_turns
  marked-IsFirst sessions ranks id [] a = tt
  marked-IsFirst sessions ranks id (t ∷ l) (held, a) =
      let h = hash_string t.turn_id in
      let once = resolve_claude_accounting_owners-CountedOnce turns_of sessions ranks h in
      (λ left j there. once.first_counts id j held left there, marked-IsFirst sessions ranks id l a)

  apply_offsets-session_id :
      (s : SessionUsage) (offsets : Offsets)
      → (apply_claude_inherited_offsets s offsets).session_id ≡ s.session_id
  unfolding apply_claude_inherited_offsets
  apply_offsets-session_id s [] = refl
  apply_offsets-session_id s (o ∷ l) = refl

  -- The turns of a session that is accounted.
  abbrev pub TurnsFirst : List SessionUsage → Ranks → SessionUsage → Type 0
  TurnsFirst sessions ranks s = All (IsFirst sessions ranks (id_of s)) s.turns

  account_sessions-TurnsFirst :
      (d : Decided) (sessions : List SessionUsage) (ranks : Ranks) (l : List SessionUsage)
      → d.turn_owners ≡ owners_of turns_of sessions ranks
      → All (AllHeld sessions) l
      → All (TurnsFirst sessions ranks) (account_sessions d l)
  unfolding account_session AllHeld
  account_sessions-TurnsFirst d sessions ranks [] owners a = tt
  account_sessions-TurnsFirst d sessions ranks (s ∷ l) owners (held, a) =
      let same = apply_offsets-session_id s (or_nil (get (id_of s) d.offsets)) in
      (
        rw (same, owners) (marked-IsFirst sessions ranks (id_of s) s.turns held),
        account_sessions-TurnsFirst d sessions ranks l owners a,
      )

  -- After a round of accounting, a turn of a session is not marked as inherited only if the session
  -- comes first, by rank and then by name, among all sessions that hold the turn.
  pub prepare_claude_fork_accounting-TurnsFirst :
      (store : ForkStore) (baseline_sessions : ℕ) (sessions : List SessionUsage) (t : ℕ)
      → let (accounted, after) =
          prepare_claude_fork_accounting store baseline_sessions sessions t in
        All (TurnsFirst sessions after.session_ranks) accounted
  unfolding prepare_claude_fork_accounting claude_accounting_occurrences owners_of
  prepare_claude_fork_accounting-TurnsFirst store baseline_sessions sessions t =
      account_sessions-TurnsFirst _ sessions
        (assign_claude_session_ranks store sessions).session_ranks sessions refl
        (sessions-held sessions sessions (λ h id e. e))
