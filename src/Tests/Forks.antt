-- ===== src/Tests/Forks.antt =====
-- The theorems on forked sessions applied to two sessions that share a turn and an invocation.
use gesta_agent.Prelude.{All, ◌≡◌, List, [], ◌∷◌, arith, true, none_ne_some}
use gesta_agent.Bytes.{Bytes, codes, bytes_eq_refl}
use gesta_agent.Assoc.{get}
use gesta_agent.Go.{hash_string}
use gesta_agent.Tests.Usages.{plain}
use gesta_agent.Tests.Sessions.{a_file, some_usage}
use gesta_agent.Usage.Claude.{SessionUsage}
use gesta_agent.Usage.Fork.Marks.{TurnsFirst, prepare_claude_fork_accounting-TurnsFirst}
use gesta_agent.Usage.Fork.{prepare_claude_fork_accounting, ForkStore, assign_claude_session_ranks}
use gesta_agent.Usage.Fork.Owner.{turn_ids, id_of, Ranks}
use gesta_agent.Usage.Fork.Owner.Once.{CountedOnce, resolve_claude_accounting_owners-CountedOnce}
use gesta_agent.Usage.Fork.Offset.{
  Offsets, apply_claude_inherited_offsets, next_claude_inherited_offsets,
}
use gesta_agent.Usage.Fork.Offset.Growing.{
  AtMost, offset_at, offsets_at, is_session, next_claude_inherited_offsets-AtMost,
}
use gesta_agent.Usage.Fork.Offset.Reduced.{Reduced, apply_claude_inherited_offsets-Reduced}
use gesta_agent.Usage.Fork.Order.{RanksBelow, Ranked, assign_claude_session_ranks-Ranked}

abbrev original : SessionUsage
original = a_file 7 9

abbrev fork : SessionUsage
fork = record (a_file 7 9) { session_id = codes "s2" }

abbrev both : List SessionUsage
both = original ∷ fork ∷ []

abbrev a_store : ForkStore
a_store = record {
  version = 2;
  initialized_at = [];
  next_session_rank = 0;
  session_ranks = [];
  active_sessions = [];
  inherited_offsets = [];
}

abbrev ranks_after : Ranks
ranks_after = (assign_claude_session_ranks a_store both).session_ranks

resolve_claude_accounting_owners-CountedOnce_example :
    CountedOnce (λ s. turn_ids s.turns) both ranks_after (hash_string (codes "t1"))
resolve_claude_accounting_owners-CountedOnce_example =
    resolve_claude_accounting_owners-CountedOnce (λ s. turn_ids s.turns) both ranks_after
      (hash_string (codes "t1"))

abbrev some_offsets : Offsets
some_offsets = (codes "k", some_usage 3) ∷ []

abbrev stored_offsets : List (Bytes × Offsets)
stored_offsets = (id_of fork, some_offsets) ∷ []

fork_listed : is_session (id_of fork) (fork ∷ original ∷ []) ≡ true
fork_listed = ground (arith, bytes_eq_refl (id_of fork))

next_claude_inherited_offsets-AtMost_example :
    AtMost (offset_at (codes "k") (offsets_at (id_of fork) stored_offsets)) (
      offset_at (codes "k") (
        offsets_at
          (id_of fork)
          (next_claude_inherited_offsets stored_offsets (fork ∷ original ∷ []) [])))
next_claude_inherited_offsets-AtMost_example =
    next_claude_inherited_offsets-AtMost (id_of fork) (codes "k") stored_offsets
      (fork ∷ original ∷ []) [] fork_listed

apply_claude_inherited_offsets-Reduced_example :
    Reduced (apply_claude_inherited_offsets fork ((codes "k", some_usage 3) ∷ []))
apply_claude_inherited_offsets-Reduced_example =
    apply_claude_inherited_offsets-Reduced fork (codes "k", some_usage 3) []

no_ranks : RanksBelow 0 []
unfolding get
no_ranks id r e = absurd (none_ne_some e)

assign_claude_session_ranks-Ranked_example :
    Ranked a_store (assign_claude_session_ranks a_store both) both
assign_claude_session_ranks-Ranked_example =
    assign_claude_session_ranks-Ranked a_store both no_ranks (omega arith)

prepare_claude_fork_accounting-TurnsFirst_example :
    All
      (TurnsFirst both (prepare_claude_fork_accounting a_store 0 both 5).1.session_ranks)
      (prepare_claude_fork_accounting a_store 0 both 5).0
prepare_claude_fork_accounting-TurnsFirst_example =
    prepare_claude_fork_accounting-TurnsFirst a_store 0 both 5
