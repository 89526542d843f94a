-- ===== src/Tests/Sessions.antt =====
-- The theorems on the sessions of Claude Code applied to two files of one session.
use gesta_agent.Prelude.{ℕ, ◌≡◌, refl, List, [], ◌∷◌, false}
use gesta_agent.Prelude.Int.{pos, ◌+ℤ◌}
use gesta_agent.Int64.{int64}
use gesta_agent.Bytes.{codes, bytes_eq}
use gesta_agent.Strings.{trim_space, trim_left, is_space}
use gesta_agent.Sorting.{insert_by, sort_by}
use gesta_agent.Tests.Usages.{plain}
use gesta_agent.Usage.Claude.{
  AssistantUsage, InvocationUsage, TurnUsage, SessionUsage, no_usage, total_tokens, add_usage,
}
use gesta_agent.Usage.Merge.{
  add_found, add_all, add_invocation, better_invocation, merge_claude_invocations,
  merge_claude_turns, turn_key, invocation_key, rebuild_totals, rebuild_claude_invocation_totals,
  merge_claude_sessions_by_id,
}
use gesta_agent.Usage.Merge.Invocations.{
  Merged, invocation_size, turn_size, merge_claude_invocations-Merged, merge_claude_turns-Merged,
}
use gesta_agent.Usage.Merge.Totals.{Rebuilt, rebuild_claude_invocation_totals-Rebuilt}
use gesta_agent.Usage.Merge.Sessions.{MergedSessions, merge_claude_sessions_by_id-MergedSessions}

abbrev pub some_usage : ℕ → AssistantUsage
some_usage n = record no_usage { output_tokens = pos n }

abbrev an_invocation : ℕ → InvocationUsage
an_invocation n = record {
  invocation_id = codes "i1";
  observed_at = 5;
  model = codes "m";
  usage = some_usage n;
}

abbrev a_turn : ℕ → TurnUsage
a_turn n = record {
  turn_id = codes "t1";
  status = codes "completed";
  started_at = 4;
  ended_at = 6;
  model = codes "m";
  usage = some_usage n;
  accounting_inherited = false;
}

abbrev pub a_file : ℕ → ℕ → SessionUsage
a_file n last = record {
  session_id = codes "s1";
  cwd = [];
  git_branch = [];
  title = [];
  first_event_at = 3;
  last_event_at = last;
  assistant_events = pos 1;
  models = codes "m" ∷ [];
  by_model_day = [];
  total = some_usage n;
  mcp_tool_calls = [];
  turns = a_turn n ∷ [];
  invocations = an_invocation n ∷ [];
  accounting_seed_only = false;
  accounting_first_event_at = 0;
}

abbrev two_files : List SessionUsage
two_files = a_file 7 9 ∷ a_file 11 8 ∷ []

-- The invocation that stands in both files counts once.
counted_once :
    (merge_claude_invocations (an_invocation 7 ∷ []) (an_invocation 11 ∷ [])
      ≡ an_invocation 11 ∷ [])
    × ((rebuild_claude_invocation_totals (a_file 7 9)).total ≡ some_usage 7)
unfolding merge_claude_invocations add_all add_invocation add_found better_invocation total_tokens
    trim_space trim_left is_space bytes_eq int64 ◌+ℤ◌ sort_by insert_by
    rebuild_claude_invocation_totals rebuild_totals add_usage
counted_once = (refl, refl)

merge_claude_invocations-Merged_example :
    Merged invocation_key invocation_size
      (an_invocation 7 ∷ an_invocation 11 ∷ [])
      (merge_claude_invocations (an_invocation 7 ∷ []) (an_invocation 11 ∷ []))
merge_claude_invocations-Merged_example =
    merge_claude_invocations-Merged (an_invocation 7 ∷ []) (an_invocation 11 ∷ [])

merge_claude_turns-Merged_example :
    Merged turn_key turn_size
      (a_turn 7 ∷ a_turn 11 ∷ [])
      (merge_claude_turns (a_turn 7 ∷ []) (a_turn 11 ∷ []))
merge_claude_turns-Merged_example = merge_claude_turns-Merged (a_turn 7 ∷ []) (a_turn 11 ∷ [])

rebuild_claude_invocation_totals-Rebuilt_example :
    Rebuilt (rebuild_claude_invocation_totals (a_file 7 9))
rebuild_claude_invocation_totals-Rebuilt_example =
    rebuild_claude_invocation_totals-Rebuilt (a_file 7 9)

merge_claude_sessions_by_id-MergedSessions_example :
    MergedSessions two_files (merge_claude_sessions_by_id two_files)
merge_claude_sessions_by_id-MergedSessions_example =
    merge_claude_sessions_by_id-MergedSessions two_files
