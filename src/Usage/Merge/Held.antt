-- ===== src/Usage/Merge/Held.antt =====
-- What the map of mergeClaudeSessionsByID holds for a session, after some of the files.
use gesta_agent.Prelude.{
  ℕ, ◌≡◌, ◌≢◌, refl, sym, ap, ◌∙◌, inl, inr, List, [], ◌∷◌, Option, none, some, arith, All,
  if◌then◌else◌, Bool-cases, ltb,
}
use gesta_agent.Prelude.Int.{ℤ, pos, max_ℤ}
use gesta_agent.Bytes.{Bytes, bytes_eq, bytes_eq_iff}
use gesta_agent.Assoc.{get, put, get-put}
use gesta_agent.Usage.Claude.{InvocationUsage, SessionUsage, no_usage}
use gesta_agent.Usage.Merge.{invocation_key, first_file, join_file, merged_file, merge_files}
use gesta_agent.Usage.Merge.Kept.{
  join, join_assoc, join_comm, join_swap, entry, best, joined, Distinct, best-append,
}
use gesta_agent.Usage.Merge.Invocations.{invocation_size, merge_claude_invocations-Merged}

abbrev pub greatest_in : Bytes → List InvocationUsage → Option ℤ
greatest_in k l = best invocation_key invocation_size k l

abbrev pub last_event : SessionUsage → ℤ
last_event s = pos s.last_event_at

abbrev pub session_key : SessionUsage → Bytes
session_key s = s.session_id

-- What a file adds to a session.
abbrev pub file_greatest : Bytes → Bytes → SessionUsage → Option ℤ
file_greatest id k file =
    if bytes_eq file.session_id id then greatest_in k file.invocations else none

abbrev pub file_last : Bytes → SessionUsage → Option ℤ
file_last id file = entry session_key last_event id file

-- A session whose invocations have the greatest totals `g` and whose last event is at `last`.
pub record HeldSession (id : Bytes) (g : Bytes → Option ℤ) (last : Option ℤ) (s : SessionUsage)
    : Type 0 where
  pub at : s.session_id ≡ id
  pub greatest : (k : Bytes) → k ≢ [] → greatest_in k s.invocations ≡ g k
  pub once : Distinct invocation_key invocation_size s.invocations
  pub named : All (λ i. invocation_key i ≢ []) s.invocations
  pub latest : some (last_event s) ≡ last
  pub total : s.total ≡ no_usage
  pub buckets : s.by_model_day ≡ []

abbrev pub Held : Bytes → (Bytes → Option ℤ) → Option ℤ → Option SessionUsage → Type 0
Held id g last none = ((k : Bytes) → k ≢ [] → none ≡ g k) × (none ≡ last)
Held id g last (some s) = HeldSession id g last s

pub Held-cong :
    (id : Bytes) (g h : Bytes → Option ℤ) (last latest : Option ℤ) (o : Option SessionUsage)
    → ((k : Bytes) → g k ≡ h k)
    → last ≡ latest
    → Held id g last o
    → Held id h latest o
Held-cong id g h last latest none same e (q, n) = (λ k apart. q k apart ∙ same k, n ∙ e)
Held-cong id g h last latest (some s) same e q = record {
  at = q.at;
  greatest = λ k apart. q.greatest k apart ∙ same k;
  once = q.once;
  named = q.named;
  latest = q.latest ∙ e;
  total = q.total;
  buckets = q.buckets;
}

merged_file-Held :
    (id : Bytes) (g : Bytes → Option ℤ) (last : Option ℤ) (o : Option SessionUsage)
    (file : SessionUsage)
    → file.session_id ≡ id
    → Held id g last o
    → HeldSession id
        (λ k. join (greatest_in k file.invocations) (g k))
        (join (some (last_event file)) last)
        (merged_file o file)
unfolding merged_file first_file join_file
merged_file-Held id g last none file at (q, n) =
    let merged = merge_claude_invocations-Merged [] file.invocations in
    record {
      at = at;
      greatest = λ k apart.
          merged.greatest k apart
          ∙ join_comm none (greatest_in k file.invocations)
          ∙ ap (join (greatest_in k file.invocations)) (q k apart);
      once = merged.once;
      named = merged.named;
      latest = ap (join (some (last_event file))) n;
      total = refl;
      buckets = refl;
    }
merged_file-Held id g last (some s) file at q =
    let merged = merge_claude_invocations-Merged s.invocations file.invocations in
    record {
      at = q.at;
      greatest = λ k apart.
          merged.greatest k apart
          ∙ best-append invocation_key invocation_size k s.invocations file.invocations
          ∙ join_comm (greatest_in k s.invocations) (greatest_in k file.invocations)
          ∙ ap (join (greatest_in k file.invocations)) (q.greatest k apart);
      once = merged.once;
      named = merged.named;
      latest =
          ap some (later s.last_event_at file.last_event_at)
          ∙ ap (join (some (last_event file))) q.latest;
      total = q.total;
      buckets = q.buckets;
    }
  where
    later : (a b : ℕ) → pos (if ltb a b then b else a) ≡ max_ℤ (pos b) (pos a)
    later a b = ground arith

-- The map holds for each session what the files have of it.
abbrev pub Holds :
    (Bytes → Bytes → Option ℤ) → (Bytes → Option ℤ) → List (Bytes × SessionUsage) → Type 0
Holds g last m = (id : Bytes) → Held id (g id) (last id) (get id m)

put-Holds :
    (g : Bytes → Bytes → Option ℤ) (last : Bytes → Option ℤ) (m : List (Bytes × SessionUsage))
    (file : SessionUsage)
    → Holds g last m
    → Holds
        (λ id k. join (file_greatest id k file) (g id k))
        (λ id. join (file_last id file) (last id))
        (put file.session_id (merged_file (get file.session_id m) file) m)
put-Holds g last m file h id =
    let put = get-put file.session_id id (merged_file (get file.session_id m) file) m in
    elim (Bool-cases (bytes_eq file.session_id id)) [
      | inl same ↦
          let at : file.session_id ≡ id = (bytes_eq_iff file.session_id id).0 same in
          rw (put, same)
            (merged_file-Held id (g id) (last id) (get file.session_id m) file at (rw at (h id)))
      | inr apart ↦ rw (put, apart) (h id)
    ]

pub merge_files-Holds :
    (files : List SessionUsage) (g : Bytes → Bytes → Option ℤ) (last : Bytes → Option ℤ)
    (m : List (Bytes × SessionUsage))
    → Holds g last m
    → Holds
        (λ id k. join (joined (file_greatest id k) files) (g id k))
        (λ id. join (joined (file_last id) files) (last id))
        (merge_files files m)
unfolding merge_files
merge_files-Holds [] g last m h id = h id
merge_files-Holds (file ∷ files) g last m h id =
    Held-cong id _ _ _ _ _
      (λ k.
        join_swap (joined (file_greatest id k) files) (file_greatest id k file) (g id k)
        ∙ sym (join_assoc (file_greatest id k file) (joined (file_greatest id k) files) (g id k)))
      (join_swap (joined (file_last id) files) (file_last id file) (last id)
        ∙ sym (join_assoc (file_last id file) (joined (file_last id) files) (last id)))
      (merge_files-Holds files _ _ _ (put-Holds g last m file h) id)
