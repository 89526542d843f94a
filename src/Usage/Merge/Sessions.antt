-- ===== src/Usage/Merge/Sessions.antt =====
-- The sessions that mergeClaudeSessionsByID returns (claude_transcript_merge.go).
use gesta_agent.Prelude.{
  ◌≡◌, ◌≢◌, refl, sym, ap, subst, ◌∙◌, inl, inr, false, List, [], ◌∷◌, ◌++◌, Option, none, some,
  arith, All, if◌then◌else◌, Bool-cases,
}
use gesta_agent.Prelude.Int.{ℤ, pos}
use gesta_agent.Bytes.{Bytes, bytes_eq, bytes_eq_iff}
use gesta_agent.Assoc.{get}
use gesta_agent.Assoc.Keys.{Keyed, put-Keyed, All-get}
use gesta_agent.Sorting.{sort_by}
use gesta_agent.Go.{Go}
use gesta_agent.Usage.Claude.{InvocationUsage, SessionUsage, no_usage, bucket}
use gesta_agent.Usage.Merge.{
  invocation_key, merged_file, merge_files, finish_session, finish_all, file_before, session_before,
  merge_claude_sessions_by_id, rebuild_claude_invocation_totals,
}
use gesta_agent.Usage.Merge.Kept.{
  join, join_comm, entry, best, joined, joined-sort_by, Distinct, best-append, best-sort_by,
  sort_by-Distinct, All-sort_by,
}
use gesta_agent.Usage.Merge.Invocations.{Merged, invocation_size}
use gesta_agent.Usage.Merge.Totals.{Rebuilt, rebuild_claude_invocation_totals-Rebuilt}
use gesta_agent.Usage.Merge.Held.{
  greatest_in, last_event, session_key, file_greatest, file_last, HeldSession, Held, Held-cong,
  merge_files-Holds,
}

abbrev Merging : Type 0
Merging = List (Bytes × SessionUsage)

merge_files-Keyed :
    (files : List SessionUsage) (m : Merging) → Keyed m → Keyed (merge_files files m)
unfolding merge_files
merge_files-Keyed [] m d = d
merge_files-Keyed (file ∷ files) m d =
    merge_files-Keyed files _
      (put-Keyed file.session_id (merged_file (get file.session_id m) file) m d)

-- What the sessions of one identifier have together.
abbrev pub invocations_of : Bytes → List SessionUsage → List InvocationUsage
invocations_of id [] = []
invocations_of id (s ∷ l) =
    if bytes_eq s.session_id id then s.invocations ++ invocations_of id l else invocations_of id l

greatest_in-invocations_of :
    (id k : Bytes) (l : List SessionUsage)
    → joined (file_greatest id k) l ≡ greatest_in k (invocations_of id l)
greatest_in-invocations_of id k [] = refl
greatest_in-invocations_of id k (s ∷ l) = elim (Bool-cases (bytes_eq s.session_id id)) [
  | inl same ↦ rw same (
      ap (join (greatest_in k s.invocations)) (greatest_in-invocations_of id k l)
      ∙ sym (best-append invocation_key invocation_size k s.invocations (invocations_of id l)))
  | inr apart ↦ rw apart (greatest_in-invocations_of id k l)
]

module _ ⦃go : Go⦄ where
  -- A session that is merged out of `files`.
  pub record MergedSession (files : List SessionUsage) (s : SessionUsage) : Type 0 where
    pub invocations :
        Merged invocation_key invocation_size (invocations_of s.session_id files) s.invocations
    pub rebuilt : Rebuilt s

  pub record MergedSessions (files sessions : List SessionUsage) : Type 0 where
    pub each : All (MergedSession files) sessions
    -- Each identifier once, with the last event of all its files.
    pub once : Distinct session_key last_event sessions
    pub latest :
        (id : Bytes)
        → best session_key last_event id sessions ≡ best session_key last_event id files

  finish_session-kept :
      (s : SessionUsage)
      → ((finish_session s).session_id ≡ s.session_id)
        × ((finish_session s).last_event_at ≡ s.last_event_at)
        × ((finish_session s).invocations ≡ s.invocations)
  unfolding finish_session rebuild_claude_invocation_totals
  finish_session-kept s = kept s.invocations
    where
      kept :
          (l : List InvocationUsage)
          → let t = elim l as (λ x. SessionUsage) [
            | [] ↦ s
            | i ∷ m ↦ rebuild_claude_invocation_totals s
          ] in
            (t.session_id ≡ s.session_id)
            × (t.last_event_at ≡ s.last_event_at)
            × (t.invocations ≡ s.invocations)
      kept [] = (refl, refl, refl)
      kept (i ∷ l) = (refl, refl, refl)

  finish_session-Rebuilt :
      (s : SessionUsage) → s.total ≡ no_usage → s.by_model_day ≡ [] → Rebuilt (finish_session s)
  unfolding finish_session bucket
  finish_session-Rebuilt s total buckets = rebuilt s.invocations refl
    where
      rebuilt : (l : List InvocationUsage) → s.invocations ≡ l → Rebuilt (finish_session s)
      rebuilt [] e = rw e (record {
        total = total;
        by_model_day = λ key. rw buckets refl;
        buckets = rw (buckets, total) refl;
      })
      rebuilt (i ∷ l) e =
          rw e (rebuild_claude_invocation_totals-Rebuilt (record s { invocations = i ∷ l }))

  abbrev finished : Option SessionUsage → Option ℤ
  finished none = none
  finished (some s) = some (last_event s)

  finished-Held :
      (id : Bytes) (g : Bytes → Option ℤ) (last : Option ℤ) (o : Option SessionUsage)
      → Held id g last o
      → finished o ≡ last
  finished-Held id g last none h = h.1
  finished-Held id g last (some s) h = h.latest

  -- The session of an entry keeps the entry's key.
  abbrev AtKey : Merging → Type 0
  AtKey m = All (λ p. p.1.session_id ≡ p.0) m

  All-finish_all :
      (P : SessionUsage → Type 0) (m : Merging)
      → All (λ p. P (finish_session p.1)) m
      → All P (finish_all m)
  All-finish_all P [] h = tt
  All-finish_all P ((k, s) ∷ m) (p, ps) = (p, All-finish_all P m ps)

  apart-finish_all :
      (k : Bytes) (s : SessionUsage) (m : Merging)
      → s.session_id ≡ k
      → AtKey m
      → All (λ p. k ≢ p.0) m
      → All (λ t. session_key (finish_session s) ≢ session_key t) (finish_all m)
  apart-finish_all k s [] at ats ps = tt
  apart-finish_all k s ((j, t) ∷ m) at (e, ats) (n, ps) = (
    λ same. n (sym at ∙ sym (finish_session-kept s).0 ∙ same ∙ (finish_session-kept t).0 ∙ e),
    apart-finish_all k s m at ats ps,
  )

  finish_all-Distinct :
      (m : Merging) → AtKey m → Keyed m → Distinct session_key last_event (finish_all m)
  finish_all-Distinct [] ats d = tt
  finish_all-Distinct ((k, s) ∷ m) (at, ats) (apart, d) =
      (apart-finish_all k s m at ats apart, finish_all-Distinct m ats d)

  best-none :
      (id : Bytes) (m : Merging)
      → AtKey m
      → All (λ p. id ≢ p.0) m
      → best session_key last_event id (finish_all m) ≡ none
  best-none id [] ats ps = refl
  best-none id ((k, s) ∷ m) (at, ats) (n, ps) =
      let off : bytes_eq (finish_session s).session_id id ≡ false =
        rw ((finish_session-kept s).0, at) (ground (arith, bytes_eq_iff k id)) in
      rw off (best-none id m ats ps)

  entry-finish_session :
      (k id : Bytes) (s : SessionUsage)
      → s.session_id ≡ k
      → entry session_key last_event id (finish_session s)
        ≡ (if bytes_eq k id then some (last_event s) else none)
  entry-finish_session k id s at =
      let (key, last, kept) = finish_session-kept s in
      ap (λ x. if bytes_eq x id then some (last_event (finish_session s)) else none) (key ∙ at)
      ∙ ap (λ t. if bytes_eq k id then some (pos t) else none) last

  best-finish_all :
      (id : Bytes) (m : Merging)
      → AtKey m
      → Keyed m
      → best session_key last_event id (finish_all m) ≡ finished (get id m)
  unfolding get
  best-finish_all id [] ats d = refl
  best-finish_all id ((k, s) ∷ m) (at, ats) (apart, d) =
      let own = entry-finish_session k id s at in
      let rest = best session_key last_event id (finish_all m) in
      ap (λ o. join o rest) own ∙ elim (Bool-cases (bytes_eq k id)) [
        | inl same ↦
            let e : k ≡ id = (bytes_eq_iff k id).0 same in
            rw same (ap (join (some (last_event s))) (best-none id m ats (rw e at apart)))
        | inr differs ↦ rw differs (best-finish_all id m ats d)
      ]

  module _ (files : List SessionUsage) where
    abbrev merged_map : Merging
    merged_map = merge_files (sort_by file_before files) []

    map-Keyed : Keyed merged_map
    map-Keyed = merge_files-Keyed (sort_by file_before files) [] tt

    -- The order of the files does not matter to what is held.
    map-Held :
        (id : Bytes)
        → Held id
            (λ k. greatest_in k (invocations_of id files))
            (best session_key last_event id files)
            (get id merged_map)
    unfolding get
    map-Held id =
        let sorted = sort_by file_before files in
        Held-cong id _ _ _ _ _
          (λ k.
            join_comm (joined (file_greatest id k) sorted) none
            ∙ joined-sort_by (file_greatest id k) file_before files
            ∙ greatest_in-invocations_of id k files)
          (join_comm (joined (file_last id) sorted) none
            ∙ joined-sort_by (file_last id) file_before files)
          (merge_files-Holds sorted (λ i k. none) (λ i. none) [] (λ i. (λ k apart. refl, refl)) id)

    abbrev At : Bytes → SessionUsage → Type 0
    At id s =
        HeldSession id (λ k. greatest_in k (invocations_of id files))
          (best session_key last_event id files) s

    map-At : All (λ p. At p.0 p.1) merged_map
    map-At = All-get At merged_map map-Keyed (λ id s e. subst (Held id _ _) e (map-Held id))

    At-MergedSession :
        (id : Bytes) (s : SessionUsage) → At id s → MergedSession files (finish_session s)
    At-MergedSession id s h =
        let (key, last, kept) = finish_session-kept s in
        record {
          invocations =
              rw (key, kept, h.at)
                (record { greatest = h.greatest; once = h.once; named = h.named });
          rebuilt = finish_session-Rebuilt s h.total h.buckets;
        }

    All-At :
        {P : Bytes → SessionUsage → Type 0} (f : (id : Bytes) (s : SessionUsage) → At id s → P id s)
        (m : Merging)
        → All (λ p. At p.0 p.1) m
        → All (λ p. P p.0 p.1) m
    All-At f [] h = tt
    All-At f ((id, s) ∷ m) (p, ps) = (f id s p, All-At f m ps)

    map-AtKey : AtKey merged_map
    map-AtKey = All-At (λ id s h. h.at) merged_map map-At

    -- Of the files of each session one session is made: it has each of their invocations that has
    -- an identifier once, with the greatest total that a file gives it, its totals and its buckets
    -- are the sums over these invocations, and it ends with the last event of the files. No session
    -- is lost, and none is there twice.
    pub merge_claude_sessions_by_id-MergedSessions :
        MergedSessions files (merge_claude_sessions_by_id files)
    unfolding merge_claude_sessions_by_id
    merge_claude_sessions_by_id-MergedSessions = record {
      each =
          All-sort_by session_key last_event session_before (MergedSession files)
            (finish_all merged_map)
            (All-finish_all (MergedSession files) merged_map
              (All-At At-MergedSession merged_map map-At));
      once =
          sort_by-Distinct session_key last_event session_before (finish_all merged_map)
            (finish_all-Distinct merged_map map-AtKey map-Keyed);
      latest = λ id.
          best-sort_by session_key last_event session_before id (finish_all merged_map)
          ∙ best-finish_all id merged_map map-AtKey map-Keyed
          ∙ finished-Held id _ _ (get id merged_map) (map-Held id);
    }
