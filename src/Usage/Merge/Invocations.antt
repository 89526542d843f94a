-- ===== src/Usage/Merge/Invocations.antt =====
-- What the merges of invocations and of turns keep (claude_transcript_merge.go).
use gesta_agent.Prelude.{
  ◌≡◌, ◌≢◌, refl, sym, ap, ◌∙◌, inl, inr, Bool, true, false, not, ◌&&◌, ◌||◌, List, [], ◌∷◌, ◌++◌,
  none, arith, All, if◌then◌else◌, Bool-cases,
}
use gesta_agent.Prelude.Int.{ℤ, ltb_ℤ, max_ℤ}
use gesta_agent.Bytes.{Bytes, codes, bytes_eq, bytes_eq_iff}
use gesta_agent.Sorting.{sort_by}
use gesta_agent.Usage.Claude.{InvocationUsage, TurnUsage, total_tokens}
use gesta_agent.Usage.Merge.{
  add_found, add_all, invocation_key, better_invocation, add_invocation, invocation_before,
  merge_claude_invocations, turn_key, better_turn, add_turn, turn_before, merge_claude_turns,
}
use gesta_agent.Usage.Merge.Kept.{
  join, join_assoc, join_comm, join_swap, entry, best, Distinct, best-append, best-sort_by,
  sort_by-Distinct, All-sort_by, best-add_found, add_found-Distinct, All-add_found,
}

-- Out of `found`: for each key that is not blank the greatest size, once, and nothing else.
pub record Merged {ℓ} {A : Type ℓ} (key : A → Bytes) (size : A → ℤ) (found merged : List A)
    : Type 0 where
  pub greatest : (k : Bytes) → k ≢ [] → best key size k merged ≡ best key size k found
  pub once : Distinct key size merged
  pub named : All (λ a. key a ≢ []) merged

module _ {ℓ} {A : Type ℓ} (key : A → Bytes) (size : A → ℤ) (better before : A → A → Bool)
    (honest : (f e : A) → size (if better f e then f else e) ≡ max_ℤ (size f) (size e)) where
  abbrev add : A → List A → List A
  add f l = if bytes_eq (key f) [] then l else add_found key better f l

  entry-blank :
      (k : Bytes) (f : A) → k ≢ [] → bytes_eq (key f) [] ≡ true → entry key size k f ≡ none
  entry-blank k f apart blank = ground (arith, bytes_eq_iff (key f) [], bytes_eq_iff (key f) k)

  best-add :
      (k : Bytes) (f : A) (l : List A)
      → k ≢ []
      → best key size k (add f l) ≡ join (entry key size k f) (best key size k l)
  best-add k f l apart = elim (Bool-cases (bytes_eq (key f) [])) [
    | inl blank ↦ rw (entry-blank k f apart blank, blank) refl
    | inr named ↦ rw named (best-add_found key size better honest k f l)
  ]

  best-add_all :
      (k : Bytes) (l m : List A)
      → k ≢ []
      → best key size k (add_all add l m) ≡ join (best key size k l) (best key size k m)
  unfolding add_all
  best-add_all k [] m apart = refl
  best-add_all k (f ∷ l) m apart =
      best-add_all k l (add f m) apart
      ∙ ap (join (best key size k l)) (best-add k f m apart)
      ∙ join_swap (best key size k l) (entry key size k f) (best key size k m)
      ∙ sym (join_assoc (entry key size k f) (best key size k l) (best key size k m))

  abbrev Kept : List A → Type 0
  Kept l = Distinct key size l × All (λ a. key a ≢ []) l

  add-Kept : (f : A) (l : List A) → Kept l → Kept (add f l)
  add-Kept f l (d, n) = elim (Bool-cases (bytes_eq (key f) [])) [
    | inl blank ↦ rw blank (d, n)
    | inr named ↦ rw named (
      add_found-Distinct key size better honest f l d,
      All-add_found key size better honest (λ k. k ≢ []) f l
          (λ e. ground (arith, bytes_eq_iff (key f) [])) n,
    )
  ]

  add_all-Kept : (l m : List A) → Kept m → Kept (add_all add l m)
  unfolding add_all
  add_all-Kept [] m h = h
  add_all-Kept (f ∷ l) m h = add_all-Kept l (add f m) (add-Kept f m h)

  -- The list of a merge.
  sort_by-Merged :
      (existing next : List A)
      → Merged key size
          (existing ++ next)
          (sort_by before (add_all add next (add_all add existing [])))
  sort_by-Merged existing next =
      let (once, named) =
        add_all-Kept next (add_all add existing []) (add_all-Kept existing [] (tt, tt)) in
      let sorted = add_all add next (add_all add existing []) in
      record {
        greatest = λ k apart.
            best-sort_by key size before k sorted
            ∙ best-add_all k next (add_all add existing []) apart
            ∙ ap (join (best key size k next)) (best-add_all k existing [] apart)
            ∙ ap (join (best key size k next)) (join_comm (best key size k existing) none)
            ∙ join_comm (best key size k next) (best key size k existing)
            ∙ sym (best-append key size k existing next);
        once = sort_by-Distinct key size before sorted once;
        named = All-sort_by key size before (λ a. key a ≢ []) sorted named;
      }

size_if {ℓ} :
    {A : Type ℓ} (size : A → ℤ) (c : Bool) (f e : A)
    → size (if c then f else e) ≡ (if c then size f else size e)
size_if size true f e = refl
size_if size false f e = refl

greater : (a b : ℤ) → (if ltb_ℤ b a then a else b) ≡ max_ℤ a b
greater a b = ground arith

abbrev pub invocation_size : InvocationUsage → ℤ
invocation_size i = total_tokens i.usage

abbrev pub turn_size : TurnUsage → ℤ
turn_size t = total_tokens t.usage

better_invocation-honest :
    (f e : InvocationUsage)
    → invocation_size (if better_invocation f e then f else e)
      ≡ max_ℤ (invocation_size f) (invocation_size e)
unfolding better_invocation
better_invocation-honest f e =
    size_if invocation_size (better_invocation f e) f e
    ∙ greater (invocation_size f) (invocation_size e)

-- Merging two lists of invocations keeps, for each identifier that is not blank, one invocation
-- with the greatest total of all those with the identifier, and nothing else.
pub merge_claude_invocations-Merged :
    (existing next : List InvocationUsage)
    → Merged invocation_key invocation_size
        (existing ++ next)
        (merge_claude_invocations existing next)
unfolding merge_claude_invocations add_invocation
merge_claude_invocations-Merged existing next =
    sort_by-Merged invocation_key invocation_size better_invocation invocation_before
      better_invocation-honest existing next

greater_or_same :
    (a b : ℤ) (c : Bool)
    → (if ltb_ℤ b a || ((not (ltb_ℤ a b) && not (ltb_ℤ b a)) && c) then a else b) ≡ max_ℤ a b
greater_or_same a b c = ground arith

better_turn-honest :
    (f e : TurnUsage)
    → turn_size (if better_turn f e then f else e) ≡ max_ℤ (turn_size f) (turn_size e)
unfolding better_turn
better_turn-honest f e =
    size_if turn_size (better_turn f e) f e
    ∙ greater_or_same (turn_size f) (turn_size e) (bytes_eq f.status (codes "completed"))

-- Merging two lists of turns keeps, for each identifier that is not blank, one turn with the
-- greatest total of all those with the identifier, and nothing else.
pub merge_claude_turns-Merged :
    (existing next : List TurnUsage)
    → Merged turn_key turn_size (existing ++ next) (merge_claude_turns existing next)
unfolding merge_claude_turns add_turn
merge_claude_turns-Merged existing next =
    sort_by-Merged turn_key turn_size better_turn turn_before better_turn-honest existing next
