-- ===== src/Receipt/Sums.antt =====
-- The sums of turnreceipt/types.go stay within an int64, and their order does not matter.
use gesta_agent.Prelude.{
  ◌+◌, ◌≡◌, ◌<◌, refl, sym, ap, ◌∙◌, inl, inr, true, false, arith, if◌then◌else◌, Bool-cases,
}
use gesta_agent.Prelude.Int.{
  ℤ, pos, negsuc, pos_part, neg_part, ◌+ℤ◌, ◌-ℤ◌, ◌≤ℤ◌, ltb_ℤ, leb_ℤ, max_ℤ, int_laws, eq_of_parts,
}
use gesta_agent.Int64.{IsInt64, int64_lem, add64, sub64}
use gesta_agent.Receipt.{OutputSummary, max_int64, saturating_add, add_summary}

-- At most the greatest int64.
abbrev pub capped : ℤ → ℤ
capped z = if ltb_ℤ max_int64 z then max_int64 else z

infix 50 ◌<ℤ◌
abbrev ◌<ℤ◌ : ℤ → ℤ → Type 0
a <ℤ b = pos_part a + neg_part b < pos_part b + neg_part a

abbrev min_int64 : ℤ
min_int64 = negsuc 9223372036854775807

in_range : (z : ℤ) → min_int64 ≤ℤ z → z ≤ℤ max_int64 → IsInt64 z
in_range (pos n) p q = (omega (arith, q), omega arith)
in_range (negsuc n) p q = (omega arith, omega (arith, p))

of_range : (z : ℤ) → IsInt64 z → (min_int64 ≤ℤ z) × (z ≤ℤ max_int64)
of_range (pos n) h = (omega arith, omega (arith, h.0))
of_range (negsuc n) h = (omega (arith, h.1), omega arith)

lt_of_ltb : (a b : ℤ) → ltb_ℤ a b ≡ true → a <ℤ b
lt_of_ltb a b h = ground (arith, h)

le_of_ltb : (a b : ℤ) → ltb_ℤ a b ≡ false → b ≤ℤ a
le_of_ltb a b h = ground (arith, h)

ltb_of_lt : (a b : ℤ) → a <ℤ b → ltb_ℤ a b ≡ true
ltb_of_lt a b h = ground (arith, h)

ltb_of_le : (a b : ℤ) → b ≤ℤ a → ltb_ℤ a b ≡ false
ltb_of_le a b h = ground (arith, h)

max_zero : (d : ℤ) → leb_ℤ d (pos 0) ≡ true → max_ℤ d (pos 0) ≡ pos 0
max_zero (pos n) h = ground (arith, h)
max_zero (negsuc n) h = ground arith

max_self : (d : ℤ) → leb_ℤ d (pos 0) ≡ false → (max_ℤ d (pos 0) ≡ d) × (pos 0 <ℤ d)
max_self (pos n) h = (ground (arith, h), ground (arith, h))
max_self (negsuc n) h = absurd (ground (arith, h))

add_zero : (z : ℤ) → z +ℤ pos 0 ≡ z
add_zero z = omega int_laws

capped-within : (z : ℤ) → z ≤ℤ max_int64 → capped z ≡ z
capped-within z h = rw (ltb_of_le max_int64 z h) refl

capped-beyond : (z : ℤ) → max_int64 <ℤ z → capped z ≡ max_int64
capped-beyond z h = rw (ltb_of_lt max_int64 z h) refl

add_positive :
    (c d : ℤ)
    → IsInt64 c
    → IsInt64 d
    → pos 0 <ℤ d
    → (if ltb_ℤ (sub64 max_int64 d) c then max_int64 else add64 c d) ≡ capped (c +ℤ d)
add_positive c d hc hd up =
    let (c_above, c_below) = of_range c hc in
    let (d_above, d_below) = of_range d hd in
    let exact : sub64 max_int64 d ≡ max_int64 -ℤ d =
      int64_lem (max_int64 -ℤ d)
        (in_range (max_int64 -ℤ d) (omega (int_laws, d_below)) (omega (int_laws, up))) in
    elim (Bool-cases (ltb_ℤ (max_int64 -ℤ d) c)) [
      | inl beyond ↦
          rw (exact, beyond)
            (sym (capped-beyond (c +ℤ d) (omega (int_laws, lt_of_ltb (max_int64 -ℤ d) c beyond))))
      | inr within ↦
          let below : c +ℤ d ≤ℤ max_int64 = omega (int_laws, le_of_ltb (max_int64 -ℤ d) c within) in
          rw (exact, within)
            (int64_lem (c +ℤ d) (in_range (c +ℤ d) (omega (int_laws, c_above, up)) below)
              ∙ sym (capped-within (c +ℤ d) below))
    ]

-- The sum of an int64 and what of another is above zero, stopped at the greatest int64.
pub saturating_add-capped :
    (c d : ℤ) → IsInt64 c → IsInt64 d → saturating_add c d ≡ capped (c +ℤ max_ℤ d (pos 0))
unfolding saturating_add
saturating_add-capped c d hc hd = elim (Bool-cases (leb_ℤ d (pos 0))) [
  | inl none_above ↦
      rw (none_above, max_zero d none_above, add_zero c) (sym (capped-within c (of_range c hc).1))
  | inr above ↦ let (same, up) = max_self d above in rw (above, same) (add_positive c d hc hd up)
]

capped-atleast : (z : ℤ) → max_int64 ≤ℤ z → capped z ≡ max_int64
capped-atleast z h = elim (Bool-cases (ltb_ℤ max_int64 z)) [
  | inl beyond ↦ rw beyond refl
  | inr within ↦
      rw within (eq_of_parts z max_int64 (omega (arith, h, le_of_ltb max_int64 z within)))
]

capped-add : (z p : ℤ) → pos 0 ≤ℤ p → capped (capped z +ℤ p) ≡ capped (z +ℤ p)
capped-add z p up = elim (Bool-cases (ltb_ℤ max_int64 z)) [
  | inl beyond ↦
      let over = lt_of_ltb max_int64 z beyond in
      rw (capped-beyond z over) (
        capped-atleast (max_int64 +ℤ p) (omega (int_laws, up))
        ∙ sym (capped-atleast (z +ℤ p) (omega (int_laws, up, over))))
  | inr within ↦ rw (capped-within z (le_of_ltb max_int64 z within)) refl
]

above_zero : (d : ℤ) → pos 0 ≤ℤ max_ℤ d (pos 0)
above_zero (pos n) = ground arith
above_zero (negsuc n) = ground arith

capped-IsInt64 : (z : ℤ) → min_int64 ≤ℤ z → IsInt64 (capped z)
capped-IsInt64 z h = elim (Bool-cases (ltb_ℤ max_int64 z)) [
  | inl beyond ↦ rw beyond (omega arith, omega arith)
  | inr within ↦ rw within (in_range z h (le_of_ltb max_int64 z within))
]

pub saturating_add-IsInt64 : (c d : ℤ) → IsInt64 c → IsInt64 d → IsInt64 (saturating_add c d)
saturating_add-IsInt64 c d hc hd =
    rw (saturating_add-capped c d hc hd)
      (capped-IsInt64 (c +ℤ max_ℤ d (pos 0)) (omega (int_laws, (of_range c hc).0, above_zero d)))

swap_parts : (c a b : ℤ) → (c +ℤ a) +ℤ b ≡ (c +ℤ b) +ℤ a
swap_parts c a b = omega int_laws

twice :
    (c a b : ℤ)
    → IsInt64 c
    → IsInt64 a
    → IsInt64 b
    → saturating_add (saturating_add c a) b ≡ capped ((c +ℤ max_ℤ a (pos 0)) +ℤ max_ℤ b (pos 0))
twice c a b hc ha hb =
    saturating_add-capped (saturating_add c a) b (saturating_add-IsInt64 c a hc ha) hb
    ∙ ap (λ z. capped (z +ℤ max_ℤ b (pos 0))) (saturating_add-capped c a hc ha)
    ∙ capped-add (c +ℤ max_ℤ a (pos 0)) (max_ℤ b (pos 0)) (above_zero b)

saturating_add-swap :
    (c a b : ℤ)
    → IsInt64 c
    → IsInt64 a
    → IsInt64 b
    → saturating_add (saturating_add c a) b ≡ saturating_add (saturating_add c b) a
saturating_add-swap c a b hc ha hb =
    twice c a b hc ha hb
    ∙ ap capped (swap_parts c (max_ℤ a (pos 0)) (max_ℤ b (pos 0)))
    ∙ sym (twice c b a hc hb ha)

-- The counters are those of an int64.
pub record IsSummary (s : OutputSummary) : Type 0 where
  pub code : IsInt64 s.code_lines
  pub test : IsInt64 s.test_lines
  pub doc : IsInt64 s.doc_words
  pub config : IsInt64 s.config_lines
  pub others : IsInt64 s.other_words

summary_eq :
    (s t : OutputSummary)
    → s.code_lines ≡ t.code_lines
    → s.test_lines ≡ t.test_lines
    → s.doc_words ≡ t.doc_words
    → s.config_lines ≡ t.config_lines
    → s.other_words ≡ t.other_words
    → s ≡ t
summary_eq s t a b c d e = cc

-- Each counter is the sum, without wrap-around, of the first and of what the second is above zero,
-- stopped at the greatest int64.
pub record Summed (s a r : OutputSummary) : Type 0 where
  pub code : r.code_lines ≡ capped (s.code_lines +ℤ max_ℤ a.code_lines (pos 0))
  pub test : r.test_lines ≡ capped (s.test_lines +ℤ max_ℤ a.test_lines (pos 0))
  pub doc : r.doc_words ≡ capped (s.doc_words +ℤ max_ℤ a.doc_words (pos 0))
  pub config : r.config_lines ≡ capped (s.config_lines +ℤ max_ℤ a.config_lines (pos 0))
  pub others : r.other_words ≡ capped (s.other_words +ℤ max_ℤ a.other_words (pos 0))
  pub in_range : IsSummary r

-- Where all counters are those of an int64, adding an output of a turn adds to each counter what
-- the output's is above zero, and stops at the greatest int64 where the sum is beyond it; the
-- result is within an int64. Two outputs are added in either order with the same result.
pub add_summary-swap :
    (s a b : OutputSummary)
    → IsSummary s
    → IsSummary a
    → IsSummary b
    → (add_summary (add_summary s a) b ≡ add_summary (add_summary s b) a)
      × Summed s a (add_summary s a)
unfolding add_summary
add_summary-swap s a b hs ha hb = (
  summary_eq (add_summary (add_summary s a) b) (add_summary (add_summary s b) a)
      (saturating_add-swap s.code_lines a.code_lines b.code_lines hs.code ha.code hb.code)
      (saturating_add-swap s.test_lines a.test_lines b.test_lines hs.test ha.test hb.test)
      (saturating_add-swap s.doc_words a.doc_words b.doc_words hs.doc ha.doc hb.doc)
      (saturating_add-swap s.config_lines a.config_lines b.config_lines hs.config ha.config
        hb.config)
      (saturating_add-swap s.other_words a.other_words b.other_words hs.others ha.others hb.others),
  record {
    code = saturating_add-capped s.code_lines a.code_lines hs.code ha.code;
    test = saturating_add-capped s.test_lines a.test_lines hs.test ha.test;
    doc = saturating_add-capped s.doc_words a.doc_words hs.doc ha.doc;
    config = saturating_add-capped s.config_lines a.config_lines hs.config ha.config;
    others = saturating_add-capped s.other_words a.other_words hs.others ha.others;
    in_range = record {
      code = saturating_add-IsInt64 s.code_lines a.code_lines hs.code ha.code;
      test = saturating_add-IsInt64 s.test_lines a.test_lines hs.test ha.test;
      doc = saturating_add-IsInt64 s.doc_words a.doc_words hs.doc ha.doc;
      config = saturating_add-IsInt64 s.config_lines a.config_lines hs.config ha.config;
      others = saturating_add-IsInt64 s.other_words a.other_words hs.others ha.others;
    };
  },
)
