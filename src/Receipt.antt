-- ===== src/Receipt.antt =====
-- pkg/turnreceipt/types.go: what the outputs of a turn amount to.
pub mod Sums
use gesta_agent.Prelude.{Bool, ◌&&◌, if◌then◌else◌}
use gesta_agent.Prelude.Int.{ℤ, pos, ltb_ℤ, leb_ℤ}
use gesta_agent.Int64.{add64, sub64}

pub record OutputSummary : Type 0 where
  pub code_lines : ℤ
  pub test_lines : ℤ
  pub doc_words : ℤ
  pub config_lines : ℤ
  pub other_words : ℤ

-- math.MaxInt64
abbrev pub max_int64 : ℤ
max_int64 = pos 9223372036854775807

unfoldable pub saturating_add : ℤ → ℤ → ℤ
saturating_add current delta =
    if leb_ℤ delta (pos 0)
    then current
    else if ltb_ℤ (sub64 max_int64 delta) current
    then max_int64
    else add64 current delta

unfoldable pub is_empty_summary : OutputSummary → Bool
is_empty_summary s =
    leb_ℤ s.code_lines (pos 0)
    && (leb_ℤ s.test_lines (pos 0)
        && (leb_ℤ s.doc_words (pos 0)
            && (leb_ℤ s.config_lines (pos 0) && leb_ℤ s.other_words (pos 0))))

unfoldable pub add_summary : OutputSummary → OutputSummary → OutputSummary
add_summary s other = record {
  code_lines = saturating_add s.code_lines other.code_lines;
  test_lines = saturating_add s.test_lines other.test_lines;
  doc_words = saturating_add s.doc_words other.doc_words;
  config_lines = saturating_add s.config_lines other.config_lines;
  other_words = saturating_add s.other_words other.other_words;
}

unfoldable pub non_negative : ℤ → ℤ
non_negative value = if ltb_ℤ value (pos 0) then pos 0 else value
