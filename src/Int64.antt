-- ===== src/Int64.antt =====
-- The int64 of Go: an integer that wraps around.
pub mod Ring
use gesta_agent.Prelude.{ℕ, ◌+◌, ◌-◌, ◌%◌, ◌≤◌, ◌<◌, ◌≡◌, arith, ltb, if◌then◌else◌}
use gesta_agent.Prelude.Int.{ℤ, pos, negsuc, pos_part, neg_part, ◌+ℤ◌, ◌-ℤ◌}
use gesta_agent.Bytes.Endian.{two64}

abbrev of_bits : ℕ → ℤ
of_bits b = if ltb b 9223372036854775808 then pos b else negsuc (two64 - 1 - b)

-- What is kept of an integer in 64 bits.
unfoldable pub int64 : ℤ → ℤ
int64 z = of_bits ((pos_part z + two64 - neg_part z % two64) % two64)

abbrev pub add64 : ℤ → ℤ → ℤ
add64 a b = int64 (a +ℤ b)

abbrev pub sub64 : ℤ → ℤ → ℤ
sub64 a b = int64 (a -ℤ b)

-- The counts that the agent reads: not below zero, and an int64.
abbrev pub IsCount : ℤ → Type 0
IsCount z = (neg_part z ≡ 0) × (pos_part z < 9223372036854775808)

abbrev pub IsInt64 : ℤ → Type 0
IsInt64 z = (pos_part z < 9223372036854775808) × (neg_part z ≤ 9223372036854775808)

pub int64_lem : (z : ℤ) → IsInt64 z → int64 z ≡ z
unfolding int64
int64_lem (pos n) h = ground arith
int64_lem (negsuc n) h = ground arith

sub_parts :
    (a b : ℤ)
    → neg_part a ≡ 0
    → neg_part b ≡ 0
    → (pos_part (a -ℤ b) ≤ pos_part a) × (neg_part (a -ℤ b) ≤ pos_part b)
unfolding ◌-ℤ◌
sub_parts a b p q = ground arith

-- The difference of two counts does not wrap around.
pub sub64_count : (a b : ℤ) → IsCount a → IsCount b → sub64 a b ≡ a -ℤ b
sub64_count a b p q = int64_lem (a -ℤ b) (omega (arith, sub_parts a b p.0 q.0))
