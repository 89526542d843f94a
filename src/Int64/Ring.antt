-- ===== src/Int64/Ring.antt =====
-- The sum of an int64 with wrap-around is commutative and associative.
use gesta_agent.Prelude.{ℕ, ◌+◌, ◌-◌, ◌%◌, ◌<◌, ◌≡◌, ap, ◌∙◌, arith}
use gesta_agent.Prelude.Int.{ℤ, pos, pos_part, neg_part, sub_ℕ, ◌+ℤ◌}
use gesta_agent.Int64.{of_bits, int64, add64}
use gesta_agent.Bytes.Endian.{two64}

-- A difference modulo 2 ^ 64.
abbrev residue : ℕ → ℕ → ℕ
residue p n = (p + two64 - n % two64) % two64

abbrev bits : ℤ → ℕ
bits z = residue (pos_part z) (neg_part z)

bits-of_bits : (b : ℕ) → b < two64 → bits (of_bits b) ≡ b
bits-of_bits b h = ground arith

bits-sub_ℕ : (p n : ℕ) → bits (sub_ℕ p n) ≡ residue p n
bits-sub_ℕ p n = ground arith

bits-add : (a b : ℤ) → bits (a +ℤ b) ≡ (bits a + bits b) % two64
unfolding ◌+ℤ◌
bits-add a b =
    bits-sub_ℕ (pos_part a + pos_part b) (neg_part a + neg_part b)
    ∙ parts (pos_part a) (neg_part a) (pos_part b) (neg_part b)
  where
    parts : (p n q m : ℕ) → residue (p + q) (n + m) ≡ (residue p n + residue q m) % two64
    parts p n q m = omega arith

bits-int64 : (z : ℤ) → bits (int64 z) ≡ bits z
unfolding int64
bits-int64 z = bits-of_bits (bits z) (omega arith)

int64_of_bits : (a b : ℤ) → bits a ≡ bits b → int64 a ≡ int64 b
unfolding int64
int64_of_bits a b h = ap of_bits h

pub add64_comm : (a b : ℤ) → add64 a b ≡ add64 b a
add64_comm a b = int64_of_bits (a +ℤ b) (b +ℤ a) (omega (arith, bits-add a b, bits-add b a))

pub add64_assoc : (a b c : ℤ) → add64 (add64 a b) c ≡ add64 a (add64 b c)
add64_assoc a b c = int64_of_bits (add64 a b +ℤ c) (a +ℤ add64 b c) (
    omega (
      arith,
      bits-add (add64 a b) c,
      bits-add a (add64 b c),
      bits-int64 (a +ℤ b),
      bits-int64 (b +ℤ c),
      bits-add a b,
      bits-add b c,
    ))

-- A sum has no part beyond 64 bits that a further sum would drop.
pub add64_zero : (a b : ℤ) → add64 (add64 a b) (pos 0) ≡ add64 a b
add64_zero a b =
    int64_of_bits (add64 a b +ℤ pos 0) (a +ℤ b)
      (omega (arith, bits-add (add64 a b) (pos 0), bits-int64 (a +ℤ b)))
