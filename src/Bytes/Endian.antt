-- ===== src/Bytes/Endian.antt =====
-- binary.BigEndian.PutUint64 and Uint64 (encoding/binary), over a list of bytes of any width.
use native.Mathlib.Nat.{pow-suc}
use gesta_agent.Prelude.{
  ℕ, zero, suc, ◌+◌, ◌*◌, ◌/◌, ◌%◌, ◌^◌, ◌<◌, ◌≡◌, refl, ◌∙◌, [], ◌∷◌, ◌++◌, append_assoc, arith,
  length, length-append, ltb, ◌==◌, if◌then◌else◌,
}
use gesta_agent.Bytes.{Bytes, bytes_lt}

abbrev pub two64 : ℕ
two64 = 18446744073709551616

-- The `w` low bytes of `n`, the most significant first.
unfoldable pub big_endian : ℕ → ℕ → Bytes
big_endian zero n = []
big_endian (suc w) n = big_endian w (n / 256) ++ n % 256 ∷ []

unfoldable pub from_big_endian : ℕ → Bytes → ℕ
from_big_endian acc [] = acc
from_big_endian acc (b ∷ bs) = from_big_endian (acc * 256 + b) bs

pub length-big_endian : (w n : ℕ) → length (big_endian w n) ≡ w
unfolding big_endian
length-big_endian zero n = refl
length-big_endian (suc w) n =
    omega
      (arith, length-append (big_endian w (n / 256)) (n % 256 ∷ []), length-big_endian w (n / 256))

from_big_endian-append :
    (acc : ℕ) (xs : Bytes) (b : ℕ)
    → from_big_endian acc (xs ++ b ∷ []) ≡ from_big_endian acc xs * 256 + b
unfolding from_big_endian
from_big_endian-append acc [] b = refl
from_big_endian-append acc (x ∷ xs) b = from_big_endian-append (acc * 256 + x) xs b

pub from_big_endian-big_endian : (w n : ℕ) → n < 256 ^ w → from_big_endian 0 (big_endian w n) ≡ n
unfolding big_endian from_big_endian
from_big_endian-big_endian zero n h = omega arith
from_big_endian-big_endian (suc w) n h =
    let fits : n < 256 ^ w * 256 = rw (← pow-suc 256 w) h in
    from_big_endian-append 0 (big_endian w (n / 256)) (n % 256)
    ∙ omega (arith, from_big_endian-big_endian w (n / 256) (omega arith))

-- Keys that start with a number of one width are ordered by the number, and then by what follows.
pub bytes_lt-big_endian :
    (w m n : ℕ) (s t : Bytes)
    → m < 256 ^ w
    → n < 256 ^ w
    → bytes_lt (big_endian w m ++ s) (big_endian w n ++ t)
      ≡ (if m == n then bytes_lt s t else ltb m n)
unfolding big_endian
bytes_lt-big_endian zero m n s t hm hn = ground arith
bytes_lt-big_endian (suc w) m n s t hm hn =
    let fits_m : m < 256 ^ w * 256 = rw (← pow-suc 256 w) hm in
    let fits_n : n < 256 ^ w * 256 = rw (← pow-suc 256 w) hn in
    rw
      (
        append_assoc (big_endian w (m / 256)) (m % 256 ∷ []) s,
        append_assoc (big_endian w (n / 256)) (n % 256 ∷ []) t,
        bytes_lt-big_endian w (m / 256) (n / 256) (m % 256 ∷ s) (n % 256 ∷ t) (omega arith)
            (omega arith),
      )
      (unfold bytes_lt in ground arith)
