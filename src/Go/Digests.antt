-- ===== src/Go/Digests.antt =====
-- The digests of pkg/util/id.go have no spaces and are not empty.
use gesta_agent.Prelude.{
  ℕ, zero, suc, ◌*◌, ◌/◌, ◌%◌, ◌≡◌, ◌≢◌, ◌≤◌, refl, ap, true, false, [], ◌∷◌, ◌++◌, arith, All,
  length, take, length-take, ltb,
}
use gesta_agent.Bytes.{Bytes}
use gesta_agent.Strings.{is_space, trim_left, trim_space}
use gesta_agent.Go.{Go, digit, hex_encode, hash_string, short_hash}
use mathlib.Core.List.{reverse, reverse-cons, reverse-reverse}

-- A text that a trim leaves alone.
pub record IsPlain (s : Bytes) : Type 0 where
  pub trimmed : trim_space s ≡ s
  pub named : s ≢ []

abbrev NoSpace : Bytes → Type 0
NoSpace s = All (λ c. is_space c ≡ false) s

digit-solid : (n : ℕ) → is_space (digit n) ≡ false
unfolding is_space
digit-solid n = ground arith

hex_encode-NoSpace : (s : Bytes) → NoSpace (hex_encode s)
unfolding hex_encode
hex_encode-NoSpace [] = tt
hex_encode-NoSpace (c ∷ s) = (digit-solid (c / 16), (digit-solid (c % 16), hex_encode-NoSpace s))

length-hex_encode : (s : Bytes) → length (hex_encode s) ≡ 2 * length s
unfolding hex_encode
length-hex_encode [] = refl
length-hex_encode (c ∷ s) = omega (arith, length-hex_encode s)

take-NoSpace : (n : ℕ) (s : Bytes) → NoSpace s → NoSpace (take n s)
take-NoSpace zero s h = tt
take-NoSpace (suc n) [] h = tt
take-NoSpace (suc n) (c ∷ s) (p, h) = (p, take-NoSpace n s h)

trim_left-NoSpace : (s : Bytes) → NoSpace s → trim_left s ≡ s
unfolding trim_left
trim_left-NoSpace [] h = refl
trim_left-NoSpace (c ∷ s) (p, h) = rw (trim_left, p) refl

append-NoSpace : (s t : Bytes) → NoSpace s → NoSpace t → NoSpace (s ++ t)
append-NoSpace [] t h k = k
append-NoSpace (c ∷ s) t (p, h) k = (p, append-NoSpace s t h k)

reverse-NoSpace : (s : Bytes) → NoSpace s → NoSpace (reverse s)
reverse-NoSpace [] h = tt
reverse-NoSpace (c ∷ s) (p, h) =
    rw (reverse-cons c s) (append-NoSpace (reverse s) (c ∷ []) (reverse-NoSpace s h) (p, tt))

trim_space-NoSpace : (s : Bytes) → NoSpace s → trim_space s ≡ s
unfolding trim_space
trim_space-NoSpace s h =
    rw (trim_left-NoSpace s h, trim_left-NoSpace (reverse s) (reverse-NoSpace s h))
      (reverse-reverse s)

long_named : (n : ℕ) (s : Bytes) → length s ≡ suc n → s ≢ []
long_named n s h e = absurd (omega (arith, ap length e))

length-take_within : (n : ℕ) (s : Bytes) → n ≤ length s → length (take n s) ≡ n
length-take_within n s h = omega (arith, length-take n s)

module _ ⦃go : Go⦄ where
  hash_string-NoSpace : (s : Bytes) → NoSpace (hash_string s)
  unfolding hash_string
  hash_string-NoSpace s = hex_encode-NoSpace (go.sha256 s)

  length-hash_string : (s : Bytes) → length (hash_string s) ≡ 64
  unfolding hash_string
  length-hash_string s = omega (arith, length-hex_encode (go.sha256 s), go.sha256-length s)

  pub hash_string-IsPlain : (s : Bytes) → IsPlain (hash_string s)
  hash_string-IsPlain s = record {
    trimmed = trim_space-NoSpace (hash_string s) (hash_string-NoSpace s);
    named = long_named 63 (hash_string s) (length-hash_string s);
  }

  short_hash-take : (s : Bytes) → short_hash s ≡ take 16 (hash_string s)
  unfolding short_hash
  short_hash-take s = rw (long (length (hash_string s)) (length-hash_string s)) refl
    where
      long : (n : ℕ) → n ≡ 64 → ltb 16 n ≡ true
      long n h = ground arith

  pub short_hash-IsPlain : (s : Bytes) → IsPlain (short_hash s)
  short_hash-IsPlain s =
      let h = hash_string s in
      rw (short_hash-take s) (record {
        trimmed = trim_space-NoSpace (take 16 h) (take-NoSpace 16 h (hash_string-NoSpace s));
        named =
            long_named 15 (take 16 h)
              (length-take_within 16 h (omega (arith, length-hash_string s)));
      })
