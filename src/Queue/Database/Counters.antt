-- ===== src/Queue/Database/Counters.antt =====
-- What a write of the meta bucket does to the counters that are read from it.
use gesta_agent.Prelude.{
  ℕ, ◌+◌, ◌%◌, ◌<◌, ◌≡◌, refl, sym, ◌∙◌, inl, inr, ◌||◌, Option, none, some, arith, leb,
  if◌then◌else◌, Bool-cases,
}
use gesta_agent.Bytes.{Bytes, bytes_eq}
use gesta_agent.Bytes.Endian.{two64}
use gesta_agent.SortedMap.Laws.{lookup-insert}
use gesta_agent.Bolt.{Bolt}
use gesta_agent.Queue.Codec.{
  Error, Result, ok, err, ◌>>=◌, or_fail, underflow, two63, encode_uint64,
}
use gesta_agent.Queue.Codec.Keys.{decode_uint64-encode_uint64}
use gesta_agent.Queue.Database.{
  Db, meta_count_key, meta_bytes_key, meta_next_key, decode_value, put_in, queue_meta,
  next_queue_sequence, write_counters,
}

-- Inversion of a chain that succeeds: a proof goes on under the first result.
pub >>=-elim {ℓ κ ρ} :
    {A : Type ℓ} {B : Type κ} {P : Type ρ} (first : Result A) (rest : A → Result B) {last : B}
    → (first >>= rest) ≡ ok last
    → ((x : A) → first ≡ ok x → rest x ≡ ok last → P)
    → P
>>=-elim (err failure) rest h go = absurd (cc)
>>=-elim (ok x) rest h go = go x refl h

-- The same as a triple.
pub >>=-eq-ok {ℓ κ} :
    {A : Type ℓ} {B : Type κ} (first : Result A) (rest : A → Result B) {last : B}
    → (first >>= rest) ≡ ok last
    → (x : A) × (first ≡ ok x) × (rest x ≡ ok last)
>>=-eq-ok first rest h = >>=-elim first rest h λ x p q. (x, p, q)

pub or_fail-eq-ok {ℓ} :
    {A : Type ℓ} (o : Option A) (e : Error) {a : A} → or_fail o e ≡ ok a → o ≡ some a
or_fail-eq-ok none e h = cc
or_fail-eq-ok (some a) e h = cc

pub ok_inj {ℓ} : {A : Type ℓ} {a b : A} → ok a ≡ ok b → a ≡ b
ok_inj h = cc

module _ ⦃bolt : Bolt⦄ where
  open bolt use {Bucket, entries, get, put, delete, get_lem, entries-put, entries-delete}

  -- A read after a write.
  pub get-put :
      (b b' : Bucket) (k v j : Bytes)
      → put_in b k v ≡ ok b'
      → get b' j ≡ (if bytes_eq k j then some v else get b j)
  get-put b b' k v j h =
      rw (get_lem b' j, entries-put b k v b' (or_fail-eq-ok (put b k v) _ h), get_lem b j)
        (lookup-insert k j v (entries b))

  abbrev pub value_of : Bucket → Bytes → ℕ
  value_of m key = decode_value (get m key)

  value_of-put :
      (m m' : Bucket) (k j : Bytes) (n : ℕ)
      → n < two64
      → put_in m k (encode_uint64 n) ≡ ok m'
      → value_of m' j ≡ (if bytes_eq k j then n else value_of m j)
  unfolding decode_value
  value_of-put m m' k j n fits h = elim (Bool-cases (bytes_eq k j)) [
    | inl e ↦ rw (get-put m m' k _ j h, e) (decode_uint64-encode_uint64 n fits)
    | inr e ↦ rw (get-put m m' k _ j h, e)
  ]

  -- `m` holds these counters, and the sequence counter of `old`.
  pub record Counted (old : Bucket) (count bytes : ℕ) (m : Bucket) : Type 0 where
    pub count_eq : value_of m meta_count_key ≡ count
    pub bytes_eq : value_of m meta_bytes_key ≡ bytes
    pub count_fits : count < two63
    pub bytes_fits : bytes < two63
    pub next_eq : value_of m meta_next_key ≡ value_of old meta_next_key

  puts-Counted :
      (count bytes : ℕ) (old m m' : Bucket)
      → count < two63
      → bytes < two63
      → put_in old meta_count_key (encode_uint64 count) ≡ ok m
      → put_in m meta_bytes_key (encode_uint64 bytes) ≡ ok m'
      → Counted old count bytes m'
  unfolding bytes_eq
  puts-Counted count bytes old m m' hc hb p q =
      let after = λ (j : Bytes). value_of-put m m' meta_bytes_key j bytes (omega arith) q in
      let before = λ (j : Bytes). value_of-put old m meta_count_key j count (omega arith) p in
      record {
        count_eq = after meta_count_key ∙ before meta_count_key;
        bytes_eq = after meta_bytes_key;
        count_fits = hc;
        bytes_fits = hb;
        next_eq = after meta_next_key ∙ before meta_next_key;
      }

  pub write_counters-Counted :
      (count bytes : ℕ) (db db' : Db)
      → write_counters count bytes db ≡ ok db'
      → (m : Bucket) × (record db { meta = m } ≡ db') × Counted db.meta count bytes m
  unfolding write_counters
  write_counters-Counted count bytes db db' h =
      elim (Bool-cases (leb two63 count || leb two63 bytes)) [
        | inl below ↦ let h' : err underflow ≡ ok db' = rw below at h in cc
        | inr fits ↦
            let (m, p, rest) = >>=-eq-ok (put_in db.meta meta_count_key _) _ (rw fits at h) in
            let (m', q, last) = >>=-eq-ok (put_in m meta_bytes_key _) _ rest in
            (
              m',
              ok_inj last,
              puts-Counted count bytes db.meta m m' (ground arith) (ground arith) p q,
            )
      ]

  -- The sequence that an event gets, and the only key that is written.
  pub record Sequenced (db : Db) (m : Bucket) : Type 0 where
    pub next_eq : value_of m meta_next_key ≡ (queue_meta db meta_next_key + 1) % two64
    pub count_eq : value_of m meta_count_key ≡ queue_meta db meta_count_key
    pub bytes_eq : value_of m meta_bytes_key ≡ queue_meta db meta_bytes_key

  pub next_queue_sequence-Sequenced :
      (db : Db) (r : Bytes × Db)
      → next_queue_sequence db ≡ ok r
      → (m : Bucket) × (r
          ≡ (encode_uint64 ((queue_meta db meta_next_key + 1) % two64), record db { meta = m }))
        × Sequenced db m
  unfolding next_queue_sequence bytes_eq queue_meta
  next_queue_sequence-Sequenced db r h =
      let (m, p, last) = >>=-eq-ok (put_in db.meta meta_next_key _) _ h in
      let step = λ (j : Bytes). value_of-put db.meta m meta_next_key j _ (omega arith) p in
      (
        m,
        sym (ok_inj last),
        record {
          next_eq = step meta_next_key;
          count_eq = step meta_count_key;
          bytes_eq = step meta_bytes_key;
        },
      )
