-- ===== src/Queue/Codec/Keys.antt =====
-- The encodings are exact: what was written is read back, and the byte order of the keys is the
-- order of the numbers and times in them.
use gesta_agent.Prelude.{
  ℕ, ◌<◌, ◌-◌, ◌+◌, ◌≤◌, sym, false, append-nil, ◌≡◌, ◌∙◌, ap, [], arith, length, length-append,
  drop, take-append, drop-append, ltb, ◌==◌, if◌then◌else◌,
}
use gesta_agent.Bytes.{Bytes, bytes_lt}
use gesta_agent.Bytes.Endian.{
  big_endian, two64, length-big_endian, from_big_endian-big_endian, bytes_lt-big_endian,
}
use gesta_agent.Queue.Codec.{
  ok, unix_nano, time_of_unix_nano, flip_sign, IsRepresentable, encode_uint64, decode_uint64,
  copy_sequence, queue_time_key, decode_queue_time_key, delivered_time_key,
  decode_delivered_time_key,
}

-- A number below 2 ^ 64 is read back from its eight bytes.
pub decode_uint64-encode_uint64 : (n : ℕ) → n < two64 → decode_uint64 (encode_uint64 n) ≡ n
unfolding decode_uint64 encode_uint64
decode_uint64-encode_uint64 n h =
    ground (arith, length-big_endian 8 n, from_big_endian-big_endian 8 n h)

pub encode_uint64_inj :
    (m n : ℕ) → m < two64 → n < two64 → encode_uint64 m ≡ encode_uint64 n → m ≡ n
encode_uint64_inj m n hm hn e =
    cc (decode_uint64-encode_uint64 m hm, decode_uint64-encode_uint64 n hn)

pub length-encode_uint64 : (n : ℕ) → length (encode_uint64 n) ≡ 8
unfolding encode_uint64
length-encode_uint64 n = length-big_endian 8 n

pub copy_sequence_lem : (s : Bytes) → length s ≡ 8 → copy_sequence s ≡ s
unfolding copy_sequence
copy_sequence_lem s h = take-append 8 s _ h

-- The time part of a key is a number below 2 ^ 64 that grows with the time.
flip_sign-lt : (x : ℕ) → flip_sign x < two64
unfolding flip_sign
flip_sign-lt x = omega arith

pub flip_sign-unix_nano :
    (t : ℕ) → IsRepresentable t → flip_sign (unix_nano t) ≡ t - 52912224763145224192
unfolding flip_sign unix_nano
flip_sign-unix_nano t h = omega arith

drop-queue_time_key : (t : ℕ) (s : Bytes) → drop 8 (queue_time_key t s) ≡ copy_sequence s
unfolding queue_time_key
drop-queue_time_key t s = drop-append 8 _ _ (length-big_endian 8 _)

pub drop-queue_time_key_eq : (t : ℕ) (s : Bytes) → length s ≡ 8 → drop 8 (queue_time_key t s) ≡ s
drop-queue_time_key_eq t s h = drop-queue_time_key t s ∙ copy_sequence_lem s h

pub length-queue_time_key : (t : ℕ) (s : Bytes) → length s ≡ 8 → length (queue_time_key t s) ≡ 16
unfolding queue_time_key
length-queue_time_key t s h =
    length-append (big_endian 8 (flip_sign (unix_nano t))) (copy_sequence s)
    ∙ omega
        (arith, length-big_endian 8 (flip_sign (unix_nano t)), ap length (copy_sequence_lem s h), h)

-- The time that a key gives back: the one it was made of, if that is representable.
abbrev pub decoded_time : ℕ → ℕ
decoded_time t = time_of_unix_nano (flip_sign (flip_sign (unix_nano t)))

pub decoded_time_lem : (t : ℕ) → IsRepresentable t → decoded_time t ≡ t
unfolding flip_sign unix_nano time_of_unix_nano
decoded_time_lem t h = ground arith

pub decode_queue_time_key-queue_time_key :
    (t : ℕ) (s : Bytes)
    → length s ≡ 8
    → decode_queue_time_key (queue_time_key t s) ≡ ok (decoded_time t, s)
unfolding decode_queue_time_key queue_time_key
decode_queue_time_key-queue_time_key t s h = rw (
  length-queue_time_key t s h,
  take-append 8 (big_endian 8 (flip_sign (unix_nano t))) (copy_sequence s) (length-big_endian 8 _),
  drop-append 8 (big_endian 8 (flip_sign (unix_nano t))) (copy_sequence s) (length-big_endian 8 _),
  copy_sequence_lem s h,
  from_big_endian-big_endian 8 (flip_sign (unix_nano t)) (flip_sign-lt _),
)

-- A key of the time index is decoded to the time and the sequence that it was made of, for a time
-- whose UnixNano is an int64 and a sequence of eight bytes.
pub queue_time_key_roundtrip :
    (t : ℕ) (s : Bytes)
    → IsRepresentable t
    → length s ≡ 8
    → decode_queue_time_key (queue_time_key t s) ≡ ok (t, s)
queue_time_key_roundtrip t s r h =
    decode_queue_time_key-queue_time_key t s h ∙ ap (λ (u : ℕ). ok (u, s)) (decoded_time_lem t r)

-- For times whose UnixNano is an int64 and sequences of eight bytes, the keys of the time index are
-- ordered by time, and at one time by sequence.
pub bytes_lt-queue_time_key :
    (t u : ℕ) (r s : Bytes)
    → IsRepresentable t
    → IsRepresentable u
    → length r ≡ 8
    → length s ≡ 8
    → bytes_lt (queue_time_key t r) (queue_time_key u s)
      ≡ (if t == u then bytes_lt r s else ltb t u)
unfolding queue_time_key
bytes_lt-queue_time_key t u r s ht hu hr hs =
    rw
      (
        copy_sequence_lem r hr,
        copy_sequence_lem s hs,
        bytes_lt-big_endian 8 (flip_sign (unix_nano t)) (flip_sign (unix_nano u)) r s
            (flip_sign-lt _) (flip_sign-lt _),
      )
      (ground (arith, flip_sign-unix_nano t ht, flip_sign-unix_nano u hu))

-- Encoded sequences are ordered as the numbers below 2 ^ 64 that they encode.
pub bytes_lt-encode_uint64 :
    (m n : ℕ) → m < two64 → n < two64 → bytes_lt (encode_uint64 m) (encode_uint64 n) ≡ ltb m n
unfolding encode_uint64
bytes_lt-encode_uint64 m n hm hn =
    rw
      (
        ← append-nil (big_endian 8 m),
        ← append-nil (big_endian 8 n),
        bytes_lt-big_endian 8 m n [] [] hm hn,
      )
      (unfold bytes_lt in ground arith)

-- A key of the index of deliveries is decoded to its time and its identifier, for a time whose
-- UnixNano is an int64 and an identifier that is not empty.
pub decode_delivered_time_key-delivered_time_key :
    (t : ℕ) (id : Bytes)
    → IsRepresentable t
    → 0 < length id
    → decode_delivered_time_key (delivered_time_key t id) ≡ ok (t, id)
unfolding decode_delivered_time_key delivered_time_key
decode_delivered_time_key-delivered_time_key t id r h =
    rw
      (
        take-append 8 (big_endian 8 (flip_sign (unix_nano t))) id (length-big_endian 8 _),
        drop-append 8 (big_endian 8 (flip_sign (unix_nano t))) id (length-big_endian 8 _),
        from_big_endian-big_endian 8 (flip_sign (unix_nano t)) (flip_sign-lt _),
        decoded_time_lem t r,
      )
      (ground (
        arith,
        length-append (big_endian 8 (flip_sign (unix_nano t))) id,
        length-big_endian 8 (flip_sign (unix_nano t)),
      ))

time_of_unix_nano-flip_sign :
    (x : ℕ) → x < two64 → time_of_unix_nano (flip_sign x) ≡ 52912224763145224192 + x
unfolding time_of_unix_nano flip_sign
time_of_unix_nano-flip_sign x h = ground arith

-- A key that is not below another one has no earlier time, for any times at all.
pub decoded_time_mono :
    (t u : ℕ) (r s : Bytes)
    → bytes_lt (queue_time_key t r) (queue_time_key u s) ≡ false
    → decoded_time u ≤ decoded_time t
unfolding queue_time_key
decoded_time_mono t u r s h =
    let m = flip_sign (unix_nano t) in
    let n = flip_sign (unix_nano u) in
    let order =
      bytes_lt-big_endian 8 m n (copy_sequence r) (copy_sequence s) (flip_sign-lt _)
        (flip_sign-lt _) in
    let decided = sym order ∙ h in
    ground (
      arith,
      decided,
      time_of_unix_nano-flip_sign m (flip_sign-lt _),
      time_of_unix_nano-flip_sign n (flip_sign-lt _),
    )
