-- ===== src/Queue/Views/Timed.antt =====
-- The time index holds exactly one key for each queued event.
use gesta_agent.Prelude.{
  ℕ, ◌≡◌, sym, ap, ◌∙◌, inl, inr, [], Option, none, some, arith, length, drop, Bool-cases,
  if◌then◌else◌,
}
use gesta_agent.Bytes.{Bytes, bytes_eq, bytes_eq_iff, bytes_eq_refl}
use gesta_agent.Model.{EventEnvelope}
use gesta_agent.Queue.Codec.{queue_time_key}
use gesta_agent.Queue.Codec.Keys.{drop-queue_time_key_eq}

abbrev pub Events : Type 0
Events = Bytes → Option EventEnvelope

abbrev pub Index : Type 0
Index = Bytes → Option Bytes

-- An index or a set of events without one key, or with one more.
abbrev pub without {ℓ} : {V : Type ℓ} → Bytes → (Bytes → Option V) → Bytes → Option V
without k f j = if bytes_eq k j then none else f j

abbrev pub updated {ℓ} : {V : Type ℓ} → Bytes → V → (Bytes → Option V) → Bytes → Option V
updated k v f j = if bytes_eq k j then some v else f j

pub record IsTimed (events : Events) (times : Index) : Type 0 where
  pub sized : (s : Bytes) (e : EventEnvelope) → events s ≡ some e → length s ≡ 8
  pub timed :
      (s : Bytes) (e : EventEnvelope)
      → events s ≡ some e
      → times (queue_time_key e.created_at s) ≡ some []
  pub time_sound :
      (k v : Bytes)
      → times k ≡ some v
      → (s : Bytes) × (e : EventEnvelope) × (events s ≡ some e)
        × (k ≡ queue_time_key e.created_at s)

-- Two time keys are one only for one sequence.
pub queue_time_key_inj :
    (t u : ℕ) (r s : Bytes)
    → length r ≡ 8
    → length s ≡ 8
    → queue_time_key t r ≡ queue_time_key u s
    → r ≡ s
queue_time_key_inj t u r s hr hs e =
    sym (drop-queue_time_key_eq t r hr) ∙ ap (drop 8) e ∙ drop-queue_time_key_eq u s hs

pub without-IsTimed :
    (events : Events) (times : Index) (s : Bytes) (e : EventEnvelope)
    → events s ≡ some e
    → IsTimed events times
    → IsTimed (without s events) (without (queue_time_key e.created_at s) times)
without-IsTimed events times s e h v = record {
  sized = λ j x p. v.sized j x (ground arith);
  timed = λ j x p.
      let p' : events j ≡ some x = ground arith in
      ground (
        arith,
        v.timed j x p',
        bytes_eq_iff (queue_time_key e.created_at s) (queue_time_key x.created_at j),
        bytes_eq_iff s j,
        queue_time_key_inj e.created_at x.created_at s j (v.sized s e h) (v.sized j x p'),
      );
  time_sound = λ k w p.
      let (j, x, q, r) = v.time_sound k w (ground arith) in
      (j, x, ground (arith, bytes_eq_iff s j, bytes_eq_iff (queue_time_key e.created_at s) k), r);
}

pub updated-IsTimed :
    (events : Events) (times : Index) (s : Bytes) (e : EventEnvelope)
    → events s ≡ none
    → length s ≡ 8
    → IsTimed events times
    → IsTimed (updated s e events) (updated (queue_time_key e.created_at s) [] times)
updated-IsTimed events times s e h eight v = record {
  sized = λ j x p. ground (arith, v.sized j x, bytes_eq_iff s j);
  timed = λ j x p. elim (Bool-cases (bytes_eq s j)) [
    | inl same ↦ ground (arith, bytes_eq_iff s j, bytes_eq_refl (queue_time_key e.created_at s))
    | inr other ↦ ground (arith, v.timed j x)
  ];
  time_sound = λ k w p. elim (Bool-cases (bytes_eq (queue_time_key e.created_at s) k)) [
    | inl same ↦ (s, e, ground (arith, bytes_eq_refl s), sym ((bytes_eq_iff _ k).0 same))
    | inr other ↦
        let (j, x, q, r) = v.time_sound k w (rw other at p) in
        (j, x, ground (arith, bytes_eq_iff s j), r)
  ];
}
