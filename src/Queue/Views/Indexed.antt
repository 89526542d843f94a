-- ===== src/Queue/Views/Indexed.antt =====
-- The identifier indexes are inverse to one another, and name exactly the queued events that have
-- an identifier.
use gesta_agent.Prelude.{
  ◌≡◌, refl, ap, inl, inr, true, false, Option, none, some, some_inj, arith, Bool-cases,
}
use gesta_agent.Bytes.{Bytes, bytes_eq, bytes_eq_iff, bytes_eq_refl}
use gesta_agent.Model.{EventEnvelope}
use gesta_agent.Queue.Codec.{is_empty}
use gesta_agent.Queue.Views.Timed.{Events, Index, without, updated}

pub record IsIndexed (events : Events) (ids seqs : Index) : Type 0 where
  pub by_id :
      (s : Bytes) (e : EventEnvelope)
      → events s ≡ some e
      → is_empty e.event_id ≡ false
      → ids e.event_id ≡ some s
  pub by_seq :
      (s : Bytes) (e : EventEnvelope)
      → events s ≡ some e
      → is_empty e.event_id ≡ false
      → seqs s ≡ some e.event_id
  pub id_sound :
      (i s : Bytes)
      → ids i ≡ some s
      → (e : EventEnvelope) × (events s ≡ some e) × (e.event_id ≡ i) × (is_empty i ≡ false)
  pub seq_sound :
      (s i : Bytes)
      → seqs s ≡ some i
      → (e : EventEnvelope) × (events s ≡ some e) × (e.event_id ≡ i) × (is_empty i ≡ false)

module _ (events : Events) (ids seqs : Index) (s : Bytes) (e : EventEnvelope)
    (held : events s ≡ some e) (v : IsIndexed events ids seqs) where
  -- An event with no identifier is in neither index.
  pub seqs_anonymous : is_empty e.event_id ≡ true → seqs s ≡ none
  seqs_anonymous anonymous = go (seqs s) refl
    where
      go : (o : Option Bytes) → seqs s ≡ o → o ≡ none
      go none p = refl
      go (some i) p = let (x, q, r, named) = v.seq_sound s i p in ground arith

  pub without-IsIndexed_anonymous :
      is_empty e.event_id ≡ true → IsIndexed (without s events) ids seqs
  without-IsIndexed_anonymous anonymous = record {
    by_id = λ j x p. v.by_id j x (ground arith);
    by_seq = λ j x p. v.by_seq j x (ground arith);
    id_sound = λ i j p.
        let (x, q, r, named) = v.id_sound i j p in (x, ground (arith, bytes_eq_iff s j), r, named);
    seq_sound = λ j i p.
        let (x, q, r, named) = v.seq_sound j i p in (x, ground (arith, bytes_eq_iff s j), r, named);
  }

  pub without-IsIndexed :
      is_empty e.event_id ≡ false
      → IsIndexed (without s events) (without e.event_id ids) (without s seqs)
  without-IsIndexed named = record {
    by_id = λ j x p n.
        let p' : events j ≡ some x = ground arith in
        ground (
          arith,
          v.by_id j x p' n,
          v.by_id s e held named,
          bytes_eq_iff s j,
          bytes_eq_iff e.event_id x.event_id,
        );
    by_seq = λ j x p n. ground (arith, v.by_seq j x);
    id_sound = λ i j p.
        let (x, q, r, n) = v.id_sound i j (ground arith) in
        (x, ground (arith, bytes_eq_iff s j, bytes_eq_iff e.event_id i), r, n);
    seq_sound =
        λ j i p. let (x, q, r, n) = v.seq_sound j i (ground arith) in (x, ground arith, r, n);
  }

module _ (events : Events) (ids seqs : Index) (s : Bytes) (e : EventEnvelope)
    (free : events s ≡ none) (v : IsIndexed events ids seqs) where
  pub updated-IsIndexed_anonymous :
      is_empty e.event_id ≡ true → IsIndexed (updated s e events) ids seqs
  updated-IsIndexed_anonymous anonymous = record {
    by_id = λ j x p n. ground (arith, v.by_id j x);
    by_seq = λ j x p n. ground (arith, v.by_seq j x);
    id_sound =
        λ i j p. let (x, q, r, n) = v.id_sound i j p in (x, ground (arith, bytes_eq_iff s j), r, n);
    seq_sound = λ j i p.
        let (x, q, r, n) = v.seq_sound j i p in (x, ground (arith, bytes_eq_iff s j), r, n);
  }

  pub updated-IsIndexed :
      is_empty e.event_id ≡ false
      → ids e.event_id ≡ none
      → IsIndexed (updated s e events) (updated e.event_id s ids) (updated s e.event_id seqs)
  updated-IsIndexed named new = record {
    by_id = λ j x p n. elim (Bool-cases (bytes_eq s j)) [
      | inl same ↦
          let x' : e ≡ x = ground arith in
          rw (← x', bytes_eq_refl e.event_id) (ap some ((bytes_eq_iff s j).0 same))
      | inr other ↦ ground (arith, v.by_id j x, bytes_eq_iff e.event_id x.event_id)
    ];
    by_seq = λ j x p n. elim (Bool-cases (bytes_eq s j)) [
      | inl same ↦ let x' : e ≡ x = ground arith in rw (← x', same)
      | inr other ↦ ground (arith, v.by_seq j x)
    ];
    id_sound = λ i j p. elim (Bool-cases (bytes_eq e.event_id i)) [
      | inl same ↦
          let q : e.event_id ≡ i = (bytes_eq_iff e.event_id i).0 same in
          let j' : s ≡ j = some_inj (rw same at p) in
          (e, rw (← j', bytes_eq_refl s), q, rw q at named)
      | inr other ↦
          let (x, q, r, n) = v.id_sound i j (rw other at p) in
          (x, ground (arith, bytes_eq_iff s j), r, n)
    ];
    seq_sound = λ j i p. elim (Bool-cases (bytes_eq s j)) [
      | inl same ↦
          let q : e.event_id ≡ i = some_inj (rw same at p) in (e, rw same, q, rw q at named)
      | inr other ↦ let (x, q, r, n) = v.seq_sound j i (rw other at p) in (x, rw other q, r, n)
    ];
  }
