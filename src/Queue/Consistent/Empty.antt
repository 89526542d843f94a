-- ===== src/Queue/Consistent/Empty.antt =====
-- A database that was just made.
use gesta_agent.Prelude.{◌≡◌, ◌≢◌, some, sym, ap, ◌∙◌, none, arith, length, none_ne_some}
use gesta_agent.Bytes.{Bytes}
use gesta_agent.SortedMap.{lookup, total}
use gesta_agent.Model.{EventEnvelope}
use gesta_agent.Bolt.{Bolt, EventJson}
use gesta_agent.Queue.Codec.{decode_uint64}
use gesta_agent.Queue.Database.{
  meta_count_key, meta_bytes_key, meta_next_key, empty_db, queue_meta, decode_value,
}
use gesta_agent.Queue.Consistent.{read_event, event_at, weight, IsConsistent}

module _ ⦃bolt : Bolt⦄ where
  open bolt use {empty, entries, get, get_lem, entries-empty}

  get-empty : (k : Bytes) → get empty k ≡ none
  unfolding lookup
  get-empty k = get_lem empty k ∙ ap (lookup k) entries-empty

  pub queue_meta-empty : (k : Bytes) → queue_meta empty_db k ≡ 0
  unfolding queue_meta empty_db decode_value decode_uint64
  queue_meta-empty k = rw (get-empty k)

  none_held : ⦃json : EventJson⦄ → (s : Bytes) (e : EventEnvelope) → event_at empty_db s ≢ some e
  unfolding empty_db
  none_held s e h = none_ne_some (sym (ap read_event (get-empty s)) ∙ h)

  pub empty_db-IsConsistent : ⦃json : EventJson⦄ → IsConsistent empty_db
  unfolding empty_db
  empty_db-IsConsistent = record {
    counted = queue_meta-empty meta_count_key ∙ ap length (sym entries-empty);
    weighed = queue_meta-empty meta_bytes_key ∙ ap (total weight) (sym entries-empty);
    count_fits = rw entries-empty (omega arith);
    bytes_fit = rw entries-empty (omega arith);
    next_fits = omega (arith, queue_meta-empty meta_next_key);
    fresh = λ s v h. absurd (none_ne_some (sym (get-empty s) ∙ h));
    readable = λ s v h. absurd (none_ne_some (sym (get-empty s) ∙ h));
    is_timed = record {
      sized = λ s e h. absurd (none_held s e h);
      timed = λ s e h. absurd (none_held s e h);
      time_sound = λ k v h. absurd (none_ne_some (sym (get-empty k) ∙ h));
    };
    is_indexed = record {
      by_id = λ s e h named. absurd (none_held s e h);
      by_seq = λ s e h named. absurd (none_held s e h);
      id_sound = λ i s h. absurd (none_ne_some (sym (get-empty i) ∙ h));
      seq_sound = λ s i h. absurd (none_ne_some (sym (get-empty s) ∙ h));
    };
  }
