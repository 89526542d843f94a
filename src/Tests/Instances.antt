-- ===== src/Tests/Instances.antt =====
-- A concrete store and a concrete coding of events: sorted lists for the buckets, and fields with
-- their lengths for JSON. The laws that the queue relies on hold of them.
use gesta_agent.Prelude.{
  ℕ, ◌≡◌, refl, sym, ap, ◌∙◌, ◌≢◌, Bool, true, false, ◌&&◌, List, [], ◌∷◌, ◌++◌, Option, none, some,
  arith, length, take, drop, take-append, drop-append, ltb, leb, none_ne_some, some_inj,
}
use gesta_agent.Bytes.{Bytes}
use gesta_agent.SortedMap.{Entries, lookup, insert, erase, IsSorted}
use gesta_agent.SortedMap.Order.{insert-IsSorted, erase-IsSorted}
use gesta_agent.Model.{EventEnvelope, Value}
use gesta_agent.Bolt.{Bolt, EventJson, IsStorable}

-- A walk that is in order.
pub record Walk : Type 0 where
  pub entries : Entries
  pub sorted : IsSorted entries

abbrev pub is_storable : Bytes → Bytes → Bool
is_storable k v = ltb 0 (length k) && (leb (length k) 32768 && leb (length v) 2147483646)

pub is_storable-true : (k v : Bytes) → is_storable k v ≡ true → IsStorable k v
is_storable-true k v h = ground arith

pub is_storable-false : (k v : Bytes) → is_storable k v ≡ false → ¬ IsStorable k v
is_storable-false k v h s = ground arith

abbrev pub put_walk : Bool → Walk → Bytes → Bytes → Option Walk
put_walk false b k v = none
put_walk true b k v =
    some
      (record { entries = insert k v b.entries; sorted = insert-IsSorted k v b.entries b.sorted })

pub put_walk-entries :
    (t : Bool) (b : Walk) (k v : Bytes) (b' : Walk)
    → put_walk t b k v ≡ some b'
    → (t ≡ true) × (b'.entries ≡ insert k v b.entries)
put_walk-entries false b k v b' h = absurd (none_ne_some h)
put_walk-entries true b k v b' h = (refl, ap (λ (w : Walk). w.entries) (sym (some_inj h)))

pub put_walk-total :
    (t : Bool) (b : Walk) (k v : Bytes) → t ≢ false → (b' : Walk) × (put_walk t b k v ≡ some b')
put_walk-total false b k v h = absurd (h refl)
put_walk-total true b k v h = (_, refl)

instance abbrev pub map_bolt : Bolt
map_bolt = record {
  Bucket = Walk;
  empty = record { entries = []; sorted = tt };
  entries = λ b. b.entries;
  get = λ b k. lookup k b.entries;
  put = λ b k v. put_walk (is_storable k v) b k v;
  delete =
      λ b k. record { entries = erase k b.entries; sorted = erase-IsSorted k b.entries b.sorted };
  entries-empty = refl;
  entries-IsSorted = λ b. b.sorted;
  get_lem = λ b k. refl;
  entries-put = λ b k v b' h. (put_walk-entries (is_storable k v) b k v b' h).1;
  put_storable =
      λ b k v b' h. is_storable-true k v (put_walk-entries (is_storable k v) b k v b' h).0;
  put_total = λ b k v s. put_walk-total (is_storable k v) b k v λ e. is_storable-false k v e s;
  entries-delete = λ b k. refl;
}

abbrev field : Bytes → Bytes → Bytes
field f rest = length f ∷ f ++ rest

abbrev read : Bytes → Bytes × Bytes
read [] = ([], [])
read (n ∷ s) = (take n s, drop n s)

take_field : (f rest : Bytes) → take (length f) (f ++ rest) ≡ f
take_field f rest = take-append (length f) f rest refl

drop_field : (f rest : Bytes) → drop (length f) (f ++ rest) ≡ rest
drop_field f rest = drop-append (length f) f rest refl

-- The text of an event without payload.
unfoldable pub text : EventEnvelope → Bytes
text e = field e.event_id (
    field e.customer_id (
      field e.deployment_id (
        field e.daemon_id (
          field e.device_id (
            field e.user_id (
              field e.user_name (
                field e.team_id (
                  field e.event_type
                    (field e.source (field e.agent_type (e.created_at ∷ [])))))))))))

abbrev head : Bytes → ℕ
head [] = 0
head (n ∷ s) = n

unfoldable pub unmarshal_event : Bytes → EventEnvelope
unmarshal_event s =
    let r0 = read s in
    let r1 = read r0.1 in
    let r2 = read r1.1 in
    let r3 = read r2.1 in
    let r4 = read r3.1 in
    let r5 = read r4.1 in
    let r6 = read r5.1 in
    let r7 = read r6.1 in
    let r8 = read r7.1 in
    let r9 = read r8.1 in
    let r10 = read r9.1 in
    record {
      event_id = r0.0;
      customer_id = r1.0;
      deployment_id = r2.0;
      daemon_id = r3.0;
      device_id = r4.0;
      user_id = r5.0;
      user_name = r6.0;
      team_id = r7.0;
      event_type = r8.0;
      source = r9.0;
      agent_type = r10.0;
      created_at = head r10.1;
      payload = [];
    }

unmarshal_event-text : (e : EventEnvelope) → unmarshal_event (text e) ≡ record e { payload = [] }
unfolding unmarshal_event text
unmarshal_event-text e = simp (take_field, drop_field) refl

abbrev marshal_payload : List (Bytes × Value) → Bytes → Option Bytes
marshal_payload [] s = some s
marshal_payload (p ∷ ps) s = none

marshal_payload-nil :
    (l : List (Bytes × Value)) (s s' : Bytes) → marshal_payload l s ≡ some s' → (l ≡ []) × (s ≡ s')
marshal_payload-nil [] s s' h = (refl, some_inj h)
marshal_payload-nil (p ∷ ps) s s' h = absurd (none_ne_some h)

unfoldable pub marshal_event : EventEnvelope → Option Bytes
marshal_event e = marshal_payload e.payload (text e)

pub unmarshal_event-marshal_event :
    (e : EventEnvelope) (s : Bytes)
    → marshal_event e ≡ some s
    → some (unmarshal_event s) ≡ some (record e { payload = [] })
unfolding marshal_event
unmarshal_event-marshal_event e s h =
    let (empty, same) = marshal_payload-nil e.payload (text e) s h in
    ap some (ap unmarshal_event (sym same) ∙ unmarshal_event-text e)

instance abbrev pub fields_json : EventJson
fields_json = record {
  marshal = marshal_event;
  unmarshal = λ s. some (unmarshal_event s);
  marshal_quarantined = λ now reason e. marshal_event e;
  read_payload = λ payload. [];
  unmarshal-marshal = unmarshal_event-marshal_event;
}
