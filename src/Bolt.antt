-- ===== src/Bolt.antt =====
-- What the event queue takes from outside the repository, as parameters with the documented
-- behaviour that the code relies on: the bbolt store (go.etcd.io/bbolt) and the JSON coding of an
-- event (encoding/json).
use gesta_agent.Prelude.{ℕ, ◌≤◌, ◌<◌, ◌≡◌, List, Option, some, [], length}
use gesta_agent.Bytes.{Bytes}
use gesta_agent.SortedMap.{Entries, lookup, insert, erase, IsSorted}
use gesta_agent.Model.{EventEnvelope, Value}

-- bbolt refuses an empty key, a key above MaxKeySize and a value above MaxValueSize.
abbrev pub IsStorable : Bytes → Bytes → Type 0
IsStorable k v = (0 < length k) × (length k ≤ 32768) × (length v ≤ 2147483646)

-- A bucket of a writable transaction. `entries` is the walk of a cursor from First by Next.
pub record Bolt : Type 1 where
  pub Bucket : Type 0
  pub empty : Bucket
  pub entries : Bucket → Entries
  pub get : Bucket → Bytes → Option Bytes
  pub put : Bucket → Bytes → Bytes → Option Bucket
  pub delete : Bucket → Bytes → Bucket
  pub entries-empty : entries empty ≡ []
  -- "Keys are stored in byte-sorted order within a bucket", each once.
  pub entries-IsSorted : (b : Bucket) → IsSorted (entries b)
  pub get_lem : (b : Bucket) (k : Bytes) → get b k ≡ lookup k (entries b)
  pub entries-put :
      (b : Bucket) (k v : Bytes) (b' : Bucket)
      → put b k v ≡ some b'
      → entries b' ≡ insert k v (entries b)
  pub put_storable : (b : Bucket) (k v : Bytes) (b' : Bucket) → put b k v ≡ some b' → IsStorable k v
  pub put_total :
      (b : Bucket) (k v : Bytes) → IsStorable k v → (b' : Bucket) × (put b k v ≡ some b')
  pub entries-delete : (b : Bucket) (k : Bytes) → entries (delete b k) ≡ erase k (entries b)

-- json.Marshal and json.Unmarshal at model.EventEnvelope, whose texts are valid UTF-8. The texts and
-- the time are read back as they were written. The payload is a Go map: `read_payload` says what
-- Unmarshal makes of the JSON of one, which has its keys sorted and its numbers as float64.
pub record EventJson : Type 0 where
  pub marshal : EventEnvelope → Option Bytes
  pub unmarshal : Bytes → Option EventEnvelope
  -- json.Marshal of a quarantinedEventRecord: its time, its reason and its event.
  pub marshal_quarantined : ℕ → Bytes → EventEnvelope → Option Bytes
  pub read_payload : List (Bytes × Value) → List (Bytes × Value)
  pub unmarshal-marshal :
      (e : EventEnvelope) (s : Bytes)
      → marshal e ≡ some s
      → unmarshal s ≡ some (record e { payload = read_payload e.payload })

-- The event that is read from the record of another.
abbrev pub read_back : EventJson → EventEnvelope → EventEnvelope
read_back json e = record e { payload = json.read_payload e.payload }
