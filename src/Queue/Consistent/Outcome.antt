-- ===== src/Queue/Consistent/Outcome.antt =====
-- The three outcomes of an insertion: queue_store.go, insertQueuedEvent.
use gesta_agent.Prelude.{
  ◌+◌, ◌<◌, ◌≡◌, refl, sym, subst, ◌∙◌, ◌⊎◌, inl, inr, true, false, Bool, none, some, arith,
  Bool-cases, Option-cases, is_some,
}
use gesta_agent.Bytes.{Bytes, bytes_eq, bytes_eq_iff}
use gesta_agent.Bytes.Endian.{two64}
use gesta_agent.Model.{EventEnvelope}
use gesta_agent.Bolt.{Bolt, EventJson}
use gesta_agent.Queue.Codec.{ok, ◌>>=◌, is_empty, is_compactable_snapshot}
use gesta_agent.Queue.Database.{Db, meta_next_key, queue_meta}
use gesta_agent.Queue.Database.Counters.{>>=-elim, ok_inj}
use gesta_agent.Queue.Store.{insert_new, insert_queued_event, replace_queued, delete_queued_event}
use gesta_agent.Queue.Views.{without}
use gesta_agent.Queue.Consistent.{IsConsistent, Keeps, Removed, Added, event_at}
use gesta_agent.Queue.Consistent.Delete.{delete_queued_event-Removed}
use gesta_agent.Queue.Consistent.Insert.{insert_new-Added}

module _ ⦃bolt : Bolt⦄ ⦃json : EventJson⦄ where
  open bolt use {get}

  pub event_at-Removed :
      (s : Bytes) (db db' : Db)
      → Removed s db db'
      → (j : Bytes) → event_at db' j ≡ without s (event_at db) j
  event_at-Removed s db db' d j = elim (Bool-cases (bytes_eq s j)) [
    | inl same ↦ rw (d.events_eq j, same)
    | inr other ↦ rw (d.events_eq j, other)
  ]

  -- With the event that an identifier names, the identifier goes.
  freed :
      (id s : Bytes) (db db' : Db)
      → IsConsistent db
      → Removed s db db'
      → get db.event_ids id ≡ some s
      → get db'.event_ids id ≡ none
  freed id s db db' c d queued = elim (Option-cases (get db'.event_ids id)) [
    | inl missing ↦ missing
    | inr (j, named) ↦
        let (x, held, same, some_id) = d.consistent.is_indexed.id_sound id j named in
        let held' : without s (event_at db) j ≡ some x =
          sym (event_at-Removed s db db' d j) ∙ held in
        let before : event_at db j ≡ some x = ground arith in
        let again = c.is_indexed.by_id j x before (rw same some_id) in
        absurd (ground (arith, again, queued, same, bytes_eq_iff s j))
  ]

  -- The identifier is already queued, delivered or moved aside.
  abbrev pub IsKnown : Db → Bytes → Type 0
  IsKnown db id =
      (is_some (get db.quarantine id) ≡ true)
      ⊎ (is_some (get db.delivered_ids id) ≡ true)
      ⊎ (is_some (get db.event_ids id) ≡ true)

  -- The identifier was delivered or moved aside, or it is queued and the event may not replace.
  abbrev pub IsRefused : Db → EventEnvelope → Type 0
  IsRefused db e =
      (is_some (get db.quarantine e.event_id) ≡ true)
      ⊎ (is_some (get db.delivered_ids e.event_id) ≡ true)
      ⊎ ((is_some (get db.event_ids e.event_id) ≡ true) × (is_compactable_snapshot e ≡ false))

-- What becomes of an event that is inserted: it is added, it takes the place of the event that is
-- queued under its identifier, or it is dropped. The conditions of the three exclude each other.
pub data Inserted ⦃bolt : Bolt⦄ ⦃json : EventJson⦄ (e : EventEnvelope) (db : Db) (r : Bool × Db)
    : Type 0 where
  added :
      (is_empty e.event_id ≡ false → ¬ IsKnown db e.event_id)
      → r.0 ≡ false
      → Added e db r.1
      → Inserted e db r
  replaced :
      (s : Bytes) (db₁ : Db)
      → is_compactable_snapshot e ≡ true
      → is_some (bolt.get db.quarantine e.event_id) ≡ false
      → is_some (bolt.get db.delivered_ids e.event_id) ≡ false
      → bolt.get db.event_ids e.event_id ≡ some s
      → Removed s db db₁
      → Added e db₁ r.1
      → r.0 ≡ true
      → Inserted e db r
  dropped : is_empty e.event_id ≡ false → IsRefused db e → r ≡ (true, db) → Inserted e db r

module _ ⦃bolt : Bolt⦄ ⦃json : EventJson⦄ where
  open bolt use {get}

  module _ (e : EventEnvelope) (db : Db) (r : Bool × Db) (c : IsConsistent db)
      (room : queue_meta db meta_next_key + 1 < two64) where
    -- After the old snapshot is gone its identifier is free.
    replace_queued-Inserted :
        (s : Bytes)
        → is_empty e.event_id ≡ false
        → is_some (get db.quarantine e.event_id) ≡ false
        → is_some (get db.delivered_ids e.event_id) ≡ false
        → get db.event_ids e.event_id ≡ some s
        → replace_queued e s db ≡ ok r
        → Inserted e db r
    unfolding replace_queued
    replace_queued-Inserted s named here pending queued h =
        elim (Bool-cases (is_compactable_snapshot e)) [
          | inl snapshot ↦
              >>=-elim (delete_queued_event s true db) _ (rw (snapshot, replace_queued) at h)
                λ db₁ deleted h₁.
                  let d = delete_queued_event-Removed s db db₁ c deleted in
                  >>=-elim (insert_new e db₁) _ h₁ λ db₂ inserted last.
                    let a =
                      insert_new-Added db₁ d.consistent (omega (arith, d.next_eq)) e db₂
                        (λ named. freed e.event_id s db db₁ c d queued) inserted in
                    subst (Inserted e db) (ok_inj last)
                      (replaced s db₁ snapshot here pending queued d a refl)
          | inr other ↦
              dropped named (inr (inr (rw queued, other)))
                (sym (ok_inj (rw (other, replace_queued) at h)))
        ]

    insert_new-Inserted :
        (is_empty e.event_id ≡ false → ¬ IsKnown db e.event_id)
        → (is_empty e.event_id ≡ false → get db.event_ids e.event_id ≡ none)
        → (insert_new e db >>= λ db₁. ok (false, db₁)) ≡ ok r
        → Inserted e db r
    insert_new-Inserted unknown free h = >>=-elim (insert_new e db) _ h λ db₁ inserted last.
        subst (Inserted e db) (ok_inj last)
          (added unknown refl (insert_new-Added db c room e db₁ free inserted))

    -- On a consistent database with a sequence left, an insertion that succeeds has one of three
    -- outcomes, each under its own condition. Where its identifier is empty, or neither queued nor
    -- delivered nor quarantined, the event is added under the next sequence as encoding/json reads
    -- it back, and is no duplicate. Where its identifier is queued, neither delivered nor
    -- quarantined, and the event is a snapshot of a compactable type, the queued event is removed
    -- and the new one added. Otherwise, where the identifier is delivered, quarantined, or queued
    -- and the event is no such snapshot, the database is as before. In the last two cases it counts
    -- as a duplicate. Where an event is added, nothing else changes.
    pub insert_queued_event-Inserted : insert_queued_event e db ≡ ok r → Inserted e db r
    unfolding insert_queued_event
    insert_queued_event-Inserted h = elim (Bool-cases (is_empty e.event_id)) [
      | inl anonymous ↦
          insert_new-Inserted (λ named. absurd (cc)) (λ named. absurd (cc))
            (rw (anonymous, insert_queued_event) at h)
      | inr named ↦ elim (Bool-cases (is_some (get db.quarantine e.event_id))) [
        | inl aside ↦
            dropped named (inl aside) (sym (ok_inj (rw (named, aside, insert_queued_event) at h)))
        | inr here ↦ elim (Bool-cases (is_some (get db.delivered_ids e.event_id))) [
          | inl gone ↦
              dropped named (inr (inl gone))
                (sym (ok_inj (rw (named, here, gone, insert_queued_event) at h)))
          | inr pending ↦ elim (Option-cases (get db.event_ids e.event_id)) [
            | inl free ↦
                insert_new-Inserted (λ _ known. ground arith) (λ _. free)
                  (rw (named, here, pending, free, insert_queued_event) at h)
            | inr (s, queued) ↦
                replace_queued-Inserted s named here pending queued
                  (rw (named, here, pending, queued, insert_queued_event) at h)
          ]
        ]
      ]
    ]

    pub insert_queued_event-Keeps : insert_queued_event e db ≡ ok r → Keeps 1 db r.1
    insert_queued_event-Keeps h = go (insert_queued_event-Inserted h)
      where
        go : Inserted e db r → Keeps 1 db r.1
        go (added unknown flag a) = (a.consistent, omega (arith, a.next_eq))
        go (replaced s db₁ snapshot here pending queued d a flag) =
            (a.consistent, omega (arith, a.next_eq, d.next_eq))
        go (dropped named known same) = rw same (c, omega arith)
