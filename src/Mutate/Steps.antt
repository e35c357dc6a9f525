-- ===== src/Mutate/Steps.antt =====
-- The steps of a session on the transactional outbox, and what they leave true.
use phera.Common.{String, elem, ◌≡◌, ◌⊎◌, true, List, [], ◌∷◌, ◌++◌, map, In}
use phera.Models.{Db, Uuid, OutboxEvent, AuditEvent}
use phera.Session.{Session, has_unique_keys, commit, commit_and_notify, rollback}
use phera.Mutate.{MutateRequest, mutate}

-- The types of the outbox rows that the program inserts by itself, without an audit event:
-- `start_call`, `_enqueue_call_ended`, `create_broadcast`, and the service event of a contact without
-- a deal.
abbrev pub direct_types : List String
direct_types =
    "call.started" ∷ "call.ended" ∷ "broadcast.requested" ∷ "service_event.completed" ∷ []

abbrev pub IsDirect : OutboxEvent → Type 0
IsDirect e = elem e.event_type direct_types ≡ true

-- The columns of an outbox row that nothing changes once it is written.
pub record IsSameEvent (e e' : OutboxEvent) : Type 0 where
  pub id : e'.id ≡ e.id
  pub event : e'.event_type ≡ e.event_type
  pub entity : e'.entity_id ≡ e.entity_id
  pub kind : e'.entity_type ≡ e.entity_type
  pub time : e'.occurred_at ≡ e.occurred_at

-- What a step leaves that only reads, draws an id, a time or a random number, or publishes.
pub record IsAside (s t : Session) : Type 0 where
  pub db : t.db ≡ s.db
  pub durable : t.durable ≡ s.durable
  pub queue : t.outbox_notify_ids ≡ s.outbox_notify_ids
  pub told : t.notified ≡ s.notified

-- What a session can do: record a mutation, insert an outbox row of a direct type, see those that other
-- sessions inserted, move outbox rows through their states as the worker does, change rows of any
-- table but the audit log and the outbox, do something aside, commit with or without telling the
-- broker, or end without a commit.
pub data Step (s : Session) : Session → Type 0 where
  mutates : (req : MutateRequest) → Step s (mutate req s).1
  announces :
      (e : OutboxEvent)
      → IsDirect e
      → Step s (record s {
        db = record s.db { outbox_events = s.db.outbox_events ++ e ∷ [] };
        outbox_notify_ids = s.outbox_notify_ids ++ e.id ∷ [];
      })
  sees :
      (rows : List OutboxEvent)
      → ((e : OutboxEvent) → In e rows → IsDirect e)
      → Step s (record s { db = record s.db { outbox_events = s.db.outbox_events ++ rows } })
  settles :
      (g : OutboxEvent → OutboxEvent)
      → ((e : OutboxEvent) → IsSameEvent e (g e))
      → Step s (record s { db = record s.db { outbox_events = map g s.db.outbox_events } })
  edits :
      (f : Db → Db)
      → (f s.db).audit_events ≡ s.db.audit_events
      → (f s.db).outbox_events ≡ s.db.outbox_events
      → Step s (record s { db = f s.db })
  aside : (t : Session) → IsAside s t → Step s t
  saves : Step s (commit s).1
  commits : Step s (commit_and_notify s).1
  abandons : Step s (rollback s).1

pub data Reach (s : Session) : Session → Type 0 where
  start : Reach s s
  next : {t u : Session} → Reach s t → Step t u → Reach s u

abbrev pub ids : List OutboxEvent → List Uuid
ids = map (λ e. e.id)

-- Some audit event records the write that the outbox event announces.
pub record IsAudited (db : Db) (e : OutboxEvent) : Type 0 where
  pub audit : AuditEvent
  pub logged : In audit db.audit_events
  pub entity : audit.entity_id ≡ e.entity_id
  pub kind : audit.entity_type ≡ e.entity_type
  pub time : audit.occurred_at ≡ e.occurred_at

abbrev pub AllAudited : Db → Type 0
AllAudited db = (e : OutboxEvent) → In e db.outbox_events → IsDirect e ⊎ IsAudited db e

pub record IsTransactional (s : Session) : Type 0 where
  pub queued : (id : Uuid) → In id s.outbox_notify_ids → In id (ids s.db.outbox_events)
  pub notified_durable : (id : Uuid) → In id s.notified → In id (ids s.durable.outbox_events)
  pub outbox_grows :
      (id : Uuid) → In id (ids s.durable.outbox_events) → In id (ids s.db.outbox_events)
  pub rest : List AuditEvent
  pub audit_grows : s.db.audit_events ≡ s.durable.audit_events ++ rest
  pub audited : AllAudited s.db
  pub audited_durable : AllAudited s.durable
  pub unique : has_unique_keys s.durable.outbox_events ≡ true
