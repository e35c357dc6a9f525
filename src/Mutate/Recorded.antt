-- ===== src/Mutate/Recorded.antt =====
-- What one call of `mutate` writes, on all its branches.
use phera.Common.{
  suc, ◌≡◌, refl, ◌&&◌, none, some, List, [], ◌∷◌, ◌++◌, map, arith, if◌then◌else◌, first,
  append-nil,
}
use phera.Models.{Uuid, Time, OutboxEvent, AuditEvent, Interaction, Ticket, Db}
use phera.Session.{Session, ok, ◌>>=◌, track_outbox_notify}
use phera.Session.Atomic.{IsQuiet, quiet, if-IsQuiet, option-IsQuiet, pure-IsQuiet}
use phera.Session.Keeps.{
  Keeps, keeps, pure-Keeps, gets-Keeps, uuid4-Keeps, now-Keeps, write-Keeps, bind-Keeps, if-Keeps,
  option-Keeps,
}
use phera.Mutate.{
  MutateRequest, mutate, add_outbox, add_interaction, touch_entity, touched_ticket, is_recorded,
  audit_event, outbox_event, has_outbox, interaction,
}

add_outbox-IsQuiet : (req : MutateRequest) (at : Time) → IsQuiet (add_outbox req at)
unfolding add_outbox
add_outbox-IsQuiet req at = search quiet

add_interaction-IsQuiet : (req : MutateRequest) (at : Time) → IsQuiet (add_interaction req at)
unfolding add_interaction
add_interaction-IsQuiet req at =
    if-IsQuiet req.timeline _ _
      (option-IsQuiet req.contact_id _ _ (pure-IsQuiet tt) (λ contact. search quiet))
      (pure-IsQuiet tt)

touch_entity-IsQuiet : (req : MutateRequest) (at : Time) → IsQuiet (touch_entity req at)
unfolding touch_entity
touch_entity-IsQuiet req at =
    option-IsQuiet (touched_ticket req) _ _ (pure-IsQuiet tt) (λ id. search quiet)

pub mutate-IsQuiet : (req : MutateRequest) → IsQuiet (mutate req)
unfolding mutate
mutate-IsQuiet req =
    search (quiet, add_outbox-IsQuiet, add_interaction-IsQuiet, touch_entity-IsQuiet) depth 12

-- A part of the rows that no call of `mutate` writes.
record IsApart {X : Type 0} (part : Db → X) : Type 0 where
  audit : (db : Db) (rows : List AuditEvent) → part (record db { audit_events = rows }) ≡ part db
  outbox : (db : Db) (rows : List OutboxEvent) → part (record db { outbox_events = rows }) ≡ part db
  timeline :
      (db : Db) (rows : List Interaction) → part (record db { interactions = rows }) ≡ part db
  tickets : (db : Db) (rows : List Ticket) → part (record db { tickets = rows }) ≡ part db

module _ {X : Type 0} (part : Db → X) (apart : IsApart part) (req : MutateRequest) where
  add_outbox-Keeps : (at : Time) → Keeps part (add_outbox req at)
  unfolding add_outbox
  add_outbox-Keeps at =
      if-Keeps part _ _ _
        (bind-Keeps part _ _ (uuid4-Keeps part) λ id.
          bind-Keeps part _ _ (write-Keeps part _ (λ db. apart.outbox db _)) λ _. search keeps)
        (pure-Keeps part tt)

  add_interaction-Keeps : (at : Time) → Keeps part (add_interaction req at)
  unfolding add_interaction
  add_interaction-Keeps at =
      if-Keeps part req.timeline _ _
        (option-Keeps part req.contact_id _ _ (pure-Keeps part tt) λ contact.
          bind-Keeps part _ _ (uuid4-Keeps part)
            λ id. write-Keeps part _ (λ db. apart.timeline db _))
        (pure-Keeps part tt)

  touch_entity-Keeps : (at : Time) → Keeps part (touch_entity req at)
  unfolding touch_entity
  touch_entity-Keeps at = option-Keeps part (touched_ticket req) _ _ (pure-Keeps part tt) λ id.
      bind-Keeps part _ _ (gets-Keeps part _) λ time. write-Keeps part _ (λ db. apart.tickets db _)

  mutate-Keeps : Keeps part (mutate req)
  unfolding mutate
  mutate-Keeps = if-Keeps part _ _ _ (pure-Keeps part none) (
      bind-Keeps part _ _ (now-Keeps part) λ at. bind-Keeps part _ _ (uuid4-Keeps part) λ id.
        bind-Keeps part _ _ (write-Keeps part _ (λ db. apart.audit db _))
          λ _. search (keeps, add_outbox-Keeps, add_interaction-Keeps, touch_entity-Keeps) depth 8)

module _ (req : MutateRequest) (s : Session) where
  -- The rows that a call adds: the audit event, the outbox event and the timeline entry.
  abbrev pub new_audit : List AuditEvent
  new_audit =
      if is_recorded req then audit_event req (s.clock s.ticks) (s.uuids s.drawn) ∷ [] else []

  abbrev pub new_outbox : List OutboxEvent
  new_outbox =
      if is_recorded req && has_outbox req
      then outbox_event req (s.clock s.ticks) (s.uuids (suc s.drawn)) ∷ []
      else []

  abbrev pub timeline_id : Uuid
  timeline_id = if has_outbox req then s.uuids (suc (suc s.drawn)) else s.uuids (suc s.drawn)

  abbrev pub new_interaction : List Interaction
  new_interaction = elim req.contact_id [
    | none ↦ []
    | some contact ↦
        if is_recorded req && req.timeline
        then interaction req (s.clock s.ticks) contact timeline_id ∷ []
        else []
  ]

  pub mutate-audit_events : (mutate req s).1.db.audit_events ≡ s.db.audit_events ++ new_audit
  unfolding mutate track_outbox_notify ◌>>=◌
  mutate-audit_events = ground (arith, append-nil s.db.audit_events)

  pub mutate-outbox_events : (mutate req s).1.db.outbox_events ≡ s.db.outbox_events ++ new_outbox
  unfolding mutate track_outbox_notify ◌>>=◌
  mutate-outbox_events = ground (arith, append-nil s.db.outbox_events)

  pub mutate-outbox_notify_ids :
      (mutate req s).1.outbox_notify_ids ≡ s.outbox_notify_ids ++ map (λ e. e.id) new_outbox
  unfolding mutate track_outbox_notify ◌>>=◌
  mutate-outbox_notify_ids = ground (arith, append-nil s.outbox_notify_ids)

  pub mutate-interactions : (mutate req s).1.db.interactions ≡ s.db.interactions ++ new_interaction
  unfolding mutate track_outbox_notify ◌>>=◌
  mutate-interactions = ground (arith, append-nil s.db.interactions)

  -- The audit event, if there is one.
  pub mutate-returned : (mutate req s).0 ≡ ok (first new_audit)
  unfolding mutate track_outbox_notify ◌>>=◌
  mutate-returned = ground arith

  pub mutate-durable :
      ((mutate req s).1.durable ≡ s.durable) × ((mutate req s).1.notified ≡ s.notified)
  mutate-durable = let unseen = mutate-IsQuiet req s in (unseen.durable, unseen.notified)

  pub mutate-deals :
      ((mutate req s).1.db.deals ≡ s.db.deals) × ((mutate req s).1.db.stages ≡ s.db.stages)
  mutate-deals = (
    mutate-Keeps (λ db. db.deals)
        (record {
          audit = λ db rows. refl;
          outbox = λ db rows. refl;
          timeline = λ db rows. refl;
          tickets = λ db rows. refl;
        })
        req s,
    mutate-Keeps (λ db. db.stages)
        (record {
          audit = λ db rows. refl;
          outbox = λ db rows. refl;
          timeline = λ db rows. refl;
          tickets = λ db rows. refl;
        })
        req s,
  )
