-- ===== src/Mutate.antt =====
-- src/phera/db/mutate.py and src/phera/modules/tickets/activity.py: the one helper through which
-- writes are recorded. Tracing and metrics are left out.
pub mod Recorded
pub mod Records
pub mod Steps
mod Audited
mod Commits
pub mod Outbox
pub mod Runs
pub mod Taken
mod Examples
use phera.Common.{
  String, Bool, true, false, not, ◌&&◌, ◌||◌, Option, none, some, List, [], ◌∷◌, ◌++◌, ◌==◌,
  if◌then◌else◌, Dict, get, truthy, opt_eq, elem,
}
use phera.Models.{Uuid, Time, FieldChange, AuditEvent, OutboxEvent, Interaction, Ticket}
use phera.Authz.Actor.{Actor}
use phera.Session.{M, pure, ◌>>=◌, ◌>>◌, write, gets, uuid4, now, when, track_outbox_notify}

-- What `mutate` reads of `req.entity`: `getattr(entity, "id")`, `getattr(entity, "workspace_id",
-- None)`, and `isinstance(entity, Ticket)`.
pub record Entity : Type 0 where
  pub id : Uuid
  pub workspace_id : Option Uuid
  pub is_ticket : Bool

pub record MutateRequest : Type 0 where
  pub entity : Entity
  pub entity_type : String
  pub action : String
  pub changes : List FieldChange
  pub actor : Option Actor
  pub pipeline_id : Option Uuid
  pub stage_from_id : Option Uuid
  pub stage_to_id : Option Uuid
  pub after_snapshot : Option (Dict String)
  pub context : Dict String
  pub timeline : Bool
  pub timeline_body : Option String
  pub timeline_type : Option String
  pub outbox_event_type : Option String
  pub outbox_payload : Dict String
  pub idempotency_key : Option String
  pub contact_id : Option Uuid
  pub deal_id : Option Uuid
  pub ticket_id : Option Uuid
  pub workspace_id : Option Uuid

-- A request with the class's defaults.
abbrev pub request : Entity → String → String → List FieldChange → Option Actor → MutateRequest
request entity kind action changes actor = record {
  entity = entity;
  entity_type = kind;
  action = action;
  changes = changes;
  actor = actor;
  pipeline_id = none;
  stage_from_id = none;
  stage_to_id = none;
  after_snapshot = none;
  context = [];
  timeline = false;
  timeline_body = none;
  timeline_type = none;
  outbox_event_type = none;
  outbox_payload = [];
  idempotency_key = none;
  contact_id = none;
  deal_id = none;
  ticket_id = none;
  workspace_id = none;
}

-- `compute_diff` of two rows as texts: the keys of `after` in their order.
abbrev is_bookkeeping : String → Bool
is_bookkeeping key = elem key ("created_at" ∷ "updated_at" ∷ "last_activity_at" ∷ [])

unfoldable pub compute_diff : Dict String → Dict String → List FieldChange
compute_diff before [] = []
compute_diff before ((key, new_val) ∷ after) =
    let changes = compute_diff before after in
    let old_val = get key before in
    if is_bookkeeping key || opt_eq old_val (some new_val)
    then changes
    else record { field = key; from_value = old_val; to_value = some new_val } ∷ changes

abbrev pub is_nil {ℓ} : {A : Type ℓ} → List A → Bool
is_nil [] = true
is_nil (x ∷ xs) = false

abbrev pub is_some {ℓ} : {A : Type ℓ} → Option A → Bool
is_some none = false
is_some (some a) = true

abbrev pub or_option {ℓ} : {A : Type ℓ} → Option A → Option A → Option A
or_option none b = b
or_option (some a) b = some a

abbrev pub text_or : Option String → String → String
text_or none d = d
text_or (some s) d = if s == "" then d else s

abbrev pub actor_type_of : Option Actor → String
actor_type_of none = "system"
actor_type_of (some a) = a.actor_type

abbrev pub actor_id_of : Option Actor → Option String
actor_id_of none = none
actor_id_of (some a) = a.id

-- Rows of one table, rewritten where their id fits.
unfoldable pub update_tickets : Uuid → (Ticket → Ticket) → List Ticket → List Ticket
update_tickets id f [] = []
update_tickets id f (t ∷ ts) = (if t.id == id then f t else t) ∷ update_tickets id f ts

-- `touch_ticket_activity(ticket, at)` with a time given.
abbrev pub touch_ticket_activity : Time → Ticket → Ticket
touch_ticket_activity at ticket = record ticket { last_activity_at = at }

-- `not req.changes and req.action not in (…)` is the early return.
abbrev pub is_recorded : MutateRequest → Bool
is_recorded req = not (is_nil req.changes) || elem req.action ("created" ∷ "form_submitted" ∷ [])

abbrev pub workspace_of : MutateRequest → Option Uuid
workspace_of req = or_option req.workspace_id req.entity.workspace_id

abbrev pub audit_event : MutateRequest → Time → Uuid → AuditEvent
audit_event req at id = record {
  id = id;
  occurred_at = at;
  workspace_id = workspace_of req;
  actor_type = actor_type_of req.actor;
  actor_id = actor_id_of req.actor;
  entity_type = req.entity_type;
  entity_id = req.entity.id;
  action = req.action;
  pipeline_id = req.pipeline_id;
  stage_from_id = req.stage_from_id;
  stage_to_id = req.stage_to_id;
  changes = req.changes;
  after = req.after_snapshot;
  context = req.context;
}

abbrev pub or_blank : Option String → String
or_blank none = ""
or_blank (some s) = s

abbrev pub outbox_event : MutateRequest → Time → Uuid → OutboxEvent
outbox_event req at id = record {
  id = id;
  occurred_at = at;
  workspace_id = workspace_of req;
  event_type = or_blank req.outbox_event_type;
  entity_type = req.entity_type;
  entity_id = req.entity.id;
  idempotency_key = or_blank req.idempotency_key;
  payload = req.outbox_payload;
  status = "pending";
  attempts = 0;
  last_error = none;
}

-- `if req.outbox_event_type and req.idempotency_key`
abbrev pub has_outbox : MutateRequest → Bool
has_outbox req = truthy req.outbox_event_type && truthy req.idempotency_key

pub add_outbox : MutateRequest → Time → M Unit
add_outbox req at = when (has_outbox req) do
  id ← uuid4
  write (λ db. record db { outbox_events = db.outbox_events ++ outbox_event req at id ∷ [] })
  track_outbox_notify id

abbrev pub interaction : MutateRequest → Time → Uuid → Uuid → Interaction
interaction req at contact id = record {
  id = id;
  workspace_id = workspace_of req;
  contact_id = contact;
  deal_id = req.deal_id;
  ticket_id = req.ticket_id;
  type = text_or req.timeline_type req.action;
  direction = none;
  body = req.timeline_body;
  occurred_at = at;
  actor_type = actor_type_of req.actor;
  actor_id = actor_id_of req.actor;
}

-- `if req.timeline and req.contact_id`; a UUID is never falsy.
add_interaction : MutateRequest → Time → M Unit
add_interaction req at =
    if req.timeline
    then elim req.contact_id [
      | none ↦ pure tt
      | some contact ↦ do
        id ← uuid4
        write (λ db. record db {
          interactions = db.interactions ++ interaction req at contact id ∷ [];
        })
    ]
    else pure tt

-- The ticket whose inbox sort key moves.
abbrev pub touched_ticket : MutateRequest → Option Uuid
touched_ticket req =
    if req.entity_type == "ticket" && req.entity.is_ticket
    then some req.entity.id
    else req.ticket_id

-- The database sets `updated_at` of a row that is written.
abbrev pub written : Time → Ticket → Ticket
written time ticket = record ticket { updated_at = time }

touch_entity : MutateRequest → Time → M Unit
touch_entity req at = elim (touched_ticket req) [
  | none ↦ pure tt
  | some id ↦ do
    time ← gets (λ s. s.db_now)
    write (λ db. record db {
      tickets = update_tickets id (λ t. written time (touch_ticket_activity at t)) db.tickets;
    })
]

unfoldable pub mutate : MutateRequest → M (Option AuditEvent)
unfolding add_outbox add_interaction touch_entity
mutate req = if not (is_recorded req) then pure none else do
  at ← now
  id ← uuid4
  write (λ db. record db { audit_events = db.audit_events ++ audit_event req at id ∷ [] })
  add_outbox req at
  add_interaction req at
  touch_entity req at
  pure (some (audit_event req at id))
