-- ===== src/Api/Tickets.antt =====
-- `create_ticket`, `update_ticket`, `assign_ticket`, `get_ticket` and `list_tickets` of
-- src/phera/api/routes/tickets.py.
pub mod Stamps
pub mod Again
pub mod Outcome
pub mod Own
pub mod Board
pub mod Cards
use Prim.Native.String
use phera.Common.{
  ◌/◌, String, Bool, true, false, not, Option, none, some, List, [], ◌∷◌, ◌++◌, ◌==◌, if◌then◌else◌,
  opt_eq, elem, where_, Dict, decimal,
}
use phera.Models.{Uuid, Time, Ticket, FieldChange}
use phera.Session.{
  M, pure, raise, gets, uuid4, now, ◌>>=◌, ◌>>◌, commit_and_notify, publish_inbox_event, http,
}
use phera.Authz.Actor.{Actor}
use phera.Mutate.{mutate, request, MutateRequest, Entity, is_nil}
use phera.Tickets.ShortId.{insert_ticket_with_short_id}
use phera.Tickets.Joining.{find_ticket, save_ticket, who_text}
use phera.Api.Enrichment.{TicketDetail, ticket_detail}

pub record TicketCreate : Type 0 where
  pub contact_id : Uuid
  pub subject : Option String
  pub priority : String

pub record TicketUpdate : Type 0 where
  pub status : Option String
  pub priority : Option String
  pub subject : Option String

-- `if not ticket or ticket.workspace_id != workspace.id`
unfoldable pub own : Uuid → Option Ticket → M Ticket
own workspace none = raise (http 404 "Ticket not found")
own workspace (some t) =
    if t.workspace_id == workspace then pure t else raise (http 404 "Ticket not found")

unfoldable pub own_ticket : Uuid → Uuid → M Ticket
own_ticket workspace id = do found ← gets (λ s. find_ticket id s.db.tickets); own workspace found

-- `session.refresh(ticket)`: the row as the database has it.
abbrev pub stored : Ticket → List Ticket → Ticket
stored ticket rows = elim (find_ticket ticket.id rows) [ none ↦ ticket | some t ↦ t ]

unfoldable pub refresh : Ticket → M Ticket
refresh ticket = gets (λ s. stored ticket s.db.tickets)

abbrev pub ticket_entity : Ticket → Entity
ticket_entity t = record { id = t.id; workspace_id = some t.workspace_id; is_ticket = true }

abbrev pub with_two : String → String → String → String
with_two event id last = String.◌++◌ event (String.◌++◌ ":" (String.◌++◌ id (String.◌++◌ ":" last)))

abbrev pub with_one : String → String → String
with_one event id = String.◌++◌ event (String.◌++◌ ":" id)

-- The fields that each request about a ticket has in common.
abbrev pub about_ticket :
    Actor → Ticket → String → List FieldChange → String → String → Dict String → MutateRequest
about_ticket actor t action changes event key payload =
    record (request (ticket_entity t) "ticket" action changes (some actor)) {
      outbox_event_type = some event;
      idempotency_key = some key;
      outbox_payload = payload;
      contact_id = some t.contact_id;
      ticket_id = some t.id;
    }

abbrev pub ids_of : Ticket → Dict String
ids_of t = ("ticket_id", t.id) ∷ ("contact_id", t.contact_id) ∷ []

-- The columns that the handler leaves out have the defaults of the table.
abbrev pub new_ticket : Uuid → Uuid → Time → Time → TicketCreate → Ticket
new_ticket id workspace at time body = record {
  id = id;
  workspace_id = workspace;
  contact_id = body.contact_id;
  channel_account_id = none;
  assignee_user_id = none;
  routing_tier = 1;
  short_id = none;
  subject = body.subject;
  status = "open";
  priority = body.priority;
  last_activity_at = at;
  created_at = time;
  updated_at = time;
  status_entered_at = some at;
  first_assigned_at = none;
  first_response_at = none;
  resolved_at = none;
  closed_at = none;
}

abbrev pub created_request : Actor → Ticket → MutateRequest
created_request actor t =
    about_ticket actor t "created"
      (record { field = "status"; from_value = none; to_value = some t.status } ∷ [])
      "ticket.created" (with_one "ticket.created" t.id) (ids_of t)

abbrev created_event : Uuid → Ticket → Dict String
created_event workspace t =
    ("type", "ticket.created")
    ∷ ("workspace_id", workspace)
    ∷ ("ticket_id", t.id)
    ∷ ("created_ticket", "true")
    ∷ ("assignee_user_id", who_text t.assignee_user_id)
    ∷ ("contact_id", t.contact_id)
    ∷ []

unfoldable pub create_ticket : Uuid → Actor → TicketCreate → M Ticket
create_ticket workspace actor body = do
  at ← now
  id ← uuid4
  time ← gets (λ s. s.db_now)
  ticket ← insert_ticket_with_short_id (new_ticket id workspace at time body)
  mutate (created_request actor ticket)
  commit_and_notify
  publish_inbox_event (created_event workspace ticket)
  refresh ticket

-- `body.x is not None and body.x != ticket.x`
abbrev pub differs : Option String → Option String → Bool
differs none held = false
differs (some v) held = not (opt_eq (some v) held)

abbrev pub time_or : Option Time → Time → Time
time_or none at = at
time_or (some t) at = t

-- `if body.status in ("resolved", "closed")` and `if body.status == "closed"`
unfoldable pub with_status : Time → String → Ticket → Ticket
with_status at status t =
    let entered = record t { status = status; status_entered_at = some at } in
    let done =
      if elem status ("resolved" ∷ "closed" ∷ [])
      then record entered { resolved_at = some (time_or t.resolved_at at) }
      else entered in
    if status == "closed" then record done { closed_at = some at } else done

abbrev value_or : Option String → String
value_or none = ""
value_or (some v) = v

abbrev change : String → Option String → Option String → List FieldChange
change field held given =
    if differs given held
    then record { field = field; from_value = held; to_value = given } ∷ []
    else []

unfoldable pub set_status : TicketUpdate → Time → Ticket → Ticket
set_status body at t =
    if differs body.status (some t.status) then with_status at (value_or body.status) t else t

unfoldable pub set_priority : TicketUpdate → Ticket → Ticket
set_priority body t =
    if differs body.priority (some t.priority)
    then record t { priority = value_or body.priority }
    else t

unfoldable pub set_subject : TicketUpdate → Ticket → Ticket
set_subject body t =
    if differs body.subject t.subject then record t { subject = body.subject } else t

unfoldable pub updated : TicketUpdate → Time → Ticket → Ticket
updated body at t = set_subject body (set_priority body (set_status body at t))

unfoldable pub changes_of : TicketUpdate → Ticket → List FieldChange
changes_of body t =
    change "status" (some t.status) body.status
    ++ (change "priority" (some t.priority) body.priority
        ++ change "subject" t.subject body.subject)

-- `int(now.timestamp())`
abbrev pub seconds : Time → String
seconds at = decimal (at / 1_000_000)

abbrev pub updated_request : Actor → Ticket → List FieldChange → Time → MutateRequest
updated_request actor t changes at =
    about_ticket actor t "updated" changes "ticket.updated"
      (with_two "ticket.updated" t.id (seconds at)) (ids_of t)

unfoldable pub apply_update : Actor → TicketUpdate → Time → Ticket → M Unit
apply_update actor body at t =
    if is_nil (changes_of body t)
    then pure tt
    else save_ticket (updated body at t)
      >> (mutate (updated_request actor (updated body at t) (changes_of body t) at) >> pure tt)

unfoldable pub update_ticket : Uuid → Actor → Uuid → TicketUpdate → M TicketDetail
update_ticket workspace actor id body = do
  t ← own_ticket workspace id
  at ← now
  apply_update actor body at t
  commit_and_notify
  t ← refresh (updated body at t)
  ticket_detail t

abbrev pub assigned : String → Time → Ticket → Ticket
assigned user at t = record t {
  assignee_user_id = some user;
  first_assigned_at = some (time_or t.first_assigned_at at);
}

abbrev pub assigned_request : Actor → Ticket → Option String → String → MutateRequest
assigned_request actor t old user =
    about_ticket actor t "assigned"
      (record { field = "assignee_user_id"; from_value = old; to_value = some user } ∷ [])
      "ticket.assigned" (with_two "ticket.assigned" t.id user)
      (("ticket_id", t.id) ∷ ("assignee", user) ∷ [])

-- The clock is read only for a ticket that was never assigned.
unfoldable pub assign_time : Ticket → M Time
assign_time t = elim t.first_assigned_at [ none ↦ now | some at ↦ pure at ]

unfoldable pub assign_ticket : Uuid → Actor → Uuid → String → M Ticket
assign_ticket workspace actor id user = do
  t ← own_ticket workspace id
  at ← assign_time t
  save_ticket (assigned user at t)
  mutate (assigned_request actor (assigned user at t) t.assignee_user_id user)
  commit_and_notify
  refresh (assigned user at t)

unfoldable pub get_ticket : Uuid → Uuid → M TicketDetail
get_ticket workspace id = do t ← own_ticket workspace id; ticket_detail t

unfoldable pub list_tickets : Uuid → M (List Ticket)
list_tickets workspace = gets (λ s. where_ (λ t. t.workspace_id == workspace) s.db.tickets)
