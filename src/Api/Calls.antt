-- ===== src/Api/Calls.antt =====
-- src/phera/api/routes/calls.py: outbound calls, by the stub of
-- src/phera/modules/connectors/stubs.py, and their transcripts.
pub mod Again
pub mod Outcome
mod Examples
use Prim.Native.String
use phera.Common.{
  String, not, ◌&&◌, Option, none, some, [], ◌∷◌, ◌++◌, ◌==◌, if◌then◌else◌, truthy, where_, Dict,
}
use phera.Models.{Uuid, Time, Call, Ticket, Transcript, OutboxEvent}
use phera.Session.{
  M, pure, raise, gets, write, uuid4, now, scalar_one_or_none, track_outbox_notify, ◌>>=◌, ◌>>◌,
  commit_and_notify, publish_inbox_event, http, integrity_error,
}
use phera.Authz.Actor.{Actor}
use phera.Mutate.{touch_ticket_activity}
use phera.Tickets.Joining.{find_ticket, save_ticket, blank_or, who_text}
use phera.Voice.Calls.{insert_call}
use phera.Worker.Transcription.{call_by, is_of_call}
use phera.Api.Contacts.{get_contact}
use phera.Api.Tickets.{assign_time}

pub record CallCreate : Type 0 where
  pub contact_id : Uuid
  pub to_number : String
  pub ticket_id : Option Uuid

-- `click_to_call` of the stub: the id of the call.
unfoldable pub click_to_call : String → String → String
click_to_call from_user to_number =
    String.◌++◌ "stub-" (String.◌++◌ from_user (String.◌++◌ "-" to_number))

abbrev pub outbound_call : Uuid → Uuid → Actor → CallCreate → Time → Call
outbound_call id workspace actor body at = record {
  id = id;
  workspace_id = workspace;
  contact_id = some body.contact_id;
  ticket_id = body.ticket_id;
  agent_user_id = none;
  provider = "stub";
  provider_call_id = some (click_to_call (blank_or actor.id) body.to_number);
  direction = "outbound";
  from_number = none;
  to_number = some body.to_number;
  duration_seconds = none;
  recording_url = none;
  status = "initiated";
  created_at = at;
}

-- A flush outside of a savepoint: an `IntegrityError` ends the request.
unfoldable pub flush_call : Call → M Unit
flush_call call = do done ← insert_call call; if done then pure tt else raise integrity_error

-- `if not ticket.assignee_user_id and actor.id`
unfoldable pub taken_by : Actor → Ticket → M Ticket
taken_by actor t =
    if not (truthy t.assignee_user_id) && truthy actor.id
    then assign_time t
      >>= (λ at. pure (record t { assignee_user_id = actor.id; first_assigned_at = some at }))
    else pure t

unfoldable pub touch_found : Uuid → Actor → Option Ticket → M Unit
touch_found workspace actor none = pure tt
touch_found workspace actor (some t) =
    if not (t.workspace_id == workspace)
    then pure tt
    else do at ← now; taken ← taken_by actor (touch_ticket_activity at t); save_ticket taken

unfoldable pub touch_called : Uuid → Actor → Option Uuid → M Unit
touch_called workspace actor none = pure tt
touch_called workspace actor (some id) = do
  found ← gets (λ s. find_ticket id s.db.tickets)
  touch_found workspace actor found

abbrev pub call_started : Uuid → Time → Call → Uuid → OutboxEvent
call_started id at call contact = record {
  id = id;
  occurred_at = at;
  workspace_id = some call.workspace_id;
  event_type = "call.started";
  entity_type = "call";
  entity_id = call.id;
  idempotency_key = String.◌++◌ "call.started:" call.id;
  payload = ("call_id", call.id) ∷ ("contact_id", contact) ∷ [];
  status = "pending";
  attempts = 0;
  last_error = none;
}

unfoldable pub queue_started : Call → Uuid → M Unit
queue_started call contact = do
  id ← uuid4
  at ← now
  write
      (λ db. record db { outbox_events = db.outbox_events ++ call_started id at call contact ∷ [] })
  track_outbox_notify id

abbrev pub started_event : Uuid → Actor → Uuid → Dict String
started_event workspace actor ticket =
    ("type", "call.started")
    ∷ ("workspace_id", workspace)
    ∷ ("ticket_id", ticket)
    ∷ ("actor_id", who_text actor.id)
    ∷ []

unfoldable pub publish_started : Uuid → Actor → Option Uuid → M Unit
publish_started workspace actor none = pure tt
publish_started workspace actor (some ticket) =
    publish_inbox_event (started_event workspace actor ticket)

unfoldable pub start_call : Uuid → Actor → CallCreate → M Call
start_call workspace actor body = do
  contact ← get_contact workspace body.contact_id
  id ← uuid4
  at ← gets (λ s. s.db_now)
  let call = outbound_call id workspace actor body at
  flush_call call
  touch_called workspace actor body.ticket_id
  queue_started call body.contact_id
  commit_and_notify
  publish_started workspace actor body.ticket_id
  pure call

unfoldable pub own_call : Uuid → Option Call → M Call
own_call workspace none = raise (http 404 "Call not found")
own_call workspace (some c) =
    if c.workspace_id == workspace then pure c else raise (http 404 "Call not found")

unfoldable pub get_transcript : Uuid → Uuid → M (Option Transcript)
get_transcript workspace id = do
  found ← gets (λ s. call_by id s.db.calls)
  call ← own_call workspace found
  rows ← gets (λ s. where_ (is_of_call id) s.db.transcripts)
  scalar_one_or_none rows
