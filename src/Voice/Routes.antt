-- ===== src/Voice/Routes.antt =====
-- `exotel_route_call` of src/phera/api/routes/voice_hooks.py: whose phone an inbound call rings.

use phera.Common.{
  String, Bool, not, ◌||◌, Option, none, some, List, [], ◌∷◌, ◌==◌, if◌then◌else◌, truthy, first,
  where_, Dict,
}
use phera.Json.{Json}
use phera.Models.{
  Uuid, Time, Workspace, ChannelAccount, Contact, Call, Ticket, RoutingPolicy, AgentPresence,
  AgentTelephonyIdentity,
}
use phera.Session.{
  M, Result, pure, gets, now, ◌>>=◌, ◌>>◌, commit_and_notify, publish_inbox_event, http,
}
use phera.Routing.{select_agent_for_voice}
use phera.Tickets.Joining.{save_ticket}
use phera.Tickets.Inbound.{resolve_call_ticket}
use phera.Voice.Params.{require, resolve_verified_exotel_channel}
use phera.Voice.Calls.{InboundCall, get_or_create_inbound_call}
use phera.Voice.Events.{sid_of, to_of, from_of}

abbrev policy_by : Option Uuid → List RoutingPolicy → Option RoutingPolicy
policy_by none rows = none
policy_by (some id) rows = first (where_ (λ p. p.id == id) rows)

-- `ticket.first_assigned_at or datetime.now(UTC)`
unfoldable pub first_time : Option Time → M Time
first_time none = now
first_time (some at) = pure at

unfoldable pub give_to : Ticket → Option AgentPresence → M Ticket
give_to ticket none = pure ticket
give_to ticket (some agent) = do
  at ← first_time ticket.first_assigned_at
  let given = record ticket { assignee_user_id = some agent.user_id; first_assigned_at = some at }
  save_ticket given
  pure given

-- The ticket with its agent, who is chosen where it has none.
unfoldable pub assign_target : (String → String → Bool) → Uuid → ChannelAccount → Ticket → M Ticket
assign_target le workspace channel ticket =
    if truthy ticket.assignee_user_id then pure ticket else do
      policy ← gets (λ s. policy_by channel.routing_policy_id s.db.routing_policies)
      agent ← select_agent_for_voice le policy workspace
      give_to ticket agent

-- `session.get(AgentTelephonyIdentity, user_id)`
abbrev pub identity_by : String → List AgentTelephonyIdentity → Option AgentTelephonyIdentity
identity_by user rows = first (where_ (λ i. i.user_id == user) rows)

abbrev pub assigned_event : Uuid → Ticket → Call → String → String → Contact → Bool → Dict String
assigned_event workspace ticket call call_sid user contact created =
    ("type", "call.assigned")
    ∷ ("workspace_id", workspace)
    ∷ ("ticket_id", ticket.id)
    ∷ ("call_id", call.id)
    ∷ ("provider_call_id", call_sid)
    ∷ ("assignee_user_id", user)
    ∷ ("contact_id", contact.id)
    ∷ ("created_ticket", (if created then "true" else "false"))
    ∷ []

-- No phone is rung.
unfoldable pub answer_nobody : M String
answer_nobody = do commit_and_notify; pure ""

unfoldable pub ring : InboundCall → Contact → Ticket → Bool → AgentTelephonyIdentity → M String
ring c contact ticket created identity = do
  call ← get_or_create_inbound_call c
  commit_and_notify
  publish_inbox_event
      (assigned_event c.workspace_id ticket call c.call_sid c.agent_user_id contact created)
  pure identity.sip_user

unfoldable pub ring_identity :
    InboundCall → Contact → Ticket → Bool → Option AgentTelephonyIdentity → M String
ring_identity c contact ticket created none = answer_nobody
ring_identity c contact ticket created (some identity) =
    if not identity.is_active || not (identity.workspace_id == c.workspace_id)
    then answer_nobody
    else ring c contact ticket created identity

abbrev pub inbound_call : Uuid → Contact → Ticket → String → String → String → String → InboundCall
inbound_call workspace contact ticket user call_sid from_number to_number = record {
  workspace_id = workspace;
  contact_id = contact.id;
  ticket_id = ticket.id;
  agent_user_id = user;
  call_sid = call_sid;
  from_number = from_number;
  to_number = to_number;
}

unfoldable pub ring_target :
    Uuid → Contact → Ticket → Bool → String → String → String → Option String → M String
ring_target workspace contact ticket created call_sid from_number to_number none = answer_nobody
ring_target workspace contact ticket created call_sid from_number to_number (some user) =
    if user == "" then answer_nobody else do
      identity ← gets (λ s. identity_by user s.db.agent_identities)
      ring_identity (inbound_call workspace contact ticket user call_sid from_number to_number)
          contact ticket created identity

-- What follows the check of the token.
unfoldable pub route_call :
    (String → String → Bool) → Workspace → ChannelAccount → String → String → String → M String
route_call le workspace channel call_sid from_number to_number = do
  (_, contact, ticket, created) ←
      resolve_call_ticket workspace.id "exotel" from_number (some to_number)
  ticket ← assign_target le workspace.id channel ticket
  ring_target workspace.id contact ticket created call_sid from_number to_number
      ticket.assignee_user_id

-- The answer is the SIP user to dial; `le` is the database's order of texts.
unfoldable pub exotel_route_call :
    (String → Result (Dict Json)) → (String → String → Bool) → Dict String → String → M String
exotel_route_call decrypt_secrets le params token = do
  from_number ← require (from_of params) (http 400 "Missing From/To in routing webhook payload")
  to_number ← require (to_of params) (http 400 "Missing From/To in routing webhook payload")
  call_sid ← require (sid_of params) (http 400 "Missing CallSid in routing webhook payload")
  (workspace, channel) ← resolve_verified_exotel_channel decrypt_secrets token to_number
  route_call le workspace channel call_sid from_number to_number
