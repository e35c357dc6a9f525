-- ===== src/Api/Reply.antt =====
-- `send_ticket_message` of src/phera/api/routes/tickets.py, and the chain of message ids there.
-- `Message.thread_keys`, which nothing in the program reads, is left out.
pub mod Outcome
pub mod Subject
mod Examples
use Prim.Native.String
use phera.Common.{
  String, Bool, true, false, not, ◌&&◌, Option, none, some, List, [], ◌∷◌, ◌++◌, ◌==◌,
  if◌then◌else◌, opt_eq, truthy, or_else, where_, update_rows, Dict, leb, sort, contains, map,
}
use phera.Json.{Json, null, str}
use phera.Models.{Uuid, Time, Ticket, ChannelAccount, Contact, Message}
use phera.Session.{
  M, pure, raise, gets, write, uuid4, now, ◌>>=◌, ◌>>◌, when, commit_and_notify,
  publish_inbox_event, http,
}
use phera.Authz.Actor.{Actor}
use phera.Mutate.{mutate, request, MutateRequest, is_some, touch_ticket_activity}
use phera.Tickets.Joining.{save_ticket, who_text}
use phera.Api.Tickets.{own_ticket, time_or}
use phera.Api.Enrichment.{channel_for_ticket, contact_by}
use phera.Api.Providers.{Provider, Providers, find_provider, check_configured, require_value, sent}

abbrev pub keep_some : List (Option String) → List String
keep_some [] = []
keep_some (none ∷ ids) = keep_some ids
keep_some (some id ∷ ids) = if id == "" then keep_some ids else id ∷ keep_some ids

abbrev pub last : List String → Option String
last [] = none
last (x ∷ []) = some x
last (x ∷ y ∷ ys) = last (y ∷ ys)

abbrev pub by_time : Message → Message → Bool
by_time m n = leb m.occurred_at n.occurred_at

-- `WHERE Message.ticket_id = … AND provider_message_id IS NOT NULL ORDER BY occurred_at`
abbrev pub has_id_on : Uuid → Message → Bool
has_id_on ticket m = opt_eq m.ticket_id (some ticket) && is_some m.provider_message_id

abbrev pub references_of : Uuid → List Message → List String
references_of ticket rows =
    keep_some (map (λ m. m.provider_message_id) (sort by_time (where_ (has_id_on ticket) rows)))

unfoldable pub email_thread_headers : Uuid → M (Option String × List String)
email_thread_headers ticket =
    gets (λ s. let references = references_of ticket s.db.messages in (last references, references))

unfoldable pub reply_channel : Ticket → M ChannelAccount
reply_channel t =
    if not (is_some t.channel_account_id)
    then raise (http 400 "Ticket has no channel — cannot send a reply")
    else do
      channel ← channel_for_ticket t
      elim channel [ none ↦ raise (http 400 "Channel account not found") | some c ↦ pure c ]

abbrev pub phone_of : Option Contact → Option String
phone_of none = none
phone_of (some c) = c.primary_phone

abbrev pub email_of : Option Contact → Option String
email_of none = none
email_of (some c) = c.primary_email

abbrev pub name_of : Option Contact → Option String
name_of none = none
name_of (some c) = c.name

abbrev pub recipient : ChannelAccount → Option Contact → M String
recipient channel contact =
    if channel.adapter_type == "gallabox"
    then require_value "Contact has no phone number for WhatsApp" (phone_of contact)
    else require_value "Contact has no email address" (email_of contact)

abbrev pub json_text : Option String → Json
json_text none = null
json_text (some s) = str s

abbrev pub outbound : ChannelAccount → Ticket → Actor → String → Time → Uuid → Message
outbound channel t actor body at id = record {
  id = id;
  channel_account_id = channel.id;
  ticket_id = some t.id;
  contact_id = some t.contact_id;
  direction = "outbound";
  provider_message_id = none;
  body = some body;
  raw =
      ("actor_id", json_text actor.id)
      ∷ ("actor_type", str actor.actor_type)
      ∷ ("actor_name", json_text (or_else actor.name actor.email))
      ∷ [];
  occurred_at = at;
}

-- `ticket.subject or "Support reply"`, with the ticket's token unless it is there.
abbrev pub or_text : String → Option String → String
or_text d none = d
or_text d (some s) = if s == "" then d else s

abbrev pub token : String → String
token id = String.◌++◌ "[#" (String.◌++◌ id "]")

abbrev pub with_token : String → String → String
with_token subject id =
    if contains (token id) subject
    then subject
    else String.◌++◌ subject (String.◌++◌ " " (token id))

unfoldable pub reply_subject : Ticket → String
reply_subject t =
    let subject = or_text "Support reply" t.subject in
    elim t.short_id [
      | none ↦ subject
      | some id ↦ if id == "" then subject else with_token subject id
    ]

unfoldable pub deliver :
    Provider → ChannelAccount → Ticket → Option Contact → String → String → M String
deliver provider channel t contact to body =
    if channel.adapter_type == "gallabox"
    then sent (
        provider.send (record {
          to = to;
          name = name_of contact;
          subject = none;
          body = body;
          in_reply_to = none;
          references = [];
        }))
    else do
      headers ← email_thread_headers t.id
      sent (
          provider.send (record {
            to = to;
            name = none;
            subject = some (reply_subject t);
            body = body;
            in_reply_to = headers.0;
            references = headers.1;
          }))

unfoldable pub save_message : Message → M Unit
save_message m =
    write (λ db. record db { messages = update_rows (λ n. n.id == m.id) (λ _. m) db.messages })

unfoldable pub add_message : Message → M Unit
add_message m = write (λ db. record db { messages = db.messages ++ m ∷ [] })

abbrev pub is_claimed : Ticket → Actor → Bool
is_claimed t actor = not (truthy t.assignee_user_id) && truthy actor.id

abbrev pub claimed_by : Actor → Time → Ticket → Ticket
claimed_by actor at t =
    if is_claimed t actor
    then record t {
      assignee_user_id = actor.id;
      first_assigned_at = some (time_or t.first_assigned_at at);
    }
    else t

-- What the answer does to the ticket.
unfoldable pub answered : Actor → Time → Ticket → Ticket
answered actor at t =
    let touched = touch_ticket_activity at t in
    claimed_by actor at
      (record touched { first_response_at = some (time_or t.first_response_at at) })

abbrev pub sent_request : Uuid → Actor → ChannelAccount → Ticket → Message → String → MutateRequest
sent_request workspace actor channel t m body =
    record (request (record { id = m.id; workspace_id = none; is_ticket = false }) "message" "sent"
      (record { field = "body"; from_value = none; to_value = some body } ∷ []) (some actor)) {
        workspace_id = some workspace;
        outbox_event_type = some "message.sent";
        idempotency_key = some (String.◌++◌ "message.sent:" m.id);
        outbox_payload =
            ("message_id", m.id)
            ∷ ("ticket_id", t.id)
            ∷ ("contact_id", t.contact_id)
            ∷ ("channel_kind", channel.kind)
            ∷ [];
        timeline = true;
        timeline_type = some "message";
        timeline_body = some body;
        contact_id = some t.contact_id;
        ticket_id = some t.id;
      }

abbrev pub claimed_event : Uuid → Uuid → Actor → Dict String
claimed_event workspace ticket actor =
    ("type", "ticket.claimed")
    ∷ ("workspace_id", workspace)
    ∷ ("ticket_id", ticket)
    ∷ ("actor_id", who_text actor.id)
    ∷ []

abbrev pub sent_event : Uuid → Ticket → ChannelAccount → Actor → Dict String
sent_event workspace t channel actor =
    ("type", "message.sent")
    ∷ ("workspace_id", workspace)
    ∷ ("ticket_id", t.id)
    ∷ ("channel_kind", channel.kind)
    ∷ ("assignee_user_id", who_text t.assignee_user_id)
    ∷ ("actor_id", who_text actor.id)
    ∷ []

-- What follows the checks.
unfoldable pub send_reply :
    Uuid → Actor → Provider → ChannelAccount → Ticket → Option Contact → String → String → M Message
send_reply workspace actor provider channel t contact to body = do
  at ← now
  id ← uuid4
  let m = outbound channel t actor body at id
  add_message m
  provider_id ← deliver provider channel t contact to body
  let m = record m { provider_message_id = some provider_id }
  save_message m
  let t' = answered actor at t
  save_ticket t'
  mutate (sent_request workspace actor channel t' m body)
  commit_and_notify
  publish_inbox_event (sent_event workspace t' channel actor)
  when (is_claimed t actor) (publish_inbox_event (claimed_event workspace t'.id actor))
  pure m

unfoldable pub send_ticket_message : Providers → Uuid → Actor → Uuid → String → M Message
send_ticket_message providers workspace actor id body = do
  t ← own_ticket workspace id
  channel ← reply_channel t
  found ← find_provider providers channel
  provider ← check_configured found
  contact ← gets (λ s. contact_by t.contact_id s.db.contacts)
  to ← recipient channel contact
  send_reply workspace actor provider channel t contact to body
