-- ===== src/Tickets/Inbound.antt =====
-- src/phera/modules/tickets/inbound.py: an inbound message or call becomes, or joins, a ticket.
pub mod Reuse
pub mod Quiet
pub mod Examples
use Prim.Native.String
use phera.Common.{
  String, Bool, true, false, not, Option, none, some, [], ◌∷◌, ◌++◌, if◌then◌else◌, truthy, where_,
  Dict,
}
use phera.Models.{Uuid, Time, Contact, Ticket, Message, ChannelAccount}
use phera.Session.{
  M, pure, raise, gets, write, uuid4, now, scalar_one_or_none, ◌>>=◌, ◌>>◌, commit_and_notify,
  publish_inbox_event, value_error,
}
use phera.Authz.Actor.{typed_actor}
use phera.Mutate.{mutate, request, MutateRequest}
use phera.Tickets.ReusePolicy.{load_reuse_policy}
use phera.Tickets.Channels.{resolve_channel_account}
use phera.Tickets.Contacts.{Inbound, find_or_create_contact}
use phera.Tickets.Joining.{
  save_ticket, has_provider_id, who_text, message_time, reuse_or_create_ticket, reopen, touch,
}

abbrev pub call_inbound : String → String → Inbound
call_inbound adapter_type from_number = record {
  channel_kind = "voice";
  adapter_type = adapter_type;
  address_hint = none;
  body = none;
  subject = none;
  contact_name = none;
  contact_email = none;
  contact_phone = some from_number;
  provider_message_id = none;
  in_reply_to = none;
  raw = [];
  occurred_at = none;
}

unfoldable pub resolve_call_ticket :
    Uuid → String → String → Option String → M (ChannelAccount × Contact × Ticket × Bool)
resolve_call_ticket workspace adapter_type from_number to_number = do
  channel ← gets (λ s. resolve_channel_account s.db workspace "voice" adapter_type to_number)
  elim channel [
    | none ↦ raise (value_error "No active voice channel account")
    | some ch ↦ do
      let inbound = call_inbound adapter_type from_number
      contact ← find_or_create_contact workspace inbound
      policy ← load_reuse_policy workspace (some ch.kind)
      (ticket, created) ← reuse_or_create_ticket workspace contact ch inbound policy
      ticket ← reopen workspace policy ticket
      at ← now
      save_ticket (touch at ticket)
      pure (ch, contact, touch at ticket, created)
  ]

pub data Outcome : Type 0 where
  duplicate : Uuid → Option Uuid → Option Uuid → Outcome
  received :
      (created : Bool) → (message : Message) → (ticket : Ticket) → (contact : Contact) → Outcome

abbrev pub new_message : Uuid → ChannelAccount → Ticket → Contact → Inbound → Time → Message
new_message id channel ticket contact inbound at = record {
  id = id;
  channel_account_id = channel.id;
  ticket_id = some ticket.id;
  contact_id = some contact.id;
  direction = "inbound";
  provider_message_id = inbound.provider_message_id;
  body = inbound.body;
  raw = inbound.raw;
  occurred_at = at;
}

abbrev pub received_request :
    Uuid → ChannelAccount → Ticket → Contact → Inbound → Message → MutateRequest
received_request workspace channel ticket contact inbound message =
    record (request (record { id = message.id; workspace_id = none; is_ticket = false }) "message"
      "received" (record { field = "body"; from_value = none; to_value = inbound.body } ∷ [])
      (some (typed_actor "connector" (some inbound.adapter_type)))) {
        workspace_id = some workspace;
        outbox_event_type = some "message.received";
        idempotency_key = some (String.◌++◌ "message.received:" message.id);
        outbox_payload =
            ("message_id", message.id)
            ∷ ("ticket_id", ticket.id)
            ∷ ("contact_id", contact.id)
            ∷ ("channel_kind", channel.kind)
            ∷ [];
        timeline = true;
        timeline_type = some "message";
        timeline_body = inbound.body;
        contact_id = some contact.id;
        ticket_id = some ticket.id;
      }

abbrev pub received_event : Uuid → ChannelAccount → Ticket → Bool → Contact → Dict String
received_event workspace channel ticket created contact =
    ("type", "message.received")
    ∷ ("workspace_id", workspace)
    ∷ ("ticket_id", ticket.id)
    ∷ ("created_ticket", (if created then "true" else "false"))
    ∷ ("contact_id", contact.id)
    ∷ ("channel_kind", channel.kind)
    ∷ ("assignee_user_id", who_text ticket.assignee_user_id)
    ∷ []

-- The contact and the ticket of a message, the ticket open.
unfoldable pub route_message : Uuid → ChannelAccount → Inbound → M (Contact × Ticket × Bool)
route_message workspace channel inbound = do
  contact ← find_or_create_contact workspace inbound
  policy ← load_reuse_policy workspace (some channel.kind)
  (ticket, created) ← reuse_or_create_ticket workspace contact channel inbound policy
  ticket ← reopen workspace policy ticket
  pure (contact, ticket, created)

-- What follows `session.add(message)`.
unfoldable pub announce_message :
    Uuid → ChannelAccount → Inbound → Contact → Ticket → Bool → Time → Message → M Outcome
announce_message workspace channel inbound contact ticket created at message = do
  save_ticket (touch at ticket)
  mutate (received_request workspace channel ticket contact inbound message)
  commit_and_notify
  publish_inbox_event (received_event workspace channel ticket created contact)
  pure (received created message (touch at ticket) contact)

unfoldable pub store_message : Uuid → ChannelAccount → Inbound → Contact → Ticket → Bool → M Outcome
store_message workspace channel inbound contact ticket created = do
  at ← message_time inbound
  id ← uuid4
  let message = new_message id channel ticket contact inbound at
  write (λ db. record db { messages = db.messages ++ message ∷ [] })
  announce_message workspace channel inbound contact ticket created at message

-- What follows the duplicate check.
unfoldable pub receive : Uuid → ChannelAccount → Inbound → M Outcome
receive workspace channel inbound = do
  (contact, ticket, created) ← route_message workspace channel inbound
  store_message workspace channel inbound contact ticket created

-- The message that already has this provider id.
unfoldable pub find_duplicate : Inbound → M (Option Message)
find_duplicate inbound = if not (truthy inbound.provider_message_id) then pure none else do
  rows ← gets (λ s. where_ (has_provider_id inbound.provider_message_id) s.db.messages)
  scalar_one_or_none rows

unfoldable pub ingest_inbound_message : Uuid → Inbound → M Outcome
ingest_inbound_message workspace inbound = do
  channel ← gets (λ s.
      resolve_channel_account s.db workspace inbound.channel_kind inbound.adapter_type
        inbound.address_hint)
  elim channel [
    | none ↦ raise (value_error "No active channel account")
    | some ch ↦ do
      existing ← find_duplicate inbound
      elim existing [
        | some m ↦ pure (duplicate m.id m.ticket_id m.contact_id)
        | none ↦ receive workspace ch inbound
      ]
  ]
