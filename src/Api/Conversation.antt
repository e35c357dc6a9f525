-- ===== src/Api/Conversation.antt =====
-- `ticket_conversation` and `ticket_messages` of src/phera/api/routes/tickets.py.
use Prim.Native.String
use phera.Common.{
  suc, String, Bool, not, Option, none, some, List, [], ◌∷◌, ◌++◌, map, ◌==◌, if◌then◌else◌, opt_eq,
  elem, lower, where_, leb, eqb, sort, get, decimal,
}
use phera.Json.{Json, null, str, or_null, ℤ, pos, negsuc}
use phera.Models.{Uuid, Time, Message, Interaction, Call, Transcript, ChannelAccount}
use phera.Session.{M, pure, gets, scalar_one_or_none, ◌>>=◌}
use phera.Api.Tickets.{own_ticket}
use phera.Api.Enrichment.{channel_for_ticket, channel_by, if_some}
use phera.Api.Reply.{by_time, json_text}

pub record ConversationItem : Type 0 where
  pub id : Uuid
  pub kind : String
  pub direction : Option String
  pub body : Option String
  pub occurred_at : Time
  pub channel_kind : Option String
  pub actor_type : Json
  pub actor_id : Json
  pub actor_name : Json
  pub call_status : Option String
  pub transcript_status : Option String
  pub transcript_text : Option String

abbrev kind_of : Option ChannelAccount → Option String
kind_of none = none
kind_of (some c) = some c.kind

abbrev pub or_kind : Option String → Option ChannelAccount → Option String
or_kind kind none = kind
or_kind kind (some c) = some c.kind

abbrev pub message_item : Option String → List ChannelAccount → Message → ConversationItem
message_item kind accounts m = record {
  id = m.id;
  kind = "message";
  direction = some m.direction;
  body = m.body;
  occurred_at = m.occurred_at;
  channel_kind = or_kind kind (channel_by (some m.channel_account_id) accounts);
  actor_type = or_null (get "actor_type" m.raw);
  actor_id = or_null (get "actor_id" m.raw);
  actor_name = or_null (get "actor_name" m.raw);
  call_status = none;
  transcript_status = none;
  transcript_text = none;
}

-- Timeline entries of messages, which stand there as messages already.
abbrev pub is_repeated : Interaction → Bool
is_repeated i = elem (lower i.type) ("message" ∷ "received" ∷ "sent" ∷ [])

abbrev pub interaction_item : Option String → Interaction → ConversationItem
interaction_item kind i = record {
  id = i.id;
  kind = "interaction";
  direction = i.direction;
  body = i.body;
  occurred_at = i.occurred_at;
  channel_kind = kind;
  actor_type = str i.actor_type;
  actor_id = json_text i.actor_id;
  actor_name = null;
  call_status = none;
  transcript_status = none;
  transcript_text = none;
}

abbrev pub duration_text : Option ℤ → String
duration_text none = ""
duration_text (some (pos n)) =
    if eqb n 0 then "" else String.◌++◌ " · " (String.◌++◌ (decimal n) "s")
duration_text (some (negsuc n)) = String.◌++◌ " · -" (String.◌++◌ (decimal (suc n)) "s")

abbrev pub call_item : Option Transcript → Call → ConversationItem
call_item transcript c = record {
  id = c.id;
  kind = "call";
  direction = some c.direction;
  body = some (String.◌++◌ "Call " (String.◌++◌ c.status (duration_text c.duration_seconds)));
  occurred_at = c.created_at;
  channel_kind = some "voice";
  actor_type = null;
  actor_id = null;
  actor_name = null;
  call_status = some c.status;
  transcript_status = if_some transcript (λ t. some t.status);
  transcript_text = if_some transcript (λ t. t.text);
}

unfoldable pub call_items : List Call → M (List ConversationItem)
call_items [] = pure []
call_items (c ∷ cs) = do
  rows ← gets (λ s. where_ (λ t. t.call_id == c.id) s.db.transcripts)
  transcript ← scalar_one_or_none rows
  rest ← call_items cs
  pure (call_item transcript c ∷ rest)

abbrev pub messages_of : Uuid → List Message → List Message
messages_of id rows = sort by_time (where_ (λ m. opt_eq m.ticket_id (some id)) rows)

abbrev pub interactions_of : Uuid → List Interaction → List Interaction
interactions_of id rows =
    where_ (λ i. not (is_repeated i))
      (sort (λ i j. leb i.occurred_at j.occurred_at)
        (where_ (λ i. opt_eq i.ticket_id (some id)) rows))

abbrev pub calls_of : Uuid → List Call → List Call
calls_of id rows =
    sort (λ c d. leb c.created_at d.created_at) (where_ (λ c. opt_eq c.ticket_id (some id)) rows)

abbrev pub item_by_time : ConversationItem → ConversationItem → Bool
item_by_time a b = leb a.occurred_at b.occurred_at

unfoldable pub ticket_conversation : Uuid → Uuid → M (List ConversationItem)
ticket_conversation workspace id = do
  t ← own_ticket workspace id
  channel ← channel_for_ticket t
  let kind = kind_of channel
  messages ←
      gets (λ s. map (message_item kind s.db.channel_accounts) (messages_of id s.db.messages))
  interactions ← gets (λ s. map (interaction_item kind) (interactions_of id s.db.interactions))
  calls ← gets (λ s. calls_of id s.db.calls)
  calls ← call_items calls
  pure (sort item_by_time (messages ++ (interactions ++ calls)))

pub record MessageOut : Type 0 where
  pub message : Message
  pub channel_kind : Option String

unfoldable pub ticket_messages : Uuid → Uuid → M (List MessageOut)
ticket_messages workspace id = do
  t ← own_ticket workspace id
  channel ← channel_for_ticket t
  gets (λ s.
      map (λ m. record { message = m; channel_kind = kind_of channel })
        (messages_of id s.db.messages))
