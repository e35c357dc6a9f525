-- ===== src/Api/Reply/Outcome.antt =====
-- What a failed reply leaves.
use phera.Common.{String, ◌≡◌, Option, none, some}
use phera.Models.{Uuid, Ticket, ChannelAccount, Connector, Contact, Message}
use phera.Session.{
  M, Session, Result, Error, ok, err, runtime_error, value_error, http, integrity_error,
  multiple_results, type_error, key_error, attribute_error, pure, raise,
}
use phera.Session.Atomic.{IsQuiet, IsAtomic, IsUnseen, quiet}
use phera.Authz.Actor.{Actor}
use phera.Api.Tickets.Outcome.{parts, channel_for_ticket-IsQuiet}
use phera.Api.Reply.{
  reply_channel, deliver, email_thread_headers, save_message, add_message, send_reply,
  send_ticket_message,
}
use phera.Api.Providers.{
  Providers, Provider, from_either, find_provider, check_configured, require_value, sent,
}

channel_or-IsQuiet :
    (found : Option ChannelAccount)
    → IsQuiet (elim found as (λ _. M ChannelAccount) [
      | none ↦ raise (http 400 "Channel account not found")
      | some c ↦ pure c
    ])
channel_or-IsQuiet none = search quiet
channel_or-IsQuiet (some c) = search quiet

reply_channel-IsQuiet : (t : Ticket) → IsQuiet (reply_channel t)
unfolding reply_channel
reply_channel-IsQuiet t = search (quiet, channel_for_ticket-IsQuiet, channel_or-IsQuiet)

from_either-IsQuiet :
    (from : Connector → Provider) (settings : Provider) (id : Option Uuid)
    → IsQuiet (from_either from settings id)
unfolding from_either
from_either-IsQuiet from settings none = search quiet
from_either-IsQuiet from settings (some id) = search quiet

find_provider-IsQuiet : (p : Providers) (c : ChannelAccount) → IsQuiet (find_provider p c)
unfolding find_provider
find_provider-IsQuiet p c = search (quiet, from_either-IsQuiet)

check_configured-IsQuiet : (p : Option Provider) → IsQuiet (check_configured p)
unfolding check_configured
check_configured-IsQuiet none = search quiet
check_configured-IsQuiet (some p) = search quiet

require_value-IsQuiet : (detail : String) (v : Option String) → IsQuiet (require_value detail v)
unfolding require_value
require_value-IsQuiet detail none = search quiet
require_value-IsQuiet detail (some v) = search quiet

sent-IsQuiet : (r : Result String) → IsQuiet (sent r)
unfolding sent
sent-IsQuiet (ok id) = search quiet
sent-IsQuiet (err (runtime_error detail)) = search quiet
sent-IsQuiet (err (http n detail)) = search quiet
sent-IsQuiet (err (value_error detail)) = search quiet
sent-IsQuiet (err integrity_error) = search quiet
sent-IsQuiet (err multiple_results) = search quiet
sent-IsQuiet (err type_error) = search quiet
sent-IsQuiet (err key_error) = search quiet
sent-IsQuiet (err attribute_error) = search quiet

deliver-IsQuiet :
    (p : Provider) (c : ChannelAccount) (t : Ticket) (contact : Option Contact) (to body : String)
    → IsQuiet (deliver p c t contact to body)
unfolding deliver email_thread_headers
deliver-IsQuiet p c t contact to body = search (quiet, sent-IsQuiet)

save_message-IsQuiet : (m : Message) → IsQuiet (save_message m)
unfolding save_message
save_message-IsQuiet m = search quiet

add_message-IsQuiet : (m : Message) → IsQuiet (add_message m)
unfolding add_message
add_message-IsQuiet m = search quiet

send_reply-IsAtomic :
    (workspace : Uuid) (actor : Actor) (p : Provider) (c : ChannelAccount) (t : Ticket)
    (contact : Option Contact) (to body : String)
    → IsAtomic (send_reply workspace actor p c t contact to body)
unfolding send_reply
send_reply-IsAtomic workspace actor p c t contact to body =
    search (parts, deliver-IsQuiet, save_message-IsQuiet, add_message-IsQuiet) depth 16

-- A reply that fails, for whatever reason and also when the provider raises or the commit fails, is
-- not seen outside its session: nothing is committed, no outbox id is pushed and no inbox event is
-- published.
pub send_ticket_message-IsUnseen :
    (providers : Providers) (workspace : Uuid) (actor : Actor) (id : Uuid) (body : String)
    (s : Session) (e : Error)
    → (send_ticket_message providers workspace actor id body s).0 ≡ err e
    → IsUnseen s (send_ticket_message providers workspace actor id body s).1
unfolding send_ticket_message
send_ticket_message-IsUnseen providers workspace actor id body = reply-IsAtomic
  where
    reply-IsAtomic : IsAtomic (send_ticket_message providers workspace actor id body)
    reply-IsAtomic =
        search
          (
            parts, reply_channel-IsQuiet, find_provider-IsQuiet, check_configured-IsQuiet,
            require_value-IsQuiet, send_reply-IsAtomic,
          )
          depth 16
