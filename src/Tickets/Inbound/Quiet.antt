-- ===== src/Tickets/Inbound/Quiet.antt =====
-- What other sessions see of src/phera/modules/tickets/inbound.py before it commits: nothing.
use phera.Common.{String, Bool, Option, none, some}
use phera.Models.{Uuid, Time, Contact, Ticket, Message, ChannelAccount}
use phera.Session.Atomic.{
  IsQuiet, IsAtomic, quiet, safe, atomic, bind-IsQuiet, option-IsQuiet, pure-IsQuiet, now-IsQuiet,
  gets-IsQuiet, raise-IsQuiet, after-IsAtomic, option-IsAtomic, IsQuiet-IsAtomic,
}
use phera.Mutate.Recorded.{mutate-IsQuiet}
use phera.Tickets.ReusePolicy.{EffectiveReusePolicy}
use phera.Tickets.ShortId.{search_token}
use phera.Tickets.ShortId.Quiet.{insert_ticket_with_short_id-IsQuiet}
use phera.Tickets.Contacts.{
  Inbound, find_by_email, find_by_phone, create_contact, keep_contact, find_or_create_contact,
}
use phera.Tickets.Joining.{
  blank_or, save_ticket, reply_ticket, subject_ticket, recent_ticket, message_time, create_ticket,
  reuse_or_create_ticket, reopen,
}
use phera.Tickets.Inbound.{
  resolve_call_ticket, route_message, announce_message, store_message, receive, find_duplicate,
  ingest_inbound_message,
}

pub save_ticket-IsQuiet : (t : Ticket) → IsQuiet (save_ticket t)
unfolding save_ticket
save_ticket-IsQuiet t = search quiet

find_by_email-IsQuiet :
    (workspace : Uuid) (email : Option String) → IsQuiet (find_by_email workspace email)
unfolding find_by_email
find_by_email-IsQuiet workspace email = search quiet depth 8

find_by_phone-IsQuiet :
    (workspace : Uuid) (phone : Option String) (found : Option Contact)
    → IsQuiet (find_by_phone workspace phone found)
unfolding find_by_phone
find_by_phone-IsQuiet workspace phone none = search quiet depth 8
find_by_phone-IsQuiet workspace phone (some c) = search quiet

create_contact-IsQuiet :
    (workspace : Uuid) (inbound : Inbound) → IsQuiet (create_contact workspace inbound)
unfolding create_contact
create_contact-IsQuiet workspace inbound = search quiet depth 8

keep_contact-IsQuiet : (inbound : Inbound) (c : Contact) → IsQuiet (keep_contact inbound c)
unfolding keep_contact
keep_contact-IsQuiet inbound c = search quiet depth 8

pub find_or_create_contact-IsQuiet :
    (workspace : Uuid) (inbound : Inbound) → IsQuiet (find_or_create_contact workspace inbound)
unfolding find_or_create_contact
find_or_create_contact-IsQuiet workspace inbound =
    bind-IsQuiet _ _ (find_by_email-IsQuiet workspace inbound.contact_email) λ by_email.
      bind-IsQuiet _ _ (find_by_phone-IsQuiet workspace inbound.contact_phone by_email) λ found.
        option-IsQuiet found _ _ (create_contact-IsQuiet workspace inbound)
          (keep_contact-IsQuiet inbound)

reply_ticket-IsQuiet :
    (policy : EffectiveReusePolicy) (inbound : Inbound) → IsQuiet (reply_ticket policy inbound)
unfolding reply_ticket
reply_ticket-IsQuiet policy inbound = search quiet depth 8

subject_ticket-IsQuiet :
    (workspace : Uuid) (policy : EffectiveReusePolicy) (inbound : Inbound)
    → IsQuiet (subject_ticket workspace policy inbound)
unfolding subject_ticket
subject_ticket-IsQuiet workspace policy inbound =
    option-IsQuiet (search_token (blank_or inbound.subject)) _ _ (search quiet)
      (λ id. search quiet depth 8)

recent_ticket-IsQuiet :
    (workspace : Uuid) (contact : Contact) (channel : ChannelAccount)
    (policy : EffectiveReusePolicy)
    → IsQuiet (recent_ticket workspace contact channel policy)
unfolding recent_ticket
recent_ticket-IsQuiet workspace contact channel policy = search quiet depth 8

message_time-IsQuiet : (inbound : Inbound) → IsQuiet (message_time inbound)
unfolding message_time
message_time-IsQuiet inbound =
    option-IsQuiet inbound.occurred_at _ _ now-IsQuiet (λ at. pure-IsQuiet at)

create_ticket-IsQuiet :
    (workspace : Uuid) (contact : Contact) (channel : ChannelAccount) (inbound : Inbound)
    → IsQuiet (create_ticket workspace contact channel inbound)
unfolding create_ticket
create_ticket-IsQuiet workspace contact channel inbound =
    search (quiet, message_time-IsQuiet, insert_ticket_with_short_id-IsQuiet) depth 12

reuse_or_create_ticket-IsQuiet :
    (workspace : Uuid) (contact : Contact) (channel : ChannelAccount) (inbound : Inbound)
    (policy : EffectiveReusePolicy)
    → IsQuiet (reuse_or_create_ticket workspace contact channel inbound policy)
unfolding reuse_or_create_ticket
reuse_or_create_ticket-IsQuiet workspace contact channel inbound policy =
    bind-IsQuiet _ _ (reply_ticket-IsQuiet policy inbound) λ replied.
      option-IsQuiet replied _ _
        (bind-IsQuiet _ _ (subject_ticket-IsQuiet workspace policy inbound) λ named.
          option-IsQuiet named _ _
            (bind-IsQuiet _ _ (recent_ticket-IsQuiet workspace contact channel policy) λ existing.
              option-IsQuiet existing _ _
                (bind-IsQuiet _ _ (create_ticket-IsQuiet workspace contact channel inbound)
                  λ t. pure-IsQuiet _)
                (λ t. pure-IsQuiet _))
            (λ t. pure-IsQuiet _))
        (λ t. pure-IsQuiet _)

reopen-IsQuiet :
    (workspace : Uuid) (policy : EffectiveReusePolicy) (t : Ticket)
    → IsQuiet (reopen workspace policy t)
unfolding reopen
reopen-IsQuiet workspace policy t = search (quiet, save_ticket-IsQuiet) depth 12

pub resolve_call_ticket-IsQuiet :
    (workspace : Uuid) (adapter from_number : String) (to_number : Option String)
    → IsQuiet (resolve_call_ticket workspace adapter from_number to_number)
unfolding resolve_call_ticket
resolve_call_ticket-IsQuiet workspace adapter from_number to_number =
    bind-IsQuiet _ _ (gets-IsQuiet _) λ channel.
      option-IsQuiet channel _ _ (raise-IsQuiet _ _) λ ch.
        search
          (
            quiet, find_or_create_contact-IsQuiet, reuse_or_create_ticket-IsQuiet, reopen-IsQuiet,
            save_ticket-IsQuiet,
          )
          depth 16

route_message-IsQuiet :
    (workspace : Uuid) (ch : ChannelAccount) (inbound : Inbound)
    → IsQuiet (route_message workspace ch inbound)
unfolding route_message
route_message-IsQuiet workspace ch inbound =
    search (quiet, find_or_create_contact-IsQuiet, reuse_or_create_ticket-IsQuiet, reopen-IsQuiet)
      depth 16

announce_message-IsAtomic :
    (workspace : Uuid) (ch : ChannelAccount) (inbound : Inbound) (contact : Contact) (t : Ticket)
    (created : Bool) (at : Time) (m : Message)
    → IsAtomic (announce_message workspace ch inbound contact t created at m)
unfolding announce_message
announce_message-IsAtomic workspace ch inbound contact t created at m =
    search (quiet, safe, atomic, save_ticket-IsQuiet, mutate-IsQuiet) depth 12

store_message-IsAtomic :
    (workspace : Uuid) (ch : ChannelAccount) (inbound : Inbound) (contact : Contact) (t : Ticket)
    (created : Bool)
    → IsAtomic (store_message workspace ch inbound contact t created)
unfolding store_message
store_message-IsAtomic workspace ch inbound contact t created =
    search (quiet, atomic, message_time-IsQuiet, announce_message-IsAtomic) depth 12

receive-IsAtomic :
    (workspace : Uuid) (ch : ChannelAccount) (inbound : Inbound)
    → IsAtomic (receive workspace ch inbound)
unfolding receive
receive-IsAtomic workspace ch inbound =
    after-IsAtomic _ _ (route_message-IsQuiet workspace ch inbound)
      λ (contact, t, created). store_message-IsAtomic workspace ch inbound contact t created

find_duplicate-IsQuiet : (inbound : Inbound) → IsQuiet (find_duplicate inbound)
unfolding find_duplicate
find_duplicate-IsQuiet inbound = search quiet depth 8

-- A message that is not taken in is not seen.
pub ingest_inbound_message-IsAtomic :
    (workspace : Uuid) (inbound : Inbound) → IsAtomic (ingest_inbound_message workspace inbound)
unfolding ingest_inbound_message
ingest_inbound_message-IsAtomic workspace inbound = after-IsAtomic _ _ (gets-IsQuiet _) λ channel.
    option-IsAtomic channel _ _ (IsQuiet-IsAtomic _ (raise-IsQuiet _ _)) λ ch.
      after-IsAtomic _ _ (find_duplicate-IsQuiet inbound) λ existing.
        option-IsAtomic existing _ _ (receive-IsAtomic workspace ch inbound)
          (λ m. IsQuiet-IsAtomic _ (pure-IsQuiet _))
