-- ===== src/Api/Foreign.antt =====
-- The requests of src/phera/api/routes/tickets.py and inbox.py about a ticket that is not one of the
-- workspace's.
use phera.Common.{String, ◌≡◌, List, ap, ◌∙◌, true}
use phera.Models.{Uuid, Ticket, Message}
use phera.Session.{M, Session, err, http, ◌>>=◌}
use phera.Session.Steps.{bind-err}
use phera.Authz.Actor.{Actor, has_permission}
use phera.Api.Tickets.{TicketUpdate, own_ticket, get_ticket, update_ticket, assign_ticket}
use phera.Api.Enrichment.{TicketDetail}
use phera.Api.Tickets.Own.{IsForeign, own_ticket_foreign}
use phera.Api.Reply.{send_ticket_message}
use phera.Api.Providers.{Providers}
use phera.Api.Conversation.{ConversationItem, MessageOut, ticket_conversation, ticket_messages}
use phera.Api.Inbox.{claim_ticket, take_ticket}

-- A request about the ticket with the id.
pub data IsAbout (workspace : Uuid) (actor : Actor) (id : Uuid) : (A : Type 0) → M A → Type 1 where
  reads : IsAbout workspace actor id TicketDetail (get_ticket workspace id)
  converses : IsAbout workspace actor id (List ConversationItem) (ticket_conversation workspace id)
  lists_messages : IsAbout workspace actor id (List MessageOut) (ticket_messages workspace id)
  updates :
      (body : TicketUpdate)
      → IsAbout workspace actor id TicketDetail (update_ticket workspace actor id body)
  assigns :
      (user : String) → IsAbout workspace actor id Ticket (assign_ticket workspace actor id user)
  replies :
      (providers : Providers) (body : String)
      → IsAbout workspace actor id Message (send_ticket_message providers workspace actor id body)
  claims :
      has_permission actor "crm.tickets.claim" "allow" ≡ true
      → IsAbout workspace actor id TicketDetail (claim_ticket workspace actor id)

own_then-foreign :
    {B : Type 0} (workspace id : Uuid) (s : Session) (f : Ticket → M B)
    → IsForeign workspace id s
    → (own_ticket workspace id >>= f) s ≡ (err (http 404 "Ticket not found"), s)
own_then-foreign workspace id s f h =
    let q = own_ticket_foreign workspace id s h in
    bind-err (own_ticket workspace id) f s _ (ap (λ r. r.0) q)
    ∙ ap (λ r. (err (http 404 "Ticket not found"), r.1)) q

take_ticket_foreign :
    (workspace id : Uuid) (actor : Actor) (s : Session)
    → IsForeign workspace id s
    → take_ticket workspace actor id s ≡ (err (http 404 "Ticket not found"), s)
unfolding take_ticket
take_ticket_foreign workspace id actor s h = own_then-foreign workspace id s _ h

-- Reading, with its conversation or its messages, updating, assigning, answering or, with the permission, claiming a ticket that does not
-- exist or is another workspace's fails as one that is not found, and leaves the session as it was.
pub IsAbout-foreign :
    {A : Type 0} (workspace : Uuid) (actor : Actor) (id : Uuid) (m : M A) (s : Session)
    → IsAbout workspace actor id A m
    → IsForeign workspace id s
    → m s ≡ (err (http 404 "Ticket not found"), s)
unfolding get_ticket ticket_conversation ticket_messages update_ticket assign_ticket
    send_ticket_message claim_ticket
IsAbout-foreign workspace actor id _ s reads h = own_then-foreign workspace id s _ h
IsAbout-foreign workspace actor id _ s converses h = own_then-foreign workspace id s _ h
IsAbout-foreign workspace actor id _ s lists_messages h = own_then-foreign workspace id s _ h
IsAbout-foreign workspace actor id _ s (updates body) h = own_then-foreign workspace id s _ h
IsAbout-foreign workspace actor id _ s (assigns user) h = own_then-foreign workspace id s _ h
IsAbout-foreign workspace actor id _ s (replies providers body) h =
    own_then-foreign workspace id s _ h
IsAbout-foreign workspace actor id _ s (claims p) h =
    rw p (take_ticket_foreign workspace id actor s h)
