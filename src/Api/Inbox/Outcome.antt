-- ===== src/Api/Inbox/Outcome.antt =====
-- What a failed request of src/phera/api/routes/inbox.py leaves.
use phera.Common.{String, Option, none, some}
use phera.Models.{Uuid, Ticket, AgentPresence}
use phera.Session.Atomic.{
  IsQuiet, IsAtomic, quiet, safe, atomic, raise-IsQuiet, IsQuiet-IsAtomic, if-IsAtomic,
}
use phera.Authz.Actor.{Actor, has_permission}
use phera.Api.Tickets.{assign_time}
use phera.Api.Tickets.Outcome.{parts, assign_time-IsQuiet}
use phera.Api.Inbox.{
  claim_ticket, take_ticket, claim_time, find_presence, set_presence, update_presence,
}

claim_time-IsQuiet : (t : Ticket) → IsQuiet (claim_time t)
unfolding claim_time assign_time
claim_time-IsQuiet t = assign_time-IsQuiet t

take_ticket-IsAtomic :
    (workspace : Uuid) (actor : Actor) (id : Uuid) → IsAtomic (take_ticket workspace actor id)
unfolding take_ticket
take_ticket-IsAtomic workspace actor id = search (parts, claim_time-IsQuiet) depth 12

pub claim_ticket-IsAtomic :
    (workspace : Uuid) (actor : Actor) (id : Uuid) → IsAtomic (claim_ticket workspace actor id)
unfolding claim_ticket
claim_ticket-IsAtomic workspace actor id =
    if-IsAtomic (has_permission actor "crm.tickets.claim" "allow") _ _
      (take_ticket-IsAtomic workspace actor id) (IsQuiet-IsAtomic _ (raise-IsQuiet _ _))

find_presence-IsQuiet : (actor : Actor) → IsQuiet (find_presence actor)
unfolding find_presence
find_presence-IsQuiet actor = search quiet

set_presence-IsQuiet :
    (actor : Actor) (status : String) (found : Option AgentPresence)
    → IsQuiet (set_presence actor status found)
unfolding set_presence
set_presence-IsQuiet actor status none = search quiet
set_presence-IsQuiet actor status (some p) = search quiet

pub update_presence-IsAtomic :
    (workspace : Uuid) (actor : Actor) (status : String)
    → IsAtomic (update_presence workspace actor status)
unfolding update_presence
update_presence-IsAtomic workspace actor status =
    search (quiet, safe, atomic, find_presence-IsQuiet, set_presence-IsQuiet) depth 12
