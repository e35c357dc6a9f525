-- ===== src/Api/Tickets/Outcome.antt =====
-- What a failed request about a ticket leaves.
use phera.Common.{String, Option, none, some}
use phera.Models.{Uuid, Time, Ticket}
use phera.Session.{pure, now}
pub use phera.Session.Atomic.{quiet, safe, atomic}
use phera.Session.Atomic.{IsQuiet, IsAtomic, IsSafe, pure-IsQuiet, now-IsQuiet}
use phera.Authz.Actor.{Actor}
pub use phera.Mutate.Recorded.{mutate-IsQuiet}
use phera.Tickets.ShortId.Quiet.{insert_ticket_with_short_id-IsQuiet}
use phera.Tickets.Joining.{save_ticket}
use phera.Api.Tickets.{
  own, own_ticket, refresh, TicketUpdate, TicketCreate, apply_update, update_ticket, create_ticket,
  assign_ticket, assign_time,
}
use phera.Api.Enrichment.{ticket_detail, channel_for_ticket}

own-IsQuiet : (workspace : Uuid) (found : Option Ticket) → IsQuiet (own workspace found)
unfolding own
own-IsQuiet workspace none = search quiet
own-IsQuiet workspace (some t) = search quiet

pub own_ticket-IsQuiet : (workspace id : Uuid) → IsQuiet (own_ticket workspace id)
unfolding own_ticket
own_ticket-IsQuiet workspace id = search (quiet, own-IsQuiet)

pub assign_time-IsQuiet : (t : Ticket) → IsQuiet (assign_time t)
unfolding assign_time
assign_time-IsQuiet t =
    elim t.first_assigned_at as (λ o. IsQuiet (elim o [ none ↦ now | some at ↦ pure at ])) [
      | none ↦ now-IsQuiet
      | some at ↦ pure-IsQuiet at
    ]

pub save_ticket-IsQuiet : (t : Ticket) → IsQuiet (save_ticket t)
unfolding save_ticket
save_ticket-IsQuiet t = search quiet

pub refresh-IsSafe : (t : Ticket) → IsSafe (refresh t)
unfolding refresh
refresh-IsSafe t = search safe

pub channel_for_ticket-IsSafe : (t : Ticket) → IsSafe (channel_for_ticket t)
unfolding channel_for_ticket
channel_for_ticket-IsSafe t = search safe

pub channel_for_ticket-IsQuiet : (t : Ticket) → IsQuiet (channel_for_ticket t)
unfolding channel_for_ticket
channel_for_ticket-IsQuiet t = search quiet

pub ticket_detail-IsSafe : (t : Ticket) → IsSafe (ticket_detail t)
unfolding ticket_detail
ticket_detail-IsSafe t = search (safe, channel_for_ticket-IsSafe)

pub ruleset parts = (
  own_ticket-IsQuiet, assign_time-IsQuiet, save_ticket-IsQuiet, refresh-IsSafe,
  ticket_detail-IsSafe, mutate-IsQuiet, quiet, safe, atomic,
)

apply_update-IsQuiet :
    (actor : Actor) (body : TicketUpdate) (at : Time) (t : Ticket)
    → IsQuiet (apply_update actor body at t)
unfolding apply_update
apply_update-IsQuiet actor body at t = search parts

pub create_ticket-IsAtomic :
    (workspace : Uuid) (actor : Actor) (body : TicketCreate)
    → IsAtomic (create_ticket workspace actor body)
unfolding create_ticket
create_ticket-IsAtomic workspace actor body =
    search (parts, insert_ticket_with_short_id-IsQuiet) depth 12

pub update_ticket-IsAtomic :
    (workspace : Uuid) (actor : Actor) (id : Uuid) (body : TicketUpdate)
    → IsAtomic (update_ticket workspace actor id body)
unfolding update_ticket
update_ticket-IsAtomic workspace actor id body = search (parts, apply_update-IsQuiet) depth 12

pub assign_ticket-IsAtomic :
    (workspace : Uuid) (actor : Actor) (id : Uuid) (user : String)
    → IsAtomic (assign_ticket workspace actor id user)
unfolding assign_ticket
assign_ticket-IsAtomic workspace actor id user = search parts depth 12
