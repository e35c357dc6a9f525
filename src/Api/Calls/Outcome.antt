-- ===== src/Api/Calls/Outcome.antt =====
-- What a failed start of a call leaves, in src/phera/api/routes/calls.py.
use phera.Common.{Option, none, some}
use phera.Models.{Uuid, Call, Ticket}
use phera.Session.Atomic.{IsQuiet, IsAtomic, IsSafe, quiet, safe, atomic}
use phera.Authz.Actor.{Actor}
use phera.Tickets.Inbound.Quiet.{save_ticket-IsQuiet}
use phera.Voice.Quiet.{insert_call-IsQuiet}
use phera.Api.Tickets.Outcome.{assign_time-IsQuiet}
use phera.Api.Contacts.Quiet.{get_contact-IsQuiet}
use phera.Api.Calls.{
  CallCreate, flush_call, taken_by, touch_found, touch_called, queue_started, publish_started,
  start_call,
}

flush_call-IsQuiet : (call : Call) → IsQuiet (flush_call call)
unfolding flush_call
flush_call-IsQuiet call = search (quiet, insert_call-IsQuiet) depth 8

taken_by-IsQuiet : (actor : Actor) (t : Ticket) → IsQuiet (taken_by actor t)
unfolding taken_by
taken_by-IsQuiet actor t = search (quiet, assign_time-IsQuiet) depth 8

touch_found-IsQuiet :
    (workspace : Uuid) (actor : Actor) (found : Option Ticket)
    → IsQuiet (touch_found workspace actor found)
unfolding touch_found
touch_found-IsQuiet workspace actor none = search quiet
touch_found-IsQuiet workspace actor (some t) =
    search (quiet, taken_by-IsQuiet, save_ticket-IsQuiet) depth 12

touch_called-IsQuiet :
    (workspace : Uuid) (actor : Actor) (ticket : Option Uuid)
    → IsQuiet (touch_called workspace actor ticket)
unfolding touch_called
touch_called-IsQuiet workspace actor none = search quiet
touch_called-IsQuiet workspace actor (some id) = search (quiet, touch_found-IsQuiet) depth 8

queue_started-IsQuiet : (call : Call) (contact : Uuid) → IsQuiet (queue_started call contact)
unfolding queue_started
queue_started-IsQuiet call contact = search quiet depth 12

publish_started-IsSafe :
    (workspace : Uuid) (actor : Actor) (ticket : Option Uuid)
    → IsSafe (publish_started workspace actor ticket)
unfolding publish_started
publish_started-IsSafe workspace actor none = search safe
publish_started-IsSafe workspace actor (some t) = search safe

pub start_call-IsAtomic :
    (workspace : Uuid) (actor : Actor) (body : CallCreate)
    → IsAtomic (start_call workspace actor body)
unfolding start_call
start_call-IsAtomic workspace actor body =
    search
      (
        quiet, safe, atomic, get_contact-IsQuiet, flush_call-IsQuiet, touch_called-IsQuiet,
        queue_started-IsQuiet, publish_started-IsSafe,
      )
      depth 20
