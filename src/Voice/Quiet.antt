-- ===== src/Voice/Quiet.antt =====
-- What other sessions see of the parts of src/phera/api/routes/voice_hooks.py before they commit: nothing.
use phera.Common.{
  String, Bool, true, false, Bool-cases, inl, inr, any, ◌++◌, Option, none, some, Dict, refl,
}
use phera.Json.{Json}
use phera.Models.{
  Uuid, Time, ChannelAccount, Ticket, Call, OutboxEvent, AgentPresence, RoutingPolicy,
}
use phera.Session.{Result, Error}
use phera.Session.Atomic.{IsQuiet, quiet}
use phera.Session.Ensures.{IsStill-IsQuiet}
use phera.Routing.{select_agent_for_voice, assign_now}
use phera.Tickets.Inbound.Quiet.{save_ticket-IsQuiet}
use phera.Voice.Params.{require, resolve_verified_exotel_channel}
use phera.Voice.Still.{require-IsStill, resolve_verified-IsStill}
use phera.Voice.Calls.{
  change_call, insert_call, is_same_call, InboundCall, find_call, raced_call, inserted_or_raced,
  create_call, existing_or_new, get_or_create_inbound_call, has_key, insert_event, add_call_ended,
  unless_queued, enqueue_call_ended,
}
use phera.Voice.Events.{set_on_voice_call}
use phera.Voice.Routes.{first_time, give_to, assign_target}

pub require-IsQuiet : (v : Option String) (e : Error) → IsQuiet (require v e)
require-IsQuiet v e = IsStill-IsQuiet (require v e) (require-IsStill v e)

pub find_call-IsQuiet : (workspace : Uuid) (sid : String) → IsQuiet (find_call workspace sid)
find_call-IsQuiet workspace sid = search quiet depth 8

pub verified-IsQuiet :
    (decrypt : String → Result (Dict Json)) (token to_number : String)
    → IsQuiet (resolve_verified_exotel_channel decrypt token to_number)
verified-IsQuiet decrypt token to_number =
    IsStill-IsQuiet (resolve_verified_exotel_channel decrypt token to_number)
      (resolve_verified-IsStill decrypt token to_number)

pub change_call-IsQuiet : (id : Uuid) (f : Call → Call) → IsQuiet (change_call id f)
unfolding change_call
change_call-IsQuiet id f = search quiet

pub insert_call-IsQuiet : (call : Call) → IsQuiet (insert_call call)
unfolding insert_call
insert_call-IsQuiet call s =
    elim (Bool-cases (any (is_same_call call) (s.db.calls ++ (s.rivals s.inserts).calls))) [
      | inl q ↦ rw q (record { durable = refl; notified = refl; published = refl })
      | inr q ↦ rw q (record { durable = refl; notified = refl; published = refl })
    ]

insert_event-IsQuiet : (e : OutboxEvent) → IsQuiet (insert_event e)
unfolding insert_event
insert_event-IsQuiet e s =
    let rows = s.db.outbox_events ++ (s.rivals s.inserts).outbox_events in
    elim (Bool-cases (any (has_key e.idempotency_key) rows)) [
      | inl q ↦ rw q (record { durable = refl; notified = refl; published = refl })
      | inr q ↦ rw q (record { durable = refl; notified = refl; published = refl })
    ]

raced_call-IsQuiet : (found : Option Call) → IsQuiet (raced_call found)
unfolding raced_call
raced_call-IsQuiet none = search quiet
raced_call-IsQuiet (some c) = search quiet

inserted_or_raced-IsQuiet :
    (c : InboundCall) (call : Call) (done : Bool) → IsQuiet (inserted_or_raced c call done)
unfolding inserted_or_raced
inserted_or_raced-IsQuiet c call true = search quiet
inserted_or_raced-IsQuiet c call false =
    search (quiet, find_call-IsQuiet, raced_call-IsQuiet) depth 8

create_call-IsQuiet : (c : InboundCall) → IsQuiet (create_call c)
unfolding create_call
create_call-IsQuiet c = search (quiet, insert_call-IsQuiet, inserted_or_raced-IsQuiet) depth 12

existing_or_new-IsQuiet :
    (c : InboundCall) (existing : Option Call) → IsQuiet (existing_or_new c existing)
unfolding existing_or_new
existing_or_new-IsQuiet c none = create_call-IsQuiet c
existing_or_new-IsQuiet c (some call) = search (quiet, change_call-IsQuiet) depth 8

pub get_or_create-IsQuiet : (c : InboundCall) → IsQuiet (get_or_create_inbound_call c)
unfolding get_or_create_inbound_call
get_or_create-IsQuiet c = search (quiet, find_call-IsQuiet, existing_or_new-IsQuiet) depth 12

add_call_ended-IsQuiet : (call : Call) → IsQuiet (add_call_ended call)
unfolding add_call_ended
add_call_ended-IsQuiet call = search (quiet, insert_event-IsQuiet) depth 12

unless_queued-IsQuiet :
    (call : Call) (existing : Option OutboxEvent) → IsQuiet (unless_queued call existing)
unfolding unless_queued
unless_queued-IsQuiet call none = add_call_ended-IsQuiet call
unless_queued-IsQuiet call (some e) = search quiet

pub enqueue_call_ended-IsQuiet : (call : Call) → IsQuiet (enqueue_call_ended call)
unfolding enqueue_call_ended
enqueue_call_ended-IsQuiet call = search (quiet, unless_queued-IsQuiet) depth 12

pub set_on_voice_call-IsQuiet :
    (agent : Option String) (busy : Bool) → IsQuiet (set_on_voice_call agent busy)
unfolding set_on_voice_call
set_on_voice_call-IsQuiet none busy = search quiet
set_on_voice_call-IsQuiet (some user) busy = search quiet

assign_now-IsQuiet : (agent : Option AgentPresence) → IsQuiet (assign_now agent)
unfolding assign_now
assign_now-IsQuiet none = search quiet
assign_now-IsQuiet (some a) = search quiet depth 8

select_agent_for_voice-IsQuiet :
    (le : String → String → Bool) (policy : Option RoutingPolicy) (workspace : Uuid)
    → IsQuiet (select_agent_for_voice le policy workspace)
unfolding select_agent_for_voice
select_agent_for_voice-IsQuiet le policy workspace = search (quiet, assign_now-IsQuiet) depth 8

first_time-IsQuiet : (at : Option Time) → IsQuiet (first_time at)
unfolding first_time
first_time-IsQuiet none = search quiet
first_time-IsQuiet (some at) = search quiet

give_to-IsQuiet : (t : Ticket) (agent : Option AgentPresence) → IsQuiet (give_to t agent)
unfolding give_to
give_to-IsQuiet t none = search quiet
give_to-IsQuiet t (some a) = search (quiet, first_time-IsQuiet, save_ticket-IsQuiet) depth 12

pub assign_target-IsQuiet :
    (le : String → String → Bool) (workspace : Uuid) (channel : ChannelAccount) (t : Ticket)
    → IsQuiet (assign_target le workspace channel t)
unfolding assign_target
assign_target-IsQuiet le workspace channel t =
    search (quiet, select_agent_for_voice-IsQuiet, give_to-IsQuiet) depth 12
