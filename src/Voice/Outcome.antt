-- ===== src/Voice/Outcome.antt =====
-- What a failed callback of src/phera/api/routes/voice_hooks.py leaves.
use phera.Common.{String, ◌==◌, ◌||◌, not, Bool, Option-cases, inl, inr, Option, none, some, Dict}
use phera.Json.{Json}
use phera.Models.{Uuid, Contact, Ticket, Call, AgentTelephonyIdentity}
use phera.Session.{Result}
use phera.Session.Atomic.{
  IsAtomic, quiet, safe, atomic, after-IsAtomic, if-IsAtomic, IsQuiet-IsAtomic, raise-IsQuiet,
  gets-IsQuiet, IsSafe, pure-IsSafe, publish_inbox_event-IsSafe,
}
use phera.Tickets.Inbound.Quiet.{resolve_call_ticket-IsQuiet}
use phera.Voice.Calls.{InboundCall}
use phera.Voice.Events.{publish_call, follow_call, note_call, exotel_call_event}
use phera.Voice.Routes.{
  answer_nobody, ring, ring_identity, ring_target, route_call, exotel_route_call,
}
use phera.Voice.Quiet.{
  require-IsQuiet, find_call-IsQuiet, verified-IsQuiet, change_call-IsQuiet, get_or_create-IsQuiet,
  enqueue_call_ended-IsQuiet, set_on_voice_call-IsQuiet, assign_target-IsQuiet,
}

publish_call-IsSafe :
    (workspace : Uuid) (call : Call) (agent : Option String) (event : String)
    → IsSafe (publish_call workspace call agent event)
unfolding publish_call
publish_call-IsSafe workspace call agent event s = elim (Option-cases call.ticket_id) [
  | inl q ↦ rw q (pure-IsSafe tt s)
  | inr (ticket, q) ↦ rw q (publish_inbox_event-IsSafe _ s)
]

follow_call-IsAtomic :
    (workspace : Uuid) (call : Call) (event : String) → IsAtomic (follow_call workspace call event)
unfolding follow_call
follow_call-IsAtomic workspace call event =
    search
      (
        quiet, safe, atomic, set_on_voice_call-IsQuiet, enqueue_call_ended-IsQuiet,
        publish_call-IsSafe,
      )
      depth 16

note_call-IsAtomic :
    (workspace : Uuid) (params : Dict String) (found : Option Call)
    → IsAtomic (note_call workspace params found)
unfolding note_call
note_call-IsAtomic workspace params none = IsQuiet-IsAtomic _ (raise-IsQuiet _ _)
note_call-IsAtomic workspace params (some call) =
    search (quiet, safe, atomic, change_call-IsQuiet, follow_call-IsAtomic) depth 12

pub exotel_call_event-IsAtomic :
    (decrypt : String → Result (Dict Json)) (params : Dict String) (token : String)
    → IsAtomic (exotel_call_event decrypt params token)
unfolding exotel_call_event
exotel_call_event-IsAtomic decrypt params token = after-IsAtomic _ _ (require-IsQuiet _ _) λ sid.
    after-IsAtomic _ _ (require-IsQuiet _ _) λ to_number.
      after-IsAtomic _ _ (verified-IsQuiet decrypt token to_number) λ (workspace, channel).
        after-IsAtomic _ _ (find_call-IsQuiet workspace.id sid)
          λ found. note_call-IsAtomic workspace.id params found

answer_nobody-IsAtomic : IsAtomic answer_nobody
unfolding answer_nobody
answer_nobody-IsAtomic = search (quiet, safe, atomic) depth 8

ring-IsAtomic :
    (c : InboundCall) (contact : Contact) (t : Ticket) (created : Bool) (i : AgentTelephonyIdentity)
    → IsAtomic (ring c contact t created i)
unfolding ring
ring-IsAtomic c contact t created i = search (quiet, safe, atomic, get_or_create-IsQuiet) depth 12

ring_identity-IsAtomic :
    (c : InboundCall) (contact : Contact) (t : Ticket) (created : Bool)
    (found : Option AgentTelephonyIdentity)
    → IsAtomic (ring_identity c contact t created found)
unfolding ring_identity
ring_identity-IsAtomic c contact t created none = answer_nobody-IsAtomic
ring_identity-IsAtomic c contact t created (some i) =
    if-IsAtomic (not i.is_active || not (i.workspace_id == c.workspace_id)) _ _
      answer_nobody-IsAtomic (ring-IsAtomic c contact t created i)

ring_target-IsAtomic :
    (workspace : Uuid) (contact : Contact) (t : Ticket) (created : Bool)
    (sid from_number to_number : String) (target : Option String)
    → IsAtomic (ring_target workspace contact t created sid from_number to_number target)
unfolding ring_target
ring_target-IsAtomic workspace contact t created sid from_number to_number none =
    answer_nobody-IsAtomic
ring_target-IsAtomic workspace contact t created sid from_number to_number (some user) =
    if-IsAtomic (user == "") _ _ answer_nobody-IsAtomic (
      after-IsAtomic _ _ (gets-IsQuiet _) λ found. ring_identity-IsAtomic _ contact t created found)

pub exotel_route_call-IsAtomic :
    (decrypt : String → Result (Dict Json)) (le : String → String → Bool) (params : Dict String)
    (token : String)
    → IsAtomic (exotel_route_call decrypt le params token)
unfolding exotel_route_call route_call
exotel_route_call-IsAtomic decrypt le params token =
    after-IsAtomic _ _ (require-IsQuiet _ _) λ from_number.
      after-IsAtomic _ _ (require-IsQuiet _ _) λ to_number.
        after-IsAtomic _ _ (require-IsQuiet _ _) λ sid.
          after-IsAtomic _ _ (verified-IsQuiet decrypt token to_number) λ (workspace, channel).
            after-IsAtomic _ _ (resolve_call_ticket-IsQuiet workspace.id "exotel" from_number _)
              λ (_, contact, ticket, created).
                after-IsAtomic _ _ (assign_target-IsQuiet le workspace.id channel ticket) λ t.
                  ring_target-IsAtomic workspace.id contact t created sid from_number to_number _
