-- ===== src/Voice/Events.antt =====
-- `exotel_call_event` of src/phera/api/routes/voice_hooks.py: what a call's lifecycle callback does.
use phera.Common.{
  String, Bool, ◌&&◌, ◌||◌, Option, none, some, [], ◌∷◌, ◌==◌, truthy, or_else, lower, update_rows,
  Dict, get,
}
use phera.Json.{Json, str}
use phera.Models.{Uuid, Call, Ticket, Db}
use phera.Session.{
  M, Result, pure, raise, gets, write, ◌>>=◌, ◌>>◌, when, commit_and_notify, publish_inbox_event,
  http,
}
use phera.Tickets.Coerce.{int_of}
use phera.Tickets.Joining.{find_ticket, who_text}
use phera.Voice.Params.{first_of, require, resolve_verified_exotel_channel, lifecycle_event_type}
use phera.Voice.Calls.{find_call, change_call, enqueue_call_ended}

abbrev pub sid_of : Dict String → Option String
sid_of params = first_of (get "CallSid" params ∷ get "CallSID" params ∷ get "call_sid" params ∷ [])

abbrev pub to_of : Dict String → Option String
to_of params = first_of (get "To" params ∷ get "CallTo" params ∷ get "to" params ∷ [])

abbrev pub from_of : Dict String → Option String
from_of params = first_of (get "From" params ∷ get "CallFrom" params ∷ get "from" params ∷ [])

abbrev pub status_of : Dict String → Option String
status_of params =
    first_of (get "CallStatus" params ∷ get "DialCallStatus" params ∷ get "Status" params ∷ [])

abbrev pub duration_of : Dict String → Option String
duration_of params =
    first_of
      (get "DialCallDuration" params ∷ get "Duration" params ∷ get "CallDuration" params ∷ [])

abbrev pub recording_of : Dict String → Option String
recording_of params = first_of (get "RecordingUrl" params ∷ get "RecordingURL" params ∷ [])

abbrev pub with_call_status : Option String → Call → Call
with_call_status none call = call
with_call_status (some status) call = record call { status = lower status }

-- A duration that is no number is left out.
abbrev pub with_duration : Option String → Call → Call
with_duration none call = call
with_duration (some duration) call = elim (int_of (str duration)) [
  | none ↦ call
  | some seconds ↦ record call { duration_seconds = some seconds }
]

abbrev pub with_recording : Option String → Call → Call
with_recording none call = call
with_recording (some url) call = record call { recording_url = some url }

unfoldable pub noted : Dict String → Call → Call
noted params call =
    with_recording (recording_of params)
      (with_duration (duration_of params) (with_call_status (status_of params) call))

abbrev pub ticket_of_call : Call → Db → Option Ticket
ticket_of_call call db = elim call.ticket_id [ none ↦ none | some id ↦ find_ticket id db.tickets ]

abbrev pub assignee_of : Option Ticket → Option String
assignee_of none = none
assignee_of (some t) = t.assignee_user_id

-- `call.agent_user_id or (ticket.assignee_user_id if ticket else None)`
unfoldable pub agent_of_call : Call → Db → Option String
agent_of_call call db = or_else call.agent_user_id (assignee_of (ticket_of_call call db))

-- An agent without a presence has no row to write.
unfoldable pub set_on_voice_call : Option String → Bool → M Unit
set_on_voice_call none busy = pure tt
set_on_voice_call (some user) busy = write (λ db. record db {
  agent_presence =
      update_rows (λ a. a.user_id == user) (λ a. record a { on_voice_call = busy })
        db.agent_presence;
})

abbrev pub call_event : Uuid → Call → Uuid → Option String → String → Dict String
call_event workspace call ticket agent event =
    ("type", event)
    ∷ ("workspace_id", workspace)
    ∷ ("ticket_id", ticket)
    ∷ ("call_id", call.id)
    ∷ ("provider_call_id", who_text call.provider_call_id)
    ∷ ("assignee_user_id", who_text agent)
    ∷ ("status", call.status)
    ∷ []

unfoldable pub publish_call : Uuid → Call → Option String → String → M Unit
publish_call workspace call agent event = elim call.ticket_id [
  | none ↦ pure tt
  | some ticket ↦ publish_inbox_event (call_event workspace call ticket agent event)
]

-- What follows the columns of the call.
unfoldable pub follow_call : Uuid → Call → String → M Unit
follow_call workspace call event = do
  agent ← gets (λ s. agent_of_call call s.db)
  when (truthy agent && (event == "call.answered" || event == "call.ended"))
      (set_on_voice_call agent (event == "call.answered"))
  when (event == "call.ended" && truthy call.recording_url) (enqueue_call_ended call)
  commit_and_notify
  publish_call workspace call agent event

-- The answer `{"received": True, "call_id": …, "event": …}`.
unfoldable pub note_call : Uuid → Dict String → Option Call → M (Uuid × String)
note_call workspace params none =
    raise (http 404 "Unknown call_sid — was the routing webhook called first?")
note_call workspace params (some call) = do
  let event = lifecycle_event_type (status_of params)
  change_call call.id (noted params)
  follow_call workspace (noted params call) event
  pure (call.id, event)

unfoldable pub exotel_call_event :
    (String → Result (Dict Json)) → Dict String → String → M (Uuid × String)
exotel_call_event decrypt_secrets params token = do
  call_sid ← require (sid_of params) (http 400 "Missing CallSid in call-event webhook payload")
  to_number ← require (to_of params) (http 401 "Invalid webhook token")
  (workspace, channel) ← resolve_verified_exotel_channel decrypt_secrets token to_number
  call ← find_call workspace.id call_sid
  note_call workspace.id params call
