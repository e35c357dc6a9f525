-- ===== src/Voice/Noted.antt =====
-- What `exotel_call_event` of src/phera/api/routes/voice_hooks.py leaves when it answers.
use phera.Common.{String, ◌≡◌, ◌≢◌, true, Option, some, [], ◌∷◌, ◌==◌, ◌&&◌, truthy, Dict, where_}
use phera.Json.{Json}
use phera.Models.{Uuid, Call}
use phera.Session.{M, Session, when}
use phera.Session.Ensures.{Ensures}
use phera.Session.Keeps.{Keeps}
use phera.Voice.Params.{lifecycle_event_type}
use phera.Voice.Once.{IsOnly}
use phera.Voice.Calls.{is_exotel_call, enqueue_call_ended, ended_key}
use phera.Voice.Ended.{IsQueued}
use phera.Voice.Told.{Busy, IsTold}
use phera.Voice.Events.{sid_of, status_of, noted, agent_of_call}

-- What follows the columns of the call, once it is committed.
record Followed (call : Call) (event : String) (before after : Session) : Type 0 where
  calls : after.durable.calls ≡ before.db.calls
  presence :
      (user : String)
      → agent_of_call call before.db ≡ some user
      → user ≢ ""
      → IsTold event
      → Busy user (event == "call.answered") after.durable.agent_presence
  ended :
      event ≡ "call.ended"
      → truthy call.recording_url ≡ true
      → IsQueued (ended_key call) after.durable.outbox_events

-- The event is queued, where the call has ended and was recorded.
abbrev queue : Call → String → M Unit
queue call event =
    when (event == "call.ended" && truthy call.recording_url) (enqueue_call_ended call)

-- What the callback of a call's lifecycle did: the call it is about, with the columns that it changed,
-- and what follows them.
pub record Noted (params : Dict String) (before : Session) (answer : Uuid × String)
    (after : Session) : Type 0 where
  pub workspace : Uuid
  pub sid : String
  pub call : Call
  pub named : sid_of params ≡ some sid
  pub known : IsOnly workspace sid call before
  pub answered : answer ≡ (call.id, lifecycle_event_type (status_of params))
  pub saved : where_ (is_exotel_call workspace sid) after.durable.calls ≡ noted params call ∷ []
  pub presence :
      (user : String)
      → agent_of_call (noted params call) before.db ≡ some user
      → user ≢ ""
      → IsTold answer.1
      → Busy user (answer.1 == "call.answered") after.durable.agent_presence
  pub ended :
      answer.1 ≡ "call.ended"
      → truthy (noted params call).recording_url ≡ true
      → IsQueued (ended_key call) after.durable.outbox_events

-- Whose call a row is.
abbrev identity : Call → Uuid × Uuid × String × Option String
identity c = (c.id, c.workspace_id, c.provider, c.provider_call_id)
