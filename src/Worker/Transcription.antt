-- ===== src/Worker/Transcription.antt =====
-- `transcribe_call` of src/phera/modules/transcription/job.py. The provider is the stub of
-- src/phera/modules/connectors/stubs.py, whose text is empty.
use phera.Common.{
  Bool, false, not, Option, none, some, List, [], ◌∷◌, ◌++◌, ◌==◌, if◌then◌else◌, truthy, where_,
  update_rows, first,
}
use phera.Models.{Uuid, Time, Call, Transcript, Interaction}
use phera.Session.{M, pure, gets, write, uuid4, now, scalar_one_or_none, ◌>>=◌, ◌>>◌}

-- `session.get(Call, call_id)`
abbrev pub call_by : Uuid → List Call → Option Call
call_by id rows = first (where_ (λ c. c.id == id) rows)

abbrev pub has_recording : Option Call → Bool
has_recording none = false
has_recording (some c) = truthy c.recording_url

abbrev pub is_of_call : Uuid → Transcript → Bool
is_of_call id t = t.call_id == id

abbrev pub new_transcript : Uuid → Call → Transcript
new_transcript id call = record { id = id; call_id = call.id; text = some ""; status = "completed" }

abbrev pub transcript_interaction : Uuid → Uuid → Time → Call → Interaction
transcript_interaction id contact at call = record {
  id = id;
  workspace_id = some call.workspace_id;
  contact_id = contact;
  deal_id = none;
  ticket_id = call.ticket_id;
  type = "call_transcript";
  direction = none;
  body = some "";
  occurred_at = at;
  actor_type = "system";
  actor_id = none;
}

abbrev set_completed : Uuid → List Call → List Call
set_completed id calls =
    update_rows (λ c. c.id == id) (λ c. record c { status = "completed" }) calls

-- The column `interactions.contact_id` takes no null: then neither row is inserted, and the existing
-- transcript, of which there is none, is returned.
unfoldable pub add_transcript : Call → Transcript → Uuid → Time → M (Option Transcript)
add_transcript call t id at = elim call.contact_id [
  | none ↦ pure none
  | some contact ↦ do
    write (λ db. record db {
      transcripts = db.transcripts ++ t ∷ [];
      interactions = db.interactions ++ transcript_interaction id contact at call ∷ [];
      calls = set_completed call.id db.calls;
    })
    pure (some t)
]

unfoldable pub new_or_existing : Call → Option Transcript → M (Option Transcript)
new_or_existing call (some t) = pure (some t)
new_or_existing call none = do
  tid ← uuid4
  id ← uuid4
  at ← now
  add_transcript call (new_transcript tid call) id at

unfoldable pub transcribe_found : Option Call → M (Option Transcript)
transcribe_found none = pure none
transcribe_found (some call) = if not (truthy call.recording_url) then pure none else do
  rows ← gets (λ s. where_ (is_of_call call.id) s.db.transcripts)
  existing ← scalar_one_or_none rows
  new_or_existing call existing

unfoldable pub transcribe_call : Uuid → M (Option Transcript)
transcribe_call id = do call ← gets (λ s. call_by id s.db.calls); transcribe_found call
