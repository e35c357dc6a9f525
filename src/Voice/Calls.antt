-- ===== src/Voice/Calls.antt =====
-- `_get_or_create_inbound_call` and `_enqueue_call_ended` of src/phera/api/routes/voice_hooks.py: one
-- row for each call of the provider's, and one outbox event for its end.
use Prim.Native.String
use phera.Common.{
  String, Bool, true, false, ◌&&◌, Option, none, some, [], ◌∷◌, ◌++◌, ◌==◌, if◌then◌else◌, opt_eq,
  truthy, any, where_, update_rows,
}
use phera.Common.{suc}
use phera.Models.{Uuid, Time, Call, OutboxEvent}
use phera.Session.{
  M, pure, raise, gets, write, uuid4, now, scalar_one_or_none, track_outbox_notify, ◌>>=◌, ◌>>◌,
  integrity_error, ok,
}

-- `Call.provider_call_id == call_sid`, among the workspace's calls of Exotel.
abbrev pub is_exotel_call : Uuid → String → Call → Bool
is_exotel_call workspace call_sid c =
    c.workspace_id == workspace
    && (c.provider == "exotel" && opt_eq c.provider_call_id (some call_sid))

-- What is written through a call object: the columns that change, in the row of its id.
unfoldable pub change_call : Uuid → (Call → Call) → M Unit
change_call id change =
    write (λ db. record db { calls = update_rows (λ c. c.id == id) change db.calls })

-- `uq_calls_workspace_provider_call_id`: a missing provider id is never equal to another.
abbrev pub is_same_call : Call → Call → Bool
is_same_call a b =
    a.workspace_id == b.workspace_id
    && (a.provider == b.provider && elim a.provider_call_id [
      | none ↦ false
      | some sid ↦ opt_eq b.provider_call_id (some sid)
    ])

-- `session.add(call); session.flush()` in a savepoint, which the unique constraint may undo.
unfoldable pub insert_call : Call → M Bool
insert_call call s =
    let rows = s.db.calls ++ (s.rivals s.inserts).calls in
    if any (is_same_call call) rows
    then (ok false, record s { db = record s.db { calls = rows }; inserts = suc s.inserts })
    else (
      ok true,
      record s { db = record s.db { calls = rows ++ call ∷ [] }; inserts = suc s.inserts },
    )

-- The arguments of `_get_or_create_inbound_call`.
pub record InboundCall : Type 0 where
  pub workspace_id : Uuid
  pub contact_id : Uuid
  pub ticket_id : Uuid
  pub agent_user_id : String
  pub call_sid : String
  pub from_number : String
  pub to_number : String

abbrev pub new_call : Uuid → InboundCall → Time → Call
new_call id c at = record {
  id = id;
  workspace_id = c.workspace_id;
  contact_id = some c.contact_id;
  ticket_id = some c.ticket_id;
  agent_user_id = some c.agent_user_id;
  provider = "exotel";
  provider_call_id = some c.call_sid;
  direction = "inbound";
  from_number = some c.from_number;
  to_number = some c.to_number;
  duration_seconds = none;
  recording_url = none;
  status = "routing";
  created_at = at;
}

-- `if not existing.agent_user_id: existing.agent_user_id = agent_user_id`
unfoldable pub with_agent : String → Call → Call
with_agent agent existing =
    if truthy existing.agent_user_id
    then existing
    else record existing { agent_user_id = some agent }

abbrev pub find_call : Uuid → String → M (Option Call)
find_call workspace call_sid =
    gets (λ s. where_ (is_exotel_call workspace call_sid) s.db.calls) >>= scalar_one_or_none

-- The row of the session that came first, if it is this workspace's.
unfoldable pub raced_call : Option Call → M Call
raced_call none = raise integrity_error
raced_call (some c) = pure c

-- The new row, or that of the session that came first.
unfoldable pub inserted_or_raced : InboundCall → Call → Bool → M Call
inserted_or_raced c call true = pure call
inserted_or_raced c call false = do raced ← find_call c.workspace_id c.call_sid; raced_call raced

unfoldable pub create_call : InboundCall → M Call
create_call c = do
  id ← uuid4
  at ← gets (λ s. s.db_now)
  done ← insert_call (new_call id c at)
  inserted_or_raced c (new_call id c at) done

unfoldable pub existing_or_new : InboundCall → Option Call → M Call
existing_or_new c none = create_call c
existing_or_new c (some existing) = do
  change_call existing.id (with_agent c.agent_user_id)
  pure (with_agent c.agent_user_id existing)

unfoldable pub get_or_create_inbound_call : InboundCall → M Call
get_or_create_inbound_call c = do
  existing ← find_call c.workspace_id c.call_sid
  existing_or_new c existing

unfoldable pub ended_key : Call → String
ended_key call = String.◌++◌ "call.ended:" call.id

abbrev pub has_key : String → OutboxEvent → Bool
has_key key e = e.idempotency_key == key

abbrev pub call_ended : Uuid → Time → Call → OutboxEvent
call_ended id at call = record {
  id = id;
  occurred_at = at;
  workspace_id = some call.workspace_id;
  event_type = "call.ended";
  entity_type = "call";
  entity_id = call.id;
  idempotency_key = ended_key call;
  payload = ("call_id", call.id) ∷ [];
  status = "pending";
  attempts = 0;
  last_error = none;
}

-- The savepoint of the event's insert.
unfoldable pub insert_event : OutboxEvent → M Bool
insert_event e s =
    let rows = s.db.outbox_events ++ (s.rivals s.inserts).outbox_events in
    if any (has_key e.idempotency_key) rows
    then (ok false, record s { db = record s.db { outbox_events = rows }; inserts = suc s.inserts })
    else (
      ok true,
      record s { db = record s.db { outbox_events = rows ++ e ∷ [] }; inserts = suc s.inserts },
    )

unfoldable pub add_call_ended : Call → M Unit
add_call_ended call = do
  id ← uuid4
  at ← now
  done ← insert_event (call_ended id at call)
  if done then track_outbox_notify id else pure tt

unfoldable pub unless_queued : Call → Option OutboxEvent → M Unit
unless_queued call none = add_call_ended call
unless_queued call (some e) = pure tt

unfoldable pub enqueue_call_ended : Call → M Unit
enqueue_call_ended call = do
  rows ← gets (λ s. where_ (has_key (ended_key call)) s.db.outbox_events)
  existing ← scalar_one_or_none rows
  unless_queued call existing
