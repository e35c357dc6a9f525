-- ===== src/Worker/Events.antt =====
-- `process_outbox_event`, `dispatch_outbox_batch` and `process_lifecycle` of src/phera/worker/runner.py.
-- Metrics are left out.
use phera.Common.{
  ℕ, suc, String, Bool, true, false, not, ◌&&◌, Option, none, some, List, [], ◌∷◌, ◌==◌,
  if◌then◌else◌, opt_eq, elem, where_, update_rows, first, take, get, any, leb, sort, map,
  is_prefix, rstrip_char, ends_with,
}
use phera.Json.{Json, str}
use phera.Models.{Uuid, OutboxEvent, LifecycleDestination, Workflow}
use phera.Session.{
  M, Result, ok, err, value_error, attribute_error, pure, raise, gets, write, ◌>>=◌, ◌>>◌, when,
}
use phera.Mutate.{is_nil}
use phera.Workflows.Matching.{match_workflows, start_workflow_run, is_event}
use phera.Workflows.Engine.{continue_run}
use phera.Worker.Transcription.{transcribe_call}

-- The worker's queues, a bound for each walk of a workflow, what Python's `uuid.UUID` accepts, and the
-- rows that other workers have locked.
pub record Worker : Type 0 where
  pub queues : List String
  pub fuel : ℕ
  pub is_uuid : String → Bool
  pub is_locked : Uuid → Bool

-- `none` is a walk that ran out of its bound.
abbrev pub Done : Type 0
Done = Option Unit

-- `t.rstrip("*")` and `t.endswith("*")` of a value that is no text raise.
abbrev pub or_rest : Bool → Result Bool → Result Bool
or_rest true rest = ok true
or_rest false rest = rest

unfoldable pub any_star : String → List Json → Result Bool
any_star event_type [] = ok false
any_star event_type (str t ∷ ts) =
    or_rest (ends_with b'*' t && is_prefix (rstrip_char b'*' t) event_type) (any_star event_type ts)
any_star event_type (t ∷ ts) = err attribute_error

-- Whether the destination is told of the event.
unfoldable pub is_wanted : String → List Json → Result Bool
is_wanted event_type types =
    if is_nil types
    then ok true
    else if any (is_event event_type) types
    then ok true
    else any_star event_type types

abbrev pub is_destination : Option Uuid → LifecycleDestination → Bool
is_destination workspace d = opt_eq workspace (some d.workspace_id) && d.is_active

-- The provider's `track` writes a line to the log.
unfoldable pub track_each : String → List LifecycleDestination → M Unit
track_each event_type [] = pure tt
track_each event_type (d ∷ ds) = elim (is_wanted event_type d.event_types) [
  | err e ↦ raise e
  | ok wanted ↦ track_each event_type ds
]

unfoldable pub process_lifecycle : OutboxEvent → M Unit
process_lifecycle event = do
  dests ← gets (λ s. where_ (is_destination event.workspace_id) s.db.lifecycle_destinations)
  track_each event.event_type dests

unfoldable pub run_each : Worker → OutboxEvent → List Workflow → M Done
run_each w event [] = pure (some tt)
run_each w event (wf ∷ wfs) = do
  run ← start_workflow_run wf event
  elim run [
    | none ↦ run_each w event wfs
    | some r ↦ do
      done ← continue_run w.fuel r
      elim done [ none ↦ pure none | some r ↦ run_each w event wfs ]
  ]

unfoldable pub run_workflows : Worker → OutboxEvent → M Done
run_workflows w event =
    if not (elem "workflow" w.queues)
    then pure (some tt)
    else do wfs ← match_workflows event; run_each w event wfs

unfoldable pub transcribe_event : Worker → OutboxEvent → M Unit
transcribe_event w event = elim (get "call_id" event.payload) [
  | none ↦ pure tt
  | some id ↦
      if id == ""
      then pure tt
      else if w.is_uuid id
      then transcribe_call id >> pure tt
      else raise (value_error "badly formed hexadecimal UUID string")
]

abbrev pub is_call_end : OutboxEvent → Bool
is_call_end e = e.event_type == "call.ended"

abbrev pub is_deferred : Worker → OutboxEvent → Bool
is_deferred w e = is_call_end e && not (elem "maintenance" w.queues)

unfoldable pub after_workflows : Worker → OutboxEvent → Done → M Done
after_workflows w event none = pure none
after_workflows w event (some u) = do
  when (elem "lifecycle" w.queues) (process_lifecycle event)
  when (is_call_end event && elem "maintenance" w.queues) (transcribe_event w event)
  pure (some tt)

-- The body of the `try`.
unfoldable pub handle : Worker → OutboxEvent → M Done
handle w event = do done ← run_workflows w event; after_workflows w event done

-- What is written through the event's object.
unfoldable pub save_event : OutboxEvent → M Unit
save_event event = write (λ db. record db {
  outbox_events = update_rows (λ e. e.id == event.id) (λ _. event) db.outbox_events;
})

abbrev pub processed : OutboxEvent → OutboxEvent
processed e = record e { status = "processed" }

abbrev pub failed : String → OutboxEvent → OutboxEvent
failed detail e = record e {
  status = if leb 5 e.attempts then "dead" else "pending";
  attempts = suc e.attempts;
  last_error = some detail;
}

unfoldable pub settle : OutboxEvent → Result Done → M Done
settle event (ok none) = pure none
settle event (ok (some u)) = save_event (processed event) >> pure (some tt)
settle event (err e) = do
  detail ← gets (λ s. s.error_text e)
  save_event (failed detail event)
  pure (some tt)

-- `try … except Exception`: what the body did before it raised stays in the session.
unfoldable pub attempt : {A : Type 0} → M A → M (Result A)
attempt m s = let (r, s') = m s in (ok r, s')

-- `session.get(OutboxEvent, id)`
abbrev pub event_by : Uuid → List OutboxEvent → Option OutboxEvent
event_by id rows = first (where_ (λ e. e.id == id) rows)

unfoldable pub process_found : Worker → Option OutboxEvent → M Done
process_found w none = pure (some tt)
process_found w (some event) =
    if is_deferred w event
    then save_event (record event { status = "pending" }) >> pure (some tt)
    else do r ← attempt (handle w event); settle event r

unfoldable pub process_outbox_event : Worker → Uuid → M Done
process_outbox_event w id = do
  event ← gets (λ s. event_by id s.db.outbox_events)
  process_found w event

abbrev pub by_occurrence : OutboxEvent → OutboxEvent → Bool
by_occurrence d e = leb d.occurred_at e.occurred_at

-- `FOR UPDATE SKIP LOCKED`
abbrev pub is_pending : Worker → OutboxEvent → Bool
is_pending w e = e.status == "pending" && not (w.is_locked e.id)

unfoldable pub pending_ids : Worker → ℕ → List OutboxEvent → List Uuid
pending_ids w limit rows =
    take limit (map (λ e. e.id) (sort by_occurrence (where_ (is_pending w) rows)))

-- The loop; the number is `claimed` so far.
unfoldable pub dispatch_each : Worker → ℕ → List Uuid → M (Option ℕ)
dispatch_each w claimed [] = pure (some claimed)
dispatch_each w claimed (id ∷ ids) = do
  event ← gets (λ s. event_by id s.db.outbox_events)
  elim event [
    | none ↦ dispatch_each w claimed ids
    | some e ↦ if is_deferred w e then dispatch_each w claimed ids else do
      save_event (record e { status = "queued" })
      done ← process_outbox_event w id
      elim done [ none ↦ pure none | some u ↦ dispatch_each w (suc claimed) ids ]
  ]

unfoldable pub dispatch_outbox_batch : Worker → ℕ → M (Option ℕ)
dispatch_outbox_batch w limit = do
  ids ← gets (λ s. pending_ids w limit s.db.outbox_events)
  dispatch_each w 0 ids
