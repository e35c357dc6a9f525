-- ===== src/Workflows/Matching.antt =====
-- src/phera/modules/workflows/matching.py, and `match_workflows` and `start_workflow_run` of
-- src/phera/modules/workflows/engine.py.
pub mod Fires
pub mod Once
pub mod Examples
use Prim.Native.String
use phera.Common.{
  String, Bool, true, false, not, ◌&&◌, Option, none, some, List, [], ◌∷◌, ◌++◌, ◌==◌,
  if◌then◌else◌, opt_eq, is_prefix, ends_with, rstrip_char, any, where_, get, Dict, truthy,
}
use phera.Json.{Json, str}
use phera.Models.{Uuid, Workflow, WorkflowRun, OutboxEvent}
use phera.Session.{M, pure, gets, write, uuid4, scalar_one_or_none, ◌>>=◌, ◌>>◌}
use phera.Mutate.{is_nil}

abbrev pub is_event : String → Json → Bool
is_event event_type (str t) = event_type == t
is_event event_type _ = false

abbrev pub fits_star : String → Json → Bool
fits_star event_type (str t) = ends_with b'*' t && is_prefix (rstrip_char b'*' t) event_type
fits_star event_type _ = false

-- The list is `(trigger_filter or {}).get("event_types") or []`.
unfoldable pub event_matches_trigger : String → List Json → Bool
event_matches_trigger event_type types =
    if is_nil types
    then true
    else if any (is_event event_type) types
    then true
    else any (fits_star event_type) types

-- A workspace's workflows that are active and no drafts.
abbrev pub is_live : Option Uuid → Workflow → Bool
is_live workspace w = opt_eq workspace (some w.workspace_id) && (w.is_active && not w.is_draft)

unfoldable pub match_workflows : OutboxEvent → M (List Workflow)
match_workflows event = gets (λ s.
    where_ (λ w. event_matches_trigger event.event_type w.event_types)
      (where_ (is_live event.workspace_id) s.db.workflows))

abbrev pub run_key : Workflow → OutboxEvent → String
run_key workflow event = String.◌++◌ workflow.id (String.◌++◌ ":" event.idempotency_key)

abbrev pub is_run_of : Workflow → OutboxEvent → WorkflowRun → Bool
is_run_of workflow event r =
    r.workflow_id == workflow.id && r.idempotency_key == run_key workflow event

-- `uuid.UUID(payload[key]) if payload.get(key) else None`. The ids of a payload are UUIDs' texts.
abbrev pub payload_id : String → Dict String → Option Uuid
payload_id key payload = if truthy (get key payload) then get key payload else none

abbrev pub new_run : Uuid → Workflow → OutboxEvent → WorkflowRun
new_run id workflow event = record {
  id = id;
  workflow_id = workflow.id;
  version = workflow.version;
  status = "running";
  current_node = some "trigger";
  wake_at = none;
  payload = event.payload;
  idempotency_key = run_key workflow event;
  contact_id = payload_id "contact_id" event.payload;
  deal_id = payload_id "deal_id" event.payload;
}

unfoldable pub start_workflow_run : Workflow → OutboxEvent → M (Option WorkflowRun)
start_workflow_run workflow event = do
  rows ← gets (λ s. where_ (is_run_of workflow event) s.db.workflow_runs)
  existing ← scalar_one_or_none rows
  elim existing [
    | some r ↦ pure none
    | none ↦ do
      id ← uuid4
      write (λ db. record db { workflow_runs = db.workflow_runs ++ new_run id workflow event ∷ [] })
      pure (some (new_run id workflow event))
  ]
