-- ===== src/Workflows/Matching/Examples.antt =====
-- The theorems about starting a workflow at a workflow that listens to deals.
use phera.Common.{◌≡◌, refl, ◌↔◌, true, false, none, some, [], ◌∷◌, where_}
use phera.Json.{str}
use phera.Models.{Workflow, WorkflowNode, OutboxEvent, empty_db}
use phera.Session.{Session, new_session, ok, ◌>>=◌}
use phera.Workflows.Matching.{event_matches_trigger, start_workflow_run, is_run_of, new_run}
use phera.Workflows.Matching.Fires.{Fires, event_matches_trigger_iff}
use phera.Workflows.Matching.Once.{start_workflow_run_once}

event_matches_trigger_iff_example :
    (event_matches_trigger "deal.created" (str "deal.*" ∷ []) ≡ true)
    ↔ Fires "deal.created" (str "deal.*" ∷ [])
event_matches_trigger_iff_example = event_matches_trigger_iff "deal.created" (str "deal.*" ∷ [])

abbrev pub wait_step : WorkflowNode
wait_step = record { id = "n2"; kind = some "wait"; type = some "wait"; config = [] }

abbrev pub listening : Workflow
listening = record {
  id = "w1";
  workspace_id = "ws";
  nodes =
      record { id = "n1"; kind = some "trigger"; type = some "event"; config = [] }
      ∷ wait_step
      ∷ [];
  edges = record { source = some "n1"; target = some "n2" } ∷ [];
  version = 1;
  is_active = true;
  is_draft = false;
  event_types = str "deal.*" ∷ [];
}

abbrev pub event : OutboxEvent
event = record {
  id = "e1";
  occurred_at = 0;
  workspace_id = some "ws";
  event_type = "deal.created";
  entity_type = "deal";
  entity_id = "d1";
  idempotency_key = "deal.created:d1";
  payload = ("deal_id", "d1") ∷ [];
  status = "queued";
  attempts = 0;
  last_error = none;
}

abbrev pub start : Session
start = new_session (record empty_db { workflows = listening ∷ [] }) (λ n. "u") (λ n. n)

starts : (start_workflow_run listening event start).0 ≡ ok (some (new_run "u" listening event))
unfolding start_workflow_run where_ ◌>>=◌
starts = refl

start_workflow_run_once_example :
    (where_ (is_run_of listening event) start.db.workflow_runs ≡ [])
    × (where_
          (is_run_of listening event)
          (start_workflow_run listening event start).1.db.workflow_runs
        ≡ new_run "u" listening event ∷ [])
    × (start_workflow_run listening event (start_workflow_run listening event start).1
        ≡ (ok none, (start_workflow_run listening event start).1))
start_workflow_run_once_example =
    start_workflow_run_once listening event (new_run "u" listening event) start starts
