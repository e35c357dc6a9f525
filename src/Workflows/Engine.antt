-- ===== src/Workflows/Engine.antt =====
-- The walk of a workflow's graph: `continue_run` of
-- src/phera/modules/workflows/engine.py, and `process_delayed_wakes` of src/phera/worker/runner.py.
pub mod Waits
pub mod Ends
mod Examples
use Prim.Native.String
use phera.Common.{
  ℕ, zero, suc, String, Bool, false, ◌&&◌, ◌||◌, Option, none, some, List, [], ◌∷◌, ◌==◌,
  if◌then◌else◌, opt_eq, where_, truthy, first, leb, take, length,
}
use phera.Models.{Uuid, Time, Workflow, WorkflowNode, WorkflowRun}
use phera.Session.{M, pure, gets, now, ◌>>=◌, ◌>>◌}
use phera.Mutate.{or_blank}
use phera.Workflows.Nodes.{save_run, execute_node}

-- `if result == "delayed": break` and `if not result: break`.
unfoldable pub next_node : Option String → Option String
next_node none = none
next_node (some id) = if id == "delayed" || id == "" then none else some id

-- `run.current_node = node_id` and the next round, if there is one.
unfoldable pub go_on :
    (WorkflowRun → String → M (Option WorkflowRun))
    → WorkflowRun
    → Option String
    → M (Option WorkflowRun)
go_on round run none = pure (some run)
go_on round run (some id) = do
  save_run (record run { current_node = some id })
  round (record run { current_node = some id }) id

-- The loop; `none` when the fuel is spent.
unfoldable pub walk : ℕ → WorkflowRun → Workflow → String → M (Option WorkflowRun)
walk zero run workflow node_id = pure none
walk (suc fuel) run workflow node_id = do
  (run, result) ← execute_node run workflow node_id
  go_on (λ r id. walk fuel r workflow id) run (next_node result)

unfoldable pub find_workflow : Uuid → List Workflow → Option Workflow
find_workflow id [] = none
find_workflow id (w ∷ ws) = if w.id == id then some w else find_workflow id ws

abbrev pub is_trigger : WorkflowNode → Bool
is_trigger node = opt_eq node.kind (some "trigger")

abbrev first_id : Option WorkflowNode → Option String
first_id none = none
first_id (some n) = if n.id == "" then none else some n.id

-- The node to begin with; `none` where the loop is not entered.
unfoldable pub start_node : WorkflowRun → Workflow → Option String
start_node run workflow =
    let id = if truthy run.current_node then or_blank run.current_node else "trigger" in
    if id == "trigger" then first_id (first (where_ is_trigger workflow.nodes)) else some id

unfoldable pub continue_run : ℕ → WorkflowRun → M (Option WorkflowRun)
continue_run fuel run = do
  workflow ← gets (λ s. find_workflow run.workflow_id s.db.workflows)
  elim workflow [
    | none ↦ pure (some run)
    | some w ↦ elim (start_node run w) [ none ↦ pure (some run) | some id ↦ walk fuel run w id ]
  ]

abbrev past : Time → Option Time → Bool
past at none = false
past at (some t) = leb t at

abbrev pub is_due : Time → WorkflowRun → Bool
is_due at r = r.status == "waiting" && past at r.wake_at

unfoldable pub wake_each : ℕ → List WorkflowRun → M (Option Unit)
wake_each fuel [] = pure (some tt)
wake_each fuel (r ∷ rs) = do
  save_run (record r { status = "running" })
  done ← continue_run fuel (record r { status = "running" })
  elim done [ none ↦ pure none | some run ↦ wake_each fuel rs ]

-- At most 20 of the runs that are due; the query has no order.
unfoldable pub process_delayed_wakes : ℕ → M (Option ℕ)
process_delayed_wakes fuel = do
  at ← now
  runs ← gets (λ s. take 20 (where_ (is_due at) s.db.workflow_runs))
  done ← wake_each fuel runs
  elim done [ none ↦ pure none | some u ↦ pure (some (length runs)) ]
