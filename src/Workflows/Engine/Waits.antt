-- ===== src/Workflows/Engine/Waits.antt =====
-- What becomes of a run that waits.
use phera.Common.{ℕ, suc, String, ◌≡◌, true, some, arith, get}
use phera.Models.{Workflow, WorkflowNode, WorkflowRun, Time}
use phera.Session.{Session, ok, ◌>>=◌}
use phera.Workflows.Engine.{find_workflow, walk, continue_run, start_node, next_node, go_on}
use phera.Workflows.Nodes.{
  find_node, execute_node, run_node, wait_node, is_type, waiting, save_run, wake_time,
}

-- A run that `continue_run` takes up at a wait node, as it does when the wait is over, waits again:
-- it stays at this node with the status "waiting", and the audit log and the deals are as they were.
-- One round of the loop is enough. The workflow has the node, and its hours are a number that Python
-- accepts.
pub continue_run_waits :
    (fuel : ℕ) (run : WorkflowRun) (w : Workflow) (node : WorkflowNode) (id : String) (wake : Time)
    (s : Session)
    → find_workflow run.workflow_id s.db.workflows ≡ some w
    → start_node run w ≡ some id
    → find_node id w.nodes ≡ some node
    → is_type "wait" node ≡ true
    → wake_time s.hours (s.clock (suc s.ticks)) (get "hours" node.config) ≡ some wake
    → ((continue_run (suc fuel) run s).0 ≡ ok (some (waiting run id wake)))
      × ((continue_run (suc fuel) run s).1.db.deals ≡ s.db.deals)
      × ((continue_run (suc fuel) run s).1.db.audit_events ≡ s.db.audit_events)
unfolding continue_run walk go_on next_node execute_node run_node wait_node save_run ◌>>=◌
continue_run_waits fuel run w node id wake s found start here waits wakes =
    (ground arith, ground arith, ground arith)
