-- ===== src/Workflows/Matching/Once.antt =====
-- One event starts one run of a workflow.
use phera.Common.{
  suc, String, ◌≡◌, refl, true, none, some, List, [], ◌∷◌, ◌++◌, arith, eq_refl, where_,
  where_-append, where_-one,
}
use phera.Models.{Workflow, WorkflowRun, OutboxEvent}
use phera.Session.{Session, ok, ◌>>=◌}
use phera.Workflows.Matching.{start_workflow_run, is_run_of, run_key, new_run}

started_found :
    (w : Workflow) (e : OutboxEvent) (id : String) → is_run_of w e (new_run id w e) ≡ true
started_found w e id = ground (arith, eq_refl w.id, eq_refl (run_key w e))

abbrev added : Workflow → OutboxEvent → Session → Session
added w e s = record s {
  drawn = suc s.drawn;
  db = record s.db { workflow_runs = s.db.workflow_runs ++ new_run (s.uuids s.drawn) w e ∷ [] };
}

starts :
    (w : Workflow) (e : OutboxEvent) (run : WorkflowRun) (s : Session) (rows : List WorkflowRun)
    → where_ (is_run_of w e) s.db.workflow_runs ≡ rows
    → (start_workflow_run w e s).0 ≡ ok (some run)
    → (rows ≡ [])
      × (run ≡ new_run (s.uuids s.drawn) w e)
      × ((start_workflow_run w e s).1 ≡ added w e s)
unfolding start_workflow_run ◌>>=◌
starts w e run s [] q h = (refl, ground arith, rw q)
starts w e run s (r ∷ []) q h = absurd (ground arith)
starts w e run s (r ∷ t ∷ rows) q h = absurd (ground arith)

finds :
    (w : Workflow) (e : OutboxEvent) (run : WorkflowRun) (s : Session)
    → where_ (is_run_of w e) s.db.workflow_runs ≡ run ∷ []
    → start_workflow_run w e s ≡ (ok none, s)
unfolding start_workflow_run ◌>>=◌
finds w e run s q = rw q

-- Where `start_workflow_run` starts a run for an event, the table had none for it and afterwards has
-- exactly this one; a second call for the event starts nothing and changes nothing.
pub start_workflow_run_once :
    (w : Workflow) (e : OutboxEvent) (run : WorkflowRun) (s : Session)
    → (start_workflow_run w e s).0 ≡ ok (some run)
    → (where_ (is_run_of w e) s.db.workflow_runs ≡ [])
      × (where_ (is_run_of w e) (start_workflow_run w e s).1.db.workflow_runs ≡ run ∷ [])
      × (start_workflow_run w e (start_workflow_run w e s).1
          ≡ (ok none, (start_workflow_run w e s).1))
start_workflow_run_once w e run s h =
    let p = is_run_of w e in
    let (none_before, same, after) = starts w e run s (where_ p s.db.workflow_runs) refl h in
    let new = new_run (s.uuids s.drawn) w e in
    let one : where_ p (added w e s).db.workflow_runs ≡ new ∷ [] =
      rw (where_-append, none_before) (where_-one p new (started_found w e (s.uuids s.drawn))) in
    (none_before, rw (after, same) one, rw after (finds w e new (added w e s) one))
