-- ===== src/Workflows/Engine/Examples.antt =====
-- The theorems about runs at a workflow of a trigger and a wait.
use phera.Common.{
  ℕ, ◌+◌, String, ◌≡◌, ◌≢◌, refl, sym, ap, ◌∙◌, inl, inr, some, none, arith, get, if◌then◌else◌,
  ◌==◌,
}
use phera.Models.{WorkflowRun, WorkflowEdge}
use phera.Session.{ok}
use phera.Workflows.Engine.{walk, find_workflow, start_node}
use phera.Workflows.Nodes.{waiting, hour, find_node, wake_time}
use phera.Workflows.Engine.Ends.{IsRanked, walk_ends}
use phera.Workflows.Matching.{new_run}
use phera.Workflows.Matching.Examples.{listening, wait_step, event, start}

abbrev run : WorkflowRun
run = new_run "u" listening event

abbrev slept : WorkflowRun
slept = waiting run "n2" 5

finds_workflow : find_workflow "w1" start.db.workflows ≡ some listening
unfolding find_workflow
finds_workflow = refl

starts : start_node slept listening ≡ some "n2"
unfolding start_node
starts = refl

finds_node : find_node "n2" listening.nodes ≡ some wait_step
unfolding find_node
finds_node = refl

wakes : wake_time start.hours 1 (get "hours" wait_step.config) ≡ some (1 + hour)
unfolding wake_time get
wakes = refl

abbrev rank : String → ℕ
rank id = if id == "n1" then 1 else 0

ranked : IsRanked rank listening.edges
ranked e a b (inl same) from to =
    let p : some a ≡ some "n1" = sym from ∙ ap (λ (x : WorkflowEdge). x.source) same in
    let q : some b ≡ some "n2" = sym to ∙ ap (λ (x : WorkflowEdge). x.target) same in
    let a_is : a ≡ "n1" = ground (arith, p) in
    let b_is : b ≡ "n2" = ground (arith, q) in rw (a_is, b_is) (omega arith)
ranked e a b (inr i) from to = elim i [ ]

walk_ends_example : (walk 2 run listening "n1" start).0 ≢ ok none
walk_ends_example = walk_ends rank listening ranked 2 run "n1" start (omega arith)
