-- ===== src/Workflows/Engine/Ends.antt =====
-- The walk of a graph without cycles ends.
use phera.Common.{
  ℕ, zero, suc, ◌<◌, String, ◌≡◌, ◌≢◌, sym, ap, ◌∙◌, ◌⊎◌, inl, inr, Option, none, some, List, [],
  ◌∷◌, ◌++◌, arith, eq_iff, In, where_, where_-In, first, Option-cases, Bool-cases,
}
use phera.Authz.Rules.{opt_eq_iff}
use phera.Models.{Workflow, WorkflowNode, WorkflowEdge, WorkflowRun, WorkflowNodeRun}
use phera.Session.{Session, Result, ok, err, ◌>>=◌, Result-cases}
use phera.Workflows.Engine.{walk, next_node, go_on}
use phera.Workflows.Nodes.{
  find_node, execute_node, run_node, wait_node, act_node, act, finish, fail, follow, leaves,
  is_type, save_run, new_node_run,
}

-- Every edge leads to a node of a smaller rank.
abbrev pub IsRanked : (String → ℕ) → List WorkflowEdge → Type 0
IsRanked rank edges =
    (e : WorkflowEdge) (a b : String)
    → In e edges
    → e.source ≡ some a
    → e.target ≡ some b
    → rank b < rank a

next_node-some :
    (result : Option String) (b : String)
    → next_node result ≡ some b
    → (result ≡ some b) × (b ≢ "delayed")
unfolding next_node
next_node-some none b h = absurd (ground arith)
next_node-some (some id) b h = (ground arith, λ e. ground (arith, eq_iff id "delayed", e))

module _ (rank : String → ℕ) (w : Workflow) (ranked : IsRanked rank w.edges) where
  first-In : (e : WorkflowEdge) (es : List WorkflowEdge) → first es ≡ some e → In e es
  first-In e [] h = absurd (ground arith)
  first-In e (f ∷ es) h = ground arith

  follow_descends :
      (run run' : WorkflowRun) (a b : String) (s : Session)
      → (follow run w a s).0 ≡ ok (run', some b)
      → rank b < rank a
  unfolding follow ◌>>=◌
  follow_descends run run' a b s h = elim (Option-cases (first (where_ (leaves a) w.edges))) [
    | inl q ↦ absurd (ground arith)
    | inr (e, q) ↦
        let (i, l) = where_-In (leaves a) e w.edges (first-In e (where_ (leaves a) w.edges) q) in
        ranked e a b i ((opt_eq_iff e.source (some a)).0 l) (ground arith)
  ]

  finish_descends :
      (run run' : WorkflowRun) (nr : WorkflowNodeRun) (a b : String) (r : Result (Option String))
      (s : Session)
      → (finish run w nr a r s).0 ≡ ok (run', some b)
      → rank b < rank a
  unfolding finish fail save_run ◌>>=◌
  finish_descends run run' nr a b (err e) s h = absurd (ground arith)
  finish_descends run run' nr a b (ok sent) s h = follow_descends run run' a b _ h

  wait_delayed :
      (run run' : WorkflowRun) (n : WorkflowNode) (nr : WorkflowNodeRun) (a b : String)
      (s : Session)
      → (wait_node run n nr a s).0 ≡ ok (run', some b)
      → b ≡ "delayed"
  unfolding wait_node fail save_run ◌>>=◌
  wait_delayed run run' n nr a b s h = ground arith

  run_node_descends :
      (run run' : WorkflowRun) (n : WorkflowNode) (nr : WorkflowNodeRun) (a b : String)
      (s : Session)
      → (run_node run w n nr a s).0 ≡ ok (run', some b)
      → (b ≡ "delayed") ⊎ (rank b < rank a)
  unfolding run_node act_node
  run_node_descends run run' n nr a b s h = elim (Bool-cases (is_type "wait" n)) [
    | inl q ↦ inl (wait_delayed run run' n nr a b s (ground arith))
    | inr q ↦ let (r, t) = act run n s in inr (finish_descends run run' nr a b r t (ground arith))
  ]

  execute_node_descends :
      (run run' : WorkflowRun) (a b : String) (s : Session)
      → (execute_node run w a s).0 ≡ ok (run', some b)
      → (b ≡ "delayed") ⊎ (rank b < rank a)
  unfolding execute_node save_run ◌>>=◌
  execute_node_descends run run' a b s h = elim (Option-cases (find_node a w.nodes)) [
    | inl q ↦ absurd (ground arith)
    | inr (n, q) ↦
        let nr = new_node_run (s.uuids s.drawn) run a (s.clock s.ticks) in
        let t = record s {
          drawn = suc s.drawn;
          ticks = suc s.ticks;
          db = record s.db { workflow_node_runs = s.db.workflow_node_runs ++ nr ∷ [] };
        } in
        run_node_descends run run' n nr a b t (ground arith)
  ]

  abbrev at_node : WorkflowRun → String → WorkflowRun
  at_node run b = record run { current_node = some b }

  walk_step :
      (fuel : ℕ) (run run' : WorkflowRun) (a b : String) (result : Option String) (s : Session)
      → (execute_node run w a s).0 ≡ ok (run', result)
      → next_node result ≡ some b
      → walk (suc fuel) run w a s
        ≡ walk fuel (at_node run' b) w b (save_run (at_node run' b) (execute_node run w a s).1).1
  unfolding walk go_on save_run ◌>>=◌
  walk_step fuel run run' a b result s q k = rw (q, k)

  -- In a workflow whose edges all lead to nodes of a smaller rank, a walk with more fuel than the rank
  -- of the node it begins with does not run out of it, whatever its nodes do: it returns or raises.
  pub walk_ends :
      (fuel : ℕ) (run : WorkflowRun) (a : String) (s : Session)
      → rank a < fuel
      → (walk fuel run w a s).0 ≢ ok none
  unfolding walk go_on save_run ◌>>=◌
  walk_ends zero run a s less h = absurd (omega arith)
  walk_ends (suc fuel) run a s less h =
      let (r, t) = execute_node run w a s in
      elim (Result-cases r) [
        | inr (e, q) ↦ absurd (ground arith)
        | inl ((run', result), q) ↦ elim (Option-cases (next_node result)) [
          | inl k ↦ absurd (ground arith)
          | inr (b, k) ↦
              let (p, d) = next_node-some result b k in
              let down : rank b < rank a =
                elim (execute_node_descends run run' a b s (ground arith)) [
                  | inl z ↦ absurd (d z)
                  | inr z ↦ z
                ] in
              let next = at_node run' b in
              walk_ends fuel next b (save_run next t).1 (omega (arith, down, less))
                (ap (λ x. x.0) (sym (walk_step fuel run run' a b result s q k)) ∙ h)
        ]
      ]
