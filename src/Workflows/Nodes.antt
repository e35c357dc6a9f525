-- ===== src/Workflows/Nodes.antt =====
-- `execute_node` of src/phera/modules/workflows/engine.py: what one node of a graph does.
use Prim.Native.String
use phera.Common.{
  ℕ, zero, suc, ◌+◌, ◌-◌, ◌*◌, String, Bool, true, false, not, Option, none, some, List, [], ◌∷◌,
  ◌++◌, ◌==◌, if◌then◌else◌, opt_eq, is_prefix, contains, split_on, split_once, where_, update_rows,
  get, put, first, leb,
}
use phera.Json.{Json, null, bool, int, float, str, arr, obj, pos, negsuc, nil, end}
use phera.Models.{
  Uuid, Time, Deal, Workflow, WorkflowNode, WorkflowEdge, WorkflowRun, WorkflowNodeRun,
}
use phera.Session.{
  Session, Result, ok, err, Error, type_error, M, pure, raise, gets, write, uuid4, now, ◌>>=◌, ◌>>◌,
}
use phera.Authz.Actor.{typed_actor}
use phera.Mutate.{mutate, request, MutateRequest}

-- `{n["id"]: n for n in nodes}.get(node_id)`: the last node with the id.
unfoldable pub find_node : String → List WorkflowNode → Option WorkflowNode
find_node id [] = none
find_node id (n ∷ ns) = elim (find_node id ns) [
  | some m ↦ some m
  | none ↦ if n.id == id then some n else none
]

unfoldable pub save_run : WorkflowRun → M Unit
save_run run = write (λ db. record db {
  workflow_runs = update_rows (λ r. r.id == run.id) (λ _. run) db.workflow_runs;
})

abbrev pub save_node_run : WorkflowNodeRun → M Unit
save_node_run node_run = write (λ db. record db {
  workflow_node_runs = update_rows (λ r. r.id == node_run.id) (λ _. node_run) db.workflow_node_runs;
})

abbrev pub is_type : String → WorkflowNode → Bool
is_type name node = opt_eq node.type (some name)

-- Python's text of a value in an f-string, and of a value that the audit log keeps.
abbrev pub text : (Json → String) → Json → String
text repr (str s) = s
text repr j = repr j

abbrev pub value_text : (Json → String) → Option Json → Option String
value_text repr none = none
value_text repr (some null) = none
value_text repr (some j) = some (text repr j)

-- `value or None`
abbrev pub or_none : Option Json → Json
or_none none = null
or_none (some (bool b)) = if b then bool b else null
or_none (some (int (pos zero))) = null
or_none (some (float sign zero false)) = null
or_none (some (str s)) = if s == "" then null else str s
or_none (some (arr nil)) = null
or_none (some (obj end)) = null
or_none (some j) = j

-- `None` in an f-string.
abbrev pub to_text : (Json → String) → Json → String
to_text repr null = "None"
to_text repr j = text repr j

-- `at + timedelta(hours=hours)`, an hour by default; `none` where Python raises. No time is before
-- the epoch, where the subtraction stops, and none is after the year 9999.
abbrev pub hour : ℕ
hour = 3_600_000_000

abbrev pub max_time : Time
max_time = 253_402_300_799_999_999

abbrev pub in_range : Time → Option Time
in_range t = if leb t max_time then some t else none

unfoldable pub wake_time : (Json → ℕ) → Time → Option Json → Option Time
wake_time hours at none = in_range (at + hour)
wake_time hours at (some (int (pos n))) = in_range (at + n * hour)
wake_time hours at (some (int (negsuc n))) = some (at - suc n * hour)
wake_time hours at (some (bool b)) = in_range (if b then at + hour else at)
wake_time hours at (some (float true n fraction)) = some (at - hours (float true n fraction))
wake_time hours at (some (float false n fraction)) = in_range (at + hours (float false n fraction))
wake_time hours at (some j) = none

-- `StubMessagingProvider().send(to, …)`. A run's context holds its trigger's event and type, so that
-- `run.context.get("phone")` is `None`.
unfoldable pub send_node : WorkflowNode → M (Option String)
send_node node =
    gets (λ s. some (String.◌++◌ "stub-msg-" (to_text s.repr (or_none (get "to" node.config)))))

unfoldable pub find_deal : Uuid → List Deal → Option Deal
find_deal id [] = none
find_deal id (d ∷ ds) = if d.id == id then some d else find_deal id ds

abbrev pub last_part : List String → String
last_part [] = ""
last_part (s ∷ []) = s
last_part (s ∷ t ∷ ts) = last_part (t ∷ ts)

-- `field.split(".")[-1]`
abbrev pub field_name : String → String
field_name field = last_part (split_on b'.' field)

-- What the change has as the old value.
abbrev pub old_value : Session → Deal → String → Option String
old_value s deal field =
    if not (contains "." field)
    then s.attribute deal (field_name field)
    else value_text s.repr (get (field_name field) deal.custom_fields)

-- `field.split(".", 1)[1]`
abbrev pub after_dot : String → String
after_dot field = elim (split_once b'.' field) [ none ↦ "" | some (a, b) ↦ b ]

abbrev pub json_or_null : Option Json → Json
json_or_null none = null
json_or_null (some j) = j

-- What the node writes to the deal.
unfoldable pub updated_deal : String → Json → Deal → Deal
updated_deal field value deal =
    if is_prefix "custom_fields." field
    then record deal { custom_fields = put (after_dot field) value deal.custom_fields }
    else deal

abbrev pub update_request :
    WorkflowRun → Deal → String → Option String → Option String → MutateRequest
update_request run deal field old value =
    record (request
      (record { id = deal.id; workspace_id = some deal.workspace_id; is_ticket = false }) "deal"
      "updated" (record { field = field; from_value = old; to_value = value } ∷ [])
      (some (typed_actor "workflow" (some run.id)))) {
        context = ("workflow_run_id", run.id) ∷ [];
        deal_id = some deal.id;
        contact_id = some deal.contact_id;
      }

unfoldable pub update_deal : WorkflowRun → Deal → String → Json → M (Option String)
update_deal run deal field value = do
  old ← gets (λ s. old_value s deal field)
  write (λ db. record db {
    deals = update_rows (λ d. d.id == deal.id) (λ _. updated_deal field value deal) db.deals;
  })
  new ← gets (λ s. value_text s.repr (some value))
  mutate (update_request run deal field old new)
  pure none

-- A field that is no text raises.
unfoldable pub update_field_node : WorkflowRun → WorkflowNode → M (Option String)
update_field_node run node = elim run.deal_id [
  | none ↦ pure none
  | some id ↦ do
    deal ← gets (λ s. find_deal id s.db.deals)
    elim deal [
      | none ↦ pure none
      | some d ↦ elim (get "field" node.config) [
        | some (str field) ↦ update_deal run d field (json_or_null (get "value" node.config))
        | some j ↦ raise type_error
        | none ↦ raise type_error
      ]
    ]
]

-- The provider's message id, if the node sends. A destination's provider only logs, and the other
-- types of node do nothing.
unfoldable pub act : WorkflowRun → WorkflowNode → M (Option String)
act run node =
    if is_type "send" node
    then send_node node
    else if is_type "update_field" node
    then update_field_node run node
    else pure none

abbrev pub new_node_run : Uuid → WorkflowRun → String → Time → WorkflowNodeRun
new_node_run id run node_id at = record {
  id = id;
  workflow_run_id = run.id;
  node_id = node_id;
  status = "running";
  provider_message_id = none;
  error = none;
  started_at = some at;
  finished_at = none;
}

-- `except Exception`
unfoldable pub fail : {A : Type 0} → WorkflowRun → WorkflowNodeRun → Error → M A
fail run node_run e = do
  error ← gets (λ s. s.error_text e)
  save_node_run (record node_run { status = "failed"; error = some error })
  save_run (record run { status = "failed" })
  raise e

abbrev pub waiting : WorkflowRun → String → Time → WorkflowRun
waiting run node_id wake = record run {
  wake_at = some wake;
  current_node = some node_id;
  status = "waiting";
}

unfoldable pub wait_node :
    WorkflowRun → WorkflowNode → WorkflowNodeRun → String → M (WorkflowRun × Option String)
wait_node run node node_run node_id = do
  at ← now
  wake ← gets (λ s. wake_time s.hours at (get "hours" node.config))
  elim wake [
    | none ↦ fail run node_run type_error
    | some t ↦ do
      finished ← now
      save_run (waiting run node_id t)
      save_node_run (record node_run { status = "waiting"; finished_at = some finished })
      pure (waiting run node_id t, some "delayed")
  ]

abbrev pub leaves : String → WorkflowEdge → Bool
leaves node_id e = opt_eq e.source (some node_id)

unfoldable pub follow : WorkflowRun → Workflow → String → M (WorkflowRun × Option String)
follow run workflow node_id = elim (first (where_ (leaves node_id) workflow.edges)) [
  | none ↦ do
    save_run (record run { status = "completed" })
    pure (record run { status = "completed" }, none)
  | some e ↦ pure (run, e.target)
]

-- A result of `act` with the state that it leaves; an error is recorded and raised again.
unfoldable pub finish :
    WorkflowRun
    → Workflow
    → WorkflowNodeRun
    → String
    → Result (Option String)
    → M (WorkflowRun × Option String)
finish run workflow node_run node_id (err e) = fail run node_run e
finish run workflow node_run node_id (ok sent) = do
  at ← now
  save_node_run
      (record node_run { provider_message_id = sent; status = "completed"; finished_at = some at })
  follow run workflow node_id

unfoldable pub act_node :
    WorkflowRun
    → Workflow
    → WorkflowNode
    → WorkflowNodeRun
    → String
    → M (WorkflowRun × Option String)
act_node run workflow node node_run node_id s =
    let (r, t) = act run node s in finish run workflow node_run node_id r t

unfoldable pub run_node :
    WorkflowRun
    → Workflow
    → WorkflowNode
    → WorkflowNodeRun
    → String
    → M (WorkflowRun × Option String)
run_node run workflow node node_run node_id =
    if is_type "wait" node
    then wait_node run node node_run node_id
    else act_node run workflow node node_run node_id

-- The run as it is then, and the id of the node to go to, or "delayed".
unfoldable pub execute_node : WorkflowRun → Workflow → String → M (WorkflowRun × Option String)
execute_node run workflow node_id = elim (find_node node_id workflow.nodes) [
  | none ↦ do
    save_run (record run { status = "completed" })
    pure (record run { status = "completed" }, none)
  | some node ↦ do
    id ← uuid4
    at ← now
    write (λ db. record db {
      workflow_node_runs = db.workflow_node_runs ++ new_node_run id run node_id at ∷ [];
    })
    run_node run workflow node (new_node_run id run node_id at) node_id
]
