-- ===== src/Worker/Rollup.antt =====
-- `run_daily_rollup` and the rounds of `run_worker_loop` of src/phera/worker/runner.py.
use phera.Common.{
  ℕ, suc, ◌+◌, ◌-◌, ◌*◌, ◌/◌, String, Bool, true, false, ◌&&◌, ◌||◌, Option, none, some, List, [],
  ◌∷◌, ◌++◌, ◌==◌, if◌then◌else◌, opt_eq, elem, where_, update_rows, first, length, leb, ltb, eqb,
  Dict, get, put,
}
use phera.Models.{
  Uuid, Time, AuditEvent, Deal, MetricDaily, AgingSnapshotDaily, RollupRun, Workspace,
}
use phera.Session.{M, ok, err, pure, gets, write, now, ◌>>=◌, ◌>>◌, when, commit, rollback}
use phera.Workflows.Engine.{process_delayed_wakes}
use phera.Worker.Events.{Worker, Done, attempt, dispatch_outbox_batch}

-- The microseconds of a day.
abbrev pub day_length : ℕ
day_length = 86400 * 1000000

abbrev pub is_run : ℕ → Uuid → RollupRun → Bool
is_run day workspace r = eqb r.day day && r.workspace_id == workspace

-- `session.get(RollupRun, (day, workspace_id))`
abbrev pub run_by : ℕ → Uuid → List RollupRun → Option RollupRun
run_by day workspace rows = first (where_ (is_run day workspace) rows)

abbrev is_unset : Option Time → Bool
is_unset none = true
is_unset (some t) = false

-- The run is done, or another worker is at it.
abbrev pub is_taken : Option RollupRun → Bool
is_taken none = false
is_taken (some r) = r.status == "completed" || r.status == "running" && is_unset r.finished_at

abbrev pub is_on_day : ℕ → Uuid → AuditEvent → Bool
is_on_day day workspace e =
    opt_eq e.workspace_id (some workspace)
    && (leb (day * day_length) e.occurred_at && ltb e.occurred_at (day * day_length + day_length))

abbrev pub no_metrics : Dict ℕ
no_metrics = ("created", 0) ∷ ("stage_changed", 0) ∷ ("assigned", 0) ∷ []

-- `if ev.action in metrics: metrics[ev.action] += 1`
abbrev pub add_one : String → Option ℕ → Dict ℕ → Dict ℕ
add_one action none metrics = metrics
add_one action (some n) metrics = put action (suc n) metrics

unfoldable pub tally : List AuditEvent → Dict ℕ → Dict ℕ
tally [] metrics = metrics
tally (e ∷ es) metrics = tally es (add_one e.action (get e.action metrics) metrics)

abbrev pub is_open_deal : Uuid → Deal → Bool
is_open_deal workspace d = d.workspace_id == workspace && d.status == "open"

abbrev pub metric_row : ℕ → Uuid → Dict ℕ → MetricDaily
metric_row day workspace metrics = record {
  date = day;
  workspace_id = workspace;
  grain_hash = "workspace";
  metrics = metrics;
}

-- `int((now - (then or now)).total_seconds())`, for a time that is not in the future.
abbrev pub seconds_since : Option Time → Time → ℕ
seconds_since none at = 0
seconds_since (some t) at = (at - t) / 1000000

abbrev pub aging_row : ℕ → Uuid → Time → Time → Deal → AgingSnapshotDaily
aging_row day workspace at later deal = record {
  date = day;
  workspace_id = workspace;
  entity_type = "deal";
  entity_id = deal.id;
  pipeline_id = some deal.pipeline_id;
  stage_id = some deal.stage_id;
  owner_user_id = deal.owner_user_id;
  age_seconds = seconds_since (some deal.created_at) at;
  stage_age_seconds = seconds_since deal.stage_entered_at later;
  stage_entered_at = deal.stage_entered_at;
}

-- A snapshot for each open deal; the clock is read twice for each, and once more for a missing time,
-- which makes no difference of a second.
unfoldable pub add_aging : ℕ → Uuid → List Deal → M Unit
add_aging day workspace [] = pure tt
add_aging day workspace (d ∷ ds) = do
  at ← now
  later ← now
  write (λ db. record db {
    aging_snapshots = db.aging_snapshots ++ aging_row day workspace at later d ∷ [];
  })
  add_aging day workspace ds

abbrev pub started_run : ℕ → Uuid → Time → RollupRun
started_run day workspace at = record {
  day = day;
  workspace_id = workspace;
  started_at = some at;
  finished_at = none;
  rows_in = 0;
  rows_out = 0;
  status = "running";
}

-- A new row, or the fields of the one that is there.
abbrev pub start_rows : Option RollupRun → RollupRun → List RollupRun → List RollupRun
start_rows none run rows = rows ++ run ∷ []
start_rows (some r) run rows = update_rows (is_run run.day run.workspace_id) (λ _. run) rows

unfoldable pub save_rollup : RollupRun → M Unit
save_rollup run = write (λ db. record db {
  rollup_runs = update_rows (is_run run.day run.workspace_id) (λ _. run) db.rollup_runs;
})

abbrev pub completed : RollupRun → ℕ → ℕ → Time → RollupRun
completed run rows_in rows_out at = record run {
  rows_in = rows_in;
  rows_out = rows_out;
  finished_at = some at;
  status = "completed";
}

unfoldable pub roll_up : ℕ → Uuid → Option RollupRun → M Unit
roll_up day workspace existing = do
  at ← now
  let run = started_run day workspace at
  write (λ db. record db { rollup_runs = start_rows existing run db.rollup_runs })
  events ← gets (λ s. where_ (is_on_day day workspace) s.db.audit_events)
  write (λ db. record db {
    metrics_daily = db.metrics_daily ++ metric_row day workspace (tally events no_metrics) ∷ [];
  })
  deals ← gets (λ s. where_ (is_open_deal workspace) s.db.deals)
  add_aging day workspace deals
  finished ← now
  save_rollup (completed run (length events) (suc (length deals)) finished)

unfoldable pub run_daily_rollup : Uuid → ℕ → M Unit
run_daily_rollup workspace day = do
  existing ← gets (λ s. run_by day workspace s.db.rollup_runs)
  if is_taken existing then pure tt else roll_up day workspace existing

-- `select(Workspace).limit(1)`
unfoldable pub roll_up_first : Option Workspace → ℕ → M Unit
roll_up_first none today = pure tt
roll_up_first (some ws) today = run_daily_rollup ws.id today

abbrev pub has_events : List String → Bool
has_events queues = elem "workflow" queues || (elem "lifecycle" queues || elem "maintenance" queues)

unfoldable pub dispatch_if : Worker → M Done
dispatch_if w =
    if has_events w.queues
    then dispatch_outbox_batch w 50
      >>= (λ done. elim done [ none ↦ pure none | some n ↦ pure (some tt) ])
    else pure (some tt)

unfoldable pub wake_if : Worker → Done → M Done
wake_if w none = pure none
wake_if w (some u) =
    if elem "delayed" w.queues
    then process_delayed_wakes w.fuel
      >>= (λ done. elim done [ none ↦ pure none | some n ↦ pure (some tt) ])
    else pure (some tt)

unfoldable pub poll_each : (Workspace → M Unit) → List Workspace → M Unit
poll_each poll [] = pure tt
poll_each poll (ws ∷ rest) = poll ws >> poll_each poll rest

-- The body of a round's `try`. Polling the mailboxes of a workspace is the parameter `poll`.
unfoldable pub round_body : Worker → ℕ → (Workspace → M Unit) → M Done
round_body w today poll = do
  ws ← gets (λ s. first s.db.workspaces)
  when (elem "maintenance" w.queues) (roll_up_first ws today)
  done ← dispatch_if w
  done ← wake_if w done
  when (elem "email_poll" w.queues) do all ← gets (λ s. s.db.workspaces); poll_each poll all
  commit
  pure done

-- A round: an exception is logged, and the session that is left takes back what was not committed.
unfoldable pub worker_round : Worker → ℕ → (Workspace → M Unit) → M Done
worker_round w today poll = do
  r ← attempt (round_body w today poll)
  elim r [ ok done ↦ pure done | err e ↦ rollback >> pure (some tt) ]
