-- ===== src/Worker/Examples.antt =====
-- The theorems about the worker at concrete sessions.
use phera.Common.{◌+◌, ◌*◌, ◌≡◌, refl, true, false, none, some, [], ◌∷◌, where_}
use phera.Models.{OutboxEvent, AuditEvent, empty_db}
use phera.Session.{Session, new_session, ok}
use phera.Worker.Events.{Worker}
use phera.Worker.Rollup.{run_daily_rollup, run_by, is_taken}
use phera.Worker.Counts.{IsRolledUp, run_daily_rollup_once}

abbrev worker : Worker
worker = record {
  queues = "workflow" ∷ "lifecycle" ∷ "maintenance" ∷ [];
  fuel = 100;
  is_uuid = λ s. true;
  is_locked = λ id. false;
}

abbrev event : OutboxEvent
event = record {
  id = "e1";
  occurred_at = 3;
  workspace_id = some "ws";
  event_type = "ticket.created";
  entity_type = "ticket";
  entity_id = "t1";
  idempotency_key = "ticket.created:t1";
  payload = [];
  status = "queued";
  attempts = 5;
  last_error = some "timeout";
}

abbrev audit : AuditEvent
audit = record {
  id = "a1";
  occurred_at = 86400 * 1000000 + 5;
  workspace_id = some "ws";
  actor_type = "user";
  actor_id = some "u1";
  entity_type = "ticket";
  entity_id = "t1";
  action = "created";
  pipeline_id = none;
  stage_from_id = none;
  stage_to_id = none;
  changes = [];
  after = none;
  context = [];
}

abbrev start : Session
start =
    new_session (record empty_db { outbox_events = event ∷ []; audit_events = audit ∷ [] })
      (λ n. "u") (λ n. n)

free : is_taken (run_by 1 "ws" start.db.rollup_runs) ≡ false
unfolding where_
free = refl

run_daily_rollup_once_example :
    ((run_daily_rollup "ws" 1 start).0 ≡ ok tt)
    × IsRolledUp 1 "ws" start (run_daily_rollup "ws" 1 start).1
    × (run_daily_rollup "ws" 1 (run_daily_rollup "ws" 1 start).1
        ≡ (ok tt, (run_daily_rollup "ws" 1 start).1))
run_daily_rollup_once_example = run_daily_rollup_once "ws" 1 start free
