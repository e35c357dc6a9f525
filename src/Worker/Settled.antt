-- ===== src/Worker/Settled.antt =====
-- The states of an outbox event that `process_outbox_event` of src/phera/worker/runner.py leaves.
use phera.Common.{suc, ◌≤◌, ◌≡◌, ◌⊎◌, true, [], ◌∷◌, ◌==◌, elem, eqb}
use phera.Models.{OutboxEvent}
use phera.Session.{Session}
use phera.Worker.Events.{Worker}

-- An event is given up after its sixth failure and not before.
pub record IsCounted (e : OutboxEvent) : Type 0 where
  pub bounded : e.attempts ≤ 6
  pub dead_at_six : (e.status == "dead") ≡ eqb e.attempts 6

-- What became of the event `e`.
pub record IsSettled (e new : OutboxEvent) : Type 0 where
  pub counted : IsCounted new
  pub status : elem new.status ("processed" ∷ "pending" ∷ "dead" ∷ []) ≡ true
  pub key : new.idempotency_key ≡ e.idempotency_key
  pub attempts : (new.attempts ≡ e.attempts) ⊎ (new.attempts ≡ suc e.attempts)
