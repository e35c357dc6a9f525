-- ===== src/Mutate/Examples.antt =====
-- The theorems about `mutate` at concrete requests.
use phera.Common.{ℕ, refl, true, none, some, []}
use phera.Models.{Uuid, Time, empty_db}
use phera.Session.{Session, new_session, commit_and_notify, has_unique_keys}
use phera.Mutate.{MutateRequest, Entity, request, mutate}
use phera.Mutate.Records.{Records, mutate-Records}
use phera.Mutate.Steps.{Reach, start, next, mutates, commits, IsTransactional}
use phera.Mutate.Outbox.{Reach-IsTransactional}

abbrev pub uuids : ℕ → Uuid
uuids n = "0b5c"

abbrev pub clock : ℕ → Time
clock n = n

abbrev pub fresh : Session
fresh = new_session empty_db uuids clock

abbrev ticket : Entity
ticket = record { id = "7f3a"; workspace_id = some "ws"; is_ticket = true }

abbrev created : MutateRequest
created = record (request ticket "ticket" "created" [] none) {
  outbox_event_type = some "ticket.created";
  idempotency_key = some "ticket.created:7f3a";
  timeline = true;
  contact_id = some "c1";
}

fresh-IsTransactional : IsTransactional fresh
unfolding has_unique_keys
fresh-IsTransactional = record {
  queued = λ id i. elim i [ ];
  notified_durable = λ id i. elim i [ ];
  outbox_grows = λ id i. i;
  rest = [];
  audit_grows = refl;
  audited = λ e i. elim i [ ];
  audited_durable = λ e i. elim i [ ];
  unique = refl;
}

abbrev two_steps : Reach fresh (commit_and_notify (mutate created fresh).1).1
two_steps = next (next start (mutates created)) commits

mutate-Records_example : Records created fresh (mutate created fresh).1 (mutate created fresh).0
mutate-Records_example = mutate-Records created fresh

Reach-IsTransactional_example : IsTransactional (commit_and_notify (mutate created fresh).1).1
Reach-IsTransactional_example = Reach-IsTransactional fresh-IsTransactional two_steps
