-- ===== src/Api/Tickets/Again.antt =====
-- Requests whose idempotency key the outbox has already.
use Prim.Native.String
use text.Mathlib.TextLemmas.{cons-append}
use phera.Common.{
  String, ◌≡◌, refl, ◌∙◌, suc, true, some, arith, eq_iff, inl, inr, truthy, In, Option-cases,
}
use phera.Common.Text.{cons-ne-empty}
use phera.Models.{Uuid, Time, Ticket, OutboxEvent}
use phera.Session.{M, Session, ok, err, ◌>>=◌, ◌>>◌, commit_and_notify, now, pure, integrity_error}
use phera.Authz.Actor.{Actor}
use phera.Mutate.{mutate}
use phera.Mutate.Taken.{mutate-commit-taken}
use phera.Tickets.Joining.{find_ticket, save_ticket}
use phera.Api.Tickets.{
  own, own_ticket, assign_ticket, assign_time, assigned, assigned_request, with_two, refresh,
}

pub own_ticket_found :
    (workspace id : Uuid) (t : Ticket) (s : Session)
    → find_ticket id s.db.tickets ≡ some t
    → t.workspace_id ≡ workspace
    → own_ticket workspace id s ≡ (ok t, s)
unfolding own_ticket own ◌>>=◌
own_ticket_found workspace id t s found same = ground (arith, eq_iff t.workspace_id workspace)

key_truthy : (rest : String) → truthy (some (String.◌++◌ "ticket.assigned" rest)) ≡ true
key_truthy rest = rw (cons-append, cons-ne-empty)

-- What follows the lookup and the clock.
abbrev finish_assign : Actor → Ticket → String → Time → M Ticket
finish_assign actor t user at =
    save_ticket (assigned user at t)
    >> (mutate (assigned_request actor (assigned user at t) t.assignee_user_id user)
        >> (commit_and_notify >> refresh (assigned user at t)))

finish_again :
    (actor : Actor) (t : Ticket) (user : String) (at : Time) (e : OutboxEvent) (s : Session)
    → In e s.db.outbox_events
    → e.idempotency_key ≡ with_two "ticket.assigned" t.id user
    → ((finish_assign actor t user at s).0 ≡ err integrity_error)
      × ((finish_assign actor t user at s).1.durable ≡ s.durable)
      × ((finish_assign actor t user at s).1.notified ≡ s.notified)
unfolding save_ticket ◌>>=◌
finish_again actor t user at e s i k =
    let x = assigned user at t in
    let req = assigned_request actor x t.assignee_user_id user in
    mutate-commit-taken req (refresh x) (save_ticket x s).1 e refl (key_truthy _) i k

-- The clock may be read before the assignment.
pub assign_time-ok :
    (t : Ticket) (s : Session)
    → (at : Time) × (s' : Session) × (assign_time t s ≡ (ok at, s'))
      × (s'.db ≡ s.db)
      × (s'.durable ≡ s.durable)
      × (s'.notified ≡ s.notified)
unfolding assign_time now pure
assign_time-ok t s = elim (Option-cases t.first_assigned_at) [
  | inl q ↦ (s.clock s.ticks, record s { ticks = suc s.ticks }, rw q refl, refl, refl, refl)
  | inr (at, q) ↦ (at, s, rw q refl, refl, refl, refl)
]

-- A ticket that was assigned to somebody cannot be assigned to them again later: the outbox has the
-- key of the first assignment, whether or not somebody else had the ticket since, so that the commit
-- fails, and nothing is committed and nobody is notified.
pub assign_ticket_again :
    (workspace : Uuid) (actor : Actor) (id : Uuid) (user : String) (t : Ticket) (e : OutboxEvent)
    (s : Session)
    → find_ticket id s.db.tickets ≡ some t
    → t.workspace_id ≡ workspace
    → In e s.db.outbox_events
    → e.idempotency_key ≡ with_two "ticket.assigned" t.id user
    → ((assign_ticket workspace actor id user s).0 ≡ err integrity_error)
      × ((assign_ticket workspace actor id user s).1.durable ≡ s.durable)
      × ((assign_ticket workspace actor id user s).1.notified ≡ s.notified)
unfolding assign_ticket ◌>>=◌
assign_ticket_again workspace actor id user t e s found same i k =
    let o = own_ticket_found workspace id t s found same in
    let (at, s', a, same_db, same_durable, same_notified) = assign_time-ok t s in
    let (q, d, n) = finish_again actor t user at e s' (rw same_db i) k in
    rw (o, a) (q, d ∙ same_durable, n ∙ same_notified)
