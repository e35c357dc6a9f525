-- ===== src/Api/Runs.antt =====
-- Requests of src/phera/api/routes as steps on the outbox: calls (calls.py), tickets (tickets.py,
-- inbox.py) and deals (contacts.py).
use phera.Common.{String, suc, refl, inl, inr, Option, none, some, [], ◌∷◌, ◌++◌, any, Bool-cases}
use phera.Models.{Uuid, Time, Ticket, Deal, Stage, Call, Contact}
use phera.Session.{
  M, Session, integrity_error, pure, now, gets, write, uuid4, track_outbox_notify, ◌>>=◌,
}
use phera.Authz.Actor.{Actor}
use phera.Tickets.Joining.{save_ticket}
use phera.Mutate.Steps.{start, next, aside, edits, announces, IsTransactional}
use phera.Mutate.Outbox.{Reach-IsTransactional}
use phera.Mutate.Runs.{
  IsRun, runs, pure-IsRun, raise-IsRun, gets-IsRun, now-IsRun, write-IsRun, bind-IsRun, if-IsRun,
}
use phera.Voice.Calls.{insert_call, is_same_call}
use phera.Api.Enrichment.{TicketDetail, ticket_detail, channel_for_ticket}
use phera.Api.Tickets.{
  own, own_ticket, refresh, TicketUpdate, apply_update, update_ticket, assign_ticket, assign_time,
}
use phera.Api.Inbox.{claim_ticket, take_ticket, claim_time}
use phera.Api.Contacts.{get_contact, own_contact}
use phera.Api.Calls.{
  CallCreate, flush_call, taken_by, touch_found, touch_called, queue_started, publish_started,
  start_call, call_started,
}
use phera.Api.Deals.{
  DealCreate, create_deal, insert_deal, own_deal, own_deal_row, save_deal, check_stage,
  move_deal_stage, assign_deal,
}

own-IsRun : (workspace : Uuid) (found : Option Ticket) → IsRun (own workspace found)
unfolding own
own-IsRun workspace none = search runs
own-IsRun workspace (some t) = search runs

own_ticket-IsRun : (workspace id : Uuid) → IsRun (own_ticket workspace id)
unfolding own_ticket
own_ticket-IsRun workspace id = search (runs, own-IsRun)

assign_time-IsRun : (t : Ticket) → IsRun (assign_time t)
unfolding assign_time
assign_time-IsRun t =
    elim t.first_assigned_at as (λ o. IsRun (elim o [ none ↦ now | some at ↦ pure at ])) [
      | none ↦ now-IsRun
      | some at ↦ pure-IsRun at
    ]

claim_time-IsRun : (t : Ticket) → IsRun (claim_time t)
unfolding claim_time
claim_time-IsRun t =
    elim t.first_assigned_at as (λ o. IsRun (elim o [ none ↦ now | some at ↦ pure at ])) [
      | none ↦ now-IsRun
      | some at ↦ pure-IsRun at
    ]

save_ticket-IsRun : (t : Ticket) → IsRun (save_ticket t)
unfolding save_ticket
save_ticket-IsRun t =
    bind-IsRun (gets (λ s. s.db_now)) _ (search runs)
      (λ time. write-IsRun _ (λ db. refl) (λ db. refl))

refresh-IsRun : (t : Ticket) → IsRun (refresh t)
unfolding refresh
refresh-IsRun t = search runs

ticket_detail-IsRun : (t : Ticket) → IsRun (ticket_detail t)
unfolding ticket_detail channel_for_ticket
ticket_detail-IsRun t = search runs depth 8

apply_update-IsRun :
    (actor : Actor) (body : TicketUpdate) (at : Time) (t : Ticket)
    → IsRun (apply_update actor body at t)
unfolding apply_update
apply_update-IsRun actor body at t = search (runs, save_ticket-IsRun)

ruleset ticket_runs = (
  runs, own_ticket-IsRun, assign_time-IsRun, claim_time-IsRun, save_ticket-IsRun, refresh-IsRun,
  ticket_detail-IsRun, apply_update-IsRun,
)

update_ticket-IsRun :
    (workspace : Uuid) (actor : Actor) (id : Uuid) (body : TicketUpdate)
    → IsRun (update_ticket workspace actor id body)
unfolding update_ticket
update_ticket-IsRun workspace actor id body = search ticket_runs depth 12

assign_ticket-IsRun :
    (workspace : Uuid) (actor : Actor) (id : Uuid) (user : String)
    → IsRun (assign_ticket workspace actor id user)
unfolding assign_ticket
assign_ticket-IsRun workspace actor id user = search ticket_runs depth 12

claim_ticket-IsRun :
    (workspace : Uuid) (actor : Actor) (id : Uuid) → IsRun (claim_ticket workspace actor id)
unfolding claim_ticket take_ticket
claim_ticket-IsRun workspace actor id = search ticket_runs depth 16

own_deal_row-IsRun : (workspace : Uuid) (found : Option Deal) → IsRun (own_deal_row workspace found)
unfolding own_deal_row
own_deal_row-IsRun workspace none = search runs
own_deal_row-IsRun workspace (some d) = search runs

own_deal-IsRun : (workspace id : Uuid) → IsRun (own_deal workspace id)
unfolding own_deal
own_deal-IsRun workspace id = search (runs, own_deal_row-IsRun)

save_deal-IsRun : (d : Deal) → IsRun (save_deal d)
unfolding save_deal
save_deal-IsRun d = write-IsRun _ (λ db. refl) (λ db. refl)

insert_deal-IsRun : (d : Deal) → IsRun (insert_deal d)
unfolding insert_deal
insert_deal-IsRun d = bind-IsRun (gets _) _ (gets-IsRun _) λ taken.
    if-IsRun _ _ _ (raise-IsRun Unit integrity_error) (write-IsRun _ (λ db. refl) (λ db. refl))

check_stage-IsRun : (d : Deal) (target : Option Stage) → IsRun (check_stage d target)
unfolding check_stage
check_stage-IsRun d none = search runs
check_stage-IsRun d (some st) = search runs

ruleset deal_runs = (runs, own_deal-IsRun, save_deal-IsRun, insert_deal-IsRun, check_stage-IsRun)

create_deal-IsRun :
    (workspace : Uuid) (actor : Actor) (body : DealCreate)
    → IsRun (create_deal workspace actor body)
unfolding create_deal
create_deal-IsRun workspace actor body = search deal_runs depth 16

move_deal_stage-IsRun :
    (workspace : Uuid) (actor : Actor) (id stage : Uuid)
    → IsRun (move_deal_stage workspace actor id stage)
unfolding move_deal_stage
move_deal_stage-IsRun workspace actor id stage = search deal_runs depth 20

assign_deal-IsRun :
    (workspace : Uuid) (actor : Actor) (id : Uuid) (user : String)
    → IsRun (assign_deal workspace actor id user)
unfolding assign_deal
assign_deal-IsRun workspace actor id user = search deal_runs depth 16

own_contact-IsRun :
    (workspace : Uuid) (found : Option Contact) → IsRun (own_contact workspace found)
unfolding own_contact
own_contact-IsRun workspace none = search runs
own_contact-IsRun workspace (some c) = search runs

get_contact-IsRun : (workspace id : Uuid) → IsRun (get_contact workspace id)
unfolding get_contact
get_contact-IsRun workspace id = search (runs, own_contact-IsRun)

-- The savepoint of a call writes the calls alone.
insert_call-IsRun : (call : Call) → IsRun (insert_call call)
unfolding insert_call
insert_call-IsRun call s =
    elim (Bool-cases (any (is_same_call call) (s.db.calls ++ (s.rivals s.inserts).calls))) [
      | inl taken ↦ rw taken (
          next
            (next start (
              edits (λ db. record db { calls = db.calls ++ (s.rivals s.inserts).calls }) refl refl))
            (aside _ (record { db = refl; durable = refl; queue = refl; told = refl })))
      | inr free ↦ rw free (
          next
            (next start (
              edits
                (λ db. record db { calls = (db.calls ++ (s.rivals s.inserts).calls) ++ call ∷ [] })
                refl refl))
            (aside _ (record { db = refl; durable = refl; queue = refl; told = refl })))
    ]

flush_call-IsRun : (call : Call) → IsRun (flush_call call)
unfolding flush_call
flush_call-IsRun call = search (runs, insert_call-IsRun) depth 8

taken_by-IsRun : (actor : Actor) (t : Ticket) → IsRun (taken_by actor t)
unfolding taken_by
taken_by-IsRun actor t = search (runs, assign_time-IsRun) depth 8

touch_found-IsRun :
    (workspace : Uuid) (actor : Actor) (found : Option Ticket)
    → IsRun (touch_found workspace actor found)
unfolding touch_found
touch_found-IsRun workspace actor none = search runs
touch_found-IsRun workspace actor (some t) =
    search (runs, taken_by-IsRun, save_ticket-IsRun) depth 12

touch_called-IsRun :
    (workspace : Uuid) (actor : Actor) (ticket : Option Uuid)
    → IsRun (touch_called workspace actor ticket)
unfolding touch_called
touch_called-IsRun workspace actor none = search runs
touch_called-IsRun workspace actor (some id) = search (runs, touch_found-IsRun) depth 8

-- The row of the outbox that has no audit event.
queue_started-IsRun : (call : Call) (contact : Uuid) → IsRun (queue_started call contact)
unfolding queue_started uuid4 now write track_outbox_notify ◌>>=◌
queue_started-IsRun call contact s =
    next
      (next start (
        aside (record s { drawn = suc s.drawn; ticks = suc s.ticks })
          (record { db = refl; durable = refl; queue = refl; told = refl })))
      (announces (call_started (s.uuids s.drawn) (s.clock s.ticks) call contact) refl)

publish_started-IsRun :
    (workspace : Uuid) (actor : Actor) (ticket : Option Uuid)
    → IsRun (publish_started workspace actor ticket)
unfolding publish_started
publish_started-IsRun workspace actor none = search runs
publish_started-IsRun workspace actor (some t) = search runs

start_call-IsRun :
    (workspace : Uuid) (actor : Actor) (body : CallCreate) → IsRun (start_call workspace actor body)
unfolding start_call
start_call-IsRun workspace actor body =
    search
      (
        runs, get_contact-IsRun, flush_call-IsRun, touch_called-IsRun, queue_started-IsRun,
        publish_started-IsRun,
      )
      depth 20

-- `m` is a request for a change of a ticket or a deal, or for a call.
pub data IsRequest (workspace : Uuid) (actor : Actor) : (A : Type 0) → M A → Type 1 where
  updates :
      (id : Uuid) (body : TicketUpdate)
      → IsRequest workspace actor TicketDetail (update_ticket workspace actor id body)
  assigns :
      (id : Uuid) (user : String)
      → IsRequest workspace actor Ticket (assign_ticket workspace actor id user)
  claims : (id : Uuid) → IsRequest workspace actor TicketDetail (claim_ticket workspace actor id)
  creates_deal :
      (body : DealCreate) → IsRequest workspace actor Deal (create_deal workspace actor body)
  moves_deal :
      (id stage : Uuid) → IsRequest workspace actor Deal (move_deal_stage workspace actor id stage)
  assigns_deal :
      (id : Uuid) (user : String)
      → IsRequest workspace actor Deal (assign_deal workspace actor id user)
  calls : (body : CallCreate) → IsRequest workspace actor Call (start_call workspace actor body)

IsRequest-IsRun :
    {A : Type 0} (workspace : Uuid) (actor : Actor) (m : M A)
    → IsRequest workspace actor A m
    → IsRun m
IsRequest-IsRun workspace actor _ (updates id body) = update_ticket-IsRun workspace actor id body
IsRequest-IsRun workspace actor _ (assigns id user) = assign_ticket-IsRun workspace actor id user
IsRequest-IsRun workspace actor _ (claims id) = claim_ticket-IsRun workspace actor id
IsRequest-IsRun workspace actor _ (creates_deal body) = create_deal-IsRun workspace actor body
IsRequest-IsRun workspace actor _ (moves_deal id stage) =
    move_deal_stage-IsRun workspace actor id stage
IsRequest-IsRun workspace actor _ (assigns_deal id user) = assign_deal-IsRun workspace actor id user
IsRequest-IsRun workspace actor _ (calls body) = start_call-IsRun workspace actor body

-- A request to change a ticket, to create, move or assign a deal, or to start a call leaves the outbox
-- sound if it was, whether it succeeds, fails on the way or fails at its commit: what is queued is in
-- the outbox, what the broker was told is committed, the committed audit log is a prefix of what the
-- session sees, every outbox row but those of the direct types has its audit event, and no two
-- committed rows have one key.
pub IsRequest-IsTransactional :
    {A : Type 0} (workspace : Uuid) (actor : Actor) (m : M A) (s : Session)
    → IsRequest workspace actor A m
    → IsTransactional s
    → IsTransactional (m s).1
IsRequest-IsTransactional workspace actor m s r h =
    Reach-IsTransactional h (IsRequest-IsRun workspace actor m r s)
