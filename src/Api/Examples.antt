-- ===== src/Api/Examples.antt =====
-- The theorems about the requests at concrete sessions.
use phera.Common.{
  ℕ, Option, ◌≡◌, refl, ◌⊎◌, inl, inr, none, some, List, [], ◌∷◌, map, where_, IsFirst,
}
use phera.Models.{Ticket, OutboxEvent, Deal, Stage, Db, empty_db}
use phera.Session.{Session, new_session, Error, http, integrity_error, err, ok, gets, raise, ◌>>=◌}
use phera.Session.Atomic.{IsUnseen}
use phera.Authz.Actor.{Actor, typed_actor}
use phera.Tickets.Joining.{find_ticket}
use phera.Tickets.ShortId.Examples.{blank}
use phera.Api.Tickets.{TicketUpdate, updated, assign_ticket}
use phera.Api.Enrichment.{TicketDetail}
use phera.Api.Tickets.Stamps.{IsStamped, updated-IsStamped}
use phera.Api.Tickets.Again.{assign_ticket_again}
use phera.Api.Tickets.Board.{assign}
use phera.Api.Changed.{IsChanged}
use phera.Api.Refines.{assigns, IsChange-IsChanged}
use phera.Api.Foreign.{IsAbout-foreign}
use phera.Api.Foreign
use phera.Api.Requests.{moves_deal, IsWrite-IsUnseen}
use phera.Api.Inbox.{bucket_rows, list_inbox_tickets, on_channel, by_rank}
use phera.Api.Inbox.Buckets.{unassigned, list_inbox_tickets-IsFirst}
use phera.Api.Inbox.Stream.{subscribe_inbox, publish}
use phera.Api.Inbox.Stream.Delivery.{Life, joined, published, IsDelivered, Life-IsDelivered}
use phera.Api.Deals.{move_deal_stage, own_deal, own_deal_row}
use phera.Api.Deals.Stages.{Placed, move_deal_stage-Placed}
use phera.Workflows.Nodes.{find_deal}

abbrev asha : Actor
asha = typed_actor "user" (some "u1")

abbrev closing : TicketUpdate
closing = record { status = some "closed"; priority = none; subject = none }

abbrev open_ticket : Ticket
open_ticket = record blank {
  id = "t1";
  workspace_id = "ws";
  status = "open";
  status_entered_at = some 4;
}

updated-IsStamped_example : IsStamped 9 open_ticket (updated closing 9 open_ticket)
updated-IsStamped_example = updated-IsStamped closing 9 open_ticket

abbrev first_time : OutboxEvent
first_time = record {
  id = "e1";
  occurred_at = 3;
  workspace_id = some "ws";
  event_type = "ticket.assigned";
  entity_type = "ticket";
  entity_id = "t1";
  idempotency_key = "ticket.assigned:t1:u2";
  payload = [];
  status = "processed";
  attempts = 0;
  last_error = none;
}

abbrev db : Db
db = record empty_db { tickets = open_ticket ∷ []; outbox_events = first_time ∷ [] }

abbrev start : Session
start = new_session db (λ n. "u") (λ n. n)

found : find_ticket "t1" db.tickets ≡ some open_ticket
unfolding find_ticket
found = refl

assign_ticket_again_example :
    ((assign_ticket "ws" asha "t1" "u2" start).0 ≡ err integrity_error)
    × ((assign_ticket "ws" asha "t1" "u2" start).1.durable ≡ start.durable)
    × ((assign_ticket "ws" asha "t1" "u2" start).1.notified ≡ start.notified)
assign_ticket_again_example =
    assign_ticket_again "ws" asha "t1" "u2" open_ticket first_time start found refl (inl refl) refl

IsChange-IsChanged_example :
    ((e : Error) × ((assign_ticket "ws" asha "t1" "u3" start).0 ≡ err e)
      × IsUnseen start (assign_ticket "ws" asha "t1" "u3" start).1)
    ⊎ ((a : Ticket) × ((assign_ticket "ws" asha "t1" "u3" start).0 ≡ ok a)
        × IsChanged "ws" "t1" start.durable
            (assign "u3")
            (assign_ticket "ws" asha "t1" "u3" start).1)
IsChange-IsChanged_example =
    IsChange-IsChanged "ws" "t1" (assign "u3") (assign_ticket "ws" asha "t1" "u3") start
      (assigns asha "u3") refl

-- There is no deal.
missing : (move_deal_stage "ws" asha "d9" "s1" start).0 ≡ err (http 404 "Deal not found")
unfolding move_deal_stage own_deal own_deal_row find_deal gets raise ◌>>=◌
missing = refl

IsWrite-IsUnseen_example : IsUnseen start (move_deal_stage "ws" asha "d9" "s1" start).1
IsWrite-IsUnseen_example =
    IsWrite-IsUnseen "ws" asha (move_deal_stage "ws" asha "d9" "s1") start
      (http 404 "Deal not found") (moves_deal "d9" "s1") missing

unassigned_rows : bucket_rows "unassigned" "ws" asha start.db ≡ some ((open_ticket, none) ∷ [])
unfolding bucket_rows where_
unassigned_rows = refl

list_inbox_tickets-IsFirst_example :
    (ds : List TicketDetail) × (page : List (Ticket × Option ℕ)) × (list_inbox_tickets "unassigned"
        none "ws" asha start
      ≡ (ok ds, start))
    × (map (λ d. d.ticket) ds ≡ map (λ r. r.0) page)
    × IsFirst by_rank 100
        (where_ (on_channel none start.db.channel_accounts) ((open_ticket, none) ∷ []))
        page
list_inbox_tickets-IsFirst_example =
    list_inbox_tickets-IsFirst "unassigned" by_rank none "ws" asha start ((open_ticket, none) ∷ [])
      unassigned unassigned_rows

abbrev life : Life 1 ("hello" ∷ []) [] (publish "hello" (subscribe_inbox 1 []))
life = published [] [] (subscribe_inbox 1 []) "hello" (joined [])

Life-IsDelivered_example : IsDelivered 1 ("hello" ∷ []) [] (publish "hello" (subscribe_inbox 1 []))
Life-IsDelivered_example =
    Life-IsDelivered 1 ("hello" ∷ []) [] (publish "hello" (subscribe_inbox 1 [])) life

abbrev new_stage : Stage
new_stage = record { id = "s1"; pipeline_id = "p1"; name = "New"; position = 0 }

abbrev won_stage : Stage
won_stage = record { id = "s2"; pipeline_id = "p1"; name = "Won"; position = 1 }

abbrev deal : Deal
deal = record {
  id = "d1";
  workspace_id = "ws";
  contact_id = "c1";
  pipeline_id = "p1";
  stage_id = "s1";
  owner_user_id = none;
  source_form_id = none;
  status = "open";
  custom_fields = [];
  created_at = 1;
  stage_entered_at = some 1;
  closed_at = none;
}

abbrev with_deal : Session
with_deal =
    new_session (record empty_db { deals = deal ∷ []; stages = new_stage ∷ won_stage ∷ [] })
      (λ n. "u") (λ n. n)

with_deal-Placed : Placed with_deal.db
unfolding where_
with_deal-Placed = ((new_stage, refl, refl), tt)

move_deal_stage-Placed_example : Placed (move_deal_stage "ws" asha "d1" "s2" with_deal).1.durable
move_deal_stage-Placed_example =
    move_deal_stage-Placed "ws" asha "d1" "s2" with_deal refl with_deal-Placed

-- The ticket is another workspace's.
IsAbout-foreign_example :
    assign_ticket "other" asha "t1" "u2" start ≡ (err (http 404 "Ticket not found"), start)
IsAbout-foreign_example =
    IsAbout-foreign "other" asha "t1" (assign_ticket "other" asha "t1" "u2") start
      (Foreign.assigns "u2") (inr (open_ticket, found, refl))
