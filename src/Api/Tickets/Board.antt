-- ===== src/Api/Tickets/Board.antt =====
-- What the requests about a ticket do to the tickets that other sessions see, without their times.
use phera.Common.{
  String, ◌≡◌, ◌≢◌, refl, ap, ◌∙◌, inl, inr, false, Option, none, some, List, [], ◌∷◌, ◌==◌, eq_iff,
  eq_refl, arith, if◌then◌else◌, update_rows, Bool-cases,
}
use phera.Models.{Uuid, Time, Ticket}
use phera.Session.{Session, ◌>>=◌, track_outbox_notify}
use phera.Mutate.{
  MutateRequest, mutate, update_tickets, touch_ticket_activity, written, touched_ticket,
}
use phera.Tickets.Joining.{find_ticket}
use phera.Api.Tickets.{TicketUpdate}

pub record Card : Type 0 where
  pub workspace_id : Uuid
  pub contact_id : Uuid
  pub subject : Option String
  pub status : String
  pub priority : String
  pub assignee_user_id : Option String

abbrev pub card : Ticket → Card
card t = record {
  workspace_id = t.workspace_id;
  contact_id = t.contact_id;
  subject = t.subject;
  status = t.status;
  priority = t.priority;
  assignee_user_id = t.assignee_user_id;
}

-- The board has at most one card for an id, in no order.
abbrev pub Board : Type 0
Board = Uuid → Option Card

abbrev pub card_of : Option Ticket → Option Card
card_of none = none
card_of (some t) = some (card t)

abbrev pub board : List Ticket → Board
board rows id = card_of (find_ticket id rows)

pub data Change : Type 0 where
  edit : TicketUpdate → Change
  assign : String → Change
  claim : Option String → Change

abbrev pub or_keep : {A : Type 0} → Option A → A → A
or_keep none old = old
or_keep (some new) old = new

abbrev pub or_keep_some : {A : Type 0} → Option A → Option A → Option A
or_keep_some none old = old
or_keep_some (some new) old = some new

abbrev pub change_card : Change → Card → Card
change_card (edit body) c = record c {
  subject = or_keep_some body.subject c.subject;
  status = or_keep body.status c.status;
  priority = or_keep body.priority c.priority;
}
change_card (assign user) c = record c { assignee_user_id = some user }
change_card (claim who) c = record c { assignee_user_id = who; status = "open" }

abbrev pub put : Uuid → Card → Board → Board
put id c b j = if j == id then some c else b j

module _ (t : Ticket) (time : Time) where
  abbrev pub saved_rows : List Ticket → List Ticket
  saved_rows = update_rows (λ r. r.id == t.id) (λ _. record t { updated_at = time })

  board-saved_other :
      (j : Uuid) (rows : List Ticket)
      → (j == t.id) ≡ false
      → board (saved_rows rows) j ≡ board rows j
  unfolding find_ticket update_rows
  board-saved_other j [] h = refl
  board-saved_other j (r ∷ rows) h = ground (
    arith,
    eq_iff r.id t.id,
    eq_iff t.id j,
    eq_iff r.id j,
    eq_iff j t.id,
    board-saved_other j rows h,
  )

  board-saved_own :
      (rows : List Ticket)
      → find_ticket t.id rows ≢ none
      → board (saved_rows rows) t.id ≡ some (card t)
  unfolding find_ticket update_rows
  board-saved_own [] f = elim (f refl) [ ]
  board-saved_own (r ∷ rows) f = elim (Bool-cases (r.id == t.id)) [
    | inl q ↦ rw (q, eq_refl t.id) refl
    | inr q ↦ rw (q, q) (board-saved_own rows (λ n. f (rw q n)))
  ]

  pub board-saved :
      (j : Uuid) (rows : List Ticket)
      → find_ticket t.id rows ≢ none
      → board (saved_rows rows) j ≡ put t.id (card t) (board rows) j
  board-saved j rows f = elim (Bool-cases (j == t.id)) [
    | inl q ↦
        let same : j ≡ t.id = ground (arith, eq_iff j t.id) in
        rw q (ap (board (saved_rows rows)) same ∙ board-saved_own rows f)
    | inr q ↦ rw q (board-saved_other j rows q)
  ]

board-touch :
    (id j : Uuid) (time at : Time) (rows : List Ticket)
    → board (update_tickets id (λ t. written time (touch_ticket_activity at t)) rows) j
      ≡ board rows j
unfolding find_ticket update_tickets
board-touch id j time at [] = refl
board-touch id j time at (r ∷ rows) = ground (arith, board-touch id j time at rows)

abbrev touched_rows : Option Uuid → Time → Time → List Ticket → List Ticket
touched_rows none time at rows = rows
touched_rows (some id) time at rows =
    update_tickets id (λ t. written time (touch_ticket_activity at t)) rows

board-touched :
    (who : Option Uuid) (j : Uuid) (time at : Time) (rows : List Ticket)
    → board (touched_rows who time at rows) j ≡ board rows j
board-touched none j time at rows = refl
board-touched (some id) j time at rows = board-touch id j time at rows

pub board-mutate :
    (req : MutateRequest) (s : Session) (j : Uuid)
    → board (mutate req s).1.db.tickets j ≡ board s.db.tickets j
unfolding mutate track_outbox_notify ◌>>=◌
board-mutate req s j =
    ground (arith, board-touched (touched_ticket req) j s.db_now (s.clock s.ticks) s.db.tickets)
