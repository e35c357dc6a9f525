-- ===== src/Api/Changed.antt =====
-- What an update, an assignment and a claim of src/phera/api/routes/tickets.py and inbox.py do to the
-- board when they succeed.
use phera.Common.{
  String, suc, ◌≡◌, ◌≢◌, refl, sym, ap, ◌∙◌, inl, inr, Option, none, some, ◌==◌, eq_iff, arith,
  Dict, Bool-cases,
}
use phera.Models.{Uuid, Time, Ticket, Db}
use phera.Session.{
  M, Session, ok, ◌>>=◌, ◌>>◌, now, gets, pure, commit_and_notify, publish_inbox_event,
}
use phera.Session.Steps.{IsLast, bind-IsLast, commit-durable}
use phera.Authz.Actor.{Actor}
use phera.Mutate.{MutateRequest, mutate, is_nil}
use phera.Mutate.Recorded.{mutate-returned}
use phera.Tickets.Joining.{find_ticket, save_ticket}
use phera.Api.Tickets.{
  assign_time, own_ticket, refresh, assigned, TicketUpdate, updated, changes_of, update_ticket,
  assign_ticket, apply_update,
}
use phera.Api.Enrichment.{TicketDetail, ticket_detail, channel_for_ticket}
use phera.Api.Tickets.Own.{find_ticket-id}
use phera.Api.Tickets.Again.{assign_time-ok}
use phera.Api.Tickets.Cards.{updated-id, card-updated, card-unchanged}
use phera.Api.Tickets.Board.{
  Card, card, board, Change, edit, assign, claim, change_card, put, board-saved, board-mutate,
}
use phera.Api.Reply.{claimed_event}
use phera.Api.Inbox.{take_ticket, claim_time, claimed}

-- The ticket is one of the workspace's, and afterwards the board that others see has its card changed and
-- every other card as it was.
pub record IsChanged (workspace id : Uuid) (start : Db) (change : Change) (after : Session)
    : Type 0 where
  pub before : Card
  pub found : board start.tickets id ≡ some before
  pub own : before.workspace_id ≡ workspace
  pub changed :
      (j : Uuid)
      → board after.durable.tickets j ≡ put id (change_card change before) (board start.tickets) j

refresh-IsLast : (t : Ticket) → IsLast (refresh t)
unfolding refresh gets
refresh-IsLast t s = refl

publish-IsLast : (payload : Dict String) → IsLast (publish_inbox_event payload)
unfolding publish_inbox_event
publish-IsLast payload s = refl

ticket_detail-IsLast : (t : Ticket) → IsLast (ticket_detail t)
unfolding ticket_detail channel_for_ticket gets pure ◌>>=◌
ticket_detail-IsLast t s = refl

ruleset last = (refresh-IsLast, publish-IsLast, ticket_detail-IsLast, bind-IsLast)

module _ {A : Type 0} (x : Ticket) (k : M A) (last : IsLast k) (s : Session) (a : A) where
  saved_then-durable :
      (j : Uuid)
      → find_ticket x.id s.db.tickets ≢ none
      → ((save_ticket x >> (commit_and_notify >> k)) s).0 ≡ ok a
      → board ((save_ticket x >> (commit_and_notify >> k)) s).1.durable.tickets j
        ≡ put x.id (card x) (board s.db.tickets) j
  unfolding save_ticket ◌>>=◌
  saved_then-durable j f h =
      ap (λ db. board db.tickets j) (commit-durable k (save_ticket x s).1 a last h)
      ∙ board-saved x s.db_now j s.db.tickets f

  recorded_then-durable :
      (req : MutateRequest) (j : Uuid)
      → find_ticket x.id s.db.tickets ≢ none
      → ((save_ticket x >> (mutate req >> (commit_and_notify >> k))) s).0 ≡ ok a
      → board ((save_ticket x >> (mutate req >> (commit_and_notify >> k))) s).1.durable.tickets j
        ≡ put x.id (card x) (board s.db.tickets) j
  unfolding save_ticket ◌>>=◌
  recorded_then-durable req j f h =
      let s' = (save_ticket x s).1 in
      let r = mutate-returned req s' in
      rw r (
        ap (λ db. board db.tickets j) (commit-durable k (mutate req s').1 a last (rw r at h))
        ∙ (board-mutate req s' j ∙ board-saved x s.db_now j s.db.tickets f))

  applied_then-durable :
      (req : MutateRequest) (j : Uuid)
      → find_ticket x.id s.db.tickets ≢ none
      → (((save_ticket x >> (mutate req >> pure tt)) >> (commit_and_notify >> k)) s).0 ≡ ok a
      → board
          (((save_ticket x >> (mutate req >> pure tt)) >> (commit_and_notify >> k))
            s).1.durable.tickets
          j
        ≡ put x.id (card x) (board s.db.tickets) j
  unfolding save_ticket pure ◌>>=◌
  applied_then-durable req j f h =
      let s' = (save_ticket x s).1 in
      let r = mutate-returned req s' in
      rw r (
        ap (λ db. board db.tickets j) (commit-durable k (mutate req s').1 a last (rw r at h))
        ∙ (board-mutate req s' j ∙ board-saved x s.db_now j s.db.tickets f))

-- What follows the commit of a claim.
abbrev answer_claim : Uuid → Actor → Ticket → M TicketDetail
answer_claim workspace actor x =
    refresh x >>= (λ t. publish_inbox_event (claimed_event workspace t.id actor) >> ticket_detail t)

claim_time-ok :
    (t : Ticket) (s : Session)
    → (at : Time) × (s' : Session) × (claim_time t s ≡ (ok at, s'))
      × (s'.db ≡ s.db)
      × (s'.durable ≡ s.durable)
      × (s'.notified ≡ s.notified)
unfolding claim_time assign_time
claim_time-ok t s = assign_time-ok t s

some≢none : {A : Type 0} (o : Option A) (a : A) → o ≡ some a → o ≢ none
some≢none o a q n = cc

-- The table that is saved to is that of the start.
put-same :
    (id j : Uuid) (t : Ticket) (c : Card) (db db' : Db)
    → t.id ≡ id
    → db' ≡ db
    → put t.id c (board db'.tickets) j ≡ put id c (board db.tickets) j
put-same id j t c db db' e f = rw (f, sym e) refl

still_found :
    (id : Uuid) (t x : Ticket) (db db' : Db)
    → find_ticket id db.tickets ≡ some t
    → x.id ≡ id
    → db' ≡ db
    → find_ticket x.id db'.tickets ≢ none
still_found id t x db db' found e f = rw (f, e) (some≢none _ t found)

module _ (workspace id : Uuid) (s : Session) (t : Ticket) where
  module _ (o : own_ticket workspace id s ≡ (ok t, s))
      (found : find_ticket id s.db.tickets ≡ some t) (same : t.workspace_id ≡ workspace) where
    pub assigned-IsChanged :
        (actor : Actor) (user : String) (a : Ticket)
        → (assign_ticket workspace actor id user s).0 ≡ ok a
        → IsChanged workspace id s.db (assign user) (assign_ticket workspace actor id user s).1
    unfolding assign_ticket ◌>>=◌
    assigned-IsChanged actor user a h =
        let (at, s', b, same_db, same_durable, same_notified) = assign_time-ok t s in
        let e = find_ticket-id id s.db.tickets t found in
        let x = assigned user at t in
        record {
          before = card t;
          found = rw found refl;
          own = same;
          changed = λ j.
              rw (o, b)
                (recorded_then-durable x (refresh x) (refresh-IsLast x) s' a _ j
                    (still_found id t x s.db s'.db found e same_db) (rw (o, b) at h)
                  ∙ put-same id j t (card x) s.db s'.db e same_db);
        }

    pub claimed-IsChanged :
        (actor : Actor) (a : TicketDetail)
        → (take_ticket workspace actor id s).0 ≡ ok a
        → IsChanged workspace id s.db (claim actor.id) (take_ticket workspace actor id s).1
    unfolding take_ticket now ◌>>=◌
    claimed-IsChanged actor a h =
        let (at, s', b, same_db, same_durable, same_notified) = claim_time-ok t s in
        let e = find_ticket-id id s.db.tickets t found in
        let x = claimed actor at (s'.clock s'.ticks) t in
        record {
          before = card t;
          found = rw found refl;
          own = same;
          changed = λ j.
              rw (o, b)
                (saved_then-durable x (answer_claim workspace actor x) (search last) _ a j
                    (still_found id t x s.db s'.db found e same_db) (rw (o, b) at h)
                  ∙ put-same id j t (card x) s.db s'.db e same_db);
        }

    put-own :
        (j : Uuid) (c : Card) → c ≡ card t → board s.db.tickets j ≡ put id c (board s.db.tickets) j
    put-own j c e = elim (Bool-cases (j == id)) [
      | inl q ↦ let k : j ≡ id = ground (arith, eq_iff j id) in rw (q, k, found, e) refl
      | inr q ↦ rw q refl
    ]

    pub updated-IsChanged :
        (actor : Actor) (body : TicketUpdate) (a : TicketDetail)
        → (update_ticket workspace actor id body s).0 ≡ ok a
        → IsChanged workspace id s.db (edit body) (update_ticket workspace actor id body s).1
    unfolding update_ticket apply_update now pure ◌>>=◌
    updated-IsChanged actor body a h =
        let at = s.clock s.ticks in
        let s' : Session = record s { ticks = suc s.ticks } in
        let e = find_ticket-id id s.db.tickets t found in
        let x = updated body at t in
        let e' : x.id ≡ id = updated-id body at t ∙ e in
        let y = card-updated body at t in
        let k : M TicketDetail = refresh x >>= ticket_detail in
        let l : IsLast k = search last in
        record {
          before = card t;
          found = rw found refl;
          own = same;
          changed = λ j. elim (Bool-cases (is_nil (changes_of body t))) [
            | inl q ↦
                let z : change_card (edit body) (card t) ≡ card t =
                  sym y ∙ card-unchanged body at t q in
                rw (o, q)
                  (ap (λ db. board db.tickets j) (commit-durable k s' a l (rw (o, q) at h))
                    ∙ put-own j _ z)
            | inr q ↦
                rw (o, q)
                  (applied_then-durable x k l s' a _ j (still_found id t x s.db s.db found e' refl)
                      (rw (o, q) at h)
                    ∙ (put-same id j x (card x) s.db s.db e' refl
                        ∙ ap (λ c. put id c (board s.db.tickets) j) y))
          ];
        }
