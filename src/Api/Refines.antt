-- ===== src/Api/Refines.antt =====
-- The requests of src/phera/api/routes/tickets.py and inbox.py that change a ticket, and the change
-- that each promises.
use phera.Common.{String, ◌≡◌, sym, ap, ◌∙◌, ◌⊎◌, inl, inr, some, Bool-cases}
use mathlib.Core.Path.{subst}
use phera.Models.{Uuid, Ticket}
use phera.Session.{M, Session, Error, Result-cases, ok, err, ◌>>=◌, raise}
use phera.Session.Atomic.{IsUnseen, IsAtomic, ok≢err}
use phera.Session.Steps.{bind-err}
use phera.Authz.Actor.{Actor, has_permission}
use phera.Tickets.Joining.{find_ticket}
use phera.Api.Tickets.{own_ticket, TicketUpdate, update_ticket, assign_ticket}
use phera.Api.Enrichment.{TicketDetail}
use phera.Api.Tickets.Own.{own_ticket_cases, own_ticket_foreign}
use phera.Api.Tickets.Board.{Change, edit, assign, claim}
use phera.Api.Tickets.Outcome.{update_ticket-IsAtomic, assign_ticket-IsAtomic}
use phera.Api.Inbox.Outcome.{claim_ticket-IsAtomic}
use phera.Api.Changed.{IsChanged, assigned-IsChanged, claimed-IsChanged, updated-IsChanged}
use phera.Api.Inbox.{claim_ticket, take_ticket}

-- `m` is a request of the workspace that is to make the change to the ticket with the id.
pub data IsChange (workspace : Uuid) (id : Uuid) : (A : Type 0) → Change → M A → Type 1 where
  edits :
      (actor : Actor) (body : TicketUpdate)
      → IsChange workspace id TicketDetail (edit body) (update_ticket workspace actor id body)
  assigns :
      (actor : Actor) (user : String)
      → IsChange workspace id Ticket (assign user) (assign_ticket workspace actor id user)
  claims :
      (actor : Actor)
      → IsChange workspace id TicketDetail (claim actor.id) (claim_ticket workspace actor id)

own_then-ok :
    {B : Type 0} (workspace id : Uuid) (s : Session) (f : Ticket → M B) (b : B)
    → ((own_ticket workspace id >>= f) s).0 ≡ ok b
    → (t : Ticket) × (own_ticket workspace id s ≡ (ok t, s))
      × (find_ticket id s.db.tickets ≡ some t)
      × (t.workspace_id ≡ workspace)
own_then-ok workspace id s f b h = elim (own_ticket_cases workspace id s) [
  | inr r ↦ r
  | inl n ↦
      let q =
        bind-err (own_ticket workspace id) f s _
          (ap (λ r. r.0) (own_ticket_foreign workspace id s n)) in
      elim (ok≢err (sym h ∙ ap (λ r. r.0) q)) [ ]
]

taken_found :
    (workspace id : Uuid) (actor : Actor) (s : Session) (a : TicketDetail)
    → (take_ticket workspace actor id s).0 ≡ ok a
    → (t : Ticket) × (own_ticket workspace id s ≡ (ok t, s))
      × (find_ticket id s.db.tickets ≡ some t)
      × (t.workspace_id ≡ workspace)
unfolding take_ticket
taken_found workspace id actor s a h = own_then-ok workspace id s _ a h

take_ok :
    (workspace id : Uuid) (actor : Actor) (s : Session) (a : TicketDetail)
    → (claim_ticket workspace actor id s).0 ≡ ok a
    → IsChanged workspace id s.db (claim actor.id) (claim_ticket workspace actor id s).1
unfolding claim_ticket raise
take_ok workspace id actor s a h =
    elim (Bool-cases (has_permission actor "crm.tickets.claim" "allow")) [
      | inl p ↦
          let g = rw p at h in
          let (t, o, found, same) = taken_found workspace id actor s a g in
          rw p (claimed-IsChanged workspace id s t o found same actor a g)
      | inr p ↦ elim (ok≢err (sym (rw p at h))) [ ]
    ]

IsChange-ok :
    {A : Type 0} (workspace id : Uuid) (change : Change) (m : M A) (s : Session) (a : A)
    → IsChange workspace id A change m
    → (m s).0 ≡ ok a
    → IsChanged workspace id s.db change (m s).1
unfolding update_ticket assign_ticket
IsChange-ok workspace id _ _ s a (edits actor body) h =
    let (t, o, found, same) = own_then-ok workspace id s _ a h in
    updated-IsChanged workspace id s t o found same actor body a h
IsChange-ok workspace id _ _ s a (assigns actor user) h =
    let (t, o, found, same) = own_then-ok workspace id s _ a h in
    assigned-IsChanged workspace id s t o found same actor user a h
IsChange-ok workspace id _ _ s a (claims actor) h = take_ok workspace id actor s a h

IsChange-IsAtomic :
    {A : Type 0} (workspace id : Uuid) (change : Change) (m : M A)
    → IsChange workspace id A change m
    → IsAtomic m
IsChange-IsAtomic workspace id _ _ (edits actor body) =
    update_ticket-IsAtomic workspace actor id body
IsChange-IsAtomic workspace id _ _ (assigns actor user) =
    assign_ticket-IsAtomic workspace actor id user
IsChange-IsAtomic workspace id _ _ (claims actor) = claim_ticket-IsAtomic workspace actor id

-- Each request for a change of a ticket, an update, an assignment or a claim, does to the board of
-- tickets that other sessions see one of two things, if its session starts with what is committed. It
-- fails, and nobody sees anything of it; or the ticket is one of the workspace's, and the board has its
-- card with the promised change and every other card as before.
pub IsChange-IsChanged :
    {A : Type 0} (workspace id : Uuid) (change : Change) (m : M A) (s : Session)
    → IsChange workspace id A change m
    → s.db ≡ s.durable
    → ((e : Error) × ((m s).0 ≡ err e) × IsUnseen s (m s).1)
      ⊎ ((a : A) × ((m s).0 ≡ ok a) × IsChanged workspace id s.durable change (m s).1)
IsChange-IsChanged workspace id change m s c d = elim (Result-cases (m s).0) [
  | inl (a, q) ↦ inr (
    a,
    q,
    subst (λ db. IsChanged workspace id db change (m s).1) d
        (IsChange-ok workspace id change m s a c q),
  )
  | inr (e, q) ↦ inl (e, q, IsChange-IsAtomic workspace id change m c s e q)
]
