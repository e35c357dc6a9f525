-- ===== src/Api/Tickets/Cards.antt =====
-- The fields that the updates of src/phera/api/routes/tickets.py change.
use phera.Common.{String, ◌≡◌, refl, ap, ◌∙◌, inl, inr, true, none, eq_iff, arith, Option-cases}
use phera.Models.{Time, Ticket}
use phera.Mutate.{is_nil}
use phera.Api.Tickets.{
  TicketUpdate, updated, set_status, set_priority, set_subject, with_status, changes_of,
}
use phera.Api.Tickets.Board.{card, Card, edit, change_card, or_keep, or_keep_some}

card-with_status :
    (at : Time) (v : String) (t : Ticket)
    → card (with_status at v t) ≡ record (card t) { status = v }
unfolding with_status
card-with_status at v t = ground arith

card-set_status :
    (body : TicketUpdate) (at : Time) (t : Ticket)
    → card (set_status body at t)
      ≡ change_card (edit (record body { subject = none; priority = none })) (card t)
unfolding set_status
card-set_status body at t = elim (Option-cases body.status) [
  | inl q ↦ rw q refl
  | inr (v, q) ↦ rw q (ground (arith, card-with_status at v t, eq_iff v t.status))
]

card-set_priority :
    (body : TicketUpdate) (t : Ticket)
    → card (set_priority body t) ≡ record (card t) { priority = or_keep body.priority t.priority }
unfolding set_priority
card-set_priority body t = elim (Option-cases body.priority) [
  | inl q ↦ rw q refl
  | inr (v, q) ↦ rw q (ground (arith, eq_iff v t.priority))
]

card-set_subject :
    (body : TicketUpdate) (t : Ticket)
    → card (set_subject body t) ≡ record (card t) { subject = or_keep_some body.subject t.subject }
unfolding set_subject
card-set_subject body t = elim (Option-cases body.subject) [
  | inl q ↦ rw q refl
  | inr (v, q) ↦ elim (Option-cases t.subject) [
    | inl r ↦ rw (q, r) refl
    | inr (w, r) ↦ rw (q, r) (ground (arith, eq_iff v w))
  ]
]

abbrev keep_priority : TicketUpdate → Card → Card
keep_priority body c = record c { priority = or_keep body.priority c.priority }

abbrev keep_subject : TicketUpdate → Card → Card
keep_subject body c = record c { subject = or_keep_some body.subject c.subject }

pub card-updated :
    (body : TicketUpdate) (at : Time) (t : Ticket)
    → card (updated body at t) ≡ change_card (edit body) (card t)
unfolding updated
card-updated body at t =
    let a = card-set_status body at t in
    let b = card-set_priority body (set_status body at t) in
    let c = card-set_subject body (set_priority body (set_status body at t)) in
    c ∙ ap (keep_subject body) (b ∙ ap (keep_priority body) a)

-- An update that changes nothing finds every field as it wants it.
pub card-unchanged :
    (body : TicketUpdate) (at : Time) (t : Ticket)
    → is_nil (changes_of body t) ≡ true
    → card (updated body at t) ≡ card t
unfolding updated changes_of set_status set_priority set_subject
card-unchanged body at t h = ground arith

pub updated-id : (body : TicketUpdate) (at : Time) (t : Ticket) → (updated body at t).id ≡ t.id
unfolding updated set_status set_priority set_subject with_status
updated-id body at t = ground arith
