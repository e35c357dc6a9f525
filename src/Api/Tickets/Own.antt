-- ===== src/Api/Tickets/Own.antt =====
-- The lookup that starts every request about a ticket in src/phera/api/routes/tickets.py.
use phera.Common.{
  ◌≡◌, refl, ◌⊎◌, inl, inr, false, none, some, List, [], ◌∷◌, ◌==◌, eq_iff, arith, Bool-cases,
  Option-cases,
}
use phera.Models.{Uuid, Ticket}
use phera.Session.{Session, ok, err, http, ◌>>=◌}
use phera.Tickets.Joining.{find_ticket}
use phera.Api.Tickets.{own, own_ticket}

-- The ticket with the id is missing or another workspace's.
abbrev pub IsForeign : Uuid → Uuid → Session → Type 0
IsForeign workspace id s =
    (find_ticket id s.db.tickets ≡ none)
    ⊎ ((t : Ticket) × (find_ticket id s.db.tickets ≡ some t)
        × ((t.workspace_id == workspace) ≡ false))

module _ (workspace id : Uuid) (s : Session) where
  pub own_ticket_foreign :
      IsForeign workspace id s → own_ticket workspace id s ≡ (err (http 404 "Ticket not found"), s)
  unfolding own_ticket own ◌>>=◌
  own_ticket_foreign (inl q) = rw q refl
  own_ticket_foreign (inr (t, q, e)) = rw (q, e) refl

  pub own_ticket_cases :
      IsForeign workspace id s
      ⊎ ((t : Ticket) × (own_ticket workspace id s ≡ (ok t, s))
          × (find_ticket id s.db.tickets ≡ some t)
          × (t.workspace_id ≡ workspace))
  unfolding own_ticket own ◌>>=◌
  own_ticket_cases = elim (Option-cases (find_ticket id s.db.tickets)) [
    | inl q ↦ inl (inl q)
    | inr (t, q) ↦ elim (Bool-cases (t.workspace_id == workspace)) [
      | inl e ↦ inr (t, rw (q, e) refl, q, ground (arith, eq_iff t.workspace_id workspace))
      | inr e ↦ inl (inr (t, q, e))
    ]
  ]

pub find_ticket-id :
    (id : Uuid) (rows : List Ticket) (t : Ticket) → find_ticket id rows ≡ some t → t.id ≡ id
unfolding find_ticket
find_ticket-id id [] t h = absurd cc
find_ticket-id id (r ∷ rows) t h = elim (Bool-cases (r.id == id)) [
  | inl q ↦ ground (arith, eq_iff r.id id)
  | inr q ↦ find_ticket-id id rows t (rw q at h)
]
