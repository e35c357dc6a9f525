-- ===== src/Tickets/ShortId/Quiet.antt =====
-- Nobody sees the insert of src/phera/modules/tickets/short_id.py before the commit.
use phera.Common.{◌++◌, ℕ, zero, suc, String, refl, some, inl, inr, Bool-cases}
use phera.Models.{Ticket}
use phera.Session.{pure}
use phera.Session.Atomic.{
  IsQuiet, quiet, pure-IsQuiet, bind-IsQuiet, gets-IsQuiet, scalar_one_or_none-IsQuiet,
  option-IsQuiet, either-IsQuiet,
}
use phera.Tickets.ShortId.{
  randbelow, generate_from, generate_ticket_short_id, insert_ticket, insert_from,
  insert_ticket_with_short_id, short_id, collides,
}

generate_from-IsQuiet : (n : ℕ) (day : String) → IsQuiet (generate_from n day)
unfolding generate_from randbelow
generate_from-IsQuiet zero day = search quiet
generate_from-IsQuiet (suc n) day =
    bind-IsQuiet _ _ (λ s. record { durable = refl; notified = refl; published = refl })
      λ k. bind-IsQuiet _ _ (gets-IsQuiet _) λ rows.
        bind-IsQuiet _ _ (scalar_one_or_none-IsQuiet rows) λ found.
          option-IsQuiet found (pure (short_id day k)) (λ _. generate_from n day) (pure-IsQuiet _)
            λ t. generate_from-IsQuiet n day

insert_ticket-IsQuiet : (t : Ticket) → IsQuiet (insert_ticket t)
unfolding insert_ticket
insert_ticket-IsQuiet t s =
    elim (Bool-cases (collides t (s.db.tickets ++ (s.rivals s.inserts).tickets))) [
      | inl q ↦ rw q (record { durable = refl; notified = refl; published = refl })
      | inr q ↦ rw q (record { durable = refl; notified = refl; published = refl })
    ]

insert_from-IsQuiet : (n : ℕ) (t : Ticket) → IsQuiet (insert_from n t)
unfolding insert_from generate_ticket_short_id
insert_from-IsQuiet zero t = search quiet
insert_from-IsQuiet (suc n) t = bind-IsQuiet _ _ (search (quiet, generate_from-IsQuiet)) λ id.
    bind-IsQuiet _ _ (insert_ticket-IsQuiet _) λ done.
      either-IsQuiet done (pure (record t { short_id = some id })) (insert_from n t)
        (pure-IsQuiet _) (insert_from-IsQuiet n t)

pub insert_ticket_with_short_id-IsQuiet : (t : Ticket) → IsQuiet (insert_ticket_with_short_id t)
unfolding insert_ticket_with_short_id
insert_ticket_with_short_id-IsQuiet t = insert_from-IsQuiet _ t
