-- ===== src/Api/Tickets/Stamps.antt =====
-- The times of a ticket's status.
use phera.Common.{
  String, ◌≡◌, ◌≢◌, refl, inl, inr, true, false, none, some, [], ◌∷◌, arith, ◌==◌, elem, eq_iff,
  Bool-cases, Option-cases,
}
use phera.Models.{Ticket, Time}
use phera.Api.Tickets.{TicketUpdate, updated, set_status, set_priority, set_subject, with_status}

-- What became of the times of ticket `t` by time `at`, when it is `t'` afterwards.
pub record IsStamped (at : Time) (t t' : Ticket) : Type 0 where
  -- The status stayed.
  pub entered_kept : t'.status ≡ t.status → t'.status_entered_at ≡ t.status_entered_at
  pub resolved_kept : t'.status ≡ t.status → t'.resolved_at ≡ t.resolved_at
  pub closed_kept : t'.status ≡ t.status → t'.closed_at ≡ t.closed_at
  -- The status changed.
  pub entered : t'.status ≢ t.status → t'.status_entered_at ≡ some at
  pub resolved :
      t'.status ≢ t.status
      → elem t'.status ("resolved" ∷ "closed" ∷ []) ≡ true
      → t.resolved_at ≡ none
      → t'.resolved_at ≡ some at
  pub closed : t'.status ≢ t.status → t'.status ≡ "closed" → t'.closed_at ≡ some at
  -- An earlier resolution stays, and other statuses touch neither time.
  pub resolved_first : (first : Time) → t.resolved_at ≡ some first → t'.resolved_at ≡ some first
  pub unresolved :
      elem t'.status ("resolved" ∷ "closed" ∷ []) ≡ false → t'.resolved_at ≡ t.resolved_at
  pub unclosed : t'.status ≢ "closed" → t'.closed_at ≡ t.closed_at

with_status-differs :
    (at : Time) (status : String) (t : Ticket)
    → (status == t.status) ≡ false
    → (with_status at status t).status ≢ t.status
unfolding with_status
with_status-differs at status t other e = ground (arith, eq_iff status t.status)

with_status-IsStamped :
    (at : Time) (status : String) (t : Ticket)
    → (status == t.status) ≡ false
    → IsStamped at t (with_status at status t)
unfolding with_status
with_status-IsStamped at status t other = record {
  entered_kept = λ e. absurd (with_status-differs at status t other e);
  resolved_kept = λ e. absurd (with_status-differs at status t other e);
  closed_kept = λ e. absurd (with_status-differs at status t other e);
  entered = λ n. ground arith;
  resolved = λ n h r. ground arith;
  closed = λ n h. ground (arith, eq_iff status "closed");
  resolved_first = λ r h. ground arith;
  unresolved = λ h. ground arith;
  unclosed = λ n. ground (arith, eq_iff status "closed");
}

stays-IsStamped : (at : Time) (t : Ticket) → IsStamped at t t
stays-IsStamped at t = record {
  entered_kept = λ e. refl;
  resolved_kept = λ e. refl;
  closed_kept = λ e. refl;
  entered = λ n. absurd (n refl);
  resolved = λ n. absurd (n refl);
  closed = λ n. absurd (n refl);
  resolved_first = λ first h. h;
  unresolved = λ h. refl;
  unclosed = λ n. refl;
}

set_status-IsStamped :
    (body : TicketUpdate) (at : Time) (t : Ticket) → IsStamped at t (set_status body at t)
unfolding set_status
set_status-IsStamped body at t = elim (Option-cases body.status) [
  | inl q ↦ rw q (stays-IsStamped at t)
  | inr (status, q) ↦ elim (Bool-cases (status == t.status)) [
    | inl same ↦ rw (q, same) (stays-IsStamped at t)
    | inr other ↦ rw (q, other) (with_status-IsStamped at status t other)
  ]
]

-- The other columns of an update are none of these.
abbrev SameTimes : Ticket → Ticket → Type 0
SameTimes t t' =
    (t'.status ≡ t.status)
    × (t'.status_entered_at ≡ t.status_entered_at)
    × (t'.resolved_at ≡ t.resolved_at)
    × (t'.closed_at ≡ t.closed_at)

set_priority-SameTimes : (body : TicketUpdate) (t : Ticket) → SameTimes t (set_priority body t)
unfolding set_priority
set_priority-SameTimes body t = (ground arith, ground arith, ground arith, ground arith)

set_subject-SameTimes : (body : TicketUpdate) (t : Ticket) → SameTimes t (set_subject body t)
unfolding set_subject
set_subject-SameTimes body t = (ground arith, ground arith, ground arith, ground arith)

IsStamped-SameTimes :
    (at : Time) (t u u' : Ticket) → SameTimes u u' → IsStamped at t u → IsStamped at t u'
IsStamped-SameTimes at t u u' (p, q, r, c) h = record {
  entered_kept = rw (p, q) h.entered_kept;
  resolved_kept = rw (p, r) h.resolved_kept;
  closed_kept = rw (p, c) h.closed_kept;
  entered = rw (p, q) h.entered;
  resolved = rw (p, r) h.resolved;
  closed = rw (p, c) h.closed;
  resolved_first = rw r h.resolved_first;
  unresolved = rw (p, r) h.unresolved;
  unclosed = rw (p, c) h.unclosed;
}

-- After every update, whatever it changes: if the ticket has another status than before, it entered it
-- at the time of the update, it was resolved then if it became resolved or closed and never was before,
-- and it was closed then if it became closed; if it has the status it had, these three times are as
-- they were. The time of an earlier resolution always stays, and only a ticket that is then resolved or
-- closed has its time of resolution changed, only one that is closed its time of closing.
pub updated-IsStamped :
    (body : TicketUpdate) (at : Time) (t : Ticket) → IsStamped at t (updated body at t)
unfolding updated
updated-IsStamped body at t =
    let entered = set_status body at t in
    let ranked = set_priority body entered in
    IsStamped-SameTimes at t ranked (set_subject body ranked) (set_subject-SameTimes body ranked) (
      IsStamped-SameTimes at t entered ranked (set_priority-SameTimes body entered)
        (set_status-IsStamped body at t))
