-- ===== src/Api/Inbox.antt =====
-- src/phera/api/routes/inbox.py: the buckets of the support inbox, the claim of a ticket, and an
-- agent's presence.
pub mod Buckets
pub mod Stream
pub mod Outcome
use phera.Common.{
  ℕ, String, Bool, true, false, not, ◌&&◌, ◌||◌, Option, none, some, List, [], ◌∷◌, ◌++◌, ◌==◌,
  if◌then◌else◌, opt_eq, truthy, elem, where_, update_rows, any, take, map, Dict, ltb, leb, eqb,
  sort,
}
use phera.Models.{Uuid, Time, Ticket, TicketOffer, ChannelAccount, AgentPresence, Db}
use phera.Session.{
  M, pure, raise, gets, write, now, ◌>>=◌, ◌>>◌, commit_and_notify, publish_inbox_event,
  scalar_one_or_none, http,
}
use phera.Authz.Actor.{Actor, has_permission}
use phera.Mutate.{is_some, touch_ticket_activity}
use phera.Tickets.Joining.{save_ticket, who_text}
use phera.Api.Tickets.{own_ticket, refresh}
use phera.Api.Enrichment.{ticket_detail, TicketDetail}
use phera.Api.Reply.{claimed_event}

-- A row of the query: the ticket, and when the offer that it was joined with expires.
abbrev pub Row : Type 0
Row = Ticket × Option Time

-- `_PRIORITY_RANK`
abbrev pub priority_rank : Ticket → ℕ
priority_rank t =
    if elem t.priority ("high" ∷ "urgent" ∷ []) then 0 else if t.priority == "low" then 2 else 1

abbrev pub by_rank : Row → Row → Bool
by_rank (t, _) (u, _) =
    ltb (priority_rank t) (priority_rank u)
    || eqb (priority_rank t) (priority_rank u) && leb t.last_activity_at u.last_activity_at

abbrev pub by_recent : Row → Row → Bool
by_recent (t, _) (u, _) = leb u.last_activity_at t.last_activity_at

-- `expires_at ASC NULLS LAST, last_activity_at ASC`
abbrev pub by_expiry : Row → Row → Bool
by_expiry (t, none) (u, none) = leb t.last_activity_at u.last_activity_at
by_expiry (t, none) (u, some b) = false
by_expiry (t, some a) (u, none) = true
by_expiry (t, some a) (u, some b) = ltb a b || eqb a b && leb t.last_activity_at u.last_activity_at

-- Rows that the order leaves equal come in any order of the database's; here in that of the table.
unfoldable pub apply_inbox_order : String → List Row → List Row
apply_inbox_order bucket rows =
    if bucket == "mine"
    then sort by_recent rows
    else if bucket == "unassigned"
    then sort by_rank rows
    else if bucket == "offered"
    then sort by_expiry rows
    else rows

abbrev pub unjoined : Ticket → Row
unjoined t = (t, none)

abbrev pub is_offered_to : Option String → Ticket → TicketOffer → Bool
is_offered_to who t o = o.ticket_id == t.id && opt_eq (some o.user_id) who && o.status == "offered"

abbrev pub offers_of : Option String → List TicketOffer → Ticket → List Row
offers_of who offers t = map (λ o. (t, o.expires_at)) (where_ (is_offered_to who t) offers)

-- An inner join: one row for each offer of each ticket.
abbrev pub joined : Option String → List TicketOffer → List Ticket → List Row
joined who offers [] = []
joined who offers (t ∷ ts) = offers_of who offers t ++ joined who offers ts

abbrev pub is_here : Uuid → Ticket → Bool
is_here workspace t = t.workspace_id == workspace

abbrev pub is_mine : Actor → Ticket → Bool
is_mine actor t = opt_eq t.assignee_user_id actor.id

abbrev pub is_unassigned : Ticket → Bool
is_unassigned t = not (is_some t.assignee_user_id) && t.status == "open"

-- `none` is an invalid bucket.
unfoldable pub bucket_rows : String → Uuid → Actor → Db → Option (List Row)
bucket_rows bucket workspace actor db =
    let here = where_ (is_here workspace) db.tickets in
    if bucket == "mine"
    then some (map unjoined (where_ (is_mine actor) here))
    else if bucket == "offered"
    then some (joined actor.id db.ticket_offers here)
    else if bucket == "unassigned"
    then some (map unjoined (where_ is_unassigned here))
    else none

abbrev pub is_account_of : Option Uuid → String → ChannelAccount → Bool
is_account_of id kind c = opt_eq id (some c.id) && c.kind == kind

abbrev pub on_channel : Option String → List ChannelAccount → Row → Bool
on_channel channel accounts (t, _) =
    if truthy channel
    then any (λ c. is_account_of t.channel_account_id (elim channel [ none ↦ "" | some k ↦ k ]) c)
        accounts
    else true

unfoldable pub inbox_rows : String → Option String → List ChannelAccount → List Row → List Row
inbox_rows bucket channel accounts rows =
    take 100 (apply_inbox_order bucket (where_ (on_channel channel accounts) rows))

unfoldable pub details : List Row → M (List TicketDetail)
details [] = pure []
details (r ∷ rows) = do d ← ticket_detail r.0; ds ← details rows; pure (d ∷ ds)

unfoldable pub answer_rows : String → Option String → Option (List Row) → M (List TicketDetail)
answer_rows bucket channel none = raise (http 400 "Invalid bucket")
answer_rows bucket channel (some rows) = do
  accounts ← gets (λ s. s.db.channel_accounts)
  details (inbox_rows bucket channel accounts rows)

unfoldable pub list_inbox_tickets : String → Option String → Uuid → Actor → M (List TicketDetail)
list_inbox_tickets bucket channel workspace actor = do
  rows ← gets (λ s. bucket_rows bucket workspace actor s.db)
  answer_rows bucket channel rows

unfoldable pub claim_time : Ticket → M Time
claim_time t = elim t.first_assigned_at [ none ↦ now | some at ↦ pure at ]

abbrev pub claimed : Actor → Time → Time → Ticket → Ticket
claimed actor assigned at t =
    touch_ticket_activity at
      (record t { assignee_user_id = actor.id; status = "open"; first_assigned_at = some assigned })

unfoldable pub take_ticket : Uuid → Actor → Uuid → M TicketDetail
take_ticket workspace actor id = do
  t ← own_ticket workspace id
  assigned ← claim_time t
  at ← now
  save_ticket (claimed actor assigned at t)
  commit_and_notify
  t ← refresh (claimed actor assigned at t)
  publish_inbox_event (claimed_event workspace t.id actor)
  ticket_detail t

unfoldable pub claim_ticket : Uuid → Actor → Uuid → M TicketDetail
claim_ticket workspace actor id =
    if has_permission actor "crm.tickets.claim" "allow"
    then take_ticket workspace actor id
    else raise (http 403 "Missing crm.tickets.claim")

abbrev pub is_presence_of : Option String → AgentPresence → Bool
is_presence_of who p = opt_eq (some p.user_id) who

unfoldable pub find_presence : Actor → M (Option AgentPresence)
find_presence actor = do
  rows ← gets (λ s. where_ (is_presence_of actor.id) s.db.agent_presence)
  scalar_one_or_none rows

abbrev pub or_offline : Option AgentPresence → String
or_offline none = "offline"
or_offline (some p) = p.status

unfoldable pub get_presence : Actor → M String
get_presence actor = do found ← find_presence actor; pure (or_offline found)

abbrev pub text_of : Option String → String
text_of none = ""
text_of (some s) = s

-- The columns that the handler leaves out have the defaults of the table.
abbrev pub new_presence : Actor → String → Time → AgentPresence
new_presence actor status at = record {
  user_id = text_of actor.id;
  status = status;
  on_voice_call = false;
  last_assigned_at = none;
  updated_at = at;
}

unfoldable pub set_presence : Actor → String → Option AgentPresence → M Unit
set_presence actor status found = do
  at ← now
  elim found [
    | none ↦ write (λ db. record db {
      agent_presence = db.agent_presence ++ new_presence actor status at ∷ [];
    })
    | some p ↦ write (λ db. record db {
      agent_presence =
          update_rows (is_presence_of actor.id) (λ p. record p { status = status; updated_at = at })
            db.agent_presence;
    })
  ]

abbrev pub presence_event : Uuid → Actor → String → Dict String
presence_event workspace actor status =
    ("type", "presence.updated")
    ∷ ("workspace_id", workspace)
    ∷ ("user_id", who_text actor.id)
    ∷ ("status", status)
    ∷ []

unfoldable pub update_presence : Uuid → Actor → String → M Unit
update_presence workspace actor status = do
  found ← find_presence actor
  set_presence actor status found
  commit_and_notify
  publish_inbox_event (presence_event workspace actor status)
