-- ===== src/Tickets/Joining.antt =====
-- `_reuse_or_create_ticket` and `_apply_reopen_assignee` of src/phera/modules/tickets/inbound.py:
-- the ticket that a message or call joins.
use Prim.Native.String
use phera.Common.{
  ℕ, ◌-◌, ◌*◌, String, Bool, true, false, not, ◌&&◌, ◌||◌, Option, none, some, List, [], ◌∷◌, ◌==◌,
  if◌then◌else◌, opt_eq, truthy, or_else, elem, ltb, leb, where_, update_rows, strip, take_chars,
}
use phera.Models.{Uuid, Time, Contact, Ticket, Message, ChannelAccount}
use phera.Session.{M, pure, gets, write, uuid4, now, scalar_one_or_none, ◌>>=◌, ◌>>◌}
use phera.Mutate.{is_nil}
use phera.Tickets.Coerce.{assignee_queue, open_statuses}
use phera.Tickets.ReusePolicy.{
  EffectiveReusePolicy, allows_status, reusable_statuses, find_profile, flags_of,
}
use phera.Tickets.SupportAgents.{support_agent_ids}
use phera.Tickets.ShortId.{search_token, has_short_id, insert_ticket_with_short_id}
use phera.Tickets.Contacts.{Inbound}

-- `session.get(Ticket, id)`
unfoldable pub find_ticket : Uuid → List Ticket → Option Ticket
find_ticket id [] = none
find_ticket id (t ∷ ts) = if t.id == id then some t else find_ticket id ts

-- What is written through a ticket object; the database sets `updated_at`.
unfoldable pub save_ticket : Ticket → M Unit
save_ticket ticket = do
  time ← gets (λ s. s.db_now)
  write (λ db. record db {
    tickets =
        update_rows (λ t. t.id == ticket.id) (λ _. record ticket { updated_at = time }) db.tickets;
  })

-- `ticket if ticket and policy.allows_status(ticket.status)`
abbrev pub if_allowed : EffectiveReusePolicy → Option Ticket → Option Ticket
if_allowed policy none = none
if_allowed policy (some t) = if allows_status policy t.status then some t else none

abbrev pub has_provider_id : Option String → Message → Bool
has_provider_id id m = opt_eq m.provider_message_id id

-- The ticket of the message that this one replies to.
abbrev pub ticket_of_message : Option Message → List Ticket → Option Ticket
ticket_of_message none tickets = none
ticket_of_message (some prior) tickets = elim prior.ticket_id [
  | none ↦ none
  | some id ↦ find_ticket id tickets
]

unfoldable pub reply_ticket : EffectiveReusePolicy → Inbound → M (Option Ticket)
reply_ticket policy inbound = if not (truthy inbound.in_reply_to) then pure none else do
  rows ← gets (λ s. where_ (has_provider_id inbound.in_reply_to) s.db.messages)
  prior ← scalar_one_or_none rows
  gets (λ s. if_allowed policy (ticket_of_message prior s.db.tickets))

abbrev pub blank_or : Option String → String
blank_or none = ""
blank_or (some s) = s

-- The ticket of the workspace that the subject names by its token.
unfoldable pub subject_ticket : Uuid → EffectiveReusePolicy → Inbound → M (Option Ticket)
subject_ticket workspace policy inbound = elim (search_token (blank_or inbound.subject)) [
  | none ↦ pure none
  | some id ↦ do
    rows ← gets (λ s. where_ (λ t. t.workspace_id == workspace && has_short_id id t) s.db.tickets)
    ticket ← scalar_one_or_none rows
    pure (if_allowed policy ticket)
]

-- `column >= cutoff`; a missing time is not.
abbrev pub since : Time → Option Time → Bool
since cutoff none = false
since cutoff (some t) = leb cutoff t

abbrev pub is_recent : Time → Ticket → Bool
is_recent cutoff t =
    leb cutoff t.last_activity_at
    || (since cutoff t.resolved_at || (since cutoff t.closed_at || leb cutoff t.updated_at))

abbrev pub is_reusable :
    Uuid → Contact → ChannelAccount → EffectiveReusePolicy → Time → Ticket → Bool
is_reusable workspace contact channel policy cutoff t =
    t.workspace_id == workspace
    && (t.contact_id == contact.id
        && (opt_eq t.channel_account_id (some channel.id)
            && (elem t.status (reusable_statuses policy) && is_recent cutoff t)))

abbrev pub rank : Ticket → ℕ
rank t = if elem t.status open_statuses then 0 else 1

-- `ORDER BY rank, last_activity_at DESC`: whether the first stands before the second.
abbrev pub precedes : Ticket → Ticket → Bool
precedes t u =
    ltb (rank t) (rank u) || (leb (rank t) (rank u) && leb u.last_activity_at t.last_activity_at)

-- `LIMIT 1` of the ordered rows.
unfoldable pub best : List Ticket → Option Ticket
best [] = none
best (t ∷ ts) = elim (best ts) [ none ↦ some t | some u ↦ some (if precedes t u then t else u) ]

-- Times are in microseconds. No stored time is before the epoch, where the subtraction stops.
unfoldable pub recent_ticket :
    Uuid → Contact → ChannelAccount → EffectiveReusePolicy → M (Option Ticket)
recent_ticket workspace contact channel policy = do
  at ← now
  let cutoff = at - policy.window_seconds * 1_000_000
  gets (λ s. best (where_ (is_reusable workspace contact channel policy cutoff) s.db.tickets))

-- The text of `f"{who}"`.
abbrev pub who_text : Option String → String
who_text none = "None"
who_text (some s) = s

unfoldable pub subject_text : ChannelAccount → Inbound → String
subject_text channel inbound =
    let preview = take_chars 80 (strip (blank_or inbound.body)) in
    let who =
      who_text
        (or_else (or_else inbound.contact_name inbound.contact_phone) inbound.contact_email) in
    if truthy inbound.subject
    then blank_or inbound.subject
    else if not (preview == "")
    then preview
    else if channel.kind == "voice"
    then String.◌++◌ "Call from " who
    else if channel.kind == "messaging"
    then String.◌++◌ "WhatsApp from " who
    else String.◌++◌ "Email from " who

abbrev pub new_ticket : Uuid → Time → Uuid → Contact → ChannelAccount → Inbound → Time → Ticket
new_ticket id time workspace contact channel inbound at = record {
  id = id;
  workspace_id = workspace;
  contact_id = contact.id;
  channel_account_id = some channel.id;
  assignee_user_id = none;
  routing_tier = 1;
  short_id = none;
  subject = some (subject_text channel inbound);
  status = "open";
  priority = "normal";
  last_activity_at = at;
  created_at = time;
  updated_at = time;
  status_entered_at = some at;
  first_assigned_at = none;
  first_response_at = none;
  resolved_at = none;
  closed_at = none;
}

-- `inbound.get("occurred_at") or datetime.now(UTC)`
unfoldable pub message_time : Inbound → M Time
message_time inbound = elim inbound.occurred_at [ none ↦ now | some at ↦ pure at ]

unfoldable pub create_ticket : Uuid → Contact → ChannelAccount → Inbound → M Ticket
create_ticket workspace contact channel inbound = do
  at ← message_time inbound
  id ← uuid4
  time ← gets (λ s. s.db_now)
  insert_ticket_with_short_id (new_ticket id time workspace contact channel inbound at)

-- The ticket, and whether it was created.
unfoldable pub reuse_or_create_ticket :
    Uuid → Contact → ChannelAccount → Inbound → EffectiveReusePolicy → M (Ticket × Bool)
reuse_or_create_ticket workspace contact channel inbound policy = do
  replied ← reply_ticket policy inbound
  elim replied [
    | some t ↦ pure (t, false)
    | none ↦ do
      named ← subject_ticket workspace policy inbound
      elim named [
        | some t ↦ pure (t, false)
        | none ↦ do
          existing ← recent_ticket workspace contact channel policy
          elim existing [
            | some t ↦ pure (t, false)
            | none ↦ do t ← create_ticket workspace contact channel inbound; pure (t, true)
          ]
      ]
  ]

-- `_apply_reopen_assignee`: who keeps the ticket, given the workspace's support agents.
unfoldable pub reopen_assignee : EffectiveReusePolicy → List String → Option String → Option String
reopen_assignee policy agents none = none
reopen_assignee policy agents (some user) =
    if policy.on_reopen_assignee == assignee_queue
    then none
    else if user == ""
    then some user
    else if not (is_nil agents) && not (elem user agents)
    then none
    else some user

abbrev pub is_done : Ticket → Bool
is_done t = t.status == "resolved" || t.status == "closed"

abbrev pub reopened : EffectiveReusePolicy → List String → Time → Ticket → Ticket
reopened policy agents at t = record t {
  status = "open";
  resolved_at = none;
  closed_at = none;
  status_entered_at = some at;
  assignee_user_id = reopen_assignee policy agents t.assignee_user_id;
}

-- `if ticket.status in ("resolved", "closed")`
unfoldable pub reopen : Uuid → EffectiveReusePolicy → Ticket → M Ticket
reopen workspace policy t = if not (is_done t) then pure t else do
  at ← now
  agents ←
      gets
        (λ s. support_agent_ids s.repr (flags_of (find_profile workspace s.db.ownership_profiles)))
  save_ticket (reopened policy agents at t)
  pure (reopened policy agents at t)

abbrev pub touch : Time → Ticket → Ticket
touch at t = record t { last_activity_at = at }
