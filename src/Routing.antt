-- ===== src/Routing.antt =====
-- src/phera/modules/routing/engine.py: which agent gets a ticket or a call.
pub mod Choice
pub mod SupportTeams
pub mod Teams
mod Examples
use phera.Common.{
  ℕ, String, Bool, true, false, not, ◌&&◌, ◌||◌, Option, none, some, List, [], ◌∷◌, ◌++◌, ◌==◌,
  if◌then◌else◌, opt_eq, elem, ltb, any, where_, update_rows, length,
}
use phera.Models.{
  Uuid, Time, Ticket, RoutingPolicy, RoutingTier, AgentPresence, AgentTelephonyIdentity,
  TicketOffer, Db,
}
use phera.Session.{M, pure, gets, write, uuid4, now, ◌>>=◌, ◌>>◌}

-- `last_assigned_at ASC NULLS FIRST`: strictly before.
abbrev pub assigned_before : Option Time → Option Time → Bool
assigned_before none none = false
assigned_before none (some u) = true
assigned_before (some t) none = false
assigned_before (some t) (some u) = ltb t u

-- The order of the rows; `le` is the database's order of texts.
abbrev pub stands_before : (String → String → Bool) → AgentPresence → AgentPresence → Bool
stands_before le a b =
    assigned_before a.last_assigned_at b.last_assigned_at
    || (not (assigned_before b.last_assigned_at a.last_assigned_at) && le a.user_id b.user_id)

-- `ORDER BY … LIMIT 1`
unfoldable pub least : (String → String → Bool) → List AgentPresence → Option AgentPresence
least le [] = none
least le (a ∷ others) = elim (least le others) [
  | none ↦ some a
  | some b ↦ some (if stands_before le a b then a else b)
]

abbrev pub is_available : Bool → AgentPresence → Bool
is_available exclude_on_voice_call a =
    a.status == "available" && (not exclude_on_voice_call || not a.on_voice_call)

unfoldable pub select_available_agent :
    (String → String → Bool) → Bool → List AgentPresence → Option AgentPresence
select_available_agent le exclude rows = least le (where_ (is_available exclude) rows)

-- The first tier by position.
unfoldable pub first_tier : List RoutingTier → Option RoutingTier
first_tier [] = none
first_tier (t ∷ ts) = elim (first_tier ts) [
  | none ↦ some t
  | some u ↦ some (if ltb u.position t.position then u else t)
]

abbrev pub team_of : Option RoutingTier → Option Uuid
team_of none = none
team_of (some t) = t.team_id

abbrev pub new_offer : Uuid → Ticket → AgentPresence → Time → TicketOffer
new_offer id ticket agent at = record {
  id = id;
  ticket_id = ticket.id;
  user_id = agent.user_id;
  status = "offered";
  expires_at = some at;
}

unfoldable pub offer_to : Ticket → Option AgentPresence → M (Option TicketOffer)
offer_to ticket none = pure none
offer_to ticket (some agent) = do
  id ← uuid4
  at ← now
  write (λ db. record db { ticket_offers = db.ticket_offers ++ new_offer id ticket agent at ∷ [] })
  pure (some (new_offer id ticket agent at))

unfoldable pub route_unassigned_ticket :
    (String → String → Bool) → Ticket → RoutingPolicy → M (Option TicketOffer)
route_unassigned_ticket le ticket policy = do
  tier ← gets (λ s. first_tier (where_ (λ t. t.policy_id == policy.id) s.db.routing_tiers))
  elim (team_of tier) [
    | none ↦ pure none
    | some team ↦ do
      agent ← gets (λ s. select_available_agent le policy.focus_on_voice s.db.agent_presence)
      offer_to ticket agent
  ]

abbrev pub is_identity_of : Uuid → AgentPresence → AgentTelephonyIdentity → Bool
is_identity_of workspace a i =
    i.user_id == a.user_id && (i.workspace_id == workspace && i.is_active)

abbrev pub focuses : Option RoutingPolicy → Bool
focuses none = false
focuses (some p) = p.focus_on_voice

-- The join has one row for each identity of an agent, all with the agent's presence.
abbrev pub can_ring : Db → Bool → Uuid → AgentPresence → Bool
can_ring db exclude workspace a =
    is_available exclude a && any (is_identity_of workspace a) db.agent_identities

abbrev pub assigned_at : Time → AgentPresence → AgentPresence
assigned_at at a = record a { last_assigned_at = some at }

unfoldable pub assign_now : Option AgentPresence → M (Option AgentPresence)
assign_now none = pure none
assign_now (some agent) = do
  at ← now
  write (λ db. record db {
    agent_presence =
        update_rows (λ a. a.user_id == agent.user_id) (assigned_at at) db.agent_presence;
  })
  pure (some (assigned_at at agent))

unfoldable pub select_agent_for_voice :
    (String → String → Bool) → Option RoutingPolicy → Uuid → M (Option AgentPresence)
select_agent_for_voice le policy workspace = do
  agent ←
      gets (λ s. least le (where_ (can_ring s.db (focuses policy) workspace) s.db.agent_presence))
  assign_now agent

unfoldable pub agent_open_load : String → M ℕ
agent_open_load user = gets (λ s. length (
    where_ (λ t. opt_eq t.assignee_user_id (some user) && elem t.status ("open" ∷ "pending" ∷ []))
      s.db.tickets))
