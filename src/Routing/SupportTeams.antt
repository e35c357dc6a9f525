-- ===== src/Routing/SupportTeams.antt =====
-- src/phera/modules/routing/support_teams.py: the teams and tiers of support, kept in line with the
-- staff's roles.
use phera.Common.{
  ℕ, String, Bool, true, false, ◌&&◌, Option, none, some, List, [], ◌∷◌, ◌++◌, ◌==◌, if◌then◌else◌,
  ltb, eqb, where_, update_rows, Dict, get, put,
}
use phera.Models.{Uuid, Team, RoutingPolicy, RoutingTier}
use phera.Session.{M, pure, gets, write, uuid4, ◌>>=◌, ◌>>◌, raise, key_error}

abbrev pub support_team_defs : Dict String
support_team_defs = ("support_agent", "Support agents") ∷ ("support_admin", "Support admins") ∷ []

-- An old slug, the slug and the name that it becomes.
abbrev pub legacy_team_slugs : List (String × String × String)
legacy_team_slugs =
    ("support_l1", "support_agent", "Support agents")
    ∷ ("support_l2", "support_admin", "Support admins")
    ∷ []

-- `{team.slug: team for team in …}`
unfoldable pub by_slug : List Team → Dict Team → Dict Team
by_slug [] teams = teams
by_slug (t ∷ rows) teams = by_slug rows (put t.slug t teams)

-- `teams.pop(slug)`
unfoldable pub drop : String → Dict Team → Dict Team
drop slug [] = []
drop slug ((k, t) ∷ teams) = if k == slug then teams else (k, t) ∷ drop slug teams

abbrev is_in : String → Dict Team → Bool
is_in slug teams = elim (get slug teams) [ none ↦ false | some t ↦ true ]

-- What is written through a team object.
abbrev change_team : Uuid → (Team → Team) → M Unit
change_team id change =
    write (λ db. record db { teams = update_rows (λ t. t.id == id) change db.teams })

abbrev renamed : String → String → Team → Team
renamed slug name t = record t { slug = slug; name = name }

unfoldable pub rename_team : String → String → String → Dict Team → Option Team → M (Dict Team)
rename_team old slug name teams none = pure teams
rename_team old slug name teams (some team) = if is_in slug teams then pure teams else do
  change_team team.id (renamed slug name)
  pure (put slug (renamed slug name team) (drop old teams))

unfoldable pub rename_legacy : List (String × String × String) → Dict Team → M (Dict Team)
rename_legacy [] teams = pure teams
rename_legacy ((old, slug, name) ∷ rest) teams = do
  teams ← rename_team old slug name teams (get old teams)
  rename_legacy rest teams

abbrev new_team : Uuid → Uuid → String → String → Team
new_team id workspace slug name = record {
  id = id;
  workspace_id = workspace;
  name = name;
  slug = slug;
}

-- The team of a slug, with its name, or a new one.
unfoldable pub named_or_new : Uuid → String → String → Dict Team → Option Team → M (Dict Team)
named_or_new workspace slug name teams (some team) = if team.name == name then pure teams else do
  change_team team.id (λ t. record t { name = name })
  pure (put slug (record team { name = name }) teams)
named_or_new workspace slug name teams none = do
  id ← uuid4
  write (λ db. record db { teams = db.teams ++ new_team id workspace slug name ∷ [] })
  pure (put slug (new_team id workspace slug name) teams)

unfoldable pub ensure_teams : Uuid → Dict String → Dict Team → M (Dict Team)
ensure_teams workspace [] teams = pure teams
ensure_teams workspace ((slug, name) ∷ defs) teams = do
  teams ← named_or_new workspace slug name teams (get slug teams)
  ensure_teams workspace defs teams

-- `ORDER BY created_at ASC LIMIT 1`
unfoldable pub oldest : List RoutingPolicy → Option RoutingPolicy
oldest [] = none
oldest (p ∷ rows) = elim (oldest rows) [
  | none ↦ some p
  | some q ↦ some (if ltb q.created_at p.created_at then q else p)
]

-- `{tier.position: tier for tier in …}`: the last tier of a position.
unfoldable pub tier_at : ℕ → List RoutingTier → Option RoutingTier
tier_at position [] = none
tier_at position (t ∷ rows) = elim (tier_at position rows) [
  | some u ↦ some u
  | none ↦ if eqb t.position position then some t else none
]

abbrev pub Wanted : Type 0
Wanted = ℕ × String × Uuid × Option ℕ

abbrev is_zero_unset : ℕ → RoutingTier → Bool
is_zero_unset position t =
    eqb position 0 && elim t.overflow_after_seconds [ none ↦ true | some seconds ↦ false ]

-- The tier's name, team and, at position 0, its overflow where it has none.
unfoldable pub aligned : Wanted → RoutingTier → RoutingTier
aligned (position, name, team, overflow) t = record t {
  name = name;
  team_id = some team;
  overflow_after_seconds = if is_zero_unset position t then overflow else t.overflow_after_seconds;
}

abbrev new_tier : Uuid → Uuid → Wanted → RoutingTier
new_tier id policy (position, name, team, overflow) = record {
  id = id;
  policy_id = policy;
  position = position;
  name = name;
  team_id = some team;
  overflow_after_seconds = overflow;
}

unfoldable pub align_tier : Uuid → Wanted → Option RoutingTier → M Unit
align_tier policy wanted (some tier) = write (λ db. record db {
  routing_tiers = update_rows (λ t. t.id == tier.id) (aligned wanted) db.routing_tiers;
})
align_tier policy wanted none = do
  id ← uuid4
  write (λ db. record db { routing_tiers = db.routing_tiers ++ new_tier id policy wanted ∷ [] })

-- The tiers are those that stood before any was aligned.
unfoldable pub align_tiers : Uuid → List RoutingTier → List Wanted → M Unit
align_tiers policy existing [] = pure tt
align_tiers policy existing (wanted ∷ rest) = do
  align_tier policy wanted (tier_at wanted.0 existing)
  align_tiers policy existing rest

-- `teams["support_agent"].id` and `teams["support_admin"].id`
unfoldable pub wanted_tiers : Option Team → Option Team → M (List Wanted)
wanted_tiers (some agents) (some admins) =
    pure ((0, "Support agents", agents.id, some 120) ∷ (1, "Support admins", admins.id, none) ∷ [])
wanted_tiers _ _ = raise key_error

unfoldable pub align_policy : Dict Team → Option RoutingPolicy → M Unit
align_policy teams none = pure tt
align_policy teams (some policy) = do
  existing ← gets (λ s. where_ (λ t. t.policy_id == policy.id) s.db.routing_tiers)
  wanted ← wanted_tiers (get "support_agent" teams) (get "support_admin" teams)
  align_tiers policy.id existing wanted

unfoldable pub ensure_support_routing : Uuid → M Unit
ensure_support_routing workspace = do
  rows ← gets (λ s. where_ (λ t. t.workspace_id == workspace) s.db.teams)
  teams ← rename_legacy legacy_team_slugs (by_slug rows [])
  teams ← ensure_teams workspace support_team_defs teams
  policy ← gets (λ s. oldest (where_ (λ p. p.workspace_id == workspace) s.db.routing_policies))
  align_policy teams policy
