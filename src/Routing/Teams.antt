-- ===== src/Routing/Teams.antt =====
-- The teams of support are found whatever teams there were, in
-- src/phera/modules/routing/support_teams.py.
use phera.Common.{
  String, ◌≡◌, refl, ◌∙◌, inl, inr, Option, none, some, List, [], ◌∷◌, ◌==◌, Dict, get, put,
  get-put, eq_refl, Option-cases, Bool-cases, where_,
}
use phera.Models.{Uuid, Team, RoutingPolicy, RoutingTier, Db}
use phera.Session.{M, Session, ok, pure, gets, write, uuid4, ◌>>=◌}
use phera.Session.Atomic.{IsSafe, bind-IsSafe, pure-IsSafe, gets-IsSafe, safe}
use phera.Routing.SupportTeams.{
  Wanted, rename_team, rename_legacy, named_or_new, ensure_teams, align_tier, tier_at, align_tiers,
  wanted_tiers, align_policy, ensure_support_routing, support_team_defs, legacy_team_slugs, by_slug,
  oldest,
}

-- The index has a team of the slug.
abbrev Has : String → Dict Team → Type 0
Has slug teams = (t : Team) × (get slug teams ≡ some t)

-- The action answers an index for which this holds.
abbrev AnswersSuch : M (Dict Team) → Session → (Dict Team → Type 0) → Type 0
AnswersSuch m s P = (teams : Dict Team) × ((m s).0 ≡ ok teams) × P teams

put-Has :
    (slug : String) (t : Team) (teams : Dict Team) (j : String)
    → Has j teams
    → Has j (put slug t teams)
put-Has slug t teams j (u, h) = elim (Bool-cases (slug == j)) [
  | inl q ↦ (t, get-put slug j t teams ∙ rw q refl)
  | inr q ↦ (u, get-put slug j t teams ∙ rw q h)
]

put_self : (slug : String) (t : Team) (teams : Dict Team) → Has slug (put slug t teams)
put_self slug t teams = (t, get-put slug slug t teams ∙ rw (eq_refl slug) refl)

-- One definition: its team is there, and those that were there are.
named_or_new-Has :
    (workspace : Uuid) (slug name : String) (teams : Dict Team) (s : Session)
    → AnswersSuch
        (named_or_new workspace slug name teams (get slug teams))
        s
        (λ teams'. Has slug teams' × ((j : String) → Has j teams → Has j teams'))
unfolding named_or_new pure write uuid4 ◌>>=◌
named_or_new-Has workspace slug name teams s = elim (Option-cases (get slug teams)) [
  | inl absent ↦ rw absent (_, refl, (put_self slug _ teams, put-Has slug _ teams))
  | inr (team, found) ↦ elim (Bool-cases (team.name == name)) [
    | inl same ↦ rw (found, same) (teams, refl, ((team, found), λ j h. h))
    | inr other ↦ rw (found, other) (_, refl, (put_self slug _ teams, put-Has slug _ teams))
  ]
]

-- All definitions.
abbrev AllHave : Dict String → Dict Team → Type 0
AllHave [] teams = Unit
AllHave ((slug, name) ∷ defs) teams = Has slug teams × AllHave defs teams

ensure_teams-Have :
    (workspace : Uuid) (defs : Dict String) (teams : Dict Team) (s : Session)
    → AnswersSuch
        (ensure_teams workspace defs teams)
        s
        (λ teams'. AllHave defs teams' × ((j : String) → Has j teams → Has j teams'))
unfolding ensure_teams pure ◌>>=◌
ensure_teams-Have workspace [] teams s = (teams, refl, (tt, λ j h. h))
ensure_teams-Have workspace ((slug, name) ∷ defs) teams s =
    let (mid, q, (own, kept)) = named_or_new-Has workspace slug name teams s in
    let (last, r, (all, rest)) =
      ensure_teams-Have workspace defs mid
        (named_or_new workspace slug name teams (get slug teams) s).1 in
    (last, rw q r, ((rest slug own, all), λ j h. rest j (kept j h)))

write-IsSafe : (f : Db → Db) → IsSafe (write f)
unfolding write
write-IsSafe f s = (tt, refl)

uuid4-IsSafe : IsSafe uuid4
unfolding uuid4
uuid4-IsSafe s = (s.uuids s.drawn, refl)

rename_team-IsSafe :
    (old slug name : String) (teams : Dict Team) (found : Option Team)
    → IsSafe (rename_team old slug name teams found)
unfolding rename_team
rename_team-IsSafe old slug name teams none = search safe
rename_team-IsSafe old slug name teams (some team) = search (safe, write-IsSafe) depth 8

rename_legacy-IsSafe :
    (legacy : List (String × String × String)) (teams : Dict Team)
    → IsSafe (rename_legacy legacy teams)
unfolding rename_legacy
rename_legacy-IsSafe [] teams = search safe
rename_legacy-IsSafe ((old, slug, name) ∷ rest) teams =
    bind-IsSafe _ _ (rename_team-IsSafe old slug name teams (get old teams))
      (rename_legacy-IsSafe rest)

align_tier-IsSafe :
    (policy : Uuid) (wanted : Wanted) (found : Option RoutingTier)
    → IsSafe (align_tier policy wanted found)
unfolding align_tier
align_tier-IsSafe policy wanted none = search (safe, write-IsSafe, uuid4-IsSafe) depth 8
align_tier-IsSafe policy wanted (some t) = search (safe, write-IsSafe)

align_tiers-IsSafe :
    (policy : Uuid) (existing : List RoutingTier) (wanted : List Wanted)
    → IsSafe (align_tiers policy existing wanted)
unfolding align_tiers
align_tiers-IsSafe policy existing [] = search safe
align_tiers-IsSafe policy existing (w ∷ rest) =
    bind-IsSafe _ _ (align_tier-IsSafe policy w (tier_at w.0 existing))
      (λ _. align_tiers-IsSafe policy existing rest)

align_policy-IsSafe :
    (teams : Dict Team) (found : Option RoutingPolicy)
    → AllHave support_team_defs teams
    → IsSafe (align_policy teams found)
unfolding align_policy wanted_tiers
align_policy-IsSafe teams none h = search safe
align_policy-IsSafe teams (some policy) ((a, p), ((b, q), _)) =
    bind-IsSafe _ _ (gets-IsSafe _) λ existing.
      rw (p, q) (bind-IsSafe _ _ (pure-IsSafe _) (align_tiers-IsSafe policy.id existing))

-- The teams, and what follows them.
abbrev rest_of : Uuid → Dict Team → M Unit
rest_of workspace teams =
    gets (λ s. oldest (where_ (λ p. p.workspace_id == workspace) s.db.routing_policies))
    >>= (λ policy. align_policy teams policy)

rest-IsSafe :
    (workspace : Uuid) (teams : Dict Team)
    → AllHave support_team_defs teams
    → IsSafe (rest_of workspace teams)
rest-IsSafe workspace teams all =
    bind-IsSafe _ _ (gets-IsSafe _) (λ policy. align_policy-IsSafe teams policy all)

ensured-IsSafe :
    (workspace : Uuid) (teams : Dict Team)
    → IsSafe (ensure_teams workspace support_team_defs teams >>= (λ teams. rest_of workspace teams))
unfolding ◌>>=◌
ensured-IsSafe workspace teams s =
    let (last, q, (all, _)) = ensure_teams-Have workspace support_team_defs teams s in
    rw q (rest-IsSafe workspace last all (ensure_teams workspace support_team_defs teams s).1)

-- Whatever teams, old slugs, policies and tiers a workspace has, the alignment of its support routing
-- ends and raises nothing: both teams that the tiers need are found, though any of them may be missing,
-- misnamed or under an old slug.
pub ensure_support_routing-IsSafe : (workspace : Uuid) → IsSafe (ensure_support_routing workspace)
unfolding ensure_support_routing
ensure_support_routing-IsSafe workspace = bind-IsSafe _ _ (gets-IsSafe _) λ rows.
    bind-IsSafe _ _ (rename_legacy-IsSafe legacy_team_slugs (by_slug rows []))
      λ teams. ensured-IsSafe workspace teams
