-- ===== src/Api/Access.antt =====
-- src/phera/api/deps.py, and the lookups of src/phera/authz/service.py: who asks, and in which workspace.
use phera.Common.{
  String, Bool, ◌||◌, Option, none, some, List, [], ◌∷◌, ◌++◌, map, ◌==◌, if◌then◌else◌, opt_eq,
  truthy, where_, first, any, Dict, is_prefix,
}
use phera.Models.{Uuid, Workspace, User, OwnershipProfile, Deal}
use phera.Session.{M, pure, raise, gets, write, ◌>>=◌, ◌>>◌, scalar_one_or_none, http}
use phera.Authz.Actor.{Actor, actor_from_headers, typed_actor}
use phera.Authz.Visibility

-- `get_actor`: the headers with their names in lower case, and the path of the request.
unfoldable pub get_actor : Dict String → String → M Actor
get_actor headers path =
    let actor = actor_from_headers headers in
    if truthy actor.id
    then pure actor
    else if is_prefix "/public/" path || is_prefix "/hooks/" path
    then pure (typed_actor "connector" none)
    else raise (http 401 "Missing X-Actor-Id — proxy misconfigured")

unfoldable pub or_503 : Option Workspace → M Workspace
or_503 none = raise (http 503 "Workspace not initialized — run migrations/seed")
or_503 (some ws) = pure ws

unfoldable pub get_workspace : M Workspace
get_workspace = do
  rows ← gets (λ s. where_ (λ w. w.slug == "default") s.db.workspaces)
  found ← scalar_one_or_none rows
  or_503 found

abbrev pub text_of : Option String → String
text_of none = ""
text_of (some s) = s

abbrev pub has_user : String → List User → Bool
has_user id users = any (λ u. u.id == id) users

abbrev pub stub_of : Actor → Uuid → User
stub_of actor workspace = record {
  id = text_of actor.id;
  email = actor.email;
  name = actor.name;
  workspace_id = workspace;
}

unfoldable pub ensure_user_stub : Actor → Uuid → M Unit
ensure_user_stub actor workspace =
    if truthy actor.id
    then write (λ db.
      if has_user (text_of actor.id) db.users
      then db
      else record db { users = db.users ++ stub_of actor workspace ∷ [] })
    else pure tt

unfoldable pub get_authenticated_actor : Actor → Workspace → M Actor
get_authenticated_actor actor ws =
    if truthy actor.id
    then ensure_user_stub actor ws.id >> pure actor
    else raise (http 401 "Authentication required")

abbrev pub profile_by : Uuid → List OwnershipProfile → Option OwnershipProfile
profile_by workspace rows = first (where_ (λ p. p.workspace_id == workspace) rows)

unfoldable pub get_ownership_profile : Uuid → M (Option OwnershipProfile)
get_ownership_profile workspace = gets (λ s. profile_by workspace s.db.ownership_profiles)

-- The set as a list, which may repeat a team.
unfoldable pub get_actor_team_ids : Actor → M (List Uuid)
get_actor_team_ids actor =
    if truthy actor.id
    then gets (λ s.
      map (λ m. m.team_id) (where_ (λ m. opt_eq (some m.user_id) actor.id) s.db.team_members))
    else pure []

unfoldable pub filter_deals_for_actor : Actor → Uuid → List Deal → M (List Deal)
filter_deals_for_actor actor workspace deals = do
  profile ← get_ownership_profile workspace
  pure (Visibility.filter_deals_for_actor actor profile deals)
