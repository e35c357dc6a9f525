-- ===== src/Api/Teams.antt =====
-- src/phera/api/routes/teams.py: the teams of a workspace and their members.
pub mod Members
use phera.Common.{
  String, Bool, true, not, ◌&&◌, Option, none, some, List, [], ◌∷◌, ◌++◌, ◌==◌, if◌then◌else◌, elem,
  first, where_, update_rows, sort,
}
use phera.Models.{Uuid, Team, TeamMember, User}
use phera.Session.{M, pure, raise, gets, write, uuid4, ◌>>=◌, ◌>>◌, commit_and_notify, http}
use phera.Authz.Actor.{Actor, has_permission}

unfoldable pub can_manage_teams : Actor → Bool
can_manage_teams actor =
    if actor.unrestricted
    then true
    else if elem "admin" actor.roles
    then true
    else has_permission actor "crm.pipelines.write" "allow"

unfoldable pub require_manage : Actor → M Unit
require_manage actor =
    if can_manage_teams actor
    then pure tt
    else raise (http 403 "Missing team management permission")

pub record TeamMemberOut : Type 0 where
  pub team_id : Uuid
  pub user_id : String
  pub user_email : Option String
  pub user_name : Option String
  pub role : String

abbrev pub team_by : Uuid → List Team → Option Team
team_by id rows = first (where_ (λ t. t.id == id) rows)

abbrev pub user_by : String → List User → Option User
user_by id rows = first (where_ (λ u. u.id == id) rows)

unfoldable pub own_team : Uuid → Option Team → M Team
own_team workspace none = raise (http 404 "Team not found")
own_team workspace (some t) =
    if t.workspace_id == workspace then pure t else raise (http 404 "Team not found")

unfoldable pub get_team_or_404 : Uuid → Uuid → M Team
get_team_or_404 workspace id = do
  found ← gets (λ s. team_by id s.db.teams)
  own_team workspace found

-- `le` is the database's order of texts.
unfoldable pub list_teams : (String → String → Bool) → Uuid → M (List Team)
list_teams le workspace =
    gets
      (λ s. sort (λ a b. le a.slug b.slug) (where_ (λ t. t.workspace_id == workspace) s.db.teams))

abbrev pub new_team : Uuid → Uuid → String → String → Team
new_team id workspace name slug = record {
  id = id;
  workspace_id = workspace;
  name = name;
  slug = slug;
}

unfoldable pub create_team : Uuid → Actor → String → String → M Team
create_team workspace actor name slug = do
  require_manage actor
  id ← uuid4
  write (λ db. record db { teams = db.teams ++ new_team id workspace name slug ∷ [] })
  commit_and_notify
  pure (new_team id workspace name slug)

abbrev pub member_out : TeamMember → Option User → TeamMemberOut
member_out m user = record {
  team_id = m.team_id;
  user_id = m.user_id;
  user_email = elim user [ none ↦ none | some u ↦ u.email ];
  user_name = elim user [ none ↦ none | some u ↦ u.name ];
  role = m.role;
}

unfoldable pub show_members : List TeamMember → M (List TeamMemberOut)
show_members [] = pure []
show_members (m ∷ members) = do
  user ← gets (λ s. user_by m.user_id s.db.users)
  more ← show_members members
  pure (member_out m user ∷ more)

unfoldable pub list_team_members : Uuid → Uuid → M (List TeamMemberOut)
list_team_members workspace team_id = do
  get_team_or_404 workspace team_id
  members ← gets (λ s. where_ (λ m. m.team_id == team_id) s.db.team_members)
  show_members members

-- The primary key of `team_members`.
abbrev pub is_member : Uuid → String → TeamMember → Bool
is_member team_id user_id m = m.team_id == team_id && m.user_id == user_id

abbrev pub member_by : Uuid → String → List TeamMember → Option TeamMember
member_by team_id user_id rows = first (where_ (is_member team_id user_id) rows)

unfoldable pub own_user : Uuid → Option User → M User
own_user workspace none = raise (http 404 "User not found in this workspace")
own_user workspace (some u) =
    if u.workspace_id == workspace
    then pure u
    else raise (http 404 "User not found in this workspace")

-- A new member, or the role of one that there is.
unfoldable pub put_member : Uuid → String → String → Option TeamMember → M Unit
put_member team_id user_id role none = write (λ db. record db {
  team_members =
      db.team_members ++ record { team_id = team_id; user_id = user_id; role = role } ∷ [];
})
put_member team_id user_id role (some m) = write (λ db. record db {
  team_members =
      update_rows (is_member team_id user_id) (λ m. record m { role = role }) db.team_members;
})

unfoldable pub add_team_member : Uuid → Actor → Uuid → String → String → M TeamMemberOut
add_team_member workspace actor team_id user_id role = do
  require_manage actor
  get_team_or_404 workspace team_id
  found ← gets (λ s. user_by user_id s.db.users)
  user ← own_user workspace found
  member ← gets (λ s. member_by team_id user_id s.db.team_members)
  put_member team_id user_id role member
  commit_and_notify
  pure (member_out (record { team_id = team_id; user_id = user_id; role = role }) (some user))

unfoldable pub drop_member : Uuid → String → Option TeamMember → M Unit
drop_member team_id user_id none = raise (http 404 "Team member not found")
drop_member team_id user_id (some m) = write (λ db. record db {
  team_members = where_ (λ m. not (is_member team_id user_id m)) db.team_members;
})

unfoldable pub remove_team_member : Uuid → Actor → Uuid → String → M Unit
remove_team_member workspace actor team_id user_id = do
  require_manage actor
  get_team_or_404 workspace team_id
  member ← gets (λ s. member_by team_id user_id s.db.team_members)
  drop_member team_id user_id member
  commit_and_notify
