-- ===== src/Api/Teams/Members.antt =====
-- What the writing requests of src/phera/api/routes/teams.py leave.
use phera.Common.{String, Option, none, some}
use phera.Models.{Uuid, Team, TeamMember, User}
use phera.Session.Atomic.{IsQuiet, IsAtomic, quiet, safe, atomic}
use phera.Authz.Actor.{Actor}
use phera.Api.Teams.{
  require_manage, own_team, get_team_or_404, create_team, own_user, put_member, drop_member,
  add_team_member, remove_team_member,
}

require_manage-IsQuiet : (actor : Actor) → IsQuiet (require_manage actor)
unfolding require_manage
require_manage-IsQuiet actor = search quiet

own_team-IsQuiet : (workspace : Uuid) (found : Option Team) → IsQuiet (own_team workspace found)
unfolding own_team
own_team-IsQuiet workspace none = search quiet
own_team-IsQuiet workspace (some t) = search quiet

get_team-IsQuiet : (workspace id : Uuid) → IsQuiet (get_team_or_404 workspace id)
unfolding get_team_or_404
get_team-IsQuiet workspace id = search (quiet, own_team-IsQuiet)

own_user-IsQuiet : (workspace : Uuid) (found : Option User) → IsQuiet (own_user workspace found)
unfolding own_user
own_user-IsQuiet workspace none = search quiet
own_user-IsQuiet workspace (some u) = search quiet

put_member-IsQuiet :
    (team : Uuid) (user role : String) (found : Option TeamMember)
    → IsQuiet (put_member team user role found)
unfolding put_member
put_member-IsQuiet team user role none = search quiet
put_member-IsQuiet team user role (some m) = search quiet

drop_member-IsQuiet :
    (team : Uuid) (user : String) (found : Option TeamMember)
    → IsQuiet (drop_member team user found)
unfolding drop_member
drop_member-IsQuiet team user none = search quiet
drop_member-IsQuiet team user (some m) = search quiet

pub create_team-IsAtomic :
    (workspace : Uuid) (actor : Actor) (name slug : String)
    → IsAtomic (create_team workspace actor name slug)
unfolding create_team
create_team-IsAtomic workspace actor name slug =
    search (quiet, safe, atomic, require_manage-IsQuiet) depth 12

pub add_team_member-IsAtomic :
    (workspace : Uuid) (actor : Actor) (team : Uuid) (user role : String)
    → IsAtomic (add_team_member workspace actor team user role)
unfolding add_team_member
add_team_member-IsAtomic workspace actor team user role =
    search
      (
        quiet, safe, atomic, require_manage-IsQuiet, get_team-IsQuiet, own_user-IsQuiet,
        put_member-IsQuiet,
      )
      depth 16

pub remove_team_member-IsAtomic :
    (workspace : Uuid) (actor : Actor) (team : Uuid) (user : String)
    → IsAtomic (remove_team_member workspace actor team user)
unfolding remove_team_member
remove_team_member-IsAtomic workspace actor team user =
    search (quiet, atomic, require_manage-IsQuiet, get_team-IsQuiet, drop_member-IsQuiet) depth 16
