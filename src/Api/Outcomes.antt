-- ===== src/Api/Outcomes.antt =====
-- What the failed requests of src/phera/api/routes/contacts.py leave, about contacts, pipelines and new
-- deals.
use phera.Common.{String, Option, none, some}
use phera.Models.{Uuid, Contact}
use phera.Session.Atomic.{IsAtomic, IsQuiet, quiet, safe, atomic}
use phera.Authz.Actor.{Actor}
use phera.Mutate.Recorded.{mutate-IsQuiet}
use phera.Api.Contacts.{
  ContactCreate, create_contact, update_contact, live_contact, get_contact, rename, save_contact,
}
use phera.Api.Contacts.Quiet.{own_contact-IsQuiet}
use phera.Api.Pipelines.{
  PipelineCreate, create_pipeline, replace_pipeline_teams, require_manage_pipelines, add_stages,
  own_pipeline, own_pipeline_row, check_teams,
}
use phera.Api.Deals.{DealCreate, create_deal, insert_deal}
use phera.Common.{ℕ, suc, List, [], ◌∷◌}
use phera.Models.{Pipeline}

live_contact-IsQuiet : (workspace id : Uuid) → IsQuiet (live_contact workspace id)
unfolding live_contact get_contact
live_contact-IsQuiet workspace id = search (quiet, own_contact-IsQuiet) depth 8

save_contact-IsQuiet : (c : Contact) → IsQuiet (save_contact c)
unfolding save_contact
save_contact-IsQuiet c = search quiet

rename-IsQuiet :
    (actor : Actor) (c : Contact) (name : Option String) → IsQuiet (rename actor c name)
unfolding rename
rename-IsQuiet actor c name = search (quiet, save_contact-IsQuiet, mutate-IsQuiet) depth 8

pub create_contact-IsAtomic :
    (workspace : Uuid) (actor : Actor) (body : ContactCreate)
    → IsAtomic (create_contact workspace actor body)
unfolding create_contact
create_contact-IsAtomic workspace actor body = search (quiet, safe, atomic, mutate-IsQuiet) depth 12

pub update_contact-IsAtomic :
    (workspace : Uuid) (actor : Actor) (id : Uuid) (name : Option String)
    → IsAtomic (update_contact workspace actor id name)
unfolding update_contact
update_contact-IsAtomic workspace actor id name =
    search (quiet, safe, atomic, live_contact-IsQuiet, rename-IsQuiet) depth 12

require_manage-IsQuiet : (actor : Actor) → IsQuiet (require_manage_pipelines actor)
unfolding require_manage_pipelines
require_manage-IsQuiet actor = search quiet

add_stages-IsQuiet :
    (pipeline : Uuid) (n : ℕ) (names : List String) → IsQuiet (add_stages pipeline n names)
unfolding add_stages
add_stages-IsQuiet pipeline n [] = search quiet
add_stages-IsQuiet pipeline n (name ∷ names) =
    search (quiet, add_stages-IsQuiet pipeline (suc n) names) depth 8

own_pipeline_row-IsQuiet :
    (workspace : Uuid) (found : Option Pipeline) → IsQuiet (own_pipeline_row workspace found)
unfolding own_pipeline_row
own_pipeline_row-IsQuiet workspace none = search quiet
own_pipeline_row-IsQuiet workspace (some p) = search quiet

own_pipeline-IsQuiet : (workspace id : Uuid) → IsQuiet (own_pipeline workspace id)
unfolding own_pipeline
own_pipeline-IsQuiet workspace id = search (quiet, own_pipeline_row-IsQuiet)

check_teams-IsQuiet : (workspace : Uuid) (ids : List Uuid) → IsQuiet (check_teams workspace ids)
unfolding check_teams
check_teams-IsQuiet workspace ids = search quiet

pub create_pipeline-IsAtomic :
    (workspace : Uuid) (actor : Actor) (body : PipelineCreate)
    → IsAtomic (create_pipeline workspace actor body)
unfolding create_pipeline
create_pipeline-IsAtomic workspace actor body =
    search (quiet, safe, atomic, require_manage-IsQuiet, add_stages-IsQuiet) depth 12

pub replace_pipeline_teams-IsAtomic :
    (workspace : Uuid) (actor : Actor) (id : Uuid) (ids : List Uuid)
    → IsAtomic (replace_pipeline_teams workspace actor id ids)
unfolding replace_pipeline_teams
replace_pipeline_teams-IsAtomic workspace actor id ids =
    search (quiet, safe, atomic, require_manage-IsQuiet, own_pipeline-IsQuiet, check_teams-IsQuiet)
      depth 12

pub create_deal-IsAtomic :
    (workspace : Uuid) (actor : Actor) (body : DealCreate)
    → IsAtomic (create_deal workspace actor body)
unfolding create_deal insert_deal
create_deal-IsAtomic workspace actor body = search (quiet, safe, atomic, mutate-IsQuiet) depth 12
