-- ===== src/Api/Pipelines.antt =====
-- The pipelines of src/phera/api/routes/contacts.py. Of a stage, its category, time limit and
-- probability are left out.
pub mod Grants
mod Examples
use phera.Common.{
  ℕ, suc, String, Bool, true, false, not, ◌&&◌, ◌||◌, Option, none, some, List, [], ◌∷◌, ◌++◌, map,
  ◌==◌, if◌then◌else◌, elem, where_, first, any, leb, sort,
}
use phera.Models.{Uuid, Pipeline, PipelineTeam, Stage, Team}
use phera.Session.{M, pure, raise, gets, write, uuid4, ◌>>=◌, ◌>>◌, commit_and_notify, http}
use phera.Authz.Actor.{Actor, has_permission}
use phera.Authz.Visibility.{can_see_pipeline}
use phera.Api.Access.{get_actor_team_ids}

unfoldable pub can_manage_pipelines : Actor → Bool
can_manage_pipelines actor =
    if actor.unrestricted
    then true
    else if elem "admin" actor.roles
    then true
    else has_permission actor "crm.pipelines.write" "allow"

unfoldable pub require_manage_pipelines : Actor → M Unit
require_manage_pipelines actor =
    if can_manage_pipelines actor
    then pure tt
    else raise (http 403 "Missing pipeline management permission")

-- A pipeline and its stages.
pub record PipelineOut : Type 0 where
  pub pipeline : Pipeline
  pub stages : List Stage

abbrev pub grants_of : Uuid → List PipelineTeam → List Uuid
grants_of id rows = map (λ g. g.team_id) (where_ (λ g. g.pipeline_id == id) rows)

abbrev pub by_position : Stage → Stage → Bool
by_position a b = leb a.position b.position

abbrev pub stages_of : Uuid → List Stage → List Stage
stages_of id rows = sort by_position (where_ (λ st. st.pipeline_id == id) rows)

unfoldable pub show_each :
    Actor → List Uuid → List PipelineTeam → List Stage → List Pipeline → List PipelineOut
show_each actor teams grants stages [] = []
show_each actor teams grants stages (p ∷ ps) =
    let rest = show_each actor teams grants stages ps in
    if can_see_pipeline actor (grants_of p.id grants) teams
    then record { pipeline = p; stages = stages_of p.id stages } ∷ rest
    else rest

unfoldable pub list_pipelines : Uuid → Actor → M (List PipelineOut)
list_pipelines workspace actor = do
  pipelines ← gets (λ s. where_ (λ p. p.workspace_id == workspace) s.db.pipelines)
  teams ← get_actor_team_ids actor
  gets (λ s. show_each actor teams s.db.pipeline_teams s.db.stages pipelines)

pub record PipelineCreate : Type 0 where
  pub name : String
  pub slug : String
  pub resubmission_policy : String
  -- The names of the stages, in their order.
  pub stages : List String

abbrev pub new_pipeline : Uuid → Uuid → PipelineCreate → Pipeline
new_pipeline id workspace body = record {
  id = id;
  workspace_id = workspace;
  name = body.name;
  slug = body.slug;
  is_active = true;
  resubmission_policy = body.resubmission_policy;
}

unfoldable pub add_stages : Uuid → ℕ → List String → M (List Stage)
add_stages pipeline position [] = pure []
add_stages pipeline position (name ∷ names) = do
  id ← uuid4
  let stage : Stage = record { id = id; pipeline_id = pipeline; name = name; position = position }
  write (λ db. record db { stages = db.stages ++ stage ∷ [] })
  rest ← add_stages pipeline (suc position) names
  pure (stage ∷ rest)

unfoldable pub create_pipeline : Uuid → Actor → PipelineCreate → M PipelineOut
create_pipeline workspace actor body = do
  require_manage_pipelines actor
  id ← uuid4
  let p = new_pipeline id workspace body
  write (λ db. record db { pipelines = db.pipelines ++ p ∷ [] })
  stages ← add_stages id 0 body.stages
  commit_and_notify
  pure (record { pipeline = p; stages = stages })

abbrev pub pipeline_by : Uuid → List Pipeline → Option Pipeline
pipeline_by id rows = first (where_ (λ p. p.id == id) rows)

unfoldable pub own_pipeline_row : Uuid → Option Pipeline → M Pipeline
own_pipeline_row workspace none = raise (http 404 "Pipeline not found")
own_pipeline_row workspace (some p) =
    if p.workspace_id == workspace then pure p else raise (http 404 "Pipeline not found")

unfoldable pub own_pipeline : Uuid → Uuid → M Pipeline
own_pipeline workspace id = do
  found ← gets (λ s. pipeline_by id s.db.pipelines)
  own_pipeline_row workspace found

unfoldable pub get_pipeline_teams : Uuid → Uuid → M (List Uuid)
get_pipeline_teams workspace id = do
  own_pipeline workspace id
  gets (λ s. grants_of id s.db.pipeline_teams)

-- `len(set(ids)) != len(ids)`
abbrev pub repeats : List String → Bool
repeats [] = false
repeats (id ∷ ids) = elem id ids || repeats ids

abbrev pub is_team_of : Uuid → List Team → Uuid → Bool
is_team_of workspace teams id = any (λ t. t.workspace_id == workspace && t.id == id) teams

abbrev pub all_teams : Uuid → List Team → List Uuid → Bool
all_teams workspace teams [] = true
all_teams workspace teams (id ∷ ids) =
    is_team_of workspace teams id && all_teams workspace teams ids

unfoldable pub check_teams : Uuid → List Uuid → M Unit
check_teams workspace ids =
    if repeats ids then raise (http 422 "team_ids must not contain duplicates") else do
      teams ← gets (λ s. s.db.teams)
      if all_teams workspace teams ids
          then pure tt
          else raise (http 422 "One or more teams do not belong to this workspace")

abbrev pub grants : Uuid → List Uuid → List PipelineTeam
grants pipeline ids = map (λ id. record { pipeline_id = pipeline; team_id = id }) ids

abbrev pub replaced : Uuid → List Uuid → List PipelineTeam → List PipelineTeam
replaced pipeline ids rows =
    where_ (λ g. not (g.pipeline_id == pipeline)) rows ++ grants pipeline ids

unfoldable pub replace_pipeline_teams : Uuid → Actor → Uuid → List Uuid → M (List Uuid)
replace_pipeline_teams workspace actor id ids = do
  require_manage_pipelines actor
  own_pipeline workspace id
  check_teams workspace ids
  write (λ db. record db { pipeline_teams = replaced id ids db.pipeline_teams })
  commit_and_notify
  pure ids
