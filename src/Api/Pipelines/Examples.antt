-- ===== src/Api/Pipelines/Examples.antt =====
-- The theorem about grants at a pipeline with one team.
use phera.Common.{◌≡◌, refl, true, some, [], ◌∷◌, where_, any}
use phera.Models.{Pipeline, Team, empty_db}
use phera.Session.{
  Session, new_session, ok, gets, pure, write, commit_and_notify, has_unique_keys, ◌>>=◌,
}
use phera.Authz.Actor.{Actor, typed_actor}
use phera.Api.Pipelines.{
  replace_pipeline_teams, require_manage_pipelines, can_manage_pipelines, own_pipeline,
  own_pipeline_row, check_teams,
}
use phera.Api.Pipelines.Grants.{IsGranted, replace_pipeline_teams-IsGranted}

abbrev admin : Actor
admin = record (typed_actor "user" (some "u1")) { roles = "admin" ∷ [] }

abbrev sales : Pipeline
sales = record {
  id = "p1";
  workspace_id = "ws";
  name = "Sales";
  slug = "sales";
  is_active = true;
  resubmission_policy = "reuse_open_deal";
}

abbrev north : Team
north = record { id = "n"; workspace_id = "ws"; name = "North"; slug = "north" }

abbrev start : Session
start =
    new_session
      (record empty_db {
        pipelines = sales ∷ [];
        teams = north ∷ [];
        pipeline_teams = record { pipeline_id = "p1"; team_id = "s" } ∷ [];
      })
      (λ n. "u") (λ n. n)

is_replaced : (replace_pipeline_teams "ws" admin "p1" ("n" ∷ []) start).0 ≡ ok ("n" ∷ [])
unfolding replace_pipeline_teams require_manage_pipelines can_manage_pipelines own_pipeline
    own_pipeline_row check_teams commit_and_notify has_unique_keys where_ any gets pure write ◌>>=◌
is_replaced = refl

replace_pipeline_teams-IsGranted_example :
    IsGranted "ws" admin "p1"
      ("n" ∷ [])
      start
      (replace_pipeline_teams "ws" admin "p1" ("n" ∷ []) start).1
replace_pipeline_teams-IsGranted_example =
    replace_pipeline_teams-IsGranted "ws" admin "p1" ("n" ∷ []) start ("n" ∷ []) is_replaced
