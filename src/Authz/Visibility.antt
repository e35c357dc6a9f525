-- ===== src/Authz/Visibility.antt =====
-- src/phera/authz/visibility.py and `filter_deals_for_actor` of src/phera/authz/service.py: which
-- pipelines and deals an actor may see. Team ids are lists that stand for Python's sets.
use phera.Common.{
  Bool, true, false, ◌&&◌, ◌||◌, Option, none, some, List, [], ◌∷◌, ◌==◌, if◌then◌else◌, opt_eq,
  elem,
}
use phera.Models.{Uuid, Deal, OwnershipProfile}
use phera.Authz.Actor.{Actor, has_permission}

abbrev pub is_empty : List Uuid → Bool
is_empty [] = true
is_empty (x ∷ xs) = false

-- `bool(granted & theirs)`
abbrev pub overlaps : List Uuid → List Uuid → Bool
overlaps [] theirs = false
overlaps (g ∷ gs) theirs = elem g theirs || overlaps gs theirs

unfoldable pub can_see_pipeline : Actor → List Uuid → List Uuid → Bool
can_see_pipeline actor granted theirs =
    if actor.unrestricted
    then true
    else if has_permission actor "crm.pipelines.read" "allow"
    then true
    else if is_empty granted
    then true
    else overlaps granted theirs

abbrev pub is_pipeline_centric : Option OwnershipProfile → Bool
is_pipeline_centric none = false
is_pipeline_centric (some p) = p.mode == "pipeline_centric"

unfoldable pub can_see_deal : Actor → Deal → Option OwnershipProfile → Bool
can_see_deal actor deal profile =
    if actor.unrestricted
    then true
    else if has_permission actor "crm.deals.read" "allow"
    then true
    else if has_permission actor "crm.deals.read" "own" && opt_eq deal.owner_user_id actor.id
    then true
    else if is_pipeline_centric profile
    then has_permission actor "crm.pipelines.read" "allow"
    else opt_eq deal.owner_user_id actor.id

-- The loop of `filter_deals_for_actor`, with the workspace's profile.
unfoldable pub filter_deals_for_actor : Actor → Option OwnershipProfile → List Deal → List Deal
filter_deals_for_actor actor profile [] = []
filter_deals_for_actor actor profile (deal ∷ deals) =
    let visible = filter_deals_for_actor actor profile deals in
    if can_see_deal actor deal profile then deal ∷ visible else visible
