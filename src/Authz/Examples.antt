-- ===== src/Authz/Examples.antt =====
-- The theorems about actors at concrete actors and headers.
use phera.Common.{String, ◌≡◌, refl, ◌↔◌, true, none, some, List, [], ◌∷◌, arith, put_all, is_space}
use phera.Models.{Deal}
use phera.Authz.Actor.{Actor, typed_actor, has_permission, parse_permissions_header}
use phera.Authz.Visibility.{can_see_deal}
use phera.Authz.Rules.{Holds, Visible, has_permission_iff, can_see_deal_iff}
use phera.Authz.Header.{render, parse-render, AllEntries}

abbrev agent : Actor
agent = record (typed_actor "user" (some "u1")) { permissions = ("crm.deals.read", "own") ∷ [] }

abbrev deal : Deal
deal = record {
  id = "d1";
  workspace_id = "ws";
  contact_id = "c1";
  pipeline_id = "p1";
  stage_id = "s1";
  owner_user_id = some "u1";
  source_form_id = none;
  status = "open";
  custom_fields = [];
  created_at = 0;
  stage_entered_at = none;
  closed_at = none;
}

has_permission_iff_example :
    (has_permission agent "crm.deals.read" "own" ≡ true) ↔ Holds agent "crm.deals.read" "own"
has_permission_iff_example = has_permission_iff agent "crm.deals.read" "own"

can_see_deal_iff_example : (can_see_deal agent deal none ≡ true) ↔ Visible agent deal none
can_see_deal_iff_example = can_see_deal_iff agent deal none

abbrev two_entries : List (String × String)
two_entries = ("crm.deals.read", "own") ∷ ("crm.x", "a:b") ∷ []

two_entries-AllEntries : AllEntries two_entries
unfolding is_space
two_entries-AllEntries = search arith

parse-render_example :
    parse_permissions_header (some (render "crm.deals.read" "own" (("crm.x", "a:b") ∷ [])))
    ≡ put_all two_entries []
parse-render_example =
    parse-render "crm.deals.read" "own" (("crm.x", "a:b") ∷ []) two_entries-AllEntries

round_trip_text :
    render "crm.deals.read" "own" (("crm.x", "a:b") ∷ []) ≡ "crm.deals.read:own,crm.x:a:b"
unfolding render
round_trip_text = refl
