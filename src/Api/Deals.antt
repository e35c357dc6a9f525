-- ===== src/Api/Deals.antt =====
-- The deals of src/phera/api/routes/contacts.py. A deal's value is left out.
pub mod Stages
use Prim.Native.String
use phera.Common.{
  ℕ, zero, suc, String, Bool, true, false, ◌&&◌, Option, none, some, List, [], ◌∷◌, ◌++◌, map, ◌==◌,
  if◌then◌else◌, any, opt_eq, where_, update_rows, first, take, leb, ltb, sort, Dict,
}
use phera.Models.{Uuid, Time, Deal, Stage, Contact, User, FieldChange}
use phera.Session.{
  M, pure, raise, gets, write, uuid4, now, ◌>>=◌, ◌>>◌, commit_and_notify, publish_inbox_event,
  http, integrity_error,
}
use phera.Authz.Actor.{Actor}
use phera.Mutate.{mutate, request, MutateRequest}
use phera.Tickets.Joining.{who_text}
use phera.Workflows.Nodes.{find_deal}
use phera.Intake.{is_open_of}
use phera.Api.Access.{filter_deals_for_actor}
use phera.Api.Tickets.{with_one, with_two}
use phera.Api.Enrichment.{contact_by}

pub record DealCreate : Type 0 where
  pub contact_id : Uuid
  pub pipeline_id : Uuid
  pub stage_id : Uuid
  pub owner_user_id : Option String

abbrev pub new_deal : Uuid → Uuid → Time → Time → DealCreate → Deal
new_deal id workspace at time body = record {
  id = id;
  workspace_id = workspace;
  contact_id = body.contact_id;
  pipeline_id = body.pipeline_id;
  stage_id = body.stage_id;
  owner_user_id = body.owner_user_id;
  source_form_id = none;
  status = "open";
  custom_fields = [];
  created_at = time;
  stage_entered_at = some at;
  closed_at = none;
}

-- The fields that each request about a deal has in common.
abbrev pub about_deal :
    Actor → Deal → String → List FieldChange → String → String → Dict String → MutateRequest
about_deal actor d action changes event key payload =
    record (request (record { id = d.id; workspace_id = some d.workspace_id; is_ticket = false })
      "deal" action changes (some actor)) {
        pipeline_id = some d.pipeline_id;
        outbox_event_type = some event;
        idempotency_key = some key;
        outbox_payload = payload;
        contact_id = some d.contact_id;
        deal_id = some d.id;
      }

abbrev pub deal_created : Actor → Deal → MutateRequest
deal_created actor d =
    record (about_deal actor d "created"
      (record { field = "stage_id"; from_value = none; to_value = some d.stage_id } ∷ [])
      "deal.created" (with_one "deal.created" d.id)
      (("deal_id", d.id) ∷ ("contact_id", d.contact_id) ∷ [])) { stage_to_id = some d.stage_id }

abbrev pub deal_event : String → Uuid → Deal → Dict String → Dict String
deal_event kind workspace d more =
    ("type", kind)
    ∷ ("workspace_id", workspace)
    ∷ ("deal_id", d.id)
    ∷ ("pipeline_id", d.pipeline_id)
    ∷ (more ++ ("contact_id", d.contact_id) ∷ [])

-- `session.add(deal)` and the flush after it, which checks the index ix_deals_open_contact_pipeline: a
-- contact has one open deal in a pipeline.
unfoldable pub insert_deal : Deal → M Unit
insert_deal d = do
  taken ← gets (λ s. any (is_open_of d.contact_id d.pipeline_id) s.db.deals)
  if d.status == "open" && taken
      then raise integrity_error
      else write (λ db. record db { deals = db.deals ++ d ∷ [] })

unfoldable pub create_deal : Uuid → Actor → DealCreate → M Deal
create_deal workspace actor body = do
  at ← now
  id ← uuid4
  time ← gets (λ s. s.db_now)
  let d = new_deal id workspace at time body
  insert_deal d
  mutate (deal_created actor d)
  commit_and_notify
  publish_inbox_event (deal_event "deal.created" workspace d (("stage_id", d.stage_id) ∷ []))
  pure d

unfoldable pub own_deal_row : Uuid → Option Deal → M Deal
own_deal_row workspace none = raise (http 404 "Deal not found")
own_deal_row workspace (some d) =
    if d.workspace_id == workspace then pure d else raise (http 404 "Deal not found")

unfoldable pub own_deal : Uuid → Uuid → M Deal
own_deal workspace id = do found ← gets (λ s. find_deal id s.db.deals); own_deal_row workspace found

unfoldable pub save_deal : Deal → M Unit
save_deal d = write (λ db. record db { deals = update_rows (λ e. e.id == d.id) (λ _. d) db.deals })

-- `session.get(Stage, id)`
abbrev pub stage_by : Uuid → List Stage → Option Stage
stage_by id rows = first (where_ (λ st. st.id == id) rows)

unfoldable pub check_stage : Deal → Option Stage → M Unit
check_stage d none = raise (http 400 "Target stage does not belong to this deal's pipeline")
check_stage d (some st) =
    if st.pipeline_id == d.pipeline_id
    then pure tt
    else raise (http 400 "Target stage does not belong to this deal's pipeline")

abbrev pub moved : Uuid → Time → Deal → Deal
moved stage at d = record d { stage_id = stage; stage_entered_at = some at }

abbrev pub stage_changed : Actor → Deal → Uuid → String → MutateRequest
stage_changed actor d old at =
    record (about_deal actor d "stage_changed"
      (record { field = "stage_id"; from_value = some old; to_value = some d.stage_id } ∷ [])
      "deal.stage_changed"
      (with_two "deal.stage_changed" d.id (String.◌++◌ d.stage_id (String.◌++◌ ":" at)))
      (("deal_id", d.id) ∷ ("stage_from", old) ∷ ("stage_to", d.stage_id) ∷ [])) {
        stage_from_id = some old;
        stage_to_id = some d.stage_id;
        after_snapshot = some (("stage_id", d.stage_id) ∷ ("status", d.status) ∷ []);
        timeline = true;
        timeline_type = some "status-change";
        timeline_body = some "Stage changed";
      }

unfoldable pub move_deal_stage : Uuid → Actor → Uuid → Uuid → M Deal
move_deal_stage workspace actor id stage = do
  d ← own_deal workspace id
  target ← gets (λ s. stage_by stage s.db.stages)
  check_stage d target
  at ← now
  isoformat ← gets (λ s. s.isoformat)
  let new = moved stage at d
  save_deal new
  mutate (stage_changed actor new d.stage_id (isoformat at))
  commit_and_notify
  publish_inbox_event (
      deal_event "deal.stage_changed" workspace new
        (("stage_from", d.stage_id) ∷ ("stage_to", stage) ∷ []))
  pure new

abbrev pub owned_by : String → Deal → Deal
owned_by user d = record d { owner_user_id = some user }

abbrev pub deal_assigned : Actor → Deal → Option String → String → MutateRequest
deal_assigned actor d old user =
    about_deal actor d "assigned"
      (record { field = "owner_user_id"; from_value = old; to_value = some user } ∷ [])
      "deal.assigned" (with_two "deal.assigned" d.id user)
      (("deal_id", d.id) ∷ ("owner_user_id", user) ∷ [])

unfoldable pub assign_deal : Uuid → Actor → Uuid → String → M Deal
assign_deal workspace actor id user = do
  d ← own_deal workspace id
  let new = owned_by user d
  save_deal new
  mutate (deal_assigned actor new d.owner_user_id user)
  commit_and_notify
  publish_inbox_event (
      deal_event "deal.assigned" workspace new (("owner_user_id", who_text new.owner_user_id) ∷ []))
  pure new

-- The query's conditions, where a parameter is given.
pub record DealQuery : Type 0 where
  pub pipeline_id : Option Uuid
  pub stage_id : Option Uuid
  pub owner_user_id : Option String
  pub status : Option String
  pub limit : ℕ
  pub offset : ℕ

abbrev fits : Option String → Option String → Bool
fits none held = true
fits (some v) held = opt_eq held (some v)

abbrev pub fits_query : Uuid → DealQuery → Deal → Bool
fits_query workspace q d =
    d.workspace_id == workspace
    && (fits q.pipeline_id (some d.pipeline_id)
        && (fits q.stage_id (some d.stage_id)
            && (fits q.owner_user_id d.owner_user_id && fits q.status (some d.status))))

-- `stage_entered_at DESC`, which puts a missing time first.
abbrev pub by_entry : Deal → Deal → Bool
by_entry d e = elim d.stage_entered_at [
  | none ↦ true
  | some t ↦ elim e.stage_entered_at [ none ↦ false | some u ↦ leb u t ]
]

abbrev drop : {A : Type 0} → ℕ → List A → List A
drop zero xs = xs
drop (suc n) [] = []
drop (suc n) (x ∷ xs) = drop n xs

abbrev pub at_most_500 : ℕ → ℕ
at_most_500 n = if ltb 500 n then 500 else n

unfoldable pub page_of : Uuid → DealQuery → List Deal → List Deal
page_of workspace q rows =
    take (at_most_500 q.limit)
      (drop q.offset (sort by_entry (where_ (fits_query workspace q) rows)))

-- A deal with the names of its contact and its owner.
pub record DealOut : Type 0 where
  pub deal : Deal
  pub contact : Option Contact
  pub owner : Option User

abbrev owner_by : Option String → List User → Option User
owner_by none rows = none
owner_by (some id) rows = if id == "" then none else first (where_ (λ u. u.id == id) rows)

abbrev pub deal_out : List Contact → List User → Deal → DealOut
deal_out contacts users d = record {
  deal = d;
  contact = contact_by d.contact_id contacts;
  owner = owner_by d.owner_user_id users;
}

unfoldable pub list_deals : Uuid → Actor → DealQuery → M (List DealOut)
list_deals workspace actor q = do
  deals ← gets (λ s. page_of workspace q s.db.deals)
  deals ← filter_deals_for_actor actor workspace deals
  gets (λ s. map (deal_out s.db.contacts s.db.users) deals)
