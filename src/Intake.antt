-- ===== src/Intake.antt =====
-- src/phera/modules/pipelines/intake.py: a submitted form becomes a contact and a deal.
pub mod Deals
mod OneOpen
pub mod Recorded
mod Examples
use Prim.Native.String
use phera.Common.{
  String, Bool, true, false, not, ◌&&◌, ◌||◌, Option, none, some, List, [], ◌∷◌, ◌++◌, ◌==◌,
  if◌then◌else◌, truthy, or_else, elem, is_prefix, where_, update_rows, get, Dict, leb, map,
}
use phera.Json.{Json, str}
use phera.Models.{Uuid, Time, Contact, Deal, Form, FormSubmission, Pipeline, Stage, FieldChange}
use phera.Session.{
  M, when, pure, raise, gets, write, uuid4, now, scalar_one_or_none, ◌>>=◌, ◌>>◌, integrity_error,
  value_error,
}
use phera.Authz.Actor.{Actor, typed_actor}
use phera.Mutate.{mutate, request, MutateRequest, is_nil}
use phera.Tickets.Contacts.{has_email, has_phone, save_contact}

-- A form's payload is a dictionary of texts here.
abbrev pub Payload : Type 0
Payload = Dict String

-- The loop over the matching keys; it stops at the first contact.
unfoldable pub match_contact : Uuid → Payload → List String → M (Option Contact)
match_contact workspace payload [] = pure none
match_contact workspace payload (key ∷ keys) =
    let val = or_else (get key payload) (get (String.◌++◌ "contact_" key) payload) in
    let is_email = elem key ("email" ∷ "primary_email" ∷ []) in
    let is_phone = elem key ("phone" ∷ "primary_phone" ∷ []) in
    if not (truthy val) || not (is_email || is_phone)
    then match_contact workspace payload keys
    else do
      rows ← gets (λ s.
          where_ (if is_email then has_email workspace val else has_phone workspace val)
            s.db.contacts)
      found ← scalar_one_or_none rows
      elim found [ some c ↦ pure (some c) | none ↦ match_contact workspace payload keys ]

abbrev customs : Payload → Dict Json
customs [] = []
customs ((k, v) ∷ kvs) = if is_prefix "custom_" k then (k, str v) ∷ customs kvs else customs kvs

abbrev pub form_contact : Uuid → Uuid → Payload → Form → Contact
form_contact id workspace payload form = record {
  id = id;
  workspace_id = workspace;
  name = get "name" payload;
  primary_email = or_else (get "email" payload) (get "primary_email" payload);
  primary_phone = or_else (get "phone" payload) (get "primary_phone" payload);
  owner_user_id = none;
  source = form.source_default;
  custom_fields = customs payload;
  is_deleted = false;
}

-- The contact, and whether it was created.
unfoldable pub upsert_contact :
    Uuid → Payload → List String → Form → (is_new : Bool) → M (Contact × Bool)
upsert_contact workspace payload keys form is_new = do
  found ← match_contact workspace payload keys
  elim found [
    | none ↦ do
      id ← uuid4
      write (λ db. record db {
        contacts = db.contacts ++ form_contact id workspace payload form ∷ [];
      })
      pure (form_contact id workspace payload form, true)
    | some c ↦
        let renamed = record c { name = or_else (get "name" payload) c.name } in
        if is_new || not (truthy (get "name" payload))
        then pure (c, false)
        else save_contact renamed >> pure (renamed, false)
  ]

abbrev pub is_deal_of : Uuid → Uuid → Deal → Bool
is_deal_of contact pipeline d = d.contact_id == contact && d.pipeline_id == pipeline

abbrev pub is_open_of : Uuid → Uuid → Deal → Bool
is_open_of contact pipeline d = is_deal_of contact pipeline d && d.status == "open"

-- `ORDER BY created_at DESC LIMIT 1`
unfoldable pub latest_deal : List Deal → Option Deal
latest_deal [] = none
latest_deal (d ∷ ds) = elim (latest_deal ds) [
  | none ↦ some d
  | some e ↦ some (if leb e.created_at d.created_at then d else e)
]

unfoldable pub save_deal : Deal → M Unit
save_deal deal =
    write (λ db. record db { deals = update_rows (λ d. d.id == deal.id) (λ _. deal) db.deals })

abbrev pub new_deal : Uuid → Contact → Pipeline → Stage → Time → Time → Deal
new_deal id contact pipeline stage at created = record {
  id = id;
  workspace_id = contact.workspace_id;
  contact_id = contact.id;
  pipeline_id = pipeline.id;
  stage_id = stage.id;
  owner_user_id = none;
  source_form_id = none;
  status = "open";
  custom_fields = [];
  created_at = created;
  stage_entered_at = some at;
  closed_at = none;
}

-- The flush checks the index ix_deals_open_contact_pipeline: a contact has one open deal in a
-- pipeline.
unfoldable pub create_deal : Contact → Pipeline → Stage → M (Deal × String)
create_deal contact pipeline stage = do
  at ← now
  id ← uuid4
  created ← gets (λ s. s.db_now)
  taken ← gets (λ s. not (is_nil (where_ (is_open_of contact.id pipeline.id) s.db.deals)))
  elim taken [
    | true ↦ raise integrity_error
    | false ↦ do
      write (λ db. record db {
        deals = db.deals ++ new_deal id contact pipeline stage at created ∷ [];
      })
      pure (new_deal id contact pipeline stage at created, "created")
  ]

abbrev pub reopened_deal : Stage → Time → Deal → Deal
reopened_deal stage at d = record d {
  status = "open";
  stage_id = stage.id;
  stage_entered_at = some at;
  closed_at = none;
}

unfoldable pub reopen_deal : Stage → Deal → M (Deal × String)
reopen_deal stage d = do
  at ← now
  save_deal (reopened_deal stage at d)
  pure (reopened_deal stage at d, "reopened")

-- No open deal was found.
unfoldable pub reopen_or_create : Contact → Pipeline → Stage → String → M (Deal × String)
reopen_or_create contact pipeline stage policy =
    if not (policy == "reopen_latest") then create_deal contact pipeline stage else do
      latest ← gets (λ s. latest_deal (where_ (is_deal_of contact.id pipeline.id) s.db.deals))
      elim latest [
        | none ↦ create_deal contact pipeline stage
        | some d ↦ elim (d.status == "open") [
          | true ↦ create_deal contact pipeline stage
          | false ↦ reopen_deal stage d
        ]
      ]

-- The deal, and what was done: "reused", "reopened" or "created".
unfoldable pub resolve_deal : Contact → Pipeline → Stage → String → M (Deal × String)
resolve_deal contact pipeline stage policy = do
  rows ← gets (λ s. where_ (is_open_of contact.id pipeline.id) s.db.deals)
  existing ← scalar_one_or_none rows
  elim existing [
    | none ↦ reopen_or_create contact pipeline stage policy
    | some d ↦ elim (policy == "reuse_open_deal") [
      | true ↦ pure (d, "reused")
      | false ↦ create_deal contact pipeline stage
    ]
  ]

unfoldable pub find_pipeline : Uuid → List Pipeline → Option Pipeline
find_pipeline id [] = none
find_pipeline id (p ∷ ps) = if p.id == id then some p else find_pipeline id ps

unfoldable pub find_stage : Uuid → List Stage → Option Stage
find_stage id [] = none
find_stage id (g ∷ gs) = if g.id == id then some g else find_stage id gs

abbrev pub policy_of : Form → Pipeline → String
policy_of form pipeline =
    elim (or_else form.resubmission_policy (some pipeline.resubmission_policy)) [
      | none ↦ "reuse_open_deal"
      | some policy ↦ if policy == "" then "reuse_open_deal" else policy
    ]

abbrev pub keys_of : Form → List String
keys_of form = if is_nil form.matching_keys then "email" ∷ "phone" ∷ [] else form.matching_keys

abbrev change : String → String → FieldChange
change field value = record { field = field; from_value = none; to_value = some value }

abbrev keyed : String → Uuid → String
keyed event id = String.◌++◌ event (String.◌++◌ ":" id)

abbrev pub contact_request : Actor → Contact → MutateRequest
contact_request actor contact =
    record (request
      (record { id = contact.id; workspace_id = some contact.workspace_id; is_ticket = false })
      "contact" "created" (change "id" contact.id ∷ []) (some actor)) {
        outbox_event_type = some "contact.created";
        idempotency_key = some (keyed "contact.created" contact.id);
        outbox_payload = ("contact_id", contact.id) ∷ [];
        contact_id = some contact.id;
      }

abbrev submitted_payload : Form → Contact → Deal → Uuid → Dict String
submitted_payload form contact deal submission =
    ("deal_id", deal.id)
    ∷ ("contact_id", contact.id)
    ∷ ("form_id", form.id)
    ∷ ("submission_id", submission)
    ∷ []

abbrev pub deal_request : Actor → Form → Contact → Pipeline → Deal → String → Uuid → MutateRequest
deal_request actor form contact pipeline deal action submission =
    let event = String.◌++◌ "deal." action in
    record (request
      (record { id = deal.id; workspace_id = some deal.workspace_id; is_ticket = false }) "deal"
      action (change "stage_id" deal.stage_id ∷ []) (some actor)) {
        pipeline_id = some pipeline.id;
        stage_to_id = some deal.stage_id;
        after_snapshot = some (("status", deal.status) ∷ ("stage_id", deal.stage_id) ∷ []);
        outbox_event_type = some event;
        idempotency_key = some (keyed event (keyed deal.id submission));
        outbox_payload = submitted_payload form contact deal submission;
        timeline = true;
        timeline_type = some "form_submitted";
        timeline_body = some (String.◌++◌ "Form " (String.◌++◌ form.name " submitted"));
        contact_id = some contact.id;
        deal_id = some deal.id;
      }

abbrev pub submission_request : Actor → Form → Contact → Deal → Uuid → MutateRequest
submission_request actor form contact deal submission =
    record (request (record { id = submission; workspace_id = none; is_ticket = false })
      "form_submission" "form_submitted" [] (some actor)) {
        workspace_id = some form.workspace_id;
        outbox_event_type = some "form.submitted";
        idempotency_key = some (keyed "form.submitted" submission);
        outbox_payload =
            ("form_id", form.id)
            ∷ ("contact_id", contact.id)
            ∷ ("deal_id", deal.id)
            ∷ ("submission_id", submission)
            ∷ [];
        contact_id = some contact.id;
        deal_id = some deal.id;
      }

pub record Submitted : Type 0 where
  pub contact_id : Uuid
  pub deal_id : Uuid
  pub submission_id : Uuid
  pub deal_action : String

abbrev pub submission_row : Uuid → Form → Contact → Deal → Payload → FormSubmission
submission_row id form contact deal payload = record {
  id = id;
  form_id = form.id;
  contact_id = contact.id;
  deal_id = some deal.id;
  payload = map (λ (k, v). (k, str v)) payload;
}

abbrev pub actor_of : Form → Option Actor → Actor
actor_of form none = typed_actor "form" (some form.id)
actor_of form (some actor) = actor

-- What follows the choice of the deal.
unfoldable pub record_submission :
    Form → Payload → Actor → Contact → Bool → Pipeline → Deal → String → M Submitted
record_submission form payload actor contact created pipeline deal action = do
  save_deal deal
  id ← uuid4
  write (λ db. record db {
    form_submissions = db.form_submissions ++ submission_row id form contact deal payload ∷ [];
  })
  when created (mutate (contact_request actor contact) >> pure tt)
  mutate (deal_request actor form contact pipeline deal action id)
  mutate (submission_request actor form contact deal id)
  pure (record {
    contact_id = contact.id;
    deal_id = deal.id;
    submission_id = id;
    deal_action = action;
  })

unfoldable pub submit : Form → Payload → Actor → Pipeline → Stage → M Submitted
submit form payload actor pipeline stage = do
  (contact, created) ← upsert_contact form.workspace_id payload (keys_of form) form true
  (deal, action) ← resolve_deal contact pipeline stage (policy_of form pipeline)
  record_submission form payload actor contact created pipeline
      (record deal { source_form_id = some form.id }) action

unfoldable pub process_form_submission : Form → Payload → Option Actor → M Submitted
process_form_submission form payload actor = do
  pipeline ← gets (λ s. find_pipeline form.target_pipeline_id s.db.pipelines)
  stage ← gets (λ s. find_stage form.entry_stage_id s.db.stages)
  elim pipeline [
    | none ↦ raise (value_error "Form pipeline/stage misconfigured")
    | some p ↦ elim stage [
      | none ↦ raise (value_error "Form pipeline/stage misconfigured")
      | some g ↦ submit form payload (actor_of form actor) p g
    ]
  ]
