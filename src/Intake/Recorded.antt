-- ===== src/Intake/Recorded.antt =====
-- What a whole submission announces.
use Prim.Native.String
use phera.Common.{
  String, ◌≡◌, ap, ◌∙◌, Bool, true, false, some, List, [], ◌∷◌, ◌++◌, map, append_assoc, append-nil,
  map-append, if◌then◌else◌, truthy, update_rows, suc, ◌==◌,
}
use phera.Common.Text.{cons-ne-empty}
use text.Mathlib.TextLemmas.{cons-append}
use phera.Models.{Contact, Deal, Form, Pipeline, OutboxEvent}
use phera.Session.{Session, M, ◌>>=◌, ◌>>◌, pure}
use phera.Authz.Actor.{Actor}
use phera.Mutate.{mutate, MutateRequest}
use phera.Mutate.Recorded.{new_outbox, mutate-outbox_events, mutate-returned}
use phera.Intake.{
  Payload, record_submission, save_deal, submission_row, contact_request, deal_request,
  submission_request, Submitted,
}

abbrev pub event_types : List OutboxEvent → List String
event_types = map (λ e. e.event_type)

deal_event : (action : String) → truthy (some (String.◌++◌ "deal." action)) ≡ true
deal_event action = rw (cons-append, cons-ne-empty)

deal_key :
    (action key : String)
    → truthy (some (String.◌++◌ (String.◌++◌ "deal." action) (String.◌++◌ ":" key))) ≡ true
deal_key action key = rw (cons-append, cons-append, cons-ne-empty)

form_key : (key : String) → truthy (some (String.◌++◌ "form.submitted" key)) ≡ true
form_key key = rw (cons-append, cons-ne-empty)

contact_key : (key : String) → truthy (some (String.◌++◌ "contact.created" key)) ≡ true
contact_key key = rw (cons-append, cons-ne-empty)

announced :
    (req : MutateRequest) (s : Session)
    → event_types (mutate req s).1.db.outbox_events
      ≡ event_types s.db.outbox_events ++ event_types (new_outbox req s)
announced req s =
    ap event_types (mutate-outbox_events req s)
    ∙ map-append (λ e. e.event_type) s.db.outbox_events (new_outbox req s)

proceeds :
    {A : Type 0} (req : MutateRequest) (k : M A) (s : Session)
    → (mutate req >> k) s ≡ k (mutate req s).1
unfolding ◌>>=◌
proceeds req k s = rw (mutate-returned req s)

proceeds_twice :
    {A : Type 0} (req : MutateRequest) (k : M A) (s : Session)
    → ((mutate req >> pure tt) >> k) s ≡ k (mutate req s).1
unfolding ◌>>=◌
proceeds_twice req k s = rw (mutate-returned req s)

-- The session when the submission is stored.
abbrev stored : Form → Payload → Contact → Deal → Session → Session
stored form payload contact deal s = record s {
  db = record s.db {
    deals = update_rows (λ d. d.id == deal.id) (λ _. deal) s.db.deals;
    form_submissions =
        s.db.form_submissions ++ submission_row (s.uuids s.drawn) form contact deal payload ∷ [];
  };
  drawn = suc s.drawn;
}

module _ (form : Form) (actor : Actor) (contact : Contact) (pipeline : Pipeline) (deal : Deal)
    (action id : String) where
  deal_type :
      (s : Session)
      → event_types (new_outbox (deal_request actor form contact pipeline deal action id) s)
        ≡ String.◌++◌ "deal." action ∷ []
  deal_type s = rw (deal_event action, deal_key action _)

  form_type :
      (s : Session)
      → event_types (new_outbox (submission_request actor form contact deal id) s)
        ≡ "form.submitted" ∷ []
  form_type s = rw (form_key _)

  contact_type :
      (s : Session)
      → event_types (new_outbox (contact_request actor contact) s) ≡ "contact.created" ∷ []
  contact_type s = rw (contact_key _)

  deal_and_form :
      {A : Type 0} (x : A) (s : Session)
      → event_types
          ((mutate (deal_request actor form contact pipeline deal action id)
              >> (mutate (submission_request actor form contact deal id) >> pure x))
            s).1.db.outbox_events
        ≡ event_types s.db.outbox_events ++ String.◌++◌ "deal." action ∷ "form.submitted" ∷ []
  unfolding pure
  deal_and_form x s =
      let d = deal_request actor form contact pipeline deal action id in
      let f = submission_request actor form contact deal id in
      let t = (mutate d s).1 in
      rw (
        proceeds d (mutate f >> pure x) s,
        proceeds f (pure x) t,
        announced f t,
        announced d s,
        deal_type s,
        form_type t,
        append_assoc,
      )

-- Once the contact and the deal of a submission are chosen, the outbox gains, after what it held, an event for the contact if it was created, one for what was done with the deal, and one
-- for the form, in this order.
pub record_submission-outbox_events :
    (form : Form) (payload : Payload) (actor : Actor) (contact : Contact) (created : Bool)
    (pipeline : Pipeline) (deal : Deal) (action : String) (s : Session)
    → event_types
        (record_submission form payload actor contact created pipeline deal action
          s).1.db.outbox_events
      ≡ event_types s.db.outbox_events
        ++ (if created then "contact.created" ∷ [] else [])
        ++ String.◌++◌ "deal." action ∷ "form.submitted" ∷ []
unfolding record_submission save_deal ◌>>=◌
record_submission-outbox_events form payload actor contact false pipeline deal action s = rw (
  deal_and_form form actor contact pipeline deal action (s.uuids s.drawn) _
      (stored form payload contact deal s),
  append-nil,
)
record_submission-outbox_events form payload actor contact true pipeline deal action s =
    let c = contact_request actor contact in
    let id = s.uuids s.drawn in
    let t = stored form payload contact deal s in
    let d = deal_request actor form contact pipeline deal action id in
    let f = submission_request actor form contact deal id in
    let x : Submitted = record {
      contact_id = contact.id;
      deal_id = deal.id;
      submission_id = id;
      deal_action = action;
    } in
    rw (
      proceeds_twice c (mutate d >> (mutate f >> pure x)) t,
      deal_and_form form actor contact pipeline deal action id _ (mutate c t).1,
      announced c t,
      contact_type form actor contact pipeline deal action id t,
      append_assoc,
    )
