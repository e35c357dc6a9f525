-- ===== src/Intake/Examples.antt =====
-- The theorems about deals at a contact with and without an open deal.
use Prim.Native.String
use phera.Authz.Actor.{typed_actor}
use phera.Intake.Recorded.{event_types, record_submission-outbox_events}
use phera.Common.{◌++◌, none, some, true, ◌≡◌, refl, [], ◌∷◌, where_}
use phera.Models.{Pipeline, Stage, Deal, Form, empty_db}
use phera.Session.{Session, new_session, ok, ◌>>=◌}
use phera.Tickets.Inbound.Examples.{asha}
use phera.Intake.{
  record_submission, resolve_deal, reopen_or_create, create_deal, latest_deal, new_deal,
}
use phera.Intake.Deals.{IsOpenOf, resolve_deal-IsOpenOf}

abbrev care : Pipeline
care = record {
  id = "p1";
  workspace_id = "ws";
  name = "Care";
  slug = "care";
  is_active = true;
  resubmission_policy = "always_create";
}

abbrev lead : Stage
lead = record { id = "g1"; pipeline_id = "p1"; name = "Lead"; position = 0 }

abbrev start : Session
start = new_session empty_db (λ n. "u") (λ n. n)

abbrev deal : Deal
deal = new_deal "u" asha care lead 0 0

abbrev with_deal : Session
with_deal = new_session (record empty_db { deals = deal ∷ [] }) (λ n. "u") (λ n. n)

creates : (resolve_deal asha care lead "reopen_latest" start).0 ≡ ok (deal, "created")
unfolding resolve_deal reopen_or_create create_deal latest_deal where_ ◌>>=◌
creates = refl

resolve_deal-IsOpenOf_example : IsOpenOf asha care deal
resolve_deal-IsOpenOf_example =
    resolve_deal-IsOpenOf asha care lead "reopen_latest" deal "created" start creates

abbrev form : Form
form = record {
  id = "f1";
  workspace_id = "ws";
  name = "Visit";
  target_pipeline_id = "p1";
  entry_stage_id = "g1";
  matching_keys = [];
  resubmission_policy = none;
  source_default = none;
}

record_submission-outbox_events_example :
    event_types
      (record_submission form []
        (typed_actor "form" (some "f1"))
        asha
        true
        care
        deal
        "created"
        start).1.db.outbox_events
    ≡ event_types start.db.outbox_events
      ++ ("contact.created" ∷ [])
      ++ String.◌++◌ "deal." "created" ∷ "form.submitted" ∷ []
record_submission-outbox_events_example =
    record_submission-outbox_events form [] (typed_actor "form" (some "f1")) asha true care deal
      "created" start
