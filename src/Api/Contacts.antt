-- ===== src/Api/Contacts.antt =====
-- The contacts of src/phera/api/routes/contacts.py. A contact's organization is left out.
pub mod Quiet
use phera.Common.{
  String, false, not, ◌&&◌, Option, none, some, List, [], ◌∷◌, ◌++◌, ◌==◌, if◌then◌else◌, where_,
  update_rows, Dict,
}
use phera.Json.{Json}
use phera.Models.{Uuid, Time, Contact, FieldChange}
use phera.Session.{M, pure, raise, gets, write, uuid4, now, ◌>>=◌, ◌>>◌, commit_and_notify, http}
use phera.Authz.Actor.{Actor}
use phera.Mutate.{mutate, request, MutateRequest}
use phera.Api.Tickets.{with_one, with_two, seconds, differs}
use phera.Api.Enrichment.{contact_by}

pub record ContactCreate : Type 0 where
  pub name : Option String
  pub primary_email : Option String
  pub primary_phone : Option String
  pub owner_user_id : Option String
  pub source : Option String
  pub custom_fields : Dict Json

unfoldable pub list_contacts : Uuid → M (List Contact)
list_contacts workspace =
    gets (λ s. where_ (λ c. c.workspace_id == workspace && not c.is_deleted) s.db.contacts)

abbrev pub new_contact : Uuid → Uuid → ContactCreate → Contact
new_contact id workspace body = record {
  id = id;
  workspace_id = workspace;
  name = body.name;
  primary_email = body.primary_email;
  primary_phone = body.primary_phone;
  owner_user_id = body.owner_user_id;
  source = body.source;
  custom_fields = body.custom_fields;
  is_deleted = false;
}

abbrev pub about_contact :
    Actor → Contact → String → List FieldChange → String → String → MutateRequest
about_contact actor c action changes event key =
    record (request (record { id = c.id; workspace_id = some c.workspace_id; is_ticket = false })
      "contact" action changes (some actor)) {
        outbox_event_type = some event;
        idempotency_key = some key;
        outbox_payload = ("contact_id", c.id) ∷ [];
        contact_id = some c.id;
      }

abbrev pub contact_created : Actor → Contact → MutateRequest
contact_created actor c =
    about_contact actor c "created"
      (record { field = "id"; from_value = none; to_value = some c.id } ∷ []) "contact.created"
      (with_one "contact.created" c.id)

unfoldable pub create_contact : Uuid → Actor → ContactCreate → M Contact
create_contact workspace actor body = do
  id ← uuid4
  let c = new_contact id workspace body
  write (λ db. record db { contacts = db.contacts ++ c ∷ [] })
  mutate (contact_created actor c)
  commit_and_notify
  pure c

unfoldable pub own_contact : Uuid → Option Contact → M Contact
own_contact workspace none = raise (http 404 "Contact not found")
own_contact workspace (some c) =
    if c.workspace_id == workspace then pure c else raise (http 404 "Contact not found")

unfoldable pub get_contact : Uuid → Uuid → M Contact
get_contact workspace id = do
  found ← gets (λ s. contact_by id s.db.contacts)
  own_contact workspace found

unfoldable pub live_contact : Uuid → Uuid → M Contact
live_contact workspace id = do
  c ← get_contact workspace id
  if c.is_deleted then raise (http 404 "Contact not found") else pure c

abbrev pub or_old : Option String → Option String → Option String
or_old none held = held
or_old (some v) held = some v

abbrev pub renamed : Option String → Contact → Contact
renamed name c = record c { name = or_old name c.name }

unfoldable pub save_contact : Contact → M Unit
save_contact c =
    write (λ db. record db { contacts = update_rows (λ d. d.id == c.id) (λ _. c) db.contacts })

abbrev pub contact_updated : Actor → Contact → Option String → Option String → Time → MutateRequest
contact_updated actor c old name at =
    about_contact actor c "updated"
      (record { field = "name"; from_value = old; to_value = name } ∷ []) "contact.updated"
      (with_two "contact.updated" c.id (seconds at))

unfoldable pub rename : Actor → Contact → Option String → M Contact
rename actor c name = if not (differs name c.name) then pure c else do
  at ← now
  let new = renamed name c
  save_contact new
  mutate (contact_updated actor new c.name name at)
  pure new

unfoldable pub update_contact : Uuid → Actor → Uuid → Option String → M Contact
update_contact workspace actor id name = do
  c ← live_contact workspace id
  c ← rename actor c name
  commit_and_notify
  pure c
