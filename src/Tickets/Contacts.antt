-- ===== src/Tickets/Contacts.antt =====
-- `_find_or_create_contact` of src/phera/modules/tickets/inbound.py, and what an inbound message
-- carries.
use phera.Common.{
  String, Bool, false, not, ◌&&◌, Option, none, some, [], ◌∷◌, ◌++◌, ◌==◌, if◌then◌else◌, opt_eq,
  truthy, where_, update_rows, Dict,
}
use phera.Json.{Json}
use phera.Models.{Uuid, Time, Contact}
use phera.Session.{M, pure, gets, write, uuid4, scalar_one_or_none, ◌>>=◌, ◌>>◌}

-- The keys of the normalised message; `none` where a key is missing or `None`.
pub record Inbound : Type 0 where
  pub channel_kind : String
  pub adapter_type : String
  pub address_hint : Option String
  pub body : Option String
  pub subject : Option String
  pub contact_name : Option String
  pub contact_email : Option String
  pub contact_phone : Option String
  pub provider_message_id : Option String
  pub in_reply_to : Option String
  pub raw : Dict Json
  pub occurred_at : Option Time

abbrev pub has_email : Uuid → Option String → Contact → Bool
has_email workspace email c =
    c.workspace_id == workspace && (opt_eq c.primary_email email && not c.is_deleted)

abbrev pub has_phone : Uuid → Option String → Contact → Bool
has_phone workspace phone c =
    c.workspace_id == workspace && (opt_eq c.primary_phone phone && not c.is_deleted)

-- `if given and not held: held = given`
abbrev pub fill : Option String → Option String → Option String
fill held given = if truthy given && not (truthy held) then given else held

unfoldable pub filled : Inbound → Contact → Contact
filled inbound c = record c {
  name = fill c.name inbound.contact_name;
  primary_email = fill c.primary_email inbound.contact_email;
  primary_phone = fill c.primary_phone inbound.contact_phone;
}

abbrev pub save_contact : Contact → M Unit
save_contact contact = write (λ db. record db {
  contacts = update_rows (λ c. c.id == contact.id) (λ _. contact) db.contacts;
})

unfoldable pub find_by_email : Uuid → Option String → M (Option Contact)
find_by_email workspace email =
    if truthy email
    then gets (λ s. where_ (has_email workspace email) s.db.contacts) >>= scalar_one_or_none
    else pure none

unfoldable pub find_by_phone : Uuid → Option String → Option Contact → M (Option Contact)
find_by_phone workspace phone (some c) = pure (some c)
find_by_phone workspace phone none =
    if truthy phone
    then gets (λ s. where_ (has_phone workspace phone) s.db.contacts) >>= scalar_one_or_none
    else pure none

abbrev pub new_contact : Uuid → Uuid → Inbound → Contact
new_contact id workspace inbound = record {
  id = id;
  workspace_id = workspace;
  name = inbound.contact_name;
  primary_email = inbound.contact_email;
  primary_phone = inbound.contact_phone;
  owner_user_id = none;
  source = some inbound.adapter_type;
  custom_fields = [];
  is_deleted = false;
}

unfoldable pub create_contact : Uuid → Inbound → M Contact
create_contact workspace inbound = do
  id ← uuid4
  write (λ db. record db { contacts = db.contacts ++ new_contact id workspace inbound ∷ [] })
  pure (new_contact id workspace inbound)

unfoldable pub keep_contact : Inbound → Contact → M Contact
unfolding filled
keep_contact inbound c = do save_contact (filled inbound c); pure (filled inbound c)

unfoldable pub find_or_create_contact : Uuid → Inbound → M Contact
find_or_create_contact workspace inbound = do
  by_email ← find_by_email workspace inbound.contact_email
  found ← find_by_phone workspace inbound.contact_phone by_email
  elim found [ none ↦ create_contact workspace inbound | some c ↦ keep_contact inbound c ]
