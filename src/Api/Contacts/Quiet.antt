-- ===== src/Api/Contacts/Quiet.antt =====
-- The lookup of a contact in src/phera/api/routes/contacts.py only reads.
use phera.Common.{Option, none, some}
use phera.Models.{Uuid, Contact}
use phera.Session.Atomic.{IsQuiet, quiet}
use phera.Api.Contacts.{own_contact, get_contact}

pub own_contact-IsQuiet :
    (workspace : Uuid) (found : Option Contact) → IsQuiet (own_contact workspace found)
unfolding own_contact
own_contact-IsQuiet workspace none = search quiet
own_contact-IsQuiet workspace (some c) = search quiet

pub get_contact-IsQuiet : (workspace id : Uuid) → IsQuiet (get_contact workspace id)
unfolding get_contact
get_contact-IsQuiet workspace id = search (quiet, own_contact-IsQuiet) depth 8
