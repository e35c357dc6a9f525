-- ===== src/Api/Providers.antt =====
-- The provider that `send_ticket_message` of src/phera/api/routes/tickets.py sends by.
use Prim.Native.String
use phera.Common.{
  String, Bool, Option, none, some, List, [], ◌∷◌, ◌==◌, if◌then◌else◌, elem, where_, first,
}
use phera.Models.{Uuid, ChannelAccount, Connector}
use phera.Session.{M, Result, ok, err, runtime_error, pure, raise, gets, http}

-- What a provider is given. Only an e-mail has a subject and the ids that it answers.
pub record Outgoing : Type 0 where
  pub to : String
  pub name : Option String
  pub subject : Option String
  pub body : String
  pub in_reply_to : Option String
  pub references : List String

-- A provider of src/phera/modules/connectors: whether it has its credentials, and what comes of
-- `send`, which talks to a server: the id of the message, or an exception.
pub record Provider : Type 0 where
  pub configured : Bool
  pub send : Outgoing → Result String

-- `from_settings` and `from_connector` of the three providers.
pub record Providers : Type 0 where
  pub gallabox_settings : Provider
  pub gallabox_connector : Connector → Provider
  pub google_group_settings : Provider
  pub imap_smtp_connector : Connector → Provider

abbrev pub is_email : ChannelAccount → Bool
is_email c = elem c.adapter_type ("google_group" ∷ "imap_smtp" ∷ [])

-- `session.get(Connector, id)`
abbrev pub connector_by : Uuid → List Connector → Option Connector
connector_by id rows = first (where_ (λ c. c.id == id) rows)

abbrev pub if_found : (Connector → Provider) → Option Connector → Option Provider
if_found f none = none
if_found f (some c) = some (f c)

-- The provider of a connector, or of the settings where the channel names no connector.
unfoldable pub from_either : (Connector → Provider) → Provider → Option Uuid → M (Option Provider)
from_either from settings none = pure (some settings)
from_either from settings (some id) = gets (λ s. if_found from (connector_by id s.db.connectors))

unfoldable pub find_provider : Providers → ChannelAccount → M (Option Provider)
find_provider p c =
    if c.adapter_type == "gallabox"
    then from_either p.gallabox_connector p.gallabox_settings c.connector_id
    else if is_email c
    then from_either p.imap_smtp_connector p.google_group_settings c.connector_id
    else raise (http 400 (String.◌++◌ "Unsupported channel adapter_type: " c.adapter_type))

unfoldable pub check_configured : Option Provider → M Provider
check_configured none = raise (http 502 "This channel is not configured for sending")
check_configured (some p) =
    if p.configured then pure p else raise (http 502 "This channel is not configured for sending")

-- `if not value: raise`
unfoldable pub require_value : String → Option String → M String
require_value detail none = raise (http 400 detail)
require_value detail (some v) = if v == "" then raise (http 400 detail) else pure v

-- `except RuntimeError`; every other exception goes on.
unfoldable pub sent : Result String → M String
sent (ok id) = pure id
sent (err (runtime_error detail)) = raise (http 502 detail)
sent (err e) = raise e
