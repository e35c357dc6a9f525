-- ===== src/Api/Enrichment.antt =====
-- src/phera/modules/tickets/enrichment.py: a ticket with its channel and its contact.

use phera.Common.{String, Option, none, some, List, ◌==◌, where_, first}
use phera.Models.{Uuid, Ticket, ChannelAccount, Contact}
use phera.Session.{M, pure, gets, ◌>>=◌}

-- `ticket_detail_dict`
pub record TicketDetail : Type 0 where
  pub ticket : Ticket
  pub channel_kind : Option String
  pub channel_address : Option String
  pub channel_adapter_type : Option String
  pub contact_name : Option String
  pub contact_phone : Option String
  pub contact_email : Option String

abbrev pub channel_by : Option Uuid → List ChannelAccount → Option ChannelAccount
channel_by none rows = none
channel_by (some id) rows = first (where_ (λ c. c.id == id) rows)

unfoldable pub channel_for_ticket : Ticket → M (Option ChannelAccount)
channel_for_ticket t = gets (λ s. channel_by t.channel_account_id s.db.channel_accounts)

abbrev pub contact_by : Uuid → List Contact → Option Contact
contact_by id rows = first (where_ (λ c. c.id == id) rows)

abbrev pub if_some : {A B : Type 0} → Option A → (A → Option B) → Option B
if_some none f = none
if_some (some a) f = f a

unfoldable pub ticket_detail : Ticket → M TicketDetail
ticket_detail t = do
  channel ← channel_for_ticket t
  contact ← gets (λ s. contact_by t.contact_id s.db.contacts)
  pure (record {
    ticket = t;
    channel_kind = if_some channel (λ c. some c.kind);
    channel_address = if_some channel (λ c. some c.address);
    channel_adapter_type = if_some channel (λ c. some c.adapter_type);
    contact_name = if_some contact (λ c. c.name);
    contact_phone = if_some contact (λ c. c.primary_phone);
    contact_email = if_some contact (λ c. c.primary_email);
  })
