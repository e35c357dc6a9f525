-- ===== src/Tickets/Inbound/Examples.antt =====
-- The theorems about joining and reopening at a resolved ticket, and at a workspace with no ticket.

use phera.Common.{◌≡◌, refl, true, false, none, some, [], ◌∷◌, where_, any, is_digit, get}
use phera.Models.{Contact, Ticket, empty_db}
use phera.Session.{Session, new_session, ok, ◌>>=◌}
use phera.Tickets.ReusePolicy.{EffectiveReusePolicy, allows_status, reusable_statuses, find_profile}
use phera.Tickets.SupportAgents.{support_agent_ids}
use phera.Tickets.ShortId.{
  search_token, short_id, insert_ticket_with_short_id, generate_ticket_short_id, generate_from,
  randbelow, insert_from, insert_ticket,
}
use phera.Tickets.Contacts.{Inbound}
use phera.Tickets.Channels.Examples.{sales}
use phera.Tickets.ShortId.Examples.{blank}
use phera.Tickets.Inbound.{call_inbound}
use phera.Tickets.Joining.{
  reuse_or_create_ticket, reply_ticket, subject_ticket, recent_ticket, create_ticket, message_time,
  best, save_ticket, reopen, reopened, new_ticket,
}
use phera.Tickets.Inbound.Reuse.{reuse-allows_status}

abbrev pub asha : Contact
asha = record {
  id = "c1";
  workspace_id = "ws";
  name = some "Asha";
  primary_email = some "asha@x.io";
  primary_phone = none;
  owner_user_id = none;
  source = none;
  custom_fields = [];
  is_deleted = false;
}

abbrev policy : EffectiveReusePolicy
policy = record {
  window_seconds = 60;
  reopen_resolved = true;
  reopen_closed = true;
  on_reopen_assignee = "queue";
}

abbrev inbound : Inbound
inbound = call_inbound "exotel" "+9180"

abbrev resolved : Ticket
resolved = record blank {
  status = "resolved";
  channel_account_id = some "ch1";
  assignee_user_id = some "u1";
  resolved_at = some 5;
}

abbrev start : Session
start = new_session empty_db (λ n. "u") (λ n. n)

abbrev with_ticket : Session
with_ticket = new_session (record empty_db { tickets = resolved ∷ [] }) (λ n. "u") (λ n. n)

program : Unit {0}
unfolding reuse_or_create_ticket reply_ticket subject_ticket recent_ticket ◌>>=◌ best where_ any
    search_token is_digit
program = tt

joins : (reuse_or_create_ticket "ws" asha sales inbound policy with_ticket).0 ≡ ok (resolved, false)
unfolding program reusable_statuses
joins = refl

reuse-allows_status_example : allows_status policy "resolved" ≡ true
reuse-allows_status_example =
    reuse-allows_status "ws" asha sales inbound policy with_ticket resolved joins

abbrev created : Ticket
created = record (new_ticket "u" 0 "ws" asha sales inbound 1) {
  short_id = some (short_id "260818" 0);
}

writes : Unit {0}
unfolding create_ticket message_time insert_ticket_with_short_id insert_from insert_ticket
    generate_ticket_short_id generate_from randbelow
writes = tt

abbrev reopened_ticket : Ticket
reopened_ticket = reopened policy [] 0 resolved

reopens : (reopen "ws" policy resolved with_ticket).0 ≡ ok reopened_ticket
unfolding reopen ◌>>=◌ save_ticket support_agent_ids get find_profile
reopens = refl
