-- ===== src/Voice/Rings.antt =====
-- The theorem about rung agents at one call.
use phera.Common.{
  String, ◌≡◌, refl, ◌⊎◌, true, false, none, some, [], ◌∷◌, where_, any, get, strip, lower,
  contains, keep, update_rows, Dict,
}
use phera.Models.{Contact, Ticket}
use phera.Session.{
  Session, ok, gets, pure, raise, write, uuid4, now, commit_and_notify, has_unique_keys,
  publish_inbox_event, scalar_one_or_none, ◌>>=◌,
}
use phera.Json.{lookup}
use phera.Tickets.Coerce.{clamp_window, int_of}
use phera.Tickets.Channels.{
  resolve_channel_account, resolve_channel_account_global, pick_channel_account, first_match,
  address_matches, normalize_channel_address,
}
use phera.Tickets.ReusePolicy.{
  reuse_policy, effective_reuse_policy, parse_ticket_reuse, find_profile, reusable_statuses,
}
use phera.Tickets.Contacts.{
  find_by_email, find_by_phone, keep_contact, filled, find_or_create_contact,
}
use phera.Tickets.ShortId.{search_token}
use phera.Tickets.Joining.{
  reuse_or_create_ticket, reply_ticket, subject_ticket, recent_ticket, best, reopen, save_ticket,
}
use phera.Tickets.Inbound.{resolve_call_ticket}
use phera.Voice.Params.{
  first_of, require, is_ascii, token_ok, token_of, connector_token, bound_token, verify_bound_token,
  found_workspace, channel_workspace, resolve_verified_exotel_channel,
}
use phera.Voice.Calls.{change_call, with_agent, existing_or_new, get_or_create_inbound_call}
use phera.Voice.Routes.{
  assign_target, ring, ring_identity, ring_target, route_call, exotel_route_call,
}
use phera.Voice.Rung.{IsRinging, exotel_route_call-IsRinging}
use phera.Voice.Examples.{start, unsealed}

abbrev caller : Contact
caller = record {
  id = "k1";
  workspace_id = "ws";
  name = none;
  primary_email = none;
  primary_phone = some "+4999";
  owner_user_id = none;
  source = none;
  custom_fields = [];
  is_deleted = false;
}

abbrev ticket : Ticket
ticket = record {
  id = "t1";
  workspace_id = "ws";
  contact_id = "k1";
  channel_account_id = some "ch";
  assignee_user_id = some "u1";
  routing_tier = 1;
  short_id = none;
  subject = none;
  status = "open";
  priority = "normal";
  last_activity_at = 0;
  created_at = 0;
  updated_at = 0;
  status_entered_at = none;
  first_assigned_at = some 0;
  first_response_at = none;
  resolved_at = none;
  closed_at = none;
}

abbrev ringing : Session
ringing = record start {
  db = record start.db {
    contacts = caller ∷ [];
    tickets = ticket ∷ [];
    agent_identities =
        record { user_id = "u1"; workspace_id = "ws"; sip_user = "agent-7"; is_active = true } ∷ [];
  };
}

abbrev asked : Dict String
asked = ("CallSid", "sid") ∷ ("From", "+4999") ∷ ("To", "+4912") ∷ []

-- Opens the program that the call runs through.
program : Unit {0}
unfolding exotel_route_call require first_of get resolve_verified_exotel_channel
    resolve_channel_account_global address_matches normalize_channel_address strip lower contains
    keep verify_bound_token bound_token connector_token token_of token_ok is_ascii channel_workspace
    found_workspace where_ any update_rows scalar_one_or_none route_call resolve_call_ticket
    resolve_channel_account pick_channel_account first_match find_or_create_contact find_by_email
    find_by_phone keep_contact filled reuse_policy find_profile effective_reuse_policy
    parse_ticket_reuse reuse_or_create_ticket reply_ticket subject_ticket search_token recent_ticket
    best reusable_statuses reopen save_ticket assign_target ring_target ring_identity ring
    get_or_create_inbound_call existing_or_new change_call with_agent commit_and_notify
    has_unique_keys publish_inbox_event gets pure raise write uuid4 now ◌>>=◌ lookup clamp_window
    int_of
program = tt

rings : (exotel_route_call unsealed (λ a b. true) asked "tok" ringing).0 ≡ ok "agent-7"
unfolding program
rings = refl

exotel_route_call-IsRinging_example :
    ◌≡◌ {A = String} "agent-7" ""
    ⊎ IsRinging asked "agent-7" (exotel_route_call unsealed (λ a b. true) asked "tok" ringing).1
exotel_route_call-IsRinging_example =
    exotel_route_call-IsRinging unsealed (λ a b. true) asked "tok" ringing "agent-7" rings
