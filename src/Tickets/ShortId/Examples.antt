-- ===== src/Tickets/ShortId/Examples.antt =====
-- The theorems about short ids at concrete ids, and the token's text.
use Prim.Native.String.{String, []}
use mathlib.Core.List.{[]}
use phera.Common.{◌≡◌, refl, none, some, arith, is_digit, pad, any, where_}
use phera.Models.{Ticket, empty_db}
use phera.Session.{Session, new_session, ok, ◌>>=◌}
use phera.Tickets.ShortId.{
  search_token, short_id, has_short_id, generate_ticket_short_id, generate_from, randbelow,
}
use phera.Tickets.ShortId.Fresh.{IsUnique, generate_ticket_short_id-Generates}

finds : search_token "Re: order [#12] [#260818-004827]!" ≡ some "260818-004827"
unfolding search_token is_digit
finds = refl

pads : short_id "260818" 4827 ≡ "260818-004827"
unfolding short_id pad
pads = refl

abbrev start : Session
start = new_session empty_db (λ n. "u") (λ n. n)

abbrev pub blank : Ticket
blank = record {
  id = "t1";
  workspace_id = "ws";
  contact_id = "c1";
  channel_account_id = none;
  assignee_user_id = none;
  routing_tier = 1;
  short_id = none;
  subject = none;
  status = "open";
  priority = "normal";
  last_activity_at = 0;
  created_at = 0;
  updated_at = 0;
  status_entered_at = none;
  first_assigned_at = none;
  first_response_at = none;
  resolved_at = none;
  closed_at = none;
}

abbrev numbered : Ticket
numbered = record blank { short_id = some (short_id "260818" 0) }

program : Unit {0}
unfolding generate_from randbelow short_id ◌>>=◌ where_ any
program = tt

start-IsUnique : IsUnique start.db.tickets
unfolding where_
start-IsUnique id = omega arith

no_rows : (id : String) → where_ (has_short_id id) start.db.tickets ≡ []
unfolding where_
no_rows id = refl

generate_ticket_short_id-Generates_example :
    (id : String) × ((generate_ticket_short_id start).0 ≡ ok id)
    × (where_ (has_short_id id) start.db.tickets ≡ [])
    × ((generate_ticket_short_id start).1.db ≡ start.db)
generate_ticket_short_id-Generates_example =
    generate_ticket_short_id-Generates start 3 start-IsUnique (omega arith) (no_rows _)
