-- ===== src/Api/Calls/Examples.antt =====
-- The theorem about a call that is started again, at one agent and one number.
use phera.Common.{◌≡◌, refl, none, some, [], ◌∷◌, where_, any, inl}
use phera.Models.{Call, empty_db}
use phera.Session.{
  Session, new_session, ok, err, integrity_error, gets, pure, raise, write, uuid4, now,
  commit_and_notify, has_unique_keys, track_outbox_notify, ◌>>=◌,
}
use phera.Authz.Actor.{Actor, typed_actor}
use phera.Tickets.Inbound.Examples.{asha}
use phera.Voice.Calls.{insert_call}
use phera.Api.Contacts.{get_contact, own_contact}
use phera.Api.Calls.{
  CallCreate, outbound_call, flush_call, touch_called, queue_started, publish_started, start_call,
  click_to_call,
}
use phera.Api.Calls.Again.{start_call_again}
use phera.Mutate.Steps.{IsTransactional}
use phera.Api.Runs.{calls, IsRequest-IsTransactional}

abbrev agent : Actor
agent = typed_actor "user" (some "u1")

abbrev wanted : CallCreate
wanted = record { contact_id = "c1"; to_number = "+4999"; ticket_id = none }

abbrev start : Session
start = new_session (record empty_db { contacts = asha ∷ [] }) (λ n. "u") (λ n. n)

abbrev first_call : Call
first_call = outbound_call "u" "ws" agent wanted 0

abbrev later : Session
later = new_session (record start.db { calls = first_call ∷ [] }) (λ n. "v") (λ n. n)

is_started : (start_call "ws" agent wanted start).0 ≡ ok first_call
unfolding start_call get_contact own_contact where_ flush_call insert_call any click_to_call
    touch_called queue_started publish_started commit_and_notify has_unique_keys track_outbox_notify
    gets pure raise write uuid4 now ◌>>=◌
is_started = refl

start_call_again_example : (start_call "ws" agent wanted later).0 ≡ err integrity_error
unfolding where_
start_call_again_example =
    start_call_again "ws" agent wanted wanted start later first_call asha is_started (inl refl) refl
      refl refl

start-IsTransactional : IsTransactional start
unfolding has_unique_keys
start-IsTransactional = record {
  queued = λ id i. elim i [ ];
  notified_durable = λ id i. elim i [ ];
  outbox_grows = λ id i. i;
  rest = [];
  audit_grows = refl;
  audited = λ e i. elim i [ ];
  audited_durable = λ e i. elim i [ ];
  unique = refl;
}

IsRequest-IsTransactional_example : IsTransactional (start_call "ws" agent wanted start).1
IsRequest-IsTransactional_example =
    IsRequest-IsTransactional "ws" agent (start_call "ws" agent wanted) start (calls wanted)
      start-IsTransactional
