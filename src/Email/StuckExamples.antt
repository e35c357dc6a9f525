-- ===== src/Email/StuckExamples.antt =====
-- The theorems about a poll that raises, at one mailbox.
use phera.Common.{◌≡◌, refl, true, none, some, [], ◌∷◌, any, update_rows}
use phera.Models.{ChannelAccount, Connector, empty_db}
use phera.Session.{
  Session, Error, new_session, ok, err, has_unique_keys, runtime_error, value_error,
}
use phera.Session.Atomic.{IsUnseen}
use phera.Email.Provider.{from_connector, secrets_of}
use phera.Email.Poll.{Mail, new_state, set_running, claim_poll, claim_rows, claim_and_poll}
use phera.Email.Stuck.{IsRunning, claim_and_poll-IsRunning, later_polls, later_polls-IsUnseen}

abbrev rotated : Error
rotated = runtime_error "Stored secret could not be decrypted"

abbrev mail : Mail
mail = record {
  decrypt_secrets = λ sealed. err rotated;
  client = λ p. record { uidnext = ok 1; search = λ since. ok []; fetch = λ uids. ok [] };
  parse_rfc822 = λ raw. err (value_error "");
  parse_reply = ok;
  b64encode = λ raw. raw;
}

abbrev box : ChannelAccount
box = record {
  id = "box";
  workspace_id = "ws";
  kind = "email";
  adapter_type = "imap_smtp";
  address = "help@x.io";
  connector_id = some "con";
  routing_policy_id = none;
  is_active = true;
}

abbrev imap : Connector
imap = record {
  id = "con";
  workspace_id = "ws";
  type = "imap_smtp";
  credentials = [];
  secrets_encrypted = some "sealed";
  is_active = true;
}

abbrev start : Session
start =
    new_session
      (record empty_db { connectors = imap ∷ []; email_poll_states = new_state "box" ∷ [] })
      (λ n. "u") (λ n. n)

abbrev polling : Session
polling =
    new_session
      (record empty_db {
        connectors = imap ∷ [];
        email_poll_states = set_running (new_state "box") ∷ [];
      })
      (λ n. "u") (λ n. n)

is_won : (claim_poll "box" start).0 ≡ ok true
unfolding claim_poll claim_rows any update_rows
is_won = refl

unreadable : from_connector mail.decrypt_secrets imap ≡ err rotated
unfolding from_connector secrets_of
unreadable = refl

claim_and_poll-IsRunning_example :
    ((claim_and_poll mail "ws" box imap 0 start).0 ≡ err rotated)
    × IsRunning "box" (claim_and_poll mail "ws" box imap 0 start).1.durable.email_poll_states
unfolding has_unique_keys
claim_and_poll-IsRunning_example =
    claim_and_poll-IsRunning mail "ws" box imap 0 start rotated refl is_won unreadable

polling-IsRunning : IsRunning "box" polling.durable.email_poll_states
unfolding any
polling-IsRunning = record { stands = refl; busy = refl }

later_polls-IsUnseen_example : IsUnseen polling (later_polls 2 mail "ws" box polling)
later_polls-IsUnseen_example = later_polls-IsUnseen 2 mail "ws" box polling polling-IsRunning
