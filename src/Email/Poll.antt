-- ===== src/Email/Poll.antt =====
-- src/phera/modules/tickets/email_poll.py: one worker's poll of a mailbox.

use phera.Common.{
  ℕ, suc, ◌+◌, ◌*◌, String, Bool, true, false, not, ◌&&◌, Option, none, some, List, [], ◌∷◌, ◌++◌,
  ◌==◌, if◌then◌else◌, truthy, opt_eq, elem, any, first, where_, update_rows, ltb, strip, lower,
  split_on, Dict, get,
}
use phera.Json.{Json, str, int, ℤ, pos, negsuc, is_true}
use phera.Models.{Uuid, Time, Workspace, Connector, ChannelAccount, EmailPollState}
use phera.Session.{
  M, Result, ok, err, pure, raise, gets, write, now, commit, ◌>>=◌, ◌>>◌, value_error,
  attribute_error,
}
use phera.Worker.Events.{attempt}
use phera.Api.Providers.{connector_by}
use phera.Tickets.Joining.{blank_or}
use phera.Tickets.Contacts.{Inbound}
use phera.Tickets.Inbound.{Outcome, duplicate, received, ingest_inbound_message}
use phera.Email.Provider.{
  RawMessage, ImapClient, ImapSmtpEmailProvider, from_connector, is_configured, fetch_new_messages,
  python_int, strip_quoted_reply,
}

-- The answer of `parse_rfc822` of src/phera/modules/connectors/google_group.py.
pub record Parsed : Type 0 where
  pub from : String
  pub to : String
  pub subject : Option String
  pub text : Option String
  pub message_id : Option String
  pub in_reply_to : Option String
  pub name : Option String

-- What the poll stands on: Fernet, the IMAP server of a provider, Python's email package, the parser of
-- replies and `base64.b64encode`.
pub record Mail : Type 0 where
  pub decrypt_secrets : String → Result (Dict Json)
  pub client : ImapSmtpEmailProvider → ImapClient
  pub parse_rfc822 : String → Result Parsed
  pub parse_reply : String → Result String
  pub b64encode : String → String

abbrev pub default_poll_interval_seconds : ℤ
default_poll_interval_seconds = pos 20

-- `int(credentials.get("poll_interval_seconds") or DEFAULT_POLL_INTERVAL_SECONDS)`
unfoldable pub interval_of : Dict Json → Result ℤ
interval_of credentials = elim (get "poll_interval_seconds" credentials) [
  | none ↦ ok default_poll_interval_seconds
  | some value ↦ if is_true value then python_int value else ok default_poll_interval_seconds
]

-- `now - last < timedelta(seconds=interval)`
unfoldable pub is_early : ℤ → Time → Time → Bool
is_early (pos n) at last = ltb at (last + n * 1_000_000)
is_early (negsuc n) at last = ltb (at + suc n * 1_000_000) last

abbrev pub is_state_of : Uuid → EmailPollState → Bool
is_state_of account p = p.channel_account_id == account

abbrev pub state_by : Uuid → List EmailPollState → Option EmailPollState
state_by account rows = first (where_ (is_state_of account) rows)

abbrev pub new_state : Uuid → EmailPollState
new_state account = record {
  channel_account_id = account;
  last_uid = 0;
  last_polled_at = none;
  status = "idle";
  last_error = none;
}

-- The savepoint of the insert: another worker may have inserted the row.
unfoldable pub insert_state : Uuid → M Bool
insert_state account s =
    let rows = s.db.email_poll_states ++ (s.rivals s.inserts).poll_states in
    if any (is_state_of account) rows
    then (
      ok false,
      record s { db = record s.db { email_poll_states = rows }; inserts = suc s.inserts },
    )
    else (
      ok true,
      record s {
        db = record s.db { email_poll_states = rows ++ new_state account ∷ [] };
        inserts = suc s.inserts;
      },
    )

-- Whether this worker goes on to the claim.
unfoldable pub is_poll_due : Uuid → ℤ → Time → Option EmailPollState → M Bool
is_poll_due account interval at none = insert_state account
is_poll_due account interval at (some p) =
    if p.status == "running"
    then pure false
    else pure (not (elim p.last_polled_at [ none ↦ false | some last ↦ is_early interval at last ]))

abbrev pub set_running : EmailPollState → EmailPollState
set_running p = record p { status = "running" }

-- `WHERE channel_account_id = account AND status != "running"`
abbrev pub is_free : Uuid → EmailPollState → Bool
is_free account p = is_state_of account p && not (p.status == "running")

-- The conditional `UPDATE`: the rows after it, and whether it found one.
unfoldable pub claim_rows : Uuid → List EmailPollState → List EmailPollState × Bool
claim_rows account rows =
    (update_rows (is_free account) set_running rows, any (is_free account) rows)

-- The claims of other workers come first.
unfoldable pub claim_poll : Uuid → M Bool
claim_poll account s =
    let others = (s.rivals s.inserts).claimed in
    let seen =
      update_rows (λ p. elem p.channel_account_id others) set_running s.db.email_poll_states in
    let (rows, found) = claim_rows account seen in
    (ok found, record s { db = record s.db { email_poll_states = rows }; inserts = suc s.inserts })

-- What is written through the state object: the columns that change, in the account's row.
unfoldable pub change_state : Uuid → (EmailPollState → EmailPollState) → M Unit
change_state account change = write (λ db. record db {
  email_poll_states = update_rows (is_state_of account) change db.email_poll_states;
})

abbrev pub failed_poll : String → Time → EmailPollState → EmailPollState
failed_poll detail at p = record p {
  status = "error";
  last_error = some detail;
  last_polled_at = some at;
}

abbrev pub finished_poll : ℕ → Time → EmailPollState → EmailPollState
finished_poll watermark at p = record p {
  last_uid = watermark;
  status = "idle";
  last_error = none;
  last_polled_at = some at;
}

unfoldable pub fail_poll : Uuid → String → Time → M ℕ
fail_poll account detail at = do change_state account (failed_poll detail at); commit; pure 0

-- `credentials.get("from_address") or credentials.get("username") or ""`, a text or not.
abbrev pub first_true : List (Option Json) → Json
first_true [] = str ""
first_true (none ∷ values) = first_true values
first_true (some value ∷ values) = if is_true value then value else first_true values

unfoldable pub address_text : Json → M String
address_text (str t) = pure (lower (strip t))
address_text _ = raise attribute_error

abbrev pub own_address : Dict Json → Json
own_address credentials =
    first_true (get "from_address" credentials ∷ get "username" credentials ∷ [])

abbrev pub head_or : String → List String → String
head_or d [] = d
head_or d (w ∷ ws) = w

abbrev pub if_text : String → Option String
if_text t = if t == "" then none else some t

abbrev pub poll_inbound : Mail → ChannelAccount → Time → RawMessage → Parsed → String → Inbound
poll_inbound mail account at message parsed from_addr = record {
  channel_kind = "email";
  adapter_type = "imap_smtp";
  address_hint = some (if parsed.to == "" then account.address else parsed.to);
  body = some (strip_quoted_reply mail.parse_reply (blank_or parsed.text));
  subject = parsed.subject;
  contact_name =
      if truthy parsed.name
      then parsed.name
      else if from_addr == ""
      then none
      else some (head_or "" (split_on b'@' from_addr));
  contact_email = if_text from_addr;
  contact_phone = none;
  provider_message_id = parsed.message_id;
  in_reply_to = parsed.in_reply_to;
  raw =
      ("source", str "imap")
      ∷ ("uid", int (pos message.uid))
      ∷ ("raw_rfc822_b64", str (mail.b64encode message.raw))
      ∷ [];
  occurred_at = some at;
}

abbrev pub counts : Outcome → ℕ
counts (duplicate id ticket contact) = 0
counts (received created message ticket contact) = 1

-- `except ValueError`: what the ingest did before it raised stays in the session.
unfoldable pub ingested : Result Outcome → M ℕ
ingested (ok outcome) = pure (counts outcome)
ingested (err (value_error detail)) = pure 0
ingested (err e) = raise e

unfoldable pub take_parsed :
    Mail → Uuid → ChannelAccount → Time → String → RawMessage → Parsed → M ℕ
take_parsed mail workspace account at own message parsed =
    let from_addr = lower (strip parsed.from) in
    if not (own == "") && from_addr == own then pure 0 else do
      r ←
          attempt (
            ingest_inbound_message workspace
              (poll_inbound mail account at message parsed from_addr))
      ingested r

-- An exception of the parser is not caught.
unfoldable pub from_result : {A : Type 0} → Result A → M A
from_result (ok a) = pure a
from_result (err e) = raise e

unfoldable pub take_messages : Mail → Uuid → ChannelAccount → Time → String → List RawMessage → M ℕ
take_messages mail workspace account at own [] = pure 0
take_messages mail workspace account at own (message ∷ messages) = do
  parsed ← from_result (mail.parse_rfc822 message.raw)
  n ← take_parsed mail workspace account at own message parsed
  more ← take_messages mail workspace account at own messages
  pure (n + more)

-- What follows a fetch: the messages are taken in, and the watermark moves.
unfoldable pub finish_poll :
    Mail → Uuid → ChannelAccount → Dict Json → Time → List RawMessage × ℕ → M ℕ
finish_poll mail workspace account credentials at (messages, watermark) = do
  own ← address_text (own_address credentials)
  n ← take_messages mail workspace account at own messages
  done ← now
  change_state account.id (finished_poll watermark done)
  commit
  pure n

unfoldable pub after_fetch :
    Mail → Uuid → ChannelAccount → Dict Json → Time → Result (List RawMessage × ℕ) → M ℕ
after_fetch mail workspace account credentials at (ok fetched) =
    finish_poll mail workspace account credentials at fetched
after_fetch mail workspace account credentials at (err e) = do
  detail ← gets (λ s. s.error_text e)
  fail_poll account.id detail at

-- `state.last_uid if state.last_uid > 0 else None`
abbrev pub since_of : Option EmailPollState → Option ℕ
since_of none = none
since_of (some p) = if ltb 0 p.last_uid then some p.last_uid else none

-- What follows the committed claim.
unfoldable pub poll_claimed : Mail → Uuid → ChannelAccount → Connector → Time → M ℕ
poll_claimed mail workspace account connector at = do
  provider ← from_result (from_connector mail.decrypt_secrets connector)
  if not (is_configured provider)
      then fail_poll account.id "Connector is missing required IMAP/SMTP fields" at
      else do
        state ← gets (λ s. state_by account.id s.db.email_poll_states)
        after_fetch mail workspace account connector.credentials at
            (fetch_new_messages (mail.client provider) (since_of state))

unfoldable pub claim_and_poll : Mail → Uuid → ChannelAccount → Connector → Time → M ℕ
claim_and_poll mail workspace account connector at = do
  won ← claim_poll account.id
  if not won then pure 0 else do commit; poll_claimed mail workspace account connector at

unfoldable pub poll_connected : Mail → Uuid → ChannelAccount → Option Connector → M ℕ
poll_connected mail workspace account none = pure 0
poll_connected mail workspace account (some connector) =
    if not connector.is_active then pure 0 else do
      interval ← from_result (interval_of connector.credentials)
      state ← gets (λ s. state_by account.id s.db.email_poll_states)
      at ← now
      due ← is_poll_due account.id interval at state
      if not due then pure 0 else claim_and_poll mail workspace account connector at

abbrev pub connector_of_account : ChannelAccount → List Connector → Option Connector
connector_of_account account rows = elim account.connector_id [
  | none ↦ none
  | some id ↦ connector_by id rows
]

unfoldable pub poll_one_email_account : Mail → Uuid → ChannelAccount → M ℕ
poll_one_email_account mail workspace account = do
  connector ← gets (λ s. connector_of_account account s.db.connectors)
  poll_connected mail workspace account connector

unfoldable pub poll_each_account : Mail → Uuid → List ChannelAccount → M ℕ
poll_each_account mail workspace [] = pure 0
poll_each_account mail workspace (account ∷ accounts) = do
  n ← poll_one_email_account mail workspace account
  more ← poll_each_account mail workspace accounts
  pure (n + more)

abbrev pub is_polled : Uuid → ChannelAccount → Bool
is_polled workspace a =
    a.workspace_id == workspace
    && (a.kind == "email"
        && (a.adapter_type == "imap_smtp" && (a.is_active && not (opt_eq a.connector_id none))))

unfoldable pub poll_all_email_accounts : Mail → Workspace → M ℕ
poll_all_email_accounts mail workspace = do
  accounts ← gets (λ s. where_ (is_polled workspace.id) s.db.channel_accounts)
  poll_each_account mail workspace.id accounts
