-- ===== src/Lib.antt =====
-- Phera, a headless CRM (src/phera): contacts and deals, support tickets from messages and calls,
-- an audit log and a transactional outbox.
--
-- A request or a worker opens a database session, reads rows, decides, writes rows, records what it
-- did through `mutate` (an audit event, an outbox event, a timeline entry, in the same transaction)
-- and ends with `commit_and_notify`, which commits and only then tells the broker the ids of the
-- outbox events. Request handlers look up a row of their workspace first, and publish to the inbox
-- streams after the commit. The worker reads the outbox, starts workflows, transcribes calls and rolls
-- up each day. Inbound messages and calls choose a channel account, a contact and a ticket before they
-- do the same.
--
-- Files and the code they model:
--   Common            names of the libraries, lists as tables, dictionaries, Python's text functions
--   Json              values of JSONB columns
--   Models            src/phera/db/models.py: `Db` holds the rows of every table in insertion order
--   Session           src/phera/db/session.py, src/phera/db/commit.py: a session as a state, an
--                     action `M A` as a function of it that returns a value or raises; Atomic,
--                     Steps, Ensures and Keeps have the rules for what others see of an action,
--                     what it ensures and what it leaves
--   Mutate            src/phera/db/mutate.py; Mutate/Steps has the steps of a session on
--                     the outbox
--   Authz             src/phera/authz: Actor, Visibility (visibility.py and service.py)
--   Tickets           src/phera/modules/tickets: Coerce, SupportAgents and ReusePolicy
--                     (reuse_policy.py), ShortId (short_id.py), Channels, Contacts, Joining and
--                     Inbound (inbound.py)
--   Workflows         src/phera/modules/workflows: Matching (matching.py, and the start of a run),
--                     Nodes and Engine (engine.py, and the wakes of src/phera/worker/runner.py)
--   Intake            src/phera/modules/pipelines/intake.py: a form's contact, deal and submission
--   Routing           src/phera/modules/routing: engine.py, and SupportTeams (support_teams.py)
--   Voice             src/phera/api/routes/voice_hooks.py: Params (the token), Calls (the rows), Events
--                     and Routes (the two callbacks)
--   Email             src/phera/modules/connectors/imap_smtp.py (Provider),
--                     src/phera/modules/tickets/email_poll.py (Poll; Claims has the workers' steps)
--   Api               src/phera/api: Access (deps.py, and src/phera/authz/service.py), Enrichment
--                     (src/phera/modules/tickets/enrichment.py), Tickets, Providers, Reply and
--                     Conversation (routes/tickets.py), Inbox (routes/inbox.py, and
--                     src/phera/modules/tickets/inbox_events.py as Inbox/Stream), Contacts, Pipelines
--                     and Deals (routes/contacts.py), Calls (routes/calls.py), Teams (routes/teams.py)
--   Worker            src/phera/worker/runner.py: Events (the outbox), Rollup (the days and the rounds);
--                     Transcription (src/phera/modules/transcription/job.py)
--
-- The children of these modules hold the theorems, and their Examples apply these at concrete data.
--
-- Choices. A UUID is its text and a time a number of microseconds since the epoch. What the code
-- reads from outside is a function in the session with a counter: new UUIDs, the clock, random
-- numbers, `strftime`, Python's text of a JSON value, and the rows that rival sessions commit before
-- each insert of a ticket, a call, the event of a call's end or a poll state, and before each claim of
-- a poll. A commit fails when two outbox events have one idempotency key. Parameters are: what a
-- provider answers to a reply and an IMAP server to a visit; what Fernet, Python's email package, the
-- parser of replies and base64 make of a text, and what `json.loads` and `uuid.UUID` accept; the rows
-- that other workers have locked; and the poll of a workspace in the worker's round, which
-- `poll_all_email_accounts` of Email/Poll is in the program. A query is a filter of a table,
-- `scalar_one_or_none` raises on two rows, and `ORDER BY` is a stable sort of the table, the first
-- inserted row first among equals. The database sets `updated_at` of a ticket on each save.
-- `lower`, `strip` and `\d` are those of ASCII. A float of JSON is its sign, its whole part and
-- whether a fraction follows. Loops with a bound in the source (ten short ids, three inserts) are
-- recursion on that bound; the walk of a workflow's graph has none and runs on fuel, which suffices
-- where the edges descend and it exceeds the rank of the first node.
--
-- Not modelled: tracing, metrics and logging; failures of the database other than the unique short
-- ids of tickets, the unique ids of calls, the unique open deal and the unique idempotency key (the
-- sizes of columns are not looked at); the broker, whose failures the source swallows; columns that no
-- modelled code reads; organizations, the HTTP layer, the other routes, the connectors' network I/O,
-- seeds and settings.
mod Common
pub mod Json
pub mod Models
pub mod Session
pub mod Mutate
pub mod Authz
pub mod Tickets
pub mod Workflows
pub mod Intake
pub mod Routing
pub mod Api
pub mod Worker
pub mod Voice
pub mod Email
