-- ===== src/Session.antt =====
-- src/phera/db/session.py and src/phera/db/commit.py: one SQLAlchemy session, with what the program
-- reads from outside (new UUIDs, the clock) and what it hands out (notified outbox ids, inbox events).
pub mod Atomic
pub mod Steps
pub mod Ensures
pub mod Keeps
use phera.Common.{
  ℕ, suc, String, ◌≡◌, refl, ◌⊎◌, inl, inr, Bool, true, not, ◌&&◌, ◌==◌, any, Option, none, some,
  List, [], ◌∷◌, ◌++◌, Dict, if◌then◌else◌,
}
use phera.Json.{Json}
use phera.Models.{Db, Uuid, Time, Ticket, Deal, Call, OutboxEvent, EmailPollState}

pub data Error : Type 0 where
  -- `HTTPException(status, detail)`
  http : ℕ → String → Error
  -- The exceptions of Python and of SQLAlchemy that the modelled code raises.
  value_error runtime_error : String → Error
  integrity_error multiple_results type_error key_error attribute_error : Error

pub data Result {ℓ} (A : Type ℓ) : Type ℓ where
  ok : A → Result A
  err : Error → Result A

-- Rows that other sessions commit.
pub record Rivals : Type 0 where
  pub tickets : List Ticket
  pub calls : List Call
  pub outbox_events : List OutboxEvent
  pub poll_states : List EmailPollState
  -- The mailboxes whose poll another worker claims.
  pub claimed : List Uuid

abbrev pub no_rivals : Rivals
no_rivals = record { tickets = []; calls = []; outbox_events = []; poll_states = []; claimed = [] }

pub record Session : Type 0 where
  -- What the session sees: the committed rows with its own pending changes.
  pub db : Db
  -- What other sessions see.
  pub durable : Db
  -- `session.info["outbox_notify_ids"]`
  pub outbox_notify_ids : List Uuid
  -- The ids pushed to the broker, and the events published to the inbox streams.
  pub notified : List Uuid
  pub published : List (Dict String)
  -- `uuid.uuid4()` answers `uuids drawn`, and `datetime.now(UTC)` answers `clock ticks`.
  pub uuids : ℕ → Uuid
  pub drawn : ℕ
  pub clock : ℕ → Time
  pub ticks : ℕ
  -- `secrets.randbelow(n)` answers the remainder by `n` of `randoms rolled`.
  pub randoms : ℕ → ℕ
  pub rolled : ℕ
  -- What other sessions commit before this session's n-th insert or claim.
  pub rivals : ℕ → Rivals
  pub inserts : ℕ
  -- The database's `now()`, which is the time of the transaction.
  pub db_now : Time
  -- `strftime("%y%m%d")` and `isoformat()`, and Python's text of a JSON value that is no text.
  pub strftime : Time → String
  pub isoformat : Time → String
  pub repr : Json → String
  -- The microseconds of a float number of hours, the text of a deal's attribute (`none` where Python
  -- has `None` or no such attribute), and `str` of an exception.
  pub hours : Json → ℕ
  pub attribute : Deal → String → Option String
  pub error_text : Error → String

abbrev pub M : Type 0 → Type 0
M A = Session → Result A × Session

unfoldable pub pure : {A : Type 0} → A → M A
pure a s = (ok a, s)

unfoldable pub raise : {A : Type 0} → Error → M A
raise e s = (err e, s)

unfoldable pub gets : {A : Type 0} → (Session → A) → M A
gets f s = (ok (f s), s)

unfoldable pub modify : (Session → Session) → M Unit
modify f s = (ok tt, f s)

-- A write to the rows that the session sees.
unfoldable pub write : (Db → Db) → M Unit
write f s = (ok tt, record s { db = f s.db })

unfoldable pub uuid4 : M Uuid
uuid4 s = (ok (s.uuids s.drawn), record s { drawn = suc s.drawn })

unfoldable pub now : M Time
now s = (ok (s.clock s.ticks), record s { ticks = suc s.ticks })

-- `scalar_one_or_none()`: more than one row is an error.
unfoldable pub scalar_one_or_none : {A : Type 0} → List A → M (Option A)
scalar_one_or_none [] s = (ok none, s)
scalar_one_or_none (a ∷ []) s = (ok (some a), s)
scalar_one_or_none (a ∷ b ∷ rows) s = (err multiple_results, s)

unfoldable pub continue : {A B : Type 0} → Result A → (A → M B) → M B
continue (ok a) f s = f a s
continue (err e) f s = (err e, s)

infixl 5 ◌>>=◌ ◌>>◌
-- To open this is to open the actions above it.
unfoldable pub ◌>>=◌ : {A B : Type 0} → M A → (A → M B) → M B
unfolding pure raise gets modify write uuid4 now scalar_one_or_none continue
◌>>=◌ m f s = let (r, s') = m s in continue r f s'

abbrev pub ◌>>◌ : {A B : Type 0} → M A → M B → M B
m >> k = m >>= λ _. k

abbrev pub when : Bool → M Unit → M Unit
when b m = if b then m else pure tt

-- `track_outbox_notify`
unfoldable pub track_outbox_notify : Uuid → M Unit
track_outbox_notify outbox_id s =
    (ok tt, record s { outbox_notify_ids = s.outbox_notify_ids ++ outbox_id ∷ [] })

-- The unique constraint on `outbox_events.idempotency_key`.
unfoldable pub has_unique_keys : List OutboxEvent → Bool
has_unique_keys [] = true
has_unique_keys (e ∷ es) =
    not (any (λ f. f.idempotency_key == e.idempotency_key) es) && has_unique_keys es

-- `session.commit()`. The database may refuse the outbox rows as early as a flush before it; then
-- too nothing is committed.
unfoldable pub commit : M Unit
commit s =
    if has_unique_keys s.db.outbox_events
    then (ok tt, record s { durable = s.db })
    else (err integrity_error, s)

-- `notify_outbox` for each id, which the session forgets before it commits. The broker's failures
-- are logged and swallowed there, so the list holds the ids that were tried.
unfoldable pub commit_and_notify : M Unit
commit_and_notify s =
    let pending = s.outbox_notify_ids in
    if has_unique_keys s.db.outbox_events
    then (
      ok tt,
      record s { outbox_notify_ids = []; durable = s.db; notified = s.notified ++ pending },
    )
    else (err integrity_error, record s { outbox_notify_ids = [] })

-- Leaving the session without a commit.
unfoldable pub rollback : M Unit
rollback s = (ok tt, record s { db = s.durable; outbox_notify_ids = [] })

-- `publish_inbox_event` as its callers see it: the payload goes to the subscribers.
unfoldable pub publish_inbox_event : Dict String → M Unit
publish_inbox_event payload s = (ok tt, record s { published = s.published ++ payload ∷ [] })

-- To split on a result and keep the equation.
pub Result-cases {ℓ} :
    {A : Type ℓ} (r : Result A) → ((a : A) × (r ≡ ok a)) ⊎ ((e : Error) × (r ≡ err e))
Result-cases (ok a) = inl (a, refl)
Result-cases (err e) = inr (e, refl)

abbrev pub new_session : Db → (ℕ → Uuid) → (ℕ → Time) → Session
new_session db ids times = record {
  db = db;
  durable = db;
  outbox_notify_ids = [];
  notified = [];
  published = [];
  uuids = ids;
  drawn = 0;
  clock = times;
  ticks = 0;
  randoms = λ n. n;
  rolled = 0;
  rivals = λ n. no_rivals;
  inserts = 0;
  db_now = 0;
  strftime = λ t. "260818";
  isoformat = λ t. "2026-08-18T00:00:00+00:00";
  repr = λ j. "0";
  hours = λ j. 0;
  attribute = λ deal name. none;
  error_text = λ e. "error";
}
