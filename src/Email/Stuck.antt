-- ===== src/Email/Stuck.antt =====
-- What a poll of src/phera/modules/tickets/email_poll.py leaves that raises between its claim and its
-- last commit, and what later polls of the mailbox do.
use phera.Common.{
  ℕ, zero, suc, Option-cases, ◌≡◌, refl, sym, ◌∙◌, Bool, true, false, some, List, [], ◌∷◌, arith,
  any, update_rows, elem, where_, inl, inr, Bool-cases, eq_iff, ◌||◌, some-injective,
}
use phera.Models.{Uuid, Time, Connector, ChannelAccount, EmailPollState}
use phera.Session.{
  Session, Result, Result-cases, rollback, Error, ok, err, pure, raise, gets, now, commit, ◌>>=◌,
  has_unique_keys,
}
use phera.Session.Atomic.{IsUnseen, ok≢err}
use phera.Session.Ensures.{ok-injective}
use phera.Email.Provider.{from_connector}
use phera.Email.Poll.{
  Mail, is_state_of, is_free, state_by, claim_poll, claim_rows, set_running, claim_and_poll,
  poll_claimed, from_result, poll_connected, poll_one_email_account, connector_of_account,
  interval_of, is_poll_due,
}
use phera.Email.Alone.{claimed-running, free-stands, stands_after}

or-left : (a b : Bool) → (a || b) ≡ false → a ≡ false
or-left a b h = ground arith

or-right : (a b : Bool) → (a || b) ≡ false → b ≡ false
or-right a b h = ground arith

-- The mailbox has a row, and no row that a claim finds.
pub record IsRunning (account : Uuid) (rows : List EmailPollState) : Type 0 where
  pub stands : any (is_state_of account) rows ≡ true
  pub busy : any (is_free account) rows ≡ false

claim_rows-IsRunning :
    (account : Uuid) (rows : List EmailPollState)
    → (claim_rows account rows).1 ≡ true
    → IsRunning account (claim_rows account rows).0
unfolding claim_rows
claim_rows-IsRunning account rows h = record {
  stands =
      stands_after account (is_free account) set_running (λ p. refl) rows
      ∙ free-stands account rows h;
  busy = claimed-running account rows;
}

-- Where the claim is won and committed, and the connector cannot be read after it, as when its secrets
-- cannot be decrypted: the poll raises, and what is committed says that the mailbox is being polled.
pub claim_and_poll-IsRunning :
    (mail : Mail) (workspace : Uuid) (account : ChannelAccount) (connector : Connector) (at : Time)
    (s : Session) (e : Error)
    → has_unique_keys s.db.outbox_events ≡ true
    → (claim_poll account.id s).0 ≡ ok true
    → from_connector mail.decrypt_secrets connector ≡ err e
    → ((claim_and_poll mail workspace account connector at s).0 ≡ err e)
      × IsRunning account.id
          (claim_and_poll mail workspace account connector at s).1.durable.email_poll_states
unfolding claim_and_poll poll_claimed claim_poll from_result commit raise ◌>>=◌
claim_and_poll-IsRunning mail workspace account connector at s e u won unreadable =
    let seen =
      update_rows (λ p. elem p.channel_account_id (s.rivals s.inserts).claimed) set_running
        s.db.email_poll_states in
    let found : (claim_rows account.id seen).1 ≡ true = ok-injective won in
    rw (found, u, unreadable) (refl, claim_rows-IsRunning account.id seen found)

busy-status :
    (account : Uuid) (p : EmailPollState)
    → is_state_of account p ≡ true
    → is_free account p ≡ false
    → p.status ≡ "running"
busy-status account p own busy =
    ground (arith, eq_iff p.channel_account_id account, eq_iff p.status "running")

running-status :
    (account : Uuid) (rows : List EmailPollState) (p : EmailPollState)
    → any (is_free account) rows ≡ false
    → state_by account rows ≡ some p
    → p.status ≡ "running"
unfolding any where_
running-status account [] p busy h = absurd cc
running-status account (r ∷ rows) p busy h = elim (Bool-cases (is_state_of account r)) [
  | inl own ↦
      rw (sym (some-injective (rw own at h)))
        (busy-status account r own (or-left (is_free account r) (any (is_free account) rows) busy))
  | inr other ↦
      running-status account rows p (or-right (is_free account r) (any (is_free account) rows) busy)
        (rw other at h)
]

state_by-some :
    (account : Uuid) (rows : List EmailPollState)
    → any (is_state_of account) rows ≡ true
    → (p : EmailPollState) × (state_by account rows ≡ some p)
unfolding any where_
state_by-some account [] h = absurd cc
state_by-some account (r ∷ rows) h = elim (Bool-cases (is_state_of account r)) [
  | inl own ↦ (r, rw own refl)
  | inr other ↦ rw other (state_by-some account rows (rw other at h))
]

-- A poll that does nothing: it takes in no message, writes no row and shows nothing.
record IsIdle (s : Session) (r : Result ℕ) (t : Session) : Type 0 where
  took : (n : ℕ) → r ≡ ok n → n ≡ 0
  kept : t.db ≡ s.db
  unseen : IsUnseen s t

ok-IsIdle : (s : Session) → IsIdle s (ok 0) s
ok-IsIdle s = record {
  took = λ n q. sym (ok-injective q);
  kept = refl;
  unseen = record { durable = refl; notified = refl; published = refl };
}

poll_one-IsIdle :
    (mail : Mail) (workspace : Uuid) (account : ChannelAccount) (s : Session)
    → IsRunning account.id s.db.email_poll_states
    → IsIdle s
        (poll_one_email_account mail workspace account s).0
        (poll_one_email_account mail workspace account s).1
unfolding poll_one_email_account poll_connected is_poll_due from_result gets pure raise now ◌>>=◌
poll_one-IsIdle mail workspace account s h =
    let (p, stands) = state_by-some account.id s.db.email_poll_states h.stands in
    let running = running-status account.id s.db.email_poll_states p h.busy stands in
    elim (Option-cases (connector_of_account account s.db.connectors)) [
      | inl unlinked ↦ rw unlinked (ok-IsIdle s)
      | inr (connector, linked) ↦ elim (Bool-cases connector.is_active) [
        | inr off ↦ rw (linked, off) (ok-IsIdle s)
        | inl active ↦ elim (Result-cases (interval_of connector.credentials)) [
          | inl (i, each) ↦
              rw (linked, active, each, stands, running)
                (record {
                  took = λ n q. sym (ok-injective q);
                  kept = refl;
                  unseen = record { durable = refl; notified = refl; published = refl };
                })
          | inr (e, each) ↦
              rw (linked, active, each)
                (record {
                  took = λ n q. absurd (ok≢err (sym q));
                  kept = refl;
                  unseen = record { durable = refl; notified = refl; published = refl };
                })
        ]
      ]
    ]

-- n later polls of the mailbox, each by a session of its own that begins with what is committed.
abbrev pub later_polls : ℕ → Mail → Uuid → ChannelAccount → Session → Session
later_polls zero mail workspace account s = s
later_polls (suc n) mail workspace account s =
    let before = later_polls n mail workspace account s in
    (poll_one_email_account mail workspace account (rollback before).1).1

-- Once what is committed says that a mailbox is being polled, no number of later polls changes
-- anything committed, tells the broker or publishes anything, whatever the connector of the mailbox is
-- and whether these polls raise or back off, as long as nobody else writes in between.
pub later_polls-IsUnseen :
    (n : ℕ) (mail : Mail) (workspace : Uuid) (account : ChannelAccount) (s : Session)
    → IsRunning account.id s.durable.email_poll_states
    → IsUnseen s (later_polls n mail workspace account s)
unfolding rollback
later_polls-IsUnseen zero mail workspace account s h = record {
  durable = refl;
  notified = refl;
  published = refl;
}
later_polls-IsUnseen (suc n) mail workspace account s h =
    let before = later_polls n mail workspace account s in
    let so_far = later_polls-IsUnseen n mail workspace account s h in
    let last =
      (poll_one-IsIdle mail workspace account (rollback before).1 (rw so_far.durable h)).unseen in
    record {
      durable = last.durable ∙ so_far.durable;
      notified = last.notified ∙ so_far.notified;
      published = last.published ∙ so_far.published;
    }
