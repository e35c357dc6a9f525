-- ===== src/Email/Claims.antt =====
-- The workers that poll the mailboxes of src/phera/modules/tickets/email_poll.py, by their steps on the
-- shared rows, in any order.
use phera.Common.{
  ℕ, String, ◌≡◌, true, false, Option, none, some, List, [], ◌∷◌, ◌++◌, eqb, any, update_rows,
  if◌then◌else◌,
}
use phera.Models.{Uuid, Time, EmailPollState}
use phera.Email.Poll.{is_state_of, claim_rows, new_state, failed_poll, finished_poll}

-- The committed rows, and the mailbox that each worker polls.
pub record Workers : Type 0 where
  pub rows : List EmailPollState
  pub polls : ℕ → Option Uuid

abbrev pub set_polls : (ℕ → Option Uuid) → ℕ → Option Uuid → ℕ → Option Uuid
set_polls polls n value m = if eqb m n then value else polls m

-- What a poll writes when it is over.
pub data IsEnd : (EmailPollState → EmailPollState) → Type 0 where
  fails : (detail : String) (at : Time) → IsEnd (failed_poll detail at)
  finishes : (watermark : ℕ) (at : Time) → IsEnd (finished_poll watermark at)

pub data Step : Workers → Workers → Type 0 where
  -- The first row of a mailbox.
  inserts :
      (w : Workers) (account : Uuid)
      → any (is_state_of account) w.rows ≡ false
      → Step w (record w { rows = w.rows ++ new_state account ∷ [] })
  -- The conditional update finds a row: the worker goes on.
  claims :
      (w : Workers) (n : ℕ) (account : Uuid)
      → (claim_rows account w.rows).1 ≡ true
      → Step w (record {
        rows = (claim_rows account w.rows).0;
        polls = set_polls w.polls n (some account);
      })
  -- It finds none: the worker backs off.
  loses :
      (w : Workers) (n : ℕ) (account : Uuid)
      → (claim_rows account w.rows).1 ≡ false
      → Step w (record w { rows = (claim_rows account w.rows).0 })
  -- The last commit of a poll.
  ends :
      (w : Workers) (n : ℕ) (account : Uuid) (change : EmailPollState → EmailPollState)
      → w.polls n ≡ some account
      → IsEnd change
      → Step w (record {
        rows = update_rows (is_state_of account) change w.rows;
        polls = set_polls w.polls n none;
      })
  -- An exception that is not caught, or the end of the process.
  dies : (w : Workers) (n : ℕ) → Step w (record w { polls = set_polls w.polls n none })

pub data Reach (start : Workers) : Workers → Type 0 where
  here : Reach start start
  next : {v w : Workers} → Reach start v → Step v w → Reach start w
