-- ===== src/Email/Watermark.antt =====
-- No message is fetched twice by `fetch_new_messages` of src/phera/modules/connectors/imap_smtp.py.
use phera.Common.{ℕ, ◌≤◌, ◌<◌, ◌≡◌, String, Option, List, In, All}
use phera.Session.{ok}
use phera.Email.Provider.{RawMessage, ImapClient}

-- What is collected lies after the uid that the fetch starts behind, and not after the watermark.
pub record InWindow (since : ℕ) (messages : List RawMessage) (watermark : ℕ) : Type 0 where
  pub grows : since ≤ watermark
  pub after : (m : RawMessage) → In m messages → since < m.uid
  pub upto : (m : RawMessage) → In m messages → m.uid ≤ watermark

abbrev IsAfter : ℕ → List (ℕ × Option String) → Type 0
IsAfter since response = All (λ (uid, raw). since < uid) response

-- A client answers a fetch with messages that were asked for.
abbrev pub IsHonest : ImapClient → Type 0
IsHonest client =
    (uids : List ℕ) (response : List (ℕ × Option String))
    → client.fetch uids ≡ ok response
    → All (λ (uid, raw). In uid uids) response
