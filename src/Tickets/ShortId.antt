-- ===== src/Tickets/ShortId.antt =====
-- src/phera/modules/tickets/short_id.py and the subject token of
-- src/phera/modules/tickets/inbound.py: compact ticket ids, "YYMMDD-NNNNNN".
pub mod Token
pub mod Fresh
pub mod Quiet
pub mod Examples
use Prim.Native.Char.{code}
use Prim.Native.String.{[], ◌∷◌}
use Prim.Native.String
use phera.Common.{
  ℕ, zero, suc, ◌%◌, ◌^◌, String, Bool, true, false, Option, none, some, List, ◌++◌, if◌then◌else◌,
  eqb, opt_eq, is_digit, pad, where_, any,
}
use mathlib.Core.List.{[], ◌∷◌}
use phera.Models.{Ticket}
use phera.Session.{ok, runtime_error, M, pure, raise, gets, now, scalar_one_or_none, ◌>>=◌, ◌>>◌}

abbrev pub suffix_max : ℕ
suffix_max = 10 ^ 6

abbrev pub max_attempts : ℕ
max_attempts = 10

abbrev pub insert_retry_attempts : ℕ
insert_retry_attempts = 3

-- `secrets.randbelow(n)`
unfoldable pub randbelow : ℕ → M ℕ
randbelow n s = (ok (s.randoms s.rolled % n), record s { rolled = suc s.rolled })

-- `f"{date_prefix}-{k:06d}"`
unfoldable pub short_id : String → ℕ → String
short_id date_prefix k = String.◌++◌ date_prefix ("-" ∷ pad 6 k [])

-- `Ticket.short_id == candidate`
abbrev pub has_short_id : String → Ticket → Bool
has_short_id candidate t = opt_eq t.short_id (some candidate)

-- The rounds left of the loop of `generate_ticket_short_id`.
unfoldable pub generate_from : ℕ → String → M String
generate_from zero date_prefix = raise (runtime_error "Could not allocate a unique ticket short_id")
generate_from (suc left) date_prefix = do
  k ← randbelow suffix_max
  rows ← gets (λ s. where_ (has_short_id (short_id date_prefix k)) s.db.tickets)
  found ← scalar_one_or_none rows
  elim found [ none ↦ pure (short_id date_prefix k) | some t ↦ generate_from left date_prefix ]

unfoldable pub generate_ticket_short_id : M String
generate_ticket_short_id = do
  at ← now
  strftime ← gets (λ s. s.strftime)
  generate_from max_attempts (strftime at)

-- Some row has the ticket's short id already. A missing short id is never equal to another.
abbrev pub collides : Ticket → List Ticket → Bool
collides ticket rows = elim ticket.short_id [ none ↦ false | some id ↦ any (has_short_id id) rows ]

-- `session.add(ticket); session.flush()` in a savepoint: other sessions may have committed tickets
-- since the check, and the unique constraint on `short_id` decides. A failed insert leaves no row.
unfoldable pub insert_ticket : Ticket → M Bool
insert_ticket ticket s =
    let rows = s.db.tickets ++ (s.rivals s.inserts).tickets in
    if collides ticket rows
    then (ok false, record s { db = record s.db { tickets = rows }; inserts = suc s.inserts })
    else (
      ok true,
      record s { db = record s.db { tickets = rows ++ ticket ∷ [] }; inserts = suc s.inserts },
    )

-- The rounds left of the retry loop. An error of the generator is not caught.
unfoldable pub insert_from : ℕ → Ticket → M Ticket
insert_from zero ticket = raise (runtime_error "Could not insert ticket with a unique short_id")
insert_from (suc left) ticket = do
  id ← generate_ticket_short_id
  done ← insert_ticket (record ticket { short_id = some id })
  elim done [ true ↦ pure (record ticket { short_id = some id }) | false ↦ insert_from left ticket ]

unfoldable pub insert_ticket_with_short_id : Ticket → M Ticket
insert_ticket_with_short_id ticket = insert_from insert_retry_attempts ticket

-- Exactly `n` digits, and what follows them.
unfoldable pub take_digits : ℕ → String → Option (String × String)
take_digits zero s = some ([], s)
take_digits (suc n) [] = none
take_digits (suc n) (c ∷ s) =
    let rest = take_digits n s in
    if is_digit (code c) then elim rest [ none ↦ none | some (ds, t) ↦ some (c ∷ ds, t) ] else none

-- One literal character.
abbrev pub expect : ℕ → String → Option String
expect k [] = none
expect k (c ∷ s) = if eqb (code c) k then some s else none

-- `\d{n}\]`: the digits, if the bracket follows them.
abbrev pub closed_suffix : ℕ → String → Option String
closed_suffix n s = elim (take_digits n s) [
  | none ↦ none
  | some (ds, t) ↦ elim (expect b']' t) [ none ↦ none | some _ ↦ some ds ]
]

-- `\d{4,6}\]`, the longest first.
abbrev pub suffix : String → Option String
suffix s = elim (closed_suffix 6 s) [
  | some ds ↦ some ds
  | none ↦ elim (closed_suffix 5 s) [ some ds ↦ some ds | none ↦ closed_suffix 4 s ]
]

infixl 5 ◌>>?◌
abbrev ◌>>?◌ : {A B : Type 0} → Option A → (A → Option B) → Option B
none >>? f = none
some a >>? f = f a

-- `\[#(\d{6}-\d{4,6})\]` at the start of a text: the group.
unfoldable pub match_token : String → Option String
unfolding take_digits
match_token s = expect b'[' s >>? λ s. expect b'#' s >>? λ s. take_digits 6 s >>? λ (day, s).
    expect b'-' s >>? λ s. suffix s >>? λ ds. some (String.◌++◌ day ("-" ∷ ds))

-- `SHORT_ID_IN_SUBJECT.search(subject)`
unfoldable pub search_token : String → Option String
unfolding match_token
search_token [] = none
search_token (c ∷ s) = elim (match_token (c ∷ s)) [ some id ↦ some id | none ↦ search_token s ]
