-- ===== src/Tickets/Coerce.antt =====
-- `_clamp_window`, `_as_bool` and `_assignee_mode` of src/phera/modules/tickets/reuse_policy.py: a
-- stored JSON value read as a window, a Boolean and a mode; with the module's constants.
use Prim.Native.Char.{code}
use Prim.Native.Nat.{min, max}
use phera.Common.{
  ℕ, suc, ◌+◌, ◌-◌, ◌*◌, String, Bool, true, false, ◌&&◌, Option, none, some, List, [], ◌∷◌,
  if◌then◌else◌, eqb, elem, is_digit, strip, lower,
}
use phera.Json.{Json, null, bool, int, float, str, arr, obj, ℤ, pos, negsuc}

abbrev pub window_min_seconds : ℕ
window_min_seconds = 60

abbrev pub window_max_seconds : ℕ
window_max_seconds = 365 * 24 * 60 * 60

abbrev pub default_window_seconds : ℕ
default_window_seconds = 7 * 24 * 60 * 60

abbrev pub channel_kinds : List String
channel_kinds = "messaging" ∷ "email" ∷ "voice" ∷ []

abbrev pub open_statuses : List String
open_statuses = "open" ∷ "pending" ∷ "waiting" ∷ []

abbrev pub assignee_keep : String
assignee_keep = "keep"

abbrev pub assignee_queue : String
assignee_queue = "queue"

-- `int(text)` behind its sign: digits, with single underscores between them. `none` is `ValueError`.
digits : Bool → ℕ → String → Option ℕ
digits after_digit n String.[] = if after_digit then some n else none
digits after_digit n (String.◌∷◌ c s) =
    let next = digits true (n * 10 + (code c - b'0')) s in
    let skip = digits false n s in
    if is_digit (code c) then next else if eqb (code c) b'_' && after_digit then skip else none

abbrev negated : ℕ → ℤ
negated n = elim n [ ℕ.zero ↦ pos 0 | suc m ↦ negsuc m ]

signed : String → Option ℤ
unfolding digits
signed String.[] = none
signed (String.◌∷◌ c s) =
    if eqb (code c) b'-'
    then elim (digits false 0 s) [ none ↦ none | some n ↦ some (negated n) ]
    else elim (digits false 0 (if eqb (code c) b'+' then s else String.◌∷◌ c s)) [
      | none ↦ none
      | some n ↦ some (pos n)
    ]

-- `int(value)`; `none` is `TypeError` or `ValueError`.
unfoldable pub int_of : Json → Option ℤ
unfolding signed
int_of null = none
int_of (bool b) = some (pos (if b then 1 else 0))
int_of (int n) = some n
int_of (float negative whole fraction) = some (if negative then negated whole else pos whole)
int_of (str s) = signed (strip s)
int_of (arr js) = none
int_of (obj fs) = none

-- `max(WINDOW_MIN_SECONDS, min(WINDOW_MAX_SECONDS, seconds))`
unfoldable pub clamp : ℤ → ℕ
clamp (pos n) = max window_min_seconds (min window_max_seconds n)
clamp (negsuc n) = window_min_seconds

unfoldable pub clamp_window : Json → ℕ → ℕ
unfolding clamp
clamp_window value fallback = elim (int_of value) [ none ↦ fallback | some seconds ↦ clamp seconds ]

-- A number that equals 0 or 1, as Python compares integers and floats.
abbrev zero_or_one : ℤ → Bool → Option Bool
zero_or_one (pos n) fraction =
    if fraction then none else if eqb n 0 then some false else if eqb n 1 then some true else none
zero_or_one (negsuc n) fraction = none

abbrev text_bool : String → Option Bool
text_bool s =
    if elem s ("1" ∷ "true" ∷ "True" ∷ [])
    then some true
    else if elem s ("0" ∷ "false" ∷ "False" ∷ [])
    then some false
    else none

abbrev pub bool_or : Option Bool → Bool → Bool
bool_or none fallback = fallback
bool_or (some b) fallback = b

unfoldable pub as_bool : Json → Bool → Bool
as_bool (bool b) fallback = b
as_bool (int n) fallback = bool_or (zero_or_one n false) fallback
as_bool (float negative whole fraction) fallback =
    bool_or (zero_or_one (if negative then negated whole else pos whole) fraction) fallback
as_bool (str s) fallback = bool_or (text_bool s) fallback
as_bool _ fallback = fallback

-- `str(value or "").strip().lower()`. The text of a value that is no text is a number, "true", or
-- begins with a bracket, so it is none of the three words.
unfoldable pub assignee_mode : Json → String
assignee_mode (str s) =
    if elem (lower (strip s)) ("queue" ∷ "unassign" ∷ "unassigned" ∷ [])
    then assignee_queue
    else assignee_keep
assignee_mode _ = assignee_keep
