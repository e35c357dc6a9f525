-- ===== src/Common/Text.antt =====
-- Python's `str` methods that the program uses, on the native texts. Case and digits are ASCII's.
use Prim.Native.Nat.{ℕ, zero, suc, ◌-◌, ◌/◌, ◌%◌}
use Prim.Native.Char.{Char, code}
use Prim.Native.String.{String, [], ◌∷◌}
use Prim.Native.String.compare
use mathlib.Core.Path.{◌≡◌, refl}
use mathlib.Core.Bool.{Bool, true, false, not, ◌&&◌, ◌||◌}
use mathlib.Core.List.{List, [], ◌∷◌}
use mathlib.Core.Option.{Option, none, some}
use text.Mathlib.Text.{◌==◌}
use phera.Common.Tests.{ltb, leb, eqb, if◌then◌else◌}

-- The characters that `str.strip()` and `str.split()` drop.
unfoldable pub is_space : ℕ → Bool
is_space c =
    leb 9 c && leb c 13
    || leb 28 c && leb c 32
    || eqb c 0x85
    || eqb c 0xa0
    || eqb c 0x1680
    || leb 0x2000 c && leb c 0x200a
    || eqb c 0x2028
    || eqb c 0x2029
    || eqb c 0x202f
    || eqb c 0x205f
    || eqb c 0x3000

unfoldable pub is_digit : ℕ → Bool
is_digit c = leb b'0' c && leb c b'9'

-- `t.lstrip()`, `t.rstrip()` and `t.strip()`.
unfoldable pub lstrip : String → String
unfolding is_space
lstrip [] = []
lstrip (c ∷ s) = let rest = lstrip s in if is_space (code c) then rest else c ∷ s

unfoldable pub rstrip : String → String
unfolding is_space
rstrip [] = []
rstrip (c ∷ s) = let rest = rstrip s in if is_space (code c) && rest == "" then [] else c ∷ rest

unfoldable pub strip : String → String
unfolding lstrip rstrip
strip s = rstrip (lstrip s)

-- The character at a place of a text.
unfoldable pub char_or : String → ℕ → Char → Char
char_or [] i d = d
char_or (c ∷ s) zero d = c
char_or (c ∷ s) (suc i) d = char_or s i d

-- `t.lower()`
unfoldable pub lower_char : Char → Char
unfolding char_or
lower_char c =
    if leb b'A' (code c) && leb (code c) b'Z'
    then char_or "abcdefghijklmnopqrstuvwxyz" (code c - b'A') c
    else c

unfoldable pub lower : String → String
unfolding lower_char
lower [] = []
lower (c ∷ s) = lower_char c ∷ lower s

-- The characters that pass a test: `re.sub` of a negated class by nothing, `t.replace(" ", "")`.
unfoldable pub keep : (ℕ → Bool) → String → String
keep p [] = []
keep p (c ∷ s) = let rest = keep p s in if p (code c) then c ∷ rest else rest

-- `t.startswith(p)`
unfoldable pub is_prefix : String → String → Bool
is_prefix [] t = true
is_prefix (c ∷ p) [] = false
is_prefix (c ∷ p) (d ∷ t) = eqb (code c) (code d) && is_prefix p t

-- `p in t`
unfoldable pub contains : String → String → Bool
unfolding is_prefix
contains p [] = is_prefix p []
contains p (c ∷ t) = is_prefix p (c ∷ t) || contains p t

-- `t.endswith(c)` and `t.rstrip(c)` for one character.
unfoldable pub ends_with : ℕ → String → Bool
ends_with k [] = false
ends_with k (c ∷ s) = if s == "" then eqb (code c) k else ends_with k s

unfoldable pub rstrip_char : ℕ → String → String
rstrip_char k [] = []
rstrip_char k (c ∷ s) =
    let rest = rstrip_char k s in if eqb (code c) k && rest == "" then [] else c ∷ rest

abbrev push_head : Char → List String → List String
push_head c [] = (c ∷ []) ∷ []
push_head c (w ∷ ws) = (c ∷ w) ∷ ws

-- `t.split(c)` for one character.
unfoldable pub split_on : ℕ → String → List String
split_on k [] = [] ∷ []
split_on k (c ∷ s) =
    let rest = split_on k s in if eqb (code c) k then [] ∷ rest else push_head c rest

-- `t.split(c, 1)` for one character: the two parts, if the character is there.
unfoldable pub split_once : ℕ → String → Option (String × String)
split_once k [] = none
split_once k (c ∷ s) =
    let rest = split_once k s in
    if eqb (code c) k
    then some ([], s)
    else elim rest [ none ↦ none | some (a, b) ↦ some (c ∷ a, b) ]

-- `t[:n]`
unfoldable pub take_chars : ℕ → String → String
take_chars zero s = []
take_chars (suc n) [] = []
take_chars (suc n) (c ∷ s) = c ∷ take_chars n s

-- The last `n` decimal digits of a number: `f"{k:0nd}"` where `k` has no more.
unfoldable pub digit_char : ℕ → Char
unfolding char_or
digit_char d = char_or "0123456789" d "0"

unfoldable pub pad : ℕ → ℕ → String → String
unfolding digit_char
pad zero k rest = rest
pad (suc n) k rest = pad n (k / 10) (digit_char (k % 10) ∷ rest)

-- `str(k)` of a number, the digits before `rest`. A number has no more digits than its value is.
decimal_from : ℕ → ℕ → String → String
unfolding digit_char
decimal_from zero k rest = rest
decimal_from (suc fuel) k rest =
    let more = decimal_from fuel (k / 10) (digit_char (k % 10) ∷ rest) in
    if ltb k 10 then digit_char k ∷ rest else more

unfoldable pub decimal : ℕ → String
unfolding decimal_from
decimal k = decimal_from (suc k) k []

-- The truth of a value that may be `None`, `a or b`, `==`.
abbrev pub truthy : Option String → Bool
truthy none = false
truthy (some s) = not (s == "")

abbrev pub or_else : Option String → Option String → Option String
or_else a b = if truthy a then a else b

abbrev pub opt_eq : Option String → Option String → Bool
opt_eq none none = true
opt_eq (some a) (some b) = a == b
opt_eq _ _ = false

abbrev pub elem : String → List String → Bool
elem a [] = false
elem a (b ∷ bs) = a == b || elem a bs

pub cons-ne-empty : (c : Char) (s : String) → (c ∷ s == "") ≡ false
cons-ne-empty c s = rw (compare.cons-nil c s)

text_tests :
    (strip " ab c  " ≡ "ab c")
    × (lower "Ab-Z" ≡ "ab-z")
    × (split_on b',' "a,,b" ≡ "a" ∷ "" ∷ "b" ∷ [])
    × (split_once b':' "a:b:c" ≡ some ("a", "b:c"))
    × (rstrip_char b'*' "deal.**" ≡ "deal.")
    × (contains "bc" "abcd" ≡ true)
    × (decimal 0 ≡ "0")
    × (decimal 1207 ≡ "1207")
unfolding decimal strip lower split_on split_once rstrip_char contains
text_tests = (refl, refl, refl, refl, refl, refl, refl, refl)
