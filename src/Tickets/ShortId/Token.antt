-- ===== src/Tickets/ShortId/Token.antt =====
-- A short id written into a subject is found there again.
use Prim.Native.Char.{Char, code}
use Prim.Native.String.{String, [], ◌∷◌, ◌++◌}
use text.Mathlib.TextLemmas.{nil-append, cons-append, append_assoc}
use phera.Common.{
  ℕ, zero, suc, ◌≡◌, refl, ◌∙◌, Bool, true, some, eqb, is_digit, pad, digit_char, char_or,
}
use phera.Authz.Header.{Lacks}
use phera.Tickets.ShortId.{short_id, take_digits, match_token, search_token, suffix, closed_suffix}

-- The text is `n` digits.
abbrev pub Digits : ℕ → String → Type 0
Digits zero [] = Unit
Digits zero (c ∷ s) = ⊥
Digits (suc n) [] = ⊥
Digits (suc n) (c ∷ s) = (is_digit (code c) ≡ true) × Digits n s

abbrev pub is_bracket : ℕ → Bool
is_bracket c = eqb c b'['

take_digits-append : (n : ℕ) (ds t : String) → Digits n ds → take_digits n (ds ++ t) ≡ some (ds, t)
unfolding take_digits
take_digits-append zero [] t h = rw nil-append
take_digits-append zero (c ∷ ds) t h = absurd h
take_digits-append (suc n) [] t h = absurd h
take_digits-append (suc n) (c ∷ ds) t h = rw cons-append (rw (h.0, take_digits-append n ds t h.1))

match_token-token :
    (day ds post : String)
    → Digits 6 day
    → Digits 6 ds
    → match_token ("[" ∷ "#" ∷ (day ++ ("-" ∷ (ds ++ ("]" ∷ post))))) ≡ some (day ++ ("-" ∷ ds))
unfolding match_token
match_token-token day ds post h k =
    rw (take_digits-append 6 day ("-" ∷ (ds ++ ("]" ∷ post))) h)
      (rw (take_digits-append 6 ds ("]" ∷ post) k, suffix, closed_suffix))

search_token-append :
    (pre t : String)
    → Lacks is_bracket pre
    → search_token (pre ++ ("[" ∷ t)) ≡ search_token ("[" ∷ t)
unfolding search_token match_token
search_token-append [] t h = rw nil-append
search_token-append (c ∷ pre) t h =
    rw cons-append (rw (h.0, search_token) (search_token-append pre t h.1))

abbrev AllDigits : String → Type 0
AllDigits [] = Unit
AllDigits (c ∷ s) = (is_digit (code c) ≡ true) × AllDigits s

char_or-is_digit :
    (n : ℕ) (s : String) (d : Char)
    → is_digit (code d) ≡ true
    → AllDigits s
    → is_digit (code (char_or s n d)) ≡ true
unfolding char_or
char_or-is_digit n [] d h a = h
char_or-is_digit zero (c ∷ s) d h a = a.0
char_or-is_digit (suc n) (c ∷ s) d h a = char_or-is_digit n s d h a.1

digit_char-is_digit : (n : ℕ) → is_digit (code (digit_char n)) ≡ true
unfolding digit_char is_digit
digit_char-is_digit n =
    char_or-is_digit n "0123456789" "0" refl
      (refl, (refl, (refl, (refl, (refl, (refl, (refl, (refl, (refl, (refl, tt))))))))))

pad-Digits : (k : ℕ) → Digits 6 (pad 6 k [])
unfolding pad
pad-Digits k = let d = digit_char-is_digit in (d _, (d _, (d _, (d _, (d _, (d _, tt))))))

search_token-bracket :
    (t id : String) → match_token ("[" ∷ t) ≡ some id → search_token ("[" ∷ t) ≡ some id
unfolding search_token
search_token-bracket t id h = rw (h, search_token)

-- The token "[#id]" of a generated id, with any day of six digits and any suffix, is found again in
-- every subject in which no bracket opens before it, and its group is the id.
pub search_token-short_id :
    (pre post day : String) (k : ℕ)
    → Lacks is_bracket pre
    → Digits 6 day
    → search_token (pre ++ ("[" ∷ "#" ∷ (short_id day k ++ ("]" ∷ post)))) ≡ some (short_id day k)
unfolding short_id
search_token-short_id pre post day k h d =
    rw (append_assoc, cons-append)
      (search_token-append pre _ h
        ∙ search_token-bracket _ _ (match_token-token day (pad 6 k []) post d (pad-Digits k)))
