-- ===== src/Api/Reply/Subject.antt =====
-- The subject of a reply of src/phera/api/routes/tickets.py, and the ticket's token in it.
use Prim.Native.Char.{Char, code}
use Prim.Native.String.{String, [], ◌∷◌, ◌++◌}
use text.Mathlib.TextLemmas.{nil-append, cons-append, append_assoc}
use phera.Common.{ℕ, ◌≡◌, refl, false, some, ◌==◌, contains, is_prefix, cons-ne-empty, arith}
use phera.Models.{Ticket}
use phera.Authz.Header.{Lacks, Lacks-append}
use phera.Tickets.ShortId.{short_id, search_token}
use phera.Tickets.ShortId.Token.{Digits, is_bracket, search_token-short_id}
use phera.Api.Reply.{reply_subject, or_text, with_token, token}

not_prefix :
    (p : String) (c : Char) (t : String)
    → is_bracket (code c) ≡ false
    → is_prefix ("[" ∷ p) (c ∷ t) ≡ false
unfolding is_prefix
not_prefix p c t h = ground (arith, h)

contains-Lacks : (p s : String) → Lacks is_bracket s → contains ("[" ∷ p) s ≡ false
unfolding contains
contains-Lacks p [] h = refl
contains-Lacks p (c ∷ s) h = rw (not_prefix p c s h.0) (contains-Lacks p s h.1)

token-cons : (id : String) → token id ≡ "[" ∷ "#" ∷ (id ++ ("]" ∷ []))
token-cons id = rw (cons-append, cons-append, nil-append) refl

with_token-append :
    (subject id : String)
    → Lacks is_bracket subject
    → with_token subject id ≡ (subject ++ (" " ∷ [])) ++ ("[" ∷ "#" ∷ (id ++ ("]" ∷ [])))
with_token-append subject id h =
    rw (token-cons id, contains-Lacks _ subject h) (rw append_assoc refl)

short_id-ne-empty : (day : String) (k : ℕ) → Digits 6 day → (short_id day k == "") ≡ false
unfolding short_id
short_id-ne-empty [] k d = absurd d
short_id-ne-empty (c ∷ day) k d = rw (cons-append, cons-ne-empty) refl

-- A reply on a ticket with a generated short id, of any day of six digits, whose subject, or the text
-- that stands for a missing one, has no bracket, goes out with a subject in which the lookup for inbound
-- mail finds that id again.
pub search_token-reply_subject :
    (t : Ticket) (day : String) (k : ℕ)
    → t.short_id ≡ some (short_id day k)
    → Digits 6 day
    → Lacks is_bracket (or_text "Support reply" t.subject)
    → search_token (reply_subject t) ≡ some (short_id day k)
unfolding reply_subject
search_token-reply_subject t day k q d h =
    let subject = or_text "Support reply" t.subject in
    let spaced : Lacks is_bracket (subject ++ (" " ∷ [])) =
      Lacks-append is_bracket subject " " [] h refl tt in
    rw (q, short_id-ne-empty day k d, with_token-append subject (short_id day k) h)
      (search_token-short_id (subject ++ (" " ∷ [])) [] day k spaced d)
