-- ===== src/Email/Examples.antt =====
-- The theorems about mailboxes at two workers and at two visits.
use phera.Common.{ℕ, ◌≡◌, refl, String, Option, none, some, List, [], ◌∷◌, any, update_rows}
use phera.Session.{ok, Result}
use phera.Email.Provider.{RawMessage, ImapClient}
use phera.Email.Poll.{new_state, claim_rows}
use phera.Email.Claims.{Workers, Reach, here, next, inserts, claims, loses, set_polls}
use phera.Email.Alone.{Reach-alone}

abbrev idle : Workers
idle = record { rows = []; polls = λ n. none }

abbrev inserted : Workers
inserted = record { rows = new_state "box" ∷ []; polls = λ n. none }

-- The second worker polls, and the first backs off.
abbrev polled : Workers
polled = record {
  rows = (claim_rows "box" inserted.rows).0;
  polls = set_polls inserted.polls 2 (some "box");
}

abbrev refused : Workers
refused = record polled { rows = (claim_rows "box" polled.rows).0 }

reaches : Reach idle refused
unfolding claim_rows any update_rows
reaches =
    next (next (next here (inserts idle "box" refl)) (claims inserted 2 "box" refl))
      (loses polled 1 "box" refl)

Reach-alone_example : ◌≡◌ {A = ℕ} 2 2
Reach-alone_example = Reach-alone idle refused 2 2 "box" (λ k. refl) reaches refl refl

abbrev answers : List ℕ → Result (List (ℕ × Option String))
answers [] = ok []
answers (u ∷ uids) = ok ((u, some "mail") ∷ [])

abbrev box : ImapClient
box = record { uidnext = ok 9; search = λ since. ok (5 ∷ 7 ∷ []); fetch = answers }

abbrev mail : ℕ → RawMessage
mail uid = record { uid = uid; raw = "mail" }
