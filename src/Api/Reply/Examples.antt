-- ===== src/Api/Reply/Examples.antt =====
-- The theorem about a reply's subject at a ticket with a generated short id.
use phera.Common.{◌≡◌, refl, some, is_digit}
use phera.Models.{Ticket}
use phera.Tickets.ShortId.{short_id, search_token}
use phera.Tickets.ShortId.Examples.{blank}
use phera.Api.Reply.{reply_subject}
use phera.Api.Reply.Subject.{search_token-reply_subject}

abbrev order : Ticket
order = record blank { short_id = some (short_id "260818" 4827); subject = some "Order" }

search_token-reply_subject_example :
    search_token (reply_subject order) ≡ some (short_id "260818" 4827)
unfolding is_digit
search_token-reply_subject_example =
    search_token-reply_subject order "260818" 4827 refl
      (refl, (refl, (refl, (refl, (refl, (refl, tt)))))) (refl, (refl, (refl, (refl, (refl, tt)))))
