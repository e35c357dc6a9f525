-- ===== src/Api/Inbox/Buckets.antt =====
-- What `list_inbox_tickets` of src/phera/api/routes/inbox.py answers.
use phera.Common.{
  String, ◌≡◌, refl, Bool, true, false, Option, none, some, List, [], ◌∷◌, map, arith, where_,
  IsFirst, take-IsFirst,
}
use phera.Models.{Uuid, Ticket, ChannelAccount}
use phera.Session.{Session, ok, ◌>>=◌}
use phera.Authz.Actor.{Actor}
use phera.Api.Enrichment.{TicketDetail, ticket_detail, channel_for_ticket}
use phera.Api.Inbox.{
  Row, by_recent, by_rank, by_expiry, apply_inbox_order, on_channel, inbox_rows, details,
  bucket_rows, answer_rows, list_inbox_tickets,
}

-- The order of each bucket.
pub data OrderOf : String → (Row → Row → Bool) → Type 0 where
  mine : OrderOf "mine" by_recent
  unassigned : OrderOf "unassigned" by_rank
  offered : OrderOf "offered" by_expiry

abbrev IsTransitive : (Row → Row → Bool) → Type 0
IsTransitive le = (x y z : Row) → le x y ≡ true → le y z ≡ true → le x z ≡ true

by_recent_total : (x y : Row) → by_recent x y ≡ false → by_recent y x ≡ true
by_recent_total x y h = ground arith

by_rank_total : (x y : Row) → by_rank x y ≡ false → by_rank y x ≡ true
by_rank_total x y h = ground arith

by_expiry_total : (x y : Row) → by_expiry x y ≡ false → by_expiry y x ≡ true
by_expiry_total (t, none) (u, none) h = ground arith
by_expiry_total (t, none) (u, some b) h = refl
by_expiry_total (t, some a) (u, none) h = cc
by_expiry_total (t, some a) (u, some b) h = ground arith

by_recent_trans : IsTransitive by_recent
by_recent_trans x y z h k = ground arith

by_rank_trans : IsTransitive by_rank
by_rank_trans x y z h k = ground arith

by_expiry_trans : IsTransitive by_expiry
by_expiry_trans (t, none) (u, none) (v, none) h k = ground arith
by_expiry_trans (t, none) (u, none) (v, some c) h k = k
by_expiry_trans (t, none) (u, some b) (v, c) h k = absurd cc
by_expiry_trans (t, some a) (u, b) (v, none) h k = refl
by_expiry_trans (t, some a) (u, none) (v, some c) h k = absurd cc
by_expiry_trans (t, some a) (u, some b) (v, some c) h k = ground arith

inbox_rows-IsFirst :
    (bucket : String) (le : Row → Row → Bool)
    → OrderOf bucket le
    → (channel : Option String) (accounts : List ChannelAccount) (rows : List Row)
    → IsFirst le 100
        (where_ (on_channel channel accounts) rows)
        (inbox_rows bucket channel accounts rows)
unfolding inbox_rows apply_inbox_order
inbox_rows-IsFirst _ _ mine channel accounts rows =
    take-IsFirst by_recent by_recent_total by_recent_trans 100 _
inbox_rows-IsFirst _ _ unassigned channel accounts rows =
    take-IsFirst by_rank by_rank_total by_rank_trans 100 _
inbox_rows-IsFirst _ _ offered channel accounts rows =
    take-IsFirst by_expiry by_expiry_total by_expiry_trans 100 _

ticket_detail_lem :
    (t : Ticket) (s : Session)
    → (d : TicketDetail) × (ticket_detail t s ≡ (ok d, s)) × (d.ticket ≡ t)
unfolding ticket_detail channel_for_ticket ◌>>=◌
ticket_detail_lem t s = (_, refl, refl)

details-tickets :
    (rows : List Row) (s : Session)
    → (ds : List TicketDetail) × (details rows s ≡ (ok ds, s))
      × (map (λ d. d.ticket) ds ≡ map (λ r. r.0) rows)
unfolding details ◌>>=◌
details-tickets [] s = ([], refl, refl)
details-tickets (r ∷ rows) s =
    let (ds, q, e) = details-tickets rows s in
    let (d, p, f) = ticket_detail_lem r.0 s in (d ∷ ds, rw (p, q) refl, cc)

-- Of a valid bucket, whose rows are those of the bucket's own query, the list has the tickets of a
-- page of the rows on the wanted channel (of all rows, if none is wanted): the page and some rest are
-- together exactly these rows, each as often as it is there; the page is in the bucket's order; no row
-- of the rest has to stand before a row of the page; and the page has a hundred rows, or nothing
-- remains. Nothing is written.
pub list_inbox_tickets-IsFirst :
    (bucket : String) (le : Row → Row → Bool) (channel : Option String) (workspace : Uuid)
    (actor : Actor) (s : Session) (rows : List Row)
    → OrderOf bucket le
    → bucket_rows bucket workspace actor s.db ≡ some rows
    → (ds : List TicketDetail) × (page : List Row) × (list_inbox_tickets bucket channel workspace
          actor s
        ≡ (ok ds, s))
      × (map (λ d. d.ticket) ds ≡ map (λ r. r.0) page)
      × IsFirst le 100 (where_ (on_channel channel s.db.channel_accounts) rows) page
unfolding list_inbox_tickets answer_rows ◌>>=◌
list_inbox_tickets-IsFirst bucket le channel workspace actor s rows o q =
    let page = inbox_rows bucket channel s.db.channel_accounts rows in
    let (ds, r, e) = details-tickets page s in
    (ds, page, rw (q, r) refl, e, inbox_rows-IsFirst bucket le o channel s.db.channel_accounts rows)
