-- ===== src/Tickets/Inbound/Reuse.antt =====
-- Which ticket a message joins, and in what state it finds it.
use phera.Common.{
  ◌-◌, ◌*◌, ◌≡◌, ap, ◌∙◌, ◌⊎◌, inl, inr, true, false, none, some, List, [], ◌∷◌, arith, where_, In,
  where_-In, Bool-cases, Option-cases,
}
use phera.Models.{Uuid, Contact, Ticket, ChannelAccount}
use phera.Session.{Session, ok, ◌>>=◌, Result-cases}
use phera.Tickets.ReusePolicy.{EffectiveReusePolicy, allows_status, flags_of, find_profile}
use phera.Tickets.SupportAgents.{support_agent_ids}
use phera.Tickets.ShortId.Fresh.{IsInserted}
use phera.Tickets.Contacts.{Inbound}
use phera.Tickets.Joining.{
  reply_ticket, subject_ticket, recent_ticket, reuse_or_create_ticket, best, is_reusable, reopen,
  is_done, save_ticket, reopened,
}

best-In : (ts : List Ticket) (t : Ticket) → best ts ≡ some t → In t ts
unfolding best
best-In [] t e = ground arith
best-In (u ∷ ts) t e = ground (arith, best-In ts t)

module _ (policy : EffectiveReusePolicy) (t : Ticket) where
  abbrev Allowed : Type 0
  Allowed = allows_status policy t.status ≡ true

  reply-allowed :
      (inbound : Inbound) (s : Session) → (reply_ticket policy inbound s).0 ≡ ok (some t) → Allowed
  unfolding reply_ticket ◌>>=◌
  reply-allowed inbound s e = ground arith

  subject-allowed :
      (workspace : Uuid) (inbound : Inbound) (s : Session)
      → (subject_ticket workspace policy inbound s).0 ≡ ok (some t)
      → Allowed
  unfolding subject_ticket ◌>>=◌
  subject-allowed workspace inbound s e = ground arith

  recent-reusable :
      (workspace : Uuid) (contact : Contact) (channel : ChannelAccount) (s : Session)
      → (recent_ticket workspace contact channel policy s).0 ≡ ok (some t)
      → In t s.db.tickets
        × (is_reusable workspace contact channel policy
              (s.clock s.ticks - policy.window_seconds * 1_000_000)
              t
            ≡ true)
  unfolding recent_ticket ◌>>=◌
  recent-reusable workspace contact channel s e =
      let cutoff = s.clock s.ticks - policy.window_seconds * 1_000_000 in
      let p = is_reusable workspace contact channel policy cutoff in
      where_-In p t s.db.tickets (best-In (where_ p s.db.tickets) t (ground arith))

-- Why a ticket was joined and not created.
pub data Joined (workspace : Uuid) (contact : Contact) (channel : ChannelAccount)
    (policy : EffectiveReusePolicy) (inbound : Inbound) (t : Ticket) : Type 0 where
  by_reply :
      (s : Session)
      → (reply_ticket policy inbound s).0 ≡ ok (some t)
      → Joined workspace contact channel policy inbound t
  by_subject :
      (s : Session)
      → (subject_ticket workspace policy inbound s).0 ≡ ok (some t)
      → Joined workspace contact channel policy inbound t
  by_recency :
      (s : Session)
      → (recent_ticket workspace contact channel policy s).0 ≡ ok (some t)
      → Joined workspace contact channel policy inbound t

-- A new ticket of a workspace, contact and channel, last in the table.
pub record IsCreated (workspace_id : Uuid) (by : Contact) (on : ChannelAccount) (t : Ticket)
    (rows : List Ticket) : Type 0 where
  pub status : t.status ≡ "open"
  pub workspace : t.workspace_id ≡ workspace_id
  pub contact : t.contact_id ≡ by.id
  pub channel : t.channel_account_id ≡ some on.id
  pub inserted : IsInserted t rows

module _ (workspace : Uuid) (contact : Contact) (channel : ChannelAccount) (inbound : Inbound)
    (policy : EffectiveReusePolicy) where
  joined :
      (s : Session) (t : Ticket)
      → (reuse_or_create_ticket workspace contact channel inbound policy s).0 ≡ ok (t, false)
      → Joined workspace contact channel policy inbound t
  unfolding reuse_or_create_ticket ◌>>=◌
  joined s t e =
      let (r, s1) = reply_ticket policy inbound s in
      let (q, s2) = subject_ticket workspace policy inbound s1 in
      let (p, s3) = recent_ticket workspace contact channel policy s2 in
      elim (Result-cases r) [
        | inr (x, h) ↦ absurd (ground arith)
        | inl (found, h) ↦ elim (Option-cases found) [
          | inr (u, k) ↦ by_reply s (ground arith)
          | inl k ↦ elim (Result-cases q) [
            | inr (x, h') ↦ absurd (ground arith)
            | inl (found', h') ↦ elim (Option-cases found') [
              | inr (u, k') ↦ by_subject s1 (ground arith)
              | inl k' ↦ by_recency s2 (ground arith)
            ]
          ]
        ]
      ]

  -- A ticket that a message joins, and does not create, is one whose status the workspace's policy
  -- lets come back.
  pub reuse-allows_status :
      (s : Session) (t : Ticket)
      → (reuse_or_create_ticket workspace contact channel inbound policy s).0 ≡ ok (t, false)
      → allows_status policy t.status ≡ true
  unfolding allows_status
  reuse-allows_status s t e = elim (joined s t e) [
    | by_reply s' h ↦ reply-allowed policy t inbound s' h
    | by_subject s' h ↦ subject-allowed policy t workspace inbound s' h
    | by_recency s' h ↦
        let (i, k) = recent-reusable policy t workspace contact channel s' h in ground arith
  ]

-- When `reopen` returns, its ticket is neither resolved nor closed: one that was neither before is
-- returned as it was, and one that was comes back open, without its times of resolution and closing.
pub reopen-open :
    (workspace : Uuid) (policy : EffectiveReusePolicy) (t u : Ticket) (s : Session)
    → (reopen workspace policy t s).0 ≡ ok u
    → (is_done u ≡ false)
      × ((is_done t ≡ false) × (u ≡ t)
          ⊎ (is_done t ≡ true)
            × (u.status ≡ "open")
            × (u.resolved_at ≡ none)
            × (u.closed_at ≡ none))
unfolding reopen save_ticket ◌>>=◌
reopen-open workspace policy t u s e = elim (Bool-cases (is_done t)) [
  | inr d ↦ let same : u ≡ t = ground arith in (ap is_done same ∙ d, inl (d, same))
  | inl d ↦
      let agents =
        support_agent_ids s.repr (flags_of (find_profile workspace s.db.ownership_profiles)) in
      let same : u ≡ reopened policy agents (s.clock s.ticks) t = ground arith in
      (ap is_done same, inr (d, cc (same), cc (same), cc (same)))
]
