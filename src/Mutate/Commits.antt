-- ===== src/Mutate/Commits.antt =====
-- What a commit, or an end without one, leaves of the outbox.
use phera.Common.{◌≡◌, true, sym, inl, inr, [], ◌++◌, In-append, append-nil, Bool-cases}
use phera.Session.{Session, has_unique_keys, commit, commit_and_notify, rollback}
use phera.Mutate.Steps.{IsTransactional}

-- The session after a commit that the database takes, and after one that it refuses.
abbrev committed : Session → Session
committed s = record s {
  outbox_notify_ids = [];
  durable = s.db;
  notified = s.notified ++ s.outbox_notify_ids;
}

abbrev refused : Session → Session
refused s = record s { outbox_notify_ids = [] }

committed-IsTransactional :
    {s : Session}
    → has_unique_keys s.db.outbox_events ≡ true
    → IsTransactional s
    → IsTransactional (committed s)
committed-IsTransactional {s} u h = record {
  queued = λ id i. elim i [ ];
  notified_durable = λ id i. elim (In-append id s.notified s.outbox_notify_ids i) [
    | inl j ↦ h.outbox_grows id (h.notified_durable id j)
    | inr j ↦ h.queued id j
  ];
  outbox_grows = λ id i. i;
  rest = [];
  audit_grows = sym (append-nil s.db.audit_events);
  audited = h.audited;
  audited_durable = h.audited;
  unique = u;
}

saved-IsTransactional :
    {s : Session}
    → has_unique_keys s.db.outbox_events ≡ true
    → IsTransactional s
    → IsTransactional (record s { durable = s.db })
saved-IsTransactional {s} u h = record {
  queued = h.queued;
  notified_durable = λ id i. h.outbox_grows id (h.notified_durable id i);
  outbox_grows = λ id i. i;
  rest = [];
  audit_grows = sym (append-nil s.db.audit_events);
  audited = h.audited;
  audited_durable = h.audited;
  unique = u;
}

refused-IsTransactional : {s : Session} → IsTransactional s → IsTransactional (refused s)
refused-IsTransactional {s} h = record {
  queued = λ id i. elim i [ ];
  notified_durable = h.notified_durable;
  outbox_grows = h.outbox_grows;
  rest = h.rest;
  audit_grows = h.audit_grows;
  audited = h.audited;
  audited_durable = h.audited_durable;
  unique = h.unique;
}

pub commit-IsTransactional :
    {s : Session} → IsTransactional s → IsTransactional (commit_and_notify s).1
unfolding commit_and_notify
commit-IsTransactional {s} h = elim (Bool-cases (has_unique_keys s.db.outbox_events)) [
  | inl u ↦ rw u (committed-IsTransactional u h)
  | inr u ↦ rw u (refused-IsTransactional h)
]

pub rollback-IsTransactional : {s : Session} → IsTransactional s → IsTransactional (rollback s).1
unfolding rollback
rollback-IsTransactional {s} h = record {
  queued = λ id i. elim i [ ];
  notified_durable = h.notified_durable;
  outbox_grows = λ id i. i;
  rest = [];
  audit_grows = sym (append-nil s.durable.audit_events);
  audited = h.audited_durable;
  audited_durable = h.audited_durable;
  unique = h.unique;
}

pub save-IsTransactional : {s : Session} → IsTransactional s → IsTransactional (commit s).1
unfolding commit
save-IsTransactional {s} h = elim (Bool-cases (has_unique_keys s.db.outbox_events)) [
  | inl u ↦ rw u (saved-IsTransactional u h)
  | inr u ↦ rw u h
]
