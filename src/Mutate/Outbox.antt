-- ===== src/Mutate/Outbox.antt =====
-- The transactional outbox: whatever a session does, in whatever order.
use phera.Common.{
  ◌≡◌, ◌∙◌, inl, inr, List, [], ◌∷◌, ◌++◌, map, In, In-append_left, In-append_right, In-append,
  append_assoc,
}
use phera.Models.{Db, OutboxEvent}
use phera.Session.{Session}
use phera.Mutate.{MutateRequest, mutate}
use phera.Mutate.Recorded.{
  new_outbox, new_audit, mutate-audit_events, mutate-outbox_events, mutate-outbox_notify_ids,
  mutate-durable,
}
use phera.Mutate.Steps.{
  IsDirect, IsSameEvent, IsAside, Step, Reach, start, next, mutates, announces, sees, settles,
  edits, aside, saves, commits, abandons, ids, IsTransactional,
}
use phera.Mutate.Audited.{
  stays-IsAudited, unchanged, AllAudited-log, AllAudited-join, ids-map, AllAudited-map,
  new_outbox-IsAudited, ids-append,
}
use phera.Mutate.Commits.{commit-IsTransactional, rollback-IsTransactional, save-IsTransactional}

mutate-IsTransactional :
    {s : Session} (req : MutateRequest) → IsTransactional s → IsTransactional (mutate req s).1
mutate-IsTransactional {s} req h =
    let more = new_outbox req s in
    let old = s.db.outbox_events in
    record {
      queued = λ id i.
          rw (mutate-outbox_events req s, ids-append)
            (elim (In-append id s.outbox_notify_ids (ids more)
              (rw (mutate-outbox_notify_ids req s) at i)) [
                | inl j ↦ In-append_left id (ids old) (ids more) (h.queued id j)
                | inr j ↦ In-append_right id (ids old) (ids more) j
              ]);
      notified_durable = λ id i.
          rw (mutate-durable req s).0 (h.notified_durable id (rw (mutate-durable req s).1 at i));
      outbox_grows = λ id i.
          rw (mutate-outbox_events req s, ids-append)
            (In-append_left id (ids old) (ids more)
              (h.outbox_grows id (rw (mutate-durable req s).0 at i)));
      rest = h.rest ++ new_audit req s;
      audit_grows =
          mutate-audit_events req s
          ∙ cc (
            h.audit_grows,
            (mutate-durable req s).0,
            append_assoc s.durable.audit_events h.rest (new_audit req s),
          );
      audited = λ e i. elim (In-append e old more (rw (mutate-outbox_events req s) at i)) [
        | inl j ↦
            stays-IsAudited s.db (mutate req s).1.db (new_audit req s) e e
              (mutate-audit_events req s) (unchanged e) (h.audited e j)
        | inr j ↦ inr (new_outbox-IsAudited req s e j)
      ];
      audited_durable = rw (mutate-durable req s).0 h.audited_durable;
      unique = rw (mutate-durable req s).0 h.unique;
    }

edit-IsTransactional :
    {s : Session} (f : Db → Db)
    → (f s.db).audit_events ≡ s.db.audit_events
    → (f s.db).outbox_events ≡ s.db.outbox_events
    → IsTransactional s
    → IsTransactional (record s { db = f s.db })
edit-IsTransactional {s} f same_audit same_outbox h = record {
  queued = λ id i. rw same_outbox (h.queued id i);
  notified_durable = h.notified_durable;
  outbox_grows = λ id i. rw same_outbox (h.outbox_grows id i);
  rest = h.rest;
  audit_grows = same_audit ∙ h.audit_grows;
  audited = AllAudited-log s.db (f s.db) same_audit same_outbox h.audited;
  audited_durable = h.audited_durable;
  unique = h.unique;
}

announce-IsTransactional :
    {s : Session} (e : OutboxEvent)
    → IsDirect e
    → IsTransactional s
    → IsTransactional (record s {
      db = record s.db { outbox_events = s.db.outbox_events ++ e ∷ [] };
      outbox_notify_ids = s.outbox_notify_ids ++ e.id ∷ [];
    })
announce-IsTransactional {s} e call h = record {
  queued = λ id i.
      rw (ids-append s.db.outbox_events (e ∷ []))
        (elim (In-append id s.outbox_notify_ids (e.id ∷ []) i) [
          | inl j ↦ In-append_left id (ids s.db.outbox_events) (e.id ∷ []) (h.queued id j)
          | inr j ↦ In-append_right id (ids s.db.outbox_events) (e.id ∷ []) j
        ]);
  notified_durable = h.notified_durable;
  outbox_grows = λ id i.
      rw (ids-append s.db.outbox_events (e ∷ []))
        (In-append_left id (ids s.db.outbox_events) (e.id ∷ []) (h.outbox_grows id i));
  rest = h.rest;
  audit_grows = h.audit_grows;
  audited =
      AllAudited-join s.db (e ∷ []) (λ f i. elim i [ inl p ↦ rw p call | inr j ↦ elim j [ ] ])
        h.audited;
  audited_durable = h.audited_durable;
  unique = h.unique;
}

see-IsTransactional :
    {s : Session} (rows : List OutboxEvent)
    → ((e : OutboxEvent) → In e rows → IsDirect e)
    → IsTransactional s
    → IsTransactional (record s { db = record s.db { outbox_events = s.db.outbox_events ++ rows } })
see-IsTransactional {s} rows calls h = record {
  queued = λ id i.
      rw (ids-append s.db.outbox_events rows)
        (In-append_left id (ids s.db.outbox_events) (ids rows) (h.queued id i));
  notified_durable = h.notified_durable;
  outbox_grows = λ id i.
      rw (ids-append s.db.outbox_events rows)
        (In-append_left id (ids s.db.outbox_events) (ids rows) (h.outbox_grows id i));
  rest = h.rest;
  audit_grows = h.audit_grows;
  audited = AllAudited-join s.db rows calls h.audited;
  audited_durable = h.audited_durable;
  unique = h.unique;
}

settle-IsTransactional :
    {s : Session} (g : OutboxEvent → OutboxEvent)
    → ((e : OutboxEvent) → IsSameEvent e (g e))
    → IsTransactional s
    → IsTransactional (record s { db = record s.db { outbox_events = map g s.db.outbox_events } })
settle-IsTransactional {s} g same h = record {
  queued = λ id i. rw (ids-map g same s.db.outbox_events) (h.queued id i);
  notified_durable = h.notified_durable;
  outbox_grows = λ id i. rw (ids-map g same s.db.outbox_events) (h.outbox_grows id i);
  rest = h.rest;
  audit_grows = h.audit_grows;
  audited = AllAudited-map s.db g same h.audited;
  audited_durable = h.audited_durable;
  unique = h.unique;
}

aside-IsTransactional :
    {s : Session} (t : Session) → IsAside s t → IsTransactional s → IsTransactional t
aside-IsTransactional {s} t a h = record {
  queued = λ id i. rw a.db (h.queued id (rw a.queue at i));
  notified_durable = λ id i. rw a.durable (h.notified_durable id (rw a.told at i));
  outbox_grows = λ id i. rw a.db (h.outbox_grows id (rw a.durable at i));
  rest = h.rest;
  audit_grows = rw (a.db, a.durable) h.audit_grows;
  audited = rw a.db h.audited;
  audited_durable = rw a.durable h.audited_durable;
  unique = rw a.durable h.unique;
}

pub Step-IsTransactional : {s t : Session} → Step s t → IsTransactional s → IsTransactional t
Step-IsTransactional (mutates req) h = mutate-IsTransactional req h
Step-IsTransactional (announces e call) h = announce-IsTransactional e call h
Step-IsTransactional (sees rows calls) h = see-IsTransactional rows calls h
Step-IsTransactional (settles g same) h = settle-IsTransactional g same h
Step-IsTransactional (aside t a) h = aside-IsTransactional t a h
Step-IsTransactional saves h = save-IsTransactional h
Step-IsTransactional (edits f p q) h = edit-IsTransactional f p q h
Step-IsTransactional commits h = commit-IsTransactional h
Step-IsTransactional abandons h = rollback-IsTransactional h

-- From a session in which this holds, whatever steps follow in whatever order (mutations, rows that
-- the program puts into the outbox by itself, for calls, broadcasts and service events, its own and
-- those of other sessions, new states of outbox rows, changes of other tables, commits and ends without
-- one): every queued id is an outbox row of the session, every id that the broker was told is a
-- committed outbox row, the committed audit log is a prefix of what the session sees, every outbox row,
-- committed or not, that is not of those put in directly has beside it an audit event of the same
-- entity and time, and no two committed outbox rows have the same idempotency key.
pub Reach-IsTransactional : {s t : Session} → IsTransactional s → Reach s t → IsTransactional t
Reach-IsTransactional h start = h
Reach-IsTransactional h (next r st) = Step-IsTransactional st (Reach-IsTransactional h r)
