-- ===== src/Mutate/Audited.antt =====
-- The audit events beside the rows of the outbox.
use phera.Common.{
  ◌≡◌, ◌⊎◌, refl, sym, ◌∙◌, inl, inr, List, [], ◌∷◌, ◌++◌, map, arith, In, In-append_left,
  In-append_right, In-append, map-append, append-nil, Bool-cases,
}
use phera.Models.{Db, OutboxEvent, AuditEvent}
use phera.Session.{Session}
use phera.Mutate.{MutateRequest, mutate, is_recorded, audit_event}
use phera.Mutate.Recorded.{new_outbox, new_audit, mutate-audit_events}
use phera.Mutate.Steps.{IsDirect, IsSameEvent, ids, IsAudited, AllAudited}

-- An event that stays as it was, while the log grows.
pub stays-IsAudited :
    (db db' : Db) (more : List AuditEvent) (e e' : OutboxEvent)
    → db'.audit_events ≡ db.audit_events ++ more
    → IsSameEvent e e'
    → IsDirect e ⊎ IsAudited db e
    → IsDirect e' ⊎ IsAudited db' e'
stays-IsAudited db db' more e e' p same (inl call) = inl (rw same.event call)
stays-IsAudited db db' more e e' p same (inr a) = inr (record {
  audit = a.audit;
  logged = rw p (In-append_left a.audit db.audit_events more a.logged);
  entity = a.entity ∙ sym same.entity;
  kind = a.kind ∙ sym same.kind;
  time = a.time ∙ sym same.time;
})

abbrev pub unchanged : (e : OutboxEvent) → IsSameEvent e e
unchanged e = record { id = refl; event = refl; entity = refl; kind = refl; time = refl }

-- Rows of the tables other than the audit log change.
pub AllAudited-log :
    (db db' : Db)
    → db'.audit_events ≡ db.audit_events
    → db'.outbox_events ≡ db.outbox_events
    → AllAudited db
    → AllAudited db'
AllAudited-log db db' p q h = λ e i.
    stays-IsAudited db db' [] e e (p ∙ sym (append-nil db.audit_events)) (unchanged e)
      (h e (rw q at i))

-- Rows of the direct types join the outbox.
pub AllAudited-join :
    (db : Db) (rows : List OutboxEvent)
    → ((e : OutboxEvent) → In e rows → IsDirect e)
    → AllAudited db
    → AllAudited (record db { outbox_events = db.outbox_events ++ rows })
AllAudited-join db rows calls h = λ e i. elim (In-append e db.outbox_events rows i) [
  | inl j ↦
      stays-IsAudited db (record db { outbox_events = db.outbox_events ++ rows }) [] e e
        (sym (append-nil db.audit_events)) (unchanged e) (h e j)
  | inr j ↦ inl (calls e j)
]

In-map :
    (g : OutboxEvent → OutboxEvent) (e : OutboxEvent) (rows : List OutboxEvent)
    → In e (map g rows)
    → (d : OutboxEvent) × In d rows × (e ≡ g d)
In-map g e [] i = elim i [ ]
In-map g e (r ∷ rows) (inl p) = (r, inl refl, p)
In-map g e (r ∷ rows) (inr i) = let (d, j, p) = In-map g e rows i in (d, inr j, p)

pub ids-map :
    (g : OutboxEvent → OutboxEvent)
    → ((e : OutboxEvent) → IsSameEvent e (g e))
    → (rows : List OutboxEvent) → ids (map g rows) ≡ ids rows
ids-map g same [] = refl
ids-map g same (r ∷ rows) = cc ((same r).id, ids-map g same rows)

pub AllAudited-map :
    (db : Db) (g : OutboxEvent → OutboxEvent)
    → ((e : OutboxEvent) → IsSameEvent e (g e))
    → AllAudited db
    → AllAudited (record db { outbox_events = map g db.outbox_events })
AllAudited-map db g same h = λ e i.
    let (d, j, p) = In-map g e db.outbox_events i in
    rw p (
      stays-IsAudited db (record db { outbox_events = map g db.outbox_events }) [] d (g d)
        (sym (append-nil db.audit_events)) (same d) (h d j))

-- The audit event that `mutate` writes beside the outbox event.
pub new_outbox-IsAudited :
    (req : MutateRequest) (s : Session) (e : OutboxEvent)
    → In e (new_outbox req s)
    → IsAudited (mutate req s).1.db e
new_outbox-IsAudited req s e i = elim (Bool-cases (is_recorded req)) [
  | inl yes_recorded ↦ record {
    audit = audit_event req (s.clock s.ticks) (s.uuids s.drawn);
    logged =
        rw (mutate-audit_events req s)
          (In-append_right _ s.db.audit_events (new_audit req s) (rw yes_recorded (inl refl)));
    entity = ground arith;
    kind = ground arith;
    time = ground arith;
  }
  | inr skipped ↦ absurd (rw skipped at i)
]

-- The ids of an outbox that grew.
pub ids-append : (xs ys : List OutboxEvent) → ids (xs ++ ys) ≡ ids xs ++ ids ys
ids-append xs ys = map-append (λ e. e.id) xs ys
