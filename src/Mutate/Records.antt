-- ===== src/Mutate/Records.antt =====
-- What one call of `mutate` records, said without its code.
use phera.Common.{
  String, suc, ◌≡◌, ◌≢◌, ◌⊎◌, refl, inl, inr, true, false, Option, none, some, List, [], ◌∷◌, ◌++◌,
  arith, ◌==◌, eq_iff, append-nil, Bool-cases, Option-cases,
}
use phera.Models.{Uuid, Time, OutboxEvent, AuditEvent, Interaction}
use phera.Authz.Actor.{Actor}
use phera.Session.{Session, Result, pure, ok}
use phera.Mutate.{
  MutateRequest, mutate, is_nil, is_recorded, has_outbox, actor_type_of, actor_id_of, workspace_of,
  audit_event, outbox_event, interaction,
}
use phera.Mutate.Recorded.{
  timeline_id, new_outbox, new_interaction, mutate-audit_events, mutate-returned,
  mutate-outbox_events, mutate-outbox_notify_ids, mutate-interactions, mutate-durable,
}

-- The request has something to record.
abbrev pub IsRecorded : MutateRequest → Type 0
IsRecorded req = (req.changes ≢ []) ⊎ ((req.action ≡ "created") ⊎ (req.action ≡ "form_submitted"))

-- The request announces an event of the type under the key.
pub record IsAnnounced (req : MutateRequest) (event key : String) : Type 0 where
  pub event_given : req.outbox_event_type ≡ some event
  pub key_given : req.idempotency_key ≡ some key
  pub event_said : event ≢ ""
  pub key_said : key ≢ ""

-- Who acted, in the columns of a row.
pub record IsActor (req : MutateRequest) (kind : String) (id : Option String) : Type 0 where
  pub nobody : req.actor ≡ none → (kind ≡ "system") × (id ≡ none)
  pub somebody : (who : Actor) → req.actor ≡ some who → (kind ≡ who.actor_type) × (id ≡ who.id)

-- The workspace named by the request, or else that of the entity.
pub record IsPlace (req : MutateRequest) (workspace : Option Uuid) : Type 0 where
  pub given : (w : Uuid) → req.workspace_id ≡ some w → workspace ≡ some w
  pub own : req.workspace_id ≡ none → workspace ≡ req.entity.workspace_id

pub record IsAuditOf (req : MutateRequest) (at : Time) (a : AuditEvent) : Type 0 where
  pub time : a.occurred_at ≡ at
  pub kind : a.entity_type ≡ req.entity_type
  pub entity : a.entity_id ≡ req.entity.id
  pub action : a.action ≡ req.action
  pub changes : a.changes ≡ req.changes
  pub pipeline : a.pipeline_id ≡ req.pipeline_id
  pub stage_from : a.stage_from_id ≡ req.stage_from_id
  pub stage_to : a.stage_to_id ≡ req.stage_to_id
  pub snapshot : a.after ≡ req.after_snapshot
  pub context : a.context ≡ req.context
  pub actor : IsActor req a.actor_type a.actor_id
  pub place : IsPlace req a.workspace_id

pub record IsEventOf (req : MutateRequest) (event key : String) (at : Time) (e : OutboxEvent)
    : Type 0 where
  pub time : e.occurred_at ≡ at
  pub event_type : e.event_type ≡ event
  pub idempotency_key : e.idempotency_key ≡ key
  pub kind : e.entity_type ≡ req.entity_type
  pub entity : e.entity_id ≡ req.entity.id
  pub payload : e.payload ≡ req.outbox_payload
  pub status : e.status ≡ "pending"
  pub attempts : e.attempts ≡ 0
  pub last_error : e.last_error ≡ none
  pub place : IsPlace req e.workspace_id

pub record IsEntryOf (req : MutateRequest) (contact : Uuid) (at : Time) (i : Interaction)
    : Type 0 where
  pub time : i.occurred_at ≡ at
  pub contact_id : i.contact_id ≡ contact
  pub deal : i.deal_id ≡ req.deal_id
  pub ticket : i.ticket_id ≡ req.ticket_id
  pub body : i.body ≡ req.timeline_body
  pub named : (kind : String) → req.timeline_type ≡ some kind → kind ≢ "" → i.type ≡ kind
  pub unnamed : req.timeline_type ≡ none → i.type ≡ req.action
  pub actor : IsActor req i.actor_type i.actor_id
  pub place : IsPlace req i.workspace_id

-- What a call that leaves `t` and answers `r` did, of all that it may do.
pub record Records (req : MutateRequest) (s t : Session) (r : Result (Option AuditEvent))
    : Type 0 where
  pub silent : (IsRecorded req → ⊥) → (r ≡ ok none) × (t ≡ s)
  pub audit :
      IsRecorded req
      → (a : AuditEvent) × (r ≡ ok (some a))
        × (t.db.audit_events ≡ s.db.audit_events ++ a ∷ [])
        × IsAuditOf req (s.clock s.ticks) a
  pub announced :
      (event key : String)
      → IsRecorded req
      → IsAnnounced req event key
      → (e : OutboxEvent) × (t.db.outbox_events ≡ s.db.outbox_events ++ e ∷ [])
        × (t.outbox_notify_ids ≡ s.outbox_notify_ids ++ e.id ∷ [])
        × IsEventOf req event key (s.clock s.ticks) e
  pub unannounced :
      ((event key : String) → IsAnnounced req event key → ⊥)
      → (t.db.outbox_events ≡ s.db.outbox_events) × (t.outbox_notify_ids ≡ s.outbox_notify_ids)
  pub entered :
      (contact : Uuid)
      → IsRecorded req
      → req.timeline ≡ true
      → req.contact_id ≡ some contact
      → (i : Interaction) × (t.db.interactions ≡ s.db.interactions ++ i ∷ [])
        × IsEntryOf req contact (s.clock s.ticks) i
  pub unentered :
      (req.timeline ≡ false) ⊎ (req.contact_id ≡ none) → t.db.interactions ≡ s.db.interactions
  pub durable : t.durable ≡ s.durable
  pub notified : t.notified ≡ s.notified

is_nil-false : {A : Type 0} (xs : List A) → xs ≢ [] → is_nil xs ≡ false
is_nil-false [] h = absurd (h refl)
is_nil-false (x ∷ xs) h = refl

module _ (req : MutateRequest) where
  recorded : IsRecorded req → is_recorded req ≡ true
  recorded (inl h) = ground (arith, is_nil-false req.changes h)
  recorded (inr (inl p)) = ground (arith, eq_iff req.action "created", p)
  recorded (inr (inr p)) = ground (arith, eq_iff req.action "form_submitted", p)

  is_recorded-IsRecorded : is_recorded req ≡ true → IsRecorded req
  is_recorded-IsRecorded t = elim (Bool-cases (is_nil req.changes)) [
    | inr n ↦ inl (λ e. let h : true ≡ false = rw e at n in absurd cc)
    | inl n ↦ elim (Bool-cases (req.action == "created")) [
      | inl c ↦ inr (inl ((eq_iff req.action "created").0 c))
      | inr c ↦ inr (inr (ground (arith, eq_iff req.action "form_submitted")))
    ]
  ]

  unrecorded : (IsRecorded req → ⊥) → is_recorded req ≡ false
  unrecorded h = elim (Bool-cases (is_recorded req)) [
    | inl t ↦ absurd (h (is_recorded-IsRecorded t))
    | inr f ↦ f
  ]

  IsAnnounced-has_outbox : (event key : String) → IsAnnounced req event key → has_outbox req ≡ true
  IsAnnounced-has_outbox event key a =
      rw (a.event_given, a.key_given)
        (ground (arith, eq_iff event "", eq_iff key "", a.event_said, a.key_said))

  has_outbox-IsAnnounced :
      has_outbox req ≡ true → (event : String) × (key : String) × IsAnnounced req event key
  has_outbox-IsAnnounced t = elim (Option-cases req.outbox_event_type) [
    | inl p ↦ absurd (ground arith)
    | inr (event, p) ↦ elim (Option-cases req.idempotency_key) [
      | inl q ↦ absurd (ground arith)
      | inr (key, q) ↦ (
        event,
        key,
        record {
          event_given = p;
          key_given = q;
          event_said = λ e. ground (arith, eq_iff event "");
          key_said = λ e. ground (arith, eq_iff key "");
        },
      )
    ]
  ]

  silent-has_outbox :
      ((event key : String) → IsAnnounced req event key → ⊥) → has_outbox req ≡ false
  silent-has_outbox h = elim (Bool-cases (has_outbox req)) [
    | inl t ↦ let (event, key, a) = has_outbox-IsAnnounced t in absurd (h event key a)
    | inr f ↦ f
  ]

  actor-IsActor : IsActor req (actor_type_of req.actor) (actor_id_of req.actor)
  actor-IsActor = record { nobody = λ q. rw q (refl, refl); somebody = λ who q. rw q (refl, refl) }

  workspace_of-IsPlace : IsPlace req (workspace_of req)
  workspace_of-IsPlace = record { given = λ w q. rw q refl; own = λ q. rw q refl }

  audit_event-IsAuditOf : (at : Time) (id : Uuid) → IsAuditOf req at (audit_event req at id)
  audit_event-IsAuditOf at id = record {
    time = refl;
    kind = refl;
    entity = refl;
    action = refl;
    changes = refl;
    pipeline = refl;
    stage_from = refl;
    stage_to = refl;
    snapshot = refl;
    context = refl;
    actor = actor-IsActor;
    place = workspace_of-IsPlace;
  }

  outbox_event-IsEventOf :
      (event key : String) (at : Time) (id : Uuid)
      → IsAnnounced req event key
      → IsEventOf req event key at (outbox_event req at id)
  outbox_event-IsEventOf event key at id a = record {
    time = refl;
    event_type = rw a.event_given refl;
    idempotency_key = rw a.key_given refl;
    kind = refl;
    entity = refl;
    payload = refl;
    status = refl;
    attempts = refl;
    last_error = refl;
    place = workspace_of-IsPlace;
  }

  interaction-IsEntryOf :
      (contact : Uuid) (at : Time) (id : Uuid)
      → IsEntryOf req contact at (interaction req at contact id)
  interaction-IsEntryOf contact at id = record {
    time = refl;
    contact_id = refl;
    deal = refl;
    ticket = refl;
    body = refl;
    named = λ kind q n. rw q (ground (arith, eq_iff kind ""));
    unnamed = λ q. rw q refl;
    actor = actor-IsActor;
    place = workspace_of-IsPlace;
  }

module _ (req : MutateRequest) (s : Session) where
  mutate-silent : is_recorded req ≡ false → mutate req s ≡ (ok none, s)
  unfolding mutate pure
  mutate-silent f = rw f refl

  new_outbox-none : has_outbox req ≡ false → new_outbox req s ≡ []
  new_outbox-none f = ground arith

  new_interaction-none :
      (req.timeline ≡ false) ⊎ (req.contact_id ≡ none) → new_interaction req s ≡ []
  new_interaction-none (inl f) = ground arith
  new_interaction-none (inr q) = rw q refl

-- One call of `mutate` records something exactly when there are changes or the action is "created" or
-- "form_submitted"; otherwise it does nothing. Then it adds and returns one audit event, with what the
-- request says of the entity, the change and who made it; exactly when the request has an event type
-- and an idempotency key, neither of them blank, it adds one pending outbox event of this type and key,
-- not tried yet, and queues its id alone for the broker; and exactly when the request has a timeline
-- and a contact, it adds one timeline entry of this contact. It commits nothing and notifies nobody.
pub mutate-Records :
    (req : MutateRequest) (s : Session) → Records req s (mutate req s).1 (mutate req s).0
mutate-Records req s = record {
  silent = λ h. rw (mutate-silent req s (unrecorded req h)) (refl, refl);
  audit = λ h. (
    audit_event req (s.clock s.ticks) (s.uuids s.drawn),
    rw (mutate-returned req s, recorded req h) refl,
    rw (mutate-audit_events req s, recorded req h) refl,
    audit_event-IsAuditOf req _ _,
  );
  announced = λ event key h a. (
    outbox_event req (s.clock s.ticks) (s.uuids (suc s.drawn)),
    rw (mutate-outbox_events req s, recorded req h, IsAnnounced-has_outbox req event key a) refl,
    rw (mutate-outbox_notify_ids req s, recorded req h, IsAnnounced-has_outbox req event key a)
        refl,
    outbox_event-IsEventOf req event key _ _ a,
  );
  unannounced = λ h.
      let none_new = new_outbox-none req s (silent-has_outbox req h) in
      (
        rw (mutate-outbox_events req s, none_new) (append-nil s.db.outbox_events),
        rw (mutate-outbox_notify_ids req s, none_new) (append-nil s.outbox_notify_ids),
      );
  entered = λ contact h t c. (
    interaction req (s.clock s.ticks) contact (timeline_id req s),
    rw (mutate-interactions req s, c, recorded req h, t) refl,
    interaction-IsEntryOf req contact _ _,
  );
  unentered = λ h.
      rw (mutate-interactions req s, new_interaction-none req s h) (append-nil s.db.interactions);
  durable = (mutate-durable req s).0;
  notified = (mutate-durable req s).1;
}
