-- ===== src/Voice/Ended.antt =====
-- One outbox event for the end of each call: what `_enqueue_call_ended` leaves.
use phera.Common.{
  suc, String, ◌≡◌, refl, ◌∙◌, ap, inl, inr, Bool, true, false, Option, none, some, List, [], ◌∷◌,
  ◌++◌, arith, ◌==◌, eq_iff, eq_refl, any, where_, if◌then◌else◌, Bool-cases, where_-append,
  where_-none, where_-one, any-append,
}
use phera.Models.{OutboxEvent, Call, Db}
use phera.Session.{
  M, Session, ok, ◌>>=◌, has_unique_keys, scalar_one_or_none, gets, pure, track_outbox_notify,
}
use phera.Session.Keeps.{Keeps, keeps}
use phera.Voice.Calls.{
  ended_key, has_key, call_ended, insert_event, add_call_ended, unless_queued, enqueue_call_ended,
}

-- With unique keys a key has one event at most.
data Events (key : String) (es : List OutboxEvent) : Type 0 where
  absent : any (has_key key) es ≡ false → where_ (has_key key) es ≡ [] → Events key es
  present :
      (e : OutboxEvent)
      → any (has_key key) es ≡ true
      → where_ (has_key key) es ≡ e ∷ []
      → Events key es

module _ (key : String) where
  absent-where_ :
      (es : List OutboxEvent) → any (has_key key) es ≡ false → where_ (has_key key) es ≡ []
  absent-where_ es h = where_-none (has_key key) (has_key key) es (λ e. refl) h

  others :
      (e : OutboxEvent) (es : List OutboxEvent)
      → has_key key e ≡ true
      → any (λ f. f.idempotency_key == e.idempotency_key) es ≡ false
      → any (has_key key) es ≡ false
  unfolding any
  others e [] h free = refl
  others e (f ∷ es) h free = ground (
    arith,
    eq_iff e.idempotency_key key,
    eq_iff f.idempotency_key key,
    eq_iff f.idempotency_key e.idempotency_key,
    others e es h,
  )

  unique-Events : (es : List OutboxEvent) → has_unique_keys es ≡ true → Events key es
  unfolding has_unique_keys where_ any
  unique-Events [] u = absent refl refl
  unique-Events (e ∷ es) u = elim (Bool-cases (has_key key e)) [
    | inl h ↦
        present e (rw h refl)
          (rw h (ap (λ r. e ∷ r) (absent-where_ es (others e es h (ground arith)))))
    | inr h ↦ elim (unique-Events es (ground arith)) [
      | absent n w ↦ absent (rw h n) (rw h w)
      | present f i w ↦ present f (rw h i) (rw h w)
    ]
  ]

unique-prefix :
    (es fs : List OutboxEvent) → has_unique_keys (es ++ fs) ≡ true → has_unique_keys es ≡ true
unfolding has_unique_keys
unique-prefix [] fs u = refl
unique-prefix (e ∷ es) fs u =
    ground
      (arith, any-append (λ f. f.idempotency_key == e.idempotency_key) es fs, unique-prefix es fs)

unique-last :
    (es : List OutboxEvent) (new : OutboxEvent)
    → has_unique_keys es ≡ true
    → any (has_key new.idempotency_key) es ≡ false
    → has_unique_keys (es ++ new ∷ []) ≡ true
unfolding has_unique_keys any
unique-last [] new u free = refl
unique-last (e ∷ es) new u free = ground (
  arith,
  any-append (λ f. f.idempotency_key == e.idempotency_key) es (new ∷ []),
  eq_iff e.idempotency_key new.idempotency_key,
  eq_iff new.idempotency_key e.idempotency_key,
  unique-last es new,
)

-- The key has one event, and a commit is not refused.
pub record IsQueued (key : String) (es : List OutboxEvent) : Type 0 where
  pub unique : has_unique_keys es ≡ true
  pub event : (e : OutboxEvent) × (where_ (has_key key) es ≡ e ∷ [])

insert_event-IsQueued :
    (e : OutboxEvent) (s : Session)
    → has_unique_keys (s.db.outbox_events ++ (s.rivals s.inserts).outbox_events) ≡ true
    → ((done : Bool) × ((insert_event e s).0 ≡ ok done))
      × IsQueued e.idempotency_key (insert_event e s).1.db.outbox_events
unfolding insert_event
insert_event-IsQueued e s u =
    let rows = s.db.outbox_events ++ (s.rivals s.inserts).outbox_events in
    elim (unique-Events e.idempotency_key rows u) [
      | present f taken w ↦ rw taken ((false, refl), record { unique = u; event = (f, w) })
      | absent free w ↦ rw free (
        (true, refl),
        record {
          unique = unique-last rows e u free;
          event = (
            e,
            where_-append (has_key e.idempotency_key) rows (e ∷ [])
                ∙ ap (λ front. front ++ where_ (has_key e.idempotency_key) (e ∷ [])) w
                ∙ where_-one _ e (eq_refl e.idempotency_key),
          );
        },
      )
    ]

-- What the session and those that committed before it have of events has no key twice.
abbrev pub KeysUnique : Session → Type 0
KeysUnique s = has_unique_keys (s.db.outbox_events ++ (s.rivals s.inserts).outbox_events) ≡ true

-- The call's end is queued.
abbrev pub EndQueued : Call → M Unit → Session → Type 0
EndQueued call m s = ((m s).0 ≡ ok tt) × IsQueued (ended_key call) (m s).1.db.outbox_events

finish_insert :
    (call : Call) (id : String) (m : M Bool) (s : Session)
    → ((done : Bool) × ((m s).0 ≡ ok done)) × IsQueued (ended_key call) (m s).1.db.outbox_events
    → EndQueued call (m >>= (λ done. if done then track_outbox_notify id else pure tt)) s
unfolding ◌>>=◌ track_outbox_notify
finish_insert call id m s ((true, q), queued) = rw q (refl, queued)
finish_insert call id m s ((false, q), queued) = rw q (refl, queued)

add_call_ended-EndQueued :
    (call : Call) (s : Session) → KeysUnique s → EndQueued call (add_call_ended call) s
unfolding add_call_ended ◌>>=◌ track_outbox_notify
add_call_ended-EndQueued call s u =
    let t = record s { drawn = suc s.drawn; ticks = suc s.ticks } in
    let event = call_ended (s.uuids s.drawn) (s.clock s.ticks) call in
    finish_insert call event.id (insert_event event) t (insert_event-IsQueued event t u)

-- Queueing the end of a call always answers, and then there is one event with the call's key, and no
-- key that stands twice, so that no commit is refused for it: whether the event was there, is new, or was
-- committed by another session in between.
pub enqueue_call_ended-EndQueued :
    (call : Call) (s : Session) → KeysUnique s → EndQueued call (enqueue_call_ended call) s
unfolding enqueue_call_ended unless_queued ◌>>=◌ gets scalar_one_or_none
enqueue_call_ended-EndQueued call s u =
    let before = unique-prefix s.db.outbox_events (s.rivals s.inserts).outbox_events u in
    elim (unique-Events (ended_key call) s.db.outbox_events before) [
      | absent free w ↦ rw w (add_call_ended-EndQueued call s u)
      | present e i w ↦ rw w (refl, record { unique = before; event = (e, w) })
    ]

-- The rest of the rows is left as it was.
module _ {X : Type 0} (part : Db → X)
    (h : (db : Db) (es : List OutboxEvent)
      → part (record db { outbox_events = es }) ≡ part db) where
  insert_event-Keeps : (e : OutboxEvent) → Keeps part (insert_event e)
  unfolding insert_event
  insert_event-Keeps e s =
      let rows = s.db.outbox_events ++ (s.rivals s.inserts).outbox_events in
      elim (Bool-cases (any (has_key e.idempotency_key) rows)) [
        | inl taken ↦ rw taken (h s.db rows)
        | inr free ↦ rw free (h s.db (rows ++ e ∷ []))
      ]

  add_call_ended-Keeps : (call : Call) → Keeps part (add_call_ended call)
  unfolding add_call_ended
  add_call_ended-Keeps call = search (keeps, insert_event-Keeps) depth 12

  unless_queued-Keeps :
      (call : Call) (existing : Option OutboxEvent) → Keeps part (unless_queued call existing)
  unfolding unless_queued
  unless_queued-Keeps call none = add_call_ended-Keeps call
  unless_queued-Keeps call (some e) = search keeps

  pub enqueue_call_ended-Keeps : (call : Call) → Keeps part (enqueue_call_ended call)
  unfolding enqueue_call_ended
  enqueue_call_ended-Keeps call = search (keeps, unless_queued-Keeps) depth 12
