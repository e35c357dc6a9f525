-- ===== src/Mutate/Taken.antt =====
-- An idempotency key that the outbox has already.
use phera.Common.{
  String, ◌≡◌, sym, suc, ap, ◌∙◌, inl, inr, Bool, true, false, List, [], ◌∷◌, ◌++◌, arith, ◌==◌,
  eq_iff, any, In,
}
use phera.Models.{OutboxEvent}
use phera.Session.{
  M, ◌>>=◌, ◌>>◌, Session, err, has_unique_keys, commit_and_notify, integrity_error,
}
use phera.Mutate.{MutateRequest, mutate, is_recorded, has_outbox, or_blank, outbox_event}
use phera.Mutate.Recorded.{new_outbox, mutate-outbox_events, mutate-durable, mutate-returned}

abbrev same_key : String → OutboxEvent → Bool
same_key key f = f.idempotency_key == key

any-last :
    (key : String) (es : List OutboxEvent) (new : OutboxEvent)
    → new.idempotency_key ≡ key
    → any (same_key key) (es ++ new ∷ []) ≡ true
unfolding any
any-last key [] new e = ground (arith, eq_iff new.idempotency_key key)
any-last key (f ∷ es) new e = ground (arith, any-last key es new)

taken-unique_keys :
    (es : List OutboxEvent) (e new : OutboxEvent)
    → In e es
    → new.idempotency_key ≡ e.idempotency_key
    → has_unique_keys (es ++ new ∷ []) ≡ false
unfolding has_unique_keys
taken-unique_keys [] e new i k = elim i [ ]
taken-unique_keys (f ∷ es) e new (inl p) k =
    let q : new.idempotency_key ≡ f.idempotency_key =
      k ∙ ap (λ (x : OutboxEvent). x.idempotency_key) p in
    rw (any-last f.idempotency_key es new q)
taken-unique_keys (f ∷ es) e new (inr i) k = ground (arith, taken-unique_keys es e new i k)

-- What a refused commit leaves.
pub commit-refused :
    (s : Session)
    → has_unique_keys s.db.outbox_events ≡ false
    → commit_and_notify s ≡ (err integrity_error, record s { outbox_notify_ids = [] })
unfolding commit_and_notify
commit-refused s h = rw h

pub mutate-taken :
    (req : MutateRequest) (s : Session) (e : OutboxEvent)
    → is_recorded req ≡ true
    → has_outbox req ≡ true
    → In e s.db.outbox_events
    → e.idempotency_key ≡ or_blank req.idempotency_key
    → has_unique_keys (mutate req s).1.db.outbox_events ≡ false
mutate-taken req s e recorded outbox i k =
    let new = outbox_event req (s.clock s.ticks) (s.uuids (suc s.drawn)) in
    let one : new_outbox req s ≡ new ∷ [] = ground (arith, recorded, outbox) in
    rw (mutate-outbox_events req s, one) (taken-unique_keys s.db.outbox_events e new i (sym k))

-- A mutation under a key that the outbox has already, and the commit after it.
pub mutate-commit-taken :
    {A : Type 0} (req : MutateRequest) (k : M A) (s : Session) (e : OutboxEvent)
    → is_recorded req ≡ true
    → has_outbox req ≡ true
    → In e s.db.outbox_events
    → e.idempotency_key ≡ or_blank req.idempotency_key
    → (((mutate req >> (commit_and_notify >> k)) s).0 ≡ err integrity_error)
      × (((mutate req >> (commit_and_notify >> k)) s).1.durable ≡ s.durable)
      × (((mutate req >> (commit_and_notify >> k)) s).1.notified ≡ s.notified)
unfolding ◌>>=◌
mutate-commit-taken req k s e recorded outbox i key =
    let done = mutate-returned req s in
    let refused = commit-refused (mutate req s).1 (mutate-taken req s e recorded outbox i key) in
    (
      rw (done, refused),
      rw (done, refused) (mutate-durable req s).0,
      rw (done, refused) (mutate-durable req s).1,
    )
