-- ===== src/Api/Calls/Again.antt =====
-- A call that is started again in src/phera/api/routes/calls.py.
use phera.Common.{
  suc, String, ◌≡◌, refl, sym, inl, inr, Bool, true, some, List, [], ◌∷◌, ◌++◌, arith, eq_refl, any,
  any-append, In,
}
use phera.Models.{Uuid, Time, Call, Contact}
use phera.Session.{Session, ok, err, integrity_error, uuid4, gets, commit_and_notify, ◌>>=◌}
use phera.Session.Ensures.{Ensures, bind-Ensures, pure-Ensures}
use phera.Authz.Actor.{Actor}
use phera.Tickets.Joining.{blank_or}
use phera.Api.Enrichment.{contact_by}
use phera.Api.Contacts.{get_contact, own_contact}
use phera.Voice.Calls.{insert_call, is_same_call}
use phera.Api.Calls.{
  CallCreate, click_to_call, outbound_call, flush_call, touch_called, queue_started,
  publish_started, start_call,
}

-- A call of somebody to a number, as the stub names it.
pub record IsStubCall (workspace : Uuid) (actor : Actor) (to_number : String) (c : Call)
    : Type 0 where
  pub home : c.workspace_id ≡ workspace
  pub provider : c.provider ≡ "stub"
  pub named : c.provider_call_id ≡ some (click_to_call (blank_or actor.id) to_number)

start_call-IsStubCall :
    (workspace : Uuid) (actor : Actor) (body : CallCreate) (s : Session)
    → Ensures
        (start_call workspace actor body)
        s
        (λ c _. IsStubCall workspace actor body.to_number c)
unfolding start_call
start_call-IsStubCall workspace actor body s =
    let P : Call → Session → Type 0 = λ c _. IsStubCall workspace actor body.to_number c in
    bind-Ensures (get_contact workspace body.contact_id) _ s P λ contact _.
      bind-Ensures uuid4 _ _ P λ id _. bind-Ensures (gets (λ s. s.db_now)) _ _ P λ at _.
        bind-Ensures (flush_call (outbound_call id workspace actor body at)) _ _ P λ _ _.
          bind-Ensures (touch_called workspace actor body.ticket_id) _ _ P λ _ _.
            bind-Ensures (queue_started _ body.contact_id) _ _ P λ _ _.
              bind-Ensures commit_and_notify _ _ P λ _ _.
                bind-Ensures (publish_started workspace actor body.ticket_id) _ _ P λ _ _.
                  pure-Ensures (outbound_call id workspace actor body at) _ P
                    (record { home = refl; provider = refl; named = refl })

any-In : {A : Type 0} (p : A → Bool) (a : A) (xs : List A) → In a xs → p a ≡ true → any p xs ≡ true
unfolding any
any-In p a [] i h = elim i [ ]
any-In p a (x ∷ xs) (inl e) h = rw (sym e, h) refl
any-In p a (x ∷ xs) (inr i) h = ground (arith, any-In p a xs i h)

stub-same :
    (workspace : Uuid) (actor : Actor) (body : CallCreate) (id : Uuid) (at : Time) (c : Call)
    → IsStubCall workspace actor body.to_number c
    → is_same_call (outbound_call id workspace actor body at) c ≡ true
stub-same workspace actor body id at c stub =
    rw
      (
        stub.home,
        stub.provider,
        stub.named,
        eq_refl workspace,
        eq_refl (click_to_call (blank_or actor.id) body.to_number),
      )
      refl

flush_call-taken :
    (call c : Call) (s : Session)
    → In c s.db.calls
    → is_same_call call c ≡ true
    → (flush_call call s).0 ≡ err integrity_error
unfolding flush_call insert_call ◌>>=◌
flush_call-taken call c s i same =
    let taken : any (is_same_call call) (s.db.calls ++ (s.rivals s.inserts).calls) ≡ true =
      rw
        (
          any-append (is_same_call call) s.db.calls (s.rivals s.inserts).calls,
          any-In (is_same_call call) c s.db.calls i same,
        )
        refl in
    rw taken refl

-- Whoever has called a number cannot call it again: while the first call is in the table, a second one
-- of the same actor to the same number, for whatever contact of the workspace and whatever ticket, fails
-- on the unique id of the provider, which the stub makes of the actor and the number alone.
pub start_call_again :
    (workspace : Uuid) (actor : Actor) (body again : CallCreate) (s t : Session) (call : Call)
    (contact : Contact)
    → (start_call workspace actor body s).0 ≡ ok call
    → In call t.db.calls
    → again.to_number ≡ body.to_number
    → contact_by again.contact_id t.db.contacts ≡ some contact
    → contact.workspace_id ≡ workspace
    → (start_call workspace actor again t).0 ≡ err integrity_error
unfolding start_call get_contact own_contact ◌>>=◌ uuid4 gets
start_call_again workspace actor body again s t call contact h i number found home =
    let stub : IsStubCall workspace actor again.to_number call =
      rw number (start_call-IsStubCall workspace actor body s call h) in
    let new = outbound_call (t.uuids t.drawn) workspace actor again t.db_now in
    let taken =
      flush_call-taken new call (record t { drawn = suc t.drawn }) i
        (stub-same workspace actor again (t.uuids t.drawn) t.db_now call stub) in
    rw (found, home, eq_refl workspace, taken) refl
