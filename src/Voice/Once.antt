-- ===== src/Voice/Once.antt =====
-- One row for each call of the provider's: what `_get_or_create_inbound_call` leaves.
use phera.Common.{
  ℕ, String, ◌≡◌, refl, ◌∙◌, ap, inl, inr, Bool, true, false, Option, none, some, List, [], ◌∷◌,
  ◌++◌, arith, ◌==◌, eq_iff, eq_refl, any, where_, update_rows, where_-append, where_-update_rows,
  where_-none, where_-one, update_rows-one, Bool-cases,
}
use phera.Models.{Uuid, Call}
use phera.Session.{Session, ok, ◌>>=◌, gets, scalar_one_or_none, write, uuid4, integrity_error}
use phera.Session.Ensures.{
  Ensures, bind-Ensures, still-Ensures, pure-Ensures, raise-Ensures, IsStill, still, gets-IsStill,
}
use phera.Voice.Calls.{
  is_exotel_call, is_same_call, change_call, insert_call, InboundCall, new_call, with_agent,
  find_call, raced_call, inserted_or_raced, create_call, existing_or_new,
  get_or_create_inbound_call,
}

-- The one row of the call.
abbrev pub IsOnly : Uuid → String → Call → Session → Type 0
IsOnly workspace sid call s = where_ (is_exotel_call workspace sid) s.db.calls ≡ call ∷ []

same-exotel :
    (id : Uuid) (c : InboundCall) (at : ℕ) (row : Call)
    → is_same_call (new_call id c at) row ≡ is_exotel_call c.workspace_id c.call_sid row
same-exotel id c at row = ground (
  arith,
  eq_iff c.workspace_id row.workspace_id,
  eq_iff row.workspace_id c.workspace_id,
  eq_iff "exotel" row.provider,
  eq_iff row.provider "exotel",
)

scalar-some :
    {A : Type 0} (rows : List A) (s : Session) (a : A)
    → (scalar_one_or_none rows s).0 ≡ ok (some a)
    → rows ≡ a ∷ []
unfolding scalar_one_or_none
scalar-some [] s a h = cc
scalar-some (b ∷ []) s a h = cc
scalar-some (b ∷ c ∷ rows) s a h = cc

pub find_call-IsOnly :
    (workspace : Uuid) (sid : String) (s : Session) (call : Call)
    → (find_call workspace sid s).0 ≡ ok (some call)
    → IsOnly workspace sid call s
unfolding ◌>>=◌ gets
find_call-IsOnly workspace sid s call h = scalar-some _ s call h

pub find_call-IsStill : (workspace : Uuid) (sid : String) → IsStill (find_call workspace sid)
find_call-IsStill workspace sid = search still

-- A write of an agent to a call does not change whose call it is.
with_agent-exotel :
    (workspace : Uuid) (sid agent : String) (call : Call)
    → is_exotel_call workspace sid (with_agent agent call) ≡ is_exotel_call workspace sid call
unfolding with_agent
with_agent-exotel workspace sid agent call = ground arith

-- A change that keeps whose call it is leaves one row of it.
pub change_call-IsOnly :
    (workspace : Uuid) (sid : String) (call : Call) (change : Call → Call) (s : Session)
    → ((row : Call) → is_exotel_call workspace sid (change row) ≡ is_exotel_call workspace sid row)
    → IsOnly workspace sid call s
    → IsOnly workspace sid (change call) (change_call call.id change s).1
unfolding change_call write
change_call-IsOnly workspace sid call change s h only =
    where_-update_rows (is_exotel_call workspace sid) (λ c. c.id == call.id) change s.db.calls h
    ∙ ap (update_rows (λ c. c.id == call.id) change) only
    ∙ update_rows-one (λ c. c.id == call.id) change call (eq_refl call.id)

new_call-exotel :
    (id : Uuid) (c : InboundCall) (at : ℕ)
    → is_exotel_call c.workspace_id c.call_sid (new_call id c at) ≡ true
new_call-exotel id c at =
    ground (arith, eq_refl c.workspace_id, eq_refl "exotel", eq_refl c.call_sid)

ok_false : ok false ≡ ok true → ⊥
ok_false h = cc

-- A row that no other row collides with is the only one of its call.
where_-last :
    (id : Uuid) (c : InboundCall) (at : ℕ) (rows : List Call)
    → any (is_same_call (new_call id c at)) rows ≡ false
    → where_ (is_exotel_call c.workspace_id c.call_sid) (rows ++ new_call id c at ∷ [])
      ≡ new_call id c at ∷ []
where_-last id c at rows free =
    let p = is_exotel_call c.workspace_id c.call_sid in
    where_-append p rows (new_call id c at ∷ [])
    ∙ ap (λ front. front ++ where_ p (new_call id c at ∷ []))
        (where_-none _ p rows (same-exotel id c at) free)
    ∙ where_-one p _ (new_call-exotel id c at)

insert_call-IsOnly :
    (id : Uuid) (c : InboundCall) (at : ℕ) (s : Session)
    → (insert_call (new_call id c at) s).0 ≡ ok true
    → IsOnly c.workspace_id c.call_sid (new_call id c at) (insert_call (new_call id c at) s).1
unfolding insert_call
insert_call-IsOnly id c at s h =
    let rows = s.db.calls ++ (s.rivals s.inserts).calls in
    elim (Bool-cases (any (is_same_call (new_call id c at)) rows)) [
      | inl taken ↦ elim (ok_false (rw taken at h)) [ ]
      | inr free ↦ rw free (where_-last id c at rows free)
    ]

-- The row of the session that came first.
raced_call-IsOnly :
    (c : InboundCall) (found : Option Call) (s : Session)
    → ((call : Call) → found ≡ some call → IsOnly c.workspace_id c.call_sid call s)
    → Ensures (raced_call found) s (IsOnly c.workspace_id c.call_sid)
unfolding raced_call
raced_call-IsOnly c none s h = raise-Ensures integrity_error s (IsOnly c.workspace_id c.call_sid)
raced_call-IsOnly c (some call) s h =
    pure-Ensures call s (IsOnly c.workspace_id c.call_sid) (h call refl)

inserted_or_raced-IsOnly :
    (id : Uuid) (c : InboundCall) (at : ℕ) (done : Bool) (s : Session)
    → (insert_call (new_call id c at) s).0 ≡ ok done
    → Ensures
        (inserted_or_raced c (new_call id c at) done)
        (insert_call (new_call id c at) s).1
        (IsOnly c.workspace_id c.call_sid)
unfolding inserted_or_raced
inserted_or_raced-IsOnly id c at true s q =
    pure-Ensures _ _ (IsOnly c.workspace_id c.call_sid) (insert_call-IsOnly id c at s q)
inserted_or_raced-IsOnly id c at false s q =
    let P = IsOnly c.workspace_id c.call_sid in
    still-Ensures (find_call c.workspace_id c.call_sid) _ _ P (find_call-IsStill _ _) λ found r.
      raced_call-IsOnly c found _
        λ call e. find_call-IsOnly c.workspace_id c.call_sid _ call (r ∙ ap ok e)

create_call-IsOnly :
    (c : InboundCall) (s : Session) → Ensures (create_call c) s (IsOnly c.workspace_id c.call_sid)
unfolding create_call
create_call-IsOnly c s =
    let P = IsOnly c.workspace_id c.call_sid in
    bind-Ensures uuid4 _ s P λ id _.
      still-Ensures (gets (λ s. s.db_now)) _ _ P (gets-IsStill _) λ at _.
        bind-Ensures (insert_call (new_call id c at)) _ _ P
          λ done q. inserted_or_raced-IsOnly id c at done _ q

existing_or_new-IsOnly :
    (c : InboundCall) (existing : Option Call) (s : Session)
    → (find_call c.workspace_id c.call_sid s).0 ≡ ok existing
    → Ensures (existing_or_new c existing) s (IsOnly c.workspace_id c.call_sid)
unfolding existing_or_new
existing_or_new-IsOnly c none s q = create_call-IsOnly c s
existing_or_new-IsOnly c (some call) s q =
    let P = IsOnly c.workspace_id c.call_sid in
    bind-Ensures (change_call call.id (with_agent c.agent_user_id)) _ s P λ _ _.
      pure-Ensures _ _ P (
        change_call-IsOnly c.workspace_id c.call_sid call (with_agent c.agent_user_id) s
          (with_agent-exotel c.workspace_id c.call_sid c.agent_user_id)
          (find_call-IsOnly c.workspace_id c.call_sid s call q))

-- When `get_or_create_inbound_call` answers, whether the call was there, is new, or was inserted by
-- another session in between, the call it answers is the only row of the workspace with the provider's
-- id.
pub get_or_create-IsOnly :
    (c : InboundCall) (s : Session)
    → Ensures (get_or_create_inbound_call c) s (IsOnly c.workspace_id c.call_sid)
unfolding get_or_create_inbound_call
get_or_create-IsOnly c s =
    still-Ensures (find_call c.workspace_id c.call_sid) _ s (IsOnly c.workspace_id c.call_sid)
      (find_call-IsStill _ _) λ existing q. existing_or_new-IsOnly c existing s q
