-- ===== src/Voice/Rung.antt =====
-- What `exotel_route_call` of src/phera/api/routes/voice_hooks.py leaves when it answers.
use phera.Common.{
  String, ◌≡◌, refl, sym, ◌∙◌, ap, inl, inr, ◌⊎◌, Bool, true, false, not, ◌||◌, Option, none, some,
  List, [], ◌∷◌, ◌++◌, arith, ◌==◌, eq_iff, any, In, Dict, Bool-cases, where_, first,
  some-injective,
}
use phera.Json.{Json}
use phera.Models.{
  Uuid, Workspace, ChannelAccount, Call, Contact, Ticket, AgentTelephonyIdentity, Db,
}
use phera.Session.{Session, Result, ◌>>=◌, pure, gets, publish_inbox_event}
use phera.Session.Ensures.{Ensures, bind-Ensures, pure-Ensures, commit-Ensures}
use phera.Session.Keeps.{Keeps, keeps, write-Keeps}
use phera.Voice.Params.{require, resolve_verified_exotel_channel}
use phera.Voice.Guard.{required}
use phera.Voice.Calls.{
  is_exotel_call, is_same_call, change_call, insert_call, InboundCall, raced_call,
  inserted_or_raced, existing_or_new, create_call, get_or_create_inbound_call,
}
use phera.Voice.Once.{get_or_create-IsOnly}
use phera.Tickets.Inbound.{resolve_call_ticket}
use phera.Voice.Events.{sid_of, from_of, to_of}
use phera.Voice.Routes.{
  answer_nobody, ring, ring_identity, ring_target, route_call, exotel_route_call, inbound_call,
  assign_target,
}

-- A SIP user is answered for a reason.
pub record Rung (workspace : Uuid) (sid sip : String) (after : Session) : Type 0 where
  pub call : Call
  pub identity : AgentTelephonyIdentity
  pub only : where_ (is_exotel_call workspace sid) after.durable.calls ≡ call ∷ []
  pub stands : In identity after.durable.agent_identities
  pub active : identity.is_active ≡ true
  pub home : identity.workspace_id ≡ workspace
  pub answers : sip ≡ identity.sip_user

-- Nobody is rung, or somebody for a reason.
abbrev IsAnswer : Uuid → String → String → Session → Type 0
IsAnswer workspace sid sip after = (sip ≡ "") ⊎ Rung workspace sid sip after

module _ (part : Db → List AgentTelephonyIdentity)
    (h : (db : Db) (calls : List Call) → part (record db { calls = calls }) ≡ part db) where
  insert_call-Keeps : (call : Call) → Keeps part (insert_call call)
  unfolding insert_call
  insert_call-Keeps call s =
      let rows = s.db.calls ++ (s.rivals s.inserts).calls in
      elim (Bool-cases (any (is_same_call call) rows)) [
        | inl taken ↦ rw taken (h s.db rows)
        | inr free ↦ rw free (h s.db (rows ++ call ∷ []))
      ]

  change_call-Keeps : (id : Uuid) (f : Call → Call) → Keeps part (change_call id f)
  unfolding change_call
  change_call-Keeps id f = write-Keeps part _ (λ db. h db _)

  raced_call-Keeps : (found : Option Call) → Keeps part (raced_call found)
  unfolding raced_call
  raced_call-Keeps none = search keeps
  raced_call-Keeps (some c) = search keeps

  inserted_or_raced-Keeps :
      (c : InboundCall) (call : Call) (done : Bool) → Keeps part (inserted_or_raced c call done)
  unfolding inserted_or_raced
  inserted_or_raced-Keeps c call true = search keeps
  inserted_or_raced-Keeps c call false = search (keeps, raced_call-Keeps) depth 8

  create_call-Keeps : (c : InboundCall) → Keeps part (create_call c)
  unfolding create_call
  create_call-Keeps c = search (keeps, insert_call-Keeps, inserted_or_raced-Keeps) depth 12

  existing_or_new-Keeps :
      (c : InboundCall) (existing : Option Call) → Keeps part (existing_or_new c existing)
  unfolding existing_or_new
  existing_or_new-Keeps c none = create_call-Keeps c
  existing_or_new-Keeps c (some call) = search (keeps, change_call-Keeps) depth 8

  get_or_create-Keeps : (c : InboundCall) → Keeps part (get_or_create_inbound_call c)
  unfolding get_or_create_inbound_call
  get_or_create-Keeps c = search (keeps, existing_or_new-Keeps) depth 12

nobody-IsAnswer :
    (workspace : Uuid) (sid : String) (s : Session)
    → Ensures answer_nobody s (IsAnswer workspace sid)
unfolding answer_nobody
nobody-IsAnswer workspace sid s =
    commit-Ensures (pure "") s (IsAnswer workspace sid)
      λ t d c. pure-Ensures "" t (IsAnswer workspace sid) (inl refl)

ring-IsAnswer :
    (c : InboundCall) (contact : Contact) (ticket : Ticket) (created : Bool)
    (i : AgentTelephonyIdentity) (s : Session)
    → In i s.db.agent_identities
    → i.is_active ≡ true
    → i.workspace_id ≡ c.workspace_id
    → Ensures (ring c contact ticket created i) s (IsAnswer c.workspace_id c.call_sid)
unfolding ring publish_inbox_event
ring-IsAnswer c contact ticket created i s stands active home =
    let P = IsAnswer c.workspace_id c.call_sid in
    bind-Ensures (get_or_create_inbound_call c) _ s P λ call q. commit-Ensures _ _ P λ t d e.
      bind-Ensures _ (λ _. pure i.sip_user) t P
        λ _ _. pure-Ensures i.sip_user _ P (
          inr (record {
            call = call;
            identity = i;
            only =
                ap (λ (db : Db). where_ (is_exotel_call c.workspace_id c.call_sid) db.calls) e
                ∙ get_or_create-IsOnly c s call q;
            stands =
                rw (e, get_or_create-Keeps (λ db. db.agent_identities) (λ db calls. refl) c s)
                  stands;
            active = active;
            home = home;
            answers = refl;
          }))

identity-IsAnswer :
    (c : InboundCall) (contact : Contact) (ticket : Ticket) (created : Bool)
    (found : Option AgentTelephonyIdentity) (s : Session)
    → ((i : AgentTelephonyIdentity) → found ≡ some i → In i s.db.agent_identities)
    → Ensures (ring_identity c contact ticket created found) s (IsAnswer c.workspace_id c.call_sid)
unfolding ring_identity
identity-IsAnswer c contact ticket created none s h = nobody-IsAnswer c.workspace_id c.call_sid s
identity-IsAnswer c contact ticket created (some i) s h =
    elim (Bool-cases (not i.is_active || not (i.workspace_id == c.workspace_id))) [
      | inl idle ↦ rw idle (nobody-IsAnswer c.workspace_id c.call_sid s)
      | inr able ↦ rw able (
          ring-IsAnswer c contact ticket created i s (h i refl) (ground (arith, able))
            (ground (arith, able, eq_iff i.workspace_id c.workspace_id)))
    ]

first-In :
    {A : Type 0} (p : A → Bool) (a : A) (xs : List A) → first (where_ p xs) ≡ some a → In a xs
unfolding where_
first-In p a [] h = absurd cc
first-In p a (x ∷ xs) h = elim (Bool-cases (p x)) [
  | inl q ↦ inl (sym (some-injective (rw q at h)))
  | inr q ↦ inr (first-In p a xs (rw q at h))
]

target-IsAnswer :
    (workspace : Uuid) (contact : Contact) (ticket : Ticket) (created : Bool)
    (sid from_number to_number : String) (target : Option String) (s : Session)
    → Ensures
        (ring_target workspace contact ticket created sid from_number to_number target)
        s
        (IsAnswer workspace sid)
unfolding ring_target gets ◌>>=◌
target-IsAnswer workspace contact ticket created sid from_number to_number none s =
    nobody-IsAnswer workspace sid s
target-IsAnswer workspace contact ticket created sid from_number to_number (some user) s =
    elim (Bool-cases (user == "")) [
      | inl blank ↦ rw blank (nobody-IsAnswer workspace sid s)
      | inr given ↦ rw given (
          identity-IsAnswer (inbound_call workspace contact ticket user sid from_number to_number)
            contact ticket created _ s (λ i. first-In _ i s.db.agent_identities))
    ]

route_call-IsAnswer :
    (le : String → String → Bool) (workspace : Workspace) (channel : ChannelAccount)
    (sid from_number to_number : String) (s : Session)
    → Ensures
        (route_call le workspace channel sid from_number to_number)
        s
        (IsAnswer workspace.id sid)
unfolding route_call
route_call-IsAnswer le workspace channel sid from_number to_number s =
    let P = IsAnswer workspace.id sid in
    bind-Ensures (resolve_call_ticket workspace.id "exotel" from_number (some to_number)) _ s P
      λ (_, contact, ticket, created) _.
        bind-Ensures (assign_target le workspace.id channel ticket) _ _ P λ ticket _.
          target-IsAnswer workspace.id contact ticket created sid from_number to_number
            ticket.assignee_user_id _

-- Why the route webhook names a SIP user, for the call whose id the provider gave.
pub record IsRinging (params : Dict String) (sip : String) (after : Session) : Type 0 where
  pub workspace : Uuid
  pub sid : String
  pub named : sid_of params ≡ some sid
  pub rung : Rung workspace sid sip after

-- The route webhook answers nobody, or a SIP user who is that of an active telephony identity of the
-- workspace as committed; and then the calls as committed have exactly one row of the workspace with the
-- provider's id, however often the provider asks and whatever other sessions insert meanwhile.
pub exotel_route_call-IsRinging :
    (decrypt : String → Result (Dict Json)) (le : String → String → Bool) (params : Dict String)
    (token : String) (s : Session)
    → Ensures
        (exotel_route_call decrypt le params token)
        s
        (λ sip after. (sip ≡ "") ⊎ IsRinging params sip after)
unfolding exotel_route_call
exotel_route_call-IsRinging decrypt le params token s =
    let P : String → Session → Type 0 = λ sip after. (sip ≡ "") ⊎ IsRinging params sip after in
    bind-Ensures (require (from_of params) _) _ s P λ from_number _.
      bind-Ensures (require (to_of params) _) _ _ P λ to_number _.
        bind-Ensures (require (sid_of params) _) _ _ P λ sid q.
          bind-Ensures (resolve_verified_exotel_channel decrypt token to_number) _ _ P
            λ (workspace, channel) _. λ sip r.
              elim (route_call-IsAnswer le workspace channel sid from_number to_number _ sip r) [
                | inl nobody ↦ inl nobody
                | inr rung ↦ inr (record {
                  workspace = workspace.id;
                  sid = sid;
                  named = required (sid_of params) _ _ sid q;
                  rung = rung;
                })
              ]
