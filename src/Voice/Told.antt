-- ===== src/Voice/Told.antt =====
-- The presence of an agent whose call starts or ends, by `exotel_call_event` of
-- src/phera/api/routes/voice_hooks.py.
use phera.Common.{
  String, ◌≡◌, refl, inl, inr, ◌⊎◌, ◌≢◌, Bool, true, Option, none, some, List, [], ◌∷◌, arith, ◌==◌,
  ◌&&◌, ◌||◌, eq_iff, truthy, update_rows, All, Bool-cases,
}
use phera.Models.{AgentPresence}
use phera.Session.{M, Session, when, pure, write}
use phera.Session.Keeps.{Keeps, keeps, write-Keeps}
use phera.Voice.Ended.{KeysUnique}
use phera.Voice.Events.{set_on_voice_call}

-- Every presence of the user says whether there is a call.
abbrev pub Busy : String → Bool → List AgentPresence → Type 0
Busy user busy rows = All (λ a. a.user_id ≡ user → a.on_voice_call ≡ busy) rows

set-Busy :
    (user : String) (busy : Bool) (rows : List AgentPresence)
    → Busy user busy
        (update_rows (λ a. a.user_id == user) (λ a. record a { on_voice_call = busy }) rows)
unfolding update_rows
set-Busy user busy [] = tt
set-Busy user busy (a ∷ rows) = (ground (arith, eq_iff a.user_id user), set-Busy user busy rows)

-- The presence is told, where the agent and the event say so.
abbrev pub tell : Option String → String → M Unit
tell agent event =
    when (truthy agent && (event == "call.answered" || event == "call.ended"))
      (set_on_voice_call agent (event == "call.answered"))

set-KeysUnique :
    (agent : Option String) (busy : Bool) (s : Session)
    → KeysUnique s
    → KeysUnique (set_on_voice_call agent busy s).1
unfolding set_on_voice_call pure write
set-KeysUnique none busy s u = u
set-KeysUnique (some user) busy s u = u

pub tell-KeysUnique :
    (agent : Option String) (event : String) (s : Session)
    → KeysUnique s
    → KeysUnique (tell agent event s).1
unfolding pure
tell-KeysUnique agent event s u =
    elim (Bool-cases (truthy agent && (event == "call.answered" || event == "call.ended"))) [
      | inl q ↦ rw q (set-KeysUnique agent (event == "call.answered") s u)
      | inr q ↦ rw q u
    ]

set-calls :
    (agent : Option String) (busy : Bool) → Keeps (λ db. db.calls) (set_on_voice_call agent busy)
unfolding set_on_voice_call
set-calls none busy = search keeps
set-calls (some user) busy = write-Keeps _ _ (λ db. refl)

pub tell-calls :
    (agent : Option String) (event : String) → Keeps (λ db. db.calls) (tell agent event)
tell-calls agent event = search (keeps, set-calls) depth 8

-- Whom the callback makes busy or free.
abbrev pub IsTold : String → Type 0
IsTold event = (event ≡ "call.answered") ⊎ (event ≡ "call.ended")

tells :
    (user event : String)
    → user ≢ ""
    → IsTold event
    → (truthy (some user) && (event == "call.answered" || event == "call.ended")) ≡ true
tells user event given told =
    ground (arith, eq_iff user "", eq_iff event "call.answered", eq_iff event "call.ended")

pub tell-Busy :
    (user event : String) (s : Session)
    → user ≢ ""
    → IsTold event
    → Busy user (event == "call.answered") (tell (some user) event s).1.db.agent_presence
unfolding set_on_voice_call write
tell-Busy user event s given told =
    rw (tells user event given told) (set-Busy user (event == "call.answered") s.db.agent_presence)
