-- ===== src/Routing/Examples.antt =====
-- The theorems about routing at two agents.
use phera.Common.{String, ◌≡◌, refl, Bool, true, false, none, some, List, [], ◌∷◌, where_}
use phera.Models.{AgentPresence, empty_db}
use phera.Session.{Session, new_session}
use phera.Routing.{least, select_available_agent}

abbrev order : String → String → Bool
order a b = true

abbrev busy : AgentPresence
busy = record {
  user_id = "u1";
  status = "available";
  on_voice_call = true;
  last_assigned_at = none;
  updated_at = 0;
}

abbrev free : AgentPresence
free = record {
  user_id = "u2";
  status = "available";
  on_voice_call = false;
  last_assigned_at = some 7;
  updated_at = 0;
}

abbrev agents : List AgentPresence
agents = busy ∷ free ∷ []

selects : select_available_agent order true agents ≡ some free
unfolding select_available_agent least where_
selects = refl

selects_none : select_available_agent order true (busy ∷ []) ≡ none
unfolding select_available_agent least where_
selects_none = refl

abbrev start : Session
start =
    new_session
      (record empty_db {
        agent_presence = agents;
        agent_identities =
            record { user_id = "u2"; workspace_id = "ws"; sip_user = "agent-7"; is_active = true }
            ∷ [];
      })
      (λ n. "u") (λ n. n)
