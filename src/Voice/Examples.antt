-- ===== src/Voice/Examples.antt =====
-- The theorems about callbacks at one call.
use phera.Common.{String, ◌⊎◌, true, none, some, [], ◌∷◌, Dict}
use phera.Json.{Json, str}
use phera.Models.{Call, Workspace, Connector, ChannelAccount, AgentPresence, empty_db}
use phera.Session.{Session, Result, new_session, ok}
use phera.Voice.Events.{exotel_call_event}
use phera.Voice.Guard.{Refuses, IsBound, IsCallback-IsBound, notes}
use phera.Voice.Noted.{Noted}

abbrev office : Workspace
office = record { id = "ws"; slug = "ws" }

abbrev line : ChannelAccount
line = record {
  id = "ch";
  workspace_id = "ws";
  kind = "voice";
  adapter_type = "exotel";
  address = "+4912";
  connector_id = some "con";
  routing_policy_id = none;
  is_active = true;
}

abbrev exotel : Connector
exotel = record {
  id = "con";
  workspace_id = "ws";
  type = "exotel";
  credentials = [];
  secrets_encrypted = some "sealed";
  is_active = true;
}

abbrev call : Call
call = record {
  id = "c1";
  workspace_id = "ws";
  contact_id = none;
  ticket_id = none;
  agent_user_id = some "u1";
  provider = "exotel";
  provider_call_id = some "sid";
  direction = "inbound";
  from_number = some "+4999";
  to_number = some "+4912";
  duration_seconds = none;
  recording_url = none;
  status = "routing";
  created_at = 0;
}

abbrev agent : AgentPresence
agent = record {
  user_id = "u1";
  status = "available";
  on_voice_call = true;
  last_assigned_at = none;
  updated_at = 0;
}

abbrev pub start : Session
start =
    new_session
      (record empty_db {
        workspaces = office ∷ [];
        channel_accounts = line ∷ [];
        connectors = exotel ∷ [];
        calls = call ∷ [];
        agent_presence = agent ∷ [];
      })
      (λ n. "u") (λ n. n)

abbrev pub unsealed : String → Result (Dict Json)
unsealed sealed = ok (("webhook_token", str "tok") ∷ [])

abbrev params : Dict String
params =
    ("CallSid", "sid")
    ∷ ("To", "+4912")
    ∷ ("CallStatus", "Completed")
    ∷ ("Duration", "42")
    ∷ ("RecordingUrl", "https://r")
    ∷ []

IsCallback-IsBound_example :
    Refuses (exotel_call_event unsealed params "tok") start ⊎ IsBound unsealed start.db params "tok"
IsCallback-IsBound_example =
    IsCallback-IsBound unsealed (λ a b. true) params "tok" (exotel_call_event unsealed params "tok")
      start notes
