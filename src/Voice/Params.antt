-- ===== src/Voice/Params.antt =====
-- `_first`, `_verify_bound_token`, `_resolve_verified_exotel_channel` and `_lifecycle_event_type` of
-- src/phera/api/routes/voice_hooks.py: who calls back, and about what.
use Prim.Native.Char.{code}
use phera.Common.{
  String, Bool, true, false, not, ◌&&◌, Option, none, some, List, [], ◌∷◌, ◌==◌, if◌then◌else◌,
  truthy, elem, strip, lower, ltb, first, where_, get, Dict,
}
use phera.Json.{Json, str}
use phera.Models.{Uuid, Workspace, Connector, ChannelAccount}
use phera.Session.{M, Result, Error, ok, err, pure, raise, gets, ◌>>=◌, ◌>>◌, http}
use phera.Api.Providers.{connector_by}
use phera.Tickets.Channels.{resolve_channel_account_global}
use phera.Tickets.Joining.{blank_or}

-- The first value that is there and not blank.
unfoldable pub first_of : List (Option String) → Option String
first_of [] = none
first_of (v ∷ vs) = let rest = first_of vs in if truthy v then v else rest

-- `raise HTTPException` where a value is missing.
unfoldable pub require : Option String → Error → M String
require none e = raise e
require (some v) e = pure v

-- `secrets.compare_digest` of two texts refuses what is not ASCII.
unfoldable pub is_ascii : String → Bool
is_ascii String.[] = true
is_ascii (String.◌∷◌ c s) = ltb (code c) 128 && is_ascii s

-- A stored token that is no text is false or refused too.
unfoldable pub token_ok : String → Option Json → Bool
unfolding is_ascii
token_ok token (some (str bound)) =
    not (bound == "") && (is_ascii token && (is_ascii bound && token == bound))
token_ok token _ = false

abbrev pub workspace_by : Uuid → List Workspace → Option Workspace
workspace_by id rows = first (where_ (λ w. w.id == id) rows)

abbrev pub connector_of : Option ChannelAccount → Option Uuid
connector_of none = none
connector_of (some ch) = ch.connector_id

unfoldable pub found_workspace : ChannelAccount → Option Workspace → M (Workspace × ChannelAccount)
found_workspace ch none = raise (http 401 "Invalid webhook token")
found_workspace ch (some w) = pure (w, ch)

unfoldable pub channel_workspace : Option ChannelAccount → M (Workspace × ChannelAccount)
channel_workspace none = raise (http 401 "Invalid webhook token")
channel_workspace (some ch) = do
  workspace ← gets (λ s. workspace_by ch.workspace_id s.db.workspaces)
  found_workspace ch workspace

unfoldable pub token_of : Result (Dict Json) → M (Option Json)
token_of (ok secrets) = pure (get "webhook_token" secrets)
token_of (err e) = raise e

-- `decrypt_secrets` of src/phera/security/crypto.py stands on Fernet: its answer or its exception.
module _ (decrypt_secrets : String → Result (Dict Json)) where
  unfoldable pub connector_token : Option Connector → M (Option Json)
  connector_token none = pure none
  connector_token (some c) =
      if truthy c.secrets_encrypted
      then token_of (decrypt_secrets (blank_or c.secrets_encrypted))
      else pure none

  unfoldable pub bound_token : Option Uuid → M (Option Json)
  bound_token none = pure none
  bound_token (some id) = do
    connector ← gets (λ s. connector_by id s.db.connectors)
    connector_token connector

  unfoldable pub verify_bound_token : Option Uuid → String → M Unit
  verify_bound_token connector_id token = do
    bound ← bound_token connector_id
    if token_ok token bound then pure tt else raise (http 401 "Invalid webhook token")

  unfoldable pub resolve_verified_exotel_channel : String → String → M (Workspace × ChannelAccount)
  resolve_verified_exotel_channel token to_number = do
    channel ← gets (λ s. resolve_channel_account_global s.db "voice" "exotel" to_number)
    verify_bound_token (connector_of channel) token
    channel_workspace channel

abbrev pub answered_statuses : List String
answered_statuses = "in-progress" ∷ "in_progress" ∷ "answered" ∷ []

abbrev pub ended_statuses : List String
ended_statuses =
    "completed" ∷ "busy" ∷ "no-answer" ∷ "no_answer" ∷ "failed" ∷ "canceled" ∷ "cancelled" ∷ []

abbrev pub ringing_statuses : List String
ringing_statuses = "ringing" ∷ "queued" ∷ "initiated" ∷ []

unfoldable pub lifecycle_event_type : Option String → String
lifecycle_event_type call_status =
    let status = lower (strip (blank_or call_status)) in
    if elem status answered_statuses
    then "call.answered"
    else if elem status ended_statuses
    then "call.ended"
    else if elem status ringing_statuses
    then "call.ringing"
    else "call.updated"
