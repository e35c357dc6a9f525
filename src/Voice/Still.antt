-- ===== src/Voice/Still.antt =====
-- The check of a callback's token in src/phera/api/routes/voice_hooks.py only reads.
use phera.Common.{String, Option, none, some, Dict}
use phera.Json.{Json}
use phera.Models.{Uuid, Connector, ChannelAccount, Workspace}
use phera.Session.{Error, Result, ok, err}
use phera.Session.Ensures.{IsStill, still}
use phera.Voice.Params.{
  require, token_of, connector_token, bound_token, found_workspace, channel_workspace,
  verify_bound_token, resolve_verified_exotel_channel,
}

pub require-IsStill : (v : Option String) (e : Error) → IsStill (require v e)
unfolding require
require-IsStill none e = search still
require-IsStill (some t) e = search still

token_of-IsStill : (r : Result (Dict Json)) → IsStill (token_of r)
unfolding token_of
token_of-IsStill (ok secrets) = search still
token_of-IsStill (err e) = search still

found_workspace-IsStill :
    (ch : ChannelAccount) (found : Option Workspace) → IsStill (found_workspace ch found)
unfolding found_workspace
found_workspace-IsStill ch none = search still
found_workspace-IsStill ch (some w) = search still

channel_workspace-IsStill : (channel : Option ChannelAccount) → IsStill (channel_workspace channel)
unfolding channel_workspace
channel_workspace-IsStill none = search still
channel_workspace-IsStill (some ch) = search (still, found_workspace-IsStill) depth 8

module _ (decrypt : String → Result (Dict Json)) where
  connector_token-IsStill : (found : Option Connector) → IsStill (connector_token decrypt found)
  unfolding connector_token
  connector_token-IsStill none = search still
  connector_token-IsStill (some c) = search (still, token_of-IsStill) depth 8

  bound_token-IsStill : (id : Option Uuid) → IsStill (bound_token decrypt id)
  unfolding bound_token
  bound_token-IsStill none = search still
  bound_token-IsStill (some id) = search (still, connector_token-IsStill) depth 8

  pub resolve_verified-IsStill :
      (token to_number : String) → IsStill (resolve_verified_exotel_channel decrypt token to_number)
  unfolding resolve_verified_exotel_channel verify_bound_token
  resolve_verified-IsStill token to_number =
      search (still, bound_token-IsStill, channel_workspace-IsStill) depth 12
