-- ===== src/Tickets/Channels/Examples.antt =====
-- The theorems about channels at two mailboxes of one workspace.
use phera.Common.{
  String, ◌≡◌, refl, true, none, some, [], ◌∷◌, In, where_, lower, keep, contains, strip,
}
use phera.Models.{ChannelAccount, Db, empty_db}
use phera.Tickets.Channels.{
  first_match, pick_channel_account, resolve_channel_account, is_candidate, address_matches,
  normalize_channel_address,
}
use phera.Tickets.Channels.Choice.{Picked, resolve_channel_account-Picked}

abbrev pub mailbox : String → String → ChannelAccount
mailbox ident address = record {
  id = ident;
  workspace_id = "ws";
  kind = "email";
  adapter_type = "imap_smtp";
  address = address;
  connector_id = none;
  routing_policy_id = none;
  is_active = true;
}

abbrev pub sales : ChannelAccount
sales = mailbox "ch1" "sales@x.io"

abbrev pub help : ChannelAccount
help = mailbox "ch2" "help@x.io"

abbrev db : Db
db = record empty_db { channel_accounts = sales ∷ help ∷ [] }

by_hint : resolve_channel_account db "ws" "email" "imap_smtp" (some "Help@x.io") ≡ some help
unfolding resolve_channel_account pick_channel_account first_match address_matches where_ lower keep
    contains strip
by_hint = refl

normalizes : normalize_channel_address " +91 (80) 12-34 " ≡ "+91801234"
unfolding normalize_channel_address strip keep
normalizes = refl

resolve_channel_account-Picked_example :
    In help db.channel_accounts
    × (is_candidate "ws" "email" "imap_smtp" help ≡ true)
    × Picked
        (where_ (is_candidate "ws" "email" "imap_smtp") db.channel_accounts)
        (some "Help@x.io")
        help
resolve_channel_account-Picked_example =
    resolve_channel_account-Picked db "ws" "email" "imap_smtp" (some "Help@x.io") help by_hint
