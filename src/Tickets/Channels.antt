-- ===== src/Tickets/Channels.antt =====
-- `normalize_channel_address`, `_address_matches`, `resolve_channel_account`,
-- `resolve_channel_account_global` and `_pick_channel_account` of
-- src/phera/modules/tickets/inbound.py: the mailbox or number that a message came in by.
pub mod Choice
pub mod Examples
use phera.Common.{
  String, Bool, true, false, not, ◌&&◌, ◌||◌, Option, none, some, List, [], ◌∷◌, ◌==◌,
  if◌then◌else◌, eqb, is_digit, keep, strip, lower, contains, where_,
}
use phera.Models.{Uuid, ChannelAccount, Db}

-- `re.sub(r"[^\d+]", "", value.strip())`
unfoldable pub normalize_channel_address : String → String
unfolding is_digit
normalize_channel_address value = keep (λ c. is_digit c || eqb c b'+') (strip value)

-- `t.lower().replace(" ", "")`
squeeze : String → String
squeeze t = keep (λ c. not (eqb c b' ')) (lower t)

unfoldable pub address_matches : ChannelAccount → String → Bool
unfolding squeeze normalize_channel_address
address_matches account address_hint =
    let hint = squeeze address_hint in
    let phone_hint = lower (normalize_channel_address address_hint) in
    let phone_stored = lower (normalize_channel_address account.address) in
    if account.address == ""
    then false
    else if not (hint == "") && contains hint (squeeze account.address)
    then true
    else not (phone_hint == "") && contains phone_hint phone_stored

-- `accounts[0] if len(accounts) == 1`
abbrev pub only : List ChannelAccount → Option ChannelAccount
only [] = none
only (a ∷ []) = some a
only (a ∷ b ∷ rest) = none

-- The first account whose address fits the hint.
unfoldable pub first_match : String → List ChannelAccount → Option ChannelAccount
first_match hint [] = none
first_match hint (a ∷ rest) =
    let later = first_match hint rest in if address_matches a hint then some a else later

unfoldable pub pick_channel_account : List ChannelAccount → Option String → Option ChannelAccount
pick_channel_account accounts none = only accounts
pick_channel_account accounts (some hint) =
    if hint == ""
    then only accounts
    else elim (first_match hint accounts) [ some a ↦ some a | none ↦ only accounts ]

abbrev pub is_candidate : Uuid → String → String → ChannelAccount → Bool
is_candidate workspace kind adapter_type a =
    a.workspace_id == workspace
    && (a.kind == kind && (a.adapter_type == adapter_type && a.is_active))

unfoldable pub resolve_channel_account :
    Db → Uuid → String → String → Option String → Option ChannelAccount
resolve_channel_account db workspace kind adapter_type address_hint =
    pick_channel_account (where_ (is_candidate workspace kind adapter_type) db.channel_accounts)
      address_hint

unfoldable pub resolve_channel_account_global :
    Db → String → String → String → Option ChannelAccount
resolve_channel_account_global db kind adapter_type address_hint = only (
    where_ (λ a. address_matches a address_hint)
      (where_ (λ a. a.kind == kind && (a.adapter_type == adapter_type && a.is_active))
        db.channel_accounts))
