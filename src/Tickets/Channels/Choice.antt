-- ===== src/Tickets/Channels/Choice.antt =====
-- A message is never put on a channel by a guess.
use phera.Common.{
  String, ◌≡◌, refl, inl, inr, true, Option, none, some, List, [], ◌∷◌, arith, ◌==◌, where_, In,
  where_-In, Bool-cases, Option-cases,
}
use phera.Models.{Uuid, ChannelAccount, Db}
use phera.Tickets.Channels.{
  address_matches, only, first_match, pick_channel_account, is_candidate, resolve_channel_account,
}

-- Why an account was picked: its address fits the hint, or it is the only candidate.
pub data Picked (accounts : List ChannelAccount) (hint : Option String) (a : ChannelAccount)
    : Type 0 where
  by_address :
      (h : String)
      → hint ≡ some h
      → address_matches a h ≡ true
      → In a accounts
      → Picked accounts hint a
  alone : accounts ≡ a ∷ [] → Picked accounts hint a

first_match_sound :
    (h : String) (accounts : List ChannelAccount) (a : ChannelAccount)
    → first_match h accounts ≡ some a
    → (address_matches a h ≡ true) × In a accounts
unfolding first_match
first_match_sound h [] a e = ground arith
first_match_sound h (b ∷ rest) a e = ground (arith, first_match_sound h rest a)

only_sound :
    (accounts : List ChannelAccount) (a : ChannelAccount)
    → only accounts ≡ some a
    → accounts ≡ a ∷ []
only_sound [] a e = ground arith
only_sound (b ∷ []) a e = ground arith
only_sound (b ∷ c ∷ rest) a e = ground arith

pick-Picked :
    (accounts : List ChannelAccount) (hint : Option String) (a : ChannelAccount)
    → pick_channel_account accounts hint ≡ some a
    → Picked accounts hint a
unfolding pick_channel_account
pick-Picked accounts none a e = alone (only_sound accounts a e)
pick-Picked accounts (some h) a e = elim (Option-cases (first_match h accounts)) [
  | inl missed ↦ alone (only_sound accounts a (ground arith))
  | inr (b, found) ↦ elim (Bool-cases (h == "")) [
    | inl blank ↦ alone (only_sound accounts a (ground arith))
    | inr given ↦
        let (fits, i) = first_match_sound h accounts a (ground arith) in by_address h refl fits i
  ]
]

-- A channel account that is resolved for a workspace is an active row of that workspace, kind and
-- adapter, and either its address fits the hint or no other account is a candidate.
pub resolve_channel_account-Picked :
    (db : Db) (workspace : Uuid) (kind adapter : String) (hint : Option String) (a : ChannelAccount)
    → resolve_channel_account db workspace kind adapter hint ≡ some a
    → In a db.channel_accounts
      × (is_candidate workspace kind adapter a ≡ true)
      × Picked (where_ (is_candidate workspace kind adapter) db.channel_accounts) hint a
unfolding resolve_channel_account
resolve_channel_account-Picked db workspace kind adapter hint a e =
    let rows = where_ (is_candidate workspace kind adapter) db.channel_accounts in
    let why = pick-Picked rows hint a e in
    let found =
      where_-In (is_candidate workspace kind adapter) a db.channel_accounts
        (stands rows hint a why) in
    (found.0, found.1, why)
  where
    stands :
        (rows : List ChannelAccount) (hint : Option String) (a : ChannelAccount)
        → Picked rows hint a
        → In a rows
    stands rows hint a (by_address h p fits i) = i
    stands rows hint a (alone p) = rw p (inl refl)

-- Where two or more accounts are candidates and none fits the hint, nothing is resolved.
pub resolve_ambiguous :
    (accounts : List ChannelAccount) (a b : ChannelAccount) (rest : List ChannelAccount)
    → accounts ≡ a ∷ b ∷ rest
    → (hint : Option String) → ((h : String) → hint ≡ some h → first_match h accounts ≡ none)
    → pick_channel_account accounts hint ≡ none
unfolding pick_channel_account
resolve_ambiguous accounts a b rest e none unmatched = rw e
resolve_ambiguous accounts a b rest e (some h) unmatched = ground (arith, unmatched h refl)
