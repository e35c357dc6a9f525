-- ===== src/Voice/Guard.antt =====
-- A callback of src/phera/api/routes/voice_hooks.py does nothing without the token of its number.
use phera.Common.{
  String, ◌≡◌, refl, sym, ap, ◌∙◌, Bool, ◌⊎◌, inl, inr, ◌≢◌, Bool-cases, Option-cases, Option, none,
  some, arith, eq_iff, Dict, get, ◌==◌, true,
}
use phera.Json.{Json, null, bool, int, float, str, arr, obj}
use phera.Models.{Uuid, Connector, ChannelAccount, Db}
use phera.Session.{M, Session, Result, Error, ok, err, http, Result-cases, ◌>>=◌}
use phera.Tickets.Channels.{resolve_channel_account_global}
use phera.Api.Providers.{connector_by}
use phera.Voice.Params.{
  require, token_ok, token_of, connector_token, bound_token, verify_bound_token,
  resolve_verified_exotel_channel,
}
use phera.Voice.Events.{to_of, sid_of, from_of, exotel_call_event}
use phera.Voice.Routes.{exotel_route_call}

-- The token is the one that the channel's connector keeps.
pub record IsBoundTo (decrypt : String → Result (Dict Json)) (db : Db) (id : Option Uuid)
    (token : String) : Type 0 where
  pub connector : Connector
  pub sealed : String
  pub secrets : Dict Json
  pub linked : (i : Uuid) × (id ≡ some i) × (connector_by i db.connectors ≡ some connector)
  pub keeps : connector.secrets_encrypted ≡ some sealed
  pub decrypts : decrypt sealed ≡ ok secrets
  pub bound : get "webhook_token" secrets ≡ some (str token)
  pub given : token ≢ ""

-- Of the callback's number, and of the one active channel of the provider's that fits it.
pub record IsBound (decrypt : String → Result (Dict Json)) (db : Db) (params : Dict String)
    (token : String) : Type 0 where
  pub to_number : String
  pub channel : ChannelAccount
  pub to : to_of params ≡ some to_number
  pub found : resolve_channel_account_global db "voice" "exotel" to_number ≡ some channel
  pub bound : IsBoundTo decrypt db channel.connector_id token

-- The action fails, and not even its own session sees anything of it.
abbrev pub Refuses : {A : Type 0} → M A → Session → Type 0
Refuses m s = (e : Error) × (m s ≡ (err e, s))

token_ok_sound :
    (token : String) (bound : Option Json)
    → token_ok token bound ≡ true
    → (bound ≡ some (str token)) × (token ≢ "")
unfolding token_ok
token_ok_sound token none h = ground arith
token_ok_sound token (some null) h = ground arith
token_ok_sound token (some (bool b)) h = ground arith
token_ok_sound token (some (int n)) h = ground arith
token_ok_sound token (some (float n w f)) h = ground arith
token_ok_sound token (some (str b)) h = ground (arith, eq_iff token b, eq_iff b "")
token_ok_sound token (some (arr js)) h = ground arith
token_ok_sound token (some (obj fs)) h = ground arith

none≢some : {A : Type 0} {a : A} → none ≡ some a → ⊥
none≢some h = cc

-- The action answers, and changes nothing.
abbrev Answers : {A : Type 0} → M A → Session → A → Type 0
Answers m s a = m s ≡ (ok a, s)

module _ {A B Q : Type 0} (m : M A) (f : A → M B) (s : Session) where
  -- What follows a guard happens only where the guard lets it.
  guarded : Refuses m s ⊎ Q → Refuses (m >>= f) s ⊎ Q
  unfolding ◌>>=◌
  guarded (inl (e, q)) = inl (e, rw q refl)
  guarded (inr g) = inr g

  answered :
      Refuses m s ⊎ ((a : A) × Answers m s a)
      → ((a : A) → Answers m s a → Refuses (f a) s ⊎ Q)
      → Refuses (m >>= f) s ⊎ Q
  unfolding ◌>>=◌
  answered (inl (e, q)) k = inl (e, rw q refl)
  answered (inr (a, q)) k = elim (k a q) [ inl (e, r) ↦ inl (e, rw q r) | inr g ↦ inr g ]

require-cases :
    (v : Option String) (e : Error) (s : Session)
    → Refuses (require v e) s ⊎ ((t : String) × Answers (require v e) s t)
unfolding require ◌>>=◌
require-cases none e s = inl (e, refl)
require-cases (some t) e s = inr (t, refl)

pub required :
    (v : Option String) (e : Error) (s : Session) (t : String)
    → (require v e s).0 ≡ ok t
    → v ≡ some t
unfolding require ◌>>=◌
required none e s t q = cc
required (some u) e s t q = cc

module _ (decrypt : String → Result (Dict Json)) (s : Session) where
  -- Where the token that was read came from.
  abbrev Read : Option Connector → Option Json → Type 0
  Read found bound =
      (c : Connector) × (sealed : String) × (secrets : Dict Json) × (found ≡ some c)
      × (c.secrets_encrypted ≡ some sealed)
      × (decrypt sealed ≡ ok secrets)
      × (get "webhook_token" secrets ≡ bound)

  connector_token-cases :
      (found : Option Connector)
      → Refuses (connector_token decrypt found) s
        ⊎ ((bound : Option Json) × Answers (connector_token decrypt found) s bound
            × ((bound ≡ none) ⊎ Read found bound))
  unfolding connector_token token_of ◌>>=◌
  connector_token-cases none = inr (none, refl, inl refl)
  connector_token-cases (some c) = elim (Option-cases c.secrets_encrypted) [
    | inl q ↦ rw q (inr (none, refl, inl refl))
    | inr (sealed, q) ↦ elim (Bool-cases (sealed == "")) [
      | inl b ↦ inr (none, rw (q, b) refl, inl refl)
      | inr b ↦ elim (Result-cases (decrypt sealed)) [
        | inl (secrets, r) ↦ inr (
          get "webhook_token" secrets,
          rw (q, b, r) refl,
          inr (c, sealed, secrets, refl, q, r, refl),
        )
        | inr (e, r) ↦ inl (e, rw (q, b, r) refl)
      ]
    ]
  ]

  -- Without a connector no token fits.
  unverified :
      (token : String)
      → verify_bound_token decrypt none token s ≡ (err (http 401 "Invalid webhook token"), s)
  unfolding verify_bound_token bound_token token_ok ◌>>=◌
  unverified token = refl

  verify_bound_token-cases :
      (id : Option Uuid) (token : String)
      → Refuses (verify_bound_token decrypt id token) s ⊎ IsBoundTo decrypt s.db id token
  unfolding verify_bound_token bound_token ◌>>=◌
  verify_bound_token-cases none token = inl (_, unverified token)
  verify_bound_token-cases (some id) token =
      elim (connector_token-cases (connector_by id s.db.connectors)) [
        | inl (e, q) ↦ inl (e, rw q refl)
        | inr (bound, q, origin) ↦ elim (Bool-cases (token_ok token bound)) [
          | inr wrong ↦ inl (http 401 "Invalid webhook token", rw (q, wrong) refl)
          | inl fits ↦
              let (is, given) = token_ok_sound token bound fits in
              elim origin [
                | inl n ↦ elim (none≢some (sym n ∙ is)) [ ]
                | inr (c, sealed, secrets, row, keeps, decrypts, at) ↦ inr (record {
                  connector = c;
                  sealed = sealed;
                  secrets = secrets;
                  linked = (id, refl, row);
                  keeps = keeps;
                  decrypts = decrypts;
                  bound = at ∙ is;
                  given = given;
                })
              ]
        ]
      ]

  resolve_verified-cases :
      (params : Dict String) (token to_number : String)
      → to_of params ≡ some to_number
      → Refuses (resolve_verified_exotel_channel decrypt token to_number) s
        ⊎ IsBound decrypt s.db params token
  unfolding resolve_verified_exotel_channel ◌>>=◌
  resolve_verified-cases params token to_number to =
      elim (Option-cases (resolve_channel_account_global s.db "voice" "exotel" to_number)) [
        | inl missing ↦ inl (http 401 "Invalid webhook token", rw (missing, unverified token) refl)
        | inr (channel, found) ↦ elim (verify_bound_token-cases channel.connector_id token) [
          | inl (e, q) ↦ inl (e, rw (found, q) refl)
          | inr bound ↦ inr (record {
            to_number = to_number;
            channel = channel;
            to = to;
            found = found;
            bound = bound;
          })
        ]
      ]

  resolve_required :
      (params : Dict String) (token to_number : String) (e : Error)
      → Answers (require (to_of params) e) s to_number
      → Refuses (resolve_verified_exotel_channel decrypt token to_number) s
        ⊎ IsBound decrypt s.db params token
  resolve_required params token to_number e q =
      resolve_verified-cases params token to_number
        (required (to_of params) e s to_number (ap (λ r. r.0) q))

-- A callback of the provider's.
pub data IsCallback (decrypt : String → Result (Dict Json)) (le : String → String → Bool)
    (params : Dict String) (token : String) : (A : Type 0) → M A → Type 1 where
  routes : IsCallback decrypt le params token String (exotel_route_call decrypt le params token)
  notes :
      IsCallback decrypt le params token (Uuid × String) (exotel_call_event decrypt params token)

-- A callback, for a route or of a call's lifecycle, either fails and leaves its session as it was, rows,
-- clock and queued ids included, or bears the token that the secrets of one connector hold: that of the
-- only active Exotel channel whose address fits the number called, whatever other connectors hold. A
-- blank token is never that one.
pub IsCallback-IsBound :
    {A : Type 0} (decrypt : String → Result (Dict Json)) (le : String → String → Bool)
    (params : Dict String) (token : String) (m : M A) (s : Session)
    → IsCallback decrypt le params token A m
    → Refuses m s ⊎ IsBound decrypt s.db params token
unfolding exotel_route_call exotel_call_event
IsCallback-IsBound decrypt le params token _ s routes =
    answered _ _ s (require-cases (from_of params) _ s) λ from_number _.
      answered _ _ s (require-cases (to_of params) _ s) λ to_number q.
        answered _ _ s (require-cases (sid_of params) _ s)
          λ call_sid _. guarded _ _ s (resolve_required decrypt s params token to_number _ q)
IsCallback-IsBound decrypt le params token _ s notes =
    answered _ _ s (require-cases (sid_of params) _ s) λ call_sid _.
      answered _ _ s (require-cases (to_of params) _ s)
        λ to_number q. guarded _ _ s (resolve_required decrypt s params token to_number _ q)
