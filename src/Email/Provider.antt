-- ===== src/Email/Provider.antt =====
-- `ImapSmtpEmailProvider` of src/phera/modules/connectors/imap_smtp.py, as far as it reads, and
-- `strip_quoted_reply` of src/phera/modules/connectors/google_group.py.
use Prim.Native.Nat.{max}
use phera.Common.{
  ℕ, ◌-◌, String, Bool, true, ◌&&◌, Option, none, some, List, [], ◌∷◌, ◌==◌, if◌then◌else◌, truthy,
  where_, ltb, strip, Dict, get,
}
use phera.Json.{Json, str, int, bool, ℤ, pos, is_true}
use phera.Models.{Connector}
use phera.Session.{Result, Error, ok, err, value_error, type_error}
use phera.Tickets.Coerce.{int_of}
use phera.Tickets.Joining.{blank_or}

-- `int(value)` with its exceptions.
abbrev pub int_error : Json → Error
int_error (str s) = value_error "invalid literal for int()"
int_error _ = type_error

unfoldable pub python_int : Json → Result ℤ
python_int value = elim (int_of value) [ none ↦ err (int_error value) | some n ↦ ok n ]

-- `creds.get(key, default)` and `creds.get(key) or default`
abbrev pub get_default : String → Json → Dict Json → Json
get_default key default creds = elim (get key creds) [ none ↦ default | some value ↦ value ]

abbrev pub get_true : String → Json → Dict Json → Json
get_true key default creds = elim (get key creds) [
  | none ↦ default
  | some value ↦ if is_true value then value else default
]

pub record ImapSmtpEmailProvider : Type 0 where
  pub imap_host : Json
  pub imap_port : ℤ
  pub imap_use_ssl : Bool
  pub smtp_host : Json
  pub smtp_port : ℤ
  pub smtp_use_tls : Bool
  pub username : Json
  pub password : Json
  pub from_address : Json
  pub poll_folder : Json

abbrev pub new_provider : Dict Json → Dict Json → ℤ → ℤ → ImapSmtpEmailProvider
new_provider creds secrets imap_port smtp_port = record {
  imap_host = get_default "imap_host" (str "") creds;
  imap_port = imap_port;
  imap_use_ssl = is_true (get_default "imap_use_ssl" (bool true) creds);
  smtp_host = get_default "smtp_host" (str "") creds;
  smtp_port = smtp_port;
  smtp_use_tls = is_true (get_default "smtp_use_tls" (bool true) creds);
  username = get_default "username" (str "") creds;
  password = get_default "password" (str "") secrets;
  from_address = get_true "from_address" (get_default "username" (str "") creds) creds;
  poll_folder = get_default "poll_folder" (str "INBOX") creds;
}

-- The first exception of a chain.
infixl 5 ◌>>!◌
abbrev pub ◌>>!◌ : {A B : Type 0} → Result A → (A → Result B) → Result B
ok a >>! f = f a
err e >>! f = err e

-- `decrypt_secrets` of src/phera/security/crypto.py stands on Fernet.
unfoldable pub secrets_of : (String → Result (Dict Json)) → Connector → Result (Dict Json)
secrets_of decrypt_secrets connector =
    if truthy connector.secrets_encrypted
    then decrypt_secrets (blank_or connector.secrets_encrypted)
    else ok []

unfoldable pub from_connector :
    (String → Result (Dict Json)) → Connector → Result ImapSmtpEmailProvider
from_connector decrypt_secrets connector = secrets_of decrypt_secrets connector >>! λ secrets.
    python_int (get_default "imap_port" (int (pos 993)) connector.credentials) >>! λ imap_port.
    python_int (get_default "smtp_port" (int (pos 587)) connector.credentials) >>! λ smtp_port.
    ok (new_provider connector.credentials secrets imap_port smtp_port)

unfoldable pub is_configured : ImapSmtpEmailProvider → Bool
is_configured p =
    is_true p.imap_host
    && (is_true p.smtp_host
        && (is_true p.username && (is_true p.password && is_true p.from_address)))

-- A message as it was fetched; the bytes of the message are a text.
pub record RawMessage : Type 0 where
  pub uid : ℕ
  pub raw : String

-- What the IMAP client answers in one visit to the server, or its first exception: `UIDNEXT` (0 where
-- it is missing), the uids of a search, and the parts of a fetch, where `RFC822` may be missing.
pub record ImapClient : Type 0 where
  pub uidnext : Result ℕ
  pub search : ℕ → Result (List ℕ)
  pub fetch : List ℕ → Result (List (ℕ × Option String))

-- The messages that have their bytes, and the last uid among them and before.
unfoldable pub collect : ℕ → List (ℕ × Option String) → List RawMessage × ℕ
collect watermark [] = ([], watermark)
collect watermark ((uid, none) ∷ response) = collect watermark response
collect watermark ((uid, some raw) ∷ response) =
    let (messages, new_watermark) = collect (max watermark uid) response in
    (record { uid = uid; raw = raw } ∷ messages, new_watermark)

abbrev pub after_last : ℕ → List ℕ → List ℕ
after_last since uids = where_ (λ u. ltb since u) uids

unfoldable pub fetch_some : ImapClient → ℕ → List ℕ → Result (List RawMessage × ℕ)
fetch_some client since [] = ok ([], since)
fetch_some client since (u ∷ uids) =
    client.fetch (u ∷ uids) >>! λ response. ok (collect since response)

-- `max(uidnext - 1, 0)`, where a missing `UIDNEXT` counts as 1.
unfoldable pub fetch_new_messages : ImapClient → Option ℕ → Result (List RawMessage × ℕ)
fetch_new_messages client none = client.uidnext >>! λ uidnext. ok ([], uidnext - 1)
fetch_new_messages client (some since) =
    client.search since >>! λ uids. fetch_some client since (after_last since uids)

-- `EmailReplyParser.parse_reply` is a library's.
unfoldable pub strip_quoted_reply : (String → Result String) → String → String
strip_quoted_reply parse_reply text = if text == "" then text else elim (parse_reply text) [
  | err e ↦ strip text
  | ok reply ↦ if strip reply == "" then strip text else strip reply
]
