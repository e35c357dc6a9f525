-- ===== src/Authz/Actor.antt =====
-- src/phera/authz/actor.py: who is asking, read from the trusted proxy's headers.
use phera.Common.{
  String, ◌≡◌, refl, Bool, true, false, not, ◌&&◌, Option, none, some, List, [], ◌∷◌, map, ◌==◌,
  if◌then◌else◌, Dict, get, put, strip, lower, split_on, split_once, or_else, elem, where_, truthy,
}

pub record Actor : Type 0 where
  pub id : Option String
  pub email : Option String
  pub name : Option String
  pub roles : List String
  pub permissions : Dict String
  pub unrestricted : Bool
  pub actor_type : String

-- The class's defaults, with `actor_type` and `id` given.
abbrev pub typed_actor : String → Option String → Actor
typed_actor kind ident = record {
  id = ident;
  email = none;
  name = none;
  roles = [];
  permissions = [];
  unrestricted = false;
  actor_type = kind;
}

-- `self.permissions.get(code) == access`
abbrev pub grants : Actor → String → String → Bool
grants a code access = elim (get code a.permissions) [ none ↦ false | some perm ↦ perm == access ]

unfoldable pub has_permission : Actor → String → String → Bool
has_permission a code access =
    if a.unrestricted
    then true
    else if grants a code "allow"
    then true
    else if access == "own" && grants a code "own"
    then true
    else false

-- One round of the loop of `parse_permissions_header`.
unfoldable pub parse_part : Dict String → String → Dict String
parse_part result part =
    let part = strip part in
    if part == "" then result else elim (split_once b':' part) [
      | some (code, access) ↦ put (strip code) (strip access) result
      | none ↦ put part "allow" result
    ]

unfoldable pub parse_parts : Dict String → List String → Dict String
unfolding parse_part
parse_parts result [] = result
parse_parts result (part ∷ parts) = parse_parts (parse_part result part) parts

unfoldable pub parse_permissions_header : Option String → Dict String
unfolding parse_parts
parse_permissions_header none = []
parse_permissions_header (some raw) = if raw == "" then [] else parse_parts [] (split_on b',' raw)

-- `headers.get(lower) or headers.get(title)`
abbrev header : Dict String → String → String → Option String
header headers low title = or_else (get low headers) (get title headers)

-- `raw or ""`
abbrev or_empty : Option String → String
or_empty none = ""
or_empty (some raw) = raw

unfoldable pub parse_roles : String → List String
parse_roles raw = where_ (λ r. not (r == "")) (map strip (split_on b',' raw))

-- `str(raw).lower() in ("true", "1", "yes")`; `str(None)` is none of these.
unfoldable pub is_true_header : Option String → Bool
is_true_header none = false
is_true_header (some raw) = elem (lower raw) ("true" ∷ "1" ∷ "yes" ∷ [])

unfoldable pub actor_from_headers : Dict String → Actor
unfolding parse_permissions_header parse_roles is_true_header
actor_from_headers headers =
    let actor_id = header headers "x-actor-id" "X-Actor-Id" in
    let perms_raw = header headers "x-actor-permissions" "X-Actor-Permissions" in
    let roles_raw = header headers "x-actor-roles" "X-Actor-Roles" in
    let unrestricted_raw = header headers "x-actor-unrestricted" "X-Actor-Unrestricted" in
    if truthy actor_id
    then record {
      id = actor_id;
      email = header headers "x-actor-email" "X-Actor-Email";
      name = header headers "x-actor-name" "X-Actor-Name";
      roles = parse_roles (or_empty roles_raw);
      permissions = parse_permissions_header perms_raw;
      unrestricted = is_true_header unrestricted_raw;
      actor_type = "user";
    }
    else typed_actor "anonymous" none

unfoldable pub system_actor : String → Option String → Actor
system_actor kind ident = record (typed_actor kind ident) { unrestricted = true }

parses :
    parse_permissions_header (some " crm.deals.read:own, crm.tickets.claim ,,")
    ≡ ("crm.deals.read", "own") ∷ ("crm.tickets.claim", "allow") ∷ []
unfolding parse_permissions_header strip split_on split_once put
parses = refl
