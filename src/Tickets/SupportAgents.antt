-- ===== src/Tickets/SupportAgents.antt =====
-- `support_agent_ids` of src/phera/modules/tickets/reuse_policy.py.
use phera.Common.{
  ℕ, String, false, Option, none, some, List, [], ◌∷◌, ◌++◌, ◌==◌, if◌then◌else◌, eqb, Dict, get,
  strip,
}
use phera.Json.{Json, null, bool, int, float, str, arr, obj, pos, items, lookup, nil, end}

-- `str(value)` of a member of the list, where `repr` is the text of a float, a list or a dict.
text_of : (Json → String) → Json → String
text_of repr null = "None"
text_of repr (bool b) = if b then "True" else "False"
text_of repr (str s) = s
text_of repr j = repr j

-- `str(item.get("user_id") or "")`
abbrev or_blank : (Json → String) → Option Json → String
or_blank repr none = ""
or_blank repr (some null) = ""
or_blank repr (some (bool b)) = if b then "True" else ""
or_blank repr (some (int (pos n))) = if eqb n 0 then "" else repr (int (pos n))
or_blank repr (some (float negative ℕ.zero false)) = ""
or_blank repr (some (str s)) = s
or_blank repr (some (arr nil)) = ""
or_blank repr (some (obj end)) = ""
or_blank repr (some j) = repr j

member_text : (Json → String) → Json → String
unfolding text_of
member_text repr (obj fs) = strip (or_blank repr (lookup "user_id" fs))
member_text repr j = strip (text_of repr j)

texts : (Json → String) → List Json → List String
texts f [] = []
texts f (j ∷ js) = let rest = texts f js in if f j == "" then rest else f j ∷ rest

abbrev list_of : Option Json → List Json
unfolding items
list_of none = []
list_of (some (arr js)) = items js
list_of (some j) = []

-- The set as a list. `repr` is Python's text of a value that is no text.
unfoldable pub support_agent_ids : (Json → String) → Dict Json → List String
unfolding member_text texts text_of items
support_agent_ids repr flags =
    texts (member_text repr) (list_of (get "support_agents" flags))
    ++ texts (λ j. strip (text_of repr j)) (list_of (get "support_agent_user_ids" flags))
