-- ===== src/Api/Inbox/Stream.antt =====
-- src/phera/modules/tickets/inbox_events.py, and the stream of src/phera/api/routes/inbox.py that
-- reads from its queues.
pub mod Delivery
use Prim.Native.String
use phera.Common.{
  ℕ, String, Bool, false, Option, none, some, List, [], ◌∷◌, ◌++◌, ◌==◌, if◌then◌else◌, length, leb,
  eqb, Dict,
}
use phera.Json.{Json, str, null, obj, lookup, or_null}

abbrev pub Queue : Type 0
Queue = List String

-- `_inbox_subscribers`: each queue with a number for its identity.
abbrev pub Hub : Type 0
Hub = List (ℕ × Queue)

abbrev pub maxsize : ℕ
maxsize = 50

-- `none` is `QueueFull`.
unfoldable pub put_nowait : String → Queue → Option Queue
put_nowait event q = if leb maxsize (length q) then none else some (q ++ event ∷ [])

-- `try: put_nowait … except QueueFull: pass`
unfoldable pub offer : String → Queue → Queue
unfolding put_nowait
offer event q = elim (put_nowait event q) [ none ↦ q | some q' ↦ q' ]

unfoldable pub subscribe_inbox : ℕ → Hub → Hub
subscribe_inbox k hub = (k, []) ∷ hub

unfoldable pub unsubscribe_inbox : ℕ → Hub → Hub
unsubscribe_inbox k [] = []
unsubscribe_inbox k ((j, q) ∷ hub) =
    let rest = unsubscribe_inbox k hub in if eqb j k then rest else (j, q) ∷ rest

-- `publish_inbox_event`, given `json.dumps(payload)`.
unfoldable pub publish : String → Hub → Hub
publish event [] = []
publish event ((j, q) ∷ hub) = (j, offer event q) ∷ publish event hub

-- `queue.get()` where there is something to get.
abbrev pub put_back : (ℕ × Queue) → Option (String × Hub) → Option (String × Hub)
put_back entry none = none
put_back entry (some (event, hub)) = some (event, entry ∷ hub)

abbrev pub get_head : ℕ → Queue → Hub → Option (String × Hub)
get_head j [] hub = none
get_head j (event ∷ q) hub = some (event, (j, q) ∷ hub)

unfoldable pub get : ℕ → Hub → Option (String × Hub)
get k [] = none
get k ((j, q) ∷ hub) =
    let rest = get k hub in if eqb j k then get_head j q hub else put_back (j, q) rest

-- `json.loads` (`none` is `JSONDecodeError`), `json.dumps`, and `str` of a value that is no text.
pub record Codec : Type 0 where
  pub loads : String → Option Json
  pub dumps : Dict String → String
  pub text : Json → String

-- `str(event_ws)`, where that is not `None`
abbrev pub str_of : Codec → Json → String
str_of c (str s) = s
str_of c j = c.text j

abbrev pub same_workspace : Codec → String → Json → Bool
same_workspace c workspace null = false
same_workspace c workspace j = str_of c j == workspace

abbrev pub event_visible : Codec → String → Json → Bool
event_visible c workspace (obj fs) = same_workspace c workspace (or_null (lookup "workspace_id" fs))
event_visible c workspace _ = false

unfoldable pub inbox_event_visible : Codec → String → String → Bool
inbox_event_visible c payload workspace = elim (c.loads payload) [
  | none ↦ false
  | some event ↦ event_visible c workspace event
]

-- What a round of the generator's loop meets.
pub data Input : Type 0 where
  disconnected timeout : Input
  payload : String → Input

abbrev pub frame : String → String
frame event = String.◌++◌ "data: " (String.◌++◌ event "\n\n")

unfoldable pub rounds : Codec → String → List Input → List String
rounds c workspace [] = []
rounds c workspace (disconnected ∷ inputs) = []
rounds c workspace (timeout ∷ inputs) = ": keepalive\n\n" ∷ rounds c workspace inputs
rounds c workspace (payload p ∷ inputs) =
    let rest = rounds c workspace inputs in
    if inbox_event_visible c p workspace then frame p ∷ rest else rest

unfoldable pub event_generator : Codec → String → String → List Input → List String
event_generator c workspace user inputs =
    frame (c.dumps (("type", "connected") ∷ ("user_id", user) ∷ [])) ∷ rounds c workspace inputs
