-- ===== src/Tickets/ReusePolicy/Examples.antt =====
-- The theorems about the reuse policy at a workspace that stores a window of a second.
use phera.Common.{◌≡◌, refl, true, some, [], ◌∷◌, get, strip, lower}
use phera.Json.{int, str, obj, pos, field, end, lookup}
use phera.Models.{Db, empty_db}
use phera.Tickets.ReusePolicy.{reuse_policy, effective_reuse_policy, parse_ticket_reuse}
use phera.Tickets.Coerce.{clamp_window, as_bool, assignee_mode, int_of}
use phera.Tickets.ReusePolicy.Bounds.{InWindow, reuse_policy-InWindow}

abbrev db : Db
db = record empty_db {
  ownership_profiles =
      record {
        workspace_id = "ws";
        mode = "pipeline_centric";
        flags =
            (
              "ticket_reuse",
              obj (
                  field "window_seconds" (int (pos 1))
                    (field "on_reopen_assignee" (str " Queue ") end)),
            )
            ∷ [];
      }
      ∷ [];
}

policy_of_db : reuse_policy db "ws" (some "email") ≡ record {
  window_seconds = 60;
  reopen_resolved = true;
  reopen_closed = true;
  on_reopen_assignee = "queue";
}
unfolding reuse_policy effective_reuse_policy parse_ticket_reuse clamp_window as_bool assignee_mode
    int_of get lookup strip lower
policy_of_db = refl

reuse_policy-InWindow_example : InWindow (reuse_policy db "ws" (some "email")).window_seconds
reuse_policy-InWindow_example = reuse_policy-InWindow db "ws" (some "email")
