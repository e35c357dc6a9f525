-- ===== src/Tickets/ReusePolicy.antt =====
-- src/phera/modules/tickets/reuse_policy.py: which old tickets an inbound message may return to.
pub mod Bounds
mod Examples
use phera.Common.{
  ℕ, String, Bool, true, Option, none, some, List, [], ◌∷◌, ◌++◌, ◌==◌, if◌then◌else◌, eqb, Dict,
  get, elem,
}
use phera.Json.{Json, null, obj, lookup, or_null, fields_of, Fields}
use phera.Models.{Uuid, OwnershipProfile, Db}
use phera.Session.{M, gets}
use phera.Tickets.Coerce.{
  default_window_seconds, channel_kinds, open_statuses, clamp_window, as_bool, bool_or,
  assignee_mode,
}

pub record EffectiveReusePolicy : Type 0 where
  pub window_seconds : ℕ
  pub reopen_resolved : Bool
  pub reopen_closed : Bool
  pub on_reopen_assignee : String

unfoldable pub reusable_statuses : EffectiveReusePolicy → List String
reusable_statuses p =
    open_statuses
    ++ ((if p.reopen_resolved then "resolved" ∷ [] else [])
        ++ (if p.reopen_closed then "closed" ∷ [] else []))

-- A row's status is never `None`; `status or ""` is the status.
unfoldable pub allows_status : EffectiveReusePolicy → String → Bool
unfolding reusable_statuses
allows_status p status = elem status (reusable_statuses p)

-- The keys that an override has.
pub record Override : Type 0 where
  pub window_seconds : Option ℕ
  pub reopen_resolved : Option Bool
  pub reopen_closed : Option Bool

abbrev pub no_override : Override
no_override = record { window_seconds = none; reopen_resolved = none; reopen_closed = none }

-- `if key in raw and raw[key] is not None`
abbrev pub if_given {ℓ} : {A : Type ℓ} → Option Json → (Json → A) → Option A
if_given none f = none
if_given (some null) f = none
if_given (some j) f = some (f j)

abbrev pub or_none : Override → Option Override
or_none o = elim o.window_seconds [
  | some w ↦ some o
  | none ↦ elim o.reopen_resolved [
    | some r ↦ some o
    | none ↦ elim o.reopen_closed [ some c ↦ some o | none ↦ none ]
  ]
]

abbrev pub window_override : Option Json → Option ℕ
window_override given = if_given given (λ j. clamp_window j default_window_seconds)

unfoldable pub channel_override : Json → Option Override
channel_override (obj raw) = or_none (record {
  window_seconds = window_override (lookup "window_seconds" raw);
  reopen_resolved = if_given (lookup "reopen_resolved" raw) (λ j. as_bool j true);
  reopen_closed = if_given (lookup "reopen_closed" raw) (λ j. as_bool j true);
})
channel_override _ = none

pub record Parsed : Type 0 where
  pub window_seconds : ℕ
  pub reopen_resolved : Bool
  pub reopen_closed : Bool
  pub on_reopen_assignee : String
  pub channels : Dict Override

-- The loop over CHANNEL_KINDS.
unfoldable pub overrides : Fields → List String → Dict Override
unfolding channel_override
overrides nested [] = []
overrides nested (kind ∷ kinds) =
    let rest = overrides nested kinds in
    elim (channel_override (or_null (lookup kind nested))) [
      | none ↦ rest
      | some override ↦ (kind, override) ∷ rest
    ]

unfoldable pub parse_ticket_reuse : Json → Parsed
unfolding overrides
parse_ticket_reuse raw =
    let data_ = fields_of raw in
    record {
      window_seconds =
          clamp_window (or_null (lookup "window_seconds" data_)) default_window_seconds;
      reopen_resolved = as_bool (or_null (lookup "reopen_resolved" data_)) true;
      reopen_closed = as_bool (or_null (lookup "reopen_closed" data_)) true;
      on_reopen_assignee = assignee_mode (or_null (lookup "on_reopen_assignee" data_));
      channels = overrides (fields_of (or_null (lookup "channels" data_))) channel_kinds;
    }

abbrev pub override_for : Parsed → Option String → Override
override_for parsed none = no_override
override_for parsed (some kind) =
    if elem kind channel_kinds
    then elim (get kind parsed.channels) [ none ↦ no_override | some o ↦ o ]
    else no_override

-- `a or b` on a number that may be missing.
abbrev pub positive_or : Option ℕ → ℕ → ℕ
positive_or none d = d
positive_or (some n) d = if eqb n 0 then d else n

unfoldable pub effective_reuse_policy : Parsed → Option String → EffectiveReusePolicy
effective_reuse_policy parsed channel_kind =
    let override = override_for parsed channel_kind in
    record {
      window_seconds = positive_or override.window_seconds parsed.window_seconds;
      reopen_resolved = bool_or override.reopen_resolved parsed.reopen_resolved;
      reopen_closed = bool_or override.reopen_closed parsed.reopen_closed;
      on_reopen_assignee = parsed.on_reopen_assignee;
    }

-- `session.get(OwnershipProfile, workspace_id)` and its flags, `{}` without a profile.
unfoldable pub find_profile : Uuid → List OwnershipProfile → Option OwnershipProfile
find_profile id [] = none
find_profile id (p ∷ ps) = if p.workspace_id == id then some p else find_profile id ps

abbrev pub flags_of : Option OwnershipProfile → Dict Json
flags_of none = []
flags_of (some p) = p.flags

unfoldable pub reuse_policy : Db → Uuid → Option String → EffectiveReusePolicy
unfolding find_profile
reuse_policy db workspace channel_kind =
    effective_reuse_policy
      (parse_ticket_reuse
        (or_null (get "ticket_reuse" (flags_of (find_profile workspace db.ownership_profiles)))))
      channel_kind

abbrev pub load_reuse_policy : Uuid → Option String → M EffectiveReusePolicy
load_reuse_policy workspace channel_kind = gets (λ s. reuse_policy s.db workspace channel_kind)
