-- ===== src/Tickets/ReusePolicy/Bounds.antt =====
-- What a loaded policy guarantees, whatever a workspace has stored.
use mathlib.Core.Path.{subst}
use phera.Common.{
  ℕ, ◌≤◌, String, ◌≡◌, ◌↔◌, inl, inr, true, Option, none, some, List, [], ◌∷◌, arith, ◌==◌, eq_iff,
  elem, In, get, Dict, Option-cases, Bool-cases, ap, ◌∙◌,
}
use phera.Json.{Json, null, obj, ℤ, pos, negsuc, Fields, or_null, lookup}
use phera.Models.{Db, Uuid}
use phera.Tickets.Coerce.{
  clamp, clamp_window, default_window_seconds, open_statuses, channel_kinds, int_of,
}
use phera.Tickets.ReusePolicy.{
  EffectiveReusePolicy, allows_status, reuse_policy, Parsed, Override, parse_ticket_reuse,
  overrides, effective_reuse_policy, channel_override, window_override, or_none, override_for,
}

abbrev pub InWindow : ℕ → Type 0
InWindow n = (60 ≤ n) × (n ≤ 31536000)

clamp-InWindow : (n : ℤ) → InWindow (clamp n)
unfolding clamp
clamp-InWindow (pos n) = omega arith
clamp-InWindow (negsuc n) = omega arith

clamp_window-InWindow : (j : Json) → InWindow (clamp_window j default_window_seconds)
unfolding clamp_window
clamp_window-InWindow j = elim (Option-cases (int_of j)) [
  | inl e ↦ rw (e, clamp_window) (omega arith)
  | inr (n, e) ↦ rw (e, clamp_window) (clamp-InWindow n)
]

-- Every window of an override is in the bounds.
abbrev IsBoundedOverride : Override → Type 0
IsBoundedOverride o = (w : ℕ) → o.window_seconds ≡ some w → InWindow w

abbrev AllBounded : Dict Override → Type 0
AllBounded d = (kind : String) (o : Override) → get kind d ≡ some o → IsBoundedOverride o

window_override-InWindow : (g : Option Json) (w : ℕ) → window_override g ≡ some w → InWindow w
window_override-InWindow none w p = ground arith
window_override-InWindow (some null) w p = ground arith
window_override-InWindow (some j) w p = ground (arith, clamp_window-InWindow j)

or_none-eq : (o' o : Override) → or_none o' ≡ some o → o' ≡ o
or_none-eq o' o e = ground arith

channel_override-bounded :
    (j : Json) (o : Override) → channel_override j ≡ some o → IsBoundedOverride o
unfolding channel_override
channel_override-bounded (obj raw) o e w p =
    window_override-InWindow (lookup "window_seconds" raw) w
      (ap (λ (x : Override). x.window_seconds) (or_none-eq _ o e) ∙ p)
channel_override-bounded _ o e w p = ground arith

overrides-AllBounded : (nested : Fields) (kinds : List String) → AllBounded (overrides nested kinds)
unfolding overrides get
overrides-AllBounded nested [] kind o e w p = ground arith
overrides-AllBounded nested (k ∷ kinds) kind o e w p =
    elim (Option-cases (channel_override (or_null (lookup k nested)))) [
      | inl h ↦ overrides-AllBounded nested kinds kind o (ground arith) w p
      | inr (c, h) ↦ elim (Bool-cases (k == kind)) [
        | inl same ↦ channel_override-bounded (or_null (lookup k nested)) o (ground arith) w p
        | inr other ↦ overrides-AllBounded nested kinds kind o (ground arith) w p
      ]
    ]

override_for-bounded :
    (p : Parsed) (kind : Option String)
    → AllBounded p.channels
    → IsBoundedOverride (override_for p kind)
override_for-bounded p none h w e = ground arith
override_for-bounded p (some kind) h w e = elim (Bool-cases (elem kind channel_kinds)) [
  | inl listed ↦ elim (Option-cases (get kind p.channels)) [
    | inl missing ↦ ground arith
    | inr (o, found) ↦ h kind o found w (ground arith)
  ]
  | inr other ↦ ground arith
]

effective-InWindow :
    (p : Parsed) (kind : Option String)
    → AllBounded p.channels
    → InWindow p.window_seconds
    → InWindow (effective_reuse_policy p kind).window_seconds
unfolding effective_reuse_policy
effective-InWindow p kind h default_ok = elim (Option-cases (override_for p kind).window_seconds) [
  | inl missing ↦ rw missing default_ok
  | inr (w, given) ↦ rw given (ground (arith, override_for-bounded p kind h w given))
]

-- Whatever a workspace has stored under its flags, and for every channel, the window of the policy
-- that is loaded is between a minute and 365 days.
pub reuse_policy-InWindow :
    (db : Db) (workspace : Uuid) (kind : Option String)
    → InWindow (reuse_policy db workspace kind).window_seconds
unfolding reuse_policy parse_ticket_reuse
reuse_policy-InWindow db workspace kind =
    effective-InWindow _ kind (overrides-AllBounded _ channel_kinds) (clamp_window-InWindow _)

-- When a status may be returned to.
pub data Returnable (p : EffectiveReusePolicy) (status : String) : Type 0 where
  still_open : In status open_statuses → Returnable p status
  resolved : status ≡ "resolved" → p.reopen_resolved ≡ true → Returnable p status
  closed : status ≡ "closed" → p.reopen_closed ≡ true → Returnable p status

-- A policy allows a status exactly when it is open, pending or waiting, or it is resolved and the
-- policy reopens resolved tickets, or it is closed and the policy reopens closed ones.
pub allows_status_iff :
    (p : EffectiveReusePolicy) (status : String)
    → (allows_status p status ≡ true) ↔ Returnable p status
unfolding allows_status
allows_status_iff p status = (to, from)
  where
    when_resolved : allows_status p "resolved" ≡ true → p.reopen_resolved ≡ true
    when_resolved h = ground arith

    when_closed : allows_status p "closed" ≡ true → p.reopen_closed ≡ true
    when_closed h = ground arith

    to : allows_status p status ≡ true → Returnable p status
    to h = elim (Bool-cases (elem status open_statuses)) [
      | inl o ↦
          still_open
            (ground (arith, eq_iff status "open", eq_iff status "pending", eq_iff status "waiting"))
      | inr o ↦ elim (Bool-cases (status == "resolved")) [
        | inl r ↦
            let e = (eq_iff status "resolved").0 r in
            resolved e (when_resolved (subst (λ t. allows_status p t ≡ true) e h))
        | inr r ↦ elim (Bool-cases (status == "closed")) [
          | inl c ↦
              let e = (eq_iff status "closed").0 c in
              closed e (when_closed (subst (λ t. allows_status p t ≡ true) e h))
          | inr c ↦ absurd (ground arith)
        ]
      ]
    ]

    from : Returnable p status → allows_status p status ≡ true
    from (still_open i) =
        ground (arith, eq_iff status "open", eq_iff status "pending", eq_iff status "waiting")
    from (resolved e r) = ground (arith, eq_iff status "resolved")
    from (closed e r) = ground (arith, eq_iff status "closed")
