-- ===== src/Workflows/Matching/Fires.antt =====
-- When an event starts a workflow.
use phera.Common.{
  String, ◌≡◌, refl, ◌↔◌, sym, ap, Bool-cases, eq_refl, inl, inr, Bool, true, List, [], ◌∷◌, arith,
  eq_iff, any, In, is_prefix, ends_with, rstrip_char,
}
use mathlib.Core.Path.{subst}
use phera.Json.{Json, str}
use phera.Workflows.Matching.{event_matches_trigger, is_event, fits_star}

-- The filter is empty, names the event type, or has a pattern that ends in stars and, without them,
-- begins the event type.
pub data Fires (event_type : String) (types : List Json) : Type 0 where
  unfiltered : types ≡ [] → Fires event_type types
  named : In (str event_type) types → Fires event_type types
  starred :
      (t : String)
      → In (str t) types
      → ends_with b'*' t ≡ true
      → is_prefix (rstrip_char b'*' t) event_type ≡ true
      → Fires event_type types

any-In :
    (p : Json → Bool) (types : List Json)
    → any p types ≡ true
    → (j : Json) × In j types × (p j ≡ true)
unfolding any
any-In p [] h = absurd (ground arith)
any-In p (j ∷ js) h = elim (Bool-cases (p j)) [
  | inl q ↦ (j, inl refl, q)
  | inr q ↦ let (k, i, r) = any-In p js (ground arith) in (k, inr i, r)
]

In-any :
    (p : Json → Bool) (j : Json) (types : List Json) → In j types → p j ≡ true → any p types ≡ true
unfolding any
In-any p j [] i h = elim i [ ]
In-any p j (k ∷ ks) i h = ground (arith, In-any p j ks)

named_iff : (e : String) (j : Json) → is_event e j ≡ true → j ≡ str e
named_iff e (str t) h = ap str (sym ((eq_iff e t).0 h))
named_iff e j h = absurd (ground arith)

starred_str :
    (e : String) (j : Json)
    → fits_star e j ≡ true
    → (t : String) × (j ≡ str t)
      × (ends_with b'*' t ≡ true)
      × (is_prefix (rstrip_char b'*' t) e ≡ true)
starred_str e (str t) h = (t, refl, ground arith, ground arith)
starred_str e j h = absurd (ground arith)

-- `event_matches_trigger` answers true exactly when the filter has no event types, or names the
-- event's type, or has a type that ends in "*" and, without its stars, begins the event's type.
pub event_matches_trigger_iff :
    (e : String) (types : List Json) → (event_matches_trigger e types ≡ true) ↔ Fires e types
unfolding event_matches_trigger
event_matches_trigger_iff e [] = (λ h. unfiltered refl, λ h. refl)
event_matches_trigger_iff e (j ∷ js) = (to, from)
  where
    to : event_matches_trigger e (j ∷ js) ≡ true → Fires e (j ∷ js)
    to h = elim (Bool-cases (any (is_event e) (j ∷ js))) [
      | inl n ↦
          let (k, i, p) = any-In (is_event e) (j ∷ js) n in
          named (subst (λ x. In x (j ∷ js)) (named_iff e k p) i)
      | inr n ↦
          let (k, i, p) = any-In (fits_star e) (j ∷ js) (ground arith) in
          let (t, q, ends, begins) = starred_str e k p in
          starred t (subst (λ x. In x (j ∷ js)) q i) ends begins
    ]

    from : Fires e (j ∷ js) → event_matches_trigger e (j ∷ js) ≡ true
    from (unfiltered q) = absurd (ground arith)
    from (named i) = let p = In-any (is_event e) (str e) (j ∷ js) i (eq_refl e) in ground arith
    from (starred t i ends begins) =
        let p = In-any (fits_star e) (str t) (j ∷ js) i (ground arith) in ground arith
