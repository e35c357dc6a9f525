-- ===== src/Routing/Choice.antt =====
-- The agent who is chosen waited longest.
use phera.Common.{
  String, ◌≡◌, refl, ◌∙◌, inl, inr, Bool, true, false, Option, none, some, List, [], ◌∷◌, arith, In,
  where_, where_-In, In-where_, Option-cases, Bool-cases,
}
use mathlib.Core.Path.{subst}
use phera.Models.{AgentPresence, Time}
use phera.Session.{Session}
use phera.Routing.{least, assigned_before, stands_before, select_available_agent, is_available}

-- No eligible agent was assigned before this one.
pub record IsNext (eligible : AgentPresence → Bool) (rows : List AgentPresence) (a : AgentPresence)
    : Type 0 where
  pub present : In a rows
  pub fits : eligible a ≡ true
  pub longest :
      (b : AgentPresence)
      → In b rows
      → eligible b ≡ true
      → assigned_before b.last_assigned_at a.last_assigned_at ≡ false

assigned_before_irrefl : (t : Option Time) → assigned_before t t ≡ false
assigned_before_irrefl none = refl
assigned_before_irrefl (some t) = ground arith

assigned_before_trans :
    (t u v : Option Time)
    → assigned_before u t ≡ false
    → assigned_before v u ≡ false
    → assigned_before v t ≡ false
assigned_before_trans none u none p q = refl
assigned_before_trans none none (some v) p q = refl
assigned_before_trans none (some u) (some v) p q = refl
assigned_before_trans (some t) none v p q = absurd (ground arith)
assigned_before_trans (some t) (some u) none p q = absurd (ground arith)
assigned_before_trans (some t) (some u) (some v) p q = ground arith

assigned_before_asym :
    (t u : Option Time) → assigned_before t u ≡ true → assigned_before u t ≡ false
assigned_before_asym none u p = ground arith
assigned_before_asym (some t) none p = absurd (ground arith)
assigned_before_asym (some t) (some u) p = ground arith

module _ (le : String → String → Bool) where
  -- Of two agents, the one that stands first was not assigned later.
  stands_not_after :
      (a b : AgentPresence)
      → stands_before le a b ≡ true
      → assigned_before b.last_assigned_at a.last_assigned_at ≡ false
  stands_not_after a b h =
      elim (Bool-cases (assigned_before a.last_assigned_at b.last_assigned_at)) [
        | inl p ↦ assigned_before_asym a.last_assigned_at b.last_assigned_at p
        | inr p ↦ ground arith
      ]

  stands_not_before :
      (a b : AgentPresence)
      → stands_before le a b ≡ false
      → assigned_before a.last_assigned_at b.last_assigned_at ≡ false
  stands_not_before a b h = ground arith

  least-In : (rows : List AgentPresence) (a : AgentPresence) → least le rows ≡ some a → In a rows
  unfolding least
  least-In [] a h = absurd (ground arith)
  least-In (r ∷ rows) a h = ground (arith, least-In rows a)

  least-none :
      (rows : List AgentPresence) (b : AgentPresence) → least le rows ≡ none → In b rows → ⊥
  unfolding least
  least-none [] b h i = i
  least-none (r ∷ rows) b h i = absurd (ground arith)

  abbrev After : AgentPresence → AgentPresence → Type 0
  After a c = assigned_before c.last_assigned_at a.last_assigned_at ≡ false

  After-refl : (a c : AgentPresence) → c ≡ a → After a c
  After-refl a c e = rw e (assigned_before_irrefl a.last_assigned_at)

  least_longest :
      (rows : List AgentPresence) (a c : AgentPresence)
      → least le rows ≡ some a
      → In c rows
      → After a c
  unfolding least
  least_longest [] a c h i = absurd (ground arith)
  least_longest (r ∷ rows) a c h i = elim (Option-cases (least le rows)) [
    | inl q ↦
        let same : r ≡ a = ground arith in
        elim i [ inl e ↦ After-refl a c (e ∙ same) | inr j ↦ absurd (least-none rows c q j) ]
    | inr (b, q) ↦ elim (Bool-cases (stands_before le r b)) [
      | inl f ↦
          let same : r ≡ a = ground arith in
          elim i [
            | inl e ↦ After-refl a c (e ∙ same)
            | inr j ↦
                let p = stands_not_after r b f in
                let l = least_longest rows b c q j in
                subst (λ x. After x c) same
                  (assigned_before_trans r.last_assigned_at b.last_assigned_at c.last_assigned_at p
                    l)
          ]
      | inr f ↦
          let same : b ≡ a = ground arith in
          elim i [
            | inl e ↦ subst (λ x. After x c) same (rw e (stands_not_before r b f))
            | inr j ↦ subst (λ x. After x c) same (least_longest rows b c q j)
          ]
    ]
  ]

  least-IsNext :
      (eligible : AgentPresence → Bool) (rows : List AgentPresence) (a : AgentPresence)
      → least le (where_ eligible rows) ≡ some a
      → IsNext eligible rows a
  least-IsNext eligible rows a h =
      let fit = where_ eligible rows in
      let (i, e) = where_-In eligible a rows (least-In fit a h) in
      record {
        present = i;
        fits = e;
        longest = λ b j f. least_longest fit a b h (In-where_ eligible b rows j f);
      }

  -- The agent that is selected for a ticket is present in the table and available, off the phone where
  -- the policy focuses on voice, and no such agent was assigned before; an agent who was never
  -- assigned counts as the first.
  pub select_available_agent-IsNext :
      (exclude : Bool) (rows : List AgentPresence) (a : AgentPresence)
      → select_available_agent le exclude rows ≡ some a
      → IsNext (is_available exclude) rows a
  unfolding select_available_agent
  select_available_agent-IsNext exclude rows a h = least-IsNext (is_available exclude) rows a h

  -- Where nobody is selected, no agent of the table is available under the policy.
  pub select_available_agent-none :
      (exclude : Bool) (rows : List AgentPresence) (b : AgentPresence)
      → select_available_agent le exclude rows ≡ none
      → In b rows
      → is_available exclude b ≡ false
  unfolding select_available_agent
  select_available_agent-none exclude rows b h i = elim (Bool-cases (is_available exclude b)) [
    | inr p ↦ p
    | inl p ↦ absurd (
        least-none (where_ (is_available exclude) rows) b h
          (In-where_ (is_available exclude) b rows i p))
  ]
