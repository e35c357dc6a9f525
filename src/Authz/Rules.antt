-- ===== src/Authz/Rules.antt =====
-- What the permission and visibility checks decide, stated by rules.
use phera.Common.{
  String, ◌≡◌, refl, ◌↔◌, inl, inr, true, false, Option, none, some, List, [], ◌∷◌, arith, ◌==◌,
  eq_iff, opt_eq, elem, In, get, Bool-cases,
}
use phera.Models.{Uuid, Deal, OwnershipProfile}
use phera.Authz.Actor.{Actor, has_permission, grants}
use phera.Authz.Visibility.{
  can_see_pipeline, can_see_deal, filter_deals_for_actor, overlaps, is_pipeline_centric,
}

-- The rules of `has_permission`, one constructor to each ground for a grant.
pub data Holds (a : Actor) (code access : String) : Type 0 where
  unrestricted : a.unrestricted ≡ true → Holds a code access
  allowed : get code a.permissions ≡ some "allow" → Holds a code access
  owned : access ≡ "own" → get code a.permissions ≡ some "own" → Holds a code access

grants_iff :
    (a : Actor) (code access : String)
    → (grants a code access ≡ true) ↔ (get code a.permissions ≡ some access)
grants_iff a code access = go (get code a.permissions)
  where
    go :
        (o : Option String)
        → (elim o [ none ↦ false | some perm ↦ perm == access ] ≡ true) ↔ (o ≡ some access)
    go none = ground arith
    go (some p) = ground (arith, eq_iff p access)

-- `has_permission` answers true exactly when the actor is unrestricted, or holds the code with
-- "allow", or is asked for "own" and holds the code with "own".
pub has_permission_iff :
    (a : Actor) (code access : String) → (has_permission a code access ≡ true) ↔ Holds a code access
unfolding has_permission
has_permission_iff a code access = (to, from)
  where
    to : has_permission a code access ≡ true → Holds a code access
    to h = elim (Bool-cases a.unrestricted) [
      | inl u ↦ unrestricted u
      | inr u ↦ elim (Bool-cases (grants a code "allow")) [
        | inl g ↦ allowed ((grants_iff a code "allow").0 g)
        | inr g ↦
            owned ((eq_iff access "own").0 (ground arith))
              ((grants_iff a code "own").0 (ground arith))
      ]
    ]

    from : Holds a code access → has_permission a code access ≡ true
    from (unrestricted u) = ground arith
    from (allowed e) = ground (arith, grants_iff a code "allow")
    from (owned e g) = ground (arith, grants_iff a code "own", eq_iff access "own")

pub opt_eq_iff : (a b : Option String) → (opt_eq a b ≡ true) ↔ (a ≡ b)
opt_eq_iff none none = ground arith
opt_eq_iff none (some b) = ground arith
opt_eq_iff (some a) none = ground arith
opt_eq_iff (some a) (some b) = ground (arith, eq_iff a b)

-- The rules by which a deal is visible.
pub data Visible (a : Actor) (d : Deal) (p : Option OwnershipProfile) : Type 0 where
  to_unrestricted : a.unrestricted ≡ true → Visible a d p
  to_readers : Holds a "crm.deals.read" "allow" → Visible a d p
  to_owning_readers : Holds a "crm.deals.read" "own" → d.owner_user_id ≡ a.id → Visible a d p
  to_pipeline_readers :
      is_pipeline_centric p ≡ true → Holds a "crm.pipelines.read" "allow" → Visible a d p
  to_owners : is_pipeline_centric p ≡ false → d.owner_user_id ≡ a.id → Visible a d p

-- `can_see_deal` answers true exactly when one of the rules applies: the actor is unrestricted; reads
-- all deals; owns the deal and reads its own; in a pipeline-centric workspace reads pipelines; in any
-- other workspace owns the deal.
pub can_see_deal_iff :
    (a : Actor) (d : Deal) (p : Option OwnershipProfile)
    → (can_see_deal a d p ≡ true) ↔ Visible a d p
unfolding can_see_deal
can_see_deal_iff a d p = (to, from)
  where
    facts : (code access : String) → (has_permission a code access ≡ true) ↔ Holds a code access
    facts = has_permission_iff a

    to : can_see_deal a d p ≡ true → Visible a d p
    to h = elim (Bool-cases a.unrestricted) [
      | inl u ↦ to_unrestricted u
      | inr u ↦ elim (Bool-cases (has_permission a "crm.deals.read" "allow")) [
        | inl r ↦ to_readers ((facts _ _).0 r)
        | inr r ↦ elim (Bool-cases (is_pipeline_centric p)) [
          | inl c ↦ elim (Bool-cases (has_permission a "crm.pipelines.read" "allow")) [
            | inl q ↦ to_pipeline_readers c ((facts _ _).0 q)
            | inr q ↦
                to_owning_readers ((facts "crm.deals.read" "own").0 (ground arith))
                  ((opt_eq_iff d.owner_user_id a.id).0 (ground arith))
          ]
          | inr c ↦ to_owners c ((opt_eq_iff d.owner_user_id a.id).0 (ground arith))
        ]
      ]
    ]

    from : Visible a d p → can_see_deal a d p ≡ true
    from (to_unrestricted u) = ground arith
    from (to_readers r) = ground (arith, (facts "crm.deals.read" "allow").1 r)
    from (to_owning_readers r o) =
        ground (arith, (facts "crm.deals.read" "own").1 r, opt_eq_iff d.owner_user_id a.id)
    from (to_pipeline_readers c q) = ground (arith, (facts "crm.pipelines.read" "allow").1 q)
    from (to_owners c o) = ground (arith, opt_eq_iff d.owner_user_id a.id)

elem_iff : (a : String) (xs : List String) → (elem a xs ≡ true) ↔ In a xs
elem_iff a [] = ground arith
elem_iff a (x ∷ xs) = ground (arith, eq_iff a x, elem_iff a xs)

abbrev Shares : List Uuid → List Uuid → Type 0
Shares granted theirs = (t : Uuid) × In t granted × In t theirs

overlaps_iff :
    (granted theirs : List Uuid) → (overlaps granted theirs ≡ true) ↔ Shares granted theirs
overlaps_iff [] theirs = (λ h. absurd (ground arith), λ s. absurd (s.1))
overlaps_iff (g ∷ gs) theirs = (to (overlaps_iff gs theirs), from (overlaps_iff gs theirs))
  where
    to :
        ((overlaps gs theirs ≡ true) ↔ Shares gs theirs)
        → overlaps (g ∷ gs) theirs ≡ true
        → Shares (g ∷ gs) theirs
    to rest h = elim (Bool-cases (elem g theirs)) [
      | inl e ↦ (g, inl refl, (elem_iff g theirs).0 e)
      | inr e ↦ let (t, i, j) = rest.0 (ground arith) in (t, inr i, j)
    ]

    from :
        ((overlaps gs theirs ≡ true) ↔ Shares gs theirs)
        → Shares (g ∷ gs) theirs
        → overlaps (g ∷ gs) theirs ≡ true
    from rest (t, inl e, j) = ground (arith, (elem_iff t theirs).1 j)
    from rest (t, inr i, j) = ground (arith, rest.1 (t, i, j))

-- The rules by which a pipeline is visible.
pub data PipelineVisible (a : Actor) (granted theirs : List Uuid) : Type 0 where
  to_readers : Holds a "crm.pipelines.read" "allow" → PipelineVisible a granted theirs
  to_all : granted ≡ [] → PipelineVisible a granted theirs
  to_team : (t : Uuid) → In t granted → In t theirs → PipelineVisible a granted theirs

-- `can_see_pipeline` answers true exactly when the actor reads all pipelines (as an unrestricted one
-- does), or the pipeline has no team grant at all, or one of the actor's teams has a grant.
pub can_see_pipeline_iff :
    (a : Actor) (granted theirs : List Uuid)
    → (can_see_pipeline a granted theirs ≡ true) ↔ PipelineVisible a granted theirs
unfolding can_see_pipeline
can_see_pipeline_iff a [] theirs = (λ _. to_all refl, λ _. ground arith)
can_see_pipeline_iff a (g ∷ gs) theirs = (to, from)
  where
    to : can_see_pipeline a (g ∷ gs) theirs ≡ true → PipelineVisible a (g ∷ gs) theirs
    to h = elim (Bool-cases (has_permission a "crm.pipelines.read" "allow")) [
      | inl r ↦ to_readers ((has_permission_iff a _ _).0 r)
      | inr r ↦ elim (Bool-cases a.unrestricted) [
        | inl u ↦ to_readers (unrestricted u)
        | inr u ↦ let (t, i, j) = (overlaps_iff (g ∷ gs) theirs).0 (ground arith) in to_team t i j
      ]
    ]

    from : PipelineVisible a (g ∷ gs) theirs → can_see_pipeline a (g ∷ gs) theirs ≡ true
    from (to_readers r) = ground (arith, (has_permission_iff a "crm.pipelines.read" "allow").1 r)
    from (to_all e) = absurd (ground arith)
    from (to_team t i j) = ground (arith, (overlaps_iff (g ∷ gs) theirs).1 (t, i, j))

-- The filter returns exactly the given deals that the rules make visible.
pub filter_deals_iff :
    (a : Actor) (p : Option OwnershipProfile) (deals : List Deal) (d : Deal)
    → In d (filter_deals_for_actor a p deals) ↔ (In d deals × Visible a d p)
unfolding filter_deals_for_actor
filter_deals_iff a p [] d = (λ i. absurd i, λ i. i.0)
filter_deals_iff a p (e ∷ deals) d =
    ground (arith, can_see_deal_iff a e p, filter_deals_iff a p deals d)
