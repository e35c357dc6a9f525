-- ===== src/Api/Deals/Stages.antt =====
-- The stage of a deal through `move_deal_stage` and `assign_deal` of src/phera/api/routes/contacts.py.
use phera.Common.{
  suc, Dict, String, ◌≡◌, refl, sym, ◌∙◌, ◌⊎◌, inl, inr, Option, none, some, List, [], ◌∷◌, ◌==◌,
  eq_iff, arith, update_rows, All, Bool-cases,
}
use mathlib.Core.Path.{subst}
use phera.Models.{Uuid, Deal, Stage, Db}
use phera.Session.{
  M, Session, write, gets, now, pure, raise, publish_inbox_event, http, commit_and_notify, Error,
  ok, err, ◌>>=◌, ◌>>◌, Result-cases,
}
use phera.Session.Atomic.{IsQuiet, IsAtomic, quiet, safe, atomic, ok≢err}
use phera.Session.Steps.{IsLast, commit-durable}
use phera.Authz.Actor.{Actor}
use phera.Mutate.{MutateRequest, mutate}
use phera.Mutate.Recorded.{mutate-IsQuiet, mutate-returned, mutate-deals}
use phera.Api.Deals.{
  stage_by, move_deal_stage, assign_deal, own_deal, own_deal_row, check_stage, save_deal, moved,
}

-- The deal is in a stage of its own pipeline.
abbrev pub IsPlaced : List Stage → Deal → Type 0
IsPlaced stages d =
    (st : Stage) × (stage_by d.stage_id stages ≡ some st) × (st.pipeline_id ≡ d.pipeline_id)

saved-IsPlaced :
    (stages : List Stage) (new : Deal) (rows : List Deal)
    → IsPlaced stages new
    → All (IsPlaced stages) rows
    → All (IsPlaced stages) (update_rows (λ e. e.id == new.id) (λ _. new) rows)
unfolding update_rows
saved-IsPlaced stages new [] p h = tt
saved-IsPlaced stages new (d ∷ rows) p h =
    let rest = saved-IsPlaced stages new rows p h.1 in
    elim (Bool-cases (d.id == new.id)) [ inl q ↦ rw q (p, rest) | inr q ↦ rw q (h.0, rest) ]

own_deal_row-IsQuiet :
    (workspace : Uuid) (found : Option Deal) → IsQuiet (own_deal_row workspace found)
unfolding own_deal_row
own_deal_row-IsQuiet workspace none = search quiet
own_deal_row-IsQuiet workspace (some d) = search quiet

own_deal-IsQuiet : (workspace id : Uuid) → IsQuiet (own_deal workspace id)
unfolding own_deal
own_deal-IsQuiet workspace id = search (quiet, own_deal_row-IsQuiet)

check_stage-IsQuiet : (d : Deal) (st : Option Stage) → IsQuiet (check_stage d st)
unfolding check_stage
check_stage-IsQuiet d none = search quiet
check_stage-IsQuiet d (some st) = search quiet

save_deal-IsQuiet : (d : Deal) → IsQuiet (save_deal d)
unfolding save_deal
save_deal-IsQuiet d = search quiet

ruleset parts =
    (own_deal-IsQuiet, check_stage-IsQuiet, save_deal-IsQuiet, mutate-IsQuiet, quiet, safe, atomic)

pub move_deal_stage-IsAtomic :
    (workspace : Uuid) (actor : Actor) (id stage : Uuid)
    → IsAtomic (move_deal_stage workspace actor id stage)
unfolding move_deal_stage
move_deal_stage-IsAtomic workspace actor id stage = search parts depth 16

pub assign_deal-IsAtomic :
    (workspace : Uuid) (actor : Actor) (id : Uuid) (user : String)
    → IsAtomic (assign_deal workspace actor id user)
unfolding assign_deal
assign_deal-IsAtomic workspace actor id user = search parts depth 16

abbrev pub Placed : Db → Type 0
Placed db = All (IsPlaced db.stages) db.deals

mutate-Placed : (req : MutateRequest) (s : Session) → Placed s.db → Placed (mutate req s).1.db
mutate-Placed req s p = let (deals, stages) = mutate-deals req s in rw (deals, stages) p

module _ {A : Type 0} (new : Deal) (req : MutateRequest) (k : M A) (last : IsLast k) (s : Session)
    (a : A) where
  saved_then-Placed :
      Placed s.db
      → IsPlaced s.db.stages new
      → ((save_deal new >> (mutate req >> (commit_and_notify >> k))) s).0 ≡ ok a
      → Placed ((save_deal new >> (mutate req >> (commit_and_notify >> k))) s).1.durable
  unfolding save_deal write ◌>>=◌
  saved_then-Placed p n h =
      let s' = (save_deal new s).1 in
      let r = mutate-returned req s' in
      let saved : Placed s'.db = saved-IsPlaced s.db.stages new s.db.deals n p in
      rw r (
        subst Placed (sym (commit-durable k (mutate req s').1 a last (rw r at h)))
          (mutate-Placed req s' saved))

own_deal_row-state :
    (workspace : Uuid) (found : Option Deal) (s : Session) → (own_deal_row workspace found s).1 ≡ s
unfolding own_deal_row pure raise
own_deal_row-state workspace none s = refl
own_deal_row-state workspace (some d) s = ground arith

own_deal-state : (workspace id : Uuid) (s : Session) → (own_deal workspace id s).1 ≡ s
unfolding own_deal gets ◌>>=◌
own_deal-state workspace id s = own_deal_row-state workspace _ s

-- The target is a stage of the deal's pipeline, or the request fails.
check_stage-cases :
    (d : Deal) (target : Option Stage) (s : Session)
    → ((st : Stage) × (target ≡ some st)
        × (st.pipeline_id ≡ d.pipeline_id)
        × (check_stage d target s ≡ (ok tt, s)))
      ⊎ ((e : Error) × ((check_stage d target s).0 ≡ err e))
unfolding check_stage pure raise
check_stage-cases d none s = inr (_, refl)
check_stage-cases d (some st) s = elim (Bool-cases (st.pipeline_id == d.pipeline_id)) [
  | inl q ↦ inl (st, refl, ground (arith, eq_iff st.pipeline_id d.pipeline_id), rw q refl)
  | inr q ↦ inr (http 400 "Target stage does not belong to this deal's pipeline", rw q refl)
]

publish_then-IsLast :
    (payload : Dict String) (d : Deal) → IsLast (publish_inbox_event payload >> pure d)
unfolding publish_inbox_event pure ◌>>=◌
publish_then-IsLast payload d s = refl

module _ (workspace : Uuid) (actor : Actor) (id stage : Uuid) (s : Session) where
  moved-Placed :
      (a : Deal)
      → Placed s.db
      → (move_deal_stage workspace actor id stage s).0 ≡ ok a
      → Placed (move_deal_stage workspace actor id stage s).1.durable
  unfolding move_deal_stage now gets ◌>>=◌
  moved-Placed a p h = elim (Result-cases (own_deal workspace id s).0) [
    | inr (e, q) ↦ elim (ok≢err (sym (rw q at h))) [ ]
    | inl (d, q) ↦
        let same = own_deal-state workspace id s in
        elim (check_stage-cases d (stage_by stage s.db.stages) s) [
          | inr (e, r) ↦ elim (ok≢err (sym (rw (q, same, r) at h))) [ ]
          | inl (st, f, g, r) ↦
              let at = s.clock s.ticks in
              let new = moved stage at d in
              let s' : Session = record s { ticks = suc s.ticks } in
              rw (q, same, r)
                (saved_then-Placed new _ _ (publish_then-IsLast _ new) s' a p (st, f, g)
                  (rw (q, same, r) at h))
        ]
  ]

-- Where every deal is in a stage of its own pipeline, it is so after every request to move a deal,
-- whether the request succeeds or fails: the target of the move is a stage of the deal's pipeline.
pub move_deal_stage-Placed :
    (workspace : Uuid) (actor : Actor) (id stage : Uuid) (s : Session)
    → s.db ≡ s.durable
    → Placed s.db
    → Placed (move_deal_stage workspace actor id stage s).1.durable
move_deal_stage-Placed workspace actor id stage s same p =
    elim (Result-cases (move_deal_stage workspace actor id stage s).0) [
      | inl (a, q) ↦ moved-Placed workspace actor id stage s a p q
      | inr (e, q) ↦
          let unseen = move_deal_stage-IsAtomic workspace actor id stage s e q in
          subst Placed (same ∙ sym unseen.durable) p
    ]
