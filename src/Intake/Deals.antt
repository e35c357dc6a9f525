-- ===== src/Intake/Deals.antt =====
-- The deal that a submitted form ends with.
use phera.Common.{
  String, ◌≡◌, refl, inl, inr, true, false, some, List, [], ◌∷◌, arith, ◌==◌, eq_iff, In, where_,
  where_-In, Option-cases, Bool-cases,
}
use mathlib.Core.Path.{subst}
use phera.Models.{Contact, Deal, Pipeline, Stage}
use phera.Session.{Session, ok, err, ◌>>=◌, integrity_error}
use phera.Intake.{
  resolve_deal, reopen_or_create, reopen_deal, create_deal, save_deal, latest_deal, is_open_of,
  is_deal_of,
}

-- An open deal of the contact in the pipeline.
pub record IsOpenOf (c : Contact) (p : Pipeline) (d : Deal) : Type 0 where
  pub status : d.status ≡ "open"
  pub contact : d.contact_id ≡ c.id
  pub pipeline : d.pipeline_id ≡ p.id

pub latest-In : (ds : List Deal) (d : Deal) → latest_deal ds ≡ some d → In d ds
unfolding latest_deal
latest-In [] d h = absurd (ground arith)
latest-In (e ∷ ds) d h = ground (arith, latest-In ds d)

pub is_deal_of_sound :
    (a b : String) (d : Deal) → is_deal_of a b d ≡ true → (d.contact_id ≡ a) × (d.pipeline_id ≡ b)
is_deal_of_sound a b d h =
    (ground (arith, eq_iff d.contact_id a), ground (arith, eq_iff d.pipeline_id b))

create_deal-IsOpenOf :
    (c : Contact) (p : Pipeline) (g : Stage) (d : Deal) (action : String) (s : Session)
    → (create_deal c p g s).0 ≡ ok (d, action)
    → IsOpenOf c p d
unfolding create_deal ◌>>=◌
create_deal-IsOpenOf c p g d action s h = record {
  status = ground arith;
  contact = ground arith;
  pipeline = ground arith;
}

reopen_or_create-IsOpenOf :
    (c : Contact) (p : Pipeline) (g : Stage) (policy : String) (d : Deal) (action : String)
    (s : Session)
    → (reopen_or_create c p g policy s).0 ≡ ok (d, action)
    → IsOpenOf c p d
unfolding reopen_or_create reopen_deal save_deal ◌>>=◌
reopen_or_create-IsOpenOf c p g policy d action s h =
    let rows = where_ (is_deal_of c.id p.id) s.db.deals in
    elim (Bool-cases (policy == "reopen_latest")) [
      | inr q ↦ create_deal-IsOpenOf c p g d action s (ground arith)
      | inl q ↦ elim (Option-cases (latest_deal rows)) [
        | inl k ↦ create_deal-IsOpenOf c p g d action s (ground arith)
        | inr (e, k) ↦ elim (Bool-cases (e.status == "open")) [
          | inl o ↦ create_deal-IsOpenOf c p g d action s (ground arith)
          | inr o ↦
              let (i, f) = where_-In (is_deal_of c.id p.id) e s.db.deals (latest-In rows e k) in
              let (a, b) = is_deal_of_sound c.id p.id e f in
              record {
                status = ground arith;
                contact = ground (arith, a);
                pipeline = ground (arith, b);
              }
        ]
      ]
    ]

open_rows :
    (c : Contact) (p : Pipeline) (d : Deal) (s : Session)
    → where_ (is_open_of c.id p.id) s.db.deals ≡ d ∷ []
    → IsOpenOf c p d
open_rows c p d s q =
    let f = is_open_of c.id p.id in
    let (i, h) = where_-In f d s.db.deals (rw q (inl refl)) in
    let (a, b) = is_deal_of_sound c.id p.id d (ground arith) in
    record { status = ground (arith, eq_iff d.status "open"); contact = a; pipeline = b }

resolved :
    (c : Contact) (p : Pipeline) (g : Stage) (policy : String) (d : Deal) (action : String)
    (s : Session) (rows : List Deal)
    → where_ (is_open_of c.id p.id) s.db.deals ≡ rows
    → (resolve_deal c p g policy s).0 ≡ ok (d, action)
    → IsOpenOf c p d
unfolding resolve_deal ◌>>=◌
resolved c p g policy d action s [] q h =
    reopen_or_create-IsOpenOf c p g policy d action s (ground arith)
resolved c p g policy d action s (e ∷ []) q h = elim (Bool-cases (policy == "reuse_open_deal")) [
  | inl r ↦
      let o = open_rows c p e s q in let same : e ≡ d = ground arith in subst (IsOpenOf c p) same o
  | inr r ↦ create_deal-IsOpenOf c p g d action s (ground arith)
]
resolved c p g policy d action s (e ∷ f ∷ rows) q h = absurd (ground arith)

-- Under every policy, a deal that `resolve_deal` returns is open and is the contact's in the pipeline,
-- whether it was reused, reopened or created.
pub resolve_deal-IsOpenOf :
    (c : Contact) (p : Pipeline) (g : Stage) (policy : String) (d : Deal) (action : String)
    (s : Session)
    → (resolve_deal c p g policy s).0 ≡ ok (d, action)
    → IsOpenOf c p d
resolve_deal-IsOpenOf c p g policy d action s h =
    let rows = where_ (is_open_of c.id p.id) s.db.deals in
    resolved c p g policy d action s rows refl h

-- With one open deal of the contact in the pipeline and another policy than to reuse it, `resolve_deal`
-- fails on the unique index and leaves the deals as they were.
pub resolve_deal_taken :
    (c : Contact) (p : Pipeline) (g : Stage) (policy : String) (d : Deal) (s : Session)
    → where_ (is_open_of c.id p.id) s.db.deals ≡ d ∷ []
    → (policy == "reuse_open_deal") ≡ false
    → ((resolve_deal c p g policy s).0 ≡ err integrity_error)
      × ((resolve_deal c p g policy s).1.db.deals ≡ s.db.deals)
unfolding resolve_deal create_deal ◌>>=◌
resolve_deal_taken c p g policy d s one other = (ground arith, ground arith)
