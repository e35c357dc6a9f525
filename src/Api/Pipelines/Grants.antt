-- ===== src/Api/Pipelines/Grants.antt =====
-- The team grants that `replace_pipeline_teams` of src/phera/api/routes/contacts.py leaves.
use phera.Common.{
  ◌≡◌, refl, sym, ap, ◌∙◌, ◌⊎◌, inl, inr, true, false, some, List, [], ◌∷◌, ◌==◌, eq_iff, eq_refl,
  arith, if◌then◌else◌, where_, Bool-cases, Option-cases,
}
use phera.Models.{Uuid, Pipeline, PipelineTeam}
use phera.Session.{Session, ok, err, pure, raise, gets, write, ◌>>=◌, http}
use phera.Session.Atomic.{ok≢err}
use phera.Session.Steps.{commit-durable}
use phera.Authz.Actor.{Actor}
use phera.Api.Pipelines.{
  grants_of, grants, replaced, replace_pipeline_teams, require_manage_pipelines,
  can_manage_pipelines, own_pipeline, own_pipeline_row, pipeline_by, check_teams, all_teams,
  repeats,
}

grants_of-grants : (id : Uuid) (ids : List Uuid) → grants_of id (grants id ids) ≡ ids
unfolding where_
grants_of-grants id [] = refl
grants_of-grants id (x ∷ ids) = rw (eq_refl id) (ap (λ xs. x ∷ xs) (grants_of-grants id ids))

grants_of-others :
    (id j : Uuid) (ids : List Uuid) → (id == j) ≡ false → grants_of j (grants id ids) ≡ []
unfolding where_
grants_of-others id j [] h = refl
grants_of-others id j (x ∷ ids) h = rw h (grants_of-others id j ids h)

grants_of-replaced :
    (id : Uuid) (ids : List Uuid) (rows : List PipelineTeam)
    → grants_of id (replaced id ids rows) ≡ ids
unfolding where_
grants_of-replaced id ids [] = grants_of-grants id ids
grants_of-replaced id ids (g ∷ rows) = elim (Bool-cases (g.pipeline_id == id)) [
  | inl q ↦ rw q (grants_of-replaced id ids rows)
  | inr q ↦ rw (q, q) (grants_of-replaced id ids rows)
]

grants_of-replaced_other :
    (id j : Uuid) (ids : List Uuid) (rows : List PipelineTeam)
    → (id == j) ≡ false
    → grants_of j (replaced id ids rows) ≡ grants_of j rows
unfolding where_
grants_of-replaced_other id j ids [] h = grants_of-others id j ids h
grants_of-replaced_other id j ids (g ∷ rows) h = elim (Bool-cases (g.pipeline_id == id)) [
  | inl q ↦
      let other : (g.pipeline_id == j) ≡ false =
        ground (arith, eq_iff g.pipeline_id id, eq_iff g.pipeline_id j, eq_iff id j) in
      rw (q, other) (grants_of-replaced_other id j ids rows h)
  | inr q ↦ elim (Bool-cases (g.pipeline_id == j)) [
    | inl r ↦ rw (q, r) (ap (λ xs. g.team_id ∷ xs) (grants_of-replaced_other id j ids rows h))
    | inr r ↦ rw (q, r) (grants_of-replaced_other id j ids rows h)
  ]
]

grants_of-replaced_each :
    (id j : Uuid) (ids : List Uuid) (rows : List PipelineTeam)
    → grants_of j (replaced id ids rows) ≡ (if id == j then ids else grants_of j rows)
grants_of-replaced_each id j ids rows = elim (Bool-cases (id == j)) [
  | inl q ↦
      let same : id ≡ j = ground (arith, eq_iff id j) in
      rw q (ap (λ x. grants_of j (replaced x ids rows)) same ∙ grants_of-replaced j ids rows)
  | inr q ↦ rw q (grants_of-replaced_other id j ids rows q)
]

-- Who may, and to what.
pub record IsGranted (workspace : Uuid) (actor : Actor) (id : Uuid) (ids : List Uuid)
    (before after : Session) : Type 0 where
  pub may : can_manage_pipelines actor ≡ true
  pub pipeline : Pipeline
  pub found : pipeline_by id before.db.pipelines ≡ some pipeline
  pub own : pipeline.workspace_id ≡ workspace
  pub distinct : repeats ids ≡ false
  pub teams : all_teams workspace before.db.teams ids ≡ true
  pub granted :
      (j : Uuid)
      → grants_of j after.durable.pipeline_teams
        ≡ (if id == j then ids else grants_of j before.db.pipeline_teams)

own_pipeline-cases :
    (workspace id : Uuid) (s : Session)
    → ((p : Pipeline) × (own_pipeline workspace id s ≡ (ok p, s))
        × (pipeline_by id s.db.pipelines ≡ some p)
        × (p.workspace_id ≡ workspace))
      ⊎ ((own_pipeline workspace id s).0 ≡ err (http 404 "Pipeline not found"))
unfolding own_pipeline own_pipeline_row gets pure raise ◌>>=◌
own_pipeline-cases workspace id s = elim (Option-cases (pipeline_by id s.db.pipelines)) [
  | inl q ↦ inr (rw q refl)
  | inr (p, q) ↦ elim (Bool-cases (p.workspace_id == workspace)) [
    | inl e ↦ inl (p, rw (q, e) refl, q, ground (arith, eq_iff p.workspace_id workspace))
    | inr e ↦ inr (rw (q, e) refl)
  ]
]

-- When the teams of a pipeline are replaced, the caller may manage pipelines, the pipeline is one of
-- the workspace's, the teams are teams of the workspace and each is named once; what is committed then
-- grants the pipeline to these teams, in their order, and every other pipeline as before.
pub replace_pipeline_teams-IsGranted :
    (workspace : Uuid) (actor : Actor) (id : Uuid) (ids : List Uuid) (s : Session) (a : List Uuid)
    → (replace_pipeline_teams workspace actor id ids s).0 ≡ ok a
    → IsGranted workspace actor id ids s (replace_pipeline_teams workspace actor id ids s).1
unfolding replace_pipeline_teams require_manage_pipelines check_teams gets pure raise write ◌>>=◌
replace_pipeline_teams-IsGranted workspace actor id ids s a h =
    elim (Bool-cases (can_manage_pipelines actor)) [
      | inr m ↦ elim (ok≢err (sym (rw m at h))) [ ]
      | inl m ↦ elim (own_pipeline-cases workspace id s) [
        | inr q ↦ elim (ok≢err (sym (rw (m, q) at h))) [ ]
        | inl (p, o, found, own) ↦ elim (Bool-cases (repeats ids)) [
          | inl r ↦ elim (ok≢err (sym (rw (m, o, r) at h))) [ ]
          | inr r ↦ elim (Bool-cases (all_teams workspace s.db.teams ids)) [
            | inr t ↦ elim (ok≢err (sym (rw (m, o, r, t) at h))) [ ]
            | inl t ↦
                let s' : Session = record s {
                  db = record s.db { pipeline_teams = replaced id ids s.db.pipeline_teams };
                } in
                let c = commit-durable (pure ids) s' a (λ s. refl) (rw (m, o, r, t) at h) in
                rw (m, o, r, t)
                  (record {
                    may = m;
                    pipeline = p;
                    found = found;
                    own = own;
                    distinct = r;
                    teams = t;
                    granted = λ j.
                        ap (λ db. grants_of j db.pipeline_teams) c
                        ∙ grants_of-replaced_each id j ids s.db.pipeline_teams;
                  })
          ]
        ]
      ]
    ]
