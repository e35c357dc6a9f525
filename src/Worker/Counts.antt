-- ===== src/Worker/Counts.antt =====
-- What `run_daily_rollup` of src/phera/worker/runner.py counts, and that it counts a day once.
use phera.Common.{
  ℕ, suc, ◌+◌, String, ◌≡◌, refl, ap, ◌∙◌, inl, inr, Bool, true, false, ◌&&◌, Option, none, some,
  List, [], ◌∷◌, ◌++◌, ◌==◌, eq_iff, eq_refl, arith, if◌then◌else◌, where_, update_rows, first,
  length, eqb, any, Dict, get, get-put, Bool-cases, Option-cases,
}
use phera.Models.{Uuid, Time, AuditEvent, Deal, RollupRun, MetricDaily}
use phera.Session.{Session, ok, pure, gets, write, now, ◌>>=◌}
use phera.Worker.Rollup.{
  tally, add_one, no_metrics, is_run, run_by, is_taken, started_run, start_rows, save_rollup,
  completed, add_aging, roll_up, run_daily_rollup, metric_row, is_on_day, is_open_deal,
}

abbrev pub count : String → List AuditEvent → ℕ
count action es = length (where_ (λ e. e.action == action) es)

abbrev one_if : Bool → ℕ
one_if b = if b then 1 else 0

add_one-get :
    (action key : String) (d : Dict ℕ) (n : ℕ)
    → get action d ≡ some n
    → get action (add_one key (get key d) d) ≡ some (n + one_if (key == action))
add_one-get action key d n h = elim (Bool-cases (key == action)) [
  | inl q ↦
      let same : key ≡ action = ground (arith, eq_iff key action) in
      rw (q, same, h)
        (get-put action action (suc n) d ∙ rw (eq_refl action) (ap some (omega arith)))
  | inr q ↦ elim (Option-cases (get key d)) [
    | inl g ↦ rw (q, g) (h ∙ ap some (omega arith))
    | inr (m, g) ↦ rw (q, g) (get-put key action (suc m) d ∙ rw q (h ∙ ap some (omega arith)))
  ]
]

tally-count :
    (action : String) (es : List AuditEvent) (d : Dict ℕ) (n : ℕ)
    → get action d ≡ some n
    → get action (tally es d) ≡ some (n + count action es)
unfolding tally where_
tally-count action [] d n h = rw h (ap some (omega arith))
tally-count action (e ∷ es) d n h =
    tally-count action es _ _ (add_one-get action e.action d n h)
    ∙ ap some (ground (arith, eq_refl e.action))

abbrev ZeroFor : String → Type 0
ZeroFor action = get action no_metrics ≡ some 0

zeros : ZeroFor "created" × ZeroFor "stage_changed" × ZeroFor "assigned"
unfolding get
zeros = (refl, refl, refl)

tally-day :
    (action : String) (es : List AuditEvent)
    → ZeroFor action
    → get action (tally es no_metrics) ≡ some (count action es)
tally-day action es z = tally-count action es no_metrics 0 z ∙ ap some (omega arith)

module _ (p : RollupRun → Bool) (c : RollupRun) (own : p c ≡ true) where
  first-updated :
      (rows : List RollupRun)
      → any p rows ≡ true
      → first (where_ p (update_rows p (λ _. c) rows)) ≡ some c
  unfolding where_ update_rows any
  first-updated [] h = absurd cc
  first-updated (r ∷ rows) h = elim (Bool-cases (p r)) [
    | inl q ↦ rw (q, own) refl
    | inr q ↦ rw (q, q) (first-updated rows (rw q at h))
  ]

  any-last : (rows : List RollupRun) → any p (rows ++ c ∷ []) ≡ true
  unfolding any
  any-last [] = ground (arith, own)
  any-last (r ∷ rows) = ground (arith, any-last rows)

  any-updated :
      (r : RollupRun) (rows : List RollupRun)
      → first (where_ p rows) ≡ some r
      → any p (update_rows p (λ _. c) rows) ≡ true
  unfolding where_ update_rows any
  any-updated r [] h = absurd cc
  any-updated r (x ∷ rows) h = elim (Bool-cases (p x)) [
    | inl q ↦ rw (q, own) refl
    | inr q ↦ rw (q, q) (any-updated r rows (rw q at h))
  ]

add_aging-frame :
    (day : ℕ) (workspace : Uuid) (ds : List Deal) (s : Session)
    → ((add_aging day workspace ds s).0 ≡ ok tt)
      × ((add_aging day workspace ds s).1.db.rollup_runs ≡ s.db.rollup_runs)
      × ((add_aging day workspace ds s).1.db.metrics_daily ≡ s.db.metrics_daily)
unfolding add_aging now write pure ◌>>=◌
add_aging-frame day workspace [] s = (refl, refl, refl)
add_aging-frame day workspace (d ∷ ds) s = add_aging-frame day workspace ds _

is_run-own : (day : ℕ) (workspace : Uuid) → eqb day day && workspace == workspace ≡ true
is_run-own day workspace = ground (arith, eq_refl workspace)

start_rows-any :
    (day : ℕ) (workspace : Uuid) (existing : Option RollupRun) (at : Time) (rows : List RollupRun)
    → run_by day workspace rows ≡ existing
    → any (is_run day workspace) (start_rows existing (started_run day workspace at) rows) ≡ true
start_rows-any day workspace none at rows h =
    any-last (is_run day workspace) (started_run day workspace at) (is_run-own day workspace) rows
start_rows-any day workspace (some r) at rows h =
    any-updated (is_run day workspace) (started_run day workspace at) (is_run-own day workspace) r
      rows h

-- A run of a day that nobody has.
pub record IsRolledUp (day : ℕ) (workspace : Uuid) (before after : Session) : Type 0 where
  pub run : RollupRun
  pub found : run_by day workspace after.db.rollup_runs ≡ some run
  pub is_completed : run.status ≡ "completed"
  pub rows_in : run.rows_in ≡ length (where_ (is_on_day day workspace) before.db.audit_events)
  pub rows_out : run.rows_out ≡ suc (length (where_ (is_open_deal workspace) before.db.deals))
  pub row : MetricDaily
  pub added : after.db.metrics_daily ≡ before.db.metrics_daily ++ row ∷ []
  pub created_count :
      get "created" row.metrics
      ≡ some (count "created" (where_ (is_on_day day workspace) before.db.audit_events))
  pub stage_changed_count :
      get "stage_changed" row.metrics
      ≡ some (count "stage_changed" (where_ (is_on_day day workspace) before.db.audit_events))
  pub assigned_count :
      get "assigned" row.metrics
      ≡ some (count "assigned" (where_ (is_on_day day workspace) before.db.audit_events))

roll_up-IsRolledUp :
    (day : ℕ) (workspace : Uuid) (existing : Option RollupRun) (s : Session)
    → run_by day workspace s.db.rollup_runs ≡ existing
    → ((roll_up day workspace existing s).0 ≡ ok tt)
      × IsRolledUp day workspace s (roll_up day workspace existing s).1
unfolding roll_up save_rollup now write gets ◌>>=◌
roll_up-IsRolledUp day workspace existing s h =
    let at = s.clock s.ticks in
    let run = started_run day workspace at in
    let events = where_ (is_on_day day workspace) s.db.audit_events in
    let deals = where_ (is_open_deal workspace) s.db.deals in
    let row = metric_row day workspace (tally events no_metrics) in
    let s1 : Session = record s {
      db = record s.db {
        metrics_daily = s.db.metrics_daily ++ row ∷ [];
        rollup_runs = start_rows existing run s.db.rollup_runs;
      };
      ticks = suc s.ticks;
    } in
    let (q, f, g) = add_aging-frame day workspace deals s1 in
    let s2 = (add_aging day workspace deals s1).1 in
    let c = completed run (length events) (suc (length deals)) (s2.clock s2.ticks) in
    let own = is_run-own day workspace in
    rw q (
      refl,
      record {
        run = c;
        found =
            ap (λ rows. run_by day workspace (update_rows (is_run day workspace) (λ _. c) rows)) f
            ∙ first-updated (is_run day workspace) c own _
                (start_rows-any day workspace existing at s.db.rollup_runs h);
        is_completed = refl;
        rows_in = refl;
        rows_out = refl;
        row = row;
        added = g;
        created_count = tally-day "created" events zeros.0;
        stage_changed_count = tally-day "stage_changed" events zeros.1;
        assigned_count = tally-day "assigned" events zeros.2;
      },
    )

-- A rollup of a day that is neither done nor at work returns, and leaves a completed run of the day,
-- whose counts are the numbers of the day's audit events of the workspace and of one row more than its
-- open deals, and one more metric row, whose three numbers are those of the day's events of each
-- action. Rolled up again, the day changes nothing.
pub run_daily_rollup_once :
    (workspace : Uuid) (day : ℕ) (s : Session)
    → is_taken (run_by day workspace s.db.rollup_runs) ≡ false
    → ((run_daily_rollup workspace day s).0 ≡ ok tt)
      × IsRolledUp day workspace s (run_daily_rollup workspace day s).1
      × (run_daily_rollup workspace day (run_daily_rollup workspace day s).1
          ≡ (ok tt, (run_daily_rollup workspace day s).1))
unfolding run_daily_rollup gets pure ◌>>=◌
run_daily_rollup_once workspace day s free =
    let (q, r) = roll_up-IsRolledUp day workspace _ s refl in
    rw free (q, r, rw (r.found, r.is_completed) refl)
