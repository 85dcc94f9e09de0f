-- ===== src/Ci/Dispatcher/Malformed.antt =====
-- internal/ci/dispatcher.go and internal/ci/report.go: the run of a malformed workflow.
use gitmote.Common.{
  ℕ, true, not, List, [], ◌∷◌, Bytes, All, any, ◌==◌, ==-refl, keep, Option, none, some, ◌≡◌, refl,
  ap, ◌∙◌,
}
use gitmote.Meta.Schema.{Db, Run, Job, RunStatus, passed, failed}
use gitmote.Meta.Sql.{next_fault, later}
use gitmote.Meta.Ci.{next_run_id, run_with_id, update_runs, set_run_status, list_jobs}
use gitmote.Meta.Ci.Sweep.{quiet, with_jobs}
use gitmote.Repo.Browse.{TreeEntry}
use gitmote.Ci.EnvSecrets.{Env}
use gitmote.Ci.Report.{rollup, rollup_from, rollup_run}
use gitmote.Ci.Report.Endings.{jobs_of}
use gitmote.Ci.Dispatcher.{Event, Dispatcher, State, validate, is_workflow, dispatch}
use gitmote.Ci.Dispatcher.Outcome.{IsCalm, IsPush, dispatch-recorded}

rollup_passed : (js : List Job) → All (λ j. j.status ≡ passed) js → rollup_from passed js ≡ passed
unfolding rollup_from
rollup_passed [] h = refl
rollup_passed (j ∷ js) h = rw h.0 (rollup_passed js h.1)

-- The status of the run with an id.
abbrev status_of : Option Run → Option RunStatus
status_of none = none
status_of (some r) = some r.status

abbrev pub run_status : ℕ → List Run → Option RunStatus
run_status id rows = status_of (run_with_id id rows)

run_status-update :
    (id clock : ℕ) (r : Run) (rows : List Run) (status : RunStatus)
    → (r.id == id) ≡ true
    → run_status id
        (update_runs id (λ x. record x { status = status; updated_at = clock }) (r ∷ rows))
      ≡ some status
unfolding run_with_id update_runs
run_status-update id clock r rows status e = rw e (rw e refl)

rollup_run-passed :
    (id clock : ℕ) (db : Db) (r : Run) (rows : List Run)
    → db.ci_runs ≡ r ∷ rows
    → (r.id == id) ≡ true
    → All (λ j. j.status ≡ passed) (jobs_of id db)
    → run_status id (rollup_run id (quiet db clock)).db.ci_runs ≡ some passed
unfolding rollup_run list_jobs set_run_status next_fault later rollup
rollup_run-passed id clock db r rows e i h =
    rw (e, i, rollup_passed (jobs_of id db) h) (run_status-update id clock r rows passed i)

-- A push that selects a malformed workflow leaves a failed run. Whatever the jobs are afterwards, if
-- those of the run have passed, then the roll-up that follows a report makes the run passed.
pub rollup_run-dispatch :
    (d : Dispatcher) (ev : Event) (db : Db) (clock later_clock : ℕ) (dir : Bytes)
    (entries : List TreeEntry) (envs : List Env) (jobs : List Job)
    → IsCalm d
    → IsPush d ev db clock dir entries
    → any (λ f. not (validate d dir ev.new_sha f.path)) (keep (is_workflow d ev dir) entries) ≡ true
    → All (λ j. j.status ≡ passed) (jobs_of (next_run_id db.ci_runs) (with_jobs db jobs))
    → let id = next_run_id db.ci_runs in
      let s = dispatch d ev (record { world = quiet db clock; triggered = envs }) in
      let finished = with_jobs s.world.db jobs in
      (run_status id s.world.db.ci_runs ≡ some failed)
      × (run_status id (rollup_run id (quiet finished later_clock)).db.ci_runs ≡ some passed)
unfolding run_with_id
rollup_run-dispatch d ev db clock later_clock dir entries envs jobs calm p bad h =
    let (tokens, same) = dispatch-recorded d ev db clock calm dir entries envs p in
    let runs = ap (λ (s : State). s.world.db.ci_runs) same in
    let id = next_run_id db.ci_runs in
    (
      ap (run_status id) runs ∙ rw (bad, ==-refl id) refl,
      rollup_run-passed id later_clock _ _ db.ci_runs runs (==-refl id) h,
    )
