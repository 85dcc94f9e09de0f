-- ===== src/Ci/Dispatcher/Footprint.antt =====
-- internal/ci/dispatcher.go: what a dispatch may write, through every branch of it.
use gitmote.Common.{
  ℕ, ◌≤◌, true, ◌&&◌, List, [], ◌∷◌, Bytes, ◌==◌, ltb, keep, Result, ok, err, not_found, Option,
  none, some, ◌≡◌, inl, inr, refl, Bool-cases, starts_with,
}
use gitmote.Meta.Schema.{Db, Run, Job, failed, error}
use gitmote.Meta.Sql.{World, Sql}
use gitmote.Meta.Ci.{next_run_id, next_job_id, create_run, create_job}
use gitmote.Repo.Browse.{TreeEntry}
use gitmote.Ci.EnvSecrets.{Env}
use gitmote.Ci.Report.{workflow_dir}
use gitmote.Ci.Dispatcher.{
  Event, Minter, Dispatcher, State, Tally, branch_prefix, is_absent, validate, repo_secrets,
  stored_secrets, mint_with, mint_clone_token, move_run, job_env, trigger_job, created_job,
  start_job, start_jobs, settle_run, start_run, created_run, record_run, created_error_run,
  record_error_run, is_workflow, record_some, listed, materialized, dispatch, no_jobs,
}
use gitmote.Ci.Dispatcher.Extends.{
  IsWired, Extends, Extends-refl, Extends-eq, Extends-tokens, Extends-move_run,
  Extends-set_job_status, Extends-create_job, Extends-create_run,
}

module _ (d : Dispatcher) (ev : Event) (before : Db) where
  abbrev run_id : ℕ
  run_id = next_run_id before.ci_runs

  abbrev Ext : World → Type 0
  Ext w = Extends ev before w.db

  module _ (dir clone_token : Bytes) (secrets_env : Env) where
    Ext-trigger_job :
        (job : Job) (t : Tally) (s : State)
        → next_job_id before.ci_jobs ≤ job.id
        → Ext s.world
        → Ext (trigger_job d ev dir run_id clone_token secrets_env job t s).1.world
    unfolding trigger_job
    Ext-trigger_job job t s l h =
        elim (Bool-cases (d.trigger (job_env d ev run_id job.id clone_token secrets_env))) [
          | inl e ↦ rw e h
          | inr e ↦ rw e (Extends-set_job_status ev before job.id error s.world l h)
        ]

    Ext-created_job :
        (r : Result Job) (t : Tally) (s : State)
        → ((j : Job) → r ≡ ok j → next_job_id before.ci_jobs ≤ j.id)
        → Ext s.world
        → Ext (created_job d ev dir run_id clone_token secrets_env r t s).1.world
    Ext-created_job (err e) t s l h = h
    Ext-created_job (ok job) t s l h = Ext-trigger_job job t s (l job refl) h

    Ext-start_job :
        (f : TreeEntry) (t : Tally) (s : State)
        → Ext s.world
        → Ext (start_job d ev dir run_id clone_token secrets_env f t s).1.world
    unfolding start_job
    Ext-start_job f t s h =
        let (created, ids) = Extends-create_job ev before f.name s.world h in
        elim (Bool-cases (validate d dir ev.new_sha f.path)) [
          | inl e ↦ rw e (
              Ext-created_job (create_job run_id f.name s.world).0 t
                (record s { world = (create_job run_id f.name s.world).1 }) ids created)
          | inr e ↦ rw e h
        ]

    Ext-start_jobs :
        (files : List TreeEntry) (t : Tally) (s : State)
        → Ext s.world
        → Ext (start_jobs d ev dir run_id clone_token secrets_env files t s).1.world
    unfolding start_jobs
    Ext-start_jobs [] t s h = h
    Ext-start_jobs (f ∷ files) t s h =
        let (t', s') = start_job d ev dir run_id clone_token secrets_env f t s in
        Ext-start_jobs files t' s' (Ext-start_job f t s h)

  Ext-settle_run : (t : Tally) (s : State) → Ext s.world → Ext (settle_run d run_id t s).world
  unfolding settle_run move_run
  Ext-settle_run t s h = elim (Bool-cases t.malformed) [
    | inl e ↦ rw e (Extends-move_run ev before failed s.world h)
    | inr e ↦ elim (Bool-cases (ltb 0 t.jobs && t.trigger_errors == t.jobs)) [
      | inl g ↦ rw (e, g) (Extends-move_run ev before error s.world h)
      | inr g ↦ rw (e, g) h
    ]
  ]

  module _ (wired : IsWired d) where
    Ext-mint :
        (m : Option Minter) (w : World) → d.minter ≡ m → Ext w → Ext (mint_with d m ev run_id w).1
    Ext-mint none w e h = h
    Ext-mint (some mint) w e h =
        Extends-tokens ev before (wired.minter_adds mint e ev.pusher_id _ _ true _ w) h

    Ext-stored :
        (m : Option (ℕ → Sql Env)) (w : World)
        → d.secrets ≡ m
        → Ext w
        → Ext (stored_secrets d m ev.repo_id w).1
    Ext-stored none w e h = h
    Ext-stored (some load) w e h = Extends-eq ev before (wired.secrets_read load e ev.repo_id w) h

    Ext-start_run :
        (dir : Bytes) (files : List TreeEntry) (s : State)
        → Ext s.world
        → Ext (start_run d ev dir files run_id s).world
    unfolding start_run mint_clone_token repo_secrets
    Ext-start_run dir files s h = Ext-settle_run _ _ (
        Ext-start_jobs dir _ _ files no_jobs _
          (Ext-stored d.secrets _ refl (Ext-mint d.minter s.world refl h)))

    Ext-created_run :
        (dir : Bytes) (files : List TreeEntry) (r : Result Run) (s : State)
        → ((run : Run) → r ≡ ok run → run.id ≡ run_id)
        → Ext s.world
        → Ext (created_run d ev dir files r s).world
    Ext-created_run dir files (err e) s i h = h
    Ext-created_run dir files (ok run) s i h = rw (i run refl) (Ext-start_run dir files s h)

    Ext-record_run :
        (dir : Bytes) (files : List TreeEntry) (s : State)
        → s.world.db ≡ before
        → Ext (record_run d ev dir files s).world
    unfolding record_run
    Ext-record_run dir files s b =
        let (created, ids) = Extends-create_run ev before s.world b in
        Ext-created_run dir files (create_run ev.repo_id ev.ref ev.new_sha s.world).0
          (record s { world = (create_run ev.repo_id ev.ref ev.new_sha s.world).1 }) ids created

    Ext-created_error_run :
        (r : Result Run) (w : World)
        → ((run : Run) → r ≡ ok run → run.id ≡ run_id)
        → Ext w
        → Ext (created_error_run d r w)
    unfolding move_run
    Ext-created_error_run (err e) w i h = h
    Ext-created_error_run (ok run) w i h = rw (i run refl) (Extends-move_run ev before error w h)

    Ext-record_error_run : (s : State) → s.world.db ≡ before → Ext (record_error_run d ev s).world
    unfolding record_error_run
    Ext-record_error_run s b =
        let (created, ids) = Extends-create_run ev before s.world b in
        Ext-created_error_run (create_run ev.repo_id ev.ref ev.new_sha s.world).0
          (create_run ev.repo_id ev.ref ev.new_sha s.world).1 ids created

    Ext-listed :
        (dir : Bytes) (r : Result (List TreeEntry)) (s : State)
        → s.world.db ≡ before
        → Ext (listed d ev dir r s).world
    Ext-listed dir (err not_found) s b = Extends-eq ev before b (Extends-refl ev before)
    Ext-listed dir (err e) s b = Ext-record_error_run s b
    Ext-listed dir (ok entries) s b = files (keep (is_workflow d ev dir) entries)
      where
        files : (fs : List TreeEntry) → Ext (record_some d ev dir fs s).world
        files [] = Extends-eq ev before b (Extends-refl ev before)
        files (f ∷ fs) = Ext-record_run dir (f ∷ fs) s b

    Ext-materialized :
        (r : Result Bytes) (s : State) → s.world.db ≡ before → Ext (materialized d ev r s).world
    Ext-materialized (err e) s b = Ext-record_error_run s b
    Ext-materialized (ok dir) s b = Ext-listed dir (d.tree dir ev.new_sha workflow_dir) s b

-- Whatever statement, read or trigger fails, a dispatch leaves the repos, the refs, the users and the
-- grants, and every run and job that was there; it adds one run at most, of the pushed commit, and
-- jobs of that run.
pub dispatch-Extends :
    (d : Dispatcher) (ev : Event) (s : State)
    → IsWired d
    → Extends ev s.world.db (dispatch d ev s).world.db
unfolding dispatch
dispatch-Extends d ev s wired = elim (Bool-cases (starts_with branch_prefix ev.ref)) [
  | inl e ↦ elim (Bool-cases (is_absent ev.new_sha)) [
    | inl g ↦ rw (e, g) (Extends-refl ev s.world.db)
    | inr g ↦
        let (r, w) = d.materialize ev.repo_name s.world in
        rw (e, g)
          (Ext-materialized d ev s.world.db wired r (record s { world = w })
            (wired.materialize_reads ev.repo_name s.world))
  ]
  | inr e ↦ rw e (Extends-refl ev s.world.db)
]
