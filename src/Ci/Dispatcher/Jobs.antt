-- ===== src/Ci/Dispatcher/Jobs.antt =====
-- internal/ci/dispatcher.go: the loop of recordRun, while no statement fails.
use gitmote.Common.{
  ℕ, suc, ◌+◌, Bool, true, false, not, ◌||◌, List, [], ◌∷◌, Bytes, any, keep, length, ◌≡◌, inl, inr,
  refl, ap, ◌∙◌, arith, Bool-cases, if◌then◌else◌,
}
use gitmote.Meta.Schema.{Db, Job, queued, error}
use gitmote.Meta.Sql.{next_fault, later}
use gitmote.Meta.Ci.{next_job_id, update_jobs, create_job, set_job_status, new_job, with_status}
use gitmote.Meta.Ci.Rows.{no_job_from, update_jobs-append}
use gitmote.Meta.Ci.Sweep.{quiet, with_jobs}
use gitmote.Repo.Browse.{TreeEntry}
use gitmote.Ci.EnvSecrets.{Env}
use gitmote.Ci.Dispatcher.{
  Event, Dispatcher, State, Tally, validate, job_env, trigger_job, start_job, start_jobs,
}

module _ (d : Dispatcher) (ev : Event) (dir : Bytes) (run_id : ℕ) (clone_token : Bytes)
    (secrets_env : Env) (clock : ℕ) where
  abbrev pub env_of_job : ℕ → Env
  env_of_job id = job_env d ev run_id id clone_token secrets_env

  -- The row of the job of a file: queued if its runner was started, else in error.
  abbrev pub job_row : ℕ → TreeEntry → Job
  job_row id f = record {
    id = id;
    run_id = run_id;
    name = f.name;
    status = if d.trigger (env_of_job id) then queued else error;
    log_key = [];
    created_at = clock;
    updated_at = clock;
  }

  abbrev pub is_valid : TreeEntry → Bool
  is_valid f = validate d dir ev.new_sha f.path

  -- The rows of the jobs of the files, numbered from an id, in front of the rows of before.
  abbrev pub rows_after : ℕ → List TreeEntry → List Job → List Job
  rows_after id [] rows = rows
  rows_after id (f ∷ files) rows = rows_after (suc id) files (job_row id f ∷ rows)

  abbrev pub envs_after : ℕ → List TreeEntry → List Env → List Env
  envs_after id [] envs = envs
  envs_after id (f ∷ files) envs = envs_after (suc id) files (env_of_job id ∷ envs)

  -- The jobs whose runner could not be started.
  abbrev pub failures : ℕ → List TreeEntry → ℕ
  failures id [] = 0
  failures id (f ∷ files) = (if d.trigger (env_of_job id) then 0 else 1) + failures (suc id) files

  abbrev pub at_rows : Db → List Job → List Env → State
  at_rows db rows envs = record { world = quiet (with_jobs db rows) clock; triggered = envs }

  set_job_status_new :
      (db : Db) (rows : List Job) (j : Job)
      → j.id ≡ next_job_id rows
      → (set_job_status j.id error (quiet (with_jobs db (j ∷ rows)) clock)).1
        ≡ quiet (with_jobs db (with_status error clock j ∷ rows)) clock
  unfolding set_job_status next_fault later update_jobs
  set_job_status_new db rows j e = ground (
    arith,
    update_jobs-append j.id (with_status error clock) [] rows
        (no_job_from j.id rows (omega (arith, e))),
  )

  start_job_valid :
      (f : TreeEntry) (t : Tally) (db : Db) (rows : List Job) (envs : List Env)
      → is_valid f ≡ true
      → let id = next_job_id rows in
        start_job d ev dir run_id clone_token secrets_env f t (at_rows db rows envs) ≡ (
          record t {
            jobs = t.jobs + 1;
            trigger_errors = t.trigger_errors + (if d.trigger (env_of_job id) then 0 else 1);
          },
          at_rows db (job_row id f ∷ rows) (env_of_job id ∷ envs),
        )
  unfolding start_job create_job next_fault later trigger_job
  start_job_valid f t db rows envs v =
      elim (Bool-cases (d.trigger (env_of_job (next_job_id rows)))) [
        | inl e ↦ ground arith
        | inr e ↦
            let queued_row = new_job (with_jobs db rows) run_id f.name clock in
            ground (arith, set_job_status_new db rows queued_row refl)
      ]

  start_job_invalid :
      (f : TreeEntry) (t : Tally) (s : State)
      → is_valid f ≡ false
      → start_job d ev dir run_id clone_token secrets_env f t s ≡ (record t { malformed = true }, s)
  unfolding start_job
  start_job_invalid f t s v = rw v refl

  next_job_id-job_row :
      (f : TreeEntry) (rows : List Job)
      → next_job_id (job_row (next_job_id rows) f ∷ rows) ≡ suc (next_job_id rows)
  unfolding next_job_id
  next_job_id-job_row f rows = ground arith

  abbrev pub tally_after : Tally → ℕ → List TreeEntry → Tally
  tally_after t id files = record {
    malformed = t.malformed || any (λ f. not (is_valid f)) files;
    jobs = t.jobs + length (keep is_valid files);
    trigger_errors = t.trigger_errors + failures id (keep is_valid files);
  }

  tally_valid :
      (f : TreeEntry) (t : Tally) (id : ℕ) (files : List TreeEntry)
      → is_valid f ≡ true
      → tally_after
          (record t {
            jobs = t.jobs + 1;
            trigger_errors = t.trigger_errors + (if d.trigger (env_of_job id) then 0 else 1);
          })
          (suc id)
          files
        ≡ tally_after t id (f ∷ files)
  tally_valid f t id files v = rw v (ground arith)

  tally_invalid :
      (f : TreeEntry) (t : Tally) (id : ℕ) (files : List TreeEntry)
      → is_valid f ≡ false
      → tally_after (record t { malformed = true }) id files ≡ tally_after t id (f ∷ files)
  tally_invalid f t id files v = rw v (ground arith)

  pub start_jobs-quiet :
      (files : List TreeEntry) (t : Tally) (db : Db) (rows : List Job) (envs : List Env)
      → let id = next_job_id rows in
        let good = keep is_valid files in
        start_jobs d ev dir run_id clone_token secrets_env files t (at_rows db rows envs)
        ≡ (tally_after t id files, at_rows db (rows_after id good rows) (envs_after id good envs))
  unfolding start_jobs
  start_jobs-quiet [] t db rows envs = ground arith
  start_jobs-quiet (f ∷ files) t db rows envs = elim (Bool-cases (is_valid f)) [
    | inl v ↦
        let id = next_job_id rows in
        let k = if d.trigger (env_of_job id) then 0 else 1 in
        let counted = record t { jobs = t.jobs + 1; trigger_errors = t.trigger_errors + k } in
        let rows' = job_row id f ∷ rows in
        let envs' = env_of_job id ∷ envs in
        let good = keep is_valid files in
        let rest =
          rw (next_job_id-job_row f rows) at (start_jobs-quiet files counted db rows' envs') in
        rw (start_job_valid f t db rows envs v) (
          rest
          ∙ ap
              (λ tally. (
                tally,
                at_rows db (rows_after (suc id) good rows') (envs_after (suc id) good envs'),
              ))
              (tally_valid f t id files v)
          ∙ rw v refl)
    | inr v ↦ rw (start_job_invalid f t (at_rows db rows envs) v) (
        let good = keep is_valid files in
        start_jobs-quiet files (record t { malformed = true }) db rows envs
        ∙ ap
            (λ tally. (
              tally,
              at_rows db (rows_after (next_job_id rows) good rows)
                  (envs_after (next_job_id rows) good envs),
            ))
            (tally_invalid f t (next_job_id rows) files v)
        ∙ rw v refl)
  ]
