-- ===== src/Ci/Dispatcher/Outcome.antt =====
-- internal/ci/dispatcher.go: what a dispatch records, while no statement fails.
use native.Mathlib.Nat.{zero-add}
use gitmote.Common.{
  ℕ, Bool, true, false, not, ◌&&◌, List, [], ◌∷◌, Bytes, any, ◌==◌, ltb, keep, length, is_empty, ok,
  Option, none, some, ◌≡◌, inl, inr, refl, ap, ◌∙◌, arith, Bool-cases, if◌then◌else◌, starts_with,
}
use gitmote.Meta.Schema.{Db, Run, Job, RunStatus, TokenRow, queued, failed, error}
use gitmote.Meta.Sql.{World, Sql, next_fault, later}
use gitmote.Meta.Ci.{next_run_id, next_job_id, update_runs, create_run, set_run_status, new_run}
use gitmote.Meta.Ci.Rows.{no_next_run, update_runs-append}
use gitmote.Meta.Ci.Sweep.{quiet}
use gitmote.Repo.Browse.{TreeEntry}
use gitmote.Ci.EnvSecrets.{Env}
use gitmote.Ci.Report.{workflow_dir}
use gitmote.Ci.Dispatcher.{
  Event, Minter, Dispatcher, State, Tally, branch_prefix, is_absent, repo_secrets, stored_secrets,
  mint_with, mint_clone_token, move_run, start_jobs, settle_run, start_run, record_run, is_workflow,
  record_some, dispatch, no_jobs,
}
use gitmote.Ci.Dispatcher.Jobs.{
  is_valid, rows_after, envs_after, failures, tally_after, start_jobs-quiet,
}

-- While no statement fails, materializing a repo and loading its secrets leave the world as it is,
-- and minting a token writes the table of tokens at most.
pub record IsCalm (d : Dispatcher) : Type 0 where
  pub materialize_calm :
      (name : Bytes) (db : Db) (clock : ℕ)
      → (d.materialize name (quiet db clock)).1 ≡ quiet db clock
  pub secrets_calm :
      (load : ℕ → Sql Env)
      → d.secrets ≡ some load
      → (repo_id : ℕ) (db : Db) (clock : ℕ) → (load repo_id (quiet db clock)).1 ≡ quiet db clock
  pub minter_calm :
      (mint : Minter)
      → d.minter ≡ some mint
      → (user_id : ℕ) (label : Bytes) (scope : Option ℕ) (read_only : Bool) (expires_at : Option ℕ)
      → (db : Db) (clock : ℕ)
      → (tokens : List TokenRow) × ((mint user_id label scope read_only expires_at
            (quiet db clock)).1
          ≡ quiet (record db { tokens = tokens }) clock)

-- The status of a run after its jobs were started.
abbrev pub verdict : (malformed : Bool) (jobs trigger_errors : ℕ) → RunStatus
verdict malformed jobs trigger_errors =
    if malformed then failed else if ltb 0 jobs && trigger_errors == jobs then error else queued

module _ (d : Dispatcher) (ev : Event) (db : Db) (clock : ℕ) where
  abbrev pub run_id : ℕ
  run_id = next_run_id db.ci_runs

  abbrev pub first_row : Run
  first_row = new_run db ev.repo_id ev.ref ev.new_sha clock

  abbrev pub at_run : List TokenRow → RunStatus → List Job → Db
  at_run tokens status jobs = record db {
    tokens = tokens;
    ci_runs = record first_row { status = status } ∷ db.ci_runs;
    ci_jobs = jobs;
  }

  -- The clone token and the secrets that the jobs of the run are given.
  abbrev pub clone_token : Bytes
  clone_token = (mint_clone_token d ev run_id (quiet (at_run db.tokens queued db.ci_jobs) clock)).0

  abbrev pub secrets_env : List TokenRow → Env
  secrets_env tokens = (repo_secrets d ev (quiet (at_run tokens queued db.ci_jobs) clock)).0

  move_run-at_run :
      (tokens : List TokenRow) (status : RunStatus) (jobs : List Job)
      → move_run d run_id status (quiet (at_run tokens queued jobs) clock)
        ≡ quiet (at_run tokens status jobs) clock
  unfolding move_run set_run_status next_fault later update_runs
  move_run-at_run tokens status jobs = ground (
    arith,
    update_runs-append run_id (λ r. record r { status = status; updated_at = clock }) [] db.ci_runs
        (no_next_run db.ci_runs),
  )

  settle_run-at_run :
      (t : Tally) (tokens : List TokenRow) (jobs : List Job) (envs : List Env)
      → settle_run d run_id t
          (record { world = quiet (at_run tokens queued jobs) clock; triggered = envs })
        ≡ record {
          world = quiet (at_run tokens (verdict t.malformed t.jobs t.trigger_errors) jobs) clock;
          triggered = envs;
        }
  unfolding settle_run
  settle_run-at_run t tokens jobs envs = elim (Bool-cases t.malformed) [
    | inl e ↦ rw (e, move_run-at_run tokens failed jobs) refl
    | inr e ↦ elim (Bool-cases (ltb 0 t.jobs && t.trigger_errors == t.jobs)) [
      | inl g ↦ rw (e, g, move_run-at_run tokens error jobs) refl
      | inr g ↦ rw (e, g) refl
    ]
  ]

  -- The state after recordRun: the tokens are those of before and perhaps one more.
  abbrev pub recorded : (dir : Bytes) → List TreeEntry → List TokenRow → List Env → State
  recorded dir files tokens envs =
      let token = clone_token in
      let env = secrets_env tokens in
      let good = keep (is_valid d ev dir run_id token env clock) files in
      let id = next_job_id db.ci_jobs in
      let status =
        verdict (any (λ f. not (is_valid d ev dir run_id token env clock f)) files) (length good)
          (failures d ev dir run_id token env clock id good) in
      record {
        world =
            quiet
              (at_run tokens status (rows_after d ev dir run_id token env clock id good db.ci_jobs))
              clock;
        triggered = envs_after d ev dir run_id token env clock id good envs;
      }

  -- A push to a branch, in whose commit some workflow selects the branch.
  pub record IsPush (dir : Bytes) (entries : List TreeEntry) : Type 0 where
    pub branch : starts_with branch_prefix ev.ref ≡ true
    pub present : is_absent ev.new_sha ≡ false
    pub found : (d.materialize ev.repo_name (quiet db clock)).0 ≡ ok dir
    pub listing : d.tree dir ev.new_sha workflow_dir ≡ ok entries
    pub chosen : is_empty (keep (is_workflow d ev dir) entries) ≡ false

  module _ (calm : IsCalm d) where
    mint_calm :
        (m : Option Minter)
        → d.minter ≡ m
        → (tokens : List TokenRow) × ((mint_with d m ev run_id
              (quiet (at_run db.tokens queued db.ci_jobs) clock)).1
            ≡ quiet (at_run tokens queued db.ci_jobs) clock)
    mint_calm none e = (db.tokens, refl)
    mint_calm (some mint) e =
        let (tokens, same) =
          calm.minter_calm mint e ev.pusher_id _ _ true _ (at_run db.tokens queued db.ci_jobs)
            clock in
        (tokens, same)

    stored_calm :
        (m : Option (ℕ → Sql Env)) (db' : Db)
        → d.secrets ≡ m
        → (stored_secrets d m ev.repo_id (quiet db' clock)).1 ≡ quiet db' clock
    stored_calm none db' e = refl
    stored_calm (some load) db' e = calm.secrets_calm load e ev.repo_id db' clock

    -- The part of recordRun after the clone token and the secrets are there.
    abbrev finish_run : (dir : Bytes) → List TreeEntry → List Env → Bytes → Env → World → State
    finish_run dir files envs token env w =
        let (t, s) =
          start_jobs d ev dir run_id token env files no_jobs
            (record { world = w; triggered = envs }) in
        settle_run d run_id t s

    finish_run-recorded :
        (dir : Bytes) (files : List TreeEntry) (envs : List Env) (tokens : List TokenRow)
        → finish_run dir files envs clone_token
            (secrets_env tokens)
            (quiet (at_run tokens queued db.ci_jobs) clock)
          ≡ recorded dir files tokens envs
    finish_run-recorded dir files envs tokens =
        let queued_db = at_run tokens queued db.ci_jobs in
        let env = secrets_env tokens in
        let good = keep (is_valid d ev dir run_id clone_token env clock) files in
        let id = next_job_id db.ci_jobs in
        ap (λ (p : Tally × State). settle_run d run_id p.0 p.1)
          (start_jobs-quiet d ev dir run_id clone_token env clock files no_jobs queued_db db.ci_jobs
            envs)
        ∙ settle_run-at_run (tally_after d ev dir run_id clone_token env clock no_jobs id files)
            tokens (rows_after d ev dir run_id clone_token env clock id good db.ci_jobs)
            (envs_after d ev dir run_id clone_token env clock id good envs)
        ∙ rw
            (
              zero-add (length good),
              zero-add (failures d ev dir run_id clone_token env clock id good),
            )
            refl

    start_run-recorded :
        (dir : Bytes) (files : List TreeEntry) (envs : List Env)
        → (tokens : List TokenRow) × (start_run d ev dir files run_id (record {
          world = quiet (at_run db.tokens queued db.ci_jobs) clock;
          triggered = envs;
        })
            ≡ recorded dir files tokens envs)
    unfolding start_run mint_clone_token repo_secrets
    start_run-recorded dir files envs =
        let (tokens, minted) = mint_calm d.minter refl in
        let queued_db = at_run tokens queued db.ci_jobs in
        (
          tokens,
          ap
                (λ w.
                  finish_run dir files envs clone_token (repo_secrets d ev w).0
                    (repo_secrets d ev w).1)
                minted
              ∙ ap (finish_run dir files envs clone_token (secrets_env tokens))
                  (stored_calm d.secrets queued_db refl)
              ∙ finish_run-recorded dir files envs tokens,
        )

    created_run-recorded :
        (dir : Bytes) (files : List TreeEntry) (envs : List Env)
        → (tokens : List TokenRow) × (record_run d ev dir files
              (record { world = quiet db clock; triggered = envs })
            ≡ recorded dir files tokens envs)
    unfolding record_run create_run next_fault later
    created_run-recorded dir files envs = start_run-recorded dir files envs

    record_some-recorded :
        (dir : Bytes) (files : List TreeEntry) (envs : List Env)
        → is_empty files ≡ false
        → (tokens : List TokenRow) × (record_some d ev dir files
              (record { world = quiet db clock; triggered = envs })
            ≡ recorded dir files tokens envs)
    record_some-recorded dir [] envs h = absurd (cc)
    record_some-recorded dir (f ∷ files) envs h = created_run-recorded dir (f ∷ files) envs

    -- While no statement fails, a push to a branch that some workflows of its commit select records a
    -- run in front of the others. It has one job for each of those workflows that reads as YAML, in
    -- order; a job is queued if a runner was started with its environment, and else in error. The run
    -- failed if some of the workflows is malformed, is in error if it has jobs and no runner of theirs
    -- was started, and is queued otherwise. The environments of the jobs are those that runners were
    -- started with, and no other table than that of the tokens changes.
    pub dispatch-recorded :
        (dir : Bytes) (entries : List TreeEntry) (envs : List Env)
        → IsPush dir entries
        → (tokens : List TokenRow) × (dispatch d ev
              (record { world = quiet db clock; triggered = envs })
            ≡ recorded dir (keep (is_workflow d ev dir) entries) tokens envs)
    unfolding dispatch
    dispatch-recorded dir entries envs p =
        let (tokens, same) =
          record_some-recorded dir (keep (is_workflow d ev dir) entries) envs p.chosen in
        (
          tokens,
          rw (p.branch, p.present, p.found, calm.materialize_calm ev.repo_name db clock, p.listing)
              same,
        )
