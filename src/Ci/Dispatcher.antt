-- ===== src/Ci/Dispatcher.antt =====
-- internal/ci/dispatcher.go: the runs and the jobs that a push starts.
pub mod Extends
pub mod Footprint
pub mod Jobs
pub mod Outcome
pub mod Minting
pub mod Tests
pub mod Malformed
use gitmote.Common.{
  ℕ, ◌+◌, Bool, true, false, ◌&&◌, ◌||◌, List, [], ◌∷◌, ◌++◌, Bytes, bytes_eq, ◌==◌, ltb,
  if◌then◌else◌, is_empty, keep, map, starts_with, ends_with, trim_prefix, Option, none, some,
  Result, ok, err, not_found, codes,
}
use gitmote.Meta.Schema.{Run, Job, RunStatus, failed, error}
use gitmote.Meta.Sql.{World, Sql}
use gitmote.Meta.Refs.{zero_sha}
use gitmote.Meta.Ci.{create_run, set_run_status, create_job, set_job_status}
use gitmote.Repo.Browse.{TreeEntry}
use gitmote.Ci.Report.{workflow_dir}
use gitmote.Ci.Triggers.{Parsers, PushTrigger, parse_push_trigger, matches}
use gitmote.Ci.EnvSecrets.{Env, EnvSecrets, assign, secrets_for}

abbrev pub branch_prefix : Bytes
branch_prefix = codes "refs/heads/"

-- cloneTokenTTL, in seconds
abbrev pub clone_token_ttl : ℕ
clone_token_ttl = 3600

abbrev pub secret_env_prefix : Bytes
secret_env_prefix = codes "GITMOTE_CI_SECRET_"

-- Event
pub record Event : Type 0 where
  pub repo_id : ℕ
  pub repo_name : Bytes
  pub ref : Bytes
  pub old_sha : Bytes
  pub new_sha : Bytes
  pub pusher_id : ℕ

-- Minter
abbrev pub Minter : Type 0
Minter =
    (user_id : ℕ) (label : Bytes) (repo_scope : Option ℕ) (read_only : Bool) (expires_at : Option ℕ)
    → Sql Bytes

-- The Dispatcher: its interfaces Materializer, Trigger, Minter and Secrets, of which the last two may
-- be nil, its settings, and what it calls besides: repo.Tree, repo.Blob, the YAML parser and FormatInt.
-- Trigger returns `true` for a nil error; the environment that it is given names the job.
pub record Dispatcher : Type 0 where
  pub materialize : Bytes → Sql Bytes
  pub trigger : Env → Bool
  pub minter : Option Minter
  pub secrets : Option (ℕ → Sql Env)
  pub env_secrets : EnvSecrets
  pub base_url : Bytes
  pub worker_secret : Bytes
  pub tree : (dir sha path : Bytes) → Result (List TreeEntry)
  pub blob : (dir sha path : Bytes) → Option Bytes
  pub is_document : Bytes → Bool
  pub parsers : Parsers
  pub format_int : ℕ → Bytes

-- What a dispatch changes: the database, and the environments that runners were started with, the
-- latest first.
pub record State : Type 0 where
  pub world : World
  pub triggered : List Env

-- the counts of recordRun
pub record Tally : Type 0 where
  pub malformed : Bool
  pub jobs : ℕ
  pub trigger_errors : ℕ

unfoldable pub is_absent : Bytes → Bool
is_absent sha = is_empty sha || bytes_eq sha zero_sha

unfoldable pub is_yaml : Bytes → Bool
is_yaml name = ends_with (codes ".yml") name || ends_with (codes ".yaml") name

abbrev prefixed : Bytes × Bytes → Bytes × Bytes
prefixed (k, v) = (secret_env_prefix ++ k, v)

abbrev assign_all : Env → Env → Env
assign_all [] m = m
assign_all ((k, v) ∷ env) m = assign_all env (assign k v m)

abbrev no_jobs : Tally
no_jobs = record { malformed = false; jobs = 0; trigger_errors = 0 }

module _ (d : Dispatcher) where
  open d use {
    materialize, trigger, minter, secrets, env_secrets, base_url, worker_secret, tree, blob,
    is_document, parsers, format_int,
  }

  abbrev document : Option Bytes → Bool
  document none = false
  document (some content) = is_document content

  -- `true` is a nil error
  unfoldable pub validate : (dir sha path : Bytes) → Bool
  validate dir sha path = document (blob dir sha path)

  abbrev selects : Bytes → Option PushTrigger → Bool
  selects branch none = true
  selects branch (some trig) = matches parsers trig branch

  abbrev content_selects : Bytes → Option Bytes → Bool
  content_selects branch none = true
  content_selects branch (some content) = selects branch (parse_push_trigger parsers content)

  unfoldable pub triggered_by : (dir sha path branch : Bytes) → Bool
  triggered_by dir sha path branch = content_selects branch (blob dir sha path)

  unfoldable pub job_env : Event → (run_id job_id : ℕ) (clone_token : Bytes) → Env → Env
  job_env ev run_id job_id clone_token secrets_env =
      assign_all
        ((codes "GITMOTE_CI_RUN_ID", format_int run_id)
          ∷ (codes "GITMOTE_CI_JOB_ID", format_int job_id)
          ∷ (codes "GITMOTE_URL", base_url)
          ∷ (codes "WORKER_SECRET", worker_secret)
          ∷ (codes "GITMOTE_REPO", ev.repo_name)
          ∷ (codes "GITMOTE_SHA", ev.new_sha)
          ∷ (codes "GITMOTE_REF", ev.ref)
          ∷ (codes "GITMOTE_CI_CLONE_TOKEN", clone_token)
          ∷ [])
        (map prefixed secrets_env)

  abbrev or_empty : Result Env → Env
  or_empty (ok m) = m
  or_empty (err e) = []

  abbrev stored_secrets : Option (ℕ → Sql Env) → ℕ → World → Env × World
  stored_secrets none repo_id w = ([], w)
  stored_secrets (some load) repo_id w = let (r, w') = load repo_id w in (or_empty r, w')

  unfoldable pub repo_secrets : Event → World → Env × World
  repo_secrets ev w =
      let (m, w') = stored_secrets secrets ev.repo_id w in
      (assign_all (secrets_for ev.repo_name env_secrets) m, w')

  abbrev or_blank : Result Bytes → Bytes
  or_blank (ok token) = token
  or_blank (err e) = []

  abbrev mint_with : Option Minter → Event → ℕ → World → Bytes × World
  mint_with none ev run_id w = ([], w)
  mint_with (some mint) ev run_id w =
      let label = codes "ci-clone run " ++ format_int run_id in
      let (r, w') =
        mint ev.pusher_id label (some ev.repo_id) true (some (w.clock + clone_token_ttl)) w in
      (or_blank r, w')

  unfoldable pub mint_clone_token : Event → ℕ → World → Bytes × World
  mint_clone_token ev run_id w = mint_with minter ev run_id w

  -- setRunStatus
  unfoldable pub move_run : ℕ → RunStatus → World → World
  move_run run_id status w = (set_run_status run_id status w).1

  module _ (ev : Event) (dir : Bytes) (run_id : ℕ) (clone_token : Bytes) (secrets_env : Env) where
    -- the call of Trigger, and what follows it
    unfoldable pub trigger_job : Job → Tally → State → Tally × State
    trigger_job job t s =
        let env = job_env ev run_id job.id clone_token secrets_env in
        if trigger env
        then (record t { jobs = t.jobs + 1 }, record s { triggered = env ∷ s.triggered })
        else (
          record t { jobs = t.jobs + 1; trigger_errors = t.trigger_errors + 1 },
          record { world = (set_job_status job.id error s.world).1; triggered = env ∷ s.triggered },
        )

    abbrev created_job : Result Job → Tally → State → Tally × State
    created_job (err e) t s = (t, s)
    created_job (ok job) t s = trigger_job job t s

    -- the body of the loop of recordRun
    unfoldable pub start_job : TreeEntry → Tally → State → Tally × State
    start_job f t s =
        if validate dir ev.new_sha f.path
        then (let (r, w) = create_job run_id f.name s.world in
            created_job r t (record s { world = w }))
        else (record t { malformed = true }, s)

    unfoldable pub start_jobs : List TreeEntry → Tally → State → Tally × State
    start_jobs [] t s = (t, s)
    start_jobs (f ∷ files) t s = let (t', s') = start_job f t s in start_jobs files t' s'

  -- the switch at the end of recordRun
  unfoldable pub settle_run : ℕ → Tally → State → State
  settle_run run_id t s =
      if t.malformed
      then record s { world = move_run run_id failed s.world }
      else if ltb 0 t.jobs && t.trigger_errors == t.jobs
      then record s { world = move_run run_id error s.world }
      else s

  unfoldable pub start_run : Event → (dir : Bytes) → List TreeEntry → ℕ → State → State
  start_run ev dir files run_id s =
      let (clone_token, w) = mint_clone_token ev run_id s.world in
      let (secrets_env, w') = repo_secrets ev w in
      let (t, s') =
        start_jobs ev dir run_id clone_token secrets_env files no_jobs (record s { world = w' }) in
      settle_run run_id t s'

  abbrev created_run : Event → (dir : Bytes) → List TreeEntry → Result Run → State → State
  created_run ev dir files (err e) s = s
  created_run ev dir files (ok run) s = start_run ev dir files run.id s

  unfoldable pub record_run : Event → (dir : Bytes) → List TreeEntry → State → State
  record_run ev dir files s =
      let (r, w) = create_run ev.repo_id ev.ref ev.new_sha s.world in
      created_run ev dir files r (record s { world = w })

  abbrev created_error_run : Result Run → World → World
  created_error_run (err e) w = w
  created_error_run (ok run) w = move_run run.id error w

  unfoldable pub record_error_run : Event → State → State
  record_error_run ev s =
      let (r, w) = create_run ev.repo_id ev.ref ev.new_sha s.world in
      record s { world = created_error_run r w }

  -- the test of the loop over the entries
  unfoldable pub is_workflow : Event → (dir : Bytes) → TreeEntry → Bool
  is_workflow ev dir e =
      bytes_eq e.kind (codes "blob")
      && is_yaml e.name
      && triggered_by dir ev.new_sha e.path (trim_prefix branch_prefix ev.ref)

  abbrev record_some : Event → (dir : Bytes) → List TreeEntry → State → State
  record_some ev dir [] s = s
  record_some ev dir files s = record_run ev dir files s

  abbrev listed : Event → (dir : Bytes) → Result (List TreeEntry) → State → State
  listed ev dir (err not_found) s = s
  listed ev dir (err e) s = record_error_run ev s
  listed ev dir (ok entries) s = record_some ev dir (keep (is_workflow ev dir) entries) s

  abbrev materialized : Event → Result Bytes → State → State
  materialized ev (err e) s = record_error_run ev s
  materialized ev (ok dir) s = listed ev dir (tree dir ev.new_sha workflow_dir) s

  unfoldable pub dispatch : Event → State → State
  dispatch ev s =
      if starts_with branch_prefix ev.ref
      then if is_absent ev.new_sha
        then s
        else (let (r, w) = materialize ev.repo_name s.world in
            materialized ev r (record s { world = w }))
      else s
