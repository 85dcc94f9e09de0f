-- ===== src/Meta/Ci.antt =====
-- internal/meta/ci.go: the runs of CI and their jobs.
pub mod Claim
pub mod Sweep
pub mod Rows
use Prim.Native.Nat.{max}
use gitmote.Common.{
  ℕ, ◌+◌, Bool, true, false, ◌&&◌, ◌||◌, List, [], ◌∷◌, Bytes, bytes_eq, ◌==◌, leb, ltb,
  if◌then◌else◌, keep, map, take, any, Result, ok, err, not_found, Option, none, some, ℤ, pos,
  negsuc,
}
use gitmote.Common.Sort.{order_by}
use gitmote.Meta.Schema.{Db, Run, Job, RunStatus, queued, running, error}
use gitmote.Meta.Sql.{Sql, pure, raise, select, exec, now, or_not_found, ◌>>=◌, ◌>>◌}

abbrev pub is_queued : RunStatus → Bool
is_queued queued = true
is_queued s = false

abbrev pub is_running : RunStatus → Bool
is_running running = true
is_running s = false

unfoldable pub next_run_id : List Run → ℕ
next_run_id [] = 1
next_run_id (r ∷ rs) = max (r.id + 1) (next_run_id rs)

unfoldable pub next_job_id : List Job → ℕ
next_job_id [] = 1
next_job_id (j ∷ js) = max (j.id + 1) (next_job_id js)

-- UPDATE ci_runs SET ... WHERE id = ?
unfoldable pub update_runs : ℕ → (Run → Run) → List Run → List Run
update_runs id f [] = []
update_runs id f (r ∷ rs) = (if r.id == id then f r else r) ∷ update_runs id f rs

-- UPDATE ci_jobs SET ... WHERE
unfoldable pub update_jobs : (Job → Bool) → (Job → Job) → List Job → List Job
update_jobs p f [] = []
update_jobs p f (j ∷ js) = (if p j then f j else j) ∷ update_jobs p f js

-- RowsAffected, as far as its test for zero
abbrev changed_or_not_found : Bool → Sql (Unit {0})
changed_or_not_found true = pure tt
changed_or_not_found false = raise not_found

abbrev pub new_run : Db → ℕ → Bytes → Bytes → ℕ → Run
new_run db repo_id ref sha ts = record {
  id = next_run_id db.ci_runs;
  repo_id = repo_id;
  ref = ref;
  sha = sha;
  status = queued;
  created_at = ts;
  updated_at = ts;
}

unfoldable pub create_run : (repo_id : ℕ) (ref sha : Bytes) → Sql Run
create_run repo_id ref sha = do
  ts ← now
  exec (λ db. ok (
    record db { ci_runs = new_run db repo_id ref sha ts ∷ db.ci_runs },
    new_run db repo_id ref sha ts,
  ))

unfoldable pub set_run_status : ℕ → RunStatus → Sql (Unit {0})
set_run_status run_id status = do
  ts ← now
  changed ← exec (λ db. ok (
    record db {
      ci_runs = update_runs run_id (λ r. record r { status = status; updated_at = ts }) db.ci_runs;
    },
    any (λ r. r.id == run_id) db.ci_runs,
  ))
  changed_or_not_found changed

unfoldable pub run_with_id : ℕ → List Run → Option Run
run_with_id id [] = none
run_with_id id (r ∷ rs) = if r.id == id then some r else run_with_id id rs

unfoldable pub get_run : ℕ → Sql Run
get_run run_id = do found ← select (λ db. run_with_id run_id db.ci_runs); or_not_found found

abbrev pub newest_first : Run → Run → Bool
newest_first a b = leb b.id a.id

-- LIMIT, which a limit that is not positive leaves out
unfoldable pub limited {ℓ} : {A : Type ℓ} → ℤ → List A → List A
limited (negsuc n) xs = xs
limited (pos n) xs = if n == 0 then xs else take n xs

unfoldable pub list_runs : ℕ → ℤ → Sql (List Run)
list_runs repo_id limit =
    select
      (λ db. limited limit (order_by newest_first (keep (λ r. r.repo_id == repo_id) db.ci_runs)))

abbrev first_run : List Run → Option Run
first_run [] = none
first_run (r ∷ rs) = some r

unfoldable pub latest_run_for_sha : ℕ → Bytes → Sql Run
latest_run_for_sha repo_id sha = do
  found ← select (λ db.
      first_run
        (order_by newest_first (keep (λ r. r.repo_id == repo_id && bytes_eq r.sha sha) db.ci_runs)))
  or_not_found found

abbrev pub new_job : Db → ℕ → Bytes → ℕ → Job
new_job db run_id name ts = record {
  id = next_job_id db.ci_jobs;
  run_id = run_id;
  name = name;
  status = queued;
  log_key = [];
  created_at = ts;
  updated_at = ts;
}

unfoldable pub create_job : (run_id : ℕ) (name : Bytes) → Sql Job
create_job run_id name = do
  ts ← now
  exec (λ db.
      ok
        (record db { ci_jobs = new_job db run_id name ts ∷ db.ci_jobs }, new_job db run_id name ts))

-- UPDATE ci_jobs SET ... WHERE, and whether it changed a row
abbrev pub move_jobs : (Job → Bool) → (Job → Job) → Sql Bool
move_jobs p f =
    exec (λ db. ok (record db { ci_jobs = update_jobs p f db.ci_jobs }, any p db.ci_jobs))

abbrev pub with_status : RunStatus → ℕ → Job → Job
with_status status ts j = record j { status = status; updated_at = ts }

unfoldable pub set_job_status : ℕ → RunStatus → Sql (Unit {0})
set_job_status job_id status = do
  ts ← now
  changed ← move_jobs (λ j. j.id == job_id) (with_status status ts)
  changed_or_not_found changed

unfoldable pub job_with_id : ℕ → List Job → Option Job
job_with_id id [] = none
job_with_id id (j ∷ js) = if j.id == id then some j else job_with_id id js

unfoldable pub get_job : ℕ → Sql Job
get_job job_id = do found ← select (λ db. job_with_id job_id db.ci_jobs); or_not_found found

abbrev pub is_queued_job : ℕ → Job → Bool
is_queued_job job_id j = j.id == job_id && is_queued j.status

unfoldable pub claim_job : ℕ → Sql Job
claim_job job_id = do
  ts ← now
  changed ← move_jobs (is_queued_job job_id) (with_status running ts)
  changed_or_not_found changed
  get_job job_id

unfoldable pub set_job_result : ℕ → RunStatus → Bytes → Sql (Unit {0})
set_job_result job_id status log_key = do
  ts ← now
  changed ←
      move_jobs (λ j. j.id == job_id)
        (λ j. record j { status = status; log_key = log_key; updated_at = ts })
  changed_or_not_found changed

-- the second loop of SweepStuckJobs
unfoldable pub fail_jobs : List ℕ → Sql (Unit {0})
fail_jobs [] = pure tt
fail_jobs (id ∷ ids) = do
  ts ← now
  _ ← move_jobs (λ j. j.id == id && is_running j.status) (with_status error ts)
  fail_jobs ids

abbrev pub is_stuck : ℕ → Job → Bool
is_stuck cutoff j = is_running j.status && ltb j.updated_at cutoff

unfoldable pub sweep_stuck_jobs : ℕ → Sql (List ℕ)
sweep_stuck_jobs cutoff = do
  stuck ← select (λ db. map (λ j. j.id) (keep (is_stuck cutoff) db.ci_jobs))
  fail_jobs stuck
  pure stuck

unfoldable pub list_jobs : ℕ → Sql (List Job)
list_jobs run_id =
    select (λ db. order_by (λ a b. leb a.id b.id) (keep (λ j. j.run_id == run_id) db.ci_jobs))
