-- ===== src/Ci/Report.antt =====
-- internal/ci/report.go: the API by which runners claim jobs and report how they ended.
pub mod Rollup
pub mod Lookups
pub mod Endings
pub mod Complete
pub mod Reconcile
use gitmote.Common.{
  ℕ, ◌+◌, Bool, true, false, not, ◌&&◌, ◌||◌, List, [], ◌∷◌, ◌++◌, Bytes, bytes_eq, codes, ltb,
  if◌then◌else◌, is_empty, length, take, Option, none, some, Result, ok, err, not_found, ◌-◌,
}
use gitmote.Meta.Schema.{
  Run, Job, Repo, RunStatus, queued, running, passed, failed, error, superseded,
}
use gitmote.Meta.Sql.{World}
use gitmote.Meta.Repos.{get_repo_by_id}
use gitmote.Meta.Ci.{
  get_job, get_run, claim_job, set_job_result, list_jobs, set_run_status, sweep_stuck_jobs,
}
use gitmote.Store.{ObjectStore}
use gitmote.Ci.LiveLogs.{LiveLogs, truncation_marker, append, finish, sweep}

-- what a request carries beside its path: the header X-Worker-Secret
pub record Caller : Type 0 where
  pub worker_secret : Bytes

-- jobSpec
pub record JobSpec : Type 0 where
  pub job_id : ℕ
  pub run_id : ℕ
  pub repo : Bytes
  pub sha : Bytes
  pub ref : Bytes
  pub workflow_dir : Bytes

abbrev pub workflow_dir : Bytes
workflow_dir = codes ".gitmote/workflows"

-- The answers, by their HTTP status: 401, 503, 400, 404, 500, 200 with {"ok":true}, 204, and 200 with
-- the spec of a job.
pub data Reply : Type 0 where
  unauthorized_reply unavailable bad_request missing internal_error ok_reply no_content : Reply
  claimed : JobSpec → Reply

-- A request body: what it yields, and whether it then breaks off with an error.
pub record Body : Type 0 where
  pub content : Bytes
  pub breaks : Bool

-- io.ReadAll(io.LimitReader(body, limit)); an error beyond the limit is not met
unfoldable pub read_limited : ℕ → Body → Option Bytes
read_limited limit body =
    if body.breaks && ltb (length body.content) limit then none else some (take limit body.content)

abbrev pub is_terminal : RunStatus → Bool
is_terminal passed = true
is_terminal failed = true
is_terminal error = true
is_terminal superseded = true
is_terminal s = false

-- the switch in rollup
abbrev worse : RunStatus → RunStatus → RunStatus
worse worst error = error
worse error failed = error
worse worst failed = failed
worse worst s = worst

-- the loop of rollup
unfoldable pub rollup_from : RunStatus → List Job → RunStatus
rollup_from worst [] = worst
rollup_from worst (j ∷ js) =
    let rest = rollup_from (worse worst j.status) js in
    if is_terminal j.status then rest else running

unfoldable pub rollup : List Job → RunStatus
rollup jobs = rollup_from passed jobs

unfoldable pub completion_status : Bytes → Option RunStatus
completion_status s =
    if bytes_eq s (codes "passed")
    then some passed
    else if bytes_eq s (codes "failed")
    then some failed
    else if bytes_eq s (codes "error")
    then some error
    else none

-- authed: `none` lets the request pass
unfoldable pub authed : (secret : Bytes) (is_leader : Bool) → Caller → Option Reply
authed secret is_leader caller =
    if is_empty secret || not (bytes_eq caller.worker_secret secret)
    then some unauthorized_reply
    else if is_leader
    then none
    else some unavailable

abbrev rolled_up : ℕ → Result (List Job) → World → World
rolled_up run_id (err e) w = w
rolled_up run_id (ok jobs) w = (set_run_status run_id (rollup jobs) w).1

unfoldable pub rollup_run : ℕ → World → World
rollup_run run_id w = rolled_up run_id (list_jobs run_id w).0 (list_jobs run_id w).1

abbrev rollup_job : Result Job → World → World
rollup_job (err e) w = w
rollup_job (ok job) w = rollup_run job.run_id w

-- the loop of ReconcileStuck
unfoldable pub rollup_all : List ℕ → World → World
rollup_all [] w = w
rollup_all (id ∷ ids) w = rollup_all ids (rollup_job (get_job id w).0 (get_job id w).1)

-- `decimal` is strconv's and fmt's rendering of an integer.
module _ (store : ObjectStore) (decimal : ℕ → Bytes) where
  open store use {Objects, put}

  -- The state that the API works on: the database, the object store and the live logs.
  pub record Server : Type 0 where
    pub world : World
    pub objects : Objects
    pub live : LiveLogs

  unfoldable pub log_key : Run → Job → Bytes
  log_key run job =
      codes "ci/"
      ++ (decimal run.repo_id ++ (47 ∷ (decimal run.id ++ (47 ∷ (decimal job.id ++ codes ".log")))))

  unfoldable pub cap_log : ℕ → Bytes → Bytes
  cap_log cap bytes = if ltb cap (length bytes) then take cap bytes ++ truncation_marker else bytes

  abbrev store_read : ℕ → Bytes → Option Bytes → Objects → Bool × Objects
  store_read cap key none o = (false, o)
  store_read cap key (some bytes) o = put key (cap_log cap bytes) o

  unfoldable pub store_log : ℕ → Bytes → Body → Objects → Bool × Objects
  store_log cap key body o = store_read cap key (read_limited (cap + 1) body) o

  abbrev completed : ℕ → ℕ → ℕ → Result (Unit {0}) → Server → Reply × Server
  completed job_id run_id now (err e) s = (internal_error, s)
  completed job_id run_id now (ok _) s =
      (ok_reply, record s { world = rollup_run run_id s.world; live = finish job_id now s.live })

  abbrev point_to_log : ℕ → ℕ → RunStatus → Run → Job → Bool × Objects → Server → Reply × Server
  point_to_log job_id now status run job (false, o) s = (internal_error, record s { objects = o })
  point_to_log job_id now status run job (true, o) s =
      let (r, w) = set_job_result job.id status (log_key run job) s.world in
      completed job_id run.id now r (record s { objects = o; world = w })

  abbrev complete_run :
      (cap job_id now : ℕ) → RunStatus → Body → Job → Result Run → Server → Reply × Server
  complete_run cap job_id now status body job (err e) s = (internal_error, s)
  complete_run cap job_id now status body job (ok run) s =
      point_to_log job_id now status run job (store_log cap (log_key run job) body s.objects) s

  abbrev complete_found :
      (cap job_id now : ℕ) → RunStatus → Body → Result Job → Server → Reply × Server
  complete_found cap job_id now status body (err not_found) s = (missing, s)
  complete_found cap job_id now status body (err e) s = (internal_error, s)
  complete_found cap job_id now status body (ok job) s =
      if is_terminal job.status
      then (ok_reply, s)
      else (let (r, w) = get_run job.run_id s.world in
          complete_run cap job_id now status body job r (record s { world = w }))

  -- handleComplete, after authed, jobID and completionStatus
  unfoldable pub complete_job : (cap job_id now : ℕ) → RunStatus → Body → Server → Reply × Server
  complete_job cap job_id now status body s =
      let (r, w) = get_job job_id s.world in
      complete_found cap job_id now status body r (record s { world = w })

  abbrev complete_parsed :
      (cap now : ℕ) → Body → Option Reply → Option ℕ → Option RunStatus → Server → Reply × Server
  complete_parsed cap now body (some denied) id status s = (denied, s)
  complete_parsed cap now body none none status s = (bad_request, s)
  complete_parsed cap now body none (some id) none s = (bad_request, s)
  complete_parsed cap now body none (some id) (some status) s =
      complete_job cap id now status body s

  -- `path_id` is what ParseInt makes of the path; a negative number, which no row has, is left out.
  unfoldable pub handle_complete :
      (secret : Bytes) (is_leader : Bool) (cap now : ℕ)
      → Caller
      → (path_id : Option ℕ) (status : Bytes) → Body
      → Server
      → Reply × Server
  handle_complete secret is_leader cap now caller path_id status body s =
      complete_parsed cap now body (authed secret is_leader caller) path_id
        (completion_status status) s

  abbrev chunk_read : (cap now id : ℕ) → Option Bytes → Server → Reply × Server
  chunk_read cap now id none s = (bad_request, s)
  chunk_read cap now id (some chunk) s =
      (no_content, record s { live = append cap id chunk now s.live })

  abbrev chunk_parsed : (cap now : ℕ) → Body → Option Reply → Option ℕ → Server → Reply × Server
  chunk_parsed cap now body (some denied) id s = (denied, s)
  chunk_parsed cap now body none none s = (bad_request, s)
  chunk_parsed cap now body none (some id) s = chunk_read cap now id (read_limited cap body) s

  unfoldable pub handle_log_chunk :
      (secret : Bytes) (is_leader : Bool) (cap now : ℕ)
      → Caller
      → Option ℕ
      → Body
      → Server
      → Reply × Server
  handle_log_chunk secret is_leader cap now caller path_id body s =
      chunk_parsed cap now body (authed secret is_leader caller) path_id s

  abbrev swept : Result (List ℕ) → Server → Bool × Server
  swept (err e) s = (false, s)
  swept (ok stuck) s = (true, record s { world = rollup_all stuck s.world })

  -- ReconcileStuck; `true` is a nil error
  unfoldable pub reconcile_stuck :
      (is_leader : Bool) (max_age live_ttl now : ℕ) → Server → Bool × Server
  reconcile_stuck false max_age live_ttl now s = (true, s)
  reconcile_stuck true max_age live_ttl now s =
      let (r, w) = sweep_stuck_jobs (now - max_age) s.world in
      swept r (record s { world = w; live = sweep now live_ttl s.live })

-- the spec that a claim returns
abbrev spec_of : Job → Run → Result Repo → Reply
spec_of job run (err e) = internal_error
spec_of job run (ok repo) = claimed (record {
  job_id = job.id;
  run_id = run.id;
  repo = repo.name;
  sha = run.sha;
  ref = run.ref;
  workflow_dir = workflow_dir;
})

abbrev claim_run : Job → Result Run → World → Reply × World
claim_run job (err e) w = (internal_error, w)
claim_run job (ok run) w = let (r, w') = get_repo_by_id run.repo_id w in (spec_of job run r, w')

abbrev claim_found : Result Job → World → Reply × World
claim_found (err not_found) w = (missing, w)
claim_found (err e) w = (internal_error, w)
claim_found (ok job) w = let (r, w') = get_run job.run_id w in claim_run job r w'

abbrev claim_parsed : Option Reply → Option ℕ → World → Reply × World
claim_parsed (some denied) id w = (denied, w)
claim_parsed none none w = (bad_request, w)
claim_parsed none (some id) w = let (r, w') = claim_job id w in claim_found r w'

unfoldable pub handle_claim :
    (secret : Bytes) (is_leader : Bool) → Caller → Option ℕ → World → Reply × World
handle_claim secret is_leader caller path_id w =
    claim_parsed (authed secret is_leader caller) path_id w
