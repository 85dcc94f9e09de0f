-- ===== src/Meta/Ci/Claim.antt =====
-- internal/meta/ci.go: several claims of one job, with other calls between them.
use gitmote.Common.{
  ℕ, ◌<◌, Bool, true, false, ◌&&◌, List, [], ◌∷◌, Bytes, ◌==◌, any, keep, map, Result, ok, err,
  driver, not_found, ◌≡◌, ◌⊎◌, inl, inr, refl, arith, Bool-cases, ◌∙◌,
}
use gitmote.Meta.Schema.{Job, RunStatus, running, error}
use gitmote.Meta.Sql.{World, next_fault, spend, continue}
use gitmote.Meta.Ci.{
  is_queued, is_running, next_job_id, update_jobs, create_job, with_status, set_job_status, get_job,
  is_queued_job, claim_job, move_jobs, set_job_result, fail_jobs, sweep_stuck_jobs, is_stuck,
}

abbrev has_job : ℕ → List Job → Bool
has_job id rows = any (λ j. j.id == id) rows

abbrev pub is_claimable : ℕ → List Job → Bool
is_claimable id rows = any (is_queued_job id) rows

has_job-update_jobs :
    (id : ℕ) (p : Job → Bool) (f : Job → Job) (rows : List Job)
    → ((j : Job) → (f j).id ≡ j.id)
    → has_job id (update_jobs p f rows) ≡ has_job id rows
unfolding update_jobs
has_job-update_jobs id p f [] k = refl
has_job-update_jobs id p f (j ∷ js) k = ground (arith, has_job-update_jobs id p f js k, k j)

is_claimable-update_jobs :
    (id : ℕ) (p : Job → Bool) (f : Job → Job) (rows : List Job)
    → ((j : Job) → is_queued (f j).status ≡ false)
    → is_claimable id rows ≡ false
    → is_claimable id (update_jobs p f rows) ≡ false
unfolding update_jobs
is_claimable-update_jobs id p f [] q h = refl
is_claimable-update_jobs id p f (j ∷ js) q h =
    ground (arith, is_claimable-update_jobs id p f js q, q j)

is_claimable-claimed :
    (id ts : ℕ) (rows : List Job)
    → is_claimable id (update_jobs (is_queued_job id) (with_status running ts) rows) ≡ false
unfolding update_jobs
is_claimable-claimed id ts [] = refl
is_claimable-claimed id ts (j ∷ js) = ground (arith, is_claimable-claimed id ts js)

has_job_claimable :
    (id : ℕ) (rows : List Job) → is_claimable id rows ≡ true → has_job id rows ≡ true
has_job_claimable id [] h = h
has_job_claimable id (j ∷ js) h = ground (arith, has_job_claimable id js)

has_job-next_job_id : (id : ℕ) (rows : List Job) → has_job id rows ≡ true → id < next_job_id rows
unfolding next_job_id
has_job-next_job_id id [] h = absurd (ground arith)
has_job-next_job_id id (j ∷ js) h = ground (arith, has_job-next_job_id id js)

-- The job exists and has left the queue.
record Left (id : ℕ) (w : World) : Type 0 where
  there : has_job id w.db.ci_jobs ≡ true
  gone : is_claimable id w.db.ci_jobs ≡ false

Left-move_jobs :
    (id : ℕ) (p : Job → Bool) (f : Job → Job) (w : World)
    → ((j : Job) → (f j).id ≡ j.id)
    → ((j : Job) → is_queued (f j).status ≡ false)
    → Left id w
    → Left id (move_jobs p f w).1
Left-move_jobs id p f w k q h = elim (Bool-cases (next_fault w.faults)) [
  | inl e ↦ rw e (record { there = h.there; gone = h.gone })
  | inr e ↦ rw e (record {
    there = has_job-update_jobs id p f w.db.ci_jobs k ∙ h.there;
    gone = is_claimable-update_jobs id p f w.db.ci_jobs q h.gone;
  })
]

-- A call of the layer on the jobs, or any other work that leaves the jobs alone. No code sets a job
-- back to queued.
pub data Call (w w' : World) : Type 0 where
  create : (run_id : ℕ) (name : Bytes) → w' ≡ (create_job run_id name w).1 → Call w w'
  claim : (job_id : ℕ) → w' ≡ (claim_job job_id w).1 → Call w w'
  set_status :
      (job_id : ℕ) (status : RunStatus)
      → is_queued status ≡ false
      → w' ≡ (set_job_status job_id status w).1
      → Call w w'
  set_result :
      (job_id : ℕ) (status : RunStatus) (log_key : Bytes)
      → is_queued status ≡ false
      → w' ≡ (set_job_result job_id status log_key w).1
      → Call w w'
  sweep : (cutoff : ℕ) → w' ≡ (sweep_stuck_jobs cutoff w).1 → Call w w'
  elsewhere : w'.db.ci_jobs ≡ w.db.ci_jobs → Call w w'

pub data Calls (w : World) : World → Type 0 where
  here : Calls w w
  next : {v v' : World} → Calls w v → Call v v' → Calls w v'

Left-same : (id : ℕ) (w w' : World) → w'.db.ci_jobs ≡ w.db.ci_jobs → Left id w → Left id w'
Left-same id w w' e h = record { there = rw e h.there; gone = rw e h.gone }

Left-create_job :
    (id run_id : ℕ) (name : Bytes) (w : World) → Left id w → Left id (create_job run_id name w).1
unfolding create_job
Left-create_job id run_id name w h = elim (Bool-cases (next_fault w.faults)) [
  | inl e ↦ rw e (record { there = h.there; gone = h.gone })
  | inr e ↦ rw e (record {
    there = ground (arith, h.there);
    gone = ground (arith, h.gone, has_job-next_job_id id w.db.ci_jobs h.there);
  })
]

jobs-claim_job :
    (id : ℕ) (w : World)
    → (claim_job id w).1.db.ci_jobs
      ≡ (move_jobs (is_queued_job id) (with_status running w.clock) w).1.db.ci_jobs
unfolding claim_job get_job
jobs-claim_job id w = ground arith

jobs-set_job_status :
    (id : ℕ) (status : RunStatus) (w : World)
    → (set_job_status id status w).1.db.ci_jobs
      ≡ (move_jobs (λ j. j.id == id) (with_status status w.clock) w).1.db.ci_jobs
unfolding set_job_status
jobs-set_job_status id status w = ground arith

jobs-set_job_result :
    (id : ℕ) (status : RunStatus) (log_key : Bytes) (w : World)
    → (set_job_result id status log_key w).1.db.ci_jobs
      ≡ (move_jobs
          (λ j. j.id == id)
          (λ j. record j { status = status; log_key = log_key; updated_at = w.clock })
          w).1.db.ci_jobs
unfolding set_job_result
jobs-set_job_result id status log_key w = ground arith

Left-fail_jobs : (id : ℕ) (ids : List ℕ) (w : World) → Left id w → Left id (fail_jobs ids w).1
unfolding fail_jobs
Left-fail_jobs id [] w h = h
Left-fail_jobs id (i ∷ ids) w h = elim (Bool-cases (next_fault w.faults)) [
  | inl e ↦ rw e (record { there = h.there; gone = h.gone })
  | inr e ↦
      let p : Job → Bool = λ j. j.id == i && is_running j.status in
      let moved = Left-move_jobs id p (with_status error w.clock) w (λ j. refl) (λ j. refl) h in
      rw e (Left-fail_jobs id ids _ (rw e at moved))
]

after_continue :
    (r : Result (Unit {0})) (ids : List ℕ) (w : World) → (continue r (λ _ u. (ok ids, u)) w).1 ≡ w
after_continue (ok _) ids w = refl
after_continue (err e) ids w = refl

Left-sweep_stuck_jobs :
    (id cutoff : ℕ) (w : World) → Left id w → Left id (sweep_stuck_jobs cutoff w).1
unfolding sweep_stuck_jobs
Left-sweep_stuck_jobs id cutoff w h = elim (Bool-cases (next_fault w.faults)) [
  | inl e ↦ rw e (record { there = h.there; gone = h.gone })
  | inr e ↦
      let stuck = map (λ (j : Job). j.id) (keep (is_stuck cutoff) w.db.ci_jobs) in
      let r = fail_jobs stuck (spend w) in
      rw (e, after_continue r.0 stuck r.1)
        (Left-fail_jobs id stuck (spend w) (record { there = h.there; gone = h.gone }))
]

Left-Call : (id : ℕ) (w w' : World) → Call w w' → Left id w → Left id w'
Left-Call id w w' (create run_id name e) h = rw e (Left-create_job id run_id name w h)
Left-Call id w w' (claim job_id e) h =
    Left-same id (move_jobs (is_queued_job job_id) (with_status running w.clock) w).1 w'
      (rw e (jobs-claim_job job_id w)) (Left-move_jobs id _ _ w (λ j. refl) (λ j. refl) h)
Left-Call id w w' (set_status job_id status q e) h =
    Left-same id (move_jobs (λ j. j.id == job_id) (with_status status w.clock) w).1 w'
      (rw e (jobs-set_job_status job_id status w)) (Left-move_jobs id _ _ w (λ j. refl) (λ j. q) h)
Left-Call id w w' (set_result job_id status log_key q e) h =
    Left-same id _ w' (rw e (jobs-set_job_result job_id status log_key w)) (
      Left-move_jobs id (λ j. j.id == job_id)
        (λ j. record j { status = status; log_key = log_key; updated_at = w.clock }) w (λ j. refl)
        (λ j. q) h)
Left-Call id w w' (sweep cutoff e) h = rw e (Left-sweep_stuck_jobs id cutoff w h)
Left-Call id w w' (elsewhere e) h = Left-same id w w' e h

Left-Calls : (id : ℕ) {w v : World} → Left id w → Calls w v → Left id v
Left-Calls id h here = h
Left-Calls id h (next {v = v} {v' = v'} cs c) = Left-Call id v v' c (Left-Calls id h cs)

claimed-Left :
    (id : ℕ) (w : World) (j : Job)
    → (claim_job id w).0 ≡ ok j
    → (is_claimable id w.db.ci_jobs ≡ true) × Left id (claim_job id w).1
unfolding claim_job get_job
claimed-Left id w j h =
    let was : is_claimable id w.db.ci_jobs ≡ true = ground arith in
    (
      was,
      Left-same id
          (record w {
            db = record w.db {
              ci_jobs = update_jobs (is_queued_job id) (with_status running w.clock) w.db.ci_jobs;
            };
          })
          _ (ground arith)
          (record {
            there =
                has_job-update_jobs id (is_queued_job id) (with_status running w.clock) w.db.ci_jobs
                  (λ k. refl)
                ∙ has_job_claimable id w.db.ci_jobs was;
            gone = is_claimable-claimed id w.clock w.db.ci_jobs;
          }),
    )

unclaimable :
    (id : ℕ) (w : World)
    → is_claimable id w.db.ci_jobs ≡ false
    → ((claim_job id w).0 ≡ err driver) ⊎ ((claim_job id w).0 ≡ err not_found)
unfolding claim_job get_job
unclaimable id w h = ground arith

-- Of the callers that claim one job, at most one wins: a claim that succeeds found the job queued, and
-- after it, whatever calls on jobs come between, every claim of the same job is answered ErrNotFound or
-- with an error of the driver.
pub claim_job_once :
    (id : ℕ) (w v : World) (j : Job)
    → (claim_job id w).0 ≡ ok j
    → Calls (claim_job id w).1 v
    → (is_claimable id w.db.ci_jobs ≡ true)
      × (((claim_job id v).0 ≡ err driver) ⊎ ((claim_job id v).0 ≡ err not_found))
claim_job_once id w v j h cs =
    let (was, left) = claimed-Left id w j h in (was, unclaimable id v (Left-Calls id left cs).gone)
