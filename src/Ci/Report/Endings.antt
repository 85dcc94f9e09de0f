-- ===== src/Ci/Report/Endings.antt =====
-- internal/ci/report.go: how a report of completion may end.
use gitmote.Common.{
  ℕ, ◌+◌, none, Bool, true, false, ◌||◌, List, Bytes, ◌==◌, keep, leb, some, ◌≡◌, ◌⊎◌, inl, inr,
  refl, arith, Bool-cases,
}
use gitmote.Common.Sort.{order_by}
use gitmote.Meta.Schema.{Db, Run, Job, RunStatus}
use gitmote.Meta.Sql.{World, next_fault, later}
use gitmote.Meta.Ci.{update_jobs, update_runs, job_with_id, run_with_id, list_jobs, set_run_status}
use gitmote.Store.{ObjectStore}
use gitmote.Ci.LiveLogs.{finish}
use gitmote.Ci.Report.{
  Reply, ok_reply, missing, internal_error, Body, read_limited, is_terminal, rollup, rollup_run,
  Server, log_key, store_log, cap_log,
}
use gitmote.Ci.Report.Lookups.{as_result}

abbrev pub jobs_of : ℕ → Db → List Job
jobs_of run_id db = order_by (λ a b. leb a.id b.id) (keep (λ j. j.run_id == run_id) db.ci_jobs)

-- The two statements of the roll-up both succeed, and the run has the rolled-up status of its jobs, or
-- one of them fails, and the tables are those of before. `faults` says which of the statements to come
-- fail.
abbrev pub IsRolledUp : ℕ → ℕ → List Bool → Db → Db → Type 0
IsRolledUp run_id ts faults before db =
    ((next_fault faults || next_fault (later faults) ≡ true) × (db ≡ before))
    ⊎ ((next_fault faults || next_fault (later faults) ≡ false)
        × (db ≡ record before {
          ci_runs =
              update_runs run_id
                (λ r. record r { status = rollup (jobs_of run_id before); updated_at = ts })
                before.ci_runs;
        }))

pub IsRolledUp-rollup_run :
    (run_id : ℕ) (w : World) → IsRolledUp run_id w.clock w.faults w.db (rollup_run run_id w).db
unfolding rollup_run list_jobs set_run_status
IsRolledUp-rollup_run run_id w = elim (Bool-cases (next_fault w.faults)) [
  | inl e ↦ inl (rw e (refl, refl))
  | inr e ↦ elim (Bool-cases (next_fault (later w.faults))) [
    | inl g ↦ inl (rw (e, g) refl, ground arith)
    | inr g ↦ inr (rw (e, g) refl, ground arith)
  ]
]

pub IsRolledUp-same :
    (run_id : ℕ) {s t : ℕ} {fs gs : List Bool} {before db : Db}
    → s ≡ t
    → fs ≡ gs
    → IsRolledUp run_id s fs before db
    → IsRolledUp run_id t gs before db
IsRolledUp-same run_id e f h = rw (← e, ← f) h

module _ (store : ObjectStore) (decimal : ℕ → Bytes) where
  -- Why a report of completion is refused: there is no such job, or a statement of the three failed, or
  -- the run of the job is missing, or the log could not be read or stored.
  pub data Refused (cap job_id : ℕ) (body : Body) (s : Server store decimal) (r : Reply)
      : Type 0 where
    no_job :
        r ≡ missing → job_with_id job_id s.world.db.ci_jobs ≡ none → Refused cap job_id body s r
    no_statement :
        r ≡ internal_error
        → next_fault s.world.faults
            || next_fault (later s.world.faults)
            || next_fault (later (later s.world.faults))
          ≡ true
        → Refused cap job_id body s r
    no_run :
        (job : Job)
        → r ≡ internal_error
        → job_with_id job_id s.world.db.ci_jobs ≡ some job
        → run_with_id job.run_id s.world.db.ci_runs ≡ none
        → Refused cap job_id body s r
    no_log :
        (job : Job) (run : Run)
        → r ≡ internal_error
        → job_with_id job_id s.world.db.ci_jobs ≡ some job
        → run_with_id job.run_id s.world.db.ci_runs ≡ some run
        → (store_log store decimal cap (log_key store decimal run job) body s.objects).0 ≡ false
        → Refused cap job_id body s r

  -- What a report of completion comes to.
  pub data Completed (cap job_id now : ℕ) (status : RunStatus) (body : Body)
      (s : Server store decimal) (r : Reply) (s' : Server store decimal) : Type 0 where
    refused :
        Refused cap job_id body s r
        → s'.world.db ≡ s.world.db
        → s'.live ≡ s.live
        → Completed cap job_id now status body s r s'
    repeated :
        (job : Job)
        → r ≡ ok_reply
        → job_with_id job_id s.world.db.ci_jobs ≡ some job
        → is_terminal job.status ≡ true
        → s'.world.db ≡ s.world.db
        → s'.objects ≡ s.objects
        → s'.live ≡ s.live
        → Completed cap job_id now status body s r s'
    recorded :
        (job : Job) (run : Run) (bytes : Bytes) (db : Db)
        → r ≡ ok_reply
        → job_with_id job_id s.world.db.ci_jobs ≡ some job
        → is_terminal job.status ≡ false
        → run_with_id job.run_id s.world.db.ci_runs ≡ some run
        → read_limited (cap + 1) body ≡ some bytes
        → store.content (log_key store decimal run job) s'.objects
          ≡ some (cap_log store decimal cap bytes)
        → db ≡ record s.world.db {
          ci_jobs =
              update_jobs
                (λ j. j.id == job.id)
                (as_result status (log_key store decimal run job) s.world.clock)
                s.world.db.ci_jobs;
        }
        → IsRolledUp run.id s.world.clock (later (later (later s.world.faults))) db s'.world.db
        → s'.live ≡ finish job_id now s.live
        → Completed cap job_id now status body s r s'
