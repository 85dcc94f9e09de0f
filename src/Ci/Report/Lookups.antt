-- ===== src/Ci/Report/Lookups.antt =====
-- internal/ci/report.go: the statements of handleComplete, by how they end.
use gitmote.Common.{
  ℕ, Option, none, Bool, true, false, List, [], ◌∷◌, Bytes, any, ◌==◌, some, ok, err, Error,
  not_found, driver, ◌≡◌, ◌⊎◌, inl, inr, refl, ap, arith, Bool-cases, Option-cases,
}
use gitmote.Meta.Schema.{Run, Job, RunStatus}
use gitmote.Meta.Sql.{World, next_fault, later}
use gitmote.Meta.Ci.{update_jobs, job_with_id, run_with_id, get_job, get_run, set_job_result}

-- What a completed job looks like in the table.
abbrev pub as_result : RunStatus → Bytes → ℕ → Job → Job
as_result status key ts j = record j { status = status; log_key = key; updated_at = ts }

-- A statement that finds no row to update changes nothing.
update_jobs_none :
    (p : Job → Bool) (f : Job → Job) (rows : List Job)
    → any p rows ≡ false
    → update_jobs p f rows ≡ rows
unfolding update_jobs
update_jobs_none p f [] h = refl
update_jobs_none p f (j ∷ js) h = ground (arith, update_jobs_none p f js)

pub any-job_with_id :
    (id : ℕ) (job : Job) (rows : List Job)
    → job_with_id id rows ≡ some job
    → any (λ j. j.id == job.id) rows ≡ true
unfolding job_with_id
any-job_with_id id job [] h = absurd (cc)
any-job_with_id id job (j ∷ js) h = ground (arith, any-job_with_id id job js)

pub set_job_result_cases :
    (id : ℕ) (status : RunStatus) (key : Bytes) (w : World)
    → (((e : Error) × ((set_job_result id status key w).0 ≡ err e))
        × ((set_job_result id status key w).1.db ≡ w.db)
        × ((next_fault w.faults ≡ true) ⊎ (any (λ j. j.id == id) w.db.ci_jobs ≡ false)))
      ⊎ (((set_job_result id status key w).0 ≡ ok tt)
          × ((set_job_result id status key w).1.db ≡ record w.db {
            ci_jobs = update_jobs (λ j. j.id == id) (as_result status key w.clock) w.db.ci_jobs;
          })
          × ((set_job_result id status key w).1.clock ≡ w.clock)
          × ((set_job_result id status key w).1.faults ≡ later w.faults))
unfolding set_job_result
set_job_result_cases id status key w = elim (Bool-cases (next_fault w.faults)) [
  | inl e ↦ inl (rw e ((driver, refl), refl, inl refl))
  | inr e ↦ elim (Bool-cases (any (λ j. j.id == id) w.db.ci_jobs)) [
    | inl g ↦ inr (rw (e, g) (refl, refl, refl, refl))
    | inr g ↦ inl (
        rw (e, g)
          (
            (not_found, refl),
            ap (λ js. record w.db { ci_jobs = js })
                (update_jobs_none (λ j. j.id == id) (as_result status key w.clock) w.db.ci_jobs g),
            inr refl,
          ))
  ]
]

-- A lookup fails by a failing statement, or because no row is found.
abbrev pub Misses {ℓ} : {A : Type ℓ} → Bool → Option A → Error → Type ℓ
Misses fault found e = ((fault ≡ true) × (e ≡ driver)) ⊎ ((e ≡ not_found) × (found ≡ none))

pub get_job_cases :
    (id : ℕ) (w : World)
    → ((get_job id w).1.db ≡ w.db)
      × ((get_job id w).1.clock ≡ w.clock)
      × ((get_job id w).1.faults ≡ later w.faults)
      × ((j : Job) → (get_job id w).0 ≡ ok j → job_with_id id w.db.ci_jobs ≡ some j)
      × ((e : Error)
          → (get_job id w).0 ≡ err e
          → Misses (next_fault w.faults) (job_with_id id w.db.ci_jobs) e)
unfolding get_job
get_job_cases id w = (
  ground arith,
  ground arith,
  ground arith,
  λ j h. ground arith,
  λ e h. elim (Bool-cases (next_fault w.faults)) [
    | inl f ↦ inl (f, ground arith)
    | inr f ↦ elim (Option-cases (job_with_id id w.db.ci_jobs)) [
      | inl n ↦ inr (ground arith, n)
      | inr (j, n) ↦ absurd (ground arith)
    ]
  ],
)

pub get_run_cases :
    (id : ℕ) (w : World)
    → ((get_run id w).1.db ≡ w.db)
      × ((get_run id w).1.clock ≡ w.clock)
      × ((get_run id w).1.faults ≡ later w.faults)
      × ((j : Run) → (get_run id w).0 ≡ ok j → run_with_id id w.db.ci_runs ≡ some j)
      × ((e : Error)
          → (get_run id w).0 ≡ err e
          → Misses (next_fault w.faults) (run_with_id id w.db.ci_runs) e)
unfolding get_run
get_run_cases id w = (
  ground arith,
  ground arith,
  ground arith,
  λ j h. ground arith,
  λ e h. elim (Bool-cases (next_fault w.faults)) [
    | inl f ↦ inl (f, ground arith)
    | inr f ↦ elim (Option-cases (run_with_id id w.db.ci_runs)) [
      | inl n ↦ inr (ground arith, n)
      | inr (j, n) ↦ absurd (ground arith)
    ]
  ],
)
