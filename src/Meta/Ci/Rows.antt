-- ===== src/Meta/Ci/Rows.antt =====
-- internal/meta/ci.go: the ids of new rows, and the rows that an UPDATE by id leaves alone.
use gitmote.Common.{
  ℕ, ◌<◌, ◌≤◌, Bool, true, false, List, [], ◌∷◌, ◌++◌, All, any, ◌==◌, length, ◌≡◌, inl, inr, refl,
  arith, Bool-cases,
}
use gitmote.Meta.Schema.{Run, Job}
use gitmote.Meta.Ci.{next_run_id, next_job_id, update_runs, update_jobs}

run_id-lt : (id : ℕ) (rows : List Run) → any (λ r. r.id == id) rows ≡ true → id < next_run_id rows
unfolding next_run_id
run_id-lt id [] h = absurd (cc)
run_id-lt id (r ∷ rows) h = ground (arith, run_id-lt id rows)

job_id-lt : (id : ℕ) (rows : List Job) → any (λ j. j.id == id) rows ≡ true → id < next_job_id rows
unfolding next_job_id
job_id-lt id [] h = absurd (cc)
job_id-lt id (j ∷ rows) h = ground (arith, job_id-lt id rows)

pub no_job_from :
    (id : ℕ) (rows : List Job) → next_job_id rows ≤ id → any (λ j. j.id == id) rows ≡ false
no_job_from id rows h = elim (Bool-cases (any (λ j. j.id == id) rows)) [
  | inl e ↦ absurd (omega (arith, job_id-lt id rows e))
  | inr e ↦ e
]

pub no_next_run : (rows : List Run) → any (λ r. r.id == next_run_id rows) rows ≡ false
no_next_run rows = elim (Bool-cases (any (λ r. r.id == next_run_id rows) rows)) [
  | inl e ↦ absurd (omega (arith, run_id-lt (next_run_id rows) rows e))
  | inr e ↦ e
]

pub next_job_id-append : (xs ys : List Job) → next_job_id ys ≤ next_job_id (xs ++ ys)
unfolding next_job_id
next_job_id-append [] ys = omega arith
next_job_id-append (x ∷ xs) ys = ground (arith, next_job_id-append xs ys)

-- Rows that no id selects are left alone.
pub update_runs-append :
    (id : ℕ) (f : Run → Run) (xs ys : List Run)
    → any (λ r. r.id == id) ys ≡ false
    → update_runs id f (xs ++ ys) ≡ update_runs id f xs ++ ys
unfolding update_runs
update_runs-append id f [] [] h = refl
update_runs-append id f [] (y ∷ ys) h = ground (arith, update_runs-append id f [] ys)
update_runs-append id f (x ∷ xs) ys h = ground (arith, update_runs-append id f xs ys)

pub update_jobs-append :
    (id : ℕ) (f : Job → Job) (xs ys : List Job)
    → any (λ j. j.id == id) ys ≡ false
    → update_jobs (λ j. j.id == id) f (xs ++ ys) ≡ update_jobs (λ j. j.id == id) f xs ++ ys
unfolding update_jobs
update_jobs-append id f [] [] h = refl
update_jobs-append id f [] (y ∷ ys) h = ground (arith, update_jobs-append id f [] ys)
update_jobs-append id f (x ∷ xs) ys h = ground (arith, update_jobs-append id f xs ys)

pub length-update_runs :
    (id : ℕ) (f : Run → Run) (rows : List Run) → length (update_runs id f rows) ≡ length rows
unfolding update_runs
length-update_runs id f [] = refl
length-update_runs id f (r ∷ rows) = omega (arith, length-update_runs id f rows)

pub All-update_runs :
    (P : Run → Type 0) (id : ℕ) (f : Run → Run) (rows : List Run)
    → ((r : Run) → P r → P (f r))
    → All P rows
    → All P (update_runs id f rows)
unfolding update_runs
All-update_runs P id f [] k h = tt
All-update_runs P id f (r ∷ rows) k h = elim (Bool-cases (r.id == id)) [
  | inl e ↦ rw e (k r h.0, All-update_runs P id f rows k h.1)
  | inr e ↦ rw e (h.0, All-update_runs P id f rows k h.1)
]

pub All-update_jobs :
    (P : Job → Type 0) (p : Job → Bool) (f : Job → Job) (rows : List Job)
    → ((j : Job) → P j → P (f j))
    → All P rows
    → All P (update_jobs p f rows)
unfolding update_jobs
All-update_jobs P p f [] k h = tt
All-update_jobs P p f (j ∷ rows) k h = elim (Bool-cases (p j)) [
  | inl e ↦ rw e (k j h.0, All-update_jobs P p f rows k h.1)
  | inr e ↦ rw e (h.0, All-update_jobs P p f rows k h.1)
]
