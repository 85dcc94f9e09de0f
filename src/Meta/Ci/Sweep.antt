-- ===== src/Meta/Ci/Sweep.antt =====
-- internal/meta/ci.go: what SweepStuckJobs leaves.
use gitmote.Common.{
  ℕ, Bool, true, false, ◌&&◌, List, [], ◌∷◌, ◌==◌, if◌then◌else◌, any, keep, map, Has, Result, ok,
  ◌≡◌, refl, arith, inl, inr, ap, sym, ◌∙◌,
}
use gitmote.Meta.Schema.{Db, Job, error}
use gitmote.Meta.Sql.{World, next_fault, later, continue}
use gitmote.Meta.Ci.{is_running, update_jobs, with_status, fail_jobs, is_stuck, sweep_stuck_jobs}

-- A running job with one of the ids is set to error.
abbrev pub settled : ℕ → List ℕ → Job → Job
settled ts ids j =
    if is_running j.status && any (λ i. j.id == i) ids then with_status error ts j else j

settled_twice :
    (ts i : ℕ) (ids : List ℕ) (j : Job)
    → settled ts ids (if j.id == i && is_running j.status then with_status error ts j else j)
      ≡ settled ts (i ∷ ids) j
settled_twice ts i ids j = ground arith

settled-update_jobs :
    (ts i : ℕ) (ids : List ℕ) (rows : List Job)
    → map
        (settled ts ids)
        (update_jobs (λ j. j.id == i && is_running j.status) (with_status error ts) rows)
      ≡ map (settled ts (i ∷ ids)) rows
unfolding update_jobs
settled-update_jobs ts i ids [] = refl
settled-update_jobs ts i ids (j ∷ js) =
    rw (settled_twice ts i ids j)
      (ap (λ r. settled ts (i ∷ ids) j ∷ r) (settled-update_jobs ts i ids js))

settled_none : (ts : ℕ) (rows : List Job) → map (settled ts []) rows ≡ rows
settled_none ts [] = refl
settled_none ts (j ∷ js) = ground (arith, settled_none ts js)

abbrev pub quiet : Db → ℕ → World
quiet db clock = record { db = db; faults = []; clock = clock }

abbrev pub with_jobs : Db → List Job → Db
with_jobs db rows = record db { ci_jobs = rows }

fail_jobs-quiet :
    (ids : List ℕ) (db : Db) (clock : ℕ)
    → fail_jobs ids (quiet db clock)
      ≡ (ok tt, quiet (with_jobs db (map (settled clock ids) db.ci_jobs)) clock)
unfolding fail_jobs next_fault later
fail_jobs-quiet [] db clock =
    ap (λ rows. (ok tt, quiet (with_jobs db rows) clock)) (sym (settled_none clock db.ci_jobs))
fail_jobs-quiet (i ∷ ids) db clock =
    let p : Job → Bool = λ j. j.id == i && is_running j.status in
    let moved = update_jobs p (with_status error clock) db.ci_jobs in
    fail_jobs-quiet ids (with_jobs db moved) clock
    ∙ ap (λ rows. (ok tt, quiet (with_jobs db rows) clock))
        (settled-update_jobs clock i ids db.ci_jobs)

settled_stuck :
    (cutoff ts : ℕ) (ids : List ℕ) (j : Job)
    → (is_stuck cutoff j ≡ true → any (λ i. j.id == i) ids ≡ true)
    → is_stuck cutoff (settled ts ids j) ≡ false
settled_stuck cutoff ts ids j h = ground (arith, h)

any-ids :
    (cutoff : ℕ) (j : Job) (rows : List Job)
    → Has j rows
    → is_stuck cutoff j ≡ true
    → any (λ i. j.id == i) (map (λ (k : Job). k.id) (keep (is_stuck cutoff) rows)) ≡ true
any-ids cutoff j [] h e = absurd h
any-ids cutoff j (k ∷ rows) (inl same) e = rw (← same, e) (ground arith)
any-ids cutoff j (k ∷ rows) (inr h) e = ground (arith, any-ids cutoff j rows h e)

none_stuck :
    (cutoff ts : ℕ) (ids : List ℕ) (rows : List Job)
    → ((j : Job) → Has j rows → is_stuck cutoff j ≡ true → any (λ i. j.id == i) ids ≡ true)
    → any (is_stuck cutoff) (map (settled ts ids) rows) ≡ false
none_stuck cutoff ts ids [] h = refl
none_stuck cutoff ts ids (j ∷ js) h = ground (
  arith,
  settled_stuck cutoff ts ids j (h j (inl refl)),
  none_stuck cutoff ts ids js (λ k m. h k (inr m)),
)

-- While no statement fails, SweepStuckJobs returns the ids of the running jobs that were last updated
-- before the cutoff; it sets the running jobs with those ids to error and leaves every other row and
-- table; and no stuck job is left.
pub sweep_stuck_jobs-settled :
    (cutoff clock : ℕ) (db : Db)
    → let ids = map (λ (j : Job). j.id) (keep (is_stuck cutoff) db.ci_jobs) in
      let rows = map (settled clock ids) db.ci_jobs in
      (sweep_stuck_jobs cutoff (quiet db clock) ≡ (ok ids, quiet (with_jobs db rows) clock))
      × (any (is_stuck cutoff) rows ≡ false)
unfolding sweep_stuck_jobs next_fault later
sweep_stuck_jobs-settled cutoff clock db =
    let ids = map (λ (j : Job). j.id) (keep (is_stuck cutoff) db.ci_jobs) in
    (
      ap (λ (p : Result (Unit {0}) × World). continue p.0 (λ _ u. (ok ids, u)) p.1)
          (fail_jobs-quiet ids db clock),
      none_stuck cutoff clock ids db.ci_jobs (λ j h e. any-ids cutoff j db.ci_jobs h e),
    )
