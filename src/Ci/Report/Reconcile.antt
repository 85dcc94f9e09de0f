-- ===== src/Ci/Report/Reconcile.antt =====
-- internal/ci/report.go: what ReconcileStuck leaves when it is interrupted.
use gitmote.Common.{ℕ, ◌-◌, Bool, true, false, ◌&&◌, List, ◌∷◌, Bytes, keep, ◌==◌, ◌≡◌, refl}
use gitmote.Meta.Schema.{Job, error}
use gitmote.Meta.Sql.{next_fault, later}
use gitmote.Meta.Ci.{is_running, is_stuck, update_jobs, with_status, fail_jobs, sweep_stuck_jobs}
use gitmote.Store.{ObjectStore}
use gitmote.Ci.Report.{Server, reconcile_stuck}

module _ (store : ObjectStore) (decimal : ℕ → Bytes) where
  -- If two jobs or more are stuck, and the driver fails on the second update of the sweep, ReconcileStuck
  -- returns an error with the first job set to error and no run rolled up.
  pub reconcile_stuck_partial :
      (max_age live_ttl now : ℕ) (s : Server store decimal) (a b : Job) (more : List Job)
      (faults : List Bool)
      → s.world.faults ≡ false ∷ false ∷ true ∷ faults
      → keep (is_stuck (now - max_age)) s.world.db.ci_jobs ≡ a ∷ b ∷ more
      → let (returned, s') = reconcile_stuck store decimal true max_age live_ttl now s in
        (returned ≡ false)
        × (s'.world.db ≡ record s.world.db {
          ci_jobs =
              update_jobs
                (λ j. j.id == a.id && is_running j.status)
                (with_status error s.world.clock)
                s.world.db.ci_jobs;
        })
  unfolding reconcile_stuck sweep_stuck_jobs fail_jobs next_fault later
  reconcile_stuck_partial max_age live_ttl now s a b more faults f k = rw (f, k) (refl, refl)
