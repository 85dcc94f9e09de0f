-- ===== src/Ci/Tests.antt =====
-- A run with two jobs, logs of a few bytes, and the theorems of the package at those inputs.
use gitmote.Common.{
  map, any, ◌&&◌, ◌==◌, true, false, ℕ, ◌+◌, true, false, List, [], ◌∷◌, ◌++◌, Bytes, codes, length,
  none, some, ok, err, driver, not_found, pos, ◌≡◌, ◌⊎◌, refl,
}
use gitmote.Meta.Schema.{Run, Job, queued, running, passed, failed, error, Db}
use gitmote.Meta.Sql.{World, next_fault, later}
use gitmote.Meta.Ci.Sweep.{settled, quiet, with_jobs, sweep_stuck_jobs-settled}
use gitmote.Ci.Report.Reconcile.{reconcile_stuck_partial}
use gitmote.Meta.Ci.{
  sweep_stuck_jobs, is_stuck, is_running, with_status, claim_job, get_job, job_with_id, update_jobs,
}
use gitmote.Meta.Ci.Claim.{is_claimable, here, next, claim, claim_job_once}
use gitmote.Meta.Tests
use gitmote.Store.Mem.{mem_store}
use gitmote.Ci.LiveLogs.{
  LiveLogs, Tail, Call, to_append, to_finish, to_sweep, append, append_chunk, log_of, read, clamp,
  perform, perform_all, finish, truncation_marker,
}
use gitmote.Ci.LiveLogs.Stream.{sent, capped, read-perform_all}
use gitmote.Ci.LiveLogs.Bound.{IsBounded, perform_all-IsBounded}
use gitmote.Ci.Report.{reconcile_stuck, Server, Body, rollup}
use gitmote.Ci.Report.Rollup.{worst_of, rollup-worst_of}

-- Job 1 sends five bytes in two chunks, over a cap of four, and job 2 one byte between them.
abbrev calls : List Call
calls =
    to_append 1 (codes "abc") 1
    ∷ to_append 2 (codes "x") 2
    ∷ to_append 1 (codes "de") 3
    ∷ to_finish 1 4
    ∷ []

cut_off :
    read 1 (pos 0) (perform_all 4 calls [])
    ≡ some (record { bytes = codes "abcd" ++ truncation_marker; next = 43; done = true })
unfolding perform_all perform append append_chunk finish read log_of clamp truncation_marker
cut_off = refl

read-perform_all_example :
    ((read 1 (pos 0) (perform_all 4 calls []) ≡ none) × (sent 1 calls ≡ []))
    ⊎ ((t : Tail) × (read 1 (pos 0) (perform_all 4 calls []) ≡ some t)
        × (t.bytes ≡ capped 4 (sent 1 calls))
        × (t.next ≡ length t.bytes))
read-perform_all_example = read-perform_all 4 1 calls (tt, (tt, (tt, (tt, tt))))

abbrev first_chunk : LiveLogs
first_chunk = (1, record { buf = codes "abc"; done = false; truncated = false; updated = 1 }) ∷ []

perform_all-IsBounded_example : IsBounded 4 (perform_all 4 (to_sweep 9 1 ∷ calls) [])
perform_all-IsBounded_example = perform_all-IsBounded 4 (to_sweep 9 1 ∷ calls)

abbrev job : Job
job = record {
  id = 5;
  run_id = 3;
  name = codes "ci.yml";
  status = queued;
  log_key = [];
  created_at = 0;
  updated_at = 0;
}

abbrev run : Run
run = record {
  id = 3;
  repo_id = 1;
  ref = codes "main";
  sha = codes "a1";
  status = running;
  created_at = 0;
  updated_at = 0;
}

abbrev with_ci : World
with_ci = record Tests.running {
  db = record Tests.forge {
    ci_runs = run ∷ [];
    ci_jobs = job ∷ record job { id = 6; status = failed } ∷ [];
  };
}

abbrev claimed_job : Job
claimed_job = record job { status = running; updated_at = 10 }

first_claim : (claim_job 5 with_ci).0 ≡ ok claimed_job
unfolding claim_job get_job job_with_id update_jobs next_fault later
first_claim = refl

abbrev after_two : World
after_two = (claim_job 6 (claim_job 5 with_ci).1).1

claim_job_once_example :
    (is_claimable 5 with_ci.db.ci_jobs ≡ true)
    × (((claim_job 5 after_two).0 ≡ err driver) ⊎ ((claim_job 5 after_two).0 ≡ err not_found))
claim_job_once_example =
    claim_job_once 5 with_ci after_two claimed_job first_claim (next here (claim 6 refl))

rollup-worst_of_example : rollup (claimed_job ∷ job ∷ []) ≡ worst_of passed (claimed_job ∷ job ∷ [])
rollup-worst_of_example = rollup-worst_of (claimed_job ∷ job ∷ [])

-- A stand-in for the decimal rendering of a number: one byte.
abbrev tally : ℕ → Bytes
tally n = (b'0' + n) ∷ []

abbrev server : Server mem_store tally
server = record { world = with_ci; objects = []; live = first_chunk }

abbrev body : Body
body = record { content = codes "log"; breaks = false }

-- Two jobs that no runner has touched since time 1 and 2.
abbrev stuck : List Job
stuck =
    record job { status = running; updated_at = 1 }
    ∷ record job { id = 6; status = running; updated_at = 2 }
    ∷ []

abbrev stuck_db : Db
stuck_db = record Tests.forge { ci_runs = run ∷ []; ci_jobs = stuck }

sweep_stuck_jobs-settled_example :
    (sweep_stuck_jobs 9 (quiet stuck_db 20)
      ≡ (ok (5 ∷ 6 ∷ []), quiet (with_jobs stuck_db (map (settled 20 (5 ∷ 6 ∷ [])) stuck)) 20))
    × (any (is_stuck 9) (map (settled 20 (5 ∷ 6 ∷ [])) stuck) ≡ false)
sweep_stuck_jobs-settled_example = sweep_stuck_jobs-settled 9 20 stuck_db

abbrev interrupted : Server mem_store tally
interrupted = record {
  world = record { db = stuck_db; faults = false ∷ false ∷ true ∷ []; clock = 20 };
  objects = [];
  live = [];
}

reconcile_stuck_partial_example :
    ((reconcile_stuck mem_store tally true 11 600 20 interrupted).0 ≡ false)
    × ((reconcile_stuck mem_store tally true 11 600 20 interrupted).1.world.db ≡ record stuck_db {
      ci_jobs = update_jobs (λ j. j.id == 5 && is_running j.status) (with_status error 20) stuck;
    })
reconcile_stuck_partial_example =
    reconcile_stuck_partial mem_store tally 11 600 20 interrupted
      (record job { status = running; updated_at = 1 })
      (record job { id = 6; status = running; updated_at = 2 }) [] [] refl refl
