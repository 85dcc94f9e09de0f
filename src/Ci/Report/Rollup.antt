-- ===== src/Ci/Report/Rollup.antt =====
-- internal/ci/report.go: the status of a run against the worst of its jobs.
use gitmote.Common.{Bool, true, false, not, List, [], ◌∷◌, if◌then◌else◌, any, ◌≡◌, refl, arith}
use gitmote.Meta.Schema.{Job, RunStatus, running, passed, failed, error}
use gitmote.Ci.Report.{is_terminal, rollup_from, rollup}

abbrev pub is_error : RunStatus → Bool
is_error error = true
is_error s = false

abbrev pub is_failed : RunStatus → Bool
is_failed failed = true
is_failed s = false

-- The rule, by what the jobs have among them.
abbrev pub worst_of : RunStatus → List Job → RunStatus
worst_of otherwise jobs =
    if any (λ j. not (is_terminal j.status)) jobs
    then running
    else if any (λ j. is_error j.status) jobs
    then error
    else if any (λ j. is_failed j.status) jobs
    then failed
    else otherwise

from_error :
    (jobs : List Job)
    → rollup_from error jobs
      ≡ (if any (λ j. not (is_terminal j.status)) jobs then running else error)
unfolding rollup_from
from_error [] = refl
from_error (j ∷ js) = ground (arith, from_error js)

from_failed : (jobs : List Job) → rollup_from failed jobs ≡ worst_of failed jobs
unfolding rollup_from
from_failed [] = refl
from_failed (j ∷ js) = ground (arith, from_failed js, from_error js)

from_passed : (jobs : List Job) → rollup_from passed jobs ≡ worst_of passed jobs
unfolding rollup_from
from_passed [] = refl
from_passed (j ∷ js) = ground (arith, from_passed js, from_failed js, from_error js)

-- rollup computes the rule: running while some job is not terminal, and otherwise the worst among
-- error, failed and passed.
pub rollup-worst_of : (jobs : List Job) → rollup jobs ≡ worst_of passed jobs
unfolding rollup
rollup-worst_of jobs = from_passed jobs
