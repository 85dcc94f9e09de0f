-- ===== src/Ci/Dispatcher/Extends.antt =====
-- internal/ci/dispatcher.go: what a dispatch may write, whatever fails.
use gitmote.Common.{
  ℕ, ◌≤◌, Bool, List, [], ◌∷◌, ◌++◌, Bytes, All, any, ◌==◌, length, ok, Option, some, ◌≡◌, inl, inr,
  refl, ap, ◌∙◌, arith, Bool-cases,
}
use gitmote.Meta.Schema.{Db, Run, Job, RunStatus}
use gitmote.Meta.Sql.{World, Sql, next_fault}
use gitmote.Meta.Ci.{
  next_run_id, next_job_id, new_run, new_job, update_runs, update_jobs, create_run, create_job,
  set_run_status, set_job_status,
}
use gitmote.Meta.Ci.Rows.{
  no_job_from, no_next_run, next_job_id-append, update_runs-append, update_jobs-append,
  length-update_runs, All-update_runs, All-update_jobs,
}
use gitmote.Ci.EnvSecrets.{Env}
use gitmote.Ci.Dispatcher.{Event, Minter, Dispatcher}

-- What a dispatcher relies on: materializing a repo and loading its secrets only read the database,
-- and minting a token writes the table of tokens at most.
pub record IsWired (d : Dispatcher) : Type 0 where
  pub materialize_reads : (name : Bytes) (w : World) → (d.materialize name w).1.db ≡ w.db
  pub secrets_read :
      (load : ℕ → Sql Env)
      → d.secrets ≡ some load
      → (repo_id : ℕ) (w : World) → (load repo_id w).1.db ≡ w.db
  pub minter_adds :
      (mint : Minter)
      → d.minter ≡ some mint
      → (user_id : ℕ) (label : Bytes) (scope : Option ℕ) (read_only : Bool) (expires_at : Option ℕ)
      → (w : World)
      → let after = (mint user_id label scope read_only expires_at w).1.db in
        after ≡ record w.db { tokens = after.tokens }

module _ (ev : Event) (before : Db) where
  -- The run that the event asks for.
  abbrev pub IsRunOf : Run → Type 0
  IsRunOf r = (r.repo_id ≡ ev.repo_id) × (r.ref ≡ ev.ref) × (r.sha ≡ ev.new_sha)

  -- The tables after a dispatch: those of before, with one run of the event at most and with jobs of
  -- that run in front, and with any tokens.
  pub record Extends (after : Db) : Type 0 where
    pub repos : after.repos ≡ before.repos
    pub refs : after.refs ≡ before.refs
    pub users : after.users ≡ before.users
    pub acls : after.acls ≡ before.acls
    pub new_runs : List Run
    pub runs : after.ci_runs ≡ new_runs ++ before.ci_runs
    pub one_run : length new_runs ≤ 1
    pub of_event : All IsRunOf new_runs
    pub new_jobs : List Job
    pub jobs : after.ci_jobs ≡ new_jobs ++ before.ci_jobs
    pub of_run : All (λ j. j.run_id ≡ next_run_id before.ci_runs) new_jobs

  abbrev run_id : ℕ
  run_id = next_run_id before.ci_runs

  pub Extends-refl : Extends before
  Extends-refl = record {
    repos = refl;
    refs = refl;
    users = refl;
    acls = refl;
    new_runs = [];
    runs = refl;
    one_run = omega arith;
    of_event = tt;
    new_jobs = [];
    jobs = refl;
    of_run = tt;
  }

  pub Extends-eq : {a b : Db} → b ≡ a → Extends a → Extends b
  Extends-eq e h = rw e h

  pub Extends-tokens : {a b : Db} → b ≡ record a { tokens = b.tokens } → Extends a → Extends b
  Extends-tokens {a} {b} e h = rw e (record {
    repos = h.repos;
    refs = h.refs;
    users = h.users;
    acls = h.acls;
    new_runs = h.new_runs;
    runs = h.runs;
    one_run = h.one_run;
    of_event = h.of_event;
    new_jobs = h.new_jobs;
    jobs = h.jobs;
    of_run = h.of_run;
  })

  pub Extends-move_run :
      (status : RunStatus) (w : World)
      → Extends w.db
      → Extends (set_run_status run_id status w).1.db
  unfolding set_run_status
  Extends-move_run status w h =
      let f : Run → Run = λ r. record r { status = status; updated_at = w.clock } in
      let moved : Extends (record w.db { ci_runs = update_runs run_id f w.db.ci_runs }) = record {
        repos = h.repos;
        refs = h.refs;
        users = h.users;
        acls = h.acls;
        new_runs = update_runs run_id f h.new_runs;
        runs =
            ap (update_runs run_id f) h.runs
            ∙ update_runs-append run_id f h.new_runs before.ci_runs (no_next_run before.ci_runs);
        one_run = omega (arith, length-update_runs run_id f h.new_runs, h.one_run);
        of_event = All-update_runs IsRunOf run_id f h.new_runs (λ r k. k) h.of_event;
        new_jobs = h.new_jobs;
        jobs = h.jobs;
        of_run = h.of_run;
      } in
      elim (Bool-cases (next_fault w.faults)) [
        | inl e ↦ rw e h
        | inr e ↦ elim (Bool-cases (any (λ r. r.id == run_id) w.db.ci_runs)) [
          | inl g ↦ rw (e, g) moved
          | inr g ↦ rw (e, g) moved
        ]
      ]

  pub Extends-set_job_status :
      (id : ℕ) (status : RunStatus) (w : World)
      → next_job_id before.ci_jobs ≤ id
      → Extends w.db
      → Extends (set_job_status id status w).1.db
  unfolding set_job_status
  Extends-set_job_status id status w l h =
      let f : Job → Job = λ j. record j { status = status; updated_at = w.clock } in
      let p : Job → Bool = λ j. j.id == id in
      let moved : Extends (record w.db { ci_jobs = update_jobs p f w.db.ci_jobs }) = record {
        repos = h.repos;
        refs = h.refs;
        users = h.users;
        acls = h.acls;
        new_runs = h.new_runs;
        runs = h.runs;
        one_run = h.one_run;
        of_event = h.of_event;
        new_jobs = update_jobs p f h.new_jobs;
        jobs =
            ap (update_jobs p f) h.jobs
            ∙ update_jobs-append id f h.new_jobs before.ci_jobs (no_job_from id before.ci_jobs l);
        of_run = All-update_jobs (λ j. j.run_id ≡ run_id) p f h.new_jobs (λ j k. k) h.of_run;
      } in
      elim (Bool-cases (next_fault w.faults)) [
        | inl e ↦ rw e h
        | inr e ↦ elim (Bool-cases (any p w.db.ci_jobs)) [
          | inl g ↦ rw (e, g) moved
          | inr g ↦ rw (e, g) moved
        ]
      ]

  pub Extends-create_job :
      (name : Bytes) (w : World)
      → Extends w.db
      → Extends (create_job run_id name w).1.db
        × ((j : Job) → (create_job run_id name w).0 ≡ ok j → next_job_id before.ci_jobs ≤ j.id)
  unfolding create_job
  Extends-create_job name w h = elim (Bool-cases (next_fault w.faults)) [
    | inl e ↦ rw e (h, λ j k. absurd (cc))
    | inr e ↦ rw e (
      record {
        repos = h.repos;
        refs = h.refs;
        users = h.users;
        acls = h.acls;
        new_runs = h.new_runs;
        runs = h.runs;
        one_run = h.one_run;
        of_event = h.of_event;
        new_jobs = new_job w.db run_id name w.clock ∷ h.new_jobs;
        jobs = ap (λ js. new_job w.db run_id name w.clock ∷ js) h.jobs;
        of_run = (refl, h.of_run);
      },
      λ j k. ground (arith, ap next_job_id h.jobs, next_job_id-append h.new_jobs before.ci_jobs),
    )
  ]

  -- The run is created in the tables of before, or the call fails.
  pub Extends-create_run :
      (w : World)
      → w.db ≡ before
      → let (r, w') = create_run ev.repo_id ev.ref ev.new_sha w in
        Extends w'.db × ((run : Run) → r ≡ ok run → run.id ≡ run_id)
  unfolding create_run
  Extends-create_run w b = elim (Bool-cases (next_fault w.faults)) [
    | inl e ↦ rw e (Extends-eq b Extends-refl, λ run k. absurd (cc))
    | inr e ↦ rw e (
      record {
        repos = ap (λ (db : Db). db.repos) b;
        refs = ap (λ (db : Db). db.refs) b;
        users = ap (λ (db : Db). db.users) b;
        acls = ap (λ (db : Db). db.acls) b;
        new_runs = new_run w.db ev.repo_id ev.ref ev.new_sha w.clock ∷ [];
        runs = ap (λ (db : Db). new_run w.db ev.repo_id ev.ref ev.new_sha w.clock ∷ db.ci_runs) b;
        one_run = omega arith;
        of_event = ((refl, refl, refl), tt);
        new_jobs = [];
        jobs = ap (λ (db : Db). db.ci_jobs) b;
        of_run = tt;
      },
      λ run k. ground (arith, ap (λ (db : Db). next_run_id db.ci_runs) b),
    )
  ]
