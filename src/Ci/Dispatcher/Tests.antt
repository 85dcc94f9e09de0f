-- ===== src/Ci/Dispatcher/Tests.antt =====
-- A push with a well-formed and a malformed workflow, and the theorems on triggers, secrets and
-- dispatches at such inputs.
use gitmote.Common.{
  ◌+◌, true, false, not, ◌&&◌, List, [], ◌∷◌, ◌++◌, Bytes, bytes_eq, codes, All, any, keep,
  contains_byte, starts_with, ends_with, trim_prefix, none, some, Option, ok, ◌≡◌, ◌↔◌, refl, ap,
  if◌then◌else◌,
}
use gitmote.Common.Sort.{order_by}
use gitmote.Meta.Schema.{Job, TokenRow, passed, failed}
use gitmote.Meta.Tests
use gitmote.Meta.Ci.{next_run_id}
use gitmote.Meta.Ci.Sweep.{quiet, with_jobs}
use gitmote.Auth.Guard.{mint_scoped}
use gitmote.Auth.Tests.{std}
use gitmote.Repo.Browse.{TreeEntry}
use gitmote.Ci.Report.{rollup_run}
use gitmote.Ci.Report.Endings.{jobs_of}
use gitmote.Ci.Triggers.{
  Node, node, scalar, sequence, mapping, item, end, Parsers, interpret_on, matches, any_glob,
  glob_match, atoms, match_atoms, parse_push_trigger,
}
use gitmote.Ci.Triggers.Filters.{Passes, matches_iff}
use gitmote.Ci.EnvSecrets.{load_env_secrets, lookup, secrets_for, repo_key, cut_delimiter}
use gitmote.Ci.EnvSecrets.Keys.{IsPlain, variable_key, secrets_for-load_env_secrets}
use gitmote.Ci.Dispatcher.{
  Event, Dispatcher, State, Minter, is_absent, is_yaml, triggered_by, validate, is_workflow,
  dispatch,
}
use gitmote.Ci.Dispatcher.Extends.{IsWired, Extends}
use gitmote.Ci.Dispatcher.Footprint.{dispatch-Extends}
use gitmote.Ci.Dispatcher.Outcome.{IsCalm, IsPush, recorded, dispatch-recorded}
use gitmote.Ci.Dispatcher.Malformed.{run_status, rollup_run-dispatch}
use gitmote.Ci.Dispatcher.Minting.{mint_scoped_tokens, mint_scoped_calm}

abbrev word : Bytes → Node
word s = node scalar s end

-- on: {push: {branches: ['release/**', main], branches-ignore: [wip]}}
abbrev filtered : Node
filtered = node mapping [] (
    item (word (codes "push")) (
      item
        (node mapping [] (
          item (word (codes "branches")) (
            item
              (node sequence [] (item (word (codes "release/**")) (item (word (codes "main")) end)))
              (item (word (codes "branches-ignore")) (item (word (codes "wip")) end)))))
        end))

-- The text "push" stands for `on: push`, any other text is malformed.
abbrev parsers : Parsers
parsers = record {
  on_key = λ s. if bytes_eq s (codes "push") then some (word s) else none;
  compiles = λ s. true;
}

interpret_filtered : interpret_on filtered ≡ record {
  reacts = true;
  branches = codes "release/**" ∷ codes "main" ∷ [];
  branches_ignore = codes "wip" ∷ [];
}
unfolding interpret_on bytes_eq
interpret_filtered = refl

release_selected : matches parsers (interpret_on filtered) (codes "release/1.2/rc") ≡ true
unfolding interpret_on bytes_eq matches any_glob glob_match atoms match_atoms
release_selected = refl

star_stops_at_slash : match_atoms (atoms (codes "feature/*")) (codes "feature/x/y") ≡ false
unfolding atoms match_atoms
star_stops_at_slash = refl

matches_iff_example :
    (matches parsers (interpret_on filtered) (codes "dev") ≡ true)
    ↔ Passes parsers (interpret_on filtered) (codes "dev")
matches_iff_example = matches_iff parsers (interpret_on filtered) (codes "dev")

plain : IsPlain (codes "MY_REPO") (codes "KEY")
unfolding contains_byte cut_delimiter
plain = record {
  some_repo = refl;
  some_name = refl;
  repo_equals = refl;
  name_equals = refl;
  underscores = refl;
}

-- The variable of the repo my-repo also reaches the repo my_repo.
secrets_for-load_env_secrets_example :
    lookup (codes "KEY") (
      secrets_for (codes "my_repo") (
        load_env_secrets
          ([] ++ ((variable_key (codes "MY_REPO") (codes "KEY") ++ (b'=' ∷ codes "v")) ∷ []))))
    ≡ (if bytes_eq (repo_key (codes "MY_REPO")) (repo_key (codes "my_repo"))
          && bytes_eq (codes "KEY") (codes "KEY")
        then some (codes "v")
        else lookup (codes "KEY") (secrets_for (codes "my_repo") (load_env_secrets [])))
secrets_for-load_env_secrets_example =
    secrets_for-load_env_secrets [] (codes "MY_REPO") (codes "KEY") (codes "v") (codes "my_repo")
      (codes "KEY") plain

shared_key : repo_key (codes "my-repo") ≡ repo_key (codes "my_repo")
unfolding repo_key
shared_key = refl

abbrev file : Bytes → TreeEntry
file name = record {
  mode = codes "100644";
  kind = codes "blob";
  sha = [];
  size = 0;
  path = name;
  name = name;
}

abbrev entries : List TreeEntry
entries = file (codes "ci.yml") ∷ file (codes "bad.yaml") ∷ file (codes "notes.md") ∷ []

abbrev blob_of : Bytes → Option Bytes
blob_of name = if bytes_eq name (codes "ci.yml") then some (codes "push") else some (codes "x")

abbrev dispatcher : Dispatcher
dispatcher = record {
  materialize = λ name w. (ok (codes "/r"), w);
  trigger = λ env. true;
  minter = some (mint_scoped std (1 ∷ []) (2 ∷ []));
  secrets = none;
  env_secrets = [];
  base_url = codes "https://f";
  worker_secret = codes "s";
  tree = λ dir sha path. ok entries;
  blob = λ dir sha path. blob_of path;
  is_document = λ s. bytes_eq s (codes "push");
  parsers = parsers;
  format_int = λ n. (b'0' + n) ∷ [];
}

-- The one Minter of the dispatcher.
abbrev minted_by : Option Minter → Minter
minted_by none = mint_scoped std [] []
minted_by (some mint) = mint

dispatcher-IsWired : IsWired dispatcher
dispatcher-IsWired = record {
  materialize_reads = λ name w. refl;
  secrets_read = λ load e repo_id w. absurd (cc);
  minter_adds = λ mint e user_id label scope read_only expires_at w.
      rw (← ap minted_by e)
        (mint_scoped_tokens std (1 ∷ []) (2 ∷ []) user_id label scope read_only expires_at w);
}

dispatcher-IsCalm : IsCalm dispatcher
dispatcher-IsCalm = record {
  materialize_calm = λ name db clock. refl;
  secrets_calm = λ load e repo_id db clock. absurd (cc);
  minter_calm = λ mint e user_id label scope read_only expires_at db clock.
      rw (← ap minted_by e)
        (mint_scoped_calm std (1 ∷ []) (2 ∷ []) user_id label scope read_only expires_at db clock);
}

abbrev pushed : Event
pushed = record {
  repo_id = 1;
  repo_name = codes "app";
  ref = codes "refs/heads/main";
  old_sha = [];
  new_sha = codes "b2";
  pusher_id = 1;
}

abbrev state : State
state = record { world = quiet Tests.forge 10; triggered = [] }

dispatch-Extends_example : Extends pushed Tests.forge (dispatch dispatcher pushed state).world.db
dispatch-Extends_example = dispatch-Extends dispatcher pushed state dispatcher-IsWired

pushed-IsPush : IsPush dispatcher pushed Tests.forge 10 (codes "/r") entries
unfolding starts_with ends_with is_absent bytes_eq is_workflow is_yaml triggered_by trim_prefix
    parse_push_trigger interpret_on matches
pushed-IsPush = record {
  branch = refl;
  present = refl;
  found = refl;
  listing = refl;
  chosen = refl;
}

dispatch-recorded_example :
    (tokens : List TokenRow) × (dispatch dispatcher pushed state
      ≡ recorded dispatcher pushed Tests.forge 10
          (codes "/r")
          (keep (is_workflow dispatcher pushed (codes "/r")) entries)
          tokens
          [])
dispatch-recorded_example =
    dispatch-recorded dispatcher pushed Tests.forge 10 dispatcher-IsCalm (codes "/r") entries []
      pushed-IsPush

abbrev finished_job : Job
finished_job = record {
  id = 1;
  run_id = 1;
  name = codes "ci.yml";
  status = passed;
  log_key = codes "ci/1/1/1.log";
  created_at = 10;
  updated_at = 20;
}

one_malformed :
    any
      (λ (f : TreeEntry). not (validate dispatcher (codes "/r") (codes "b2") f.path))
      (keep (is_workflow dispatcher pushed (codes "/r")) entries)
    ≡ true
unfolding starts_with ends_with bytes_eq is_workflow is_yaml triggered_by trim_prefix
    parse_push_trigger interpret_on matches validate
one_malformed = refl

finished_jobs :
    All
      (λ j. j.status ≡ passed)
      (jobs_of (next_run_id Tests.forge.ci_runs) (with_jobs Tests.forge (finished_job ∷ [])))
unfolding next_run_id order_by
finished_jobs = (refl, tt)

rollup_run-dispatch_example :
    let id = next_run_id Tests.forge.ci_runs in
    let s = dispatch dispatcher pushed state in
    (run_status id s.world.db.ci_runs ≡ some failed)
    × (run_status id
          (rollup_run id (quiet (with_jobs s.world.db (finished_job ∷ [])) 20)).db.ci_runs
        ≡ some passed)
rollup_run-dispatch_example =
    rollup_run-dispatch dispatcher pushed Tests.forge 10 20 (codes "/r") entries []
      (finished_job ∷ []) dispatcher-IsCalm pushed-IsPush one_malformed finished_jobs
