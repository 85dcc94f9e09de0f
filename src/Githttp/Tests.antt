-- ===== src/Githttp/Tests.antt =====
-- A push against a small forge, and the theorems of the package at that input.
use gitmote.Common.{
  true, ◌≢◌, trim_prefix, ◌↔◌, false, [], ◌∷◌, ◌++◌, Bytes, bytes_eq, starts_with, ends_with, cut,
  trim_suffix, codes, none, some, ok, ◌≡◌, refl, arith,
}
use gitmote.Meta.Sql.{in_tx, next_fault, later}
use gitmote.Meta.Acls.{get_acl, select_perm, is_acl}
use gitmote.Meta.Repos.{get_repo, normalize_repo_name, repo_named}
use gitmote.Meta.Refs.{
  cas_refs, cas_all, cas_one, normalize_sha, select_sha, is_ref, write_ref, update_ref,
}
use gitmote.Meta.Tests.{running, forge-IsTable}
use gitmote.Meta.Users.{token_joined, token_by_selector, touch_token, user_with_id, stamp_token}
use gitmote.Meta.Tests.{alice}
use gitmote.Auth.Tests
use gitmote.Auth.Token.{split}
use gitmote.Auth.Guard.{
  token_from_request, non_empty, verify, verify_halves, accept_token, authorize, authorize_repo,
  authorize_verified, authorize_level, perm_rank, allows, is_expired, out_of_scope,
}
use gitmote.Githttp.Backend.{
  GitRequest, Instance, info_refs, suffix, find_endpoint, parse_git_path, classify, receive_pack,
  serve_http,
}
use gitmote.Githttp.Backend.Path.{parse_git_path_iff}
use gitmote.Githttp.Backend.Gate.{Passed, serve_http-Passed}
use gitmote.Store.Mem
use gitmote.Store.Mem.{mem_store}
use gitmote.Githttp.Writer.{
  Request, accepted, rejected, invalid_nonce, PushOp, directory, file, Forge, handle, handle_op,
  put_objects, commit_refs, registered, forces_default, is_object_path, is_hex, acquire, resolve,
  level_or_empty, object_key, is_locked, is_flying,
}
use gitmote.Githttp.Writer.Handle.{Handled, handle-Handled, handle_once}
use gitmote.Githttp.Writer.Exclusion.{
  IsExclusive, Reach, here, next, begin, hook, Reach-IsExclusive,
}
use gitmote.Githttp.Writer.Alias.{two_names_two_locks}

-- Begin of a push by alice, who may write to the repo.
abbrev pub push : PushOp
push = record {
  repo_id = 1;
  repo_name = codes "app";
  default_branch = codes "main";
  pusher_is_admin = false;
}

abbrev idle : Forge mem_store
idle = record { world = running; objects = []; pushes = []; flights = []; outcomes = [] }

abbrev pub request : Request
request = record {
  nonce = codes "n1";
  commands = record { old = codes "a1"; new = codes "b2"; ref = codes "main"; force = false } ∷ [];
  quarantine =
      directory
      ∷ file (codes "ab/cd") (codes "blob")
      ∷ file (codes "info/alternates") (codes "x")
      ∷ [];
}

abbrev pub flying : Forge mem_store
flying = acquire mem_store push (codes "n1") idle

flying_registered : registered (codes "n1") flying.pushes ≡ some push
unfolding acquire registered bytes_eq
flying_registered = refl

flying_world : flying.world ≡ running
unfolding acquire
flying_world = refl

push_resolved : (resolve (codes "app") 1 running).0 ≡ ok push
unfolding resolve get_repo normalize_repo_name trim_suffix repo_named bytes_eq next_fault later
    get_acl select_perm is_acl level_or_empty
push_resolved = refl

push_accepted : (handle mem_store request none flying).0 ≡ accepted
unfolding handle acquire registered bytes_eq handle_op forces_default put_objects is_object_path cut
    is_hex commit_refs cas_refs cas_all cas_one in_tx next_fault later normalize_sha select_sha
    is_ref write_ref update_ref Mem.put
push_accepted = refl

handle-Handled_example :
    Handled mem_store push request flying
      (handle mem_store request none flying).0
      (handle mem_store request none flying).1
unfolding acquire
handle-Handled_example =
    handle-Handled mem_store push request none flying flying_registered forge-IsTable

handle_once_example :
    handle mem_store request none (handle mem_store request none flying).1
    ≡ (rejected invalid_nonce, (handle mem_store request none flying).1)
handle_once_example = handle_once mem_store request request none none flying refl

one_push : Reach mem_store idle (handle mem_store request none flying).1
unfolding is_locked is_flying
one_push =
    next (next here (begin running (codes "app") 1 push (codes "n1") push_resolved refl refl refl))
      (hook request none refl)

Reach-IsExclusive_example :
    IsExclusive
      (handle mem_store request none flying).1.flights
      (handle mem_store request none flying).1.pushes
Reach-IsExclusive_example = Reach-IsExclusive mem_store refl refl one_push

two_names_two_locks_example :
    (other : PushOp) × (f' : Forge mem_store) × Reach mem_store idle f'
    × (f'.pushes ≡ (codes "n2", other) ∷ (codes "n1", push) ∷ [])
    × (f'.flights
        ≡ record { nonce = codes "n2"; repo_name = codes "app.git" }
          ∷ record { nonce = codes "n1"; repo_name = codes "app" }
          ∷ [])
    × (other.repo_id ≡ 1)
    × ((rel : Bytes)
        → starts_with (codes "app" ++ codes "/objects/") (object_key other.repo_name rel) ≡ false)
unfolding ends_with
two_names_two_locks_example =
    two_names_two_locks mem_store (codes "app") 1 push (codes "n1") (codes "n2") idle refl
      push_resolved refl (λ e. ground arith)

-- A push by alice over HTTP.
abbrev push_request : GitRequest
push_request = record {
  url_path = codes "/app.git/git-receive-pack";
  method = codes "POST";
  service = [];
  authorization = Tests.header;
}

abbrev leader : Instance
leader = record { has_writer = true; is_writable = true }

pushed :
    (serve_http Tests.std leader push_request Tests.with_token).0
    ≡ receive_pack (codes "app.git") (some alice)
unfolding serve_http parse_git_path find_endpoint trim_prefix trim_suffix ends_with starts_with
    classify bytes_eq authorize token_from_request non_empty get_repo normalize_repo_name repo_named
    next_fault later authorize_repo verify split cut verify_halves token_by_selector token_joined
    user_with_id accept_token is_expired touch_token stamp_token authorize_verified out_of_scope
    perm_rank authorize_level get_acl select_perm is_acl allows
pushed = refl

serve_http-Passed_example :
    Passed Tests.std leader push_request Tests.with_token
      (serve_http Tests.std leader push_request Tests.with_token).0
serve_http-Passed_example = serve_http-Passed Tests.std leader push_request Tests.with_token

parse_git_path_iff_example :
    (parse_git_path (codes "/app/info/refs") ≡ some (codes "app", info_refs)) ↔ (
      (codes "app" ≢ [])
      × (trim_prefix (codes "/") (codes "/app/info/refs") ≡ codes "app" ++ suffix info_refs))
parse_git_path_iff_example = parse_git_path_iff (codes "/app/info/refs") (codes "app") info_refs
