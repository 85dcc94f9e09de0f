-- ===== src/Githttp/Writer.antt =====
-- internal/githttp/receive.go: the coordinator of the write path. A push holds the lock of its repo
-- name, and its hook calls back once, with the nonce of the push.
pub mod Content
pub mod Handle
pub mod Exclusion
pub mod Alias
use gitmote.Common.{
  ℕ, Bool, true, false, not, ◌&&◌, ◌||◌, List, [], ◌∷◌, ◌++◌, Bytes, bytes_eq, starts_with, cut,
  codes, leb, ◌==◌, if◌then◌else◌, is_empty, length, map, Option, none, some, Result, ok, err,
  Error, not_found, cas_mismatch,
}
use gitmote.Meta.Schema.{Perm, perm_admin}
use gitmote.Meta.Sql.{World, Sql, pure, raise, ◌>>=◌}
use gitmote.Meta.Refs.{RefUpdate, cas_refs}
use gitmote.Meta.Repos.{get_repo}
use gitmote.Meta.Acls.{get_acl}
use gitmote.Store.{ObjectStore}

-- hookrpc.RefCommand
pub record RefCommand : Type 0 where
  pub old : Bytes
  pub new : Bytes
  pub ref : Bytes
  pub force : Bool

-- A visit of the walk over the quarantine directory: a directory, a file with its path relative to
-- the quarantine and its content, or an entry on which the walk, Rel or Open fails.
pub data Visit : Type 0 where
  directory : Visit
  file : (rel content : Bytes) → Visit
  unreadable : Visit

-- hookrpc.Request, with the quarantine directory in place of its path
pub record Request : Type 0 where
  pub nonce : Bytes
  pub commands : List RefCommand
  pub quarantine : List Visit

-- The reasons of hookrpc.Response
pub data Reason : Type 0 where
  invalid_nonce upload_failed update_failed : Reason
  needs_admin : (branch : Bytes) → Reason
  before_cas_failed : (message : Bytes) → Reason
  ref_moved : (name want got : Bytes) → Reason

-- hookrpc.Response
pub data Response : Type 0 where
  accepted : Response
  rejected : Reason → Response

pub record CommitInfo : Type 0 where
  pub repo_id : ℕ
  pub repo_name : Bytes
  pub ref : Bytes
  pub old : Bytes
  pub new : Bytes

-- pushOp; its outcome is the entry of `outcomes` under the nonce.
pub record PushOp : Type 0 where
  pub repo_id : ℕ
  pub repo_name : Bytes
  pub default_branch : Bytes
  pub pusher_is_admin : Bool

unfoldable pub is_hex : Bytes → Bool
is_hex [] = true
is_hex (b ∷ bs) = ((leb b'0' b && leb b b'9') || (leb b'a' b && leb b b'f')) && is_hex bs

abbrev object_head : Option (Bytes × Bytes) → Bool
object_head none = false
object_head (some (head, rest)) =
    if bytes_eq head (codes "pack") then true else (length head == 2 && is_hex head)

unfoldable pub is_object_path : Bytes → Bool
is_object_path rel = object_head (cut b'/' rel)

-- the test on the default branch in handle
unfoldable pub forces_default : Bytes → List RefCommand → Bool
forces_default protected [] = false
forces_default protected (c ∷ cs) =
    (bytes_eq c.ref protected && c.force) || forces_default protected cs

abbrev protected_ref : PushOp → Bytes
protected_ref op = codes "refs/heads/" ++ op.default_branch

abbrev as_update : RefCommand → RefUpdate
as_update c = record { name = c.ref; old = c.old; new = c.new }

abbrev as_commit : PushOp → RefCommand → CommitInfo
as_commit op c = record {
  repo_id = op.repo_id;
  repo_name = op.repo_name;
  ref = c.ref;
  old = c.old;
  new = c.new;
}

abbrev pub object_key : (repo_name rel : Bytes) → Bytes
object_key repo_name rel = repo_name ++ (codes "/objects/" ++ rel)

-- delete(w.pushes, nonce)
unfoldable pub forget : Bytes → List (Bytes × PushOp) → List (Bytes × PushOp)
forget nonce [] = []
forget nonce ((n, op) ∷ m) =
    let rest = forget nonce m in if bytes_eq n nonce then rest else (n, op) ∷ rest

unfoldable pub registered : Bytes → List (Bytes × PushOp) → Option PushOp
registered nonce [] = none
registered nonce ((n, op) ∷ m) = if bytes_eq n nonce then some op else registered nonce m

-- A push in flight: its nonce and the repo name whose lock it holds.
pub record Flight : Type 0 where
  pub nonce : Bytes
  pub repo_name : Bytes

unfoldable pub land : Bytes → List Flight → List Flight
land nonce [] = []
land nonce (fl ∷ fls) =
    let rest = land nonce fls in if bytes_eq fl.nonce nonce then rest else fl ∷ rest

-- lk.Lock() passes when no push in flight holds the lock of the name.
unfoldable pub is_locked : Bytes → List Flight → Bool
is_locked name [] = false
is_locked name (fl ∷ fls) = bytes_eq fl.repo_name name || is_locked name fls

unfoldable pub is_flying : Bytes → List Flight → Bool
is_flying nonce [] = false
is_flying nonce (fl ∷ fls) = bytes_eq fl.nonce nonce || is_flying nonce fls

-- GetACL's ErrNotFound leaves the level empty.
unfoldable pub level_or_empty : Result Perm → Sql Perm
level_or_empty (ok p) = pure p
level_or_empty (err not_found) = pure []
level_or_empty (err e) = raise e

-- The part of Begin before the lock: the repo and whether the pusher administers it.
unfoldable pub resolve : (repo_name : Bytes) (pusher_id : ℕ) → Sql PushOp
resolve repo_name pusher_id = do
  repo ← get_repo repo_name
  perm ← λ w. (let (r, w') = get_acl repo.id pusher_id w in level_or_empty r w')
  pure (record {
    repo_id = repo.id;
    repo_name = repo_name;
    default_branch = repo.default_branch;
    pusher_is_admin = bytes_eq perm perm_admin;
  })

module _ (store : ObjectStore) where
  open store use {Objects, put}

  -- The state of the forge that pushes share: the database, the object store, the nonces, the pushes
  -- that hold a lock, and what the hook recorded for the HTTP handler.
  pub record Forge : Type 0 where
    pub world : World
    pub objects : Objects
    pub pushes : List (Bytes × PushOp)
    pub flights : List Flight
    pub outcomes : List (Bytes × List CommitInfo)

  abbrev put_next : (Objects → Bool × Objects) → Bool × Objects → Bool × Objects
  put_next rest (true, s) = rest s
  put_next rest (false, s) = (false, s)

  -- putObjects; the walk stops at the first error
  unfoldable pub put_objects : Bytes → List Visit → Objects → Bool × Objects
  put_objects repo_name [] s = (true, s)
  put_objects repo_name (directory ∷ vs) s = put_objects repo_name vs s
  put_objects repo_name (unreadable ∷ vs) s = (false, s)
  put_objects repo_name (file rel content ∷ vs) s = elim (is_object_path rel) [
    | false ↦ put_objects repo_name vs s
    | true ↦ put_next (put_objects repo_name vs) (put (object_key repo_name rel) content s)
  ]

  -- the outcome of the CAS as a response
  abbrev cas_response : Result (Unit {0}) → Response
  cas_response (ok _) = accepted
  cas_response (err (cas_mismatch name want got)) = rejected (ref_moved name want got)
  cas_response (err e) = rejected update_failed

  abbrev record_outcome :
      Bytes
      → List CommitInfo
      → Response
      → List (Bytes × List CommitInfo)
      → List (Bytes × List CommitInfo)
  record_outcome nonce commits accepted m = (nonce, commits) ∷ m
  record_outcome nonce commits (rejected r) m = m

  -- the ref CAS at the end of handle
  unfoldable pub commit_refs : PushOp → Request → Forge → Response × Forge
  commit_refs op req f =
      let (r, w) = cas_refs op.repo_id (map as_update req.commands) f.world in
      (
        cas_response r,
        record f {
          world = w;
          outcomes =
              record_outcome req.nonce (map (as_commit op) req.commands) (cas_response r)
                f.outcomes;
        },
      )

  abbrev stored : PushOp → Request → Option Bytes → Forge → Bool × Objects → Response × Forge
  stored op req before_cas f (false, s) = (rejected upload_failed, record f { objects = s })
  stored op req none f (true, s) = commit_refs op req (record f { objects = s })
  stored op req (some message) f (true, s) =
      (rejected (before_cas_failed message), record f { objects = s })

  -- handle, after take; `before_cas` is the error of the test seam, if it is set and fails
  unfoldable pub handle_op : PushOp → Request → Option Bytes → Forge → Response × Forge
  handle_op op req before_cas f =
      if not op.pusher_is_admin && forces_default (protected_ref op) req.commands
      then (rejected (needs_admin op.default_branch), f)
      else stored op req before_cas f (put_objects op.repo_name req.quarantine f.objects)

  abbrev taken : Request → Option Bytes → Forge → Option PushOp → Response × Forge
  taken req before_cas f none = (rejected invalid_nonce, f)
  taken req before_cas f (some op) =
      handle_op op req before_cas (record f { pushes = forget req.nonce f.pushes })

  unfoldable pub handle : Request → Option Bytes → Forge → Response × Forge
  handle req before_cas f = taken req before_cas f (registered req.nonce f.pushes)

  -- the lock, the nonce and the empty outcome of a push that Begin admits
  unfoldable pub acquire : PushOp → Bytes → Forge → Forge
  acquire op nonce f = record f {
    pushes = (nonce, op) ∷ f.pushes;
    flights = record { nonce = nonce; repo_name = op.repo_name } ∷ f.flights;
    outcomes = (nonce, []) ∷ f.outcomes;
  }

  -- Push.Release
  unfoldable pub release : Flight → Forge → Forge
  release fl f = record f { pushes = forget fl.nonce f.pushes; flights = land fl.nonce f.flights }
