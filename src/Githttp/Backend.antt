-- ===== src/Githttp/Backend.antt =====
-- internal/githttp/backend.go: the gates that a git request passes before it is served.
pub mod Path
pub mod Gate
use gitmote.Common.{
  Bool, true, false, not, ◌&&◌, List, [], ◌∷◌, Bytes, bytes_eq, codes, ends_with, trim_prefix,
  trim_suffix, if◌then◌else◌, is_empty, Option, none, some, Result, ok, err, Error, not_found,
  unauthorized, forbidden,
}
use gitmote.Meta.Schema.{User, Perm, perm_read, perm_write}
use gitmote.Meta.Sql.{World}
use gitmote.Auth.Guard.{Std, authorize}

-- the endpoints that parseGitPath looks for, in its order
pub data Endpoint : Type 0 where
  info_refs git_upload_pack git_receive_pack : Endpoint

abbrev pub suffix : Endpoint → Bytes
suffix info_refs = codes "/info/refs"
suffix git_upload_pack = codes "/git-upload-pack"
suffix git_receive_pack = codes "/git-receive-pack"

abbrev named : Bytes → Endpoint → Option (Bytes × Endpoint)
named name ep = if is_empty name then none else some (name, ep)

-- the loop of parseGitPath
unfoldable pub find_endpoint : Bytes → List Endpoint → Option (Bytes × Endpoint)
find_endpoint p [] = none
find_endpoint p (ep ∷ eps) =
    let rest = find_endpoint p eps in
    if ends_with (suffix ep) p then named (trim_suffix (suffix ep) p) ep else rest

unfoldable pub parse_git_path : Bytes → Option (Bytes × Endpoint)
parse_git_path url_path =
    find_endpoint (trim_prefix (codes "/") url_path)
      (info_refs ∷ git_upload_pack ∷ git_receive_pack ∷ [])

-- the part of a request that the gates read; `service` is empty when the query has none
pub record GitRequest : Type 0 where
  pub url_path : Bytes
  pub method : Bytes
  pub service : Bytes
  pub authorization : Bytes

pub record Access : Type 0 where
  pub perm : Perm
  pub is_receive : Bool
  pub is_push : Bool

abbrev reading : Access
reading = record { perm = perm_read; is_receive = false; is_push = false }

abbrev advertising : Access
advertising = record { perm = perm_write; is_receive = true; is_push = false }

abbrev pushing : Access
pushing = record { perm = perm_write; is_receive = true; is_push = true }

-- classify; `none` is an `ok` of false
unfoldable pub classify : Endpoint → GitRequest → Option Access
classify info_refs r =
    if not (bytes_eq r.method (codes "GET"))
    then none
    else if bytes_eq r.service (codes "git-upload-pack")
    then some reading
    else if bytes_eq r.service (codes "git-receive-pack")
    then some advertising
    else none
classify git_upload_pack r = if bytes_eq r.method (codes "POST") then some reading else none
classify git_receive_pack r = if bytes_eq r.method (codes "POST") then some pushing else none

-- the answers of writeAuthError, by their HTTP status: 403, 401 with the challenge, 404 and 500
pub data Refusal : Type 0 where
  is_forbidden is_unauthorized is_missing is_internal : Refusal

unfoldable pub write_auth_error : Error → Refusal
write_auth_error forbidden = is_forbidden
write_auth_error unauthorized = is_unauthorized
write_auth_error not_found = is_missing
write_auth_error e = is_internal

-- Where a request goes: 404, 503 with Retry-After, a refusal of the guard, serveReceivePack, or the
-- hand-off after materializing the refs alone or the whole repo.
pub data Route : Type 0 where
  no_such_page retry_later : Route
  refused : Refusal → Route
  receive_pack : (repo_name : Bytes) (user : Option User) → Route
  serve : (repo_name : Bytes) (refs_only is_receive : Bool) → Route

-- What the instance is: it has a Writer, and it holds the lease.
pub record Instance : Type 0 where
  pub has_writer : Bool
  pub is_writable : Bool

abbrev refs_only : Endpoint → Bool
refs_only info_refs = true
refs_only ep = false

abbrev pub admitted : Bytes → Endpoint → Access → Result (Option User) → Route
admitted name ep a (err e) = refused (write_auth_error e)
admitted name ep a (ok user) =
    if a.is_push then receive_pack name user else serve name (refs_only ep) a.is_receive

module _ (std : Std) (inst : Instance) where
  abbrev guarded : GitRequest → Bytes → Endpoint → Option Access → World → Route × World
  guarded r name ep none w = (no_such_page, w)
  guarded r name ep (some a) w =
      if a.is_receive && not inst.has_writer
      then (no_such_page, w)
      else if a.is_receive && not inst.is_writable
      then (retry_later, w)
      else (let (u, w') = authorize std r.authorization name a.perm w in (admitted name ep a u, w'))

  abbrev parsed : GitRequest → Option (Bytes × Endpoint) → World → Route × World
  parsed r none w = (no_such_page, w)
  parsed r (some (name, ep)) w = guarded r name ep (classify ep r) w

  -- ServeHTTP, up to the hand-off
  unfoldable pub serve_http : GitRequest → World → Route × World
  serve_http r w = parsed r (parse_git_path r.url_path) w
