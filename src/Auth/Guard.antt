-- ===== src/Auth/Guard.antt =====
-- internal/auth/guard.go: who may act on a repo.
pub mod Policy
pub mod Sound
pub mod Complete
pub mod Constraints
pub mod Uses
use gitmote.Common.{
  ℕ, Bool, true, false, not, ◌&&◌, ◌||◌, List, [], ◌∷◌, Bytes, bytes_eq, starts_with, trim_prefix,
  codes, ltb, leb, ◌==◌, if◌then◌else◌, is_empty, Option, none, some, Result, ok, err, Error,
  not_found, unauthorized, forbidden,
}
use gitmote.Meta.Schema.{Repo, User, Perm, perm_read, perm_write, perm_admin}
use gitmote.Meta.Sql.{World, Sql, pure, raise, now, not_found_as, ◌>>=◌, ◌>>◌}
use gitmote.Meta.Repos.{get_repo}
use gitmote.Meta.Acls.{is_public, can_read, get_acl}
use gitmote.Meta.Users.{TokenAuth, token_by_selector, touch_token, create_scoped_token}
use gitmote.Auth.Token.{split, mint}

-- What the package takes from the standard library: the hexadecimal SHA-256 of a string,
-- Request.BasicAuth as a function of the Authorization header, and strings.TrimSpace.
pub record Std : Type 0 where
  pub sha256_hex : Bytes → Bytes
  pub basic_auth : Bytes → Option (Bytes × Bytes)
  pub trim_space : Bytes → Bytes

-- permRank; a level that is missing or unknown has rank 0
unfoldable pub perm_rank : Perm → ℕ
perm_rank p =
    if bytes_eq p perm_read
    then 1
    else if bytes_eq p perm_write
    then 2
    else if bytes_eq p perm_admin
    then 3
    else 0

unfoldable pub allows : (granted required : Perm) → Bool
allows granted required = ltb 0 (perm_rank required) && leb (perm_rank required) (perm_rank granted)

unfoldable pub non_empty : Bytes → Option Bytes
non_empty s = if is_empty s then none else some s

unfoldable pub pass_or_user : Option (Bytes × Bytes) → Option Bytes
pass_or_user none = none
pass_or_user (some (user, pass)) = if is_empty pass then non_empty user else some pass

-- verifiedToken
pub record Verified : Type 0 where
  pub user : User
  pub repo_scope : Option ℕ
  pub read_only : Bool

-- `ta.ExpiresAt != nil && !ta.ExpiresAt.After(now)`
unfoldable pub is_expired : Option ℕ → ℕ → Bool
is_expired none t = false
is_expired (some e) t = not (ltb t e)

-- `vt.repoScope != nil && *vt.repoScope != repo.ID`
unfoldable pub out_of_scope : Option ℕ → ℕ → Bool
out_of_scope none repo_id = false
out_of_scope (some scope) repo_id = not (scope == repo_id)

-- the repo read rule at the end of Authorize
unfoldable pub authorize_read : Repo → User → Sql (Option User)
authorize_read repo user = do
  readable ← can_read repo user.id
  if readable then pure (some user) else raise forbidden

-- the level at the end of Authorize
unfoldable pub authorize_level : Repo → Perm → User → Sql (Option User)
authorize_level repo perm user = do
  granted ← not_found_as forbidden (get_acl repo.id user.id)
  if allows granted perm then pure (some user) else raise forbidden

-- the constraints of the token, before the rights of its owner
unfoldable pub authorize_verified : Repo → Perm → Verified → Sql (Option User)
authorize_verified repo perm vt =
    if out_of_scope vt.repo_scope repo.id
    then raise forbidden
    else if vt.read_only && ltb (perm_rank perm_read) (perm_rank perm)
    then raise forbidden
    else if bytes_eq perm perm_read
    then authorize_read repo vt.user
    else authorize_level repo perm vt.user

module _ (std : Std) where
  open std use {sha256_hex, basic_auth, trim_space}

  -- The header is empty when the request has none.
  unfoldable pub token_from_request : Bytes → Option Bytes
  token_from_request h =
      if is_empty h
      then none
      else if starts_with (codes "Bearer ") h
      then non_empty (trim_space (trim_prefix (codes "Bearer ") h))
      else pass_or_user (basic_auth h)

  -- the checks of verify on a row, and the touch
  unfoldable pub accept_token : Bytes → TokenAuth → Sql Verified
  accept_token secret ta =
      if bytes_eq ta.verifier (sha256_hex secret)
      then (do
        t ← now
        if is_expired ta.expires_at t then raise unauthorized else (do
          touch_token ta.token_id
          pure (record { user = ta.user; repo_scope = ta.repo_scope; read_only = ta.read_only })))
      else raise unauthorized

  unfoldable pub verify_halves : Option (Bytes × Bytes) → Sql Verified
  verify_halves none = raise unauthorized
  verify_halves (some (selector, secret)) = do
    ta ← not_found_as unauthorized (token_by_selector selector)
    accept_token secret ta

  unfoldable pub verify : Bytes → Sql Verified
  verify raw = verify_halves (split raw)

  unfoldable pub verify_token : Bytes → Sql User
  verify_token raw = do vt ← verify raw; pure vt.user

  unfoldable pub authorize_repo : Option Bytes → Perm → Repo → Sql (Option User)
  authorize_repo none perm repo =
      if bytes_eq perm perm_read && is_public repo then pure none else raise unauthorized
  authorize_repo (some raw) perm repo = do vt ← verify raw; authorize_verified repo perm vt

  abbrev unknown_repo : Option Bytes → Error
  unknown_repo none = unauthorized
  unknown_repo (some raw) = not_found

  -- The user is `none` for an anonymous read of a public repo.
  unfoldable pub authorize : (header repo_name : Bytes) → Perm → Sql (Option User)
  authorize header repo_name perm =
      let token = token_from_request header in
      do
        repo ← not_found_as (unknown_repo token) (get_repo repo_name)
        authorize_repo token perm repo

  -- The random bytes of the token are inputs.
  unfoldable pub mint_scoped :
      (selector_bytes secret_bytes : Bytes) (user_id : ℕ) (label : Bytes) (repo_scope : Option ℕ)
      (read_only : Bool) (expires_at : Option ℕ)
      → Sql Bytes
  mint_scoped selector_bytes secret_bytes user_id label repo_scope read_only expires_at =
      let m = mint sha256_hex selector_bytes secret_bytes in
      do
        created ←
            create_scoped_token user_id m.selector m.verifier label repo_scope read_only expires_at
        pure m.raw
