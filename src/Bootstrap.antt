-- ===== src/Bootstrap.antt =====
-- internal/bootstrap/bootstrap.go: the first admin of an instance, and a new token for a lost one.
pub mod Accounts
pub mod First
pub mod Lost
pub mod Tests
use gitmote.Common.{
  ℕ, Bool, true, false, [], Bytes, codes, is_empty, if◌then◌else◌, Option, none, some, Result, ok,
  err, Error, not_found,
}
use gitmote.Meta.Schema.{User, Repo, perm_admin}
use gitmote.Meta.Sql.{World, Sql, pure, ◌>>=◌, ◌>>◌}
use gitmote.Meta.Users.{Token, admin_exists, create_admin, create_token, get_user}
use gitmote.Meta.Repos.{create_repo}
use gitmote.Meta.Acls.{set_acl}
use gitmote.Auth.Token.{mint}
use gitmote.Auth.Guard.{Std}

abbrev pub default_admin_handle : Bytes
default_admin_handle = codes "admin"

pub record Options : Type 0 where
  pub admin_handle : Bytes
  pub repo_name : Bytes
  pub default_branch : Bytes
  pub token_label : Bytes

pub record Outcome : Type 0 where
  pub already_bootstrapped : Bool
  pub admin : Option User
  pub repo : Option Repo
  pub raw_token : Bytes

abbrev pub already : Outcome
already = record { already_bootstrapped = true; admin = none; repo = none; raw_token = [] }

abbrev pub or_default : (value default : Bytes) → Bytes
or_default value default = if is_empty value then default else value

-- the initial repo, when one is requested
unfoldable pub with_repo : Options → User → Bytes → Sql Outcome
with_repo opts admin raw =
    let res : Outcome = record {
      already_bootstrapped = false;
      admin = some admin;
      repo = none;
      raw_token = raw;
    } in
    if is_empty opts.repo_name then pure res else (do
      repo ← create_repo opts.repo_name opts.default_branch
      set_acl repo.id admin.id perm_admin
      pure (record res { repo = some repo }))

-- What Reissue answers; the first two are errors of its own.
pub data Reissued : Type 0 where
  no_user not_an_admin : Reissued
  failed : Error → Reissued
  reissued : Outcome → Reissued

-- The random bytes of the token are inputs.
module _ (std : Std) (selector_bytes secret_bytes : Bytes) where
  -- mintToken
  unfoldable pub mint_token : ℕ → (label : Bytes) → Sql Bytes
  mint_token user_id label =
      let m = mint std.sha256_hex selector_bytes secret_bytes in
      do
        created ← create_token user_id m.selector m.verifier (or_default label (codes "bootstrap"))
        pure m.raw

  -- Run on an instance without an admin
  unfoldable pub first_admin : Options → Sql Outcome
  first_admin opts = do
    admin ← create_admin (or_default opts.admin_handle default_admin_handle)
    raw ← mint_token admin.id opts.token_label
    with_repo opts admin raw

  -- Run
  unfoldable pub run : Options → Sql Outcome
  run opts = do exists ← admin_exists; if exists then pure already else first_admin opts

  abbrev answered : User → Result Bytes → World → Reissued × World
  answered user (err e) w = (failed e, w)
  answered user (ok raw) w = (
    reissued
        (record { already_bootstrapped = false; admin = some user; repo = none; raw_token = raw }),
    w,
  )

  abbrev for_user : Options → Result User → World → Reissued × World
  for_user opts (err not_found) w = (no_user, w)
  for_user opts (err e) w = (failed e, w)
  for_user opts (ok user) w =
      if user.is_admin
      then (let (r, w') =
            mint_token user.id (or_default opts.token_label (codes "bootstrap (reissued)")) w in
          answered user r w')
      else (not_an_admin, w)

  -- Reissue
  unfoldable pub reissue : Options → World → Reissued × World
  reissue opts w =
      let (r, w') = get_user (or_default opts.admin_handle default_admin_handle) w in
      for_user opts r w'
