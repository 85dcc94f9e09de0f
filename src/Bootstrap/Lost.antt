-- ===== src/Bootstrap/Lost.antt =====
-- internal/bootstrap/bootstrap.go: a Run that fails after it has made the admin.
use gitmote.Common.{true, false, Bytes, is_empty, any, ok, err, invalid_repo_name, ◌≡◌, arith}
use gitmote.Meta.Sql.{World, IsQuiet, next_fault, later}
use gitmote.Meta.Users.{
  create_user_row, create_admin, create_token, insert_token, admin_exists, has_handle, has_selector,
}
use gitmote.Meta.Repos.{create_repo, validate_repo_name, normalize_repo_name}
use gitmote.Auth.Token.{mint}
use gitmote.Auth.Guard.{Std}
use gitmote.Bootstrap.{
  Options, already, or_default, default_admin_handle, with_repo, mint_token, first_admin, run,
}
use gitmote.Bootstrap.First.{run_again}

module _ (std : Std) (sel secret : Bytes) where
  refused :
      (opts : Options) (w : World)
      → IsQuiet w
      → any (λ u. u.is_admin) w.db.users ≡ false
      → has_handle (or_default opts.admin_handle default_admin_handle) w.db.users ≡ false
      → has_selector (mint std.sha256_hex sel secret).selector w.db.tokens ≡ false
      → is_empty opts.repo_name ≡ false
      → validate_repo_name (normalize_repo_name opts.repo_name) ≡ false
      → ((run std sel secret opts w).0 ≡ err invalid_repo_name)
        × (any (λ u. u.is_admin) (run std sel secret opts w).1.db.users ≡ true)
  unfolding run first_admin admin_exists create_admin create_user_row mint_token create_token
      insert_token with_repo create_repo next_fault later
  refused opts w q a h s n e = (ground arith, ground arith)

  -- On an instance without an admin, whose handle is free, a Run with an initial repo of a name that
  -- CreateRepo refuses returns that error and no token, while no statement fails; and every later
  -- Run, with any options, answers that the instance is bootstrapped, without a token.
  pub run_loses_token :
      (opts again : Options) (w v : World)
      → IsQuiet w
      → any (λ u. u.is_admin) w.db.users ≡ false
      → has_handle (or_default opts.admin_handle default_admin_handle) w.db.users ≡ false
      → has_selector (mint std.sha256_hex sel secret).selector w.db.tokens ≡ false
      → is_empty opts.repo_name ≡ false
      → validate_repo_name (normalize_repo_name opts.repo_name) ≡ false
      → v.db ≡ (run std sel secret opts w).1.db
      → IsQuiet v
      → ((run std sel secret opts w).0 ≡ err invalid_repo_name)
        × ((run std sel secret again v).0 ≡ ok already)
  run_loses_token opts again w v q a h s n e same quiet =
      let (failed, there) = refused opts w q a h s n e in
      (failed, (run_again std sel secret again v quiet (rw same there)).0)
