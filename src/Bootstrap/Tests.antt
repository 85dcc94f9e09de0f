-- ===== src/Bootstrap/Tests.antt =====
-- internal/bootstrap/bootstrap.go: an empty instance, with an initial repo and with one that is refused.
use gitmote.Common.{
  true, false, [], ◌∷◌, bytes_eq, codes, starts_with, contains_byte, trim_suffix, some, none, ok,
  err, invalid_repo_name, ◌≡◌, refl, arith, Result,
}
use gitmote.Meta.Schema.{User, empty_db}
use gitmote.Meta.Sql.{World, next_fault, later}
use gitmote.Meta.Ci.Sweep.{quiet}
use gitmote.Meta.Users.{
  create_admin, create_user_row, create_token, insert_token, admin_exists, has_handle, has_selector,
  next_user_id, next_token_id, get_user, user_named,
}
use gitmote.Meta.Repos.{
  create_repo, insert_repo, validate_repo_name, normalize_repo_name, has_repo_name, next_repo_id,
  is_reserved,
}
use gitmote.Meta.Acls.{set_acl, is_acl, is_perm, upsert_acl}
use gitmote.Auth.Token.{mint, hex_encode, hex_digit}
use gitmote.Auth.Guard.{Std, verify}
use gitmote.Bootstrap.{
  Options, Outcome, already, with_repo, mint_token, first_admin, run, reissue, no_user,
}
use gitmote.Bootstrap.First.{run-Bootstrapped}
use gitmote.Bootstrap.Lost.{run_loses_token}

abbrev std : Std
std = record { sha256_hex = λ s. b'h' ∷ s; basic_auth = λ s. none; trim_space = λ s. s }

abbrev opts : Options
opts = record {
  admin_handle = [];
  repo_name = codes "gitmote";
  default_branch = [];
  token_label = [];
}

abbrev started : World
started = quiet empty_db 10

abbrev bootstrapped : Result Outcome × World
bootstrapped = run std (0x1f ∷ []) (0x2e ∷ []) opts started

abbrev admin : User
admin = record { id = 1; handle = codes "admin"; is_admin = true; created_at = 10 }

abbrev outcome : Outcome
outcome = record {
  already_bootstrapped = false;
  admin = some admin;
  repo = some (record {
    id = 1;
    name = codes "gitmote";
    default_branch = codes "main";
    visibility = codes "private";
    created_at = 10;
  });
  raw_token = codes "gmt_1f.2e";
}

first_run : bootstrapped.0 ≡ ok outcome
unfolding run first_admin admin_exists next_fault create_admin create_user_row later has_handle
    mint_token create_token insert_token has_selector with_repo create_repo validate_repo_name
    normalize_repo_name trim_suffix contains_byte bytes_eq hex_digit hex_encode mint starts_with
    is_acl is_perm set_acl upsert_acl has_repo_name insert_repo is_reserved next_repo_id
    next_token_id next_user_id
first_run = refl

nobody : (reissue std (0x1f ∷ []) (0x2e ∷ []) opts started).0 ≡ no_user
unfolding reissue get_user user_named next_fault
nobody = refl

-- `gitmote bootstrap -repo login`
abbrev reserved : Options
reserved = record opts { repo_name = codes "login" }

run-Bootstrapped_example :
    (owner : User) × (outcome.admin ≡ some owner)
    × (owner.is_admin ≡ true)
    × ((verify std outcome.raw_token (quiet bootstrapped.1.db 20)).0
        ≡ ok (record { user = owner; repo_scope = none; read_only = false }))
    × ((again : Options)
        → ((run std (0x1f ∷ []) (0x2e ∷ []) again (quiet bootstrapped.1.db 20)).0 ≡ ok already)
          × ((run std (0x1f ∷ []) (0x2e ∷ []) again (quiet bootstrapped.1.db 20)).1.db
              ≡ bootstrapped.1.db))
run-Bootstrapped_example =
    run-Bootstrapped std (0x1f ∷ []) (0x2e ∷ []) opts started (quiet bootstrapped.1.db 20) outcome
      (λ e. cc) (λ e. cc) (omega arith, tt) first_run refl refl refl

not_valid : validate_repo_name (normalize_repo_name reserved.repo_name) ≡ false
unfolding validate_repo_name normalize_repo_name trim_suffix contains_byte starts_with bytes_eq
    is_reserved
not_valid = refl

run_loses_token_example :
    ((run std (0x1f ∷ []) (0x2e ∷ []) reserved started).0 ≡ err invalid_repo_name)
    × ((run std
          (0x1f ∷ [])
          (0x2e ∷ [])
          opts
          (quiet (run std (0x1f ∷ []) (0x2e ∷ []) reserved started).1.db 20)).0
        ≡ ok already)
unfolding has_handle has_selector
run_loses_token_example =
    run_loses_token std (0x1f ∷ []) (0x2e ∷ []) reserved opts started
      (quiet (run std (0x1f ∷ []) (0x2e ∷ []) reserved started).1.db 20) refl refl refl refl refl
      not_valid refl refl
