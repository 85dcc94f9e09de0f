-- ===== src/Auth/Tests.antt =====
-- Requests against a small forge, and the theorems of the package at those inputs.
use gitmote.Common.{
  true, false, List, [], ◌∷◌, Bytes, bytes_eq, starts_with, trim_prefix, trim_suffix, cut, codes,
  none, some, Result, ok, err, ◌≡◌, ◌↔◌, inr, refl, arith, not_found, unauthorized,
}
use gitmote.Meta.Schema.{Repo, TokenRow, perm_read, perm_write}
use gitmote.Meta.Sql.{World, next_fault, later}
use gitmote.Meta.Acls.{is_public, is_acl, select_perm, get_acl}
use gitmote.Meta.Repos.{normalize_repo_name, repo_named, get_repo}
use gitmote.Meta.Users.{
  create_scoped_token, insert_token, has_selector, token_joined, token_by_selector, touch_token,
  user_with_id, stamp_token, next_token_id,
}
use gitmote.Meta.Tests.{alice, forge, running}
use gitmote.Auth.Token.{split, mint, hex_encode, hex_digit}
use gitmote.Auth.Guard.{
  Std, token_from_request, non_empty, verify, verify_halves, accept_token, authorize,
  authorize_repo, authorize_verified, authorize_level, perm_rank, allows, is_expired, out_of_scope,
  mint_scoped,
}
use gitmote.Auth.Guard.Policy.{Authorized}
use gitmote.Auth.Guard.Sound.{authorize_sound}
use gitmote.Auth.Guard.Complete.{authorize-Authorized}
use gitmote.Auth.Guard.Constraints.{authorize_hides, authorize_shows_inventory}
use gitmote.Auth.Guard.Uses.{Event, authenticate, revoke, happen_all, verify-mint_scoped}

-- A stand-in for the standard library: a hash that reverses nothing and adds a byte, no Basic
-- credentials, and no white space to trim.
abbrev pub std : Std
std = record { sha256_hex = λ s. b'h' ∷ s; basic_auth = λ h. none; trim_space = λ s. s }

abbrev token : TokenRow
token = record {
  id = 7;
  user_id = 1;
  selector = codes "ab";
  verifier = codes "hcd";
  label = [];
  created_at = 0;
  last_used = none;
  expires_at = some 20;
  repo_scope = some 1;
  read_only = false;
}

abbrev pub with_token : World
with_token = record running { db = record forge { tokens = token ∷ [] } }

abbrev pub header : Bytes
header = codes "Bearer gmt_ab.cd"

push_allowed : (authorize std header (codes "app") perm_write with_token).0 ≡ ok (some alice)
unfolding authorize token_from_request starts_with trim_prefix non_empty get_repo
    normalize_repo_name trim_suffix repo_named bytes_eq next_fault later authorize_repo verify split
    cut verify_halves token_by_selector token_joined user_with_id accept_token is_expired
    touch_token stamp_token authorize_verified out_of_scope perm_rank authorize_level get_acl
    select_perm is_acl allows
push_allowed = refl

authorize_sound_example : Authorized std with_token header (codes "app") perm_write (some alice)
authorize_sound_example =
    authorize_sound std with_token header (codes "app") perm_write (some alice) push_allowed

authorize-Authorized_example :
    ((authorize std header (codes "app") perm_write with_token).0 ≡ ok (some alice))
    ↔ Authorized std with_token header (codes "app") perm_write (some alice)
authorize-Authorized_example =
    authorize-Authorized std with_token header (codes "app") perm_write (some alice) refl

app_is_private :
    (repo : Repo)
    → repo_named (normalize_repo_name (codes "app")) running.db.repos ≡ some repo
    → is_public repo ≡ false
unfolding repo_named normalize_repo_name trim_suffix bytes_eq is_public
app_is_private repo e = ground arith

authorize_hides_example : (authorize std [] (codes "app") perm_read running).0 ≡ err unauthorized
unfolding token_from_request
authorize_hides_example =
    authorize_hides std running [] (codes "app") perm_read refl refl app_is_private

authorize_shows_inventory_example :
    (repo_named (normalize_repo_name (codes "ghost")) running.db.repos ≡ none
      → (authorize std (codes "Bearer x") (codes "ghost") perm_read running).0 ≡ err not_found)
    × ((repo : Repo)
        → repo_named (normalize_repo_name (codes "ghost")) running.db.repos ≡ some repo
        → (authorize std (codes "Bearer x") (codes "ghost") perm_read running).0 ≡ err unauthorized)
unfolding token_from_request starts_with trim_prefix non_empty split
authorize_shows_inventory_example =
    authorize_shows_inventory std running (codes "Bearer x") (codes "ghost") (codes "x") perm_read
      refl refl refl

-- The clone token of a CI run: read-only, for one repo, for an hour.
abbrev minted : Result Bytes × World
minted = mint_scoped std (0x1f ∷ []) (0x2e ∷ []) 1 (codes "ci") (some 1) true (some 3610) running

minted_raw : minted.0 ≡ ok (codes "gmt_1f.2e")
unfolding mint_scoped mint hex_encode hex_digit create_scoped_token insert_token has_selector
    next_fault later
minted_raw = refl

alice_exists : user_with_id 1 running.db.users ≡ some alice
unfolding user_with_id
alice_exists = refl

minted_quiet : minted.1.faults ≡ []
unfolding mint_scoped mint create_scoped_token insert_token has_selector next_fault later
minted_quiet = refl

-- Meanwhile the token is used once, with another that does not exist, and a token is revoked.
abbrev meanwhile : List Event
meanwhile =
    authenticate (codes "gmt_1f.2e") 20 []
    ∷ authenticate (codes "gmt_ff.00") 30 (true ∷ [])
    ∷ revoke 9 40 []
    ∷ []

verify-mint_scoped_example :
    (verify std
      (codes "gmt_1f.2e")
      (record running { db = happen_all std meanwhile minted.1.db })).0
    ≡ ok (record { user = alice; repo_scope = some 1; read_only = true })
unfolding next_token_id
verify-mint_scoped_example =
    verify-mint_scoped std running (record running { db = happen_all std meanwhile minted.1.db })
      meanwhile (0x1f ∷ []) (0x2e ∷ []) 1 (codes "ci") (some 1) true (some 3610) alice
      (codes "gmt_1f.2e") (λ e. cc) (λ e. cc) (omega arith, tt) alice_exists minted_raw
      (tt, (tt, ((λ e. absurd (omega arith)), tt))) refl (inr (3610, refl, omega arith)) refl
