-- ===== src/Auth/Guard/Constraints.antt =====
-- Minted tokens, and what a caller without rights learns.
use gitmote.Common.{
  ℕ, Bool, false, Bytes, bytes_eq_refl, arith, Option, none, some, ok, err, not_found, unauthorized,
  ◌≡◌, inl, inr, Option-cases,
}
use gitmote.Meta.Schema.{Repo, User, Perm}
use gitmote.Meta.Sql.{World, IsQuiet, next_fault}
use gitmote.Meta.Repos.{get_repo, repo_named, normalize_repo_name}
use gitmote.Meta.Acls.{is_public}
use gitmote.Meta.Users.{
  Token, insert_token, create_scoped_token, token_joined, user_with_id, next_token_id,
}
use gitmote.Auth.Token.{split}
use gitmote.Auth.Guard.{Std, token_from_request, verify, verify_halves, authorize_repo, authorize}

module _ (std : Std) where
  -- Without a token a missing repo and a private one get the same answer, ErrUnauthorized, at every
  -- level, while no statement of the database fails.
  pub authorize_hides :
      (w : World) (header repo_name : Bytes) (perm : Perm)
      → IsQuiet w
      → token_from_request std header ≡ none
      → ((repo : Repo)
          → repo_named (normalize_repo_name repo_name) w.db.repos ≡ some repo
          → is_public repo ≡ false)
      → (authorize std header repo_name perm w).0 ≡ err unauthorized
  unfolding authorize authorize_repo get_repo next_fault
  authorize_hides w header repo_name perm q t h =
      elim (Option-cases (repo_named (normalize_repo_name repo_name) w.db.repos)) [
        | inl e ↦ ground arith
        | inr (repo, e) ↦ ground (arith, h repo e)
      ]

  -- A request whose token does not even have the shape of one is answered ErrNotFound on a missing
  -- repo and ErrUnauthorized on one that exists, while no statement of the database fails. So a caller
  -- who is not authenticated learns whether a repo exists.
  pub authorize_shows_inventory :
      (w : World) (header repo_name raw : Bytes) (perm : Perm)
      → IsQuiet w
      → token_from_request std header ≡ some raw
      → split raw ≡ none
      → (repo_named (normalize_repo_name repo_name) w.db.repos ≡ none
          → (authorize std header repo_name perm w).0 ≡ err not_found)
        × ((repo : Repo)
            → repo_named (normalize_repo_name repo_name) w.db.repos ≡ some repo
            → (authorize std header repo_name perm w).0 ≡ err unauthorized)
  unfolding authorize authorize_repo get_repo next_fault verify verify_halves
  authorize_shows_inventory w header repo_name raw perm q t s =
      (λ e. ground arith, λ repo e. ground arith)

-- A token is found by its selector right after it is stored.
pub token_joined-insert :
    (w : World) (user_id : ℕ) (selector verifier label : Bytes) (scope : Option ℕ)
    (read_only : Bool) (expires : Option ℕ) (user : User) (t : Token)
    → user_with_id user_id w.db.users ≡ some user
    → (create_scoped_token user_id selector verifier label scope read_only expires w).0 ≡ ok t
    → let w' = (create_scoped_token user_id selector verifier label scope read_only expires w).1 in
      token_joined selector w'.db.users w'.db.tokens
      ≡ some (record {
        token_id = next_token_id w.db.tokens;
        verifier = verifier;
        user = user;
        expires_at = expires;
        repo_scope = scope;
        read_only = read_only;
      })
unfolding create_scoped_token insert_token token_joined
token_joined-insert w user_id selector verifier label scope read_only expires user t owner h =
    ground (arith, bytes_eq_refl selector)
