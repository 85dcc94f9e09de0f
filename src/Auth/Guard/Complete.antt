-- ===== src/Auth/Guard/Complete.antt =====
-- internal/auth/guard.go: Authorize from the side of the rules, while no statement of the database fails.
use gitmote.Common.{ℕ, ◌<◌, Bytes, bytes_eq_iff, arith, Option, none, some, ok, ◌≡◌, ◌⊎◌, ◌↔◌}
use gitmote.Meta.Schema.{Repo, User, Perm, perm_read}
use gitmote.Meta.Sql.{World, IsQuiet, next_fault, later, spend}
use gitmote.Meta.Repos.{get_repo, repo_named, normalize_repo_name}
use gitmote.Meta.Acls.{get_acl}
use gitmote.Meta.Acls.Rules.{can_read-may_read}
use gitmote.Meta.Users.{TokenAuth, token_by_selector, touch_token}
use gitmote.Auth.Guard.{
  Std, allows, token_from_request, Verified, is_expired, out_of_scope, accept_token, verify_halves,
  verify, authorize_read, authorize_level, authorize_verified, authorize_repo, authorize,
}
use gitmote.Auth.Guard.Policy.{Bears, MayAct, Authorized, anonymous, bearer}
use gitmote.Auth.Guard.Sound.{authorize_sound}

authorize_verified_complete :
    (w : World) (repo : Repo) (perm : Perm) (vt : Verified)
    → IsQuiet w
    → MayAct w vt.repo_scope vt.read_only vt.user repo perm
    → (authorize_verified repo perm vt w).0 ≡ ok (some vt.user)
unfolding authorize_verified authorize_read authorize_level out_of_scope allows next_fault get_acl
authorize_verified_complete w repo perm vt q m =
    ground (arith, bytes_eq_iff perm perm_read, can_read-may_read repo vt.user.id w)

module _ (std : Std) where
  accept_token_complete :
      (w : World) (secret : Bytes) (ta : TokenAuth)
      → IsQuiet w
      → ta.verifier ≡ std.sha256_hex secret
      → (ta.expires_at ≡ none) ⊎ ((e : ℕ) × (ta.expires_at ≡ some e) × (w.clock < e))
      → (accept_token std secret ta w).0
        ≡ ok (record { user = ta.user; repo_scope = ta.repo_scope; read_only = ta.read_only })
  unfolding accept_token is_expired touch_token next_fault
  accept_token_complete w secret ta q p e =
      ground (arith, bytes_eq_iff ta.verifier (std.sha256_hex secret))

  accept_token_state :
      (w : World) (secret : Bytes) (ta : TokenAuth)
      → IsQuiet w
      → IsQuiet (accept_token std secret ta w).1
        × ((accept_token std secret ta w).1.db.acls ≡ w.db.acls)
  unfolding accept_token touch_token later
  accept_token_state w secret ta q = (ground arith, ground arith)

  pub verify_complete :
      (w : World) (raw : Bytes) (ta : TokenAuth)
      → IsQuiet w
      → Bears std w raw ta
      → ((verify std raw w).0
          ≡ ok (record { user = ta.user; repo_scope = ta.repo_scope; read_only = ta.read_only }))
        × IsQuiet (verify std raw w).1
        × ((verify std raw w).1.db.acls ≡ w.db.acls)
  unfolding verify verify_halves token_by_selector next_fault later
  verify_complete w raw ta q b =
      let done = accept_token_complete (spend w) b.secret ta (ground arith) b.proved b.unexpired in
      let (quiet, kept) = accept_token_state (spend w) b.secret ta (ground arith) in
      rw b.shaped (ground arith, ground arith, ground arith)

  authorize_known :
      (w : World) (header repo_name : Bytes) (perm : Perm) (repo : Repo)
      → IsQuiet w
      → repo_named (normalize_repo_name repo_name) w.db.repos ≡ some repo
      → (authorize std header repo_name perm w).0
        ≡ (authorize_repo std (token_from_request std header) perm repo (spend w)).0
  unfolding authorize get_repo next_fault
  authorize_known w header repo_name perm repo q e = ground arith

  spend-IsQuiet : (w : World) → IsQuiet w → IsQuiet (spend w)
  unfolding later
  spend-IsQuiet w q = ground arith

  -- What the rules allow, Authorize allows, while no statement of the database fails; and it returns
  -- the user that the rules name.
  authorize_complete :
      (w : World) (header repo_name : Bytes) (perm : Perm) (u : Option User)
      → IsQuiet w
      → Authorized std w header repo_name perm u
      → (authorize std header repo_name perm w).0 ≡ ok u
  unfolding authorize_repo
  authorize_complete w header repo_name perm u q
        (anonymous repo stored no_token reads open_repo nobody) =
      rw (authorize_known w header repo_name perm repo q stored, no_token)
        (ground (arith, bytes_eq_iff perm perm_read))
  authorize_complete w header repo_name perm u q (bearer repo raw ta stored token bears may known) =
      let quiet = spend-IsQuiet w q in
      let (passed, still, kept) = verify_complete (spend w) raw ta quiet (record {
        selector = bears.selector;
        secret = bears.secret;
        shaped = bears.shaped;
        stored = bears.stored;
        proved = bears.proved;
        unexpired = bears.unexpired;
      }) in
      rw (authorize_known w header repo_name perm repo q stored, token, passed, known)
        (authorize_verified_complete (verify std raw (spend w)).1 repo perm
          (record { user = ta.user; repo_scope = ta.repo_scope; read_only = ta.read_only }) still
          (record { reaches = may.reaches; mode = may.mode; right = rw kept may.right }))

  -- While no statement of the database fails, Authorize returns a user, or no user and no error, exactly
  -- when the rules allow the request to act as that user.
  pub authorize-Authorized :
      (w : World) (header repo_name : Bytes) (perm : Perm) (u : Option User)
      → IsQuiet w
      → ((authorize std header repo_name perm w).0 ≡ ok u)
        ↔ Authorized std w header repo_name perm u
  authorize-Authorized w header repo_name perm u q = (
    authorize_sound std w header repo_name perm u,
    authorize_complete w header repo_name perm u q,
  )
