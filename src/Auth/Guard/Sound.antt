-- ===== src/Auth/Guard/Sound.antt =====
-- internal/auth/guard.go: what follows for the rules when Authorize returns no error.
use gitmote.Common.{
  ℕ, ◌≤◌, ◌<◌, Bool, true, Bytes, bytes_eq, bytes_eq_iff, arith, Option, none, some, ok, ◌≡◌, refl,
  ap, ◌⊎◌, inl, inr, Bool-cases, Option-cases,
}
use gitmote.Meta.Schema.{Db, Repo, User, Perm, perm_read}
use gitmote.Meta.Sql.{World, spend, continue-eq-ok, not_found_to-eq-ok}
use gitmote.Meta.Repos.{get_repo, repo_named, normalize_repo_name}
use gitmote.Meta.Acls.{is_public, get_acl}
use gitmote.Meta.Acls.Rules.{level, may_read, can_read_sound}
use gitmote.Meta.Users.{TokenAuth, token_by_selector, token_joined, touch_token}
use gitmote.Auth.Token.{split}
use gitmote.Auth.Guard.{
  Std, perm_rank, allows, token_from_request, Verified, is_expired, out_of_scope, accept_token,
  verify_halves, verify, authorize_read, authorize_level, authorize_verified, authorize_repo,
  authorize,
}
use gitmote.Auth.Guard.Policy.{Bears, MayAct, Authorized, anonymous, bearer}

authorize_read_sound :
    (w : World) (repo : Repo) (user : User) (u : Option User)
    → (authorize_read repo user w).0 ≡ ok u
    → (u ≡ some user) × (may_read w repo user.id ≡ true)
unfolding authorize_read
authorize_read_sound w repo user u h = ground (arith, can_read_sound repo user.id w)

authorize_level_sound :
    (w : World) (repo : Repo) (perm : Perm) (user : User) (u : Option User)
    → (authorize_level repo perm user w).0 ≡ ok u
    → (u ≡ some user)
      × ((p : Perm) × (level w repo.id user.id ≡ some p)
          × (0 < perm_rank perm)
          × (perm_rank perm ≤ perm_rank p))
unfolding authorize_level allows get_acl
authorize_level_sound w repo perm user u h = elim (Option-cases (level w repo.id user.id)) [
  | inl e ↦ absurd (ground arith)
  | inr (p, e) ↦ (ground arith, (p, ground arith, ground arith, ground arith))
]

authorize_verified_sound :
    (w : World) (repo : Repo) (perm : Perm) (vt : Verified) (u : Option User)
    → (authorize_verified repo perm vt w).0 ≡ ok u
    → (u ≡ some vt.user) × MayAct w vt.repo_scope vt.read_only vt.user repo perm
unfolding authorize_verified out_of_scope
authorize_verified_sound w repo perm vt u h = elim (Bool-cases (bytes_eq perm perm_read)) [
  | inl reads ↦
      let (same, readable) = authorize_read_sound w repo vt.user u (ground arith) in
      (
        same,
        record {
          reaches = ground arith;
          mode = ground arith;
          right = inl ((bytes_eq_iff perm perm_read).0 reads, readable);
        },
      )
  | inr other ↦
      let (same, (p, held, known, enough)) =
        authorize_level_sound w repo perm vt.user u (ground arith) in
      (
        same,
        record {
          reaches = ground arith;
          mode = ground arith;
          right = inr (p, (λ e. ground (arith, bytes_eq_iff perm perm_read)), held, known, enough);
        },
      )
]

-- Authentication writes the time of use of the token, and nothing that a rule reads.
touch_token-acls : (id : ℕ) (w : World) → (touch_token id w).1.db.acls ≡ w.db.acls
unfolding touch_token
touch_token-acls id w = ground arith

MayAct-acls :
    {w v : World} {scope : Option ℕ} {read_only : Bool} {user : User} {repo : Repo} {perm : Perm}
    → v.db.acls ≡ w.db.acls
    → MayAct v scope read_only user repo perm
    → MayAct w scope read_only user repo perm
MayAct-acls e m = record { reaches = m.reaches; mode = m.mode; right = rw (← e) m.right }

get_repo_cases :
    (name : Bytes) (w : World) (repo : Repo)
    → (get_repo name w).0 ≡ ok repo
    → (repo_named (normalize_repo_name name) w.db.repos ≡ some repo)
      × ((get_repo name w).1.db ≡ w.db)
      × ((get_repo name w).1.clock ≡ w.clock)
unfolding get_repo
get_repo_cases name w repo h =
    elim (Option-cases (repo_named (normalize_repo_name name) w.db.repos)) [
      | inl e ↦ absurd (ground arith)
      | inr (r, e) ↦ (ground arith, ground arith, ground arith)
    ]

module _ (std : Std) where
  accept_token_sound :
      (w : World) (secret : Bytes) (ta : TokenAuth) (vt : Verified)
      → (accept_token std secret ta w).0 ≡ ok vt
      → (ta.verifier ≡ std.sha256_hex secret)
        × ((ta.expires_at ≡ none) ⊎ ((e : ℕ) × (ta.expires_at ≡ some e) × (w.clock < e)))
        × (vt ≡ record { user = ta.user; repo_scope = ta.repo_scope; read_only = ta.read_only })
        × ((accept_token std secret ta w).1.db.acls ≡ w.db.acls)
  unfolding accept_token is_expired
  accept_token_sound w secret ta vt h = elim (Option-cases ta.expires_at) [
    | inl e ↦ (
      ground (arith, bytes_eq_iff ta.verifier (std.sha256_hex secret)),
      inl e,
      ground arith,
      ground (arith, touch_token-acls ta.token_id w),
    )
    | inr (t, e) ↦ (
      ground (arith, bytes_eq_iff ta.verifier (std.sha256_hex secret)),
      inr (t, e, ground arith),
      ground arith,
      ground (arith, touch_token-acls ta.token_id w),
    )
  ]

  verify_halves_sound :
      (w : World) (selector secret : Bytes) (vt : Verified)
      → (verify_halves std (some (selector, secret)) w).0 ≡ ok vt
      → (ta : TokenAuth) × (token_joined selector w.db.users w.db.tokens ≡ some ta)
        × (ta.verifier ≡ std.sha256_hex secret)
        × ((ta.expires_at ≡ none) ⊎ ((e : ℕ) × (ta.expires_at ≡ some e) × (w.clock < e)))
        × (vt ≡ record { user = ta.user; repo_scope = ta.repo_scope; read_only = ta.read_only })
        × ((verify_halves std (some (selector, secret)) w).1.db.acls ≡ w.db.acls)
  unfolding verify_halves token_by_selector
  verify_halves_sound w selector secret vt h =
      elim (Option-cases (token_joined selector w.db.users w.db.tokens)) [
        | inl e ↦ absurd (ground arith)
        | inr (ta, e) ↦
            let (proved, fresh, same, kept) =
              accept_token_sound (spend w) secret ta vt (ground arith) in
            (ta, e, proved, fresh, same, ground arith)
      ]

  verify_sound :
      (w : World) (raw : Bytes) (vt : Verified)
      → (verify std raw w).0 ≡ ok vt
      → (ta : TokenAuth) × Bears std w raw ta
        × (vt ≡ record { user = ta.user; repo_scope = ta.repo_scope; read_only = ta.read_only })
        × ((verify std raw w).1.db.acls ≡ w.db.acls)
  unfolding verify
  verify_sound w raw vt h = elim (Option-cases (split raw)) [
    | inl e ↦ absurd (unfold verify_halves in ground arith)
    | inr ((selector, secret), e) ↦
        let (ta, stored, proved, fresh, same, kept) =
          verify_halves_sound w selector secret vt (rw e at h) in
        (
          ta,
          record {
            selector = selector;
            secret = secret;
            shaped = e;
            stored = stored;
            proved = proved;
            unexpired = fresh;
          },
          same,
          rw e kept,
        )
  ]

  authorize_repo_sound :
      (w : World) (raw : Bytes) (perm : Perm) (repo : Repo) (u : Option User)
      → (authorize_repo std (some raw) perm repo w).0 ≡ ok u
      → (ta : TokenAuth) × Bears std w raw ta
        × MayAct w ta.repo_scope ta.read_only ta.user repo perm
        × (u ≡ some ta.user)
  unfolding authorize_repo
  authorize_repo_sound w raw perm repo u h =
      let (vt, verified, e) =
        continue-eq-ok (verify std raw w).0 (authorize_verified repo perm) (verify std raw w).1 h in
      let (ta, bears, same, kept) = verify_sound w raw vt verified in
      let (known, may) = authorize_verified_sound (verify std raw w).1 repo perm vt u e in
      (ta, bears, MayAct-acls kept (rw same at may), rw same at known)

  authorize_repo_anonymous :
      (w : World) (perm : Perm) (repo : Repo) (u : Option User)
      → (authorize_repo std none perm repo w).0 ≡ ok u
      → (perm ≡ perm_read) × (is_public repo ≡ true) × (u ≡ none)
  unfolding authorize_repo
  authorize_repo_anonymous w perm repo u h =
      (ground (arith, bytes_eq_iff perm perm_read), ground arith, ground arith)

  Bears-same :
      {w v : World} {raw : Bytes} {ta : TokenAuth}
      → v.db ≡ w.db
      → v.clock ≡ w.clock
      → Bears std v raw ta
      → Bears std w raw ta
  Bears-same d c b = record {
    selector = b.selector;
    secret = b.secret;
    shaped = b.shaped;
    stored = rw (← d) b.stored;
    proved = b.proved;
    unexpired = rw (← c) b.unexpired;
  }

  -- Whatever Authorize allows, the rules allow: if it returns no error, the repo exists, and either the
  -- request has no token and asks to read a public repo, or it bears an unexpired token whose secret
  -- matches, whose scope and mode admit the request, and whose owner, who is returned, holds the level
  -- that is asked for (any level, or a public repo, to read).
  pub authorize_sound :
      (w : World) (header repo_name : Bytes) (perm : Perm) (u : Option User)
      → (authorize std header repo_name perm w).0 ≡ ok u
      → Authorized std w header repo_name perm u
  unfolding authorize
  authorize_sound w header repo_name perm u h =
      let v = (get_repo repo_name w).1 in
      let (repo, found, rest) = continue-eq-ok _ (authorize_repo std token perm) _ h in
      let (looked, same) = not_found_to-eq-ok _ (get_repo repo_name w).0 v found in
      let (stored, tables, clock) = get_repo_cases repo_name w repo looked in
      by_token (token_from_request std header) refl repo stored tables clock (rw same at rest)
    where
      token : Option Bytes
      token = token_from_request std header

      by_token :
          (t : Option Bytes)
          → token_from_request std header ≡ t
          → (repo : Repo) → repo_named (normalize_repo_name repo_name) w.db.repos ≡ some repo
          → (get_repo repo_name w).1.db ≡ w.db
          → (get_repo repo_name w).1.clock ≡ w.clock
          → (authorize_repo std
              (token_from_request std header)
              perm
              repo
              (get_repo repo_name w).1).0
            ≡ ok u
          → Authorized std w header repo_name perm u
      by_token none e repo stored tables clock k =
          let (reads, open_repo, nobody) = authorize_repo_anonymous _ perm repo u (rw e at k) in
          anonymous repo stored e reads open_repo nobody
      by_token (some raw) e repo stored tables clock k =
          let (ta, bears, may, known) =
            authorize_repo_sound (get_repo repo_name w).1 raw perm repo u (rw e at k) in
          bearer repo raw ta stored e (Bears-same tables clock bears)
            (MayAct-acls (ap (λ (d : Db). d.acls) tables) may) known
