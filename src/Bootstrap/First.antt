-- ===== src/Bootstrap/First.antt =====
-- internal/bootstrap/bootstrap.go: what Run leaves behind, and who may sign in with its token.
use gitmote.Common.{
  ℕ, true, false, [], ◌∷◌, Bytes, codes, any, none, some, ok, ◌≡◌, ◌≢◌, refl, ◌∙◌, inl, inr, arith,
  All, Bool-cases,
}
use gitmote.Meta.Schema.{Db, User}
use gitmote.Meta.Sql.{World, IsQuiet, next_fault, spend, continue-eq-ok, continue}
use gitmote.Meta.Users.{
  Token, create_user_row, create_admin, create_token, create_scoped_token, insert_token,
  admin_exists, user_with_id, token_joined, next_token_id,
}
use gitmote.Auth.Token.{mint}
use gitmote.Auth.Token.Shape.{IsByte, split-mint}
use gitmote.Auth.Guard.{Std, verify}
use gitmote.Auth.Guard.Complete.{verify_complete}
use gitmote.Auth.Guard.Constraints.{token_joined-insert}
use gitmote.Bootstrap.{
  Options, default_admin_handle, Outcome, already, or_default, with_repo, mint_token, first_admin,
  run,
}
use gitmote.Bootstrap.Accounts.{Finished-with_repo}

-- The statement that adds a user answers with it.
create_admin_lem :
    (handle : Bytes) (w : World) (u : User)
    → (create_admin handle w).0 ≡ ok u
    → (u.is_admin ≡ true) × ((create_admin handle w).1.db.users ≡ u ∷ w.db.users)
unfolding create_admin create_user_row
create_admin_lem handle w u h = (ground arith, ground arith)

create_token_users :
    (id : ℕ) (sel ver label : Bytes) (w : World)
    → (create_token id sel ver label w).1.db.users ≡ w.db.users
unfolding create_token insert_token
create_token_users id sel ver label w = ground arith

module _ (std : Std) (sel secret : Bytes) where
  -- A token that was just stored is found, with its owner.
  mint_token_lem :
      (user : User) (label raw : Bytes) (w : World)
      → user_with_id user.id w.db.users ≡ some user
      → (mint_token std sel secret user.id label w).0 ≡ ok raw
      → let m = mint std.sha256_hex sel secret in
        let w' = (mint_token std sel secret user.id label w).1 in
        (raw ≡ m.raw)
        × (w'.db.users ≡ w.db.users)
        × (token_joined m.selector w'.db.users w'.db.tokens
            ≡ some (record {
              token_id = next_token_id w.db.tokens;
              verifier = m.verifier;
              user = user;
              expires_at = none;
              repo_scope = none;
              read_only = false;
            }))
  unfolding mint_token create_token create_scoped_token
  mint_token_lem user label raw w owner h =
      let m = mint std.sha256_hex sel secret in
      let made =
        create_token user.id m.selector m.verifier (or_default label (codes "bootstrap")) w in
      let (t, created, e) = continue-eq-ok made.0 (λ (_ : Token) u. (ok m.raw, u)) made.1 h in
      let stored =
        token_joined-insert w user.id m.selector m.verifier (or_default label (codes "bootstrap"))
          none false none user t owner created in
      (
        ground (arith, e),
        rw created (
            create_token_users user.id m.selector m.verifier (or_default label (codes "bootstrap"))
              w),
        rw created stored,
      )

  -- Who the token of an answer stands for, in the tables that Run left.
  record Signed (r : Outcome) (db : Db) : Type 0 where
    owner : User
    id : ℕ
    shown : r.admin ≡ some owner
    is_global : owner.is_admin ≡ true
    kept : any (λ u. u.is_admin) db.users ≡ true
    token : r.raw_token ≡ (mint std.sha256_hex sel secret).raw
    stored :
        token_joined (mint std.sha256_hex sel secret).selector db.users db.tokens
        ≡ some (record {
          token_id = id;
          verifier = (mint std.sha256_hex sel secret).verifier;
          user = owner;
          expires_at = none;
          repo_scope = none;
          read_only = false;
        })

  Signed-first_admin :
      (opts : Options) (w : World) (r : Outcome)
      → (first_admin std sel secret opts w).0 ≡ ok r
      → Signed r (first_admin std sel secret opts w).1.db
  unfolding first_admin user_with_id
  Signed-first_admin opts w r h =
      let made = create_admin (or_default opts.admin_handle default_admin_handle) w in
      let (admin, created, h1) =
        continue-eq-ok made.0
          (λ a u.
            continue (mint_token std sel secret a.id opts.token_label u).0
              (λ raw v. with_repo opts a raw v)
              (mint_token std sel secret a.id opts.token_label u).1)
          made.1 h in
      let (global, rows) =
        create_admin_lem (or_default opts.admin_handle default_admin_handle) w admin created in
      let minted = mint_token std sel secret admin.id opts.token_label made.1 in
      let (raw, shown, h2) =
        continue-eq-ok minted.0 (λ raw v. with_repo opts admin raw v) minted.1 h1 in
      let (same, users, stored) =
        mint_token_lem admin opts.token_label raw made.1 (rw rows (ground arith)) shown in
      let done = Finished-with_repo opts admin raw minted.1 in
      rw (created, shown)
        (record {
          owner = admin;
          id = next_token_id made.1.db.tokens;
          shown = done.admin_shown r h2;
          is_global = global;
          kept = rw (done.same.users, users, rows, global) refl;
          token = done.token_shown r h2 ∙ same;
          stored = rw (done.same.users, done.same.tokens) stored;
        })

  Signed-run :
      (opts : Options) (w : World) (r : Outcome)
      → (run std sel secret opts w).0 ≡ ok r
      → r.already_bootstrapped ≡ false
      → Signed r (run std sel secret opts w).1.db
  unfolding run admin_exists
  Signed-run opts w r h n = elim (Bool-cases (next_fault w.faults)) [
    | inl e ↦ absurd (ground arith)
    | inr e ↦ elim (Bool-cases (any (λ u. u.is_admin) w.db.users)) [
      | inl f ↦ absurd (ground arith)
      | inr f ↦ rw (e, f) (Signed-first_admin opts (spend w) r (rw (e, f) at h))
    ]
  ]

  -- When an admin exists and no statement fails, Run changes no table and answers so.
  pub run_again :
      (opts : Options) (v : World)
      → IsQuiet v
      → any (λ u. u.is_admin) v.db.users ≡ true
      → ((run std sel secret opts v).0 ≡ ok already) × ((run std sel secret opts v).1.db ≡ v.db)
  unfolding run admin_exists next_fault
  run_again opts v q k = (ground arith, ground arith)

  -- If Run bootstraps an instance, whatever was in its tables, then its token authenticates the admin of its answer,
  -- who is a global admin, without scope or expiry, from any state of the tables that it left; and a
  -- second Run, with any options, answers that there is an admin and changes no table. No statement
  -- after the first Run fails, and the random halves of the token are bytes and not empty.
  pub run-Bootstrapped :
      (opts : Options) (w v : World) (r : Outcome)
      → sel ≢ []
      → secret ≢ []
      → All IsByte sel
      → (run std sel secret opts w).0 ≡ ok r
      → r.already_bootstrapped ≡ false
      → v.db ≡ (run std sel secret opts w).1.db
      → IsQuiet v
      → (admin : User) × (r.admin ≡ some admin)
        × (admin.is_admin ≡ true)
        × ((verify std r.raw_token v).0
            ≡ ok (record { user = admin; repo_scope = none; read_only = false }))
        × ((again : Options)
            → ((run std sel secret again v).0 ≡ ok already)
              × ((run std sel secret again v).1.db ≡ v.db))
  run-Bootstrapped opts w v r p q b h n same quiet =
      let m = mint std.sha256_hex sel secret in
      let (half, shaped, proved) = split-mint std.sha256_hex sel secret p q b in
      let s = Signed-run opts w r h n in
      let in_v =
        verify_complete std v r.raw_token
          (record {
            token_id = s.id;
            verifier = m.verifier;
            user = s.owner;
            expires_at = none;
            repo_scope = none;
            read_only = false;
          })
          quiet
          (record {
            selector = m.selector;
            secret = half;
            shaped = rw s.token shaped;
            stored = rw same s.stored;
            proved = proved;
            unexpired = inl refl;
          }) in
      (s.owner, s.shown, s.is_global, in_v.0, λ again. run_again again v quiet (rw same s.kept))
