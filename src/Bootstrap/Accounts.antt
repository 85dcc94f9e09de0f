-- ===== src/Bootstrap/Accounts.antt =====
-- internal/bootstrap/bootstrap.go: the end of Run, which adds no account.
use gitmote.Common.{
  ℕ, false, Bytes, is_empty, some, Result, ok, err, Error, ◌≡◌, refl, ◌∙◌, inl, inr, arith,
  Bool-cases,
}
use gitmote.Meta.Schema.{Db, User, Repo, perm_admin}
use gitmote.Meta.Sql.{World, continue}
use gitmote.Meta.Repos.{create_repo, insert_repo}
use gitmote.Meta.Acls.{set_acl}
use gitmote.Bootstrap.{Options, Outcome, with_repo}

-- The users and the tokens are the same.
pub record SameAccounts (a b : Db) : Type 0 where
  pub users : a.users ≡ b.users
  pub tokens : a.tokens ≡ b.tokens

SameAccounts-create_repo :
    (name branch : Bytes) (w : World) → SameAccounts (create_repo name branch w).1.db w.db
unfolding create_repo insert_repo
SameAccounts-create_repo name branch w = record { users = ground arith; tokens = ground arith }

SameAccounts-set_acl :
    (repo_id user_id : ℕ) (w : World)
    → SameAccounts (set_acl repo_id user_id perm_admin w).1.db w.db
unfolding set_acl
SameAccounts-set_acl repo_id user_id w = record { users = ground arith; tokens = ground arith }

-- An answer of Run with this admin and token, in a state with the accounts of `before`.
pub record Finished (admin : User) (raw : Bytes) (before : Db) (o : Result Outcome × World)
    : Type 0 where
  pub same : SameAccounts o.1.db before
  pub admin_shown : (r : Outcome) → o.0 ≡ ok r → r.admin ≡ some admin
  pub token_shown : (r : Outcome) → o.0 ≡ ok r → r.raw_token ≡ raw

module _ (admin : User) (raw : Bytes) (before : Db) where
  Finished-ok :
      (r : Outcome) (w : World)
      → r.admin ≡ some admin
      → r.raw_token ≡ raw
      → SameAccounts w.db before
      → Finished admin raw before (ok r, w)
  Finished-ok r w a t s = record {
    same = s;
    admin_shown = λ r' e. ground arith;
    token_shown = λ r' e. ground arith;
  }

  Finished-err :
      (e : Error) (w : World) → SameAccounts w.db before → Finished admin raw before (err e, w)
  Finished-err e w s = record {
    same = s;
    admin_shown = λ r h. absurd (cc);
    token_shown = λ r h. absurd (cc);
  }

  Finished-set_acl :
      (repo : Repo) (g : Result (Unit {0})) (w : World)
      → SameAccounts w.db before
      → Finished admin raw before (
          continue g
            (λ _ u. (
              ok (record {
                already_bootstrapped = false;
                admin = some admin;
                repo = some repo;
                raw_token = raw;
              }),
              u,
            ))
            w)
  Finished-set_acl repo (err e) w s = Finished-err e w s
  Finished-set_acl repo (ok x) w s = Finished-ok _ w refl refl s

SameAccounts-trans : (a b c : Db) → SameAccounts a b → SameAccounts b c → SameAccounts a c
SameAccounts-trans a b c p q = record { users = p.users ∙ q.users; tokens = p.tokens ∙ q.tokens }

pub Finished-with_repo :
    (opts : Options) (admin : User) (raw : Bytes) (w : World)
    → Finished admin raw w.db (with_repo opts admin raw w)
unfolding with_repo
Finished-with_repo opts admin raw w = elim (Bool-cases (is_empty opts.repo_name)) [
  | inl e ↦ rw e (Finished-ok admin raw w.db _ w refl refl (record { users = refl; tokens = refl }))
  | inr e ↦ rw e (
      made (create_repo opts.repo_name opts.default_branch w).0
        (create_repo opts.repo_name opts.default_branch w).1
        (SameAccounts-create_repo opts.repo_name opts.default_branch w))
]
  where
    made :
        (c : Result Repo) (u : World)
        → SameAccounts u.db w.db
        → Finished admin raw w.db (
            continue c
              (λ repo v.
                continue
                  (set_acl repo.id admin.id perm_admin v).0
                  (λ _ x. (
                    ok (record {
                      already_bootstrapped = false;
                      admin = some admin;
                      repo = some repo;
                      raw_token = raw;
                    }),
                    x,
                  ))
                  (set_acl repo.id admin.id perm_admin v).1)
              u)
    made (err e) u s = Finished-err admin raw w.db e u s
    made (ok repo) u s =
        Finished-set_acl admin raw w.db repo (set_acl repo.id admin.id perm_admin u).0
          (set_acl repo.id admin.id perm_admin u).1
          (SameAccounts-trans _ _ _ (SameAccounts-set_acl repo.id admin.id u) s)
