-- ===== src/Auth/Guard/Policy.antt =====
-- The rules by which a request may act on a repo, stated apart from the code.
use gitmote.Common.{ℕ, ◌≤◌, ◌<◌, Bool, true, false, Bytes, Option, none, some, ◌≡◌, ◌≢◌, ◌⊎◌}
use gitmote.Meta.Schema.{Repo, User, Perm, perm_read}
use gitmote.Meta.Sql.{World}
use gitmote.Meta.Repos.{repo_named, normalize_repo_name}
use gitmote.Meta.Acls.{is_public}
use gitmote.Meta.Acls.Rules.{level, may_read}
use gitmote.Meta.Users.{TokenAuth, token_joined}
use gitmote.Auth.Token.{split}
use gitmote.Auth.Guard.{Std, perm_rank, token_from_request}

module _ (std : Std) where
  -- `raw` is an unexpired token of the database, and its secret half is the one that was hashed.
  pub record Bears (w : World) (raw : Bytes) (ta : TokenAuth) : Type 0 where
    pub selector : Bytes
    pub secret : Bytes
    pub shaped : split raw ≡ some (selector, secret)
    pub stored : token_joined selector w.db.users w.db.tokens ≡ some ta
    pub proved : ta.verifier ≡ std.sha256_hex secret
    pub unexpired : (ta.expires_at ≡ none) ⊎ ((e : ℕ) × (ta.expires_at ≡ some e) × (w.clock < e))

-- The owner of a token may act on a repo at a level: the token reaches the repo, a read-only token
-- asks for no more than reading, and the owner holds the level.
pub record MayAct (w : World) (scope : Option ℕ) (read_only : Bool) (user : User) (repo : Repo)
    (perm : Perm) : Type 0 where
  pub reaches : (scope ≡ none) ⊎ (scope ≡ some repo.id)
  pub mode : (read_only ≡ false) ⊎ (perm_rank perm ≤ perm_rank perm_read)
  pub right :
      ((perm ≡ perm_read) × (may_read w repo user.id ≡ true))
      ⊎ ((p : Perm) × (perm ≢ perm_read)
          × (level w repo.id user.id ≡ some p)
          × (0 < perm_rank perm)
          × (perm_rank perm ≤ perm_rank p))

module _ (std : Std) where
  -- Who a request may act as: nobody, on a public repo that it asks to read, or the owner of the
  -- token that it bears, where the rules allow it.
  pub data Authorized (w : World) (header repo_name : Bytes) (perm : Perm) (u : Option User)
      : Type 0 where
    anonymous :
        (repo : Repo)
        → repo_named (normalize_repo_name repo_name) w.db.repos ≡ some repo
        → token_from_request std header ≡ none
        → perm ≡ perm_read
        → is_public repo ≡ true
        → u ≡ none
        → Authorized w header repo_name perm u
    bearer :
        (repo : Repo) (raw : Bytes) (ta : TokenAuth)
        → repo_named (normalize_repo_name repo_name) w.db.repos ≡ some repo
        → token_from_request std header ≡ some raw
        → Bears std w raw ta
        → MayAct w ta.repo_scope ta.read_only ta.user repo perm
        → u ≡ some ta.user
        → Authorized w header repo_name perm u
