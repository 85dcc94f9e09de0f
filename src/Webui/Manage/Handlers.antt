-- ===== src/Webui/Manage/Handlers.antt =====
-- internal/webui/webui.go: the tables that each management handler may write.
use gitmote.Common.{ℕ, Bool, true, false, Bytes, codes, Option, none, some, ◌≡◌, if◌then◌else◌}
use gitmote.Meta.Schema.{Db, Repo, User, perm_admin}
use gitmote.Meta.Sql.{World}
use gitmote.Meta.Repos.{create_repo, set_visibility, set_default_branch}
use gitmote.Meta.Acls.{set_acl, delete_acl}
use gitmote.Meta.Users.{create_user, create_admin, create_token, delete_token}
use gitmote.Webui.Pages.{Handler, SecretsAdmin, Request, render_dashboard}
use gitmote.Webui.Forms.{
  field, post_repo, render_settings, set_visibility_form, set_branch_form, post_settings,
  render_users, post_user, render_tokens_of, render_tokens, post_token, revoke, post_revoke_token,
  render_access, post_access, revoke_access, post_revoke_access, secrets_listed, render_secrets,
  secret_set, set_secret_form, disabled, post_secret_to, post_secret, delete_from,
  post_delete_secret,
}
use gitmote.Webui.Manage.Tables.{
  Reads, WritesRepos-create_repo, WritesRepos-set_visibility, WritesRepos-set_default_branch,
  WritesUsers-create_user_row, WritesTokens-create_token, WritesTokens-delete_token,
  WritesAcls-set_acl, WritesAcls-delete_acl, Keeps, KeepsSql, keeps, keeps_sql, run_Keeps,
  KeepsSql-Reads, page_rules,
}

-- What the pages rely on: listing the names of secrets reads, and setting and deleting a secret write
-- the table of secrets at most.
pub record IsWired (s : SecretsAdmin) : Type 0 where
  pub list_reads : (id : ℕ) → Reads (s.list_secret_names id)
  pub set_writes :
      (id : ℕ) (name value : Bytes) (w : World)
      → let after = (s.set_secret id name value w).1.db in
        after ≡ record w.db { ci_secrets = after.ci_secrets }
  pub delete_writes :
      (id : ℕ) (name : Bytes) (w : World)
      → let after = (s.delete_secret id name w).1.db in
        after ≡ record w.db { ci_secrets = after.ci_secrets }

abbrev pub AreWired : Option SecretsAdmin → Type 0
AreWired none = Unit {0}
AreWired (some s) = IsWired s

module _ (P : Db → Type 0) (h : Handler) (req : Request) (me : User) where
  Keeps-render_dashboard :
      (viewer : Option User) (flash problem : Bytes)
      → Keeps P (render_dashboard viewer flash problem)
  unfolding render_dashboard
  Keeps-render_dashboard viewer flash problem = search page_rules

  pub Keeps-render_settings :
      (name flash problem : Bytes) → Keeps P (render_settings h req me name flash problem)
  unfolding render_settings
  Keeps-render_settings name flash problem = search page_rules

  pub Keeps-render_users : (flash problem : Bytes) → Keeps P (render_users h req me flash problem)
  unfolding render_users
  Keeps-render_users flash problem = search page_rules

  pub Keeps-render_tokens :
      (selected new_raw problem : Bytes) → Keeps P (render_tokens h req me selected new_raw problem)
  unfolding render_tokens render_tokens_of
  Keeps-render_tokens selected new_raw problem = search page_rules

  pub Keeps-render_access :
      (name flash problem : Bytes) → Keeps P (render_access h req me name flash problem)
  unfolding render_access
  Keeps-render_access name flash problem = search page_rules

  module _ (wired : AreWired h.secrets) where
    Keeps-secrets_listed :
        (rp : Repo) (flash problem : Bytes) (s : Option SecretsAdmin)
        → AreWired s
        → Keeps P (secrets_listed h req me rp flash problem s)
    unfolding secrets_listed
    Keeps-secrets_listed rp flash problem none k = search page_rules
    Keeps-secrets_listed rp flash problem (some s) k =
        let listing : KeepsSql P (s.list_secret_names rp.id) =
          KeepsSql-Reads (s.list_secret_names rp.id) (k.list_reads rp.id) in
        search (page_rules, listing)

    pub Keeps-render_secrets :
        (name flash problem : Bytes) → Keeps P (render_secrets h req me name flash problem)
    unfolding render_secrets
    Keeps-render_secrets name flash problem =
        search (page_rules, λ (rp : Repo). Keeps-secrets_listed rp flash problem h.secrets wired)

    module _
        (to_secrets : (a b : Db) → P a → b ≡ record a { ci_secrets = b.ci_secrets } → P b) where
      keeps_secret_set :
          (name : Bytes) (r : Option Bytes × World) → P r.1.db → P (secret_set h req me name r).1.db
      unfolding secret_set
      keeps_secret_set name (none, w) p = run_Keeps (Keeps-render_secrets req.repo _ _) w p
      keeps_secret_set name (some text, w) p = run_Keeps (Keeps-render_secrets req.repo _ _) w p

      Keeps-post_secret_to :
          (s : Option SecretsAdmin) → AreWired s → Keeps P (post_secret_to h req me s)
      unfolding post_secret_to disabled set_secret_form
      Keeps-post_secret_to none k = search (page_rules, Keeps-render_secrets)
      Keeps-post_secret_to (some s) k =
          let value = req.form (codes "value") in
          let name = field h req me (codes "name") in
          let write : (rp : Repo)
              → Keeps P (λ w. secret_set h req me name (s.set_secret rp.id name value w)) =
            λ rp. keeps (λ w p.
              keeps_secret_set name (s.set_secret rp.id name value w)
                (to_secrets _ _ p (k.set_writes rp.id name value w))) in
          search (page_rules, Keeps-render_secrets, write)

      pub Keeps-post_secret : Keeps P (post_secret h req me)
      unfolding post_secret
      Keeps-post_secret = Keeps-post_secret_to h.secrets wired

      Keeps-delete_from :
          (s : Option SecretsAdmin) → AreWired s → (rp : Repo) → Keeps P (delete_from h req me s rp)
      unfolding delete_from
      Keeps-delete_from none k rp = search page_rules
      Keeps-delete_from (some s) k rp =
          let name = field h req me (codes "name") in
          let write : KeepsSql P (s.delete_secret rp.id name) =
            keeps_sql (λ w p. to_secrets _ _ p (k.delete_writes rp.id name w)) in
          search (page_rules, Keeps-render_secrets, write)

      pub Keeps-post_delete_secret : Keeps P (post_delete_secret h req me)
      unfolding post_delete_secret
      Keeps-post_delete_secret =
          search (page_rules, λ (rp : Repo). Keeps-delete_from h.secrets wired rp)

  module _ (to_users : (a b : Db) → P a → b ≡ record a { users = b.users } → P b) where
    KeepsSql-create :
        (b : Bool) (handle : Bytes)
        → KeepsSql P (if b then create_user handle else create_admin handle)
    unfolding create_user create_admin
    KeepsSql-create true handle =
        keeps_sql (λ w p. to_users _ _ p (WritesUsers-create_user_row handle false w))
    KeepsSql-create false handle =
        keeps_sql (λ w p. to_users _ _ p (WritesUsers-create_user_row handle true w))

    pub Keeps-post_user : Keeps P (post_user h req me)
    unfolding post_user
    Keeps-post_user = search (page_rules, Keeps-render_users, KeepsSql-create)

  module _ (to_tokens : (a b : Db) → P a → b ≡ record a { tokens = b.tokens } → P b) where
    KeepsSql-create_token :
        (id : ℕ) (sel ver label : Bytes) → KeepsSql P (create_token id sel ver label)
    KeepsSql-create_token id sel ver label =
        keeps_sql (λ w p. to_tokens _ _ p (WritesTokens-create_token id sel ver label w))

    pub Keeps-post_token : Keeps P (post_token h req me)
    unfolding post_token
    Keeps-post_token = search (page_rules, Keeps-render_tokens, KeepsSql-create_token)

    KeepsSql-delete_token : (id : ℕ) → KeepsSql P (delete_token id)
    KeepsSql-delete_token id = keeps_sql (λ w p. to_tokens _ _ p (WritesTokens-delete_token id w))

    Keeps-revoke : (handle : Bytes) (id : Option ℕ) → Keeps P (revoke h req me handle id)
    unfolding revoke
    Keeps-revoke handle none = Keeps-render_tokens handle _ _
    Keeps-revoke handle (some id) = search (page_rules, Keeps-render_tokens, KeepsSql-delete_token)

    pub Keeps-post_revoke_token : Keeps P (post_revoke_token h req me)
    unfolding post_revoke_token
    Keeps-post_revoke_token = Keeps-revoke _ _

  module _ (to_repos : (a b : Db) → P a → b ≡ record a { repos = b.repos } → P b) where
    KeepsSql-set_visibility : (id : ℕ) (v : Bytes) → KeepsSql P (set_visibility id v)
    KeepsSql-set_visibility id v =
        keeps_sql (λ w p. to_repos _ _ p (WritesRepos-set_visibility id v w))

    KeepsSql-set_default_branch : (id : ℕ) (b : Bytes) → KeepsSql P (set_default_branch id b)
    KeepsSql-set_default_branch id b =
        keeps_sql (λ w p. to_repos _ _ p (WritesRepos-set_default_branch id b w))

    KeepsSql-create_repo : (name branch : Bytes) → KeepsSql P (create_repo name branch)
    KeepsSql-create_repo name branch =
        keeps_sql (λ w p. to_repos _ _ p (WritesRepos-create_repo name branch w))

    pub Keeps-post_settings : Keeps P (post_settings h req me)
    unfolding post_settings set_visibility_form set_branch_form
    Keeps-post_settings =
        search
          (page_rules, Keeps-render_settings, KeepsSql-set_visibility, KeepsSql-set_default_branch)

    module _ (to_acls : (a b : Db) → P a → b ≡ record a { acls = b.acls } → P b) where
      pub Keeps-post_repo : Keeps P (post_repo h req me)
      unfolding post_repo
      Keeps-post_repo =
          let grant : (id : ℕ) → KeepsSql P (set_acl id me.id perm_admin) =
            λ id. keeps_sql (λ w p. to_acls _ _ p (WritesAcls-set_acl id me.id perm_admin w)) in
          search (page_rules, Keeps-render_dashboard, KeepsSql-create_repo, grant)

  module _ (to_acls : (a b : Db) → P a → b ≡ record a { acls = b.acls } → P b) where
    KeepsSql-set_acl : (r u : ℕ) (perm : Bytes) → KeepsSql P (set_acl r u perm)
    KeepsSql-set_acl r u perm = keeps_sql (λ w p. to_acls _ _ p (WritesAcls-set_acl r u perm w))

    KeepsSql-delete_acl : (r u : ℕ) → KeepsSql P (delete_acl r u)
    KeepsSql-delete_acl r u = keeps_sql (λ w p. to_acls _ _ p (WritesAcls-delete_acl r u w))

    pub Keeps-post_access : Keeps P (post_access h req me)
    unfolding post_access
    Keeps-post_access = search (page_rules, Keeps-render_access, KeepsSql-set_acl)

    Keeps-revoke_access : (uid : Option ℕ) → Keeps P (revoke_access h req me uid)
    unfolding revoke_access
    Keeps-revoke_access none = Keeps-render_access req.repo _ _
    Keeps-revoke_access (some uid) = search (page_rules, Keeps-render_access, KeepsSql-delete_acl)

    pub Keeps-post_revoke_access : Keeps P (post_revoke_access h req me)
    unfolding post_revoke_access
    Keeps-post_revoke_access = Keeps-revoke_access _
