-- ===== src/Webui/Manage/Tables.antt =====
-- internal/webui/webui.go: the statements behind the management pages, by the tables they may write.
use gitmote.Common.{
  ℕ, Bool, true, false, Bytes, Result, ok, err, Error, not_found, Option, none, some, ◌≡◌, inl, inr,
  arith, Bool-cases, if◌then◌else◌,
}
use gitmote.Meta.Schema.{Db, Perm, User}
use gitmote.Meta.Sql.{World, Sql}
use gitmote.Meta.Repos.{
  create_repo, insert_repo, get_repo, list_repos, list_repos_for_viewer, set_visibility,
  set_default_branch,
}
use gitmote.Meta.Acls.{set_acl, delete_acl, list_acls}
use gitmote.Meta.Users.{
  create_user_row, get_user, get_user_by_id, list_users, create_token, insert_token, delete_token,
  list_tokens,
}
use gitmote.Webui.Pages.{
  Reply, Handling, answer, or_server_error, answer_found, when_found, answer_shown, or_show, reply,
  repos_for,
}

abbrev pub Reads {ℓ} : {A : Type ℓ} → Sql A → Type 0
Reads m = (w : World) → (m w).1.db ≡ w.db

pub Reads-get_repo : (name : Bytes) → Reads (get_repo name)
unfolding get_repo
Reads-get_repo name w = ground arith

pub Reads-get_user : (handle : Bytes) → Reads (get_user handle)
unfolding get_user
Reads-get_user handle w = ground arith

pub Reads-get_user_by_id : (id : ℕ) → Reads (get_user_by_id id)
unfolding get_user_by_id
Reads-get_user_by_id id w = ground arith

pub Reads-list_repos : Reads list_repos
unfolding list_repos
Reads-list_repos w = ground arith

pub Reads-list_repos_for_viewer : (id : ℕ) → Reads (list_repos_for_viewer id)
unfolding list_repos_for_viewer
Reads-list_repos_for_viewer id w = ground arith

pub Reads-list_users : Reads list_users
unfolding list_users
Reads-list_users w = ground arith

pub Reads-list_tokens : (text : ℕ → Bytes) (id : ℕ) → Reads (list_tokens text id)
unfolding list_tokens
Reads-list_tokens text id w = ground arith

pub Reads-list_acls : (id : ℕ) → Reads (list_acls id)
unfolding list_acls
Reads-list_acls id w = ground arith

abbrev pub WritesRepos {ℓ} : {A : Type ℓ} → Sql A → Type 0
WritesRepos m = (w : World) → (m w).1.db ≡ record w.db { repos = (m w).1.db.repos }

abbrev pub WritesUsers {ℓ} : {A : Type ℓ} → Sql A → Type 0
WritesUsers m = (w : World) → (m w).1.db ≡ record w.db { users = (m w).1.db.users }

abbrev pub WritesTokens {ℓ} : {A : Type ℓ} → Sql A → Type 0
WritesTokens m = (w : World) → (m w).1.db ≡ record w.db { tokens = (m w).1.db.tokens }

abbrev pub WritesAcls {ℓ} : {A : Type ℓ} → Sql A → Type 0
WritesAcls m = (w : World) → (m w).1.db ≡ record w.db { acls = (m w).1.db.acls }

pub WritesRepos-create_repo : (name branch : Bytes) → WritesRepos (create_repo name branch)
unfolding create_repo insert_repo
WritesRepos-create_repo name branch w = ground arith

pub WritesRepos-set_visibility : (id : ℕ) (v : Bytes) → WritesRepos (set_visibility id v)
unfolding set_visibility
WritesRepos-set_visibility id v w = ground arith

pub WritesRepos-set_default_branch : (id : ℕ) (b : Bytes) → WritesRepos (set_default_branch id b)
unfolding set_default_branch
WritesRepos-set_default_branch id b w = ground arith

pub WritesUsers-create_user_row :
    (handle : Bytes) (admin : Bool) → WritesUsers (create_user_row handle admin)
unfolding create_user_row
WritesUsers-create_user_row handle admin w = ground arith

pub WritesTokens-create_token :
    (id : ℕ) (sel ver label : Bytes) → WritesTokens (create_token id sel ver label)
unfolding create_token insert_token
WritesTokens-create_token id sel ver label w = ground arith

pub WritesTokens-delete_token : (id : ℕ) → WritesTokens (delete_token id)
unfolding delete_token
WritesTokens-delete_token id w = ground arith

pub WritesAcls-set_acl : (repo_id user_id : ℕ) (p : Perm) → WritesAcls (set_acl repo_id user_id p)
unfolding set_acl
WritesAcls-set_acl repo_id user_id p w = ground arith

pub WritesAcls-delete_acl : (repo_id user_id : ℕ) → WritesAcls (delete_acl repo_id user_id)
unfolding delete_acl
WritesAcls-delete_acl repo_id user_id w = ground arith

-- A handler, or a statement, that keeps a predicate of the tables.
pub data Keeps (P : Db → Type 0) (m : Handling) : Type 0 where
  keeps : ((w : World) → P w.db → P (m w).1.db) → Keeps P m

pub data KeepsSql {ℓ} (P : Db → Type 0) {A : Type ℓ} (m : Sql A) : Type ℓ where
  keeps_sql : ((w : World) → P w.db → P (m w).1.db) → KeepsSql P m

pub run_Keeps : {P : Db → Type 0} {m : Handling} → Keeps P m → (w : World) → P w.db → P (m w).1.db
run_Keeps (keeps k) = k

run_KeepsSql {ℓ} :
    {P : Db → Type 0} {A : Type ℓ} {m : Sql A} → KeepsSql P m → (w : World) → P w.db → P (m w).1.db
run_KeepsSql (keeps_sql k) = k

pub KeepsSql-Reads {ℓ} : {P : Db → Type 0} {A : Type ℓ} (m : Sql A) → Reads m → KeepsSql P m
KeepsSql-Reads m r = keeps_sql (λ w p. rw (r w) p)

pub Keeps-reply : {P : Db → Type 0} (r : Reply) → Keeps P (reply r)
unfolding reply
Keeps-reply r = keeps (λ w p. p)

module _ {ℓ} {P : Db → Type 0} {A : Type ℓ} where
  keeps_answer :
      (next : A → Handling) (r : Result A) (w : World)
      → ((a : A) → Keeps P (next a))
      → P w.db
      → P (answer next r w).1.db
  keeps_answer next (ok a) w k p = run_Keeps (k a) w p
  keeps_answer next (err e) w k p = p

  pub Keeps-or_server_error :
      {m : Sql A} {next : A → Handling}
      → KeepsSql P m
      → ((a : A) → Keeps P (next a))
      → Keeps P (or_server_error m next)
  unfolding or_server_error
  Keeps-or_server_error {m} {next} s k =
      keeps (λ w p. keeps_answer next (m w).0 (m w).1 k (run_KeepsSql s w p))

  keeps_answer_found :
      (absent : Handling) (next : A → Handling) (r : Result A) (w : World)
      → Keeps P absent
      → ((a : A) → Keeps P (next a))
      → P w.db
      → P (answer_found absent next r w).1.db
  keeps_answer_found absent next (ok a) w n k p = run_Keeps (k a) w p
  keeps_answer_found absent next (err not_found) w n k p = run_Keeps n w p
  keeps_answer_found absent next (err e) w n k p = p

  pub Keeps-when_found :
      {m : Sql A} {absent : Handling} {next : A → Handling}
      → KeepsSql P m
      → Keeps P absent
      → ((a : A) → Keeps P (next a))
      → Keeps P (when_found m absent next)
  unfolding when_found
  Keeps-when_found {m} {absent} {next} s n k =
      keeps (λ w p. keeps_answer_found absent next (m w).0 (m w).1 n k (run_KeepsSql s w p))

  keeps_answer_shown :
      (shown : Error → Handling) (next : A → Handling) (r : Result A) (w : World)
      → ((e : Error) → Keeps P (shown e))
      → ((a : A) → Keeps P (next a))
      → P w.db
      → P (answer_shown shown next r w).1.db
  keeps_answer_shown shown next (ok a) w n k p = run_Keeps (k a) w p
  keeps_answer_shown shown next (err e) w n k p = run_Keeps (n e) w p

  pub Keeps-or_show :
      {m : Sql A} {shown : Error → Handling} {next : A → Handling}
      → KeepsSql P m
      → ((e : Error) → Keeps P (shown e))
      → ((a : A) → Keeps P (next a))
      → Keeps P (or_show m shown next)
  unfolding or_show
  Keeps-or_show {m} {shown} {next} s n k =
      keeps (λ w p. keeps_answer_shown shown next (m w).0 (m w).1 n k (run_KeepsSql s w p))

pub Keeps-if :
    {P : Db → Type 0} (b : Bool) {m n : Handling}
    → Keeps P m
    → Keeps P n
    → Keeps P (if b then m else n)
Keeps-if true k l = k
Keeps-if false k l = l

module _ {P : Db → Type 0} where
  pub KeepsSql-get_repo : (name : Bytes) → KeepsSql P (get_repo name)
  KeepsSql-get_repo name = KeepsSql-Reads (get_repo name) (Reads-get_repo name)

  pub KeepsSql-get_user : (handle : Bytes) → KeepsSql P (get_user handle)
  KeepsSql-get_user handle = KeepsSql-Reads (get_user handle) (Reads-get_user handle)

  pub KeepsSql-get_user_by_id : (id : ℕ) → KeepsSql P (get_user_by_id id)
  KeepsSql-get_user_by_id id = KeepsSql-Reads (get_user_by_id id) (Reads-get_user_by_id id)

  pub KeepsSql-list_users : KeepsSql P list_users
  KeepsSql-list_users = KeepsSql-Reads list_users Reads-list_users

  pub KeepsSql-list_tokens : (text : ℕ → Bytes) (id : ℕ) → KeepsSql P (list_tokens text id)
  KeepsSql-list_tokens text id = KeepsSql-Reads (list_tokens text id) (Reads-list_tokens text id)

  pub KeepsSql-list_acls : (id : ℕ) → KeepsSql P (list_acls id)
  KeepsSql-list_acls id = KeepsSql-Reads (list_acls id) (Reads-list_acls id)

  pub KeepsSql-repos_for : (viewer : Option User) → KeepsSql P (repos_for viewer)
  unfolding repos_for
  KeepsSql-repos_for none = KeepsSql-Reads (list_repos_for_viewer 0) (Reads-list_repos_for_viewer 0)
  KeepsSql-repos_for (some u) = elim (Bool-cases u.is_admin) [
    | inl e ↦ rw e (KeepsSql-Reads list_repos Reads-list_repos)
    | inr e ↦ rw e (KeepsSql-Reads (list_repos_for_viewer u.id) (Reads-list_repos_for_viewer u.id))
  ]

pub ruleset page_rules = (
  Keeps-reply, Keeps-or_server_error, Keeps-when_found, Keeps-or_show, Keeps-if, KeepsSql-get_repo,
  KeepsSql-get_user, KeepsSql-list_users, KeepsSql-list_tokens, KeepsSql-list_acls,
  KeepsSql-repos_for,
)
