-- ===== src/Meta/Repos.antt =====
-- internal/meta/repos.go: hosted repositories and their names.
pub mod Names
pub mod Listing
use Prim.Native.Nat.{max}
use gitmote.Common.{
  ℕ, ◌+◌, Bool, true, false, ◌&&◌, ◌||◌, List, [], ◌∷◌, Bytes, bytes_eq, starts_with, trim_suffix,
  contains_byte, codes, ◌==◌, if◌then◌else◌, keep, any, find, is_empty, Result, ok, err, not_found,
  unique_violation, check_violation, invalid_repo_name, Option, none, some,
}
use gitmote.Common.Sort.{order_by, bytes_le}
use gitmote.Meta.Schema.{Db, Repo}
use gitmote.Meta.Sql.{Sql, pure, raise, select, exec, now, or_not_found, ◌>>=◌}
use gitmote.Meta.Acls.{visibility_public, is_acl}

abbrev pub visibility_private : Bytes
visibility_private = codes "private"

abbrev pub reserved_repo_names : List Bytes
reserved_repo_names =
    codes "login"
    ∷ codes "logout"
    ∷ codes "users"
    ∷ codes "tokens"
    ∷ codes "settings"
    ∷ codes "new"
    ∷ codes "search"
    ∷ codes "api"
    ∷ codes "metrics"
    ∷ codes "internal"
    ∷ codes "static"
    ∷ codes "healthz"
    ∷ codes "version"
    ∷ []

unfoldable pub is_reserved : Bytes → List Bytes → Bool
is_reserved name [] = false
is_reserved name (r ∷ rs) = bytes_eq r name || is_reserved name rs

unfoldable pub normalize_repo_name : Bytes → Bytes
normalize_repo_name name = trim_suffix (codes ".git") name

-- nil is `true`; any of the five errors is `false`
unfoldable pub validate_repo_name : Bytes → Bool
validate_repo_name name =
    if is_empty name
    then false
    else if contains_byte b'/' name
    then false
    else if starts_with (codes ".") name
    then false
    else if bytes_eq name (codes "-")
    then false
    else if is_reserved name reserved_repo_names
    then false
    else true

unfoldable pub has_repo_name : Bytes → List Repo → Bool
has_repo_name name [] = false
has_repo_name name (r ∷ rs) = bytes_eq r.name name || has_repo_name name rs

-- INTEGER PRIMARY KEY: one more than the largest id
unfoldable pub next_repo_id : List Repo → ℕ
next_repo_id [] = 1
next_repo_id (r ∷ rs) = max (r.id + 1) (next_repo_id rs)

abbrev pub new_repo : Db → (name default_branch : Bytes) → ℕ → Repo
new_repo db name default_branch created = record {
  id = next_repo_id db.repos;
  name = name;
  default_branch = default_branch;
  visibility = visibility_private;
  created_at = created;
}

-- INSERT INTO repos; the name is UNIQUE
unfoldable pub insert_repo : (name default_branch : Bytes) → ℕ → Db → Result (Db × Repo)
insert_repo name default_branch created db =
    if has_repo_name name db.repos
    then err unique_violation
    else ok (
      record db { repos = new_repo db name default_branch created ∷ db.repos },
      new_repo db name default_branch created,
    )

unfoldable pub create_repo : (name default_branch : Bytes) → Sql Repo
create_repo name default_branch =
    let n = normalize_repo_name name in
    let branch : Bytes = if is_empty default_branch then codes "main" else default_branch in
    if validate_repo_name n
    then (do created ← now; exec (insert_repo n branch created))
    else raise invalid_repo_name

unfoldable pub update_repo : (Repo → Repo) → ℕ → List Repo → List Repo
update_repo f id [] = []
update_repo f id (r ∷ rs) = (if r.id == id then f r else r) ∷ update_repo f id rs

unfoldable pub has_repo_id : ℕ → List Repo → Bool
has_repo_id id [] = false
has_repo_id id (r ∷ rs) = r.id == id || has_repo_id id rs

abbrev rows_or_not_found : Bool → Sql (Unit {0})
rows_or_not_found true = pure tt
rows_or_not_found false = raise not_found

-- CHECK (visibility IN ('private','public')), tested on a row that the UPDATE writes
unfoldable pub set_visibility : ℕ → Bytes → Sql (Unit {0})
set_visibility repo_id visibility = do
  found ← exec (λ db.
      if has_repo_id repo_id db.repos
      then (if bytes_eq visibility visibility_private || bytes_eq visibility visibility_public
          then ok (
            record db {
              repos = update_repo (λ r. record r { visibility = visibility }) repo_id db.repos;
            },
            true,
          )
          else err check_violation)
      else ok (db, false))
  rows_or_not_found found

unfoldable pub set_default_branch : ℕ → Bytes → Sql (Unit {0})
set_default_branch repo_id branch = do
  found ← exec (λ db. ok (
    record db { repos = update_repo (λ r. record r { default_branch = branch }) repo_id db.repos },
    has_repo_id repo_id db.repos,
  ))
  rows_or_not_found found

unfoldable pub repo_named : Bytes → List Repo → Option Repo
repo_named name [] = none
repo_named name (r ∷ rs) = if bytes_eq r.name name then some r else repo_named name rs

unfoldable pub get_repo : Bytes → Sql Repo
get_repo name = do
  found ← select (λ db. repo_named (normalize_repo_name name) db.repos)
  or_not_found found

unfoldable pub repo_with_id : ℕ → List Repo → Option Repo
repo_with_id id [] = none
repo_with_id id (r ∷ rs) = if r.id == id then some r else repo_with_id id rs

unfoldable pub get_repo_by_id : ℕ → Sql Repo
get_repo_by_id id = do found ← select (λ db. repo_with_id id db.repos); or_not_found found

abbrev pub by_name : Repo → Repo → Bool
by_name a b = bytes_le a.name b.name

unfoldable pub list_repos : Sql (List Repo)
list_repos = select (λ db. order_by by_name db.repos)

-- WHERE r.visibility = 'public' OR EXISTS (SELECT 1 FROM acls a WHERE …)
unfoldable pub is_visible_to : ℕ → Db → Repo → Bool
is_visible_to user_id db r =
    bytes_eq r.visibility visibility_public || any (is_acl r.id user_id) db.acls

unfoldable pub list_repos_for_viewer : ℕ → Sql (List Repo)
list_repos_for_viewer user_id =
    select (λ db. order_by by_name (keep (is_visible_to user_id db) db.repos))
