-- ===== src/Meta/Acls.antt =====
-- internal/meta/acls.go: grants of users on repos, and the repo read rule.
pub mod Rules
use gitmote.Common.{
  ℕ, Bool, true, false, ◌&&◌, ◌||◌, List, [], ◌∷◌, Bytes, bytes_eq, codes, ◌==◌, if◌then◌else◌,
  keep, Result, ok, err, not_found, check_violation, Option, none, some,
}
use gitmote.Common.Sort.{order_by, bytes_le}
use gitmote.Meta.Schema.{Db, Acl, User, Repo, Perm, perm_read, perm_write, perm_admin}
use gitmote.Meta.Sql.{Sql, pure, raise, select, exec, or_not_found, ◌>>=◌}

-- Repo.Public; meta.VisibilityPublic
abbrev pub visibility_public : Bytes
visibility_public = codes "public"

unfoldable pub is_public : Repo → Bool
is_public r = bytes_eq r.visibility visibility_public

-- CHECK (perm IN ('read','write','admin'))
unfoldable pub is_perm : Perm → Bool
is_perm p = bytes_eq p perm_read || bytes_eq p perm_write || bytes_eq p perm_admin

-- WHERE repo_id = ? AND user_id = ?
unfoldable pub is_acl : ℕ → ℕ → Acl → Bool
is_acl repo_id user_id a = a.repo_id == repo_id && a.user_id == user_id

unfoldable pub select_perm : ℕ → ℕ → List Acl → Option Perm
select_perm repo_id user_id [] = none
select_perm repo_id user_id (a ∷ as') =
    if is_acl repo_id user_id a then some a.perm else select_perm repo_id user_id as'

-- INSERT … ON CONFLICT(repo_id, user_id) DO UPDATE SET perm = excluded.perm
unfoldable pub upsert_acl : ℕ → ℕ → Perm → List Acl → List Acl
upsert_acl repo_id user_id perm [] =
    record { repo_id = repo_id; user_id = user_id; perm = perm } ∷ []
upsert_acl repo_id user_id perm (a ∷ as') =
    if is_acl repo_id user_id a
    then record a { perm = perm } ∷ as'
    else a ∷ upsert_acl repo_id user_id perm as'

unfoldable pub set_acl : ℕ → ℕ → Perm → Sql (Unit {0})
set_acl repo_id user_id perm = exec λ db.
    if is_perm perm
    then ok (record db { acls = upsert_acl repo_id user_id perm db.acls }, tt)
    else err check_violation

-- DELETE FROM acls WHERE repo_id = ? AND user_id = ?
unfoldable pub without_acl : ℕ → ℕ → List Acl → List Acl
without_acl repo_id user_id [] = []
without_acl repo_id user_id (a ∷ as') =
    let rest = without_acl repo_id user_id as' in
    if is_acl repo_id user_id a then rest else a ∷ rest

unfoldable pub delete_acl : ℕ → ℕ → Sql (Unit {0})
delete_acl repo_id user_id =
    exec λ db. ok (record db { acls = without_acl repo_id user_id db.acls }, tt)

unfoldable pub get_acl : ℕ → ℕ → Sql Perm
get_acl repo_id user_id = do
  found ← select (λ db. select_perm repo_id user_id db.acls)
  or_not_found found

-- CanRead turns ErrNotFound into "no", and passes any other error on.
unfoldable pub found_acl : Result Perm → Sql Bool
found_acl (ok p) = pure true
found_acl (err not_found) = pure false
found_acl (err e) = raise e

unfoldable pub can_read : Repo → ℕ → Sql Bool
can_read repo user_id =
    if is_public repo then pure true else if user_id == 0 then pure false else λ w.
    (let (r, w') = get_acl repo.id user_id w in found_acl r w')

-- meta.ACL: a grant joined to the handle of its user
pub record Grant : Type 0 where
  pub user_id : ℕ
  pub handle : Bytes
  pub perm : Perm

unfoldable pub handle_of : ℕ → List User → Option Bytes
handle_of user_id [] = none
handle_of user_id (u ∷ us) = if u.id == user_id then some u.handle else handle_of user_id us

abbrev joined : Acl → Option Bytes → List Grant → List Grant
joined a none rest = rest
joined a (some handle) rest = record { user_id = a.user_id; handle = handle; perm = a.perm } ∷ rest

-- FROM acls a JOIN users u ON u.id = a.user_id WHERE a.repo_id = ?
unfoldable pub grants : ℕ → List User → List Acl → List Grant
grants repo_id users [] = []
grants repo_id users (a ∷ as') =
    let rest = grants repo_id users as' in
    if a.repo_id == repo_id then joined a (handle_of a.user_id users) rest else rest

unfoldable pub list_acls : ℕ → Sql (List Grant)
list_acls repo_id =
    select (λ db. order_by (λ a b. bytes_le a.handle b.handle) (grants repo_id db.users db.acls))
