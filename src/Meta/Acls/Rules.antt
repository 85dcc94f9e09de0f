-- ===== src/Meta/Acls/Rules.antt =====
-- Grants as a map from repo and user to a level, and the repo read rule.
use gitmote.Common.{
  ℕ, Bool, true, false, ◌&&◌, ◌||◌, List, [], ◌∷◌, ◌==◌, if◌then◌else◌, arith, ◌≡◌, Error, ok, err,
  driver, Option, none, some, ◌⊎◌,
}
use gitmote.Meta.Schema.{Acl, Repo, Perm}
use gitmote.Meta.Sql.{World, next_fault, or_not_found}
use gitmote.Meta.Acls.{
  is_public, is_perm, is_acl, select_perm, upsert_acl, set_acl, without_acl, delete_acl, get_acl,
  found_acl, can_read,
}

select-upsert_acl :
    (i j u v : ℕ) (p : Perm) (rows : List Acl)
    → select_perm j v (upsert_acl i u p rows)
      ≡ (if i == j && u == v then some p else select_perm j v rows)
unfolding select_perm upsert_acl is_acl
select-upsert_acl i j u v p [] = ground arith
select-upsert_acl i j u v p (a ∷ rows) = ground (arith, select-upsert_acl i j u v p rows)

select-without_acl :
    (i j u v : ℕ) (rows : List Acl)
    → select_perm j v (without_acl i u rows)
      ≡ (if i == j && u == v then none else select_perm j v rows)
unfolding select_perm without_acl is_acl
select-without_acl i j u v [] = ground arith
select-without_acl i j u v (a ∷ rows) = ground (arith, select-without_acl i j u v rows)

-- The level that a user holds on a repo, if any.
abbrev pub level : World → ℕ → ℕ → Option Perm
level w repo_id user_id = select_perm repo_id user_id w.db.acls

-- After SetACL returns nil, the user holds the level that was set, which is read, write or admin,
-- and every other user and repo has the level of before.
pub level-set_acl :
    (i u : ℕ) (p : Perm) (w : World)
    → (set_acl i u p w).0 ≡ ok tt
    → (is_perm p ≡ true)
      × ((j v : ℕ)
          → level (set_acl i u p w).1 j v ≡ (if i == j && u == v then some p else level w j v))
unfolding set_acl
level-set_acl i u p w h =
    (ground arith, λ j v. ground (arith, select-upsert_acl i j u v p w.db.acls))

-- After DeleteACL returns nil, the user holds no level on the repo, and every other user and repo
-- has the level of before.
pub level-delete_acl :
    (i u : ℕ) (w : World)
    → (delete_acl i u w).0 ≡ ok tt
    → (j v : ℕ) → level (delete_acl i u w).1 j v ≡ (if i == j && u == v then none else level w j v)
unfolding delete_acl
level-delete_acl i u w h j v = ground (arith, select-without_acl i j u v w.db.acls)

-- If SetACL or DeleteACL returns an error, every level is that of before.
pub level-acl_failed :
    (i u : ℕ) (p : Perm) (w : World) (e : Error)
    → ((set_acl i u p w).0 ≡ err e → (set_acl i u p w).1.db ≡ w.db)
      × ((delete_acl i u w).0 ≡ err e → (delete_acl i u w).1.db ≡ w.db)
unfolding set_acl delete_acl
level-acl_failed i u p w e = (λ h. ground arith, λ h. ground arith)

abbrev pub some_level : Option Perm → Bool
some_level none = false
some_level (some p) = true

-- The repo read rule: anyone reads a public repo, and a known user with any level a private one.
abbrev pub may_read : World → Repo → ℕ → Bool
may_read w repo user_id =
    is_public repo || (if user_id == 0 then false else some_level (level w repo.id user_id))

-- GetACL changes no table, and returns the level, or ErrNotFound if the user holds none; a failure
-- of its statement is passed on.
pub get_acl-level :
    (i u : ℕ) (w : World)
    → (((get_acl i u w).0 ≡ err driver) × (next_fault w.faults ≡ true))
      ⊎ ((get_acl i u w).0 ≡ (or_not_found (level w i u) w).0) × (next_fault w.faults ≡ false)
unfolding get_acl
get_acl-level i u w = ground arith

pub db-get_acl : (i u : ℕ) (w : World) → (get_acl i u w).1.db ≡ w.db
unfolding get_acl
db-get_acl i u w = ground arith

pub can_read-may_read :
    (repo : Repo) (u : ℕ) (w : World)
    → next_fault w.faults ≡ false
    → (can_read repo u w).0 ≡ ok (may_read w repo u)
unfolding can_read get_acl found_acl
can_read-may_read repo u w q = ground arith

pub can_read_sound :
    (repo : Repo) (u : ℕ) (w : World) → (can_read repo u w).0 ≡ ok true → may_read w repo u ≡ true
unfolding can_read get_acl found_acl
can_read_sound repo u w h = ground arith

pub db-can_read : (repo : Repo) (u : ℕ) (w : World) → (can_read repo u w).1.db ≡ w.db
unfolding can_read get_acl found_acl
db-can_read repo u w = ground arith
