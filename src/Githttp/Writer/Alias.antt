-- ===== src/Githttp/Writer/Alias.antt =====
-- A repo under its two names. GetRepo strips a trailing `.git`, and the write path does not: it locks
-- and stores under the name of the request.
use gitmote.Common.{
  ℕ, false, [], ◌∷◌, ◌++◌, Bytes, bytes_eq_iff, starts_with, ends_with, codes, ok, ◌≡◌, ◌≢◌, refl,
  arith,
}
use gitmote.Meta.Sql.{World, continue-eq-ok}
use gitmote.Meta.Acls.{get_acl}
use gitmote.Meta.Repos.{get_repo}
use gitmote.Meta.Repos.Names.{get_repo-dot_git, append-ne_self}
use gitmote.Store.{ObjectStore}
use gitmote.Githttp.Writer.{
  PushOp, object_key, is_locked, is_flying, level_or_empty, resolve, Forge, acquire,
}
use gitmote.Githttp.Writer.Exclusion.{begin, Reach, here, next}

-- Begin resolves `<name>.git` to the repo of `<name>`, and keeps the longer name.
resolve-dot_git :
    (name : Bytes) (user : ℕ) (w : World) (op : PushOp)
    → ends_with (codes ".git") name ≡ false
    → (resolve name user w).0 ≡ ok op
    → (resolve (name ++ codes ".git") user w).0
      ≡ ok (record op { repo_name = name ++ codes ".git" })
unfolding resolve
resolve-dot_git name user w op h e =
    let (repo, found, e') = continue-eq-ok (get_repo name w).0 _ (get_repo name w).1 e in
    let v = (get_repo name w).1 in
    let answer = level_or_empty (get_acl repo.id user v).0 (get_acl repo.id user v).1 in
    let (perm, got, made) = continue-eq-ok answer.0 _ answer.1 e' in
    rw (get_repo-dot_git name w h, found, got) (ground (arith, made))

object_key-dot_git :
    (name rel : Bytes)
    → starts_with (name ++ codes "/objects/") (object_key (name ++ codes ".git") rel) ≡ false
unfolding starts_with
object_key-dot_git [] rel = refl
object_key-dot_git (a ∷ name) rel = ground (arith, object_key-dot_git name rel)

resolve-repo_name :
    (name : Bytes) (user : ℕ) (w : World) (op : PushOp)
    → (resolve name user w).0 ≡ ok op
    → op.repo_name ≡ name
unfolding resolve
resolve-repo_name name user w op e =
    let (repo, found, e') = continue-eq-ok (get_repo name w).0 _ (get_repo name w).1 e in
    let v = (get_repo name w).1 in
    let answer = level_or_empty (get_acl repo.id user v).0 (get_acl repo.id user v).1 in
    let (perm, got, made) = continue-eq-ok answer.0 _ answer.1 e' in ground (arith, made)

module _ (store : ObjectStore) where
  -- Two pushes to one repo can be in flight at once, one by `<name>` and one by `<name>.git`: where Begin
  -- resolves the name, and no push is in flight, both pass their locks, and the operations that their
  -- hooks will carry out have the same repo id. And what the second one uploads is stored under keys
  -- that no listing of the repo's objects by `<name>` finds.
  pub two_names_two_locks :
      (name : Bytes) (user : ℕ) (op : PushOp) (n m : Bytes) (f : Forge store)
      → ends_with (codes ".git") name ≡ false
      → (resolve name user f.world).0 ≡ ok op
      → f.flights ≡ []
      → n ≢ m
      → (other : PushOp) × (f' : Forge store) × Reach store f f'
        × (f'.pushes ≡ (m, other) ∷ (n, op) ∷ f.pushes)
        × (f'.flights
            ≡ record { nonce = m; repo_name = name ++ codes ".git" }
              ∷ record { nonce = n; repo_name = name }
              ∷ [])
        × (other.repo_id ≡ op.repo_id)
        × ((rel : Bytes)
            → starts_with (name ++ codes "/objects/") (object_key other.repo_name rel) ≡ false)
  unfolding is_locked is_flying acquire
  two_names_two_locks name user op n m f h e idle distinct =
      let asked = resolve-repo_name name user f.world op e in
      let longer = append-ne_self name (codes ".git") (λ k. cc) in
      let other : PushOp = record op { repo_name = name ++ codes ".git" } in
      let f₁ = acquire store op n f in
      (
        other,
        acquire store other m f₁,
        next (next here (begin f.world name user op n e (rw idle) (rw idle) refl)) (
            begin f.world (name ++ codes ".git") user other m
              (resolve-dot_git name user f.world op h e)
              (rw idle
                (ground (arith, bytes_eq_iff op.repo_name (name ++ codes ".git"), asked, longer)))
              (rw idle (ground (arith, bytes_eq_iff n m))) refl),
        refl,
        ground arith,
        refl,
        object_key-dot_git name,
      )
