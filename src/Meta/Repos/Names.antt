-- ===== src/Meta/Repos/Names.antt =====
-- Creating a repo, and finding it by its name.
use gitmote.Common.{
  true, false, List, [], ◌∷◌, ◌++◌, Bytes, bytes_eq_iff, bytes_eq_refl, codes, ends_with,
  trim_suffix-append, trim_suffix_none, ok, err, not_found, none, ◌≡◌, ◌≢◌, refl, ap, length,
  length-append, arith,
}
use gitmote.Meta.Schema.{Repo}
use gitmote.Meta.Sql.{World, IsQuiet, next_fault}
use gitmote.Meta.Repos.{
  visibility_private, normalize_repo_name, validate_repo_name, has_repo_name, insert_repo,
  create_repo, repo_named, get_repo,
}

-- repos.name is UNIQUE
abbrev pub HasUniqueNames : List Repo → Type 0
HasUniqueNames [] = Unit
HasUniqueNames (r ∷ rs) = (has_repo_name r.name rs ≡ false) × HasUniqueNames rs

-- If CreateRepo returns a repo, its name is valid and new, it is private, names are still unique, and
-- GetRepo finds it by the name that was asked for, while no statement fails.
pub get_repo-create_repo :
    (name branch : Bytes) (w v : World) (r : Repo)
    → HasUniqueNames w.db.repos
    → (create_repo name branch w).0 ≡ ok r
    → v.db ≡ (create_repo name branch w).1.db
    → IsQuiet v
    → (validate_repo_name r.name ≡ true)
      × (has_repo_name r.name w.db.repos ≡ false)
      × (r.visibility ≡ visibility_private)
      × HasUniqueNames v.db.repos
      × ((get_repo name v).0 ≡ ok r)
unfolding create_repo insert_repo get_repo repo_named next_fault
get_repo-create_repo name branch w v r unique h same q = (
  ground arith,
  ground arith,
  ground arith,
  ground arith,
  ground (arith, bytes_eq_refl (normalize_repo_name name)),
)

-- A clone of `<repo>.git` resolves to `<repo>`: GetRepo reads both names alike, if the repo's name does
-- not itself end in `.git`.
pub get_repo-dot_git :
    (name : Bytes) (w : World)
    → ends_with (codes ".git") name ≡ false
    → get_repo (name ++ codes ".git") w ≡ get_repo name w
unfolding get_repo normalize_repo_name
get_repo-dot_git name w h =
    rw (trim_suffix-append (codes ".git") name, trim_suffix_none (codes ".git") name h)

repo_named-none :
    (name : Bytes) (rs : List Repo) → has_repo_name name rs ≡ false → repo_named name rs ≡ none
unfolding has_repo_name repo_named
repo_named-none name [] h = refl
repo_named-none name (r ∷ rs) h = ground (arith, repo_named-none name rs)

pub append-ne_self : (n s : Bytes) → s ≢ [] → n ++ s ≢ n
append-ne_self n [] h e = h refl
append-ne_self n (a ∷ s) h e = omega (arith, ap length e, length-append n (a ∷ s))

-- Only one `.git` is stripped. A repo that was created as `<n>.git.git` is stored as `<n>.git`, and
-- GetRepo does not find it by that stored name unless another repo is named `<n>`.
pub get_repo_stored_name :
    (n branch : Bytes) (w v : World) (r : Repo)
    → (create_repo (n ++ codes ".git" ++ codes ".git") branch w).0 ≡ ok r
    → v.db ≡ (create_repo (n ++ codes ".git" ++ codes ".git") branch w).1.db
    → has_repo_name n w.db.repos ≡ false
    → IsQuiet v
    → (r.name ≡ n ++ codes ".git") × ((get_repo r.name v).0 ≡ err not_found)
unfolding create_repo insert_repo get_repo repo_named next_fault normalize_repo_name
get_repo_stored_name n branch w v r h same fresh q =
    let once = trim_suffix-append (codes ".git") n in
    let twice = trim_suffix-append (codes ".git") (n ++ codes ".git") in
    let stored : r.name ≡ n ++ codes ".git" = ground (arith, twice) in
    let other : n ++ codes ".git" ≢ n = append-ne_self n (codes ".git") (λ e. cc) in
    (
      stored,
      ground (
        arith,
        once,
        repo_named-none n w.db.repos fresh,
        bytes_eq_iff (n ++ codes ".git") n,
        other,
      ),
    )
