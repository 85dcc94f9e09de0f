-- ===== src/Meta/Tests.antt =====
-- A small forge, runs of the metadata layer on it, and its theorems at those inputs.
use gitmote.Common.{
  ℕ, true, false, List, [], ◌∷◌, ◌++◌, bytes_eq, codes, none, Result, ok, err, ◌≡◌, refl, arith,
  starts_with, contains_byte, trim_suffix, ap, sym, Has, not_found, ◌↔◌,
}
use gitmote.Common.Sort.{IsSorted}
use gitmote.Meta.Schema.{Db, Repo, User, empty_db, perm_write}
use gitmote.Meta.Sql.{World, next_fault, later, in_tx}
use gitmote.Meta.Refs.{
  RefUpdate, zero_sha, normalize_sha, is_ref, select_sha, has_ref, delete_ref, update_ref,
  insert_ref, write_ref, cas_one, cas_all, cas_refs,
}
use gitmote.Meta.Refs.Table.{IsTable}
use gitmote.Meta.Refs.Atomic.{CasRefs, cas_refs-push_refs}
use gitmote.Meta.Acls.{is_acl, select_perm, can_read}
use gitmote.Meta.Acls.Rules.{level}
use gitmote.Meta.Repos.{
  visibility_private, create_repo, get_repo, insert_repo, validate_repo_name, normalize_repo_name,
  has_repo_name, is_reserved, next_repo_id, by_name, list_repos_for_viewer,
}
use gitmote.Meta.Repos.Names.{HasUniqueNames, get_repo-create_repo, get_repo_stored_name}
use gitmote.Meta.Repos.Listing.{list_repos_for_viewer-can_read}

abbrev pub app : Repo
app = record {
  id = 1;
  name = codes "app";
  default_branch = codes "main";
  visibility = codes "private";
  created_at = 0;
}

abbrev pub site : Repo
site = record {
  id = 2;
  name = codes "site";
  default_branch = codes "main";
  visibility = codes "public";
  created_at = 0;
}

abbrev pub alice : User
alice = record { id = 1; handle = codes "alice"; is_admin = false; created_at = 0 }

abbrev pub forge : Db
forge = record empty_db {
  repos = app ∷ site ∷ [];
  refs = record { repo_id = 1; name = codes "main"; sha = codes "a1"; updated_at = 0 } ∷ [];
  users = alice ∷ [];
  acls = record { repo_id = 1; user_id = 1; perm = perm_write } ∷ [];
}

abbrev pub running : World
running = record { db = forge; faults = []; clock = 10 }

-- Two updates: main moves on, and a branch is created.
abbrev pub two_updates : List RefUpdate
two_updates =
    record { name = codes "main"; old = codes "a1"; new = codes "b2" }
    ∷ record { name = codes "dev"; old = zero_sha; new = codes "c3" }
    ∷ []

pub forge-IsTable : IsTable forge.refs
unfolding has_ref
forge-IsTable = record { stored = ((λ e. cc, λ e. cc), tt); unique = (refl, tt) }

two_updates_run : (cas_refs 1 two_updates running).0 ≡ ok tt
unfolding cas_refs cas_all cas_one in_tx next_fault later normalize_sha select_sha is_ref has_ref
    bytes_eq write_ref insert_ref update_ref delete_ref
two_updates_run = refl

cas_refs-push_refs_example :
    CasRefs 1 two_updates running
      (cas_refs 1 two_updates running).0
      (cas_refs 1 two_updates running).1
cas_refs-push_refs_example = cas_refs-push_refs 1 two_updates running forge-IsTable

nobody_anonymous : (repo_id : ℕ) → level running repo_id 0 ≡ none
unfolding select_perm is_acl
nobody_anonymous repo_id = ground arith

list_repos_for_viewer-can_read_example :
    (rs : List Repo) × ((list_repos_for_viewer 1 running).0 ≡ ok rs)
    × IsSorted by_name rs
    × ((r : Repo) → Has r rs ↔ (Has r running.db.repos × ((can_read r 1 running).0 ≡ ok true)))
unfolding next_fault
list_repos_for_viewer-can_read_example =
    list_repos_for_viewer-can_read 1 running refl nobody_anonymous

abbrev tool : Repo
tool = record {
  id = 3;
  name = codes "tool";
  default_branch = codes "main";
  visibility = visibility_private;
  created_at = 10;
}

abbrev created : World
created = record running { db = record forge { repos = tool ∷ app ∷ site ∷ [] } }

create_tool : create_repo (codes "tool.git") [] running ≡ (ok tool, created)
unfolding create_repo insert_repo validate_repo_name normalize_repo_name has_repo_name is_reserved
    next_repo_id bytes_eq starts_with contains_byte trim_suffix next_fault later
create_tool = refl

forge-HasUniqueNames : HasUniqueNames forge.repos
unfolding has_repo_name bytes_eq
forge-HasUniqueNames = (refl, (refl, tt))

get_repo-create_repo_example :
    (validate_repo_name tool.name ≡ true)
    × (has_repo_name tool.name running.db.repos ≡ false)
    × (tool.visibility ≡ visibility_private)
    × HasUniqueNames created.db.repos
    × ((get_repo (codes "tool.git") created).0 ≡ ok tool)
get_repo-create_repo_example =
    get_repo-create_repo (codes "tool.git") [] running created tool forge-HasUniqueNames
      (ap (λ (p : Result Repo × World). p.0) create_tool)
      (ap (λ (p : Result Repo × World). p.1.db) (sym create_tool)) refl

abbrev odd : Repo
odd = record {
  id = 3;
  name = codes "t.git";
  default_branch = codes "main";
  visibility = visibility_private;
  created_at = 10;
}

create_odd :
    create_repo (codes "t" ++ codes ".git" ++ codes ".git") [] running
    ≡ (ok odd, record running { db = record forge { repos = odd ∷ app ∷ site ∷ [] } })
unfolding create_repo insert_repo validate_repo_name normalize_repo_name has_repo_name is_reserved
    next_repo_id bytes_eq starts_with contains_byte trim_suffix next_fault later
create_odd = refl

t_is_free : has_repo_name (codes "t") running.db.repos ≡ false
unfolding has_repo_name bytes_eq
t_is_free = refl

get_repo_stored_name_example :
    (odd.name ≡ codes "t" ++ codes ".git")
    × ((get_repo odd.name
          (record running { db = record forge { repos = odd ∷ app ∷ site ∷ [] } })).0
        ≡ err not_found)
get_repo_stored_name_example =
    get_repo_stored_name (codes "t") [] running
      (record running { db = record forge { repos = odd ∷ app ∷ site ∷ [] } }) odd
      (ap (λ (p : Result Repo × World). p.0) create_odd)
      (ap (λ (p : Result Repo × World). p.1.db) (sym create_odd)) t_is_free refl
