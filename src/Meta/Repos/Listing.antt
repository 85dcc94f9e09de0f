-- ===== src/Meta/Repos/Listing.antt =====
-- The dashboard's list of repos against the repo read rule.
use gitmote.Common.{
  ℕ, true, false, List, [], ◌∷◌, any, arith, refl, sym, ap, ◌∙◌, ◌≡◌, ◌↔◌, ok, none, Has, Has-keep,
  keep,
}
use gitmote.Common.Sort.{
  order_by, Has-order_by, IsSorted, order_by-IsSorted, bytes_le_total, bytes_le_trans,
}
use gitmote.Meta.Schema.{Acl, Repo}
use gitmote.Meta.Sql.{World, next_fault}
use gitmote.Meta.Acls.{is_public, is_acl, select_perm, can_read}
use gitmote.Meta.Acls.Rules.{may_read, some_level, level, can_read-may_read}
use gitmote.Meta.Repos.{by_name, is_visible_to, list_repos_for_viewer}

any-select_perm :
    (i u : ℕ) (rows : List Acl) → any (is_acl i u) rows ≡ some_level (select_perm i u rows)
unfolding select_perm
any-select_perm i u [] = refl
any-select_perm i u (a ∷ rows) = ground (arith, any-select_perm i u rows)

-- No row of acls grants a level to user 0, the anonymous viewer.
abbrev pub NoAnonymousGrant : World → Type 0
NoAnonymousGrant w = (repo_id : ℕ) → level w repo_id 0 ≡ none

visible-may_read :
    (r : Repo) (u : ℕ) (w : World) → NoAnonymousGrant w → is_visible_to u w.db r ≡ may_read w r u
unfolding is_visible_to is_public
visible-may_read r u w h = ground (arith, any-select_perm r.id u w.db.acls, h r.id)

-- ListReposForViewer cannot drift from CanRead: if no statement fails and no grant names user 0, the
-- list has exactly the repos of the table on which CanRead answers yes, in the order of their names.
pub list_repos_for_viewer-can_read :
    (u : ℕ) (w : World)
    → next_fault w.faults ≡ false
    → NoAnonymousGrant w
    → (rs : List Repo) × ((list_repos_for_viewer u w).0 ≡ ok rs)
      × IsSorted by_name rs
      × ((r : Repo) → Has r rs ↔ (Has r w.db.repos × ((can_read r u w).0 ≡ ok true)))
unfolding list_repos_for_viewer
list_repos_for_viewer-can_read u w q h =
    let rows : List Repo = keep (is_visible_to u w.db) w.db.repos in
    (
      order_by by_name rows,
      rw q,
      order_by-IsSorted by_name (λ a b. bytes_le_total a.name b.name)
          (λ a b c. bytes_le_trans a.name b.name c.name) rows,
      λ r. (there r, back r),
    )
  where
    there :
        (r : Repo)
        → Has r (order_by by_name (keep (is_visible_to u w.db) w.db.repos))
        → Has r w.db.repos × ((can_read r u w).0 ≡ ok true)
    there r k =
        let (old, seen) = (Has-keep _ r w.db.repos).0 ((Has-order_by by_name r _).0 k) in
        (old, can_read-may_read r u w q ∙ ap ok (sym (visible-may_read r u w h) ∙ seen))

    back :
        (r : Repo)
        → Has r w.db.repos × ((can_read r u w).0 ≡ ok true)
        → Has r (order_by by_name (keep (is_visible_to u w.db) w.db.repos))
    back r (old, yes') = (Has-order_by by_name r _).1 (
        (Has-keep _ r w.db.repos).1
          (old, ground (arith, can_read-may_read r u w q, visible-may_read r u w h)))
