-- ===== src/Meta/Refs.antt =====
-- internal/meta/refs.go: refs, and the compare-and-swap that moves them.
pub mod Table
pub mod Atomic
use gitmote.Common.{
  ℕ, Bool, true, false, ◌&&◌, ◌||◌, not, List, [], ◌∷◌, Bytes, bytes_eq, codes, ◌==◌, if◌then◌else◌,
  Result, ok, err, unique_violation, cas_mismatch, map, is_empty, keep, any,
}
use gitmote.Common.Sort.{order_by, bytes_le}
use gitmote.Meta.Schema.{Db, Ref}
use gitmote.Meta.Sql.{Sql, pure, raise, select, exec, in_tx, now, ◌>>=◌, ◌>>◌}

abbrev pub zero_sha : Bytes
zero_sha = codes "0000000000000000000000000000000000000000"

pub record RefUpdate : Type 0 where
  pub name : Bytes
  pub old : Bytes
  pub new : Bytes

unfoldable pub normalize_sha : Bytes → Bytes
normalize_sha sha = if bytes_eq sha zero_sha then [] else sha

unfoldable pub absent_as_zero : Bytes → Bytes
absent_as_zero sha = if is_empty sha then zero_sha else sha

-- WHERE repo_id = ? AND name = ?
unfoldable pub is_ref : ℕ → Bytes → Ref → Bool
is_ref repo_id name r = r.repo_id == repo_id && bytes_eq r.name name

-- SELECT sha FROM refs WHERE repo_id = ? AND name = ?; empty when there is no row
unfoldable pub select_sha : ℕ → Bytes → List Ref → Bytes
select_sha repo_id name [] = []
select_sha repo_id name (r ∷ rs) =
    if is_ref repo_id name r then r.sha else select_sha repo_id name rs

unfoldable pub has_ref : ℕ → Bytes → List Ref → Bool
has_ref repo_id name [] = false
has_ref repo_id name (r ∷ rs) = is_ref repo_id name r || has_ref repo_id name rs

-- DELETE FROM refs WHERE repo_id = ? AND name = ?
unfoldable pub delete_ref : ℕ → Bytes → List Ref → List Ref
delete_ref repo_id name [] = []
delete_ref repo_id name (r ∷ rs) =
    let rest = delete_ref repo_id name rs in if is_ref repo_id name r then rest else r ∷ rest

-- UPDATE refs SET sha = ?, updated_at = ? WHERE repo_id = ? AND name = ?
unfoldable pub update_ref : ℕ → Bytes → Bytes → ℕ → List Ref → List Ref
update_ref repo_id name sha ts [] = []
update_ref repo_id name sha ts (r ∷ rs) =
    (if is_ref repo_id name r then record r { sha = sha; updated_at = ts } else r)
    ∷ update_ref repo_id name sha ts rs

-- INSERT INTO refs; (repo_id, name) is the primary key
unfoldable pub insert_ref : ℕ → Bytes → Bytes → ℕ → List Ref → Result (List Ref)
insert_ref repo_id name sha ts rs =
    if has_ref repo_id name rs
    then err unique_violation
    else ok (record { repo_id = repo_id; name = name; sha = sha; updated_at = ts } ∷ rs)

abbrev with_refs : Db → Result (List Ref) → Result (Db × Unit {0})
with_refs db (ok rs) = ok (record db { refs = rs }, tt)
with_refs db (err e) = err e

-- the three branches of casOne's switch
unfoldable pub write_ref : ℕ → Bytes → (current next : Bytes) → ℕ → List Ref → Result (List Ref)
write_ref repo_id name current next ts rs =
    if is_empty next
    then ok (delete_ref repo_id name rs)
    else if is_empty current
    then insert_ref repo_id name next ts rs
    else ok (update_ref repo_id name next ts rs)

unfoldable pub cas_one : ℕ → ℕ → RefUpdate → Sql (Unit {0})
cas_one repo_id ts u = do
  current ← select (λ db. select_sha repo_id u.name db.refs)
  let want = normalize_sha u.old
  if bytes_eq (normalize_sha current) want
      then exec
          (λ db. with_refs db (write_ref repo_id u.name current (normalize_sha u.new) ts db.refs))
      else raise (cas_mismatch u.name want (normalize_sha current))

-- the loop of CASRefs
unfoldable pub cas_all : ℕ → ℕ → List RefUpdate → Sql (Unit {0})
cas_all repo_id ts [] = pure tt
cas_all repo_id ts (u ∷ us) = do cas_one repo_id ts u; cas_all repo_id ts us

unfoldable pub cas_refs : ℕ → List RefUpdate → Sql (Unit {0})
cas_refs repo_id updates =
    if is_empty updates then pure tt else in_tx (do ts ← now; cas_all repo_id ts updates)

unfoldable pub cas_ref : ℕ → (name old new : Bytes) → Sql (Unit {0})
cas_ref repo_id name old new = cas_refs repo_id (record { name = name; old = old; new = new } ∷ [])

abbrev ref_le : Ref → Ref → Bool
ref_le a b = bytes_le a.name b.name

unfoldable pub list_refs : ℕ → Sql (List Ref)
list_refs repo_id = select (λ db. order_by ref_le (keep (λ r. r.repo_id == repo_id) db.refs))
