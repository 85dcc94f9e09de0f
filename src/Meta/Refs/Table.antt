-- ===== src/Meta/Refs/Table.antt =====
-- The table of refs under the statements of casOne.
use gitmote.Common.{
  ℕ, true, false, ◌&&◌, List, [], ◌∷◌, Bytes, bytes_eq, bytes_eq_iff, ◌==◌, if◌then◌else◌, ok, ◌≡◌,
  ◌≢◌, refl, sym, arith, All,
}
use gitmote.Meta.Schema.{Ref}
use gitmote.Meta.Refs.{
  zero_sha, is_ref, select_sha, has_ref, delete_ref, update_ref, insert_ref, write_ref,
}

-- Every stored object id denotes a present ref.
abbrev pub IsStored : List Ref → Type 0
IsStored rs = All (λ r. (r.sha ≢ []) × (r.sha ≢ zero_sha)) rs

-- PRIMARY KEY (repo_id, name)
abbrev pub HasUniqueKeys : List Ref → Type 0
HasUniqueKeys [] = Unit
HasUniqueKeys (r ∷ rs) = (has_ref r.repo_id r.name rs ≡ false) × HasUniqueKeys rs

pub record IsTable (rs : List Ref) : Type 0 where
  pub stored : IsStored rs
  pub unique : HasUniqueKeys rs

pub has_ref-false_of_absent :
    (i : ℕ) (n : Bytes) (rs : List Ref)
    → IsStored rs
    → select_sha i n rs ≡ []
    → has_ref i n rs ≡ false
unfolding has_ref select_sha
has_ref-false_of_absent i n [] h e = refl
has_ref-false_of_absent i n (r ∷ rs) h e = ground (arith, has_ref-false_of_absent i n rs h.1)

select-delete_ref :
    (i j : ℕ) (n k : Bytes) (rs : List Ref)
    → select_sha j k (delete_ref i n rs)
      ≡ (if i == j && bytes_eq n k then [] else select_sha j k rs)
unfolding select_sha delete_ref is_ref
select-delete_ref i j n k [] = ground arith
select-delete_ref i j n k (r ∷ rs) = ground (
  arith,
  select-delete_ref i j n k rs,
  bytes_eq_iff r.name n,
  bytes_eq_iff r.name k,
  bytes_eq_iff n k,
)

select-update_ref :
    (i j : ℕ) (n k sha : Bytes) (ts : ℕ) (rs : List Ref)
    → select_sha j k (update_ref i n sha ts rs)
      ≡ (if i == j && bytes_eq n k && has_ref i n rs then sha else select_sha j k rs)
unfolding select_sha update_ref is_ref has_ref
select-update_ref i j n k sha ts [] = ground arith
select-update_ref i j n k sha ts (r ∷ rs) = ground (
  arith,
  select-update_ref i j n k sha ts rs,
  bytes_eq_iff r.name n,
  bytes_eq_iff r.name k,
  bytes_eq_iff n k,
)

has_ref_of_present :
    (i : ℕ) (n : Bytes) (rs : List Ref) → select_sha i n rs ≢ [] → has_ref i n rs ≡ true
unfolding select_sha has_ref
has_ref_of_present i n [] h = absurd (h refl)
has_ref_of_present i n (r ∷ rs) h = ground (arith, has_ref_of_present i n rs)

select_after_write :
    (i j : ℕ) (n k current next : Bytes) (ts : ℕ) (rs rs' : List Ref)
    → current ≡ select_sha i n rs
    → write_ref i n current next ts rs ≡ ok rs'
    → select_sha j k rs' ≡ (if i == j && bytes_eq n k then next else select_sha j k rs)
unfolding write_ref insert_ref
select_after_write i j n k current [] ts rs rs' c e = ground (arith, select-delete_ref i j n k rs)
select_after_write i j n k [] (b ∷ s) ts rs rs' c e = unfold select_sha is_ref in ground arith
select_after_write i j n k (x ∷ xs) (b ∷ s) ts rs rs' c e =
    ground (arith, select-update_ref i j n k (b ∷ s) ts rs, has_ref_of_present i n rs)

-- What a later SELECT reads after a write, at any repo and name.
pub select-write_ref :
    (i j : ℕ) (n k next : Bytes) (ts : ℕ) (rs rs' : List Ref)
    → write_ref i n (select_sha i n rs) next ts rs ≡ ok rs'
    → select_sha j k rs' ≡ (if i == j && bytes_eq n k then next else select_sha j k rs)
select-write_ref i j n k next ts rs rs' e =
    select_after_write i j n k (select_sha i n rs) next ts rs rs' refl e

insert_ref_total :
    (i : ℕ) (n sha : Bytes) (ts : ℕ) (rs : List Ref)
    → has_ref i n rs ≡ false
    → (rs' : List Ref) × (insert_ref i n sha ts rs ≡ ok rs')
unfolding insert_ref
insert_ref_total i n sha ts rs h =
    (record { repo_id = i; name = n; sha = sha; updated_at = ts } ∷ rs, rw h)

-- On a table the write is never refused: an INSERT meets no row of its key.
pub write_ref_total :
    (i : ℕ) (n current next : Bytes) (ts : ℕ) (rs : List Ref)
    → IsStored rs
    → current ≡ select_sha i n rs
    → (rs' : List Ref) × (write_ref i n current next ts rs ≡ ok rs')
unfolding write_ref
write_ref_total i n current [] ts rs h c = (_, refl)
write_ref_total i n [] (b ∷ s) ts rs h c =
    insert_ref_total i n (b ∷ s) ts rs (has_ref-false_of_absent i n rs h (sym c))
write_ref_total i n (x ∷ xs) (b ∷ s) ts rs h c = (_, refl)

delete_ref-IsStored :
    (i : ℕ) (n : Bytes) (rs : List Ref) → IsStored rs → IsStored (delete_ref i n rs)
unfolding delete_ref
delete_ref-IsStored i n [] h = tt
delete_ref-IsStored i n (r ∷ rs) h = ground (arith, delete_ref-IsStored i n rs h.1)

update_ref-IsStored :
    (i : ℕ) (n sha : Bytes) (ts : ℕ) (rs : List Ref)
    → sha ≢ []
    → sha ≢ zero_sha
    → IsStored rs
    → IsStored (update_ref i n sha ts rs)
unfolding update_ref
update_ref-IsStored i n sha ts [] p q h = tt
update_ref-IsStored i n sha ts (r ∷ rs) p q h =
    ground (arith, update_ref-IsStored i n sha ts rs p q h.1)

has_ref-delete_ref :
    (i j : ℕ) (n k : Bytes) (rs : List Ref)
    → has_ref j k rs ≡ false
    → has_ref j k (delete_ref i n rs) ≡ false
unfolding has_ref delete_ref
has_ref-delete_ref i j n k [] h = refl
has_ref-delete_ref i j n k (r ∷ rs) h = ground (arith, has_ref-delete_ref i j n k rs)

has_ref-update_ref :
    (i j : ℕ) (n k sha : Bytes) (ts : ℕ) (rs : List Ref)
    → has_ref j k (update_ref i n sha ts rs) ≡ has_ref j k rs
unfolding has_ref update_ref is_ref
has_ref-update_ref i j n k sha ts [] = refl
has_ref-update_ref i j n k sha ts (r ∷ rs) = ground (arith, has_ref-update_ref i j n k sha ts rs)

delete_ref-HasUniqueKeys :
    (i : ℕ) (n : Bytes) (rs : List Ref) → HasUniqueKeys rs → HasUniqueKeys (delete_ref i n rs)
unfolding delete_ref
delete_ref-HasUniqueKeys i n [] h = tt
delete_ref-HasUniqueKeys i n (r ∷ rs) h =
    ground
      (arith, delete_ref-HasUniqueKeys i n rs h.1, has_ref-delete_ref i r.repo_id n r.name rs h.0)

update_ref-HasUniqueKeys :
    (i : ℕ) (n sha : Bytes) (ts : ℕ) (rs : List Ref)
    → HasUniqueKeys rs
    → HasUniqueKeys (update_ref i n sha ts rs)
unfolding update_ref
update_ref-HasUniqueKeys i n sha ts [] h = tt
update_ref-HasUniqueKeys i n sha ts (r ∷ rs) h = ground (
  arith,
  update_ref-HasUniqueKeys i n sha ts rs h.1,
  has_ref-update_ref i r.repo_id n r.name sha ts rs,
)

-- A write keeps the table well formed, whatever was read before it.
pub write_ref-IsTable :
    (i : ℕ) (n current next : Bytes) (ts : ℕ) (rs rs' : List Ref)
    → next ≢ zero_sha
    → IsTable rs
    → write_ref i n current next ts rs ≡ ok rs'
    → IsTable rs'
unfolding write_ref insert_ref
write_ref-IsTable i n current [] ts rs rs' p t e =
    ground (arith, delete_ref-IsStored i n rs t.stored, delete_ref-HasUniqueKeys i n rs t.unique)
write_ref-IsTable i n [] (b ∷ s) ts rs rs' p t e = ground arith
write_ref-IsTable i n (x ∷ xs) (b ∷ s) ts rs rs' p t e = ground (
  arith,
  update_ref-IsStored i n (b ∷ s) ts rs (λ h. cc) p t.stored,
  update_ref-HasUniqueKeys i n (b ∷ s) ts rs t.unique,
)
