-- ===== src/Meta/Secrets/Upsert.antt =====
-- internal/meta/secrets.go: the rows after SetSecret.
use gitmote.Common.{
  ℕ, Bool, true, false, List, [], ◌∷◌, ◌==◌, any, keep, Has, Has-keep, ◌≡◌, ◌⊎◌, inl, inr, refl,
  arith, Bool-cases,
}
use gitmote.Common.Sort.{Has-order_by}
use gitmote.Meta.Schema.{Db, SecretRow}
use gitmote.Meta.Secrets.{is_secret, replace_secret, upsert_secret, by_name, secrets_of}

pub any-Has :
    {A : Type 0} (p : A → Bool) (rows : List A)
    → any p rows ≡ true
    → (s : A) × Has s rows × (p s ≡ true)
any-Has p [] h = absurd (cc)
any-Has p (s ∷ rows) h = elim (Bool-cases (p s)) [
  | inl e ↦ (s, inl refl, e)
  | inr e ↦ let (t, m, q) = any-Has p rows (rw e at h) in (t, inr m, q)
]

pub any_none :
    {A : Type 0} (p : A → Bool) (rows : List A) (s : A)
    → any p rows ≡ false
    → Has s rows
    → p s ≡ false
any_none p [] s h m = absurd m
any_none p (t ∷ rows) s h (inl e) = rw e (ground arith)
any_none p (t ∷ rows) s h (inr m) = any_none p rows s (ground arith) m

-- The row is for the same repo and name.
abbrev pub same_key : SecretRow → SecretRow → Bool
same_key row s = is_secret row.repo_id row.name s

replace_sound :
    (row s : SecretRow) (rows : List SecretRow)
    → Has s (replace_secret row rows)
    → (s ≡ row) ⊎ (Has s rows × (same_key row s ≡ false))
unfolding replace_secret
replace_sound row s [] m = absurd m
replace_sound row s (t ∷ rows) (inl e) = elim (Bool-cases (same_key row t)) [
  | inl k ↦ inl (rw k at e)
  | inr k ↦ let same : s ≡ t = rw k at e in inr (inl same, rw same k)
]
replace_sound row s (t ∷ rows) (inr m) = elim (replace_sound row s rows m) [
  | inl e ↦ inl e
  | inr (there, k) ↦ inr (inr there, k)
]

replace_kept :
    (row s : SecretRow) (rows : List SecretRow)
    → Has s rows
    → same_key row s ≡ false
    → Has s (replace_secret row rows)
unfolding replace_secret
replace_kept row s [] m k = absurd m
replace_kept row s (t ∷ rows) (inl e) k = inl (rw (← e, k) refl)
replace_kept row s (t ∷ rows) (inr m) k = inr (replace_kept row s rows m k)

Has-replace :
    (row : SecretRow) (rows : List SecretRow)
    → any (same_key row) rows ≡ true
    → Has row (replace_secret row rows)
unfolding replace_secret
Has-replace row [] h = absurd (cc)
Has-replace row (t ∷ rows) h = elim (Bool-cases (same_key row t)) [
  | inl k ↦ inl (rw k refl)
  | inr k ↦ inr (Has-replace row rows (rw k at h))
]

pub upsert_sound :
    (row s : SecretRow) (rows : List SecretRow)
    → Has s (upsert_secret row rows)
    → (s ≡ row) ⊎ (Has s rows × (same_key row s ≡ false))
unfolding upsert_secret
upsert_sound row s rows m = elim (Bool-cases (any (same_key row) rows)) [
  | inl e ↦ replace_sound row s rows (rw e at m)
  | inr e ↦
      let there : Has s (row ∷ rows) = rw e at m in
      elim there [ inl same ↦ inl same | inr old ↦ inr (old, any_none (same_key row) rows s e old) ]
]

pub upsert_kept :
    (row s : SecretRow) (rows : List SecretRow)
    → Has s rows
    → same_key row s ≡ false
    → Has s (upsert_secret row rows)
unfolding upsert_secret
upsert_kept row s rows m k = elim (Bool-cases (any (same_key row) rows)) [
  | inl e ↦ rw e (replace_kept row s rows m k)
  | inr e ↦ rw e (inr m)
]

pub Has-upsert : (row : SecretRow) (rows : List SecretRow) → Has row (upsert_secret row rows)
unfolding upsert_secret
Has-upsert row rows = elim (Bool-cases (any (same_key row) rows)) [
  | inl e ↦ rw e (Has-replace row rows e)
  | inr e ↦ rw e (inl refl)
]

-- The rows of a repo are those with its id.
pub secrets_of_sound :
    (repo_id : ℕ) (db : Db) (s : SecretRow)
    → Has s (secrets_of repo_id db)
    → Has s db.ci_secrets × ((s.repo_id == repo_id) ≡ true)
unfolding secrets_of
secrets_of_sound repo_id db s m =
    (Has-keep (λ (r : SecretRow). r.repo_id == repo_id) s db.ci_secrets).0
      ((Has-order_by by_name s (keep (λ (r : SecretRow). r.repo_id == repo_id) db.ci_secrets)).0 m)

pub secrets_of_complete :
    (repo_id : ℕ) (db : Db) (s : SecretRow)
    → Has s db.ci_secrets
    → (s.repo_id == repo_id) ≡ true
    → Has s (secrets_of repo_id db)
unfolding secrets_of
secrets_of_complete repo_id db s m e =
    (Has-order_by by_name s (keep (λ (r : SecretRow). r.repo_id == repo_id) db.ci_secrets)).1
      ((Has-keep (λ (r : SecretRow). r.repo_id == repo_id) s db.ci_secrets).1 (m, e))
