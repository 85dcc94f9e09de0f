-- ===== src/Secrets/Service/Opening.antt =====
-- internal/secrets/service.go: what Secrets makes of the rows of a repo.
use gitmote.Common.{
  ℕ, Bool, true, false, List, [], ◌∷◌, Bytes, bytes_eq, Has, map, some, ◌≡◌, ◌⊎◌, inl, inr, refl,
  arith, Bool-cases, sym, ◌∙◌,
}
use gitmote.Meta.Schema.{SecretRow}
use gitmote.Meta.Secrets.{envelope_of}
use gitmote.Ci.EnvSecrets.{Env, assign, lookup}
use gitmote.Ci.EnvSecrets.Keys.{lookup-assign}
use gitmote.Secrets.Keyring.{CryptoStd, Keyring, Outcome, returned, failed, decrypt}
use gitmote.Secrets.Service.{Answer, answered, and_open, envelope, open_all}

module _ (std : CryptoStd) (kr : Keyring) (repo_id : ℕ) where
  -- What a row opens to.
  abbrev pub opening : SecretRow → Outcome Bytes
  opening s = decrypt std kr repo_id s.name (envelope std (envelope_of s))

  and_open_inv :
      (rest : Bytes → Answer Env) (o : Outcome Bytes) (m : Env)
      → and_open std rest o ≡ answered m
      → (v : Bytes) × (o ≡ returned v) × (rest v ≡ answered m)
  and_open_inv rest (failed e) m h = absurd (cc)
  and_open_inv rest (returned v) m h = (v, refl, h)

  -- Secrets fails closed: it returns only if every row opens.
  pub open_all_opens :
      (rows : List SecretRow) (out m : Env) (s : SecretRow)
      → open_all std kr repo_id (map envelope_of rows) out ≡ answered m
      → Has s rows
      → (v : Bytes) × (opening s ≡ returned v)
  unfolding open_all
  open_all_opens [] out m s h there = absurd there
  open_all_opens (t ∷ rows) out m s h (inl e) =
      let (v, opened, rest) = and_open_inv _ (opening t) m h in (v, rw e opened)
  open_all_opens (t ∷ rows) out m s h (inr there) =
      let (v, opened, rest) = and_open_inv _ (opening t) m h in
      open_all_opens rows (assign t.name v out) m s rest there

  pub open_all_returns :
      (rows : List SecretRow) (out : Env)
      → ((s : SecretRow) → Has s rows → (v : Bytes) × (opening s ≡ returned v))
      → (m : Env) × (open_all std kr repo_id (map envelope_of rows) out ≡ answered m)
  unfolding open_all
  open_all_returns [] out h = (out, refl)
  open_all_returns (s ∷ rows) out h =
      let (v, opened) = h s (inl refl) in
      let (m, rest) = open_all_returns rows (assign s.name v out) (λ t there. h t (inr there)) in
      (m, rw opened rest)

  -- A name that no row has keeps its value.
  pub lookup-open_all_none :
      (n : Bytes) (rows : List SecretRow) (out m : Env)
      → ((s : SecretRow) → Has s rows → bytes_eq s.name n ≡ false)
      → open_all std kr repo_id (map envelope_of rows) out ≡ answered m
      → lookup n m ≡ lookup n out
  unfolding open_all
  lookup-open_all_none n [] out m missing h = ground arith
  lookup-open_all_none n (s ∷ rows) out m missing h =
      let (v, opened, rest) = and_open_inv _ (opening s) m h in
      lookup-open_all_none n rows (assign s.name v out) m (λ t there. missing t (inr there)) rest
      ∙ lookup-assign n s.name v out
      ∙ rw (missing s (inl refl)) refl

  same_value : (w v : Bytes) → returned w ≡ returned v → some w ≡ some v
  same_value w v h = cc

  clash : (b : Bool) → b ≡ false → b ≡ true → ⊥
  clash b h k = cc

  -- A name has the value that all its rows open to.
  pub lookup-open_all :
      (n v : Bytes) (rows : List SecretRow) (out m : Env)
      → ((s : SecretRow) → Has s rows → bytes_eq s.name n ≡ true → opening s ≡ returned v)
      → (lookup n out ≡ some v) ⊎ ((s : SecretRow) × Has s rows × (bytes_eq s.name n ≡ true))
      → open_all std kr repo_id (map envelope_of rows) out ≡ answered m
      → lookup n m ≡ some v
  unfolding open_all
  lookup-open_all n v [] out m all (inl e) h = ground arith
  lookup-open_all n v [] out m all (inr (s, there, e)) h = absurd there
  lookup-open_all n v (s ∷ rows) out m all found h =
      let (w, opened, rest) = and_open_inv _ (opening s) m h in
      let onward =
        lookup-open_all n v rows (assign s.name w out) m (λ t there. all t (inr there)) in
      elim (Bool-cases (bytes_eq s.name n)) [
        | inl e ↦
            onward
              (inl (
                lookup-assign n s.name w out
                ∙ rw e (same_value w v (sym opened ∙ all s (inl refl) e))))
              rest
        | inr e ↦ elim found [
          | inl f ↦ onward (inl (lookup-assign n s.name w out ∙ rw e f)) rest
          | inr (t, inl same, g) ↦ absurd (clash (bytes_eq s.name n) e (rw same at g))
          | inr (t, inr there, g) ↦ onward (inr (t, there, g)) rest
        ]
      ]
