-- ===== src/Secrets/Service/Setting.antt =====
-- internal/secrets/service.go: Secrets after SetSecret.
use gitmote.Common.{
  ℕ, true, false, List, [], ◌++◌, Bytes, codes, bytes_eq, bytes_eq_iff, bytes_eq_sym, ==-refl,
  ==_iff, Has, map, any, length, some, ◌≡◌, ◌⊎◌, inl, inr, refl, arith, if◌then◌else◌, Bool-cases,
  sym, ◌∙◌, ap,
}
use gitmote.Meta.Schema.{Db, SecretRow}
use gitmote.Meta.Sql.{World, next_fault, later}
use gitmote.Meta.Secrets
use gitmote.Meta.Secrets.{envelope_of, secrets_of, upsert_secret}
use gitmote.Meta.Secrets.Upsert.{
  any-Has, any_none, same_key, upsert_sound, upsert_kept, Has-upsert, secrets_of_sound,
  secrets_of_complete,
}
use gitmote.Meta.Ci.Sweep.{quiet}
use gitmote.Ci.EnvSecrets.{Env, lookup}
use gitmote.Secrets.Keyring.{CryptoStd, Keyring, Envelope, returned, encrypt, enabled, aad, iv_len}
use gitmote.Secrets.Keyring.Current.{IsKeyring}
use gitmote.Secrets.Keyring.Sealing.{decrypt-encrypt}
use gitmote.Secrets.Service.{Answer, answered, valid_name, open_all, set_secret, secrets}
use gitmote.Secrets.Service.Opening.{
  opening, open_all_opens, open_all_returns, lookup-open_all, lookup-open_all_none,
}

-- One row for each repo and name, as the primary key of the table has it.
abbrev pub OneRowEach : List SecretRow → Type 0
OneRowEach rows = (s t : SecretRow) → Has s rows → Has t rows → same_key s t ≡ true → s ≡ t

module _ (std : CryptoStd) (kr : Keyring) (repo_id : ℕ) (name value iv : Bytes) (env : Envelope)
    (db : Db) (clock : ℕ) (sealed : encrypt std kr repo_id name value iv ≡ returned env)
    (size : length iv ≡ iv_len) where
  abbrev new_row : SecretRow
  new_row = record {
    repo_id = repo_id;
    name = name;
    version = env.version;
    iv = env.iv;
    ct = env.ct;
    created_at = clock;
  }

  abbrev after : Db
  after = record db { ci_secrets = upsert_secret new_row db.ci_secrets }

  set_secret-quiet :
      valid_name name ≡ true
      → set_secret std kr repo_id name value iv (quiet db clock) ≡ (answered tt, quiet after clock)
  unfolding set_secret Secrets.set_secret next_fault later
  set_secret-quiet valid = rw (valid, sealed) refl

  secrets-quiet :
      (d : Db)
      → (secrets std kr repo_id (quiet d clock)).0
        ≡ open_all std kr repo_id (map envelope_of (secrets_of repo_id d)) []
  unfolding secrets Secrets.get_secrets next_fault later
  secrets-quiet d = refl

  new_row_opens : opening std kr repo_id new_row ≡ returned value
  new_row_opens = decrypt-encrypt std kr kr repo_id name value iv env size sealed refl

  -- A row of the repo after the call is the new one, or an old one with another name.
  row_after :
      (s : SecretRow)
      → Has s (secrets_of repo_id after)
      → (s ≡ new_row) ⊎ (Has s (secrets_of repo_id db) × (bytes_eq s.name name ≡ false))
  row_after s m =
      let (there, id) = secrets_of_sound repo_id after s m in
      elim (upsert_sound new_row s db.ci_secrets there) [
        | inl e ↦ inl e
        | inr (old, k) ↦ inr (secrets_of_complete repo_id db s old id, rw id at k)
      ]

  new_row_after : Has new_row (secrets_of repo_id after)
  new_row_after =
      secrets_of_complete repo_id after new_row (Has-upsert new_row db.ci_secrets) (==-refl repo_id)

  old_row_after :
      (s : SecretRow)
      → Has s (secrets_of repo_id db)
      → bytes_eq s.name name ≡ false
      → Has s (secrets_of repo_id after)
  old_row_after s m k =
      let (there, id) = secrets_of_sound repo_id db s m in
      secrets_of_complete repo_id after s
        (upsert_kept new_row s db.ci_secrets there (rw (id, k) refl)) id

  module _ (m₀ : Env) (readable : (secrets std kr repo_id (quiet db clock)).0 ≡ answered m₀)
      (one : OneRowEach db.ci_secrets) where
    before : open_all std kr repo_id (map envelope_of (secrets_of repo_id db)) [] ≡ answered m₀
    before = sym (secrets-quiet db) ∙ readable

    opens_after :
        (s : SecretRow)
        → Has s (secrets_of repo_id after)
        → (v : Bytes) × (opening std kr repo_id s ≡ returned v)
    opens_after s m = elim (row_after s m) [
      | inl e ↦ (value, rw e new_row_opens)
      | inr (old, k) ↦ open_all_opens std kr repo_id (secrets_of repo_id db) [] m₀ s before old
    ]

    -- Two rows of the repo with one name are one row.
    same_row :
        (s t : SecretRow)
        → Has s (secrets_of repo_id db)
        → Has t (secrets_of repo_id db)
        → bytes_eq s.name t.name ≡ true
        → s ≡ t
    same_row s t m n e =
        let (there, id) = secrets_of_sound repo_id db s m in
        let (there', id') = secrets_of_sound repo_id db t n in
        one s t there there' (
          rw ((==_iff s.repo_id repo_id).0 id, (==_iff t.repo_id repo_id).0 id', ==-refl repo_id)
            (rw (bytes_eq_sym t.name s.name, e) refl))

    module _ (m : Env)
        (found : open_all std kr repo_id (map envelope_of (secrets_of repo_id after)) []
          ≡ answered m)
        (other : Bytes) where
      lookup_new : bytes_eq name other ≡ true → lookup other m ≡ some value
      lookup_new e =
          lookup-open_all std kr repo_id other value (secrets_of repo_id after) [] m
            (λ s there q. elim (row_after s there) [
              | inl same ↦ rw same new_row_opens
              | inr (old, k) ↦ absurd (
                  ground (
                    arith,
                    bytes_eq_iff s.name name,
                    bytes_eq_iff s.name other,
                    bytes_eq_iff name other,
                  ))
            ])
            (inr (new_row, new_row_after, e)) found

      lookup_old :
          bytes_eq name other ≡ false
          → (t : SecretRow) → Has t (secrets_of repo_id db)
          → bytes_eq t.name other ≡ true
          → lookup other m ≡ lookup other m₀
      lookup_old e t there q =
          let (v, opened) =
            open_all_opens std kr repo_id (secrets_of repo_id db) [] m₀ t before there in
          let other_name : bytes_eq t.name name ≡ false =
            ground (
              arith,
              bytes_eq_iff t.name name,
              bytes_eq_iff t.name other,
              bytes_eq_iff name other,
            ) in
          let same : (s : SecretRow)
              → Has s (secrets_of repo_id db)
              → bytes_eq s.name other ≡ true
              → opening std kr repo_id s ≡ returned v =
            λ s old r.
              rw
                (same_row s t old there (
                  ground (
                    arith,
                    bytes_eq_iff s.name other,
                    bytes_eq_iff t.name other,
                    bytes_eq_iff s.name t.name,
                  )))
                opened in
          lookup-open_all std kr repo_id other v (secrets_of repo_id after) [] m
            (λ s new r. elim (row_after s new) [
              | inl is_new ↦
                  absurd
                    (ground (arith, is_new, bytes_eq_iff s.name other, bytes_eq_iff name other))
              | inr (old, k) ↦ same s old r
            ])
            (inr (t, old_row_after t there other_name, q)) found
          ∙ sym (
              lookup-open_all std kr repo_id other v (secrets_of repo_id db) [] m₀ same
                (inr (t, there, q)) before)

      lookup_none :
          bytes_eq name other ≡ false
          → any (λ (s : SecretRow). bytes_eq s.name other) (secrets_of repo_id db) ≡ false
          → lookup other m ≡ lookup other m₀
      lookup_none e missing =
          lookup-open_all_none std kr repo_id other (secrets_of repo_id after) [] m
            (λ s there. elim (row_after s there) [
              | inl is_new ↦ rw is_new e
              | inr (old, k) ↦ any_none (λ (r : SecretRow). bytes_eq r.name other) _ s missing old
            ])
            found
          ∙ sym (
              lookup-open_all_none std kr repo_id other (secrets_of repo_id db) [] m₀
                (λ s old. any_none (λ (r : SecretRow). bytes_eq r.name other) _ s missing old)
                before)

      lookup_after : lookup other m ≡ (if bytes_eq name other then some value else lookup other m₀)
      lookup_after = elim (Bool-cases (bytes_eq name other)) [
        | inl e ↦ rw e (lookup_new e)
        | inr e ↦
            rw e
              (elim (Bool-cases
                (any (λ (s : SecretRow). bytes_eq s.name other) (secrets_of repo_id db))) [
                  | inl some_row ↦
                      let (t, there, q) =
                        any-Has (λ (s : SecretRow). bytes_eq s.name other) _ some_row in
                      lookup_old e t there q
                  | inr missing ↦ lookup_none e missing
                ])
      ]

    secrets_after :
        valid_name name ≡ true
        → ((set_secret std kr repo_id name value iv (quiet db clock)).0 ≡ answered tt)
          × (m : Env) × ((secrets std kr repo_id
                (set_secret std kr repo_id name value iv (quiet db clock)).1).0
              ≡ answered m)
          × ((other : Bytes)
              → lookup other m ≡ (if bytes_eq name other then some value else lookup other m₀))
    secrets_after valid =
        let done = set_secret-quiet valid in
        let (m, found) =
          open_all_returns std kr repo_id (secrets_of repo_id after) [] opens_after in
        (
          ap (λ (p : Answer (Unit {0}) × World). p.0) done,
          m,
          ap (λ (p : Answer (Unit {0}) × World). (secrets std kr repo_id p.1).0) done
              ∙ secrets-quiet after
              ∙ found,
          lookup_after m found,
        )

-- A keyring that is enabled seals every secret.
encrypt_enabled :
    (std : CryptoStd) (kr : Keyring) (repo_id : ℕ) (name value iv : Bytes)
    → IsKeyring kr
    → enabled kr ≡ true
    → (env : Envelope) × (encrypt std kr repo_id name value iv ≡ returned env)
unfolding encrypt
encrypt_enabled std kr repo_id name value iv w on =
    let (master, k) = w.present on in
    let sub : Bytes = std.hkdf_key master (codes "ci-secret:" ++ std.format_int repo_id) in
    (
      record {
        version = kr.current;
        iv = iv;
        ct = std.seal sub iv value (aad std repo_id name kr.current);
      },
      rw (on, k) refl,
    )

-- Of a keyring that is enabled and as NewKeyringFromEnv makes it, with an IV of the length of AES-GCM,
-- where the table has one row for each repo and name and the secrets of the repo all open: while no
-- statement fails, setting a secret with a valid name succeeds, and then Secrets returns the map of
-- before with the value assigned to the name.
pub secrets-set_secret :
    (std : CryptoStd) (kr : Keyring) (repo_id : ℕ) (name value iv : Bytes) (db : Db) (clock : ℕ)
    (m₀ : Env)
    → IsKeyring kr
    → enabled kr ≡ true
    → length iv ≡ iv_len
    → OneRowEach db.ci_secrets
    → (secrets std kr repo_id (quiet db clock)).0 ≡ answered m₀
    → valid_name name ≡ true
    → ((set_secret std kr repo_id name value iv (quiet db clock)).0 ≡ answered tt)
      × (m : Env) × ((secrets std kr repo_id
            (set_secret std kr repo_id name value iv (quiet db clock)).1).0
          ≡ answered m)
      × ((other : Bytes)
          → lookup other m ≡ (if bytes_eq name other then some value else lookup other m₀))
secrets-set_secret std kr repo_id name value iv db clock m₀ w on size one readable valid =
    let (env, sealed) = encrypt_enabled std kr repo_id name value iv w on in
    secrets_after std kr repo_id name value iv env db clock sealed size m₀ readable one valid
