-- ===== src/Ci/EnvSecrets/Keys.antt =====
-- internal/ci/envsecrets.go: which secrets a variable of the environment adds.
use gitmote.Common.{
  ℕ, true, false, ◌&&◌, List, [], ◌∷◌, ◌++◌, Bytes, bytes_eq, bytes_eq_iff, if◌then◌else◌, is_empty,
  starts_with, trim_prefix-append, cut-append, contains_byte, none, some, ◌≡◌, refl, arith, inl,
  inr, Bool-cases,
}
use gitmote.Ci.EnvSecrets.{
  env_secret_prefix, EnvSecrets, assign, lookup, repo_key, cut_delimiter, key_value, env_of,
  load_variable, load_variables, load_env_secrets, secrets_for,
}

pub lookup-assign {ℓ} :
    {V : Type ℓ} (j k : Bytes) (v : V) (m : List (Bytes × V))
    → lookup j (assign k v m) ≡ (if bytes_eq k j then some v else lookup j m)
unfolding lookup assign
lookup-assign j k v [] = refl
lookup-assign j k v ((i, w) ∷ m) =
    ground (arith, bytes_eq_iff k j, bytes_eq_iff i k, bytes_eq_iff i j, lookup-assign j k v m)

-- The first two underscores in a row are found.
cut_delimiter-append :
    (r s : Bytes)
    → cut_delimiter (r ++ (b'_' ∷ [])) ≡ none
    → cut_delimiter (r ++ (b'_' ∷ b'_' ∷ s)) ≡ some (r, s)
unfolding cut_delimiter
cut_delimiter-append [] s h = refl
cut_delimiter-append (a ∷ []) s h = ground arith
cut_delimiter-append (a ∷ b ∷ r) s h = ground (arith, cut_delimiter-append (b ∷ r) s)

starts_with-append : (p s : Bytes) → starts_with p (p ++ s) ≡ true
unfolding starts_with
starts_with-append [] s = refl
starts_with-append (a ∷ p) s = ground (arith, starts_with-append p s)

contains_byte-append :
    (c : ℕ) (s t : Bytes)
    → contains_byte c s ≡ false
    → contains_byte c t ≡ false
    → contains_byte c (s ++ t) ≡ false
unfolding contains_byte
contains_byte-append c [] t h k = k
contains_byte-append c (a ∷ s) t h k = ground (arith, contains_byte-append c s t)

-- The key of a variable, PREFIX<repo>__<name>
abbrev pub variable_key : (repo name : Bytes) → Bytes
variable_key repo name = env_secret_prefix ++ (repo ++ (b'_' ∷ b'_' ∷ name))

-- A repo segment and a name that the key shows as they are: neither is empty or holds an equals
-- sign, and the repo segment neither holds two underscores in a row nor ends in one.
pub record IsPlain (repo name : Bytes) : Type 0 where
  pub some_repo : is_empty repo ≡ false
  pub some_name : is_empty name ≡ false
  pub repo_equals : contains_byte b'=' repo ≡ false
  pub name_equals : contains_byte b'=' name ≡ false
  pub underscores : cut_delimiter (repo ++ (b'_' ∷ [])) ≡ none

key_value_cut :
    (key val : Bytes)
    → contains_byte b'=' key ≡ false
    → key_value (key ++ (b'=' ∷ val)) ≡ (key, val)
unfolding key_value
key_value_cut key val h = ground (arith, cut-append b'=' key val h)

key_value_lem :
    (repo name val : Bytes)
    → IsPlain repo name
    → key_value (variable_key repo name ++ (b'=' ∷ val)) ≡ (variable_key repo name, val)
unfolding contains_byte
key_value_lem repo name val p = key_value_cut (variable_key repo name) val (
    contains_byte-append b'=' env_secret_prefix (repo ++ (b'_' ∷ b'_' ∷ name)) refl
      (contains_byte-append b'=' repo (b'_' ∷ b'_' ∷ name) p.repo_equals p.name_equals))

load_variable_lem :
    (repo name val : Bytes) (out : EnvSecrets)
    → IsPlain repo name
    → load_variable (variable_key repo name ++ (b'=' ∷ val)) out
      ≡ assign (repo_key repo) (assign name val (env_of (lookup (repo_key repo) out))) out
unfolding load_variable
load_variable_lem repo name val out p =
    rw
      (
        key_value_lem repo name val p,
        starts_with-append env_secret_prefix (repo ++ (b'_' ∷ b'_' ∷ name)),
        trim_prefix-append env_secret_prefix (repo ++ (b'_' ∷ b'_' ∷ name)),
        cut_delimiter-append repo name p.underscores,
        p.some_repo,
        p.some_name,
      )
      refl

load_variables-append :
    (environ : List Bytes) (kv : Bytes) (out : EnvSecrets)
    → load_variables (environ ++ (kv ∷ [])) out ≡ load_variable kv (load_variables environ out)
unfolding load_variables
load_variables-append [] kv out = refl
load_variables-append (x ∷ environ) kv out = load_variables-append environ kv (load_variable x out)

secrets_for-assign :
    (repo : Bytes) (key name val other : Bytes) (out : EnvSecrets)
    → lookup other (secrets_for repo (assign key (assign name val (env_of (lookup key out))) out))
      ≡ (if bytes_eq key (repo_key repo) && bytes_eq name other
          then some val
          else lookup other (secrets_for repo out))
unfolding secrets_for
secrets_for-assign repo key name val other out = elim (Bool-cases (bytes_eq key (repo_key repo))) [
  | inl e ↦
      rw (lookup-assign (repo_key repo) key (assign name val (env_of (lookup key out))) out, e)
        (rw (lookup-assign other name val (env_of (lookup key out)))
          (rw ((bytes_eq_iff key (repo_key repo)).0 e) refl))
  | inr e ↦
      rw (lookup-assign (repo_key repo) key (assign name val (env_of (lookup key out))) out, e) refl
]

-- After the variable of a repo segment and a name that stand in its key as they are, For gives its
-- value under that name to every repo whose key is that of the segment, whatever came before; and
-- under each other name, and to each other repo, what it gave without the variable.
pub secrets_for-load_env_secrets :
    (environ : List Bytes) (segment name val repo other : Bytes)
    → IsPlain segment name
    → lookup other (
        secrets_for repo
          (load_env_secrets (environ ++ ((variable_key segment name ++ (b'=' ∷ val)) ∷ []))))
      ≡ (if bytes_eq (repo_key segment) (repo_key repo) && bytes_eq name other
          then some val
          else lookup other (secrets_for repo (load_env_secrets environ)))
unfolding load_env_secrets
secrets_for-load_env_secrets environ segment name val repo other p =
    rw
      (
        load_variables-append environ (variable_key segment name ++ (b'=' ∷ val)) [],
        load_variable_lem segment name val (load_variables environ []) p,
      )
      (secrets_for-assign repo (repo_key segment) name val other (load_variables environ []))
