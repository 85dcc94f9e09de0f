-- ===== src/Ci/EnvSecrets.antt =====
-- internal/ci/envsecrets.go: CI secrets that the operator supplies in the environment.
pub mod Keys
use gitmote.Common.{
  ℕ, ◌-◌, Bool, true, false, ◌&&◌, ◌||◌, List, [], ◌∷◌, Bytes, bytes_eq, ◌==◌, leb, if◌then◌else◌,
  is_empty, starts_with, trim_prefix, cut, map, Option, none, some, codes,
}
use gitmote.Common.Sort.{bytes_le, order_by}

abbrev pub env_secret_prefix : Bytes
env_secret_prefix = codes "GITMOTE_REPO_SECRET_"

-- A map[string]string, as its entries with the latest assignment of each key once.
abbrev pub Env : Type 0
Env = List (Bytes × Bytes)

-- m[key] = val
unfoldable pub assign {ℓ} : {V : Type ℓ} → Bytes → V → List (Bytes × V) → List (Bytes × V)
assign key val [] = (key, val) ∷ []
assign key val ((k, v) ∷ m) = if bytes_eq k key then (key, val) ∷ m else (k, v) ∷ assign key val m

-- m[key]
unfoldable pub lookup {ℓ} : {V : Type ℓ} → Bytes → List (Bytes × V) → Option V
lookup key [] = none
lookup key ((k, v) ∷ m) = if bytes_eq k key then some v else lookup key m

-- EnvSecrets
abbrev pub EnvSecrets : Type 0
EnvSecrets = List (Bytes × Env)

-- strings.ToUpper on an ASCII byte
abbrev pub upper : ℕ → ℕ
upper c = if leb b'a' c && leb c b'z' then c - 32 else c

-- repoKey, for a name of ASCII bytes
unfoldable pub repo_key : Bytes → Bytes
repo_key name = map (λ c. upper (if c == b'-' then b'_' else c)) name

add_head : ℕ → Option (Bytes × Bytes) → Option (Bytes × Bytes)
add_head a none = none
add_head a (some (s, t)) = some (a ∷ s, t)

-- strings.Cut(s, "__")
unfoldable pub cut_delimiter : Bytes → Option (Bytes × Bytes)
unfolding add_head
cut_delimiter [] = none
cut_delimiter (a ∷ []) = none
cut_delimiter (a ∷ b ∷ s) =
    if a == b'_' && b == b'_' then some ([], s) else add_head a (cut_delimiter (b ∷ s))

abbrev or_whole : Bytes → Option (Bytes × Bytes) → Bytes × Bytes
or_whole kv none = (kv, [])
or_whole kv (some p) = p

-- strings.Cut(kv, "="), whose first result is the whole text where there is none
unfoldable pub key_value : Bytes → Bytes × Bytes
key_value kv = or_whole kv (cut b'=' kv)

abbrev pub env_of : Option Env → Env
env_of none = []
env_of (some m) = m

abbrev pub add_secret : Option (Bytes × Bytes) → Bytes → EnvSecrets → EnvSecrets
add_secret none val out = out
add_secret (some (repo, name)) val out =
    if is_empty repo || is_empty name
    then out
    else assign (repo_key repo) (assign name val (env_of (lookup (repo_key repo) out))) out

-- the body of the loop of LoadEnvSecrets
unfoldable pub load_variable : Bytes → EnvSecrets → EnvSecrets
load_variable kv out =
    let (key, val) = key_value kv in
    if starts_with env_secret_prefix key
    then add_secret (cut_delimiter (trim_prefix env_secret_prefix key)) val out
    else out

unfoldable pub load_variables : List Bytes → EnvSecrets → EnvSecrets
load_variables [] out = out
load_variables (kv ∷ environ) out = load_variables environ (load_variable kv out)

unfoldable pub load_env_secrets : List Bytes → EnvSecrets
load_env_secrets environ = load_variables environ []

-- For, where a missing key gives a nil map
unfoldable pub secrets_for : Bytes → EnvSecrets → Env
secrets_for repo_name e = env_of (lookup (repo_key repo_name) e)

-- Redacted
unfoldable pub redacted : EnvSecrets → List (Bytes × List Bytes)
redacted e =
    map (λ (p : Bytes × Env). (p.0, order_by bytes_le (map (λ (q : Bytes × Bytes). q.0) p.1))) e
