-- ===== src/Secrets/Service.antt =====
-- internal/secrets/service.go: CI secrets, sealed on write and opened on read.
pub mod Opening
pub mod Setting
pub mod Tests
use gitmote.Common.{
  ℕ, Bool, true, false, not, ◌&&◌, ◌||◌, List, [], ◌∷◌, Bytes, bytes_eq, ◌==◌, leb, if◌then◌else◌,
  starts_with, codes, Result, ok, err, Error,
}
use gitmote.Meta.Sql.{World, Sql}
use gitmote.Meta.Secrets
use gitmote.Meta.Secrets.{CiSecret}
use gitmote.Ci.EnvSecrets.{Env, assign}
use gitmote.Secrets.Keyring.{
  CryptoStd, Keyring, Envelope, Outcome, returned, failed, SecretsError, encrypt, decrypt,
}

-- What a method returns: a value, an error for the name, one of the keyring, or one of the store.
pub data Answer (A : Type 0) : Type 0 where
  answered : A → Answer A
  bad_name : Answer A
  keyring_failed : SecretsError → Answer A
  store_failed : Error → Answer A

abbrev is_letter : ℕ → Bool
is_letter c = (leb b'A' c && leb c b'Z') || (leb b'a' c && leb c b'z') || c == b'_'

abbrev is_word : ℕ → Bool
is_word c = is_letter c || (leb b'0' c && leb c b'9')

abbrev all_word : Bytes → Bool
all_word [] = true
all_word (c ∷ s) = is_word c && all_word s

-- nameRe.MatchString
unfoldable pub is_identifier : Bytes → Bool
is_identifier [] = false
is_identifier (c ∷ s) = is_letter c && all_word s

-- validName; `true` is a nil error
unfoldable pub valid_name : Bytes → Bool
valid_name name =
    if not (is_identifier name)
    then false
    else if starts_with (codes "GITMOTE_") name || bytes_eq name (codes "WORKER_SECRET")
    then false
    else true

abbrev pub of_store {ℓ} : Result (Unit {ℓ}) → Answer (Unit {0})
of_store (ok u) = answered tt
of_store (err e) = store_failed e

module _ (std : CryptoStd) where
  abbrev stored : ℕ → Bytes → Outcome Envelope → World → Answer (Unit {0}) × World
  stored repo_id name (failed e) w = (keyring_failed e, w)
  stored repo_id name (returned env) w =
      let (r, w') = Secrets.set_secret repo_id name env.version env.iv env.ct w in (of_store r, w')

  -- SetSecret; the random IV is an input.
  unfoldable pub set_secret :
      Keyring → (repo_id : ℕ) (name value iv : Bytes) → World → Answer (Unit {0}) × World
  set_secret kr repo_id name value iv w =
      if valid_name name
      then stored repo_id name (encrypt std kr repo_id name value iv) w
      else (bad_name, w)

  abbrev pub envelope : CiSecret → Envelope
  envelope e = record { version = e.version; iv = e.iv; ct = e.ct }

  abbrev and_open : (Bytes → Answer Env) → Outcome Bytes → Answer Env
  and_open rest (failed e) = keyring_failed e
  and_open rest (returned v) = rest v

  -- the loop of Secrets
  unfoldable pub open_all : Keyring → ℕ → List CiSecret → Env → Answer Env
  open_all kr repo_id [] out = answered out
  open_all kr repo_id (e ∷ rest) out =
      and_open (λ v. open_all kr repo_id rest (assign e.name v out))
        (decrypt std kr repo_id e.name (envelope e))

  abbrev opened : Keyring → ℕ → Result (List CiSecret) → Answer Env
  opened kr repo_id (err e) = store_failed e
  opened kr repo_id (ok rows) = open_all kr repo_id rows []

  unfoldable pub secrets : Keyring → ℕ → World → Answer Env × World
  secrets kr repo_id w = let (r, w') = Secrets.get_secrets repo_id w in (opened kr repo_id r, w')

-- ListSecretNames and DeleteSecret pass the store's answer on.
unfoldable pub list_secret_names : ℕ → Sql (List Bytes)
list_secret_names repo_id = Secrets.list_secret_names repo_id

unfoldable pub delete_secret : ℕ → Bytes → Sql (Unit {0})
delete_secret repo_id name = Secrets.delete_secret repo_id name
