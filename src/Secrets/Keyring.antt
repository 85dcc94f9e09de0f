-- ===== src/Secrets/Keyring.antt =====
-- internal/secrets/keyring.go: envelopes under the server's master keys.
pub mod Sealing
pub mod Current
use gitmote.Common.{
  ℕ, Bool, true, false, not, ◌||◌, List, [], ◌∷◌, ◌++◌, Bytes, codes, leb, ltb, ◌==◌, if◌then◌else◌,
  is_empty, length, starts_with, trim_prefix, contains_byte, Option, none, some, ◌≡◌, ◌≢◌,
}

abbrev pub key_env_prefix : Bytes
key_env_prefix = codes "GITMOTE_CI_SECRET_KEY_V"

abbrev pub master_key_len : ℕ
master_key_len = 32

abbrev pub iv_len : ℕ
iv_len = 12

-- What the keyring takes from the standard library: the HKDF subkey for a master key and an info,
-- AES-GCM under a subkey with its IV and additional data, the decimal rendering of numbers, Atoi on
-- numbers that are not negative, the decoder of base64, and strings.TrimSpace. What Seal made opens
-- under the same subkey, IV and additional data, and opens under no other additional data.
pub record CryptoStd : Type 0 where
  pub hkdf_key : (master info : Bytes) → Bytes
  pub seal : (subkey iv plaintext additional : Bytes) → Bytes
  pub open_sealed : (subkey iv ct additional : Bytes) → Option Bytes
  pub format_int : ℕ → Bytes
  pub atoi : Bytes → Option ℕ
  pub base64_decode : Bytes → Option Bytes
  pub trim_space : Bytes → Bytes
  pub open-seal :
      (subkey iv plaintext additional : Bytes)
      → open_sealed subkey iv (seal subkey iv plaintext additional) additional ≡ some plaintext
  pub authentic :
      (subkey subkey' iv iv' plaintext additional additional' opened : Bytes)
      → open_sealed subkey' iv' (seal subkey iv plaintext additional) additional' ≡ some opened
      → additional' ≡ additional
  pub format_injective : (m n : ℕ) → format_int m ≡ format_int n → m ≡ n
  pub format_no_nul : (n : ℕ) → contains_byte 0 (format_int n) ≡ false

-- secrets.Envelope
pub record Envelope : Type 0 where
  pub version : ℕ
  pub iv : Bytes
  pub ct : Bytes

pub record Keyring : Type 0 where
  pub keys : List (ℕ × Bytes)
  pub current : ℕ

-- The errors of the package, apart by their cause.
pub data SecretsError : Type 0 where
  no_master_key unknown_version bad_iv decrypt_failed : SecretsError
  bad_version bad_base64 bad_length : SecretsError

pub data Outcome (A : Type 0) : Type 0 where
  returned : A → Outcome A
  failed : SecretsError → Outcome A

-- k.keys[version]; the latest assignment comes first
unfoldable pub key_of : ℕ → List (ℕ × Bytes) → Option Bytes
key_of version [] = none
key_of version ((v, k) ∷ m) = if v == version then some k else key_of version m

unfoldable pub enabled : Keyring → Bool
enabled kr = not (is_empty kr.keys)

module _ (std : CryptoStd) where
  open std use {hkdf_key, seal, open_sealed, format_int, atoi, base64_decode, trim_space}

  unfoldable pub aad : (repo_id : ℕ) (name : Bytes) (version : ℕ) → Bytes
  aad repo_id name version = format_int repo_id ++ (0 ∷ (name ++ (0 ∷ format_int version)))

  -- gcm, as far as the subkey
  abbrev subkey : (repo_id : ℕ) (master : Bytes) → Bytes
  subkey repo_id master = hkdf_key master (codes "ci-secret:" ++ format_int repo_id)

  abbrev encrypt_under : Keyring → ℕ → Bytes → Bytes → Bytes → Option Bytes → Outcome Envelope
  encrypt_under kr repo_id name plaintext iv none = failed unknown_version
  encrypt_under kr repo_id name plaintext iv (some master) = returned (record {
    version = kr.current;
    iv = iv;
    ct = seal (subkey repo_id master) iv plaintext (aad repo_id name kr.current);
  })

  -- The random IV is an input.
  unfoldable pub encrypt : Keyring → (repo_id : ℕ) (name plaintext iv : Bytes) → Outcome Envelope
  encrypt kr repo_id name plaintext iv =
      if enabled kr
      then encrypt_under kr repo_id name plaintext iv (key_of kr.current kr.keys)
      else failed no_master_key

  abbrev opened : Option Bytes → Outcome Bytes
  opened none = failed decrypt_failed
  opened (some plaintext) = returned plaintext

  abbrev decrypt_under : ℕ → Bytes → Envelope → Option Bytes → Outcome Bytes
  decrypt_under repo_id name e none = failed unknown_version
  decrypt_under repo_id name e (some master) =
      opened (open_sealed (subkey repo_id master) e.iv e.ct (aad repo_id name e.version))

  unfoldable pub decrypt : Keyring → (repo_id : ℕ) (name : Bytes) → Envelope → Outcome Bytes
  decrypt kr repo_id name e =
      if length e.iv == iv_len
      then decrypt_under repo_id name e (key_of e.version kr.keys)
      else failed bad_iv

  abbrev with_key : Keyring → ℕ → Option Bytes → Outcome Keyring
  with_key kr v none = failed bad_base64
  with_key kr v (some raw) =
      if length raw == master_key_len
      then returned (record {
        keys = (v, raw) ∷ kr.keys;
        current = if ltb kr.current v then v else kr.current;
      })
      else failed bad_length

  abbrev with_version : Keyring → Bytes → Option ℕ → Outcome Keyring
  with_version kr val none = failed bad_version
  with_version kr val (some v) =
      if ltb v 1 then failed bad_version else with_key kr v (base64_decode (trim_space val))

  -- a turn of the loop of NewKeyringFromEnv, on a variable as os.Environ and Cut give it
  unfoldable pub add_variable : Keyring → Bytes → Bytes → Outcome Keyring
  add_variable kr name val =
      if not (starts_with key_env_prefix name)
      then returned kr
      else if is_empty (trim_space val)
      then returned kr
      else with_version kr val (atoi (trim_prefix key_env_prefix name))

  abbrev and_then : Outcome Keyring → (Keyring → Outcome Keyring) → Outcome Keyring
  and_then (failed e) rest = failed e
  and_then (returned kr) rest = rest kr

  unfoldable pub add_variables : List (Bytes × Bytes) → Keyring → Outcome Keyring
  add_variables [] kr = returned kr
  add_variables ((name, val) ∷ env) kr = and_then (add_variable kr name val) (add_variables env)

  unfoldable pub new_keyring_from_env : List (Bytes × Bytes) → Outcome Keyring
  new_keyring_from_env env = add_variables env (record { keys = []; current = 0 })
