-- ===== src/Secrets/Tests.antt =====
-- A keyring over stand-ins for the cryptography, and the theorems of the package at it.
use gitmote.Common.{
  ℕ, ◌+◌, ◌-◌, false, List, [], ◌∷◌, ◌++◌, Bytes, bytes_eq, bytes_eq_iff, bytes_eq_refl, codes,
  length, take, drop, if◌then◌else◌, contains_byte, starts_with, trim_prefix, Option, none, some,
  ◌≡◌, refl, arith, ap,
}
use gitmote.Secrets.Keyring.{
  CryptoStd, Envelope, Keyring, returned, key_of, enabled, encrypt, decrypt, aad,
  new_keyring_from_env, add_variables, add_variable,
}
use gitmote.Secrets.Keyring.Sealing.{decrypt-encrypt, decrypt_bound}

-- A box that carries its additional data in front of the plaintext, and opens for no other.
abbrev pub sealed : (subkey iv plaintext additional : Bytes) → Bytes
sealed subkey iv plaintext additional = length additional ∷ (additional ++ plaintext)

abbrev pub open_box : (subkey iv ct additional : Bytes) → Option Bytes
open_box subkey iv [] additional = none
open_box subkey iv (n ∷ rest) additional =
    if bytes_eq (take n rest) additional then some (drop n rest) else none

take-append_all : (a b : Bytes) → take (length a) (a ++ b) ≡ a
take-append_all [] b = refl
take-append_all (x ∷ a) b = ap (λ r. x ∷ r) (take-append_all a b)

drop-append_all : (a b : Bytes) → drop (length a) (a ++ b) ≡ b
drop-append_all [] b = refl
drop-append_all (x ∷ a) b = drop-append_all a b

abbrev pub one_byte : ℕ → Bytes
one_byte n = (n + 1) ∷ []

abbrev pub byte_value : Bytes → Option ℕ
byte_value [] = none
byte_value (b ∷ s) = some (b - b'0')

pub open-sealed :
    (subkey iv plaintext additional : Bytes)
    → open_box subkey iv (sealed subkey iv plaintext additional) additional ≡ some plaintext
open-sealed subkey iv plaintext additional =
    rw
      (
        take-append_all additional plaintext,
        bytes_eq_refl additional,
        drop-append_all additional plaintext,
      )
      refl

pub sealed_authentic :
    (subkey subkey' iv iv' plaintext additional additional' opened : Bytes)
    → open_box subkey' iv' (sealed subkey iv plaintext additional) additional' ≡ some opened
    → additional' ≡ additional
sealed_authentic subkey subkey' iv iv' plaintext additional additional' opened h =
    ground (arith, take-append_all additional plaintext, bytes_eq_iff additional additional')

pub one_byte_injective : (m n : ℕ) → one_byte m ≡ one_byte n → m ≡ n
one_byte_injective m n h = ground arith

pub one_byte_no_nul : (n : ℕ) → contains_byte 0 (one_byte n) ≡ false
unfolding contains_byte
one_byte_no_nul n = ground arith

abbrev pub std : CryptoStd
std = record {
  hkdf_key = λ master info. master ++ info;
  seal = sealed;
  open_sealed = open_box;
  format_int = one_byte;
  atoi = byte_value;
  base64_decode = λ s. some s;
  trim_space = λ s. s;
  open-seal = open-sealed;
  authentic = sealed_authentic;
  format_injective = one_byte_injective;
  format_no_nul = one_byte_no_nul;
}

abbrev pub key : Bytes
key = codes "0123456789abcdef0123456789abcdef"

abbrev pub keyring : Keyring
keyring = record { keys = (2, key) ∷ (1, key) ∷ []; current = 2 }

abbrev pub env : List (Bytes × Bytes)
env =
    (codes "PATH", codes "/bin")
    ∷ (codes "GITMOTE_CI_SECRET_KEY_V1", key)
    ∷ (codes "GITMOTE_CI_SECRET_KEY_V2", key)
    ∷ []

pub from_env : new_keyring_from_env std env ≡ returned keyring
unfolding new_keyring_from_env add_variables add_variable starts_with trim_prefix
from_env = refl

abbrev repo : ℕ
repo = 7

abbrev pub vector : Bytes
vector = codes "abcdefghijkl"

abbrev pub envelope : Envelope
envelope = record { version = 2; iv = vector; ct = 5 ∷ (8 ∷ 0 ∷ b'K' ∷ 0 ∷ 3 ∷ codes "pw") }

encrypted : encrypt std keyring 7 (codes "K") (codes "pw") vector ≡ returned envelope
unfolding encrypt enabled key_of aad
encrypted = refl

-- The key of version 3 is new.
abbrev rotated : Keyring
rotated = record { keys = (3, key) ∷ (2, key) ∷ []; current = 3 }

still_there : key_of 2 rotated.keys ≡ key_of 2 keyring.keys
unfolding key_of
still_there = refl

decrypt-encrypt_example : decrypt std rotated 7 (codes "K") envelope ≡ returned (codes "pw")
decrypt-encrypt_example =
    decrypt-encrypt std keyring rotated 7 (codes "K") (codes "pw") vector envelope refl encrypted
      still_there

k_no_nul : contains_byte 0 (codes "K") ≡ false
unfolding contains_byte
k_no_nul = refl

opened_again : decrypt std rotated 7 (codes "K") envelope ≡ returned (codes "pw")
unfolding decrypt key_of aad bytes_eq
opened_again = refl

decrypt_bound_example :
    (repo ≡ repo) × (codes "K" ≡ codes "K") × (envelope.version ≡ envelope.version)
decrypt_bound_example =
    decrypt_bound std keyring rotated 7 7 (codes "K") (codes "K") (codes "pw") vector (codes "pw")
      envelope envelope k_no_nul k_no_nul encrypted refl opened_again
