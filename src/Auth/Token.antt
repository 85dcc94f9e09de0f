-- ===== src/Auth/Token.antt =====
-- internal/auth/token.go: the shape of a personal access token, `gmt_<selector>.<secret>`.
pub mod Shape
use gitmote.Common.{
  ℕ, ◌+◌, ◌-◌, Bool, true, false, ◌||◌, List, [], ◌∷◌, ◌++◌, Bytes, starts_with, trim_prefix, cut,
  codes, ltb, if◌then◌else◌, is_empty, Option, none, some,
}
use Prim.Native.Nat.{◌/◌, ◌%◌}

abbrev pub token_prefix : Bytes
token_prefix = codes "gmt_"

-- encoding/hex
unfoldable pub hex_digit : ℕ → ℕ
hex_digit d = if ltb d 10 then b'0' + d else b'a' + (d - 10)

unfoldable pub hex_encode : Bytes → Bytes
hex_encode [] = []
hex_encode (b ∷ bs) = hex_digit (b / 16) ∷ hex_digit (b % 16) ∷ hex_encode bs

pub record Minted : Type 0 where
  pub raw : Bytes
  pub selector : Bytes
  pub verifier : Bytes

-- The random bytes of the two halves are inputs, and `hash` is the hexadecimal SHA-256.
unfoldable pub mint : (hash : Bytes → Bytes) (selector_bytes secret_bytes : Bytes) → Minted
mint hash selector_bytes secret_bytes =
    let sel = hex_encode selector_bytes in
    let secret = hex_encode secret_bytes in
    record {
      raw = token_prefix ++ (sel ++ (b'.' ∷ secret));
      selector = sel;
      verifier = hash secret;
    }

abbrev non_empty_halves : Option (Bytes × Bytes) → Option (Bytes × Bytes)
non_empty_halves none = none
non_empty_halves (some (selector, secret)) =
    if is_empty selector || is_empty secret then none else some (selector, secret)

unfoldable pub split : Bytes → Option (Bytes × Bytes)
split raw =
    if starts_with token_prefix raw
    then non_empty_halves (cut b'.' (trim_prefix token_prefix raw))
    else none
