-- ===== src/Auth/Token/Shape.antt =====
-- Minting and splitting a token.
use Prim.Native.Nat.{◌/◌, ◌%◌}
use gitmote.Common.{
  ℕ, ◌<◌, [], ◌∷◌, ◌++◌, Bytes, starts_with, trim_prefix, cut, some, ◌≡◌, ◌≢◌, refl, arith, All,
}
use gitmote.Auth.Token.{token_prefix, hex_digit, hex_encode, mint, split}

abbrev pub IsByte : ℕ → Type 0
IsByte b = b < 256

hex_digit-ne-dot : (d : ℕ) → d < 16 → hex_digit d ≢ b'.'
unfolding hex_digit
hex_digit-ne-dot d h = ground arith

abbrev NoDot : Bytes → Type 0
NoDot s = All (λ b. b ≢ b'.') s

hex_encode-NoDot : (s : Bytes) → All IsByte s → NoDot (hex_encode s)
unfolding hex_encode
hex_encode-NoDot [] h = tt
hex_encode-NoDot (b ∷ s) h = (
  hex_digit-ne-dot (b / 16) (omega arith),
  (hex_digit-ne-dot (b % 16) (omega arith), hex_encode-NoDot s h.1),
)

cut-NoDot : (s t : Bytes) → NoDot s → cut b'.' (s ++ (b'.' ∷ t)) ≡ some (s, t)
unfolding cut
cut-NoDot [] t h = refl
cut-NoDot (a ∷ s) t h = ground (arith, cut-NoDot s t h.1)

hex_encode-ne-nil : (s : Bytes) → s ≢ [] → hex_encode s ≢ []
unfolding hex_encode
hex_encode-ne-nil [] h e = h refl
hex_encode-ne-nil (b ∷ s) h e = cc

split_prefixed :
    (s t : Bytes)
    → NoDot s
    → s ≢ []
    → t ≢ []
    → split (token_prefix ++ (s ++ (b'.' ∷ t))) ≡ some (s, t)
unfolding split starts_with trim_prefix
split_prefixed [] t h p q = absurd (p refl)
split_prefixed (a ∷ s) [] h p q = absurd (q refl)
split_prefixed (a ∷ s) (b ∷ t) h p q = rw (cut-NoDot (a ∷ s) (b ∷ t) h)

-- A minted token splits into its selector and the secret that its verifier is the hash of.
pub split-mint :
    (hash : Bytes → Bytes) (selector_bytes secret_bytes : Bytes)
    → selector_bytes ≢ []
    → secret_bytes ≢ []
    → All IsByte selector_bytes
    → (secret : Bytes) × (split (mint hash selector_bytes secret_bytes).raw
        ≡ some ((mint hash selector_bytes secret_bytes).selector, secret))
      × ((mint hash selector_bytes secret_bytes).verifier ≡ hash secret)
unfolding mint
split-mint hash sel secret p q h = (
  hex_encode secret,
  split_prefixed (hex_encode sel) (hex_encode secret) (hex_encode-NoDot sel h)
      (hex_encode-ne-nil sel p) (hex_encode-ne-nil secret q),
  refl,
)
