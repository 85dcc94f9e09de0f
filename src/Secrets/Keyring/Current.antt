-- ===== src/Secrets/Keyring/Current.antt =====
-- internal/secrets/keyring.go: the current key of a keyring.
use gitmote.Common.{
  ℕ, ◌≤◌, true, false, List, [], ◌∷◌, Bytes, ltb, ◌==◌, if◌then◌else◌, is_empty, length,
  starts_with, trim_prefix, Option, none, some, ◌≡◌, inl, inr, refl, arith, All, Bool-cases,
}
use gitmote.Secrets.Keyring.{
  CryptoStd, Keyring, Outcome, returned, failed, key_of, enabled, master_key_len, key_env_prefix,
  with_key, with_version, add_variable, and_then, add_variables, new_keyring_from_env,
}

-- A keyring is empty, or its current version is the highest and has a key; every key has 32 bytes.
pub record IsKeyring (kr : Keyring) : Type 0 where
  pub highest : All (λ p. p.0 ≤ kr.current) kr.keys
  pub sized : All (λ p. length p.1 ≡ master_key_len) kr.keys
  pub present : enabled kr ≡ true → (master : Bytes) × (key_of kr.current kr.keys ≡ some master)
  pub bare : enabled kr ≡ false → kr.current ≡ 0

All-le :
    (a b : ℕ) (keys : List (ℕ × Bytes)) → a ≤ b → All (λ p. p.0 ≤ a) keys → All (λ p. p.0 ≤ b) keys
All-le a b [] h k = tt
All-le a b (p ∷ keys) h k = (omega (arith, k.0), All-le a b keys h k.1)

added :
    (kr : Keyring) (v : ℕ) (raw : Bytes)
    → IsKeyring kr
    → length raw ≡ master_key_len
    → IsKeyring
        (record { keys = (v, raw) ∷ kr.keys; current = if ltb kr.current v then v else kr.current })
unfolding enabled key_of
added kr v raw w e = elim (Bool-cases (ltb kr.current v)) [
  | inl g ↦ rw g (record {
    highest = (omega arith, All-le kr.current v kr.keys (ground arith) w.highest);
    sized = (e, w.sized);
    present = λ on. (raw, ground arith);
    bare = λ off. absurd (ground arith);
  })
  | inr g ↦ rw g (record {
    highest = (ground arith, w.highest);
    sized = (e, w.sized);
    present = λ on. elim (Bool-cases (v == kr.current)) [
      | inl same ↦ (raw, rw same refl)
      | inr other ↦ elim (Bool-cases (enabled kr)) [
        | inl had ↦ let (master, k) = w.present had in (master, rw other k)
        | inr off ↦ absurd (ground (arith, w.bare off))
      ]
    ];
    bare = λ off. absurd (ground arith);
  })
]

module _ (std : CryptoStd) where
  with_key-IsKeyring :
      (kr kr' : Keyring) (v : ℕ) (o : Option Bytes)
      → IsKeyring kr
      → with_key std kr v o ≡ returned kr'
      → IsKeyring kr'
  with_key-IsKeyring kr kr' v none w h = absurd (cc)
  with_key-IsKeyring kr kr' v (some raw) w h = elim (Bool-cases (length raw == master_key_len)) [
    | inr e ↦ absurd (ground arith)
    | inl e ↦
        let made : kr' ≡ record {
          keys = (v, raw) ∷ kr.keys;
          current = if ltb kr.current v then v else kr.current;
        } =
          ground arith in
        rw made (added kr v raw w (ground arith))
  ]

  with_version-IsKeyring :
      (kr kr' : Keyring) (val : Bytes) (o : Option ℕ)
      → IsKeyring kr
      → with_version std kr val o ≡ returned kr'
      → IsKeyring kr'
  with_version-IsKeyring kr kr' val none w h = absurd (cc)
  with_version-IsKeyring kr kr' val (some v) w h = elim (Bool-cases (ltb v 1)) [
    | inl e ↦ absurd (ground arith)
    | inr e ↦ with_key-IsKeyring kr kr' v (std.base64_decode (std.trim_space val)) w (rw e at h)
  ]

  add_variable-IsKeyring :
      (kr kr' : Keyring) (name val : Bytes)
      → IsKeyring kr
      → add_variable std kr name val ≡ returned kr'
      → IsKeyring kr'
  unfolding add_variable
  add_variable-IsKeyring kr kr' name val w h = elim (Bool-cases (starts_with key_env_prefix name)) [
    | inr e ↦ rw (← same (rw e at h)) w
    | inl e ↦ elim (Bool-cases (is_empty (std.trim_space val))) [
      | inl f ↦ rw (← same (rw (e, f) at h)) w
      | inr f ↦
          with_version-IsKeyring kr kr' val (std.atoi (trim_prefix key_env_prefix name)) w
            (rw (e, f) at h)
    ]
  ]
    where
      same : returned kr ≡ returned kr' → kr ≡ kr'
      same k = ground arith

  and_then-returned :
      (o : Outcome Keyring) (rest : Keyring → Outcome Keyring) (kr' : Keyring)
      → and_then std o rest ≡ returned kr'
      → (step : Keyring) × (o ≡ returned step) × (rest step ≡ returned kr')
  and_then-returned (failed x) rest kr' h = absurd (cc)
  and_then-returned (returned step) rest kr' h = (step, refl, h)

  add_variables-IsKeyring :
      (env : List (Bytes × Bytes)) (kr kr' : Keyring)
      → IsKeyring kr
      → add_variables std env kr ≡ returned kr'
      → IsKeyring kr'
  unfolding add_variables
  add_variables-IsKeyring [] kr kr' w h = rw (← same) w
    where
      same : kr ≡ kr'
      same = ground arith
  add_variables-IsKeyring ((name, val) ∷ env) kr kr' w h =
      let (step, e, k) =
        and_then-returned (add_variable std kr name val) (add_variables std env) kr' h in
      add_variables-IsKeyring env step kr' (add_variable-IsKeyring kr step name val w e) k

  -- A keyring that NewKeyringFromEnv returns is empty, with the current version 0, or has a key for its
  -- current version, which is the highest that it has; and every key has 32 bytes.
  pub new_keyring_from_env-IsKeyring :
      (env : List (Bytes × Bytes)) (kr : Keyring)
      → new_keyring_from_env std env ≡ returned kr
      → IsKeyring kr
  unfolding new_keyring_from_env enabled
  new_keyring_from_env-IsKeyring env kr h =
      add_variables-IsKeyring env (record { keys = []; current = 0 }) kr
        (record { highest = tt; sized = tt; present = λ on. absurd (cc); bare = λ off. refl }) h
