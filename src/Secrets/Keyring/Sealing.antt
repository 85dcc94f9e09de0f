-- ===== src/Secrets/Keyring/Sealing.antt =====
-- internal/secrets/keyring.go: what an envelope opens to, and for whom.
use gitmote.Common.{
  ℕ, false, ◌∷◌, ◌++◌, Bytes, length, cut, contains_byte, some, ◌≡◌, sym, ap, ◌∙◌, arith,
  Option-cases, inl, inr, cut-append,
}
use gitmote.Secrets.Keyring.{
  CryptoStd, Envelope, Keyring, returned, key_of, iv_len, aad, subkey, encrypt, opened, decrypt,
}

module _ (std : CryptoStd) where
  open std use {format_int, format_no_nul, format_injective, open-seal, authentic}

  aad_injective :
      (i j v u : ℕ) (n m : Bytes)
      → contains_byte 0 n ≡ false
      → contains_byte 0 m ≡ false
      → aad std i n v ≡ aad std j m u
      → (i ≡ j) × (n ≡ m) × (v ≡ u)
  unfolding aad
  aad_injective i j v u n m hn hm e =
      let heads =
        sym (cut-append 0 (format_int i) (n ++ (0 ∷ format_int v)) (format_no_nul i))
        ∙ ap (cut 0) e
        ∙ cut-append 0 (format_int j) (m ++ (0 ∷ format_int u)) (format_no_nul j) in
      let first : format_int i ≡ format_int j = ground (arith, heads) in
      let rest : n ++ (0 ∷ format_int v) ≡ m ++ (0 ∷ format_int u) = ground (arith, heads) in
      let tails =
        sym (cut-append 0 n (format_int v) hn)
        ∙ ap (cut 0) rest
        ∙ cut-append 0 m (format_int u) hm in
      (
        format_injective i j first,
        ground (arith, tails),
        format_injective v u (ground (arith, tails)),
      )

  encrypt_cases :
      (kr : Keyring) (i : ℕ) (n p iv : Bytes) (e : Envelope)
      → encrypt std kr i n p iv ≡ returned e
      → (master : Bytes) × (key_of kr.current kr.keys ≡ some master)
        × (e.version ≡ kr.current)
        × (e.iv ≡ iv)
        × (e.ct ≡ std.seal (subkey std i master) iv p (aad std i n kr.current))
  unfolding encrypt
  encrypt_cases kr i n p iv e h = elim (Option-cases (key_of kr.current kr.keys)) [
    | inl k ↦ absurd (ground arith)
    | inr (master, k) ↦ (master, k, ground arith, ground arith, ground arith)
  ]

  -- What Encrypt sealed under an IV of 12 bytes, Decrypt opens for the same repo and name, under any
  -- keyring that still has the key of the envelope's version, whatever its current version is.
  pub decrypt-encrypt :
      (kr kr' : Keyring) (repo_id : ℕ) (name plaintext iv : Bytes) (e : Envelope)
      → length iv ≡ iv_len
      → encrypt std kr repo_id name plaintext iv ≡ returned e
      → key_of e.version kr'.keys ≡ key_of e.version kr.keys
      → decrypt std kr' repo_id name e ≡ returned plaintext
  unfolding decrypt
  decrypt-encrypt kr kr' repo_id name plaintext iv e size h same =
      let (master, k, version, vector, text) = encrypt_cases kr repo_id name plaintext iv e h in
      let kept : key_of e.version kr'.keys ≡ some master =
        same ∙ ap (λ v. key_of v kr.keys) version ∙ k in
      let sound =
        open-seal (subkey std repo_id master) iv plaintext (aad std repo_id name kr.current) in
      rw kept (rw (vector, text, version, size) (ap (opened std) sound))

  -- An envelope opens for no other repo, name or version than it was sealed for, if the names hold no NUL
  -- byte: whatever repo, name, version and IV its ciphertext is filed under, and under whatever keys,
  -- Decrypt succeeds only for those that it was sealed for.
  pub decrypt_bound :
      (kr kr' : Keyring) (i j : ℕ) (n m p iv q : Bytes) (e moved : Envelope)
      → contains_byte 0 n ≡ false
      → contains_byte 0 m ≡ false
      → encrypt std kr i n p iv ≡ returned e
      → moved.ct ≡ e.ct
      → decrypt std kr' j m moved ≡ returned q
      → (j ≡ i) × (m ≡ n) × (moved.version ≡ e.version)
  unfolding decrypt
  decrypt_bound kr kr' i j n m p iv q e moved hn hm h same d =
      let (master, k, version, vector, text) = encrypt_cases kr i n p iv e h in
      elim (Option-cases (key_of moved.version kr'.keys)) [
        | inl none' ↦ absurd (ground arith)
        | inr (master', k') ↦
            elim (Option-cases (
              std.open_sealed (subkey std j master') moved.iv moved.ct
                (aad std j m moved.version))) [
                  | inl fails ↦ absurd (ground arith)
                  | inr (found, opens) ↦
                      let sealed = sym (same ∙ text) in
                      let (a, b, c) = aad_injective j i moved.version kr.current m n hm hn (
                        authentic (subkey std i master) (subkey std j master') iv moved.iv p
                          (aad std i n kr.current) (aad std j m moved.version) found
                          (ap
                              (λ ct.
                                std.open_sealed (subkey std j master') moved.iv ct
                                  (aad std j m moved.version))
                              sealed
                            ∙ opens)) in
                      (a, b, c ∙ sym version)
                ]
      ]
