-- ===== src/Ci/Dispatcher/Minting.antt =====
-- internal/auth/guard.go as the Minter of internal/ci/dispatcher.go.
use gitmote.Common.{ℕ, Bool, List, Bytes, Option, ◌≡◌, inl, inr, refl, Bool-cases}
use gitmote.Meta.Schema.{Db, TokenRow}
use gitmote.Meta.Sql.{World, next_fault, later}
use gitmote.Meta.Users.{create_scoped_token, insert_token, has_selector}
use gitmote.Meta.Ci.Sweep.{quiet}
use gitmote.Auth.Token.{mint}
use gitmote.Auth.Guard.{Std, mint_scoped}

module _ (std : Std) (sel sec : Bytes) (user_id : ℕ) (label : Bytes) (scope : Option ℕ)
    (read_only : Bool) (expires_at : Option ℕ) where
  -- Minting writes the table of tokens at most.
  pub mint_scoped_tokens :
      (w : World)
      → let after = (mint_scoped std sel sec user_id label scope read_only expires_at w).1.db in
        after ≡ record w.db { tokens = after.tokens }
  unfolding mint_scoped create_scoped_token insert_token
  mint_scoped_tokens w = elim (Bool-cases (next_fault w.faults)) [
    | inl e ↦ rw e refl
    | inr e ↦ elim (Bool-cases (has_selector (mint std.sha256_hex sel sec).selector w.db.tokens)) [
      | inl g ↦ rw (e, g) refl
      | inr g ↦ rw (e, g) refl
    ]
  ]

  pub mint_scoped_calm :
      (db : Db) (clock : ℕ)
      → (tokens : List TokenRow) × ((mint_scoped std sel sec user_id label scope read_only
            expires_at
            (quiet db clock)).1
          ≡ quiet (record db { tokens = tokens }) clock)
  unfolding mint_scoped create_scoped_token insert_token next_fault later
  mint_scoped_calm db clock =
      elim (Bool-cases (has_selector (mint std.sha256_hex sel sec).selector db.tokens)) [
        | inl g ↦ (db.tokens, rw g refl)
        | inr g ↦ (
          (mint_scoped std sel sec user_id label scope read_only expires_at
              (quiet db clock)).1.db.tokens,
          rw g refl,
        )
      ]
