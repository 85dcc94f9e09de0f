-- ===== src/Meta/Users/Lookup.antt =====
-- internal/meta/users.go: DeleteToken against TokenBySelector.
use gitmote.Common.{ℕ, List, [], ◌∷◌, Bytes, ok, some, ◌≡◌, ◌≢◌, arith, Option-cases, inl, inr}
use gitmote.Meta.Schema.{User, TokenRow}
use gitmote.Meta.Sql.{World}
use gitmote.Meta.Users.{
  TokenAuth, token_joined, user_with_id, without_token, delete_token, token_by_selector,
}

token_joined-without_token :
    (id : ℕ) (selector : Bytes) (us : List User) (ts : List TokenRow) (ta : TokenAuth)
    → token_joined selector us (without_token id ts) ≡ some ta
    → ta.token_id ≢ id
unfolding token_joined without_token
token_joined-without_token id selector us [] ta h e = ground arith
token_joined-without_token id selector us (t ∷ ts) ta h e =
    let rest = token_joined-without_token id selector us ts ta in
    elim (Option-cases (user_with_id t.user_id us)) [
      | inl k ↦ ground (arith, rest, k)
      | inr (u, k) ↦ ground (arith, rest, k)
    ]

-- Once DeleteToken of a token has returned nil, TokenBySelector never answers with that token, by
-- any selector, as long as the tables stay as they are.
pub token_by_selector-delete_token :
    (id : ℕ) (selector : Bytes) (w v : World) (ta : TokenAuth)
    → (delete_token id w).0 ≡ ok tt
    → v.db ≡ (delete_token id w).1.db
    → (token_by_selector selector v).0 ≡ ok ta
    → ta.token_id ≢ id
unfolding delete_token token_by_selector
token_by_selector-delete_token id selector w v ta h same found =
    token_joined-without_token id selector v.db.users w.db.tokens ta (ground (arith, same))
