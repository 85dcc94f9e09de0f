-- ===== src/Auth/Guard/Uses.antt =====
-- internal/auth/guard.go: a minted token, while tokens are used and other tokens are revoked.
use gitmote.Common.{
  ℕ, ◌<◌, Bool, List, [], ◌∷◌, Bytes, bytes_eq, arith, All, Option, none, some, Result, ok, err,
  ◌≡◌, ◌≢◌, ◌⊎◌, inl, inr, refl, ◌∙◌, Bool-cases, Option-cases,
}
use gitmote.Meta.Schema.{Db, User, TokenRow}
use gitmote.Meta.Sql.{World, IsQuiet, next_fault, spend, continue, continue-eq-ok}
use gitmote.Meta.Users.{
  Token, TokenAuth, create_scoped_token, token_joined, token_by_selector, user_with_id,
  next_token_id, stamp_token, touch_token, without_token, delete_token,
}
use gitmote.Auth.Token.{split, mint}
use gitmote.Auth.Token.Shape.{IsByte, split-mint}
use gitmote.Auth.Guard.{Std, Verified, is_expired, accept_token, verify, verify_halves, mint_scoped}
use gitmote.Auth.Guard.Complete.{verify_complete}
use gitmote.Auth.Guard.Constraints.{token_joined-insert}

-- What happens to the tokens of a forge meanwhile: somebody authenticates with one, at some time and
-- with some statements failing, or one is revoked.
pub data Event : Type 0 where
  authenticate : (raw : Bytes) (clock : ℕ) (faults : List Bool) → Event
  revoke : (id clock : ℕ) (faults : List Bool) → Event

abbrev pub Spares : ℕ → Event → Type 0
Spares id (authenticate raw clock faults) = Unit
Spares id (revoke other clock faults) = other ≢ id

token_joined-stamp_token :
    (selector : Bytes) (us : List User) (id ts : ℕ) (rows : List TokenRow)
    → token_joined selector us (stamp_token id ts rows) ≡ token_joined selector us rows
unfolding token_joined stamp_token
token_joined-stamp_token selector us id ts [] = refl
token_joined-stamp_token selector us id ts (t ∷ rows) =
    elim (Option-cases (user_with_id t.user_id us)) [
      | inl k ↦ ground (arith, token_joined-stamp_token selector us id ts rows, k)
      | inr (u, k) ↦ ground (arith, token_joined-stamp_token selector us id ts rows, k)
    ]

token_joined-without_other :
    (selector : Bytes) (us : List User) (id : ℕ) (ta : TokenAuth) (rows : List TokenRow)
    → id ≢ ta.token_id
    → token_joined selector us rows ≡ some ta
    → token_joined selector us (without_token id rows) ≡ some ta
unfolding token_joined without_token
token_joined-without_other selector us id ta [] n h = h
token_joined-without_other selector us id ta (t ∷ rows) n h =
    elim (Option-cases (user_with_id t.user_id us)) [
      | inl k ↦ ground (arith, token_joined-without_other selector us id ta rows n, k)
      | inr (u, k) ↦ ground (arith, token_joined-without_other selector us id ta rows n, k)
    ]

-- The selector still leads to the token.
abbrev Finds : Bytes → TokenAuth → Db → Type 0
Finds selector ta db = token_joined selector db.users db.tokens ≡ some ta

Finds-touch_token :
    (selector : Bytes) (ta : TokenAuth) (id : ℕ) (w : World)
    → Finds selector ta w.db
    → Finds selector ta (touch_token id w).1.db
unfolding touch_token
Finds-touch_token selector ta id w h = elim (Bool-cases (next_fault w.faults)) [
  | inl e ↦ rw e h
  | inr e ↦ rw e (token_joined-stamp_token selector w.db.users id w.clock w.db.tokens ∙ h)
]

Finds-delete_token :
    (selector : Bytes) (ta : TokenAuth) (id : ℕ) (w : World)
    → id ≢ ta.token_id
    → Finds selector ta w.db
    → Finds selector ta (delete_token id w).1.db
unfolding delete_token
Finds-delete_token selector ta id w n h = elim (Bool-cases (next_fault w.faults)) [
  | inl e ↦ rw e h
  | inr e ↦ rw e (token_joined-without_other selector w.db.users id ta w.db.tokens n h)
]

Finds-continue :
    (selector : Bytes) (ta : TokenAuth) (vt : Verified) (r : Result (Unit {0})) (w : World)
    → Finds selector ta w.db
    → Finds selector ta (continue {B = Verified} r (λ _ v. (ok vt, v)) w).1.db
Finds-continue selector ta vt (err e) w h = h
Finds-continue selector ta vt (ok u) w h = h

module _ (std : Std) where
  -- The tables after an event, and after several.
  unfoldable pub happen : Event → Db → Db
  happen (authenticate raw clock faults) db =
      (verify std raw (record { db = db; faults = faults; clock = clock })).1.db
  happen (revoke id clock faults) db =
      (delete_token id (record { db = db; faults = faults; clock = clock })).1.db

  unfoldable pub happen_all : List Event → Db → Db
  happen_all [] db = db
  happen_all (e ∷ es) db = happen_all es (happen e db)

  Finds-accept_token :
      (selector : Bytes) (ta : TokenAuth) (secret : Bytes) (t : TokenAuth) (w : World)
      → Finds selector ta w.db
      → Finds selector ta (accept_token std secret t w).1.db
  unfolding accept_token
  Finds-accept_token selector ta secret t w h =
      elim (Bool-cases (bytes_eq t.verifier (std.sha256_hex secret))) [
        | inr e ↦ rw e h
        | inl e ↦ elim (Bool-cases (is_expired t.expires_at w.clock)) [
          | inl g ↦ rw (e, g) h
          | inr g ↦
              rw (e, g)
                (Finds-continue selector ta _ (touch_token t.token_id w).0
                  (touch_token t.token_id w).1 (Finds-touch_token selector ta t.token_id w h))
        ]
      ]

  Finds-verify :
      (selector : Bytes) (ta : TokenAuth) (raw : Bytes) (w : World)
      → Finds selector ta w.db
      → Finds selector ta (verify std raw w).1.db
  unfolding verify verify_halves token_by_selector
  Finds-verify selector ta raw w h = elim (Option-cases (split raw)) [
    | inl e ↦ rw e h
    | inr ((sel, secret), e) ↦ elim (Bool-cases (next_fault w.faults)) [
      | inl g ↦ rw (e, g) h
      | inr g ↦ elim (Option-cases (token_joined sel w.db.users w.db.tokens)) [
        | inl k ↦ rw (e, g, k) h
        | inr (t, k) ↦ rw (e, g, k) (Finds-accept_token selector ta secret t (spend w) h)
      ]
    ]
  ]

  Finds-happen_all :
      (selector : Bytes) (ta : TokenAuth) (es : List Event) (db : Db)
      → All (Spares ta.token_id) es
      → Finds selector ta db
      → Finds selector ta (happen_all es db)
  unfolding happen_all happen
  Finds-happen_all selector ta [] db s h = h
  Finds-happen_all selector ta (authenticate raw clock faults ∷ es) db s h =
      Finds-happen_all selector ta es _ s.1 (Finds-verify selector ta raw _ h)
  Finds-happen_all selector ta (revoke id clock faults ∷ es) db s h =
      Finds-happen_all selector ta es _ s.1 (Finds-delete_token selector ta id _ s.0 h)

  -- A token that MintScoped returned authenticates its owner, with the scope and the mode that it was
  -- minted with, before it expires, while no statement of that authentication fails, however often it
  -- and others have been used and others revoked since, with whatever statements failing. The random
  -- halves are not empty, and the owner exists.
  pub verify-mint_scoped :
      (w v : World) (es : List Event) (sel secret : Bytes) (user_id : ℕ) (label : Bytes)
      (scope : Option ℕ) (read_only : Bool) (expires : Option ℕ) (user : User) (raw : Bytes)
      → sel ≢ []
      → secret ≢ []
      → All IsByte sel
      → user_with_id user_id w.db.users ≡ some user
      → (mint_scoped std sel secret user_id label scope read_only expires w).0 ≡ ok raw
      → All (Spares (next_token_id w.db.tokens)) es
      → v.db
        ≡ happen_all es (mint_scoped std sel secret user_id label scope read_only expires w).1.db
      → (expires ≡ none) ⊎ ((e : ℕ) × (expires ≡ some e) × (v.clock < e))
      → IsQuiet v
      → (verify std raw v).0
        ≡ ok (record { user = user; repo_scope = scope; read_only = read_only })
  unfolding mint_scoped
  verify-mint_scoped w v es sel secret user_id label scope read_only expires user raw p q b owner h
        others same fresh quiet =
      let m = mint std.sha256_hex sel secret in
      let (half, shaped, proved) = split-mint std.sha256_hex sel secret p q b in
      let made =
        create_scoped_token user_id m.selector m.verifier label scope read_only expires w in
      let (t, created, e) = continue-eq-ok made.0 (λ (_ : Token) u. (ok m.raw, u)) made.1 h in
      let minted : m.raw ≡ raw = ground (arith, e) in
      let stored =
        token_joined-insert w user_id m.selector m.verifier label scope read_only expires user t
          owner created in
      (verify_complete std v raw
        (record {
          token_id = next_token_id w.db.tokens;
          verifier = m.verifier;
          user = user;
          expires_at = expires;
          repo_scope = scope;
          read_only = read_only;
        })
        quiet
        (record {
          selector = m.selector;
          secret = half;
          shaped = rw (← minted) shaped;
          stored = rw same (Finds-happen_all m.selector _ es _ others (rw created stored));
          proved = proved;
          unexpired = fresh;
        })).0
