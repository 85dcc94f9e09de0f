-- ===== src/Meta/Users.antt =====
-- internal/meta/users.go: accounts and personal access tokens.
pub mod Lookup
use Prim.Native.Nat.{max}
use gitmote.Common.{
  ℕ, ◌+◌, Bool, true, false, ◌&&◌, ◌||◌, List, [], ◌∷◌, Bytes, bytes_eq, ◌==◌, leb, ltb,
  if◌then◌else◌, keep, map, any, Result, ok, err, unique_violation, Option, none, some,
}
use gitmote.Common.Sort.{order_by, bytes_le}
use gitmote.Meta.Schema.{Db, User, TokenRow}
use gitmote.Meta.Sql.{Sql, pure, raise, select, exec, now, or_not_found, ◌>>=◌}

-- meta.TokenAuth
pub record TokenAuth : Type 0 where
  pub token_id : ℕ
  pub verifier : Bytes
  pub user : User
  pub expires_at : Option ℕ
  pub repo_scope : Option ℕ
  pub read_only : Bool

-- meta.Token
pub record Token : Type 0 where
  pub id : ℕ
  pub user_id : ℕ
  pub label : Bytes
  pub created_at : ℕ
  pub last_used : Option ℕ

unfoldable pub next_user_id : List User → ℕ
next_user_id [] = 1
next_user_id (u ∷ us) = max (u.id + 1) (next_user_id us)

unfoldable pub has_handle : Bytes → List User → Bool
has_handle handle [] = false
has_handle handle (u ∷ us) = bytes_eq u.handle handle || has_handle handle us

-- INSERT INTO users; the handle is UNIQUE
unfoldable pub create_user_row : Bytes → Bool → Sql User
create_user_row handle is_admin = do
  created ← now
  exec (λ db.
      let u : User = record {
        id = next_user_id db.users;
        handle = handle;
        is_admin = is_admin;
        created_at = created;
      } in
      if has_handle handle db.users
      then err unique_violation
      else ok (record db { users = u ∷ db.users }, u))

unfoldable pub create_user : Bytes → Sql User
create_user handle = create_user_row handle false

unfoldable pub create_admin : Bytes → Sql User
create_admin handle = create_user_row handle true

unfoldable pub user_named : Bytes → List User → Option User
user_named handle [] = none
user_named handle (u ∷ us) = if bytes_eq u.handle handle then some u else user_named handle us

unfoldable pub get_user : Bytes → Sql User
get_user handle = do found ← select (λ db. user_named handle db.users); or_not_found found

unfoldable pub user_with_id : ℕ → List User → Option User
user_with_id id [] = none
user_with_id id (u ∷ us) = if u.id == id then some u else user_with_id id us

unfoldable pub get_user_by_id : ℕ → Sql User
get_user_by_id id = do found ← select (λ db. user_with_id id db.users); or_not_found found

unfoldable pub list_users : Sql (List User)
list_users = select (λ db. order_by (λ a b. bytes_le a.handle b.handle) db.users)

-- SELECT EXISTS(SELECT 1 FROM users WHERE is_admin = 1)
unfoldable pub admin_exists : Sql Bool
admin_exists = select (λ db. any (λ u. u.is_admin) db.users)

unfoldable pub next_token_id : List TokenRow → ℕ
next_token_id [] = 1
next_token_id (t ∷ ts) = max (t.id + 1) (next_token_id ts)

unfoldable pub has_selector : Bytes → List TokenRow → Bool
has_selector selector [] = false
has_selector selector (t ∷ ts) = bytes_eq t.selector selector || has_selector selector ts

-- INSERT INTO tokens; the selector is UNIQUE
unfoldable pub insert_token : TokenRow → Db → Result (Db × Token)
insert_token t db =
    if has_selector t.selector db.tokens
    then err unique_violation
    else ok (
      record db { tokens = t ∷ db.tokens },
      record {
        id = t.id;
        user_id = t.user_id;
        label = t.label;
        created_at = t.created_at;
        last_used = none;
      },
    )

-- The zero time of Go, which means "never", is `none`.
unfoldable pub create_scoped_token :
    (user_id : ℕ) (selector verifier label : Bytes) (repo_scope : Option ℕ) (read_only : Bool)
    (expires_at : Option ℕ)
    → Sql Token
create_scoped_token user_id selector verifier label repo_scope read_only expires_at = do
  created ← now
  exec (λ db.
      insert_token
        (record {
          id = next_token_id db.tokens;
          user_id = user_id;
          selector = selector;
          verifier = verifier;
          label = label;
          created_at = created;
          last_used = none;
          expires_at = expires_at;
          repo_scope = repo_scope;
          read_only = read_only;
        })
        db)

-- The columns that the statement leaves out take their defaults.
unfoldable pub create_token : (user_id : ℕ) (selector verifier label : Bytes) → Sql Token
create_token user_id selector verifier label = do
  created ← now
  exec (λ db.
      insert_token
        (record {
          id = next_token_id db.tokens;
          user_id = user_id;
          selector = selector;
          verifier = verifier;
          label = label;
          created_at = created;
          last_used = none;
          expires_at = none;
          repo_scope = none;
          read_only = false;
        })
        db)

abbrev with_owner : TokenRow → Option User → Option TokenAuth → Option TokenAuth
with_owner t none rest = rest
with_owner t (some u) rest = some (record {
  token_id = t.id;
  verifier = t.verifier;
  user = u;
  expires_at = t.expires_at;
  repo_scope = t.repo_scope;
  read_only = t.read_only;
})

-- FROM tokens t JOIN users u ON u.id = t.user_id WHERE t.selector = ?
unfoldable pub token_joined : Bytes → List User → List TokenRow → Option TokenAuth
token_joined selector users [] = none
token_joined selector users (t ∷ ts) =
    let rest = token_joined selector users ts in
    if bytes_eq t.selector selector then with_owner t (user_with_id t.user_id users) rest else rest

unfoldable pub token_by_selector : Bytes → Sql TokenAuth
token_by_selector selector = do
  found ← select (λ db. token_joined selector db.users db.tokens)
  or_not_found found

-- UPDATE tokens SET last_used = ? WHERE id = ?
unfoldable pub stamp_token : ℕ → ℕ → List TokenRow → List TokenRow
stamp_token id ts [] = []
stamp_token id ts (t ∷ rows) =
    (if t.id == id then record t { last_used = some ts } else t) ∷ stamp_token id ts rows

unfoldable pub touch_token : ℕ → Sql (Unit {0})
touch_token id = do
  ts ← now
  exec (λ db. ok (record db { tokens = stamp_token id ts db.tokens }, tt))

unfoldable pub without_token : ℕ → List TokenRow → List TokenRow
without_token id [] = []
without_token id (t ∷ rows) =
    let rest = without_token id rows in if t.id == id then rest else t ∷ rest

unfoldable pub delete_token : ℕ → Sql (Unit {0})
delete_token id = exec (λ db. ok (record db { tokens = without_token id db.tokens }, tt))

-- ORDER BY created_at, id. The column is text, and `time_text` is how now() writes a time, RFC3339Nano,
-- whose order as text is not that of the times.
unfoldable pub token_le : (ℕ → Bytes) → TokenRow → TokenRow → Bool
token_le time_text a b =
    if bytes_eq (time_text a.created_at) (time_text b.created_at)
    then leb a.id b.id
    else bytes_le (time_text a.created_at) (time_text b.created_at)

abbrev shown : TokenRow → Token
shown t = record {
  id = t.id;
  user_id = t.user_id;
  label = t.label;
  created_at = t.created_at;
  last_used = t.last_used;
}

unfoldable pub list_tokens : (time_text : ℕ → Bytes) → ℕ → Sql (List Token)
list_tokens time_text user_id =
    select
      (λ db. map shown (order_by (token_le time_text) (keep (λ t. t.user_id == user_id) db.tokens)))
