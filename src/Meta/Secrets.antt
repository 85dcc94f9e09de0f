-- ===== src/Meta/Secrets.antt =====
-- internal/meta/secrets.go: the sealed CI secrets of repos, and the secrets of the server.
pub mod Keeping
pub mod Agreement
pub mod Upsert
use gitmote.Common.{
  ℕ, zero, suc, Bool, true, false, not, ◌&&◌, ◌||◌, List, [], ◌∷◌, Bytes, bytes_eq, ◌==◌,
  if◌then◌else◌, keep, map, any, find, Option, none, some, Result, ok, err, Error, not_found,
  driver,
}
use gitmote.Common.Sort.{order_by, bytes_le}
use gitmote.Meta.Schema.{Db, SecretRow, ServerSecret}
use gitmote.Meta.Sql.{World, Sql, pure, select, exec, now, or_not_found, ◌>>=◌, ◌>>◌}

-- CISecret
pub record CiSecret : Type 0 where
  pub name : Bytes
  pub version : ℕ
  pub iv : Bytes
  pub ct : Bytes

abbrev pub is_secret : (repo_id : ℕ) (name : Bytes) → SecretRow → Bool
is_secret repo_id name s = s.repo_id == repo_id && bytes_eq s.name name

-- ON CONFLICT(repo_id, name) DO UPDATE
unfoldable pub replace_secret : SecretRow → List SecretRow → List SecretRow
replace_secret row [] = []
replace_secret row (s ∷ rows) =
    (if is_secret row.repo_id row.name s then row else s) ∷ replace_secret row rows

unfoldable pub upsert_secret : SecretRow → List SecretRow → List SecretRow
upsert_secret row rows =
    if any (is_secret row.repo_id row.name) rows then replace_secret row rows else row ∷ rows

unfoldable pub set_secret :
    (repo_id : ℕ) (name : Bytes) (version : ℕ) (iv ct : Bytes) → Sql (Unit {0})
set_secret repo_id name version iv ct = do
  ts ← now
  exec (λ db. ok (
    record db {
      ci_secrets =
          upsert_secret
            (record {
              repo_id = repo_id;
              name = name;
              version = version;
              iv = iv;
              ct = ct;
              created_at = ts;
            })
            db.ci_secrets;
    },
    tt,
  ))

abbrev pub by_name : SecretRow → SecretRow → Bool
by_name a b = bytes_le a.name b.name

-- SELECT ... FROM ci_secrets WHERE repo_id = ? ORDER BY name
unfoldable pub secrets_of : ℕ → Db → List SecretRow
secrets_of repo_id db = order_by by_name (keep (λ s. s.repo_id == repo_id) db.ci_secrets)

unfoldable pub list_secret_names : ℕ → Sql (List Bytes)
list_secret_names repo_id = select (λ db. map (λ (s : SecretRow). s.name) (secrets_of repo_id db))

abbrev pub envelope_of : SecretRow → CiSecret
envelope_of s = record { name = s.name; version = s.version; iv = s.iv; ct = s.ct }

unfoldable pub get_secrets : ℕ → Sql (List CiSecret)
get_secrets repo_id = select (λ db. map envelope_of (secrets_of repo_id db))

unfoldable pub delete_secret : (repo_id : ℕ) (name : Bytes) → Sql (Unit {0})
delete_secret repo_id name = exec (λ db.
    ok (record db { ci_secrets = keep (λ s. not (is_secret repo_id name s)) db.ci_secrets }, tt))

-- the value of a server secret
unfoldable pub server_value : Bytes → List ServerSecret → Option Bytes
server_value name [] = none
server_value name (s ∷ rows) = if bytes_eq s.name name then some s.value else server_value name rows

-- getSecret; sql.ErrNoRows is the error `not_found`
unfoldable pub get_secret : Bytes → Sql Bytes
get_secret name = do found ← select (λ db. server_value name db.server_secrets); or_not_found found

abbrev if_absent : Option Bytes → ServerSecret → List ServerSecret → List ServerSecret
if_absent none row rows = row ∷ rows
if_absent (some v) row rows = rows

-- INSERT INTO server_secrets ... ON CONFLICT(name) DO NOTHING
unfoldable pub insert_absent : ServerSecret → Sql (Unit {0})
insert_absent row = exec (λ db. ok (
  record db {
    server_secrets = if_absent (server_value row.name db.server_secrets) row db.server_secrets;
  },
  tt,
))

-- What the replicated database offers a follower: IsLeader, Refresh and TryPromote.
pub record Replica : Type 0 where
  pub is_leader : World → Bool
  pub refresh : Sql (Unit {0})
  pub try_promote : Sql (Unit {0})

abbrev pub is_missing : Result Bytes → Bool
is_missing (err not_found) = true
is_missing r = false

-- Where a call of GetOrCreateSecret stands, since other callers may come between its statements: in
-- awaitSecret, before the INSERT of what gen made, before the last read, or returned.
pub data Phase : Type 0 where
  waiting rereading : Phase
  inserting : (value : Bytes) → Phase
  finished : Result Bytes → Phase

-- The result of gen is `none` if it fails.
abbrev pub generated : Option Bytes → Phase
generated none = finished (err driver)
generated (some v) = inserting v

abbrev pub after_await : Option Bytes → Result Bytes → Phase
after_await gen (err not_found) = generated gen
after_await gen r = finished r

abbrev pub after_insert : Result (Unit {0}) → Phase
after_insert (err e) = finished (err e)
after_insert (ok u) = rereading

module _ (db_handle : Replica) where
  open db_handle use {is_leader, refresh, try_promote}

  abbrev tried : Sql Bytes → Result (Unit {0}) → Sql Bytes
  tried again (err e) w = (err driver, w)
  tried again (ok u) w = again w

  abbrev reread : Sql Bytes → Result Bytes → Sql Bytes
  reread again r w =
      if is_missing r then (let (p, w') = try_promote w in tried again p w') else (r, w)

  abbrev caught_up : Bytes → Sql Bytes → Result (Unit {0}) → Sql Bytes
  caught_up name again (err e) w = (err driver, w)
  caught_up name again (ok u) w = let (r, w') = get_secret name w in reread again r w'

  abbrev first_read : Bytes → Sql Bytes → Result Bytes → Sql Bytes
  first_read name again r w =
      if not (is_missing r) || is_leader w
      then (r, w)
      else (let (p, w') = refresh w in caught_up name again p w')

  -- awaitSecret. The number says how many turns of the loop the timeout allows; past them the wait
  -- ends in an error, as past the deadline.
  unfoldable pub await_secret : ℕ → Bytes → Sql Bytes
  await_secret zero name w = (err driver, w)
  await_secret (suc turns) name w =
      let (r, w') = get_secret name w in first_read name (await_secret turns name) r w'

  -- the next statement of GetOrCreateSecret
  unfoldable pub advance_secret : ℕ → Bytes → Option Bytes → Phase → World → Phase × World
  advance_secret turns name gen waiting w =
      let (r, w') = await_secret turns name w in (after_await gen r, w')
  advance_secret turns name gen (inserting v) w =
      let (r, w') = insert_absent (record { name = name; value = v }) w in (after_insert r, w')
  advance_secret turns name gen rereading w = let (r, w') = get_secret name w in (finished r, w')
  advance_secret turns name gen (finished r) w = (finished r, w)

  -- GetOrCreateSecret with no other caller between its statements
  unfoldable pub get_or_create_secret : ℕ → Bytes → Option Bytes → World → Phase × World
  get_or_create_secret turns name gen w =
      let (p, w') = advance_secret turns name gen waiting w in
      let (p', w'') = advance_secret turns name gen p w' in advance_secret turns name gen p' w''
