-- ===== src/Meta/Schema.antt =====
-- internal/meta/schema.sql and the Go structs of its rows. A table is a list of rows.
-- Times are numbers: what now() writes, parseTime reads back. RunStatus values are the
-- constructors of a data type, since the program writes no other.
use gitmote.Common.{ℕ, Bytes, Bool, List, [], Option, codes}

-- meta.Repo
pub record Repo : Type 0 where
  pub id : ℕ
  pub name : Bytes
  pub default_branch : Bytes
  pub visibility : Bytes
  pub created_at : ℕ

-- a row of table refs
pub record Ref : Type 0 where
  pub repo_id : ℕ
  pub name : Bytes
  pub sha : Bytes
  pub updated_at : ℕ

-- meta.User
pub record User : Type 0 where
  pub id : ℕ
  pub handle : Bytes
  pub is_admin : Bool
  pub created_at : ℕ

-- a row of table tokens
pub record TokenRow : Type 0 where
  pub id : ℕ
  pub user_id : ℕ
  pub selector : Bytes
  pub verifier : Bytes
  pub label : Bytes
  pub created_at : ℕ
  pub last_used : Option ℕ
  pub expires_at : Option ℕ
  pub repo_scope : Option ℕ
  pub read_only : Bool

-- meta.Perm: any string, of which three name a level.
abbrev pub Perm : Type 0
Perm = Bytes

abbrev pub perm_read : Perm
perm_read = codes "read"

abbrev pub perm_write : Perm
perm_write = codes "write"

abbrev pub perm_admin : Perm
perm_admin = codes "admin"

-- a row of table acls
pub record Acl : Type 0 where
  pub repo_id : ℕ
  pub user_id : ℕ
  pub perm : Perm

-- meta.RunStatus
pub data RunStatus : Type 0 where
  queued running passed failed error superseded : RunStatus

-- meta.Run
pub record Run : Type 0 where
  pub id : ℕ
  pub repo_id : ℕ
  pub ref : Bytes
  pub sha : Bytes
  pub status : RunStatus
  pub created_at : ℕ
  pub updated_at : ℕ

-- meta.Job; the log key is empty until the job completes.
pub record Job : Type 0 where
  pub id : ℕ
  pub run_id : ℕ
  pub name : Bytes
  pub status : RunStatus
  pub log_key : Bytes
  pub created_at : ℕ
  pub updated_at : ℕ

-- a row of table ci_secrets
pub record SecretRow : Type 0 where
  pub repo_id : ℕ
  pub name : Bytes
  pub version : ℕ
  pub iv : Bytes
  pub ct : Bytes
  pub created_at : ℕ

-- a row of table server_secrets
pub record ServerSecret : Type 0 where
  pub name : Bytes
  pub value : Bytes

pub record Db : Type 0 where
  pub repos : List Repo
  pub refs : List Ref
  pub users : List User
  pub tokens : List TokenRow
  pub acls : List Acl
  pub ci_runs : List Run
  pub ci_jobs : List Job
  pub ci_secrets : List SecretRow
  pub server_secrets : List ServerSecret

abbrev pub empty_db : Db
empty_db = record {
  repos = [];
  refs = [];
  users = [];
  tokens = [];
  acls = [];
  ci_runs = [];
  ci_jobs = [];
  ci_secrets = [];
  server_secrets = [];
}
