-- ===== src/Lib.antt =====
-- gitmote is a git remote whose state lives in one bucket: refs, accounts, tokens, grants and CI rows
-- in a replicated SQLite database, and git objects and CI logs in an object store. A server process
-- serves git over HTTP, a web UI, and an API for CI runners. This library models its core: the
-- compare-and-swap of refs, the path of a push, the rules of access, and the reports of CI.
--
-- How the parts interact. A request passes the guard (Auth), which resolves the repo and the bearer of
-- the token from the database (Meta). A push then takes the lock of its repo name and gets a nonce;
-- git runs the hook, which calls back with that nonce; the coordinator (Githttp.Writer) uploads the
-- objects to the store (Store) and moves the refs by a compare-and-swap (Meta.Refs). CI runners claim
-- jobs and report their results (Ci), which changes rows of Meta and objects of Store. A push to a
-- branch is dispatched (Ci.Dispatcher), which reads the triggers of the workflows, records the run and
-- its jobs, mints a clone token (Auth) and opens the secrets of the repo (Secrets). Admins manage the
-- forge by forms (Webui.Manage).
--
-- The files, with the code that each is about:
--   Common                 byte strings, the functions of package strings, lists, sorting, results
--   Meta/Schema            internal/meta/schema.sql, the rows of the tables, and the row types of internal/meta
--   Meta/Sql               statements, transactions and failures of the driver, as internal/meta uses them
--   Meta/Refs, Meta/Refs/  internal/meta/refs.go: ListRefs, CASRef, CASRefs, casOne
--   Meta/Acls, Meta/Acls/  internal/meta/acls.go: SetACL, DeleteACL, GetACL, CanRead, ListACLs
--   Meta/Repos, .../       internal/meta/repos.go: names, CreateRepo, GetRepo, the listings
--   Meta/Users, .../       internal/meta/users.go: users, tokens, TokenBySelector
--   Meta/Ci, Meta/Ci/      internal/meta/ci.go: runs, jobs, ClaimJob, SweepStuckJobs
--   Meta/Secrets, .../     internal/meta/secrets.go: sealed CI secrets, GetOrCreateSecret
--   Auth/Token, .../       internal/auth/token.go: Mint and split
--   Auth/Guard, .../       internal/auth/guard.go: Authorize, verify, MintScoped; Policy states the rules apart
--   Store, Store/Mem       internal/store/store.go and mem.go
--   Githttp/Writer, .../   internal/githttp/receive.go: Begin, handle, putObjects, Release; internal/hookrpc types
--   Githttp/Backend, .../  internal/githttp/backend.go: ServeHTTP up to the hand-off, classify, parseGitPath
--   Ci/LiveLogs, .../      internal/ci/livelogs.go: Append, Finish, Read, Sweep
--   Ci/Report, .../        internal/ci/report.go: handleClaim, handleComplete, handleLogChunk, ReconcileStuck
--   Webui/Session, .../    internal/webui/session.go: issue, verify, splitCookie
--   Secrets/Keyring, .../  internal/secrets/keyring.go: NewKeyringFromEnv, Encrypt, Decrypt
--   Secrets/Service, .../  internal/secrets/service.go: SetSecret, Secrets, names
--   Ci/Triggers, .../      internal/ci/triggers.go: parsePushTrigger, matches, globMatch
--   Ci/EnvSecrets, .../    internal/ci/envsecrets.go: LoadEnvSecrets, For, Redacted
--   Ci/Dispatcher, .../    internal/ci/dispatcher.go: Dispatch, recordRun and what they call
--   Webui/Pages            internal/webui/webui.go, data.go: requests, the data of pages, the dashboard
--   Webui/Forms            internal/webui/webui.go: the management pages and forms, postRepo to postDeleteSecret
--   Webui/Manage, .../     internal/webui/webui.go: the routes of management, requireAdmin, getDashboard
--   Repo/Browse            internal/repo/browse.go: the entries of a listing
--   Render/Ansi, .../      internal/render/ansi.go: ANSI, applySGR
--   Bootstrap, .../        internal/bootstrap/bootstrap.go: Run, Reissue, mintToken
--   Server/Lease, .../     cmd/gitmote/main.go: leaseActivity, leaderGate, reconcileOnce, maybeYield
--   Githttp/Hook, .../     cmd/gitmote-hook/main.go: run, isForce, parseCommands
--
-- The Tests modules hold small concrete forges and runs of the code and of the theorems on them.
--
-- How the code corresponds. A function of the code has the same name in snake case. A method that
-- reads or writes the database is a function of a World: the tables, a clock, and a list `faults` that
-- says for each statement to come whether the driver fails on it. Theorems quantify over the faults,
-- or say that none occur. Tables are lists of rows; UNIQUE and primary keys refuse a row as SQLite
-- does, and foreign keys, which may also refuse a row, count among the faults. A transaction that does
-- not commit restores the tables. Times are natural numbers, the clock of a World stands still during
-- an operation, as if each now() of it had one result, strings are lists of bytes, int64 ids are
-- natural numbers; AUTOINCREMENT and rowid keys are modelled as one more than the largest id of the
-- table. Random bytes are inputs. Of the standard library, SHA-256, Basic credentials and TrimSpace
-- are a parameter (Auth.Guard.Std), and the HMAC and the decimal conversions of a session are another,
-- whose laws are that ParseInt reads what FormatInt wrote and that neither digits nor a hexadecimal
-- MAC hold a dot (Webui.Session.SessionStd); Ci.Report takes the decimal rendering as an argument, and
-- the cryptography of the keyring is a parameter whose laws are those of AES-GCM, that what was sealed
-- opens with the same additional data and with no other (Secrets.Keyring.CryptoStd), and the object
-- store is the interface Store.ObjectStore, whose laws are the contract of internal/store and which
-- Store.Mem implements. All recursion is structural but for two loops. awaitSecret runs on the number
-- of turns that its timeout allows, and past them returns the error of the timeout, as the code does
-- past its deadline. The loop of ANSI has one more turn than its log has bytes, which is enough, as
-- each turn takes one byte or more.
--
-- Concurrency. Statements of one World happen in sequence, as SQLite's single writer makes them.
-- Pushes are steps of a relation (Githttp.Writer.Exclusion) that may interleave in any order, with any
-- other change of the database between them; a hook call is one step, or its take of the nonce, its
-- upload and its CAS are steps apart, since git may end, and release the lock, while its hook's call
-- still runs. The statements of GetOrCreateSecret are steps of a relation too
-- (Meta.Secrets.Agreement). Requests, sweeps and the idle check of the server are steps of another
-- relation (Server.Lease.Fencing) over the read-write lock of leaseActivity, with a clock that only
-- moves forward.
--
-- Not modelled: the S3 client, s3lite and how it keeps the lease of the writer, the CGI hand-off to
-- git, the socket of the hook, the materializer and the browser of repos (files and git), templates,
-- the browsing and CI pages, login and logout, Markdown and highlighting, the triggers that start a
-- runner, the runner and its cloud service, and the wiring of the commands: they are I/O, third-party
-- code, or left for later.
pub mod Common
pub mod Meta
pub mod Auth
pub mod Store
pub mod Githttp
pub mod Ci
pub mod Secrets
pub mod Render
pub mod Bootstrap
pub mod Server
pub mod Repo
pub mod Webui
