-- ===== src/Secrets/Service/Tests.antt =====
-- A repo with one secret that gets another, and the theorems on secrets at such inputs.
use gitmote.Common.{
  ℕ, ◌==◌, true, [], ◌∷◌, codes, bytes_eq, starts_with, some, ok, Bytes, ◌≡◌, refl, sym, ◌∙◌,
  if◌then◌else◌, inl, inr,
}
use gitmote.Common.Sort.{order_by, insert}
use gitmote.Meta.Schema.{Db, SecretRow, empty_db}
use gitmote.Meta.Sql.{next_fault, later, pure}
use gitmote.Meta.Ci.Sweep.{quiet}
use gitmote.Meta.Secrets
use gitmote.Meta.Secrets.{
  Replica, get_or_create_secret, advance_secret, waiting, finished, await_secret, get_secret,
  insert_absent, server_value, secrets_of,
}
use gitmote.Meta.Secrets.Agreement.{Caller, Calls, set_phase, turn_of}
use gitmote.Ci.EnvSecrets.{Env, lookup, assign}
use gitmote.Secrets.Keyring.{decrypt, enabled, key_of, aad}
use gitmote.Secrets.Service.{answered, valid_name, is_identifier, set_secret, secrets, open_all}
use gitmote.Secrets.Service.Setting.{OneRowEach, secrets-set_secret}
use gitmote.Secrets.Keyring.Current.{new_keyring_from_env-IsKeyring}
use gitmote.Secrets.Tests.{std, env, keyring, from_env, vector, envelope}

abbrev old_row : SecretRow
old_row = record {
  repo_id = 7;
  name = codes "K";
  version = 2;
  iv = vector;
  ct = envelope.ct;
  created_at = 0;
}

abbrev db : Db
db = record empty_db { ci_secrets = old_row ∷ [] }

abbrev before : Env
before = (codes "K", codes "pw") ∷ []

readable : (secrets std keyring 7 (quiet db 10)).0 ≡ answered before
unfolding secrets Secrets.get_secrets secrets_of order_by insert next_fault later open_all decrypt
    key_of aad bytes_eq assign
readable = refl

one_row : OneRowEach db.ci_secrets
one_row s t (inl a) (inl b) e = a ∙ sym b
one_row s t (inr a) m e = absurd a
one_row s t m (inr b) e = absurd b

n_valid : valid_name (codes "N") ≡ true
unfolding valid_name is_identifier starts_with bytes_eq
n_valid = refl

secrets-set_secret_example :
    ((set_secret std keyring 7 (codes "N") (codes "v") vector (quiet db 10)).0 ≡ answered tt)
    × (m : Env) × ((secrets std keyring 7
          (set_secret std keyring 7 (codes "N") (codes "v") vector (quiet db 10)).1).0
        ≡ answered m)
    × ((other : Bytes)
        → lookup other m
          ≡ (if bytes_eq (codes "N") other then some (codes "v") else lookup other before))
unfolding enabled
secrets-set_secret_example =
    secrets-set_secret std keyring 7 (codes "N") (codes "v") vector db 10 before
      (new_keyring_from_env-IsKeyring std env keyring from_env) refl refl one_row readable n_valid

-- The sole writer: there is nothing to catch up with.
abbrev writer : Replica
writer = record { is_leader = λ w. true; refresh = pure tt; try_promote = pure tt }

created :
    (get_or_create_secret writer 2 (codes "cookie") (some (codes "a1")) (quiet empty_db 0)).0
    ≡ finished (ok (codes "a1"))
unfolding get_or_create_secret advance_secret await_secret get_secret server_value insert_absent
    next_fault later bytes_eq
created = refl

-- Two callers, of which both find the secret missing before one creates it.
abbrev callers : ℕ → Caller
callers i =
    if i == 0
    then record { turns = 2; name = codes "cookie"; gen = some (codes "a1") }
    else record { turns = 1; name = codes "cookie"; gen = some (codes "b2") }

abbrev fresh : Calls
fresh = record { world = quiet empty_db 0; phase = λ i. waiting }

abbrev take_turn : ℕ → Calls → Calls
take_turn i s = record {
  world = (turn_of writer callers i s).1;
  phase = set_phase i (turn_of writer callers i s).0 s.phase;
}

abbrev won : Calls
won = take_turn 0 (take_turn 0 (take_turn 1 (take_turn 0 fresh)))

abbrev over : Calls
over = take_turn 1 (take_turn 1 won)
