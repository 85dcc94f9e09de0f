-- ===== src/Githttp/Hook/Tests.antt =====
-- cmd/gitmote-hook/main.go: the hook of a push that moves the default branch forward.
use gitmote.Common.{
  ℕ, true, false, List, [], ◌∷◌, Bytes, bytes_eq, ◌==◌, cut, codes, if◌then◌else◌, none, some, ◌≡◌,
  refl, All,
}
use gitmote.Meta.Sql.{in_tx, next_fault, later}
use gitmote.Meta.Refs.{
  cas_refs, cas_all, cas_one, normalize_sha, select_sha, is_ref, write_ref, update_ref,
}
use gitmote.Store.Mem
use gitmote.Store.Mem.{mem_store}
use gitmote.Githttp.Tests.{push, request, flying}
use gitmote.Githttp.Writer.{
  RefCommand, handle, handle_op, acquire, registered, forces_default, put_objects, is_object_path,
  is_hex, commit_refs,
}
use gitmote.Githttp.Hook.{
  HookStd, HookEnv, Stdin, zero_sha, run, call_with, parse_commands, parse_lines, parse_fields,
  is_force,
}
use gitmote.Githttp.Hook.Guard.{KeepsHistory, call_handle, hook-KeepsHistory}

-- Fields at single spaces
abbrev add_byte : ℕ → List Bytes → List Bytes
add_byte b [] = (b ∷ []) ∷ []
add_byte b (f ∷ fs) = (b ∷ f) ∷ fs

abbrev split_spaces : Bytes → List Bytes
split_spaces [] = [] ∷ []
split_spaces (b ∷ s) = let rest = split_spaces s in if b == b' ' then [] ∷ rest else add_byte b rest

abbrev hook_std : HookStd
hook_std = record {
  fields = split_spaces;
  abs = λ p. some p;
  is_ancestor = λ old new. true;
  visits = λ p. request.quarantine;
}

abbrev env : HookEnv
env = record { sock = codes "/run/s"; nonce = codes "n1"; object_directory = codes "/q" }

abbrev stdin : Stdin
stdin = record { lines = codes "a1 b2 main" ∷ []; broken = false }

force_of_delete : is_force hook_std (codes "a1") zero_sha ≡ true
unfolding is_force bytes_eq
force_of_delete = refl

passed : (run hook_std (call_handle hook_std mem_store false none) env stdin flying).0 ≡ true
unfolding run call_with parse_commands parse_lines parse_fields is_force handle acquire registered
    bytes_eq handle_op forces_default put_objects is_object_path cut is_hex commit_refs cas_refs
    cas_all cas_one in_tx next_fault later normalize_sha select_sha is_ref write_ref update_ref
    Mem.put
passed = refl

hook-KeepsHistory_example :
    (commands : List RefCommand) × (parse_commands hook_std stdin ≡ some commands)
    × All (KeepsHistory hook_std (codes "refs/heads/main")) commands
unfolding acquire registered bytes_eq
hook-KeepsHistory_example =
    hook-KeepsHistory hook_std mem_store false none env stdin flying push refl refl passed
