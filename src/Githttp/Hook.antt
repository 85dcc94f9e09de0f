-- ===== src/Githttp/Hook.antt =====
-- cmd/gitmote-hook/main.go: the pre-receive hook, which asks the coordinator for a verdict.
pub mod Guard
pub mod Tests
use gitmote.Common.{
  Bool, true, false, not, ◌||◌, List, [], ◌∷◌, Bytes, bytes_eq, codes, is_empty, if◌then◌else◌, map,
  Option, none, some,
}
use gitmote.Githttp.Writer.{RefCommand, Visit, Request, Response, accepted, rejected}

abbrev pub zero_sha : Bytes
zero_sha = codes "0000000000000000000000000000000000000000"

-- What the hook takes from elsewhere: strings.Fields, filepath.Abs, whether git merge-base
-- --is-ancestor exits with 0, and what the quarantine at a path holds.
pub record HookStd : Type 0 where
  pub fields : Bytes → List Bytes
  pub abs : Bytes → Option Bytes
  pub is_ancestor : (old new : Bytes) → Bool
  pub visits : Bytes → List Visit

-- The environment of the hook; a variable that is not set is empty.
pub record HookEnv : Type 0 where
  pub sock : Bytes
  pub nonce : Bytes
  pub object_directory : Bytes

-- Standard input: the lines that the scanner returns, and whether it stops at an error after them.
pub record Stdin : Type 0 where
  pub lines : List Bytes
  pub broken : Bool

unfoldable pub parse_fields : List Bytes → Option RefCommand
parse_fields (old ∷ (new ∷ (ref ∷ []))) =
    some (record { old = old; new = new; ref = ref; force = false })
parse_fields fs = none

abbrev pub and_then : Option RefCommand → Option (List RefCommand) → Option (List RefCommand)
and_then none rest = none
and_then (some c) none = none
and_then (some c) (some cs) = some (c ∷ cs)

-- no error of run
abbrev pub passes : Option Response → Bool
passes none = false
passes (some accepted) = true
passes (some (rejected reason)) = false

module _ (std : HookStd) where
  open std use {fields, abs, is_ancestor, visits}

  unfoldable pub parse_lines : List Bytes → Option (List RefCommand)
  parse_lines [] = some []
  parse_lines (l ∷ ls) = and_then (parse_fields (fields l)) (parse_lines ls)

  -- parseCommands
  unfoldable pub parse_commands : Stdin → Option (List RefCommand)
  parse_commands stdin = if stdin.broken then none else parse_lines stdin.lines

  -- isForce
  unfoldable pub is_force : (old new : Bytes) → Bool
  is_force old new =
      if bytes_eq new zero_sha
      then true
      else if bytes_eq old zero_sha
      then false
      else not (is_ancestor old new)

  abbrev pub with_force : RefCommand → RefCommand
  with_force c = record c { force = is_force c.old c.new }

  -- The coordinator behind hookrpc.Call, with its state; `none` is an error of the call.
  module _ {S : Type 0} (call : Request → S → Option Response × S) where
    abbrev pub verdict : Option Response × S → Bool × S
    verdict (r, s) = (passes r, s)

    unfoldable pub call_with :
        HookEnv → (quarantine : Bytes) → Option (List RefCommand) → S → Bool × S
    call_with env quarantine none s = (false, s)
    call_with env quarantine (some commands) s = verdict (
        call
          (record {
            nonce = env.nonce;
            commands = map with_force commands;
            quarantine = visits quarantine;
          })
          s)

    abbrev pub in_quarantine : HookEnv → Stdin → Option Bytes → S → Bool × S
    in_quarantine env stdin none s = (false, s)
    in_quarantine env stdin (some quarantine) s = call_with env quarantine (parse_commands stdin) s

    -- run: whether the hook exits with 0, and the state that it leaves
    unfoldable pub run : HookEnv → Stdin → S → Bool × S
    run env stdin s =
        if is_empty env.sock || is_empty env.nonce
        then (false, s)
        else if is_empty env.object_directory
        then (false, s)
        else in_quarantine env stdin (abs env.object_directory) s
