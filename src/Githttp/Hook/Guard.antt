-- ===== src/Githttp/Hook/Guard.antt =====
-- cmd/gitmote-hook/main.go with internal/githttp/receive.go: who may rewrite the default branch.
use gitmote.Common.{
  Bool, true, false, ◌&&◌, List, [], ◌∷◌, ◌++◌, Bytes, bytes_eq, bytes_eq_iff, codes, if◌then◌else◌,
  map, Option, none, some, ◌≡◌, ◌≢◌, ◌⊎◌, inl, inr, arith, All, Bool-cases, Option-cases,
}
use gitmote.Store.{ObjectStore}
use gitmote.Githttp.Writer.{
  RefCommand, Request, Response, PushOp, Forge, forces_default, registered, handle, handle_op,
}
use gitmote.Githttp.Hook.{
  HookStd, HookEnv, Stdin, zero_sha, parse_commands, is_force, with_force, passes, call_with, run,
}

module _ (std : HookStd) where
  -- The command is not for the branch, or it makes the branch, or moves it forward.
  abbrev pub KeepsHistory : Bytes → RefCommand → Type 0
  KeepsHistory protected c =
      (c.ref ≢ protected)
      ⊎ ((c.new ≢ zero_sha) × ((c.old ≡ zero_sha) ⊎ (std.is_ancestor c.old c.new ≡ true)))

  KeepsHistory-is_force :
      (protected : Bytes) (c : RefCommand)
      → (bytes_eq c.ref protected && is_force std c.old c.new) ≡ false
      → KeepsHistory protected c
  unfolding is_force
  KeepsHistory-is_force protected c h = elim (Bool-cases (bytes_eq c.ref protected)) [
    | inr e ↦ inl (λ p. ground (arith, bytes_eq_iff c.ref protected))
    | inl e ↦ elim (Bool-cases (bytes_eq c.new zero_sha)) [
      | inl f ↦ absurd (ground arith)
      | inr f ↦ inr (
        λ p. ground (arith, bytes_eq_iff c.new zero_sha),
        elim (Bool-cases (bytes_eq c.old zero_sha)) [
          | inl g ↦ inl ((bytes_eq_iff c.old zero_sha).0 g)
          | inr g ↦ inr (ground arith)
        ],
      )
    ]
  ]

  KeepsHistory-all :
      (protected : Bytes) (cs : List RefCommand)
      → forces_default protected (map (with_force std) cs) ≡ false
      → All (KeepsHistory protected) cs
  unfolding forces_default
  KeepsHistory-all protected [] h = tt
  KeepsHistory-all protected (c ∷ cs) h = (
    KeepsHistory-is_force protected c (ground arith),
    KeepsHistory-all protected cs (ground arith),
  )

  module _ (store : ObjectStore) where
    -- hookrpc.Call to the coordinator; the reply may be lost.
    abbrev pub call_handle :
        (lost : Bool) (before_cas : Option Bytes)
        → Request
        → Forge store
        → Option Response × Forge store
    call_handle lost before_cas req f =
        let (r, f') = handle store req before_cas f in (if lost then none else some r, f')

    handled_keeps :
        (lost : Bool) (before_cas : Option Bytes) (req : Request) (f : Forge store) (op : PushOp)
        → registered req.nonce f.pushes ≡ some op
        → op.pusher_is_admin ≡ false
        → passes (call_handle lost before_cas req f).0 ≡ true
        → forces_default (codes "refs/heads/" ++ op.default_branch) req.commands ≡ false
    unfolding handle handle_op
    handled_keeps lost before_cas req f op reg plain h =
        elim (Bool-cases (forces_default (codes "refs/heads/" ++ op.default_branch) req.commands)) [
          | inr e ↦ e
          | inl e ↦ elim (Bool-cases lost) [
            | inl l ↦ absurd (ground arith)
            | inr l ↦ absurd (ground arith)
          ]
        ]

    -- A push by a pusher who is not an admin of the repo passes the hook only if its commands parse and
    -- none of them deletes the default branch or moves it to a commit that is not ahead, whatever the
    -- coordinator's state and the stores do.
    pub hook-KeepsHistory :
        (lost : Bool) (before_cas : Option Bytes) (env : HookEnv) (stdin : Stdin) (f : Forge store)
        (op : PushOp)
        → registered env.nonce f.pushes ≡ some op
        → op.pusher_is_admin ≡ false
        → (run std (call_handle lost before_cas) env stdin f).0 ≡ true
        → (commands : List RefCommand) × (parse_commands std stdin ≡ some commands)
          × All (KeepsHistory (codes "refs/heads/" ++ op.default_branch)) commands
    unfolding run call_with
    hook-KeepsHistory lost before_cas env stdin f op reg plain h =
        elim (Option-cases (std.abs env.object_directory)) [
          | inl n ↦ absurd (ground arith)
          | inr (quarantine, q) ↦ elim (Option-cases (parse_commands std stdin)) [
            | inl n ↦ absurd (ground arith)
            | inr (commands, p) ↦ (
              commands,
              p,
              KeepsHistory-all _ commands (
                  handled_keeps lost before_cas
                    (record {
                      nonce = env.nonce;
                      commands = map (with_force std) commands;
                      quarantine = std.visits quarantine;
                    })
                    f op reg plain (ground arith)),
            )
          ]
        ]
