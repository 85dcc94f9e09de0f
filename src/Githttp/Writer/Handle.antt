-- ===== src/Githttp/Writer/Handle.antt =====
-- The hook call: what it leaves behind on each of its ways out.
use gitmote.Common.{
  Bool, true, false, not, ◌&&◌, List, [], ◌∷◌, Bytes, map, Option, none, some, Result, err, Error,
  cas_mismatch, ◌≡◌, ◌⊎◌, inl, inr, refl, arith, Bool-cases, Option-cases,
}
use gitmote.Meta.Sql.{World}
use gitmote.Meta.Refs.{RefUpdate, cas_refs}
use gitmote.Meta.Refs.Table.{IsTable}
use gitmote.Meta.Refs.Atomic.{moved, push_refs, ref_map, SameElsewhere, CasRefs, cas_refs-push_refs}
use gitmote.Store.{ObjectStore}
use gitmote.Githttp.Writer.{
  Request, Reason, invalid_nonce, Response, accepted, rejected, PushOp, forces_default,
  protected_ref, as_update, as_commit, forget, registered, Forge, put_objects, cas_response,
  record_outcome, commit_refs, stored, handle_op, taken, handle,
}
use gitmote.Githttp.Writer.Content.{Durable, put_objects-Durable}

registered-forget :
    (nonce : Bytes) (m : List (Bytes × PushOp)) → registered nonce (forget nonce m) ≡ none
unfolding registered forget
registered-forget nonce [] = refl
registered-forget nonce ((n, op) ∷ m) = ground (arith, registered-forget nonce m)

module _ (store : ObjectStore) where
  -- What a hook call comes to for the push that its nonce stands for.
  pub data Handled (op : PushOp) (req : Request) (f : Forge store) (r : Response) (f' : Forge store)
      : Type 0 where
    refused :
        (reason : Reason)
        → r ≡ rejected reason
        → f'.world.db ≡ f.world.db
        → f'.outcomes ≡ f.outcomes
        → Handled op req f r f'
    committed :
        r ≡ accepted
        → (op.pusher_is_admin ≡ true) ⊎ (forces_default (protected_ref op) req.commands ≡ false)
        → Durable store op.repo_name req.quarantine f'.objects
        → push_refs (map as_update req.commands) (ref_map op.repo_id f.world.db)
          ≡ moved (ref_map op.repo_id f'.world.db)
        → SameElsewhere op.repo_id f.world.db f'.world.db
        → IsTable f'.world.db.refs
        → f'.outcomes ≡ (req.nonce, map (as_commit op) req.commands) ∷ f.outcomes
        → Handled op req f r f'

  error_rejects : (e : Error) → (reason : Reason) × (cas_response store (err e) ≡ rejected reason)
  error_rejects (cas_mismatch name want got) = (_, refl)
  error_rejects e = (_, refl)

  commit_refs_cases :
      (op : PushOp) (req : Request) (f : Forge store)
      → IsTable f.world.db.refs
      → (op.pusher_is_admin ≡ true) ⊎ (forces_default (protected_ref op) req.commands ≡ false)
      → Durable store op.repo_name req.quarantine f.objects
      → Handled op req f (commit_refs store op req f).0 (commit_refs store op req f).1
  unfolding commit_refs
  commit_refs_cases op req f t a d =
      by_case (cas_refs op.repo_id updates f.world).0 (cas_refs op.repo_id updates f.world).1
        (cas_refs-push_refs op.repo_id updates f.world t)
    where
      updates : List RefUpdate
      updates = map as_update req.commands

      by_case :
          (r : Result (Unit {0})) (w : World)
          → CasRefs op.repo_id (map as_update req.commands) f.world r w
          → Handled op req f (cas_response store r) (record f {
            world = w;
            outcomes =
                record_outcome store req.nonce
                  (map (as_commit op) req.commands)
                  (cas_response store r)
                  f.outcomes;
          })
      by_case r w (CasRefs.failed e same _) = rw e (refused _ refl same refl)
      by_case r w (CasRefs.refused x e _ same) =
          let (reason, no') = error_rejects x in rw (e, no') (refused reason refl same refl)
      by_case r w (CasRefs.done e p t' o) = rw e (committed refl a d p o t' refl)

  Handled-objects :
      (op : PushOp) (req : Request) (f : Forge store) (s : store.Objects) {r : Response}
      {f' : Forge store}
      → Handled op req (record f { objects = s }) r f'
      → Handled op req f r f'
  Handled-objects op req f s (refused reason e same kept) = refused reason e same kept
  Handled-objects op req f s (committed e a d p o t kept) = committed e a d p o t kept

  handle_op_cases :
      (op : PushOp) (req : Request) (before : Option Bytes) (f : Forge store)
      → IsTable f.world.db.refs
      → Handled op req f (handle_op store op req before f).0 (handle_op store op req before f).1
  unfolding handle_op
  handle_op_cases op req before f t =
      elim (Bool-cases (not op.pusher_is_admin && forces_default (protected_ref op) req.commands)) [
        | inl barred ↦ rw barred (refused _ refl refl refl)
        | inr free ↦ rw free (
            by_upload before (put_objects store op.repo_name req.quarantine f.objects)
              (put_objects-Durable store op.repo_name req.quarantine f.objects) (ground arith))
      ]
    where
      by_upload :
          (b : Option Bytes) (p : Bool × store.Objects)
          → (p.0 ≡ true → Durable store op.repo_name req.quarantine p.1)
          → (op.pusher_is_admin ≡ true) ⊎ (forces_default (protected_ref op) req.commands ≡ false)
          → Handled op req f (stored store op req b f p).0 (stored store op req b f p).1
      by_upload b (false, s) d a = refused _ refl refl refl
      by_upload (some m) (true, s) d a = refused _ refl refl refl
      by_upload none (true, s) d a =
          Handled-objects op req f s
            (commit_refs_cases op req (record f { objects = s }) t a (d refl))

  Handled-pushes :
      (op : PushOp) (req : Request) (f : Forge store) (m : List (Bytes × PushOp)) {r : Response}
      {f' : Forge store}
      → Handled op req (record f { pushes = m }) r f'
      → Handled op req f r f'
  Handled-pushes op req f m (refused reason e same kept) = refused reason e same kept
  Handled-pushes op req f m (committed e a d p o t kept) = committed e a d p o t kept

  -- A hook call with the nonce of a push has one of two outcomes, whatever statement or upload fails. It
  -- is rejected: no table of the database has changed, and no commit is recorded. Or it is accepted:
  -- the pusher is an admin or no command forces the default branch; every object of the quarantine is
  -- in the store under the prefix of the push's repo name; all the commands, taken in turn, found the
  -- old value they name, and the repo's refs are the result of all of them; no other repo's refs and
  -- no other table has changed; and one commit for each command is recorded under the nonce.
  pub handle-Handled :
      (op : PushOp) (req : Request) (before : Option Bytes) (f : Forge store)
      → registered req.nonce f.pushes ≡ some op
      → IsTable f.world.db.refs
      → Handled op req f (handle store req before f).0 (handle store req before f).1
  unfolding handle
  handle-Handled op req before f e t = rw e (
      Handled-pushes op req f (forget req.nonce f.pushes)
        (handle_op_cases op req before (record f { pushes = forget req.nonce f.pushes }) t))

  pushes-handle_op :
      (op : PushOp) (req : Request) (before : Option Bytes) (f : Forge store)
      → (handle_op store op req before f).1.pushes ≡ f.pushes
  unfolding handle_op commit_refs
  pushes-handle_op op req before f = ground arith

  pub pushes-handle :
      (req : Request) (before : Option Bytes) (f : Forge store)
      → ((handle store req before f).1.pushes ≡ f.pushes)
        ⊎ ((handle store req before f).1.pushes ≡ forget req.nonce f.pushes)
  unfolding handle
  pushes-handle req before f = by_entry (registered req.nonce f.pushes)
    where
      by_entry :
          (o : Option PushOp)
          → ((taken store req before f o).1.pushes ≡ f.pushes)
            ⊎ ((taken store req before f o).1.pushes ≡ forget req.nonce f.pushes)
      by_entry none = inl refl
      by_entry (some op) =
          inr (pushes-handle_op op req before (record f { pushes = forget req.nonce f.pushes }))

  flights-handle_op :
      (op : PushOp) (req : Request) (before : Option Bytes) (f : Forge store)
      → (handle_op store op req before f).1.flights ≡ f.flights
  unfolding handle_op commit_refs
  flights-handle_op op req before f = ground arith

  pub flights-handle :
      (req : Request) (before : Option Bytes) (f : Forge store)
      → (handle store req before f).1.flights ≡ f.flights
  unfolding handle
  flights-handle req before f = by_entry (registered req.nonce f.pushes)
    where
      by_entry : (o : Option PushOp) → (taken store req before f o).1.flights ≡ f.flights
      by_entry none = refl
      by_entry (some op) =
          flights-handle_op op req before (record f { pushes = forget req.nonce f.pushes })

  handle_unknown :
      (req : Request) (before : Option Bytes) (f : Forge store)
      → registered req.nonce f.pushes ≡ none
      → handle store req before f ≡ (rejected invalid_nonce, f)
  unfolding handle
  handle_unknown req before f e = rw e

  nonce_burned :
      (req : Request) (before : Option Bytes) (f : Forge store)
      → registered req.nonce (handle store req before f).1.pushes ≡ none
  unfolding handle
  nonce_burned req before f = elim (Option-cases (registered req.nonce f.pushes)) [
    | inl e ↦ rw e e
    | inr (op, e) ↦
        rw (e, pushes-handle_op op req before (record f { pushes = forget req.nonce f.pushes }))
          (registered-forget req.nonce f.pushes)
  ]

  -- A nonce serves one hook call: a second call with it, whatever it asks for, is rejected as invalid and
  -- changes nothing.
  pub handle_once :
      (req again : Request) (before before' : Option Bytes) (f : Forge store)
      → again.nonce ≡ req.nonce
      → handle store again before' (handle store req before f).1
        ≡ (rejected invalid_nonce, (handle store req before f).1)
  handle_once req again before before' f e =
      let burned = nonce_burned req before f in
      let spent : registered again.nonce (handle store req before f).1.pushes ≡ none =
        rw e burned in
      handle_unknown again before' (handle store req before f).1 spent
