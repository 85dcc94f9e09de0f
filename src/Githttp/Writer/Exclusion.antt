-- ===== src/Githttp/Writer/Exclusion.antt =====
-- internal/githttp/receive.go: pushes as interleaved steps over the locks and the nonces.
use gitmote.Common.{
  ℕ, Bool, true, false, ◌&&◌, ◌||◌, List, [], ◌∷◌, Bytes, bytes_eq, bytes_eq_iff, bytes_eq_refl,
  Option, ok, ◌≡◌, inl, inr, refl, arith, All,
}
use gitmote.Meta.Sql.{World}
use gitmote.Store.{ObjectStore}
use gitmote.Githttp.Writer.{
  Request, PushOp, Flight, forget, land, is_locked, is_flying, resolve, Forge, acquire, release,
  handle, put_objects, commit_refs,
}
use gitmote.Githttp.Writer.Handle.{pushes-handle, flights-handle}

-- No two pushes in flight hold the lock of one name.
abbrev pub HasUniqueLocks : List Flight → Type 0
HasUniqueLocks [] = Unit
HasUniqueLocks (fl ∷ fls) = (is_locked fl.repo_name fls ≡ false) × HasUniqueLocks fls

abbrev pub HasUniqueNonces : List Flight → Type 0
HasUniqueNonces [] = Unit
HasUniqueNonces (fl ∷ fls) = (is_flying fl.nonce fls ≡ false) × HasUniqueNonces fls

unfoldable pub owns : Bytes → Bytes → List Flight → Bool
owns nonce name [] = false
owns nonce name (fl ∷ fls) =
    (bytes_eq fl.nonce nonce && bytes_eq fl.repo_name name) || owns nonce name fls

-- Every registered nonce is that of a push that holds the lock of its operation's repo name.
abbrev pub AllOwned : List Flight → List (Bytes × PushOp) → Type 0
AllOwned fls m = All (λ p. owns p.0 p.1.repo_name fls ≡ true) m

pub record IsExclusive (fls : List Flight) (m : List (Bytes × PushOp)) : Type 0 where
  pub locks : HasUniqueLocks fls
  pub nonces : HasUniqueNonces fls
  pub owned : AllOwned fls m

module _ (store : ObjectStore) where
  -- What may happen next. Begin passes its lock with what it resolved, perhaps long before; its nonce is
  -- random, so no push in flight has it. A hook may call with any nonce. A call may run without a pause,
  -- or in parts, the take of its nonce, the upload and the CAS, between which anything may happen, also
  -- the end of its push. The rest of the program may move the database.
  pub data Step (f : Forge store) (f' : Forge store) : Type 0 where
    begin :
        (earlier : World) (repo_name : Bytes) (pusher_id : ℕ) (op : PushOp) (nonce : Bytes)
        → (resolve repo_name pusher_id earlier).0 ≡ ok op
        → is_locked op.repo_name f.flights ≡ false
        → is_flying nonce f.flights ≡ false
        → f' ≡ acquire store op nonce f
        → Step f f'
    hook : (req : Request) (before : Option Bytes) → f' ≡ (handle store req before f).1 → Step f f'
    take : (nonce : Bytes) → f' ≡ record f { pushes = forget nonce f.pushes } → Step f f'
    upload :
        (op : PushOp) (req : Request)
        → f' ≡ record f { objects = (put_objects store op.repo_name req.quarantine f.objects).1 }
        → Step f f'
    commit : (op : PushOp) (req : Request) → f' ≡ (commit_refs store op req f).1 → Step f f'
    finish : (fl : Flight) → f' ≡ release store fl f → Step f f'
    elsewhere : (w : World) → f' ≡ record f { world = w } → Step f f'

  pub data Reach (s : Forge store) : Forge store → Type 0 where
    here : Reach s s
    next : {f f' : Forge store} → Reach s f → Step f f' → Reach s f'

is_locked-land :
    (nonce name : Bytes) (fls : List Flight)
    → is_locked name fls ≡ false
    → is_locked name (land nonce fls) ≡ false
unfolding is_locked land
is_locked-land nonce name [] h = refl
is_locked-land nonce name (fl ∷ fls) h = ground (arith, is_locked-land nonce name fls)

is_flying-land :
    (nonce n : Bytes) (fls : List Flight)
    → is_flying n fls ≡ false
    → is_flying n (land nonce fls) ≡ false
unfolding is_flying land
is_flying-land nonce n [] h = refl
is_flying-land nonce n (fl ∷ fls) h = ground (arith, is_flying-land nonce n fls)

land-HasUniqueLocks :
    (nonce : Bytes) (fls : List Flight) → HasUniqueLocks fls → HasUniqueLocks (land nonce fls)
unfolding land
land-HasUniqueLocks nonce [] h = tt
land-HasUniqueLocks nonce (fl ∷ fls) h =
    ground (arith, land-HasUniqueLocks nonce fls h.1, is_locked-land nonce fl.repo_name fls h.0)

land-HasUniqueNonces :
    (nonce : Bytes) (fls : List Flight) → HasUniqueNonces fls → HasUniqueNonces (land nonce fls)
unfolding land
land-HasUniqueNonces nonce [] h = tt
land-HasUniqueNonces nonce (fl ∷ fls) h =
    ground (arith, land-HasUniqueNonces nonce fls h.1, is_flying-land nonce fl.nonce fls h.0)

owns-land :
    (nonce n name : Bytes) (fls : List Flight)
    → bytes_eq n nonce ≡ false
    → owns n name fls ≡ true
    → owns n name (land nonce fls) ≡ true
unfolding owns land
owns-land nonce n name [] e h = h
owns-land nonce n name (fl ∷ fls) e h = ground (
  arith,
  owns-land nonce n name fls e,
  bytes_eq_iff fl.nonce nonce,
  bytes_eq_iff fl.nonce n,
  bytes_eq_iff n nonce,
)

forget-AllOwned :
    (nonce : Bytes) (fls : List Flight) (m : List (Bytes × PushOp))
    → AllOwned fls m
    → AllOwned fls (forget nonce m)
unfolding forget
forget-AllOwned nonce fls [] h = tt
forget-AllOwned nonce fls ((n, op) ∷ m) h = ground (arith, forget-AllOwned nonce fls m h.1)

land-AllOwned :
    (nonce : Bytes) (fls : List Flight) (m : List (Bytes × PushOp))
    → AllOwned fls m
    → AllOwned (land nonce fls) (forget nonce m)
unfolding forget
land-AllOwned nonce fls [] h = tt
land-AllOwned nonce fls ((n, op) ∷ m) h =
    ground (arith, land-AllOwned nonce fls m h.1, owns-land nonce n op.repo_name fls)

cons-AllOwned :
    (fl : Flight) (fls : List Flight) (m : List (Bytes × PushOp))
    → AllOwned fls m
    → AllOwned (fl ∷ fls) m
unfolding owns
cons-AllOwned fl fls [] h = tt
cons-AllOwned fl fls ((n, op) ∷ m) h = ground (arith, cons-AllOwned fl fls m h.1)

module _ (store : ObjectStore) where
  Step-IsExclusive :
      (f f' : Forge store)
      → Step store f f'
      → IsExclusive f.flights f.pushes
      → IsExclusive f'.flights f'.pushes
  Step-IsExclusive f f' (begin w name id op nonce resolved free new e) x = rw e (
      unfold acquire owns in
      record {
        locks = (free, x.locks);
        nonces = (new, x.nonces);
        owned = (
          ground (arith, bytes_eq_refl nonce, bytes_eq_refl op.repo_name),
          cons-AllOwned (record { nonce = nonce; repo_name = op.repo_name }) f.flights f.pushes
              x.owned,
        );
      })
  Step-IsExclusive f f' (hook req before e) x =
      rw (e, flights-handle store req before f)
        (elim (pushes-handle store req before f) [
          | inl same ↦ rw same x
          | inr burned ↦ rw burned (record {
            locks = x.locks;
            nonces = x.nonces;
            owned = forget-AllOwned req.nonce f.flights f.pushes x.owned;
          })
        ])
  Step-IsExclusive f f' (take nonce e) x = rw e (record {
    locks = x.locks;
    nonces = x.nonces;
    owned = forget-AllOwned nonce f.flights f.pushes x.owned;
  })
  Step-IsExclusive f f' (upload op req e) x = rw e x
  Step-IsExclusive f f' (commit op req e) x = rw e (unfold commit_refs in x)
  Step-IsExclusive f f' (finish fl e) x = rw e (
      unfold release in
      record {
        locks = land-HasUniqueLocks fl.nonce f.flights x.locks;
        nonces = land-HasUniqueNonces fl.nonce f.flights x.nonces;
        owned = land-AllOwned fl.nonce f.flights f.pushes x.owned;
      })
  Step-IsExclusive f f' (elsewhere w e) x = rw e x

  -- Whatever the interleaving of pushes, the parts of hook calls and other work, from a forge with no push in flight:
  -- no two pushes hold the lock of one repo name, no two have one nonce, and every nonce that still
  -- counts is that of a push in flight that holds the lock of the repo name that its hook will write to.
  pub Reach-IsExclusive :
      {s f : Forge store}
      → s.flights ≡ []
      → s.pushes ≡ []
      → Reach store s f
      → IsExclusive f.flights f.pushes
  Reach-IsExclusive none_flying none_registered here =
      rw (none_flying, none_registered) (record { locks = tt; nonces = tt; owned = tt })
  Reach-IsExclusive none_flying none_registered (next {f = f} {f' = f'} r step) =
      Step-IsExclusive f f' step (Reach-IsExclusive none_flying none_registered r)
