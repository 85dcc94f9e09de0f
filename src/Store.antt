-- ===== src/Store.antt =====
-- internal/store: the contract of the object store, as its clients rely on it, and the in-memory
-- implementation. The implementation on S3 calls a service and is not modelled.
pub mod Mem
use gitmote.Common.{Bool, true, Bytes, Option, none, some, ◌≡◌, ◌≢◌}

-- store.Store. `put` says whether Put returned nil. A failed Put may leave the object behind or not;
-- in no case does it touch another. `content` is what a Get that does not fail reads, and `none` its
-- ErrNotFound; that a Get may fail otherwise, and List, are left out, since no client modelled here uses
-- them.
pub record ObjectStore : Type 1 where
  pub Objects : Type 0
  pub put : Bytes → Bytes → Objects → Bool × Objects
  pub exists : Bytes → Objects → Bool
  pub content : Bytes → Objects → Option Bytes
  pub content-put_self :
      (key written : Bytes) (s : Objects)
      → (put key written s).0 ≡ true
      → content key (put key written s).1 ≡ some written
  pub content-put_other :
      (key j written : Bytes) (s : Objects)
      → key ≢ j
      → content j (put key written s).1 ≡ content j s
  pub exists-put_self :
      (key content : Bytes) (s : Objects)
      → (put key content s).0 ≡ true
      → exists key (put key content s).1 ≡ true
  pub exists-put_kept :
      (key j content : Bytes) (s : Objects)
      → exists j s ≡ true
      → exists j (put key content s).1 ≡ true
