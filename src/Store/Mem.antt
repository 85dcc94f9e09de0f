-- ===== src/Store/Mem.antt =====
-- internal/store/mem.go: the store as a map in memory.
use gitmote.Common.{
  Bool, true, false, ◌||◌, List, [], ◌∷◌, Bytes, bytes_eq, bytes_eq_iff, bytes_eq_refl, starts_with,
  if◌then◌else◌, Option, none, some, Result, ok, err, not_found, ◌≡◌, ◌≢◌, refl, arith, keep,
}
use gitmote.Common.Sort.{order_by, bytes_le}
use gitmote.Store.{ObjectStore}

abbrev pub Objects : Type 0
Objects = List (Bytes × Bytes)

-- m.objects[key] = data
unfoldable pub assign : Bytes → Bytes → Objects → Objects
assign key content [] = (key, content) ∷ []
assign key content ((k, c) ∷ m) =
    if bytes_eq k key then (key, content) ∷ m else (k, c) ∷ assign key content m

unfoldable pub lookup : Bytes → Objects → Option Bytes
lookup key [] = none
lookup key ((k, c) ∷ m) = if bytes_eq k key then some c else lookup key m

-- Put of a reader that yields `content`
unfoldable pub put : Bytes → Bytes → Objects → Bool × Objects
put key content m = (true, assign key content m)

abbrev or_missing : Option Bytes → Result Bytes
or_missing none = err not_found
or_missing (some c) = ok c

unfoldable pub get : Bytes → Objects → Result Bytes
get key m = or_missing (lookup key m)

abbrev is_some : Option Bytes → Bool
is_some none = false
is_some (some c) = true

unfoldable pub exists : Bytes → Objects → Bool
exists key m = is_some (lookup key m)

abbrev keys : Objects → List Bytes
keys [] = []
keys ((k, c) ∷ m) = k ∷ keys m

unfoldable pub list : Bytes → Objects → List Bytes
list prefix m = order_by bytes_le (keep (starts_with prefix) (keys m))

lookup-assign :
    (key j content : Bytes) (m : Objects)
    → lookup j (assign key content m) ≡ (if bytes_eq key j then some content else lookup j m)
unfolding lookup assign
lookup-assign key j content [] = refl
lookup-assign key j content ((k, c) ∷ m) =
    ground (
      arith,
      lookup-assign key j content m,
      bytes_eq_iff k key,
      bytes_eq_iff k j,
      bytes_eq_iff key j,
    )

exists-put :
    (key j content : Bytes) (m : Objects)
    → exists j (put key content m).1 ≡ (bytes_eq key j || exists j m)
unfolding exists put
exists-put key j content m = ground (arith, lookup-assign key j content m)

pub mem_put_self :
    (key content : Bytes) (m : Objects)
    → (put key content m).0 ≡ true
    → exists key (put key content m).1 ≡ true
mem_put_self key content m h = ground (arith, exists-put key key content m, bytes_eq_refl key)

pub mem_put_kept :
    (key j content : Bytes) (m : Objects)
    → exists j m ≡ true
    → exists j (put key content m).1 ≡ true
mem_put_kept key j content m h = ground (arith, exists-put key j content m)

pub mem_content_self :
    (key written : Bytes) (m : Objects)
    → (put key written m).0 ≡ true
    → lookup key (put key written m).1 ≡ some written
unfolding put
mem_content_self key written m h =
    ground (arith, lookup-assign key key written m, bytes_eq_refl key)

pub mem_content_other :
    (key j written : Bytes) (m : Objects) → key ≢ j → lookup j (put key written m).1 ≡ lookup j m
unfolding put
mem_content_other key j written m h =
    ground (arith, lookup-assign key j written m, bytes_eq_iff key j)

-- The map in memory meets the contract.
abbrev pub mem_store : ObjectStore
mem_store = record {
  Objects = Objects;
  put = put;
  exists = exists;
  content = lookup;
  content-put_self = mem_content_self;
  content-put_other = mem_content_other;
  exists-put_self = mem_put_self;
  exists-put_kept = mem_put_kept;
}
