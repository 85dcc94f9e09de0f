-- ===== src/Common/Sort.antt =====
-- ORDER BY, as a stable insertion sort, and the byte order of names.
use mathlib.Core.Path.{◌≡◌, refl}
use mathlib.Core.Logic.{◌↔◌, ◌⊎◌, inl, inr}
use mathlib.Core.Bool.{Bool, true, false}
use mathlib.Core.List.{List, [], ◌∷◌}
use native.Mathlib.Omega.{arith}
use gitmote.Common.Tests.{◌==◌, ltb, if◌then◌else◌}
use gitmote.Common.Lists.{All, Has}
use gitmote.Common.Text.{Bytes}

-- Go and SQLite compare strings byte by byte.
unfoldable pub bytes_le : Bytes → Bytes → Bool
bytes_le [] t = true
bytes_le (a ∷ s) [] = false
bytes_le (a ∷ s) (b ∷ t) = if a == b then bytes_le s t else ltb a b

pub bytes_le_total : (s t : Bytes) → (bytes_le s t ≡ true) ⊎ (bytes_le t s ≡ true)
unfolding bytes_le
bytes_le_total [] t = inl refl
bytes_le_total (a ∷ s) [] = inr refl
bytes_le_total (a ∷ s) (b ∷ t) = ground (arith, bytes_le_total s t)

pub bytes_le_trans :
    (r s t : Bytes) → bytes_le r s ≡ true → bytes_le s t ≡ true → bytes_le r t ≡ true
unfolding bytes_le
bytes_le_trans [] s t h k = refl
bytes_le_trans (a ∷ r) [] t h k = ground arith
bytes_le_trans (a ∷ r) (b ∷ s) [] h k = ground arith
bytes_le_trans (a ∷ r) (b ∷ s) (c ∷ t) h k = ground (arith, bytes_le_trans r s t)

module _ {A : Type 0} (le : A → A → Bool) where
  unfoldable pub insert : A → List A → List A
  insert x [] = x ∷ []
  insert x (y ∷ ys) = if le x y then x ∷ y ∷ ys else y ∷ insert x ys

  unfoldable pub order_by : List A → List A
  unfolding insert
  order_by [] = []
  order_by (x ∷ xs) = insert x (order_by xs)

  Has-insert_intro : (x a : A) (xs : List A) → (x ≡ a) ⊎ Has x xs → Has x (insert a xs)
  unfolding insert
  Has-insert_intro x a [] h = h
  Has-insert_intro x a (y ∷ ys) (inl e) = ground (arith, Has-insert_intro x a ys (inl e))
  Has-insert_intro x a (y ∷ ys) (inr (inl e)) = ground arith
  Has-insert_intro x a (y ∷ ys) (inr (inr h)) = ground (arith, Has-insert_intro x a ys (inr h))

  insert_sound : (x a : A) (xs : List A) → Has x (insert a xs) → (x ≡ a) ⊎ Has x xs
  unfolding insert
  insert_sound x a [] h = h
  insert_sound x a (y ∷ ys) h = ground (arith, insert_sound x a ys)

  Has-order_by_intro : (x : A) (xs : List A) → Has x xs → Has x (order_by xs)
  unfolding order_by
  Has-order_by_intro x [] h = h
  Has-order_by_intro x (y ∷ ys) (inl e) = Has-insert_intro x y (order_by ys) (inl e)
  Has-order_by_intro x (y ∷ ys) (inr h) =
      Has-insert_intro x y (order_by ys) (inr (Has-order_by_intro x ys h))

  order_by_sound : (x : A) (xs : List A) → Has x (order_by xs) → Has x xs
  unfolding order_by
  order_by_sound x [] h = h
  order_by_sound x (y ∷ ys) h =
      ground (arith, insert_sound x y (order_by ys) h, order_by_sound x ys)

  -- Sorting keeps every row and adds none.
  pub Has-order_by : (x : A) (xs : List A) → Has x (order_by xs) ↔ Has x xs
  Has-order_by x xs = (order_by_sound x xs, Has-order_by_intro x xs)

  -- Every row stands before the rows that follow it.
  abbrev pub IsSorted : List A → Type 0
  IsSorted [] = Unit
  IsSorted (x ∷ xs) = All (λ y. le x y ≡ true) xs × IsSorted xs

  module _ (total : (x y : A) → (le x y ≡ true) ⊎ (le y x ≡ true))
      (trans : (x y z : A) → le x y ≡ true → le y z ≡ true → le x z ≡ true) where
    All-le_trans :
        (x y : A) (ys : List A)
        → le x y ≡ true
        → All (λ z. le y z ≡ true) ys
        → All (λ z. le x z ≡ true) ys
    All-le_trans x y [] h k = tt
    All-le_trans x y (z ∷ zs) h k = (trans x y z h k.0, All-le_trans x y zs h k.1)

    All-insert :
        (y a : A) (xs : List A)
        → le y a ≡ true
        → All (λ z. le y z ≡ true) xs
        → All (λ z. le y z ≡ true) (insert a xs)
    unfolding insert
    All-insert y a [] h k = (h, tt)
    All-insert y a (x ∷ xs) h k = ground (arith, All-insert y a xs h k.1)

    insert-IsSorted : (a : A) (xs : List A) → IsSorted xs → IsSorted (insert a xs)
    unfolding insert
    insert-IsSorted a [] h = (tt, tt)
    insert-IsSorted a (x ∷ xs) h =
        ground (arith, total a x, All-insert x a xs, All-le_trans a x xs, insert-IsSorted a xs h.1)

    pub order_by-IsSorted : (xs : List A) → IsSorted (order_by xs)
    unfolding order_by
    order_by-IsSorted [] = tt
    order_by-IsSorted (x ∷ xs) = insert-IsSorted x (order_by xs) (order_by-IsSorted xs)
