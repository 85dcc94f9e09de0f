-- ===== src/Common/Lists.antt =====
-- Lists measured by native numbers, and tests over lists.
use Prim.Native.Nat.{ℕ, zero, suc, ◌+◌}
use mathlib.Core.Path.{◌≡◌, refl}
use mathlib.Core.Bool.{Bool, true, false, ◌||◌}
use mathlib.Core.Logic.{◌↔◌, ◌⊎◌, inl, inr}
use mathlib.Core.Option.{Option, none, some}
use mathlib.Core.List.{List, [], ◌∷◌, ◌++◌}
use native.Mathlib.Omega.{arith}
use gitmote.Common.Tests.{if◌then◌else◌}

module _ {ℓ} {A : Type ℓ} where
  abbrev pub length : List A → ℕ
  length [] = 0
  length (x ∷ xs) = suc (length xs)

  abbrev pub take : ℕ → List A → List A
  take zero xs = []
  take (suc n) [] = []
  take (suc n) (x ∷ xs) = x ∷ take n xs

  abbrev pub drop : ℕ → List A → List A
  drop zero xs = xs
  drop (suc n) [] = []
  drop (suc n) (x ∷ xs) = drop n xs

  pub length-append : (xs ys : List A) → length (xs ++ ys) ≡ length xs + length ys
  length-append [] ys = omega arith
  length-append (x ∷ xs) ys = omega (arith, length-append xs ys)

  -- The rows that pass a test, in order.
  abbrev pub keep : (A → Bool) → List A → List A
  keep p [] = []
  keep p (x ∷ xs) = if p x then x ∷ keep p xs else keep p xs

  abbrev pub any : (A → Bool) → List A → Bool
  any p [] = false
  any p (x ∷ xs) = p x || any p xs

  -- The first row that passes a test.
  abbrev pub find : (A → Bool) → List A → Option A
  find p [] = none
  find p (x ∷ xs) = if p x then some x else find p xs

  abbrev pub is_empty : List A → Bool
  is_empty [] = true
  is_empty (x ∷ xs) = false

-- A predicate of every member.
abbrev pub All {ℓ κ} : {A : Type ℓ} → (A → Type κ) → List A → Type κ
All P [] = Unit
All P (x ∷ xs) = P x × All P xs

-- Membership, by recursion.
abbrev pub Has : {A : Type 0} → A → List A → Type 0
Has x [] = ⊥
Has x (y ∷ ys) = (x ≡ y) ⊎ Has x ys

Has-keep_intro :
    {A : Type 0} (p : A → Bool) (x : A) (xs : List A) → Has x xs → p x ≡ true → Has x (keep p xs)
Has-keep_intro p x [] h e = h
Has-keep_intro p x (y ∷ ys) (inl q) e = rw (← q, e) (inl refl)
Has-keep_intro p x (y ∷ ys) (inr h) e = ground (arith, Has-keep_intro p x ys h e)

keep_sound :
    {A : Type 0} (p : A → Bool) (x : A) (xs : List A) → Has x (keep p xs) → Has x xs × (p x ≡ true)
keep_sound p x [] h = absurd h
keep_sound p x (y ∷ ys) h = ground (arith, keep_sound p x ys)

-- The rows that a WHERE clause selects are those that pass it.
pub Has-keep :
    {A : Type 0} (p : A → Bool) (x : A) (xs : List A)
    → Has x (keep p xs) ↔ (Has x xs × (p x ≡ true))
Has-keep p x xs = (keep_sound p x xs, λ h. Has-keep_intro p x xs h.0 h.1)
