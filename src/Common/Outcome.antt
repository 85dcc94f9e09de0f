-- ===== src/Common/Outcome.antt =====
-- The results of Go functions that return an error beside their value.
use mathlib.Core.Path.{◌≡◌}
use mathlib.Core.Bool.{Bool, true, false}
use gitmote.Common.Text.{Bytes}

-- The errors that callers tell apart by errors.Is and errors.As. `driver` stands for every error
-- of the database driver that the program passes on, `cas_mismatch` for *CASMismatchError.
pub data Error : Type 0 where
  not_found driver unique_violation check_violation : Error
  invalid_repo_name unauthorized forbidden : Error
  cas_mismatch : (name want got : Bytes) → Error

pub data Result {ℓ} (A : Type ℓ) : Type ℓ where
  ok : A → Result A
  err : Error → Result A

pub ok-ne-err {ℓ} : {A : Type ℓ} {a : A} {e : Error} → ok a ≡ err e → ⊥
ok-ne-err h = cc

abbrev pub is_ok {ℓ} : {A : Type ℓ} → Result A → Bool
is_ok (ok a) = true
is_ok (err e) = false
