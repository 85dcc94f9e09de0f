-- ===== src/Meta/Sql.antt =====
-- How the metadata layer meets its database: statements, failures of the driver, transactions.
-- Every statement may fail for a reason outside the program (the context is cancelled, the disk is
-- full, a foreign key). Which ones do is an input, `faults`, with an entry for each statement to
-- come; a statement past its end succeeds. A failed statement writes nothing.
use gitmote.Common.{
  ℕ, Bool, false, List, [], ◌∷◌, Result, ok, err, driver, not_found, Option, none, some,
  if◌then◌else◌, Error, ◌≡◌, refl, arith,
}
use gitmote.Meta.Schema.{Db}

pub record World : Type 0 where
  pub db : Db
  pub faults : List Bool
  pub clock : ℕ

unfoldable pub next_fault : List Bool → Bool
next_fault [] = false
next_fault (f ∷ fs) = f

unfoldable pub later : List Bool → List Bool
later [] = []
later (f ∷ fs) = fs

abbrev pub spend : World → World
spend w = record w { faults = later w.faults }

abbrev pub Sql {ℓ} : Type ℓ → Type ℓ
Sql A = World → Result A × World

module _ {ℓ} {A : Type ℓ} where
  abbrev pub pure : A → Sql A
  pure a w = (ok a, w)

  abbrev pub raise : Error → Sql A
  raise e w = (err e, w)

  -- A query, as a function of the tables.
  abbrev pub select : (Db → A) → Sql A
  select f w = if next_fault w.faults then (err driver, spend w) else (ok (f w.db), spend w)

  abbrev pub write : Result (Db × A) → Sql A
  write (ok (db, a)) w = (ok a, record w { db = db })
  write (err e) w = (err e, w)

  -- A statement that writes. It may be refused by a constraint, and then changes nothing.
  abbrev pub exec : (Db → Result (Db × A)) → Sql A
  exec f w = if next_fault w.faults then (err driver, spend w) else write (f w.db) (spend w)

  abbrev pub commit_or_rollback : Db → Result A → Sql A
  commit_or_rollback before (ok a) w =
      if next_fault w.faults
      then (err driver, record w { db = before; faults = later w.faults })
      else (ok a, spend w)
  commit_or_rollback before (err e) w = (err e, record w { db = before })

  -- BeginTx, the body, and Commit; any error leads to the deferred Rollback.
  unfoldable pub in_tx : Sql A → Sql A
  in_tx body w =
      if next_fault w.faults
      then (err driver, spend w)
      else (let (r, w') = body (spend w) in commit_or_rollback w.db r w')

  -- sql.ErrNoRows becomes ErrNotFound.
  abbrev pub or_not_found : Option A → Sql A
  or_not_found none = raise not_found
  or_not_found (some a) = pure a

  abbrev pub not_found_to : Error → Result A → Sql A
  not_found_to e (err not_found) w = (err e, w)
  not_found_to e r w = (r, w)

  -- `if errors.Is(err, ErrNotFound) { return e }`, any other error passed on
  abbrev pub not_found_as : Error → Sql A → Sql A
  not_found_as e m w = let (r, w') = m w in not_found_to e r w'

-- now()
abbrev pub now : Sql ℕ
now w = (ok w.clock, w)

module _ {ℓ κ} {A : Type ℓ} {B : Type κ} where
  abbrev pub continue : Result A → (A → Sql B) → Sql B
  continue (ok a) f w = f a w
  continue (err e) f w = (err e, w)

  infixl 5 ◌>>=◌
  abbrev pub ◌>>=◌ : Sql A → (A → Sql B) → Sql B
  ◌>>=◌ m f w = let (r, w') = m w in continue r f w'

infixl 5 ◌>>◌
abbrev pub ◌>>◌ {ℓ} : {B : Type ℓ} → Sql (Unit {0}) → Sql B → Sql B
m >> n = m >>= λ _. n

-- No statement to come fails.
abbrev pub IsQuiet : World → Type 0
IsQuiet w = w.faults ≡ []

-- A bind that succeeds has two parts that do.
pub continue-eq-ok {ℓ κ} :
    {A : Type ℓ} {B : Type κ} (r : Result A) (f : A → Sql B) (w : World) {b : B}
    → (continue r f w).0 ≡ ok b
    → (a : A) × (r ≡ ok a) × ((f a w).0 ≡ ok b)
continue-eq-ok (ok a) f w h = (a, refl, h)
continue-eq-ok (err e) f w h = absurd (cc)

pub not_found_to-eq-ok {ℓ} :
    {A : Type ℓ} (e : Error) (r : Result A) (w : World) {a : A}
    → (not_found_to e r w).0 ≡ ok a
    → (r ≡ ok a) × ((not_found_to e r w).1 ≡ w)
not_found_to-eq-ok e (ok a) w h = (h, refl)
not_found_to-eq-ok e (err not_found) w h = absurd (cc)
not_found_to-eq-ok e (err x) w h = ground arith
