-- ===== src/Meta/Secrets/Agreement.antt =====
-- internal/meta/secrets.go: several callers of GetOrCreateSecret.
use gitmote.Common.{ℕ, Bytes, Option, ok, ◌≡◌, ◌==◌, if◌then◌else◌}
use gitmote.Meta.Sql.{World}
use gitmote.Meta.Secrets.{Replica, Phase, finished, advance_secret}
use gitmote.Meta.Secrets.Keeping.{Holds}

-- A call of GetOrCreateSecret by any instance: its turns, the name, and what gen returns.
pub record Caller : Type 0 where
  pub turns : ℕ
  pub name : Bytes
  pub gen : Option Bytes

-- The calls are numbered; each has not begun, or is somewhere between its statements, or has returned.
pub record Calls : Type 0 where
  pub world : World
  pub phase : ℕ → Phase

abbrev pub set_phase : ℕ → Phase → (ℕ → Phase) → ℕ → Phase
set_phase i p f j = if j == i then p else f j

module _ (h : Replica) (callers : ℕ → Caller) where
  abbrev pub turn_of : ℕ → Calls → Phase × World
  turn_of i s =
      advance_secret h (callers i).turns (callers i).name (callers i).gen (s.phase i) s.world

  -- The next statement of one call, or any other change of the database that keeps the server secrets.
  pub data Step (s s' : Calls) : Type 0 where
    turn :
        (i : ℕ)
        → s' ≡ record { world = (turn_of i s).1; phase = set_phase i (turn_of i s).0 s.phase }
        → Step s s'
    elsewhere :
        (w : World)
        → ((name value : Bytes) → Holds name value s.world → Holds name value w)
        → s' ≡ record s { world = w }
        → Step s s'

  pub data Reach (s : Calls) : Calls → Type 0 where
    here : Reach s s
    next : {t u : Calls} → Reach s t → Step t u → Reach s u

  -- Every call that returned a value left it under its name.
  abbrev Agreed : Calls → Type 0
  Agreed s = (i : ℕ) (v : Bytes) → s.phase i ≡ finished (ok v) → Holds (callers i).name v s.world
