-- ===== src/Ci/Report/Complete.antt =====
-- internal/ci/report.go: handleComplete, on each of its ways out.
use gitmote.Common.{ℕ, ◌+◌, Bool, List, Bytes, some, ◌≡◌}
use gitmote.Meta.Schema.{RunStatus}
use gitmote.Store.{ObjectStore}
use gitmote.Ci.Report.{Body, read_limited, Server, cap_log}

module _ (store : ObjectStore) (decimal : ℕ → Bytes) where
  -- The object under the key is the capped body.
  abbrev IsStored : (cap : ℕ) → Bytes → Body → store.Objects → Type 0
  IsStored cap key body o =
      (bytes : Bytes) × (read_limited (cap + 1) body ≡ some bytes)
      × (store.content key o ≡ some (cap_log store decimal cap bytes))

  module _ (cap job_id now : ℕ) (status : RunStatus) (body : Body) (s : Server store decimal) where
    -- The tables, the clock and the buffers are those of the state that the report found, and these are
    -- the faults to come.
    record Unmoved (faults : List Bool) (v : Server store decimal) : Type 0 where
      tables : v.world.db ≡ s.world.db
      clock : v.world.clock ≡ s.world.clock
      live : v.live ≡ s.live
      faults_left : v.world.faults ≡ faults
