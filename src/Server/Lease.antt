-- ===== src/Server/Lease.antt =====
-- cmd/gitmote/main.go: the writer's lease, who may answer, and when an idle writer hands it back.
-- Times are in nanoseconds.
pub mod Fencing
pub mod Idle
pub mod Tests
use gitmote.Common.{
  ℕ, suc, ◌+◌, ◌-◌, Bool, true, false, not, ◌||◌, Bytes, bytes_eq, codes, starts_with, leb, ltb,
  if◌then◌else◌, Option, none, some,
}

-- 5 * time.Second
abbrev pub idle_yield_after : ℕ
idle_yield_after = 5000000000

unfoldable pub always_servable : Bytes → Bool
always_servable p =
    bytes_eq p (codes "/healthz")
    || bytes_eq p (codes "/version")
    || starts_with (codes "/static/") p

-- Where maybeYield stands: not running, past its first test, with the lock for writing, and in the call
-- of yield.
pub data Checker : Type 0 where
  resting checked locked yielding : Checker

-- leaseActivity, with the clock and the lease. The holders of the lock for reading are counted: the
-- requests that run, those that have stored the time of their end, and the sweeps.
pub record Activity : Type 0 where
  pub serving : ℕ
  pub stamped : ℕ
  pub sweeping : ℕ
  pub checker : Checker
  pub last : ℕ
  pub clock : ℕ
  pub is_leader : Bool

-- newLeaseActivity
unfoldable pub new_lease_activity : (now : ℕ) (is_leader : Bool) → Activity
new_lease_activity now is_leader = record {
  serving = 0;
  stamped = 0;
  sweeping = 0;
  checker = resting;
  last = now;
  clock = now;
  is_leader = is_leader;
}

-- time.Since is negative if the clock is behind, and then the instance is not idle.
unfoldable pub idle : Activity → Bool
idle a = leb idle_yield_after (a.clock - a.last)

abbrev pub holders : Activity → ℕ
holders a = a.serving + a.stamped + a.sweeping

abbrev pub has_writer : Checker → Bool
has_writer resting = false
has_writer checked = false
has_writer locked = true
has_writer yielding = true

-- track up to the handler; `none` is a request that waits for the lock.
unfoldable pub track_enter : Bytes → Activity → Option Activity
track_enter path a =
    if always_servable path
    then some a
    else if has_writer a.checker
    then none
    else some (record a { serving = a.serving + 1 })

-- the deferred function of track: the time, then the lock
unfoldable pub track_stamp : Activity → Activity
track_stamp a =
    if ltb 0 a.serving
    then record a { serving = a.serving - 1; stamped = a.stamped + 1; last = a.clock }
    else a

unfoldable pub track_leave : Activity → Activity
track_leave a = if ltb 0 a.stamped then record a { stamped = a.stamped - 1 } else a

-- What leaderGate does with a request: the handler, or 503 with Retry-After. The gate may be nil, and
-- else answers.
pub data Gated : Type 0 where
  served unavailable : Gated

abbrev gate_opens : Option Bool → Bool
gate_opens none = true
gate_opens (some open') = open'

unfoldable pub leader_gate : Bytes → (gate : Option Bool) → Gated
leader_gate path gate = if always_servable path || gate_opens gate then served else unavailable

-- A gate that opens has the lease.
unfoldable pub promote : (gate : Option Bool) → Activity → Activity
promote none a = a
promote (some open') a = if open' then record a { is_leader = true } else a

-- reconcileOnce up to the sweep, and its end
unfoldable pub reconcile_enter : Activity → Option Activity
reconcile_enter a =
    if has_writer a.checker then none else some (record a { sweeping = a.sweeping + 1 })

unfoldable pub reconcile_leave : Activity → Activity
reconcile_leave a = if ltb 0 a.sweeping then record a { sweeping = a.sweeping - 1 } else a

-- maybeYield, in four parts that others may come between: the first test, TryLock, the second test,
-- and the end of yield.
unfoldable pub first_check : Activity → Activity
first_check a = if not a.is_leader || not (idle a) then a else record a { checker = checked }

unfoldable pub try_lock : Activity → Activity
try_lock a = record a { checker = if ltb 0 (holders a) then resting else locked }

unfoldable pub second_check : Activity → Activity
second_check a = record a { checker = if not (idle a) then resting else yielding }

-- What YieldLease returns: nil, and the lease is gone, or an error, and the lease is kept or lost.
pub data Yielded : Type 0 where
  yielded : Yielded
  failed : (is_leader : Bool) → Yielded

abbrev leads_after : Yielded → Bool
leads_after yielded = false
leads_after (failed is_leader) = is_leader

unfoldable pub end_yield : Yielded → Activity → Activity
end_yield y a = record a { checker = resting; is_leader = leads_after y }

-- the part of maybeYield that comes next, after the first
abbrev pub next_part : Yielded → Checker → Activity → Activity
next_part y resting a = a
next_part y checked a = try_lock a
next_part y locked a = second_check a
next_part y yielding a = end_yield y a

unfoldable pub advance : Yielded → Activity → Activity
advance y a = next_part y a.checker a

-- maybeYield with no other thread between its parts
unfoldable pub maybe_yield : Yielded → Activity → Activity
maybe_yield y a = advance y (advance y (advance y (first_check a)))
