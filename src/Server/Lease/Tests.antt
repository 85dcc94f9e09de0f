-- ===== src/Server/Lease/Tests.antt =====
-- cmd/gitmote/main.go: a fresh writer that nobody asks for anything.
use gitmote.Common.{
  ◌+◌, ◌≤◌, true, false, List, [], ◌∷◌, codes, bytes_eq, starts_with, some, ◌≡◌, refl, arith,
}
use gitmote.Server.Lease.{
  idle_yield_after, Activity, holders, resting, yielding, served, unavailable, leader_gate,
  new_lease_activity, always_servable, first_check, try_lock, second_check, idle, advance,
  maybe_yield, failed, yielded,
}
use gitmote.Server.Lease.Fencing.{Reach, here, next, tick, check, go_on, Reach-IsFenced}
use gitmote.Server.Lease.Idle
use gitmote.Server.Lease.Idle.{wait, probe, sweep, Event, perform_all, waited, idle_writer_yields}

abbrev fresh : Activity
fresh = new_lease_activity 10 true

-- Six seconds later the idle check runs up to the call of yield.
abbrev late : Activity
late = record {
  serving = 0;
  stamped = 0;
  sweeping = 0;
  checker = resting;
  last = 10;
  clock = 6000000010;
  is_leader = true;
}

abbrev handing_back : Activity
handing_back = record late { checker = yielding }

checks : advance yielded (advance yielded (first_check late)) ≡ handing_back
unfolding first_check advance try_lock second_check idle
checks = refl

reached : Reach fresh handing_back
unfolding new_lease_activity first_check advance try_lock second_check idle
reached =
    next
      (next (next (next here (tick 6000000010 (omega arith) refl)) (check refl refl))
        (go_on yielded refl))
      (go_on yielded refl)

Reach-IsFenced_example : (holders handing_back ≡ 0) × (10 + idle_yield_after ≤ 6000000010)
Reach-IsFenced_example = Reach-IsFenced 10 true handing_back reached

follower_is_up : leader_gate (codes "/healthz") (some false) ≡ served
unfolding leader_gate always_servable bytes_eq
follower_is_up = refl

follower_refuses : leader_gate (codes "/app") (some false) ≡ unavailable
unfolding leader_gate always_servable bytes_eq starts_with
follower_refuses = refl

abbrev calm : List Event
calm =
    probe (codes "/healthz")
    ∷ wait 3000000000
    ∷ sweep (some true)
    ∷ Idle.check (failed true)
    ∷ wait 3000000000
    ∷ []

idle_writer_yields_example : (maybe_yield yielded (perform_all calm fresh)).is_leader ≡ false
unfolding new_lease_activity always_servable bytes_eq waited
idle_writer_yields_example =
    idle_writer_yields calm fresh 0 (record { rests = refl; unheld = refl; since = omega arith })
      (refl, (tt, (tt, (tt, (tt, tt))))) (omega arith)
