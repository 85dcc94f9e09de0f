-- ===== src/Server/Lease/Fencing.antt =====
-- cmd/gitmote/main.go: requests, sweeps and the idle check as interleaved steps.
use gitmote.Common.{
  ℕ, ◌+◌, ◌-◌, ◌≤◌, Bool, true, false, not, ◌||◌, Bytes, leb, ltb, Option, none, some, ◌≡◌, refl,
  arith, Bool-cases, inl, inr,
}
use gitmote.Server.Lease.{
  idle_yield_after, always_servable, Checker, resting, checked, locked, yielding, Activity,
  new_lease_activity, idle, holders, has_writer, track_enter, track_stamp, track_leave, promote,
  reconcile_enter, reconcile_leave, first_check, try_lock, second_check, Yielded, end_yield,
  advance, next_part,
}

-- What may happen next. The clock only moves forward; a check starts when none runs; s3lite may take
-- or lose the lease at any time.
pub data Step (a a' : Activity) : Type 0 where
  tick : (now : ℕ) → a.clock ≤ now → a' ≡ record a { clock = now } → Step a a'
  arrive : (path : Bytes) → track_enter path a ≡ some a' → Step a a'
  gate : (answer : Option Bool) → a' ≡ promote answer a → Step a a'
  stamp : a' ≡ track_stamp a → Step a a'
  leave : a' ≡ track_leave a → Step a a'
  sweep : reconcile_enter a ≡ some a' → Step a a'
  swept : a' ≡ reconcile_leave a → Step a a'
  check : a.checker ≡ resting → a' ≡ first_check a → Step a a'
  go_on : (y : Yielded) → a' ≡ advance y a → Step a a'
  elsewhere : (is_leader : Bool) → a' ≡ record a { is_leader = is_leader } → Step a a'

pub data Reach (a : Activity) : Activity → Type 0 where
  here : Reach a a
  next : {b c : Activity} → Reach a b → Step b c → Reach a c

abbrev Fenced : Checker → Activity → Type 0
Fenced resting a = Unit
Fenced checked a = Unit
Fenced locked a = holders a ≡ 0
Fenced yielding a = (holders a ≡ 0) × (a.last + idle_yield_after ≤ a.clock)

-- While maybeYield holds the lock, no request and no sweep runs; and while it is in the call of yield,
-- no request has ended within idleYieldAfter either.
abbrev pub IsFenced : Activity → Type 0
IsFenced a = Fenced a.checker a

-- A step that leaves the checker, the clock and, unless a request runs, the last end.
Fenced-same :
    (c : Checker) (a b : Activity)
    → (holders a ≡ 0 → (holders b ≡ 0) × (b.last ≡ a.last))
    → a.clock ≤ b.clock
    → Fenced c a
    → Fenced c b
Fenced-same resting a b k l f = tt
Fenced-same checked a b k l f = tt
Fenced-same locked a b k l f = (k f).0
Fenced-same yielding a b k l f = ((k f.0).0, omega (arith, k f.0))

Fenced-no_writer : (c : Checker) (a : Activity) → has_writer c ≡ false → Fenced c a
Fenced-no_writer resting a h = tt
Fenced-no_writer checked a h = tt
Fenced-no_writer locked a h = absurd (cc)
Fenced-no_writer yielding a h = absurd (cc)

IsFenced-track_enter :
    (path : Bytes) (a b : Activity) → track_enter path a ≡ some b → IsFenced a → IsFenced b
unfolding track_enter
IsFenced-track_enter path a b h f = elim (Bool-cases (always_servable path)) [
  | inl e ↦ (let same : a ≡ b = ground arith in rw (← same) f)
  | inr e ↦ elim (Bool-cases (has_writer a.checker)) [
    | inl w ↦ absurd (ground arith)
    | inr w ↦
        (let same : record a { serving = a.serving + 1 } ≡ b = ground arith in
          rw (← same) (Fenced-no_writer a.checker _ w))
  ]
]

IsFenced-reconcile_enter : (a b : Activity) → reconcile_enter a ≡ some b → IsFenced b
unfolding reconcile_enter
IsFenced-reconcile_enter a b h = elim (Bool-cases (has_writer a.checker)) [
  | inl w ↦ absurd (ground arith)
  | inr w ↦
      (let same : record a { sweeping = a.sweeping + 1 } ≡ b = ground arith in
        rw (← same) (Fenced-no_writer a.checker _ w))
]

IsFenced-next_part :
    (y : Yielded) (c : Checker) (a : Activity)
    → a.checker ≡ c
    → Fenced c a
    → IsFenced (next_part y c a)
unfolding try_lock second_check end_yield idle
IsFenced-next_part y resting a e f = rw e tt
IsFenced-next_part y checked a e f = elim (Bool-cases (ltb 0 (holders a))) [
  | inl h ↦ rw h tt
  | inr h ↦ rw h (ground arith)
]
IsFenced-next_part y locked a e f = elim (Bool-cases (leb idle_yield_after (a.clock - a.last))) [
  | inl h ↦ rw h (f, ground arith)
  | inr h ↦ rw h tt
]
IsFenced-next_part y yielding a e f = tt

IsFenced-track_stamp : (a : Activity) → IsFenced a → IsFenced (track_stamp a)
unfolding track_stamp
IsFenced-track_stamp a f = elim (Bool-cases (ltb 0 a.serving)) [
  | inl h ↦ rw h (Fenced-same a.checker a _ (λ z. absurd (ground arith)) (omega arith) f)
  | inr h ↦ rw h f
]

IsFenced-track_leave : (a : Activity) → IsFenced a → IsFenced (track_leave a)
unfolding track_leave
IsFenced-track_leave a f = elim (Bool-cases (ltb 0 a.stamped)) [
  | inl h ↦ rw h (Fenced-same a.checker a _ (λ z. (omega arith, refl)) (omega arith) f)
  | inr h ↦ rw h f
]

IsFenced-reconcile_leave : (a : Activity) → IsFenced a → IsFenced (reconcile_leave a)
unfolding reconcile_leave
IsFenced-reconcile_leave a f = elim (Bool-cases (ltb 0 a.sweeping)) [
  | inl h ↦ rw h (Fenced-same a.checker a _ (λ z. (omega arith, refl)) (omega arith) f)
  | inr h ↦ rw h f
]

IsFenced-promote : (answer : Option Bool) (a : Activity) → IsFenced a → IsFenced (promote answer a)
unfolding promote
IsFenced-promote none a f = f
IsFenced-promote (some true) a f = Fenced-same a.checker a _ (λ z. (z, refl)) (omega arith) f
IsFenced-promote (some false) a f = f

IsFenced-first_check : (a : Activity) → a.checker ≡ resting → IsFenced (first_check a)
unfolding first_check
IsFenced-first_check a e = elim (Bool-cases (not a.is_leader || not (idle a))) [
  | inl h ↦ rw (h, e) tt
  | inr h ↦ rw h tt
]

IsFenced-step : (a b : Activity) → Step a b → IsFenced a → IsFenced b
unfolding advance
IsFenced-step a b (tick now l e) f = rw e (Fenced-same a.checker a _ (λ z. (z, refl)) l f)
IsFenced-step a b (arrive path e) f = IsFenced-track_enter path a b e f
IsFenced-step a b (gate answer e) f = rw e (IsFenced-promote answer a f)
IsFenced-step a b (stamp e) f = rw e (IsFenced-track_stamp a f)
IsFenced-step a b (leave e) f = rw e (IsFenced-track_leave a f)
IsFenced-step a b (sweep e) f = IsFenced-reconcile_enter a b e
IsFenced-step a b (swept e) f = rw e (IsFenced-reconcile_leave a f)
IsFenced-step a b (check r e) f = rw e (IsFenced-first_check a r)
IsFenced-step a b (go_on y e) f = rw e (IsFenced-next_part y a.checker a refl f)
IsFenced-step a b (elsewhere is_leader e) f =
    rw e (Fenced-same a.checker a _ (λ z. (z, refl)) (omega arith) f)

-- In every state that a server reaches from its start, by any interleaving of requests, sweeps, gates
-- and idle checks: while the idle check holds the lock, no request and no sweep runs, and while it
-- hands the lease back, moreover, no request has ended within idleYieldAfter.
pub Reach-IsFenced :
    (now : ℕ) (is_leader : Bool) (a : Activity)
    → Reach (new_lease_activity now is_leader) a
    → IsFenced a
unfolding new_lease_activity
Reach-IsFenced now is_leader a here = tt
Reach-IsFenced now is_leader a (next {b = b} r s) =
    IsFenced-step b a s (Reach-IsFenced now is_leader b r)
