-- ===== src/Server/Lease/Idle.antt =====
-- cmd/gitmote/main.go: an idle writer hands its lease back.
use gitmote.Common.{
  ℕ, ◌+◌, ◌-◌, ◌≤◌, ◌<◌, Bool, true, false, not, ◌||◌, List, [], ◌∷◌, Bytes, leb, ltb,
  if◌then◌else◌, Option, none, some, ◌≡◌, refl, arith, All, Bool-cases, inl, inr,
}
use gitmote.Server.Lease.{
  idle_yield_after, always_servable, resting, Activity, idle, holders, has_writer, track_enter,
  promote, reconcile_enter, reconcile_leave, first_check, try_lock, second_check, Yielded, yielded,
  end_yield, advance, maybe_yield,
}

-- What goes on beside requests: time passes, a probe or an asset is served, a sweep runs to its end
-- behind the gate, and the idle check runs.
pub data Event : Type 0 where
  wait : (time : ℕ) → Event
  probe : (path : Bytes) → Event
  sweep : (gate : Option Bool) → Event
  check : Yielded → Event

abbrev or_wait : Activity → Option Activity → Activity
or_wait a none = a
or_wait a (some b) = b

abbrev swept : Option Bool → Activity → Option Activity → Activity
swept gate a none = a
swept gate a (some b) = reconcile_leave (promote gate b)

unfoldable pub perform : Event → Activity → Activity
perform (wait time) a = record a { clock = a.clock + time }
perform (probe path) a = or_wait a (track_enter path a)
perform (sweep gate) a = swept gate a (reconcile_enter a)
perform (check y) a = maybe_yield y a

unfoldable pub perform_all : List Event → Activity → Activity
perform_all [] a = a
perform_all (e ∷ es) a = perform_all es (perform e a)

abbrev pub time_of : Event → ℕ
time_of (wait time) = time
time_of (probe path) = 0
time_of (sweep gate) = 0
time_of (check y) = 0

unfoldable pub waited : List Event → ℕ
waited [] = 0
waited (e ∷ es) = time_of e + waited es

-- A probe is for a path that a follower may serve.
abbrev pub IsProbe : Event → Type 0
IsProbe (wait time) = Unit
IsProbe (probe path) = always_servable path ≡ true
IsProbe (sweep gate) = Unit
IsProbe (check y) = Unit

-- Nobody holds the lock, and the last request ended some time ago.
pub record IsUnused (a : Activity) (ago : ℕ) : Type 0 where
  pub rests : a.checker ≡ resting
  pub unheld : holders a ≡ 0
  pub since : a.last + ago ≤ a.clock

-- the check of an instance that nobody uses
maybe_yield_unused :
    (y : Yielded) (a : Activity)
    → a.checker ≡ resting
    → holders a ≡ 0
    → maybe_yield y a ≡ (if not a.is_leader || not (idle a) then a else end_yield y a)
unfolding maybe_yield advance first_check try_lock second_check end_yield idle
maybe_yield_unused y a r h = elim (Bool-cases (not a.is_leader || not (idle a))) [
  | inl e ↦ rw (e, r) refl
  | inr e ↦
      (let leads : a.is_leader ≡ true = ground arith in
        let idles : leb idle_yield_after (a.clock - a.last) ≡ true = ground arith in
        let free : ltb 0 (holders a) ≡ false = ground arith in
        rw (leads, idles, free) (rw idles refl))
]

IsUnused-maybe_yield :
    (y : Yielded) (a : Activity) (ago : ℕ) → IsUnused a ago → IsUnused (maybe_yield y a) ago
unfolding end_yield
IsUnused-maybe_yield y a ago u = elim (Bool-cases (not a.is_leader || not (idle a))) [
  | inl e ↦ rw (maybe_yield_unused y a u.rests u.unheld, e) u
  | inr e ↦
      rw (maybe_yield_unused y a u.rests u.unheld, e)
        (record { rests = refl; unheld = u.unheld; since = u.since })
]

-- The only sweep ends.
IsUnused-reconcile_leave :
    (a : Activity) (ago : ℕ)
    → a.checker ≡ resting
    → holders a ≡ 1
    → 0 < a.sweeping
    → a.last + ago ≤ a.clock
    → IsUnused (reconcile_leave a) ago
unfolding reconcile_leave
IsUnused-reconcile_leave a ago r h s t =
    let ends : ltb 0 a.sweeping ≡ true = ground arith in
    rw ends (record { rests = r; unheld = omega arith; since = t })

IsUnused-perform :
    (e : Event) (a : Activity) (ago : ℕ)
    → IsProbe e
    → IsUnused a ago
    → IsUnused (perform e a) (ago + time_of e)
unfolding perform track_enter reconcile_enter reconcile_leave promote
IsUnused-perform (wait time) a ago p u = record {
  rests = u.rests;
  unheld = u.unheld;
  since = omega (arith, u.since);
}
IsUnused-perform (probe path) a ago p u =
    rw p (record { rests = u.rests; unheld = u.unheld; since = omega (arith, u.since) })
IsUnused-perform (sweep gate) a ago p u =
    let free : has_writer a.checker ≡ false = rw u.rests refl in rw free (gated gate)
  where
    gated :
        (g : Option Bool)
        → IsUnused (reconcile_leave (promote g (record a { sweeping = a.sweeping + 1 }))) (ago + 0)
    gated none =
        IsUnused-reconcile_leave _ _ u.rests (ground (arith, u.unheld)) (omega arith)
          (omega (arith, u.since))
    gated (some true) =
        IsUnused-reconcile_leave _ _ u.rests (ground (arith, u.unheld)) (omega arith)
          (omega (arith, u.since))
    gated (some false) =
        IsUnused-reconcile_leave _ _ u.rests (ground (arith, u.unheld)) (omega arith)
          (omega (arith, u.since))
IsUnused-perform (check y) a ago p u =
    IsUnused-maybe_yield y a (ago + 0)
      (record { rests = u.rests; unheld = u.unheld; since = omega (arith, u.since) })

IsUnused-perform_all :
    (es : List Event) (a : Activity) (ago : ℕ)
    → All IsProbe es
    → IsUnused a ago
    → IsUnused (perform_all es a) (ago + waited es)
unfolding perform_all waited
IsUnused-perform_all [] a ago p u = record {
  rests = u.rests;
  unheld = u.unheld;
  since = omega (arith, u.since);
}
IsUnused-perform_all (e ∷ es) a ago p u =
    let v =
      IsUnused-perform_all es (perform e a) (ago + time_of e) p.1
        (IsUnused-perform e a ago p.0 u) in
    record { rests = v.rests; unheld = v.unheld; since = omega (arith, v.since) }

-- Once nobody holds the lock and no more requests come, the check after idleYieldAfter leaves this
-- instance without the lease if yield succeeds, whatever probes, sweeps, gates and checks that failed
-- or not there are in between.
pub idle_writer_yields :
    (es : List Event) (a : Activity) (ago : ℕ)
    → IsUnused a ago
    → All IsProbe es
    → idle_yield_after ≤ ago + waited es
    → (maybe_yield yielded (perform_all es a)).is_leader ≡ false
unfolding end_yield idle
idle_writer_yields es a ago u p l =
    let b = perform_all es a in
    let v = IsUnused-perform_all es a ago p u in
    let idles : leb idle_yield_after (b.clock - b.last) ≡ true = ground (arith, v.since) in
    elim (Bool-cases b.is_leader) [
      | inl e ↦ rw (maybe_yield_unused yielded b v.rests v.unheld, e, idles) refl
      | inr e ↦ rw (maybe_yield_unused yielded b v.rests v.unheld, e) refl
    ]
