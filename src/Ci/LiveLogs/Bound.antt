-- ===== src/Ci/LiveLogs/Bound.antt =====
-- internal/ci/livelogs.go: the memory that the live logs take.
use gitmote.Common.{
  ℕ, ◌+◌, ◌-◌, ◌≤◌, zero, suc, false, List, [], ◌∷◌, ◌++◌, Bytes, ltb, ◌==◌, length, take,
  length-append, ◌≡◌, arith, Bool-cases, inl, inr, All,
}
use gitmote.Ci.LiveLogs.{
  truncation_marker, LiveLog, LiveLogs, fresh, append_chunk, append, finish, sweep, Call, to_append,
  to_finish, to_sweep, perform, perform_all,
}

record Fits (cap : ℕ) (lg : LiveLog) : Type 0 where
  open_end : lg.truncated ≡ false → length lg.buf ≤ cap
  bound : length lg.buf ≤ cap + length truncation_marker

length-take : (n : ℕ) (s : Bytes) → length (take n s) ≤ n
length-take zero s = omega arith
length-take (suc n) [] = omega arith
length-take (suc n) (b ∷ s) = omega (arith, length-take n s)

Fits-append_chunk :
    (cap : ℕ) (chunk : Bytes) (now : ℕ) (lg : LiveLog)
    → Fits cap lg
    → Fits cap (append_chunk cap chunk now lg)
unfolding append_chunk
Fits-append_chunk cap chunk now lg h = record {
  open_end = λ e. ground (arith, length-append lg.buf chunk);
  bound = ground (
    arith,
    h.open_end,
    h.bound,
    length-append lg.buf chunk,
    length-append (lg.buf ++ take (cap - length lg.buf) chunk) truncation_marker,
    length-append lg.buf (take (cap - length lg.buf) chunk),
    length-take (cap - length lg.buf) chunk,
  );
}

Fits-fresh : (cap : ℕ) → Fits cap fresh
Fits-fresh cap = record { open_end = λ e. omega arith; bound = omega arith }

abbrev AllFit : ℕ → LiveLogs → Type 0
AllFit cap m = All (λ p. Fits cap p.1) m

AllFit-append :
    (cap job_id : ℕ) (chunk : Bytes) (now : ℕ) (m : LiveLogs)
    → AllFit cap m
    → AllFit cap (append cap job_id chunk now m)
unfolding append
AllFit-append cap job_id chunk now [] h =
    (Fits-append_chunk cap chunk now fresh (Fits-fresh cap), tt)
AllFit-append cap job_id chunk now ((id, lg) ∷ m) h = elim (Bool-cases (id == job_id)) [
  | inl e ↦ rw e (Fits-append_chunk cap chunk now lg h.0, h.1)
  | inr e ↦ rw e (h.0, AllFit-append cap job_id chunk now m h.1)
]

AllFit-finish :
    (cap job_id now : ℕ) (m : LiveLogs) → AllFit cap m → AllFit cap (finish job_id now m)
unfolding finish
AllFit-finish cap job_id now [] h = tt
AllFit-finish cap job_id now ((id, lg) ∷ m) h = elim (Bool-cases (id == job_id)) [
  | inl e ↦ rw e (record { open_end = h.0.open_end; bound = h.0.bound }, h.1)
  | inr e ↦ rw e (h.0, AllFit-finish cap job_id now m h.1)
]

AllFit-sweep : (cap now ttl : ℕ) (m : LiveLogs) → AllFit cap m → AllFit cap (sweep now ttl m)
unfolding sweep
AllFit-sweep cap now ttl [] h = tt
AllFit-sweep cap now ttl ((id, lg) ∷ m) h = elim (Bool-cases (ltb (lg.updated + ttl) now)) [
  | inl e ↦ rw e (AllFit-sweep cap now ttl m h.1)
  | inr e ↦ rw e (h.0, AllFit-sweep cap now ttl m h.1)
]

AllFit-perform_all :
    (cap : ℕ) (cs : List Call) (m : LiveLogs) → AllFit cap m → AllFit cap (perform_all cap cs m)
unfolding perform_all perform
AllFit-perform_all cap [] m h = h
AllFit-perform_all cap (to_append id chunk now ∷ cs) m h =
    AllFit-perform_all cap cs _ (AllFit-append cap id chunk now m h)
AllFit-perform_all cap (to_finish id now ∷ cs) m h =
    AllFit-perform_all cap cs _ (AllFit-finish cap id now m h)
AllFit-perform_all cap (to_sweep now ttl ∷ cs) m h =
    AllFit-perform_all cap cs _ (AllFit-sweep cap now ttl m h)

-- Every buffer is at most the cap and the marker long.
abbrev pub IsBounded : ℕ → LiveLogs → Type 0
IsBounded cap m = All (λ p. length p.1.buf ≤ cap + length truncation_marker) m

AllFit-IsBounded : (cap : ℕ) (m : LiveLogs) → AllFit cap m → IsBounded cap m
AllFit-IsBounded cap [] h = tt
AllFit-IsBounded cap (p ∷ m) h = (h.0.bound, AllFit-IsBounded cap m h.1)

-- Whatever calls are made from empty buffers, no buffer is ever longer than the cap and one marker.
pub perform_all-IsBounded : (cap : ℕ) (cs : List Call) → IsBounded cap (perform_all cap cs [])
perform_all-IsBounded cap cs = AllFit-IsBounded cap _ (AllFit-perform_all cap cs [] tt)
