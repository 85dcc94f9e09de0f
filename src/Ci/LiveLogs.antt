-- ===== src/Ci/LiveLogs.antt =====
-- internal/ci/livelogs.go: the live tail of the log of each job, in memory and bounded.
pub mod Stream
pub mod Bound
pub mod Poll
use gitmote.Common.{
  ℕ, ◌+◌, ◌-◌, ◌*◌, Bool, true, false, not, List, [], ◌∷◌, ◌++◌, Bytes, codes, ltb, ◌==◌,
  if◌then◌else◌, length, take, drop, Option, none, some, ℤ, pos, negsuc,
}

-- logCap and logTruncationMarker
abbrev pub log_cap : ℕ
log_cap = 10 * 1048576

unfoldable pub truncation_marker : Bytes
truncation_marker = 10 ∷ 10 ∷ (codes "[log truncated: exceeded 10 MiB cap]" ++ 10 ∷ [])

pub record LiveLog : Type 0 where
  pub buf : Bytes
  pub done : Bool
  pub truncated : Bool
  pub updated : ℕ

-- The buffers by job id; a key occurs once.
abbrev pub LiveLogs : Type 0
LiveLogs = List (ℕ × LiveLog)

unfoldable pub log_of : ℕ → LiveLogs → Option LiveLog
log_of job_id [] = none
log_of job_id ((id, lg) ∷ m) = if id == job_id then some lg else log_of job_id m

abbrev fresh : LiveLog
fresh = record { buf = []; done = false; truncated = false; updated = 0 }

-- The part of Append on the buffer of the job. `room` may be negative in the code; here the test adds
-- on the other side, and taking a prefix of the room takes nothing when there is none.
unfoldable pub append_chunk : (cap : ℕ) → Bytes → ℕ → LiveLog → LiveLog
append_chunk cap chunk now lg =
    if lg.truncated
    then record lg { updated = now }
    else if ltb cap (length lg.buf + length chunk)
    then record lg {
      buf = (lg.buf ++ take (cap - length lg.buf) chunk) ++ truncation_marker;
      truncated = true;
      updated = now;
    }
    else record lg { buf = lg.buf ++ chunk; updated = now }

unfoldable pub append : (cap job_id : ℕ) → Bytes → ℕ → LiveLogs → LiveLogs
append cap job_id chunk now [] = (job_id, append_chunk cap chunk now fresh) ∷ []
append cap job_id chunk now ((id, lg) ∷ m) =
    let rest = append cap job_id chunk now m in
    if id == job_id then (id, append_chunk cap chunk now lg) ∷ m else (id, lg) ∷ rest

unfoldable pub finish : ℕ → ℕ → LiveLogs → LiveLogs
finish job_id now [] = []
finish job_id now ((id, lg) ∷ m) =
    let rest = finish job_id now m in
    if id == job_id then (id, record lg { done = true; updated = now }) ∷ m else (id, lg) ∷ rest

-- The results of Read, when its `ok` is true
pub record Tail : Type 0 where
  pub bytes : Bytes
  pub next : ℕ
  pub done : Bool

-- the clamp of the offset
unfoldable pub clamp : ℤ → ℕ → ℕ
clamp (negsuc n) size = 0
clamp (pos n) size = if ltb size n then size else n

abbrev tail_from : ℤ → Option LiveLog → Option Tail
tail_from offset none = none
tail_from offset (some lg) = some (record {
  bytes = drop (clamp offset (length lg.buf)) lg.buf;
  next = length lg.buf;
  done = lg.done;
})

-- `none` is an `ok` of false, where Read gives back the offset and no bytes.
unfoldable pub read : ℕ → ℤ → LiveLogs → Option Tail
read job_id offset m = tail_from offset (log_of job_id m)

unfoldable pub sweep : (now ttl : ℕ) → LiveLogs → LiveLogs
sweep now ttl [] = []
sweep now ttl ((id, lg) ∷ m) =
    let rest = sweep now ttl m in if ltb (lg.updated + ttl) now then rest else (id, lg) ∷ rest

-- A call on the buffers that changes them.
pub data Call : Type 0 where
  to_append : (job_id : ℕ) (chunk : Bytes) (now : ℕ) → Call
  to_finish : (job_id now : ℕ) → Call
  to_sweep : (now ttl : ℕ) → Call

unfoldable pub perform : ℕ → Call → LiveLogs → LiveLogs
perform cap (to_append job_id chunk now) m = append cap job_id chunk now m
perform cap (to_finish job_id now) m = finish job_id now m
perform cap (to_sweep now ttl) m = sweep now ttl m

-- The calls one after the other, as the mutex orders them.
unfoldable pub perform_all : ℕ → List Call → LiveLogs → LiveLogs
perform_all cap [] m = m
perform_all cap (c ∷ cs) m = perform_all cap cs (perform cap c m)
