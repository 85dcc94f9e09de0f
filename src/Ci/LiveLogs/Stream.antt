-- ===== src/Ci/LiveLogs/Stream.antt =====
-- internal/ci/livelogs.go: the buffer of a job against the stream that its runner sends.
use gitmote.Common.{
  ℕ, zero, suc, ◌-◌, ◌≤◌, true, List, [], ◌∷◌, ◌++◌, Bytes, ltb, ◌==◌, if◌then◌else◌, length, take,
  length-append, Option, none, some, pos, ◌≡◌, refl, ap, arith, Bool-cases, inl, inr, ◌⊎◌, All,
}
use mathlib.Core.List.{append_assoc, append-nil}
use gitmote.Ci.LiveLogs.{
  truncation_marker, LiveLog, LiveLogs, log_of, fresh, append_chunk, append, finish, Tail, clamp,
  tail_from, read, Call, to_append, to_finish, to_sweep, perform, perform_all,
}

-- What the runner has sent for a job.
unfoldable pub sent : ℕ → List Call → Bytes
sent job_id [] = []
sent job_id (to_append id chunk now ∷ cs) = (if id == job_id then chunk else []) ++ sent job_id cs
sent job_id (c ∷ cs) = sent job_id cs

abbrev pub IsKept : Call → Type 0
IsKept (to_sweep now ttl) = ⊥
IsKept c = Unit

-- A stream with its end cut off, and the marker in its place, when it is over the cap.
unfoldable pub capped : ℕ → Bytes → Bytes
capped cap s = if ltb cap (length s) then take cap s ++ truncation_marker else s

take-append_short :
    (n : ℕ) (a b : Bytes) → length a ≤ n → take n (a ++ b) ≡ a ++ take (n - length a) b
take-append_short n [] b h = ground arith
take-append_short zero (x ∷ a) b h = absurd (omega arith)
take-append_short (suc n) (x ∷ a) b h = ground (arith, take-append_short n a b)

take-append_long : (n : ℕ) (a b : Bytes) → n ≤ length a → take n (a ++ b) ≡ take n a
take-append_long zero a b h = refl
take-append_long (suc n) [] b h = absurd (omega arith)
take-append_long (suc n) (x ∷ a) b h = ap (λ r. x ∷ r) (take-append_long n a b (omega arith))

-- A buffer that holds the stream `s`.
pub record Holds (cap : ℕ) (s : Bytes) (lg : LiveLog) : Type 0 where
  pub content : lg.buf ≡ capped cap s
  pub flag : lg.truncated ≡ ltb cap (length s)

append_chunk-Holds :
    (cap : ℕ) (s chunk : Bytes) (now : ℕ) (lg : LiveLog)
    → Holds cap s lg
    → Holds cap (s ++ chunk) (append_chunk cap chunk now lg)
unfolding append_chunk capped
append_chunk-Holds cap s chunk now lg h = elim (Bool-cases (ltb cap (length s))) [
  | inl over ↦ record {
    content =
        ground
          (arith, h.content, h.flag, over, length-append s chunk, take-append_long cap s chunk);
    flag = ground (arith, h.flag, over, length-append s chunk);
  }
  | inr under ↦ record {
    content =
        ground
          (arith, h.content, h.flag, under, length-append s chunk, take-append_short cap s chunk);
    flag = ground (arith, h.content, h.flag, under, length-append s chunk);
  }
]

-- The buffer of a job that has been sent `s`, if there is one.
abbrev pub State : ℕ → Bytes → Option LiveLog → Type 0
State cap s none = s ≡ []
State cap s (some lg) = Holds cap s lg

sent_by : ℕ → Call → Bytes
sent_by job_id (to_append id chunk now) = if id == job_id then chunk else []
sent_by job_id c = []

fresh-Holds : (cap : ℕ) → Holds cap [] fresh
unfolding capped
fresh-Holds cap = record { content = ground arith; flag = ground arith }

abbrev pub or_fresh : Option LiveLog → LiveLog
or_fresh none = fresh
or_fresh (some lg) = lg

pub log_of-append :
    (cap id job_id : ℕ) (chunk : Bytes) (now : ℕ) (m : LiveLogs)
    → log_of job_id (append cap id chunk now m) ≡ (
        if id == job_id
        then some (append_chunk cap chunk now (or_fresh (log_of job_id m)))
        else log_of job_id m)
unfolding log_of append
log_of-append cap id job_id chunk now [] = ground arith
log_of-append cap id job_id chunk now ((i, lg) ∷ m) =
    ground (arith, log_of-append cap id job_id chunk now m)

abbrev pub finished : ℕ → Option LiveLog → Option LiveLog
finished now none = none
finished now (some lg) = some (record lg { done = true; updated = now })

pub log_of-finish :
    (id job_id now : ℕ) (m : LiveLogs)
    → log_of job_id (finish id now m)
      ≡ (if id == job_id then finished now (log_of job_id m) else log_of job_id m)
unfolding log_of finish
log_of-finish id job_id now [] = ground arith
log_of-finish id job_id now ((i, lg) ∷ m) = ground (arith, log_of-finish id job_id now m)

State-append_chunk :
    (cap : ℕ) (s chunk : Bytes) (now : ℕ) (o : Option LiveLog)
    → State cap s o
    → Holds cap (s ++ chunk) (append_chunk cap chunk now (or_fresh o))
State-append_chunk cap s chunk now none h =
    rw h (append_chunk-Holds cap [] chunk now fresh (fresh-Holds cap))
State-append_chunk cap s chunk now (some lg) h = append_chunk-Holds cap s chunk now lg h

State-finished :
    (cap : ℕ) (s : Bytes) (now : ℕ) (o : Option LiveLog)
    → State cap s o
    → State cap s (finished now o)
State-finished cap s now none h = h
State-finished cap s now (some lg) h = record { content = h.content; flag = h.flag }

State-perform :
    (cap job_id : ℕ) (c : Call) (s : Bytes) (m : LiveLogs)
    → IsKept c
    → State cap s (log_of job_id m)
    → State cap (s ++ sent_by job_id c) (log_of job_id (perform cap c m))
unfolding perform sent_by
State-perform cap job_id (to_append id chunk now) s m k h = elim (Bool-cases (id == job_id)) [
  | inl e ↦ rw (log_of-append cap id job_id chunk now m, e) (State-append_chunk cap s chunk now _ h)
  | inr e ↦ rw (log_of-append cap id job_id chunk now m, e, append-nil s) h
]
State-perform cap job_id (to_finish id now) s m k h = elim (Bool-cases (id == job_id)) [
  | inl e ↦ rw (log_of-finish id job_id now m, e, append-nil s) (State-finished cap s now _ h)
  | inr e ↦ rw (log_of-finish id job_id now m, e, append-nil s) h
]
State-perform cap job_id (to_sweep now ttl) s m k h = absurd k

sent-cons :
    (job_id : ℕ) (c : Call) (cs : List Call)
    → sent job_id (c ∷ cs) ≡ sent_by job_id c ++ sent job_id cs
unfolding sent sent_by
sent-cons job_id (to_append id chunk now) cs = refl
sent-cons job_id (to_finish id now) cs = refl
sent-cons job_id (to_sweep now ttl) cs = refl

State-perform_all :
    (cap job_id : ℕ) (cs : List Call) (s : Bytes) (m : LiveLogs)
    → All IsKept cs
    → State cap s (log_of job_id m)
    → State cap (s ++ sent job_id cs) (log_of job_id (perform_all cap cs m))
unfolding perform_all sent
State-perform_all cap job_id [] s m k h = rw (append-nil s) h
State-perform_all cap job_id (c ∷ cs) s m k h =
    rw (sent-cons job_id c cs, ← append_assoc s (sent_by job_id c) (sent job_id cs))
      (State-perform_all cap job_id cs (s ++ sent_by job_id c) (perform cap c m) k.1
        (State-perform cap job_id c s m k.0 h))

-- After any calls of Append and Finish, for this job and others, in any order, from empty buffers: a
-- read from the start answers with what was sent for the job if that fits the cap, and otherwise with
-- its first bytes up to the cap and one truncation marker. No buffer means that nothing was sent.
pub read-perform_all :
    (cap job_id : ℕ) (cs : List Call)
    → All IsKept cs
    → ((read job_id (pos 0) (perform_all cap cs []) ≡ none) × (sent job_id cs ≡ []))
      ⊎ ((t : Tail) × (read job_id (pos 0) (perform_all cap cs []) ≡ some t)
          × (t.bytes ≡ capped cap (sent job_id cs))
          × (t.next ≡ length t.bytes))
unfolding read clamp log_of
read-perform_all cap job_id cs k =
    by_state (log_of job_id (perform_all cap cs []))
      (State-perform_all cap job_id cs [] [] k nothing)
  where
    nothing : State cap [] (log_of job_id [])
    nothing = refl

    by_state :
        (o : Option LiveLog)
        → State cap (sent job_id cs) o
        → ((tail_from (pos 0) o ≡ none) × (sent job_id cs ≡ []))
          ⊎ ((t : Tail) × (tail_from (pos 0) o ≡ some t)
              × (t.bytes ≡ capped cap (sent job_id cs))
              × (t.next ≡ length t.bytes))
    by_state none h = inl (refl, h)
    by_state (some lg) h = inr (_, refl, ground (arith, h.content), ground arith)
