-- ===== src/Ci/LiveLogs/Poll.antt =====
-- internal/ci/livelogs.go: a client that polls Read from the offset that it was given.
use mathlib.Core.List.{append_assoc, append-nil}
use gitmote.Common.{
  ℕ, ◌+◌, ◌-◌, List, [], ◌∷◌, ◌++◌, Bytes, ltb, ◌==◌, length, take, drop, length-append, Option,
  some, ℤ, pos, ◌≡◌, refl, sym, ap, ◌∙◌, arith, Bool-cases, Option-cases, inl, inr, All,
}
use gitmote.Ci.LiveLogs.{
  truncation_marker, LiveLog, LiveLogs, log_of, append_chunk, Tail, clamp, read, Call, to_append,
  to_finish, to_sweep, perform, perform_all,
}
use gitmote.Ci.LiveLogs.Stream.{IsKept, log_of-append, log_of-finish}

-- The buffer of a job has grown at its end.
record Grows (lg : LiveLog) (o : Option LiveLog) : Type 0 where
  after : LiveLog
  there : o ≡ some after
  more : Bytes
  grown : after.buf ≡ lg.buf ++ more

drop_all : (a b : Bytes) → drop (length a) (a ++ b) ≡ b
drop_all [] b = refl
drop_all (x ∷ a) b = drop_all a b

Grows-append_chunk :
    (cap : ℕ) (chunk : Bytes) (now : ℕ) (lg : LiveLog)
    → Grows lg (some (append_chunk cap chunk now lg))
unfolding append_chunk
Grows-append_chunk cap chunk now lg = elim (Bool-cases lg.truncated) [
  | inl e ↦ record { after = _; there = refl; more = []; grown = rw (e, append-nil lg.buf) refl }
  | inr e ↦ elim (Bool-cases (ltb cap (length lg.buf + length chunk))) [
    | inl g ↦ record {
      after = _;
      there = refl;
      more = take (cap - length lg.buf) chunk ++ truncation_marker;
      grown = rw (e, g) (append_assoc lg.buf (take (cap - length lg.buf) chunk) truncation_marker);
    }
    | inr g ↦ record { after = _; there = refl; more = chunk; grown = rw (e, g) refl }
  ]
]

Grows-same : (lg : LiveLog) (o : Option LiveLog) → o ≡ some lg → Grows lg o
Grows-same lg o e = record { after = lg; there = e; more = []; grown = sym (append-nil lg.buf) }

Grows-perform :
    (cap job_id : ℕ) (c : Call) (m : LiveLogs) (lg : LiveLog)
    → IsKept c
    → log_of job_id m ≡ some lg
    → Grows lg (log_of job_id (perform cap c m))
unfolding perform
Grows-perform cap job_id (to_append id chunk now) m lg k h = elim (Bool-cases (id == job_id)) [
  | inl e ↦ rw (log_of-append cap id job_id chunk now m, e, h) (Grows-append_chunk cap chunk now lg)
  | inr e ↦ rw (log_of-append cap id job_id chunk now m, e) (Grows-same lg _ h)
]
Grows-perform cap job_id (to_finish id now) m lg k h = elim (Bool-cases (id == job_id)) [
  | inl e ↦
      rw (log_of-finish id job_id now m, e, h)
        (record { after = _; there = refl; more = []; grown = sym (append-nil lg.buf) })
  | inr e ↦ rw (log_of-finish id job_id now m, e) (Grows-same lg _ h)
]
Grows-perform cap job_id (to_sweep now ttl) m lg k h = absurd k

Grows-perform_all :
    (cap job_id : ℕ) (cs : List Call) (m : LiveLogs) (lg : LiveLog)
    → All IsKept cs
    → log_of job_id m ≡ some lg
    → Grows lg (log_of job_id (perform_all cap cs m))
unfolding perform_all
Grows-perform_all cap job_id [] m lg k h = Grows-same lg _ h
Grows-perform_all cap job_id (c ∷ cs) m lg k h =
    let first = Grows-perform cap job_id c m lg k.0 h in
    let rest = Grows-perform_all cap job_id cs (perform cap c m) first.after k.1 first.there in
    record {
      after = rest.after;
      there = rest.there;
      more = first.more ++ rest.more;
      grown =
          rest.grown
          ∙ ap (λ b. b ++ rest.more) first.grown
          ∙ append_assoc lg.buf first.more rest.more;
    }

-- A client that has read a buffer, from whatever offset, and polls again from the next offset that it
-- was given, after any calls of Append and Finish, gets exactly what the buffer has gained: no byte is
-- missed and none comes twice.
pub read_resumes :
    (cap job_id : ℕ) (offset : ℤ) (cs : List Call) (m : LiveLogs) (t : Tail)
    → read job_id offset m ≡ some t
    → All IsKept cs
    → (whole polled whole' : Tail) × (read job_id (pos 0) m ≡ some whole)
      × (read job_id (pos t.next) (perform_all cap cs m) ≡ some polled)
      × (read job_id (pos 0) (perform_all cap cs m) ≡ some whole')
      × (whole.bytes ++ polled.bytes ≡ whole'.bytes)
unfolding read clamp
read_resumes cap job_id offset cs m t h k = elim (Option-cases (log_of job_id m)) [
  | inl e ↦ absurd (ground arith)
  | inr (lg, e) ↦
      let g = Grows-perform_all cap job_id cs m lg k e in
      let size : t.next ≡ length lg.buf = ground arith in
      rw (e, g.there)
        (
          _,
          _,
          _,
          refl,
          refl,
          refl,
          ground (arith, size, g.grown, length-append lg.buf g.more, drop_all lg.buf g.more),
        )
]
