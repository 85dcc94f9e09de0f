-- ===== src/Meta/Refs/Atomic.antt =====
-- CASRefs against a map from ref names to object ids: one atomic step for all its updates.
use mathlib.Core.Path.{fun_ext}
use gitmote.Common.{
  ℕ, true, false, List, [], ◌∷◌, Bytes, bytes_eq, bytes_eq_iff, if◌then◌else◌, ==-refl, Result, ok,
  err, Error, driver, cas_mismatch, ◌≡◌, ◌≢◌, refl, sym, ap, ◌∙◌, arith, Bool-cases, inl, inr,
}
use gitmote.Meta.Schema.{Db, Ref}
use gitmote.Meta.Sql.{World, commit_or_rollback, continue, next_fault, later, spend, IsQuiet, in_tx}
use gitmote.Meta.Refs.{
  zero_sha, normalize_sha, select_sha, write_ref, RefUpdate, cas_one, cas_all, cas_refs,
}
use gitmote.Meta.Refs.Table.{
  IsTable, IsStored, select-write_ref, write_ref_total, write_ref-IsTable,
}

-- The refs of one repo: the object id that each name resolves to, empty if absent.
abbrev pub RefMap : Type 0
RefMap = Bytes → Bytes

pub move : RefMap → Bytes → Bytes → RefMap
move m name sha = λ k. if bytes_eq name k then sha else m k

-- The contract of an atomic push: every update in turn finds the value that it expects, or there is
-- the first that does not.
pub data Verdict : Type 0 where
  moved : RefMap → Verdict
  stale : Error → Verdict

abbrev pub mismatch : RefMap → RefUpdate → Error
mismatch m u = cas_mismatch u.name (normalize_sha u.old) (m u.name)

unfoldable pub push_refs : List RefUpdate → RefMap → Verdict
push_refs [] m = moved m
push_refs (u ∷ us) m =
    let rest = push_refs us (move m u.name (normalize_sha u.new)) in
    if bytes_eq (m u.name) (normalize_sha u.old) then rest else stale (mismatch m u)

abbrev pub ref_map : ℕ → Db → RefMap
ref_map repo_id db = λ k. select_sha repo_id k db.refs

-- The tables other than refs are those of before, and so are the refs of other repos.
pub record SameElsewhere (repo_id : ℕ) (a b : Db) : Type 0 where
  pub others : (j : ℕ) (k : Bytes) → j ≢ repo_id → select_sha j k b.refs ≡ select_sha j k a.refs
  pub rest : b ≡ record a { refs = b.refs }

zero_sha-ne-nil : zero_sha ≢ []
zero_sha-ne-nil h = cc

normalize_sha-ne-zero : (s : Bytes) → normalize_sha s ≢ zero_sha
unfolding normalize_sha
normalize_sha-ne-zero s h = ground (arith, bytes_eq_iff s zero_sha, zero_sha-ne-nil)

select_sha-ne-zero :
    (i : ℕ) (n : Bytes) (rs : List Ref) → IsStored rs → select_sha i n rs ≢ zero_sha
unfolding select_sha
select_sha-ne-zero i n [] t h = cc
select_sha-ne-zero i n (r ∷ rs) t h = ground (arith, select_sha-ne-zero i n rs t.1)

normalize_sha_stored :
    (i : ℕ) (n : Bytes) (rs : List Ref)
    → IsStored rs
    → normalize_sha (select_sha i n rs) ≡ select_sha i n rs
unfolding normalize_sha
normalize_sha_stored i n rs t =
    ground (arith, bytes_eq_iff (select_sha i n rs) zero_sha, select_sha-ne-zero i n rs t)

-- What one compare-and-swap comes to: the driver failed, the compare did, or the write is made.
data CasOne (i ts : ℕ) (u : RefUpdate) (w : World) (r : Result (Unit {0})) (w' : World)
    : Type 0 where
  failed : r ≡ err driver → w.faults ≢ [] → CasOne i ts u w r w'
  refused :
      bytes_eq (ref_map i w.db u.name) (normalize_sha u.old) ≡ false
      → r ≡ err (mismatch (ref_map i w.db) u)
      → CasOne i ts u w r w'
  done :
      (rs : List Ref)
      → bytes_eq (ref_map i w.db u.name) (normalize_sha u.old) ≡ true
      → r ≡ ok tt
      → write_ref i u.name (ref_map i w.db u.name) (normalize_sha u.new) ts w.db.refs ≡ ok rs
      → w'.db ≡ record w.db { refs = rs }
      → (IsQuiet w → IsQuiet w')
      → CasOne i ts u w r w'

cas_one_cases :
    (i ts : ℕ) (u : RefUpdate) (w : World)
    → IsTable w.db.refs
    → CasOne i ts u w (cas_one i ts u w).0 (cas_one i ts u w).1
unfolding cas_one next_fault later
cas_one_cases i ts u w t =
    let same = normalize_sha_stored i u.name w.db.refs t.stored in
    let (rs, written) =
      write_ref_total i u.name (ref_map i w.db u.name) (normalize_sha u.new) ts w.db.refs t.stored
        refl in
    elim (Bool-cases (next_fault w.faults)) [
      | inl f ↦ failed (ground arith) (ground arith)
      | inr g ↦ elim (Bool-cases (bytes_eq (ref_map i w.db u.name) (normalize_sha u.old))) [
        | inr differs ↦ refused differs (ground arith)
        | inl agrees ↦ elim (Bool-cases (next_fault (later w.faults))) [
          | inl f ↦ failed (ground arith) (ground arith)
          | inr g' ↦ done rs agrees (ground arith) written (ground arith) (ground arith)
        ]
      ]
    ]

-- What the loop comes to.
pub data CasAll (i : ℕ) (us : List RefUpdate) (w : World) (r : Result (Unit {0})) (w' : World)
    : Type 0 where
  failed : r ≡ err driver → w.faults ≢ [] → CasAll i us w r w'
  refused : (e : Error) → r ≡ err e → push_refs us (ref_map i w.db) ≡ stale e → CasAll i us w r w'
  done :
      r ≡ ok tt
      → push_refs us (ref_map i w.db) ≡ moved (ref_map i w'.db)
      → IsTable w'.db.refs
      → SameElsewhere i w.db w'.db
      → (IsQuiet w → IsQuiet w')
      → CasAll i us w r w'

module _ (i ts : ℕ) (u : RefUpdate) (w : World) (rs : List Ref)
    (written : write_ref i u.name (ref_map i w.db u.name) (normalize_sha u.new) ts w.db.refs
      ≡ ok rs) where
  ref_map-write_ref : (λ k. select_sha i k rs) ≡ move (ref_map i w.db) u.name (normalize_sha u.new)
  unfolding move
  ref_map-write_ref = fun_ext λ k.
      rw (select-write_ref i i u.name k (normalize_sha u.new) ts w.db.refs rs written, ==-refl i)

  others_unmoved : (j : ℕ) (k : Bytes) → j ≢ i → select_sha j k rs ≡ select_sha j k w.db.refs
  others_unmoved j k h =
      ground (arith, select-write_ref i j u.name k (normalize_sha u.new) ts w.db.refs rs written)

SameElsewhere-trans :
    (i : ℕ) (a b c : Db) → SameElsewhere i a b → SameElsewhere i b c → SameElsewhere i a c
SameElsewhere-trans i a b c p q = record {
  others = λ j k h. q.others j k h ∙ p.others j k h;
  rest = ground (arith, p.rest, q.rest);
}

CasAll-cons :
    (i : ℕ) (u : RefUpdate) (us : List RefUpdate) (w v : World) {r : Result (Unit {0})} {w' : World}
    → bytes_eq (ref_map i w.db u.name) (normalize_sha u.old) ≡ true
    → ref_map i v.db ≡ move (ref_map i w.db) u.name (normalize_sha u.new)
    → SameElsewhere i w.db v.db
    → (IsQuiet w → IsQuiet v)
    → CasAll i us v r w'
    → CasAll i (u ∷ us) w r w'
unfolding push_refs
CasAll-cons i u us w v agrees one here quiet (failed e f) = failed e (λ q. f (quiet q))
CasAll-cons i u us w v agrees one here quiet (refused x e p) = refused x e (rw (agrees, ← one) p)
CasAll-cons i u us w v {w' = w'} agrees one here quiet (done e p t q still) =
    done e (rw (agrees, ← one) p) t (SameElsewhere-trans i w.db v.db w'.db here q)
      (λ z. still (quiet z))

-- One more update before a run of the loop.
cas_all-cons :
    (i ts : ℕ) (u : RefUpdate) (us : List RefUpdate) (w : World) (r : Result (Unit {0})) (v : World)
    → IsTable w.db.refs
    → CasOne i ts u w r v
    → (IsTable v.db.refs → CasAll i us v (cas_all i ts us v).0 (cas_all i ts us v).1)
    → CasAll i
        (u ∷ us)
        w
        (continue r (λ _. cas_all i ts us) v).0
        (continue r (λ _. cas_all i ts us) v).1
unfolding push_refs
cas_all-cons i ts u us w r v t (failed e f) ih = failed (rw e) f
cas_all-cons i ts u us w r v t (refused differs e) ih =
    refused (mismatch (ref_map i w.db) u) (rw e) (rw differs)
cas_all-cons i ts u us w r v t (done rs agrees e written same quiet) ih =
    let kept : IsTable v.db.refs = rw same (
      write_ref-IsTable i u.name (ref_map i w.db u.name) (normalize_sha u.new) ts w.db.refs rs
        (normalize_sha-ne-zero u.new) t written) in
    rw e (
      CasAll-cons i u us w v agrees (rw same (ref_map-write_ref i ts u w rs written))
        (record {
          others = λ j k h. rw same (others_unmoved i ts u w rs written j k h);
          rest = ground arith;
        })
        quiet (ih kept))

-- The loop, from any well-formed table.
pub cas_all_cases :
    (i ts : ℕ) (us : List RefUpdate) (w : World)
    → IsTable w.db.refs
    → CasAll i us w (cas_all i ts us w).0 (cas_all i ts us w).1
unfolding cas_all push_refs
cas_all_cases i ts [] w t =
    done refl refl t (record { others = λ j k h. refl; rest = refl }) (λ q. q)
cas_all_cases i ts (u ∷ us) w t =
    cas_all-cons i ts u us w (cas_one i ts u w).0 (cas_one i ts u w).1 t (cas_one_cases i ts u w t)
      (cas_all_cases i ts us (cas_one i ts u w).1)

-- What CASRefs comes to.
pub data CasRefs (i : ℕ) (us : List RefUpdate) (w : World) (r : Result (Unit {0})) (w' : World)
    : Type 0 where
  failed : r ≡ err driver → w'.db ≡ w.db → w.faults ≢ [] → CasRefs i us w r w'
  refused :
      (e : Error)
      → r ≡ err e
      → push_refs us (ref_map i w.db) ≡ stale e
      → w'.db ≡ w.db
      → CasRefs i us w r w'
  done :
      r ≡ ok tt
      → push_refs us (ref_map i w.db) ≡ moved (ref_map i w'.db)
      → IsTable w'.db.refs
      → SameElsewhere i w.db w'.db
      → CasRefs i us w r w'

commit-CasRefs :
    (i : ℕ) (us : List RefUpdate) (w v : World) (r : Result (Unit {0})) (w' : World)
    → v.db ≡ w.db
    → (IsQuiet w → IsQuiet v)
    → CasAll i us v r w'
    → CasRefs i us w (commit_or_rollback w.db r w').0 (commit_or_rollback w.db r w').1
unfolding next_fault later
commit-CasRefs i us w v r w' same quiet (failed e f) = failed (rw e) (rw e) (λ q. f (quiet q))
commit-CasRefs i us w v r w' same quiet (refused x e p) = refused x (rw e) (rw (← same) p) (rw e)
commit-CasRefs i us w v r w' same quiet (done e p t q still) =
    elim (Bool-cases (next_fault w'.faults)) [
      | inl f ↦ failed (rw (e, f)) (rw (e, f)) (λ z. ground (arith, still (quiet z)))
      | inr g ↦ done (rw (e, g)) (rw (e, g, ← same) p) (rw (e, g) t) (rw (e, g, ← same) q)
    ]

-- From a well-formed table of refs, CASRefs has one of three outcomes. It succeeds: the updates,
-- taken in turn, all found the value they expect, the refs of the repo are the result of all of
-- them, the table is well formed again, and nothing else in the database has changed. Or it reports
-- the first update that does not find its expected value, and the database is unchanged. Or a
-- statement of the driver failed, and the database is unchanged.
pub cas_refs-push_refs :
    (i : ℕ) (us : List RefUpdate) (w : World)
    → IsTable w.db.refs
    → CasRefs i us w (cas_refs i us w).0 (cas_refs i us w).1
unfolding cas_refs in_tx next_fault later push_refs
cas_refs-push_refs i [] w t = done refl refl t (record { others = λ j k h. refl; rest = refl })
cas_refs-push_refs i (u ∷ us) w t = elim (Bool-cases (next_fault w.faults)) [
  | inl f ↦ failed (rw f) (rw f) (ground arith)
  | inr g ↦ rw g (
      commit-CasRefs i (u ∷ us) w (spend w) (cas_all i w.clock (u ∷ us) (spend w)).0
        (cas_all i w.clock (u ∷ us) (spend w)).1 refl (λ q. ground arith)
        (cas_all_cases i w.clock (u ∷ us) (spend w) t))
]

abbrev pub answer : Verdict → Result (Unit {0})
answer (moved m) = ok tt
answer (stale e) = err e

-- When no statement fails, CASRefs on a well-formed table answers exactly as the atomic push on the
-- map of the repo's refs does: nil if every update finds its expected value, and otherwise the
-- mismatch of the first that does not.
pub cas_refs-answer :
    (i : ℕ) (us : List RefUpdate) (w : World)
    → IsTable w.db.refs
    → IsQuiet w
    → (cas_refs i us w).0 ≡ answer (push_refs us (ref_map i w.db))
cas_refs-answer i us w t q = by_case (cas_refs-push_refs i us w t)
  where
    by_case :
        CasRefs i us w (cas_refs i us w).0 (cas_refs i us w).1
        → (cas_refs i us w).0 ≡ answer (push_refs us (ref_map i w.db))
    by_case (failed e s f) = absurd (f q)
    by_case (refused x e p s) = e ∙ sym (ap answer p)
    by_case (done e p t' o) = e ∙ sym (ap answer p)
