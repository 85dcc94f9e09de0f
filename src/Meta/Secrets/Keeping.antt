-- ===== src/Meta/Secrets/Keeping.antt =====
-- internal/meta/secrets.go: what one statement of GetOrCreateSecret does to the server secrets.
use gitmote.Common.{
  ℕ, zero, suc, not, ◌||◌, Bytes, bytes_eq_iff, Option, none, some, Result, ok, err, not_found,
  driver, ◌≡◌, ◌⊎◌, inl, inr, refl, ap, ◌∙◌, arith, Bool-cases,
}
use gitmote.Meta.Schema.{Db, ServerSecret}
use gitmote.Meta.Sql.{World, Sql, next_fault}
use gitmote.Meta.Secrets.{
  Replica, server_value, get_secret, insert_absent, is_missing, reread, tried, caught_up,
  first_read, await_secret, Phase, waiting, rereading, inserting, finished, after_await,
  after_insert, advance_secret,
}

-- The database holds the value under the name.
abbrev pub Holds : (name value : Bytes) → World → Type 0
Holds name value w = server_value name w.db.server_secrets ≡ some value

-- Catching up with the replica, and trying to take the lease, lose no server secret.
pub record KeepsSecrets (r : Replica) : Type 0 where
  pub refresh_keeps :
      (name value : Bytes) (w : World) → Holds name value w → Holds name value (r.refresh w).1
  pub promote_keeps :
      (name value : Bytes) (w : World) → Holds name value w → Holds name value (r.try_promote w).1

get_secret_same : (name : Bytes) (w : World) → (get_secret name w).1.db ≡ w.db
unfolding get_secret
get_secret_same name w = ground arith

Holds-get_secret : (n v name : Bytes) (w : World) → Holds n v w → Holds n v (get_secret name w).1
Holds-get_secret n v name w h =
    ap (λ (db : Db). server_value n db.server_secrets) (get_secret_same name w) ∙ h

get_secret_sound :
    (name v : Bytes) (w : World) → (get_secret name w).0 ≡ ok v → Holds name v (get_secret name w).1
unfolding get_secret
get_secret_sound name v w h = ground arith

-- A read of a name that is there gives its value or a failure of the driver.
abbrev pub Answers : Bytes → Result Bytes → Type 0
Answers v r = (r ≡ ok v) ⊎ (r ≡ err driver)

Answers-get_secret : (name v : Bytes) (w : World) → Holds name v w → Answers v (get_secret name w).0
unfolding get_secret
Answers-get_secret name v w h = elim (Bool-cases (next_fault w.faults)) [
  | inl e ↦ rw e (inr refl)
  | inr e ↦ rw (e, h) (inl refl)
]

Holds-insert_absent :
    (name v : Bytes) (row : ServerSecret) (w : World)
    → Holds name v w
    → Holds name v (insert_absent row w).1
unfolding insert_absent server_value
Holds-insert_absent name v row w h = ground (arith, bytes_eq_iff row.name name)

insert_absent_cases :
    (row : ServerSecret) (w : World)
    → ((insert_absent row w).0 ≡ ok tt) ⊎ ((insert_absent row w).0 ≡ err driver)
unfolding insert_absent
insert_absent_cases row w = elim (Bool-cases (next_fault w.faults)) [
  | inl e ↦ inr (rw e refl)
  | inr e ↦ inl (rw e refl)
]

-- A call that has returned, has returned the value or a failure of the driver.
abbrev pub Late : Bytes → Phase → Type 0
Late v waiting = Unit
Late v rereading = Unit
Late v (inserting x) = Unit
Late v (finished r) = Answers v r

abbrev pub IsUnfinished : Phase → Type 0
IsUnfinished waiting = Unit
IsUnfinished rereading = Unit
IsUnfinished (inserting x) = Unit
IsUnfinished (finished r) = ⊥

pub unfinished-Late : (v : Bytes) (p : Phase) → IsUnfinished p → Late v p
unfinished-Late v waiting u = tt
unfinished-Late v rereading u = tt
unfinished-Late v (inserting x) u = tt
unfinished-Late v (finished r) u = absurd u

-- What a part of the code does for a name and a value: it keeps the value; it answers with it, where
-- it is there; and it answers only with a value that it leaves there.
abbrev Keeps : (n v : Bytes) → Sql Bytes → Type 0
Keeps n v m = (w : World) → Holds n v w → Holds n v (m w).1

abbrev Finds : (n v : Bytes) → Sql Bytes → Type 0
Finds n v m = (w : World) → Holds n v w → Answers v (m w).0

abbrev IsSound : (n v : Bytes) → Sql Bytes → Type 0
IsSound n v m = (w : World) → (m w).0 ≡ ok v → Holds n v (m w).1

module _ (h : Replica) (k : KeepsSecrets h) (n v : Bytes) where
  module _ (name : Bytes) (again : Sql Bytes) (keeps : Keeps n v again) where
    Keeps-tried : (r : Result (Unit {0})) → Keeps n v (tried h again r)
    Keeps-tried (err e) w q = q
    Keeps-tried (ok u) w q = keeps w q

    Keeps-reread : (r : Result Bytes) → Keeps n v (reread h again r)
    Keeps-reread r w q = elim (Bool-cases (is_missing r)) [
      | inl e ↦ rw e (Keeps-tried (h.try_promote w).0 (h.try_promote w).1 (k.promote_keeps n v w q))
      | inr e ↦ rw e q
    ]

    Keeps-caught_up : (r : Result (Unit {0})) → Keeps n v (caught_up h name again r)
    Keeps-caught_up (err e) w q = q
    Keeps-caught_up (ok u) w q =
        Keeps-reread (get_secret name w).0 (get_secret name w).1 (Holds-get_secret n v name w q)

    Keeps-first_read : (r : Result Bytes) → Keeps n v (first_read h name again r)
    Keeps-first_read r w q = elim (Bool-cases (not (is_missing r) || h.is_leader w)) [
      | inl e ↦ rw e q
      | inr e ↦ rw e (Keeps-caught_up (h.refresh w).0 (h.refresh w).1 (k.refresh_keeps n v w q))
    ]

  Keeps-await_secret : (turns : ℕ) (name : Bytes) → Keeps n v (await_secret h turns name)
  unfolding await_secret
  Keeps-await_secret zero name w q = q
  Keeps-await_secret (suc turns) name w q =
      Keeps-first_read name (await_secret h turns name) (Keeps-await_secret turns name)
        (get_secret name w).0 (get_secret name w).1 (Holds-get_secret n v name w q)

  pub Keeps-advance_secret :
      (turns : ℕ) (name : Bytes) (gen : Option Bytes) (p : Phase) (w : World)
      → Holds n v w
      → Holds n v (advance_secret h turns name gen p w).1
  unfolding advance_secret
  Keeps-advance_secret turns name gen waiting w q = Keeps-await_secret turns name w q
  Keeps-advance_secret turns name gen (inserting x) w q =
      Holds-insert_absent n v (record { name = name; value = x }) w q
  Keeps-advance_secret turns name gen rereading w q = Holds-get_secret n v name w q
  Keeps-advance_secret turns name gen (finished r) w q = q

  -- A read that finds the value ends the wait.
  Finds-await_secret : (turns : ℕ) → Finds n v (await_secret h turns n)
  unfolding await_secret
  Finds-await_secret zero w q = inr refl
  Finds-await_secret (suc turns) w q = elim (Answers-get_secret n v w q) [
    | inl e ↦ rw e (inl refl)
    | inr e ↦ rw e (inr refl)
  ]

  pub Late-advance_secret :
      (turns : ℕ) (gen : Option Bytes) (p : Phase) (w : World)
      → Holds n v w
      → Late v p
      → Late v (advance_secret h turns n gen p w).0
  unfolding advance_secret
  Late-advance_secret turns gen waiting w q l = elim (Finds-await_secret turns w q) [
    | inl e ↦ rw e (inl refl)
    | inr e ↦ rw e (inr refl)
  ]
  Late-advance_secret turns gen (inserting x) w q l =
      elim (insert_absent_cases (record { name = n; value = x }) w) [
        | inl e ↦ rw e tt
        | inr e ↦ rw e (inr refl)
      ]
  Late-advance_secret turns gen rereading w q l = Answers-get_secret n v w q
  Late-advance_secret turns gen (finished r) w q l = l

  module _ (again : Sql Bytes) (sound : IsSound n v again) where
    IsSound-tried : (r : Result (Unit {0})) → IsSound n v (tried h again r)
    IsSound-tried (err e) w q = absurd (cc)
    IsSound-tried (ok u) w q = sound w q

    sound_reread :
        (r : Result Bytes) (w : World)
        → (r ≡ ok v → Holds n v w)
        → (reread h again r w).0 ≡ ok v
        → Holds n v (reread h again r w).1
    sound_reread r w p q = elim (Bool-cases (is_missing r)) [
      | inl e ↦ rw e (IsSound-tried (h.try_promote w).0 (h.try_promote w).1 (rw e at q))
      | inr e ↦ rw e (p (rw e at q))
    ]

    IsSound-caught_up : (r : Result (Unit {0})) → IsSound n v (caught_up h n again r)
    IsSound-caught_up (err e) w q = absurd (cc)
    IsSound-caught_up (ok u) w q =
        sound_reread (get_secret n w).0 (get_secret n w).1 (get_secret_sound n v w) q

    sound_first_read :
        (r : Result Bytes) (w : World)
        → (r ≡ ok v → Holds n v w)
        → (first_read h n again r w).0 ≡ ok v
        → Holds n v (first_read h n again r w).1
    sound_first_read r w p q = elim (Bool-cases (not (is_missing r) || h.is_leader w)) [
      | inl e ↦ rw e (p (rw e at q))
      | inr e ↦ rw e (IsSound-caught_up (h.refresh w).0 (h.refresh w).1 (rw e at q))
    ]

  IsSound-await_secret : (turns : ℕ) → IsSound n v (await_secret h turns n)
  unfolding await_secret
  IsSound-await_secret zero w e = absurd (cc)
  IsSound-await_secret (suc turns) w e =
      sound_first_read (await_secret h turns n) (IsSound-await_secret turns) (get_secret n w).0
        (get_secret n w).1 (get_secret_sound n v w) e

  -- A call that returns the value leaves it there.
  pub Holds-advance_secret :
      (turns : ℕ) (gen : Option Bytes) (p : Phase) (w : World)
      → (p ≡ finished (ok v) → Holds n v w)
      → (advance_secret h turns n gen p w).0 ≡ finished (ok v)
      → Holds n v (advance_secret h turns n gen p w).1
  unfolding advance_secret
  Holds-advance_secret turns gen waiting w q e =
      IsSound-await_secret turns w (awaited gen (await_secret h turns n w).0 e)
    where
      awaited : (g : Option Bytes) (r : Result Bytes) → after_await g r ≡ finished (ok v) → r ≡ ok v
      awaited g (ok x) d = ground arith
      awaited none (err not_found) d = absurd (cc)
      awaited (some x) (err not_found) d = absurd (cc)
      awaited g (err x) d = absurd (cc)
  Holds-advance_secret turns gen (inserting x) w q e =
      absurd (not_yet (insert_absent (record { name = n; value = x }) w).0 e)
    where
      not_yet : (r : Result (Unit {0})) → after_insert r ≡ finished (ok v) → ⊥
      not_yet (ok u) d = cc
      not_yet (err x) d = cc
  Holds-advance_secret turns gen rereading w q e = get_secret_sound n v w (ground arith)
  Holds-advance_secret turns gen (finished r) w q e = q e
