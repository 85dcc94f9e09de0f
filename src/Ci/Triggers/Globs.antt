-- ===== src/Ci/Triggers/Globs.antt =====
-- internal/ci/triggers.go: what globMatch accepts.
use mathlib.Core.List.{append-nil}
use gitmote.Common.{
  ℕ, Bool, true, false, List, [], ◌∷◌, ◌++◌, Bytes, ◌==◌, ◌≡◌, ◌≢◌, ◌↔◌, inl, inr, refl, arith,
  is_empty, ==_iff, All, Bool-cases, ap, if◌then◌else◌,
}
use gitmote.Ci.Triggers.{Atom, literal, atoms, skip, not_slash, not_newline, match_atoms}

-- The globs of GitHub's branch filters: `*` stands for bytes other than a slash, `**` for bytes
-- other than a newline, and each other byte for itself. Stars pair up from the left.
pub data Globs : (glob name : Bytes) → Type 0 where
  stop : Globs [] []
  same : {p s : Bytes} (c : ℕ) → c ≢ b'*' → Globs p s → Globs (c ∷ p) (c ∷ s)
  star_last : {s : Bytes} → All (λ b. b ≢ b'/') s → Globs (b'*' ∷ []) s
  star :
      {p s : Bytes} (d : ℕ) (run rest : Bytes)
      → d ≢ b'*'
      → s ≡ run ++ rest
      → All (λ b. b ≢ b'/') run
      → Globs (d ∷ p) rest
      → Globs (b'*' ∷ d ∷ p) s
  double_star :
      {p s : Bytes} (run rest : Bytes)
      → s ≡ run ++ rest
      → All (λ b. b ≢ 10) run
      → Globs p rest
      → Globs (b'*' ∷ b'*' ∷ p) s

-- The runs of bytes that `skip` tries.
record Skips (p : ℕ → Bool) (rest : Bytes → Bool) (s : Bytes) : Type 0 where
  run : Bytes
  left : Bytes
  split : s ≡ run ++ left
  passes : All (λ b. p b ≡ true) run
  matched : rest left ≡ true

skip_sound :
    (p : ℕ → Bool) (rest : Bytes → Bool) (s : Bytes) → skip p rest s ≡ true → Skips p rest s
unfolding skip
skip_sound p rest [] h = record { run = []; left = []; split = refl; passes = tt; matched = h }
skip_sound p rest (b ∷ s) h = elim (Bool-cases (rest (b ∷ s))) [
  | inl now ↦ record { run = []; left = b ∷ s; split = refl; passes = tt; matched = now }
  | inr later ↦
      let more = skip_sound p rest s (ground arith) in
      record {
        run = b ∷ more.run;
        left = more.left;
        split = ap (λ t. b ∷ t) more.split;
        passes = (ground arith, more.passes);
        matched = more.matched;
      }
]

skip_complete :
    (p : ℕ → Bool) (rest : Bytes → Bool) (run left : Bytes)
    → All (λ b. p b ≡ true) run
    → rest left ≡ true
    → skip p rest (run ++ left) ≡ true
unfolding skip
skip_complete p rest [] [] h m = m
skip_complete p rest [] (b ∷ left) h m = ground arith
skip_complete p rest (b ∷ run) left h m = ground (arith, skip_complete p rest run left h.1 m)

-- A run that a test passes holds no `c`, where the test refuses only `c`.
All-other :
    (c : ℕ) (s : Bytes) → All (λ b. (if b == c then false else true) ≡ true) s → All (λ b. b ≢ c) s
All-other c [] h = tt
All-other c (b ∷ s) h = (ground arith, All-other c s h.1)

other-All :
    (c : ℕ) (s : Bytes) → All (λ b. b ≢ c) s → All (λ b. (if b == c then false else true) ≡ true) s
other-All c [] h = tt
other-All c (b ∷ s) h = (ground arith, other-All c s h.1)

is_empty-eq : (s : Bytes) → is_empty s ≡ true → s ≡ []
is_empty-eq [] h = refl
is_empty-eq (b ∷ s) h = absurd (cc)

atoms-Globs_intro : {p s : Bytes} → Globs p s → match_atoms (atoms p) s ≡ true
unfolding atoms match_atoms
atoms-Globs_intro stop = refl
atoms-Globs_intro (same {p = []} c n g) = ground (arith, atoms-Globs_intro g)
atoms-Globs_intro (same {p = d ∷ p} c n g) = ground (arith, atoms-Globs_intro g)
atoms-Globs_intro (star_last {s = s} h) =
    rw (← append-nil s) (skip_complete not_slash (match_atoms []) s [] (other-All b'/' s h) refl)
atoms-Globs_intro (star {p = p} d run rest n e h g) =
    let found =
      skip_complete not_slash (match_atoms (atoms (d ∷ p))) run rest (other-All b'/' run h)
        (atoms-Globs_intro g) in
    rw e (ground (arith, found))
atoms-Globs_intro (double_star {p = p} run rest e h g) = rw e (
    skip_complete not_newline (match_atoms (atoms p)) run rest (other-All 10 run h)
      (atoms-Globs_intro g))

literal_sound :
    (c : ℕ) (as_ : List Atom) (s : Bytes)
    → match_atoms (literal c ∷ as_) s ≡ true
    → (t : Bytes) × (s ≡ c ∷ t) × (match_atoms as_ t ≡ true)
unfolding match_atoms
literal_sound c as_ [] h = absurd (cc)
literal_sound c as_ (b ∷ s) h = (s, ground arith, ground arith)

atoms_sound : (p s : Bytes) → match_atoms (atoms p) s ≡ true → Globs p s
unfolding atoms match_atoms
atoms_sound [] [] h = stop
atoms_sound [] (b ∷ s) h = absurd (cc)
atoms_sound (c ∷ []) s h = elim (Bool-cases (c == b'*')) [
  | inl e ↦
      let found = skip_sound not_slash (match_atoms []) s (rw e at h) in
      let none_left : found.left ≡ [] = is_empty-eq found.left found.matched in
      rw ((==_iff c b'*').0 e) (
        star_last (rw (found.split, none_left, append-nil) (All-other b'/' found.run found.passes)))
  | inr e ↦
      let (t, split, rest) = literal_sound c [] s (rw e at h) in
      rw (split, is_empty-eq t rest) (same c (ground arith) stop)
]
atoms_sound (c ∷ d ∷ p) s h = elim (Bool-cases (c == b'*')) [
  | inl e ↦ elim (Bool-cases (d == b'*')) [
    | inl f ↦
        let found = skip_sound not_newline (match_atoms (atoms p)) s (rw (e, f) at h) in
        rw ((==_iff c b'*').0 e, (==_iff d b'*').0 f)
          (double_star found.run found.left found.split (All-other 10 found.run found.passes)
            (atoms_sound p found.left found.matched))
    | inr f ↦
        let found = skip_sound not_slash (match_atoms (atoms (d ∷ p))) s (rw (e, f) at h) in
        rw ((==_iff c b'*').0 e) (
          star d found.run found.left (ground arith) found.split
            (All-other b'/' found.run found.passes) (atoms_sound (d ∷ p) found.left found.matched))
  ]
  | inr e ↦
      let (t, split, rest) = literal_sound c (atoms (d ∷ p)) s (rw e at h) in
      rw split (same c (ground arith) (atoms_sound (d ∷ p) t rest))
]

pub Globs-match_atoms : (p s : Bytes) → (match_atoms (atoms p) s ≡ true) ↔ Globs p s
Globs-match_atoms p s = (atoms_sound p s, atoms-Globs_intro)
