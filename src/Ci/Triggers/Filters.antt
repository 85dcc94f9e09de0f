-- ===== src/Ci/Triggers/Filters.antt =====
-- internal/ci/triggers.go: which branches pass the filters of a trigger.
use gitmote.Common.{
  true, false, List, [], ◌∷◌, Bytes, bytes_eq_iff, ◌≡◌, ◌↔◌, ◌⊎◌, inl, inr, refl, arith, All,
  Bool-cases, is_empty,
}
use gitmote.Ci.Triggers.{Parsers, PushTrigger, glob_match, any_glob, matches}
use gitmote.Ci.Triggers.Globs.{Globs, Globs-match_atoms}

-- Some member has the property.
abbrev pub Some : (Bytes → Type 0) → List Bytes → Type 0
Some P [] = ⊥
Some P (x ∷ xs) = P x ⊎ Some P xs

module _ (parsers : Parsers) where
  -- The branches that one pattern selects; a pattern with no expression selects itself.
  abbrev pub Selects : (glob branch : Bytes) → Type 0
  Selects glob branch =
      ((parsers.compiles glob ≡ true) × Globs glob branch)
      ⊎ ((parsers.compiles glob ≡ false) × (glob ≡ branch))

  glob_match_sound :
      (glob branch : Bytes) → glob_match parsers glob branch ≡ true → Selects glob branch
  unfolding glob_match
  glob_match_sound glob branch h = elim (Bool-cases (parsers.compiles glob)) [
    | inl e ↦ inl (e, (Globs-match_atoms glob branch).0 (rw e at h))
    | inr e ↦ inr (e, (bytes_eq_iff glob branch).0 (rw e at h))
  ]

  glob_match_complete :
      (glob branch : Bytes) → Selects glob branch → glob_match parsers glob branch ≡ true
  unfolding glob_match
  glob_match_complete glob branch (inl (e, g)) = rw e ((Globs-match_atoms glob branch).1 g)
  glob_match_complete glob branch (inr (e, g)) = rw e ((bytes_eq_iff glob branch).1 g)

  any_glob_sound :
      (globs : List Bytes) (branch : Bytes)
      → any_glob parsers globs branch ≡ true
      → Some (λ g. Selects g branch) globs
  unfolding any_glob
  any_glob_sound [] branch h = absurd (cc)
  any_glob_sound (g ∷ globs) branch h = elim (Bool-cases (glob_match parsers g branch)) [
    | inl e ↦ inl (glob_match_sound g branch e)
    | inr e ↦ inr (any_glob_sound globs branch (rw e at h))
  ]

  any_glob_complete :
      (globs : List Bytes) (branch : Bytes)
      → Some (λ g. Selects g branch) globs
      → any_glob parsers globs branch ≡ true
  unfolding any_glob
  any_glob_complete (g ∷ globs) branch (inl s) = rw (glob_match_complete g branch s) refl
  any_glob_complete (g ∷ globs) branch (inr s) = ground (arith, any_glob_complete globs branch s)
  any_glob_complete [] branch h = absurd h

  any_glob_none :
      (globs : List Bytes) (branch : Bytes)
      → any_glob parsers globs branch ≡ false
      → All (λ g. Selects g branch → ⊥) globs
  unfolding any_glob
  any_glob_none [] branch h = tt
  any_glob_none (g ∷ globs) branch h = elim (Bool-cases (glob_match parsers g branch)) [
    | inl e ↦ absurd (ground arith)
    | inr e ↦ (
      λ s. absurd (ground (arith, glob_match_complete g branch s)),
      any_glob_none globs branch (rw e at h),
    )
  ]

  any_glob_some :
      (globs : List Bytes) (branch : Bytes)
      → All (λ g. Selects g branch → ⊥) globs
      → any_glob parsers globs branch ≡ false
  unfolding any_glob
  any_glob_some [] branch h = refl
  any_glob_some (g ∷ globs) branch h = elim (Bool-cases (glob_match parsers g branch)) [
    | inl e ↦ absurd (h.0 (glob_match_sound g branch e))
    | inr e ↦ rw e (any_glob_some globs branch h.1)
  ]

  abbrev pub Passes : PushTrigger → Bytes → Type 0
  Passes t branch =
      (t.reacts ≡ true)
      × ((t.branches ≡ []) ⊎ Some (λ g. Selects g branch) t.branches)
      × All (λ g. Selects g branch → ⊥) t.branches_ignore

  any_glob-empty :
      (globs : List Bytes) (branch : Bytes)
      → is_empty globs ≡ true
      → any_glob parsers globs branch ≡ false
  unfolding any_glob
  any_glob-empty [] branch h = refl
  any_glob-empty (g ∷ globs) branch h = absurd (cc)

  is_empty-eq : (globs : List Bytes) → is_empty globs ≡ true → globs ≡ []
  is_empty-eq [] h = refl
  is_empty-eq (g ∷ globs) h = absurd (cc)

  matches_sound :
      (t : PushTrigger) (branch : Bytes) → matches parsers t branch ≡ true → Passes t branch
  unfolding matches
  matches_sound t branch h = (
    ground arith,
    elim (Bool-cases (is_empty t.branches)) [
      | inl e ↦ inl (is_empty-eq t.branches e)
      | inr e ↦ inr (any_glob_sound t.branches branch (ground arith))
    ],
    any_glob_none t.branches_ignore branch
        (ground (arith, any_glob-empty t.branches_ignore branch)),
  )

  matches_complete :
      (t : PushTrigger) (branch : Bytes) → Passes t branch → matches parsers t branch ≡ true
  unfolding matches
  matches_complete t branch (r, inl e, d) =
      rw (r, e, any_glob_some t.branches_ignore branch d) (ground arith)
  matches_complete t branch (r, inr s, d) =
      rw (r, any_glob_complete t.branches branch s, any_glob_some t.branches_ignore branch d)
        (ground arith)

  -- A push to a branch triggers a workflow exactly when the workflow reacts to pushes, its list of
  -- branches is empty or has a pattern that selects the branch, and no pattern of its list of ignored
  -- branches does.
  pub matches_iff :
      (t : PushTrigger) (branch : Bytes) → (matches parsers t branch ≡ true) ↔ Passes t branch
  matches_iff t branch = (matches_sound t branch, matches_complete t branch)
