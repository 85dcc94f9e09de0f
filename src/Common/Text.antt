-- ===== src/Common/Text.antt =====
-- Go strings as byte sequences, with the functions of package strings that the program calls.
use Prim.Native.Char.{code}
use Prim.Native.Nat.{ℕ}
use Prim.Native.String.{String}
use mathlib.Core.Path.{◌≡◌, refl, ap, sym, ◌∙◌}
use mathlib.Core.Logic.{◌↔◌}
use mathlib.Core.Bool.{Bool, true, false, ◌&&◌, ◌||◌}
use mathlib.Core.Option.{Option, none, some}
use mathlib.Core.List.{List, [], ◌∷◌, ◌++◌, reverse, reverse-append, reverse-reverse}
use native.Mathlib.Omega.{arith}
use gitmote.Common.Tests.{◌==◌, if◌then◌else◌}

abbrev pub Bytes : Type 0
Bytes = List ℕ

-- The bytes of an ASCII literal.
abbrev pub codes : String → Bytes
codes String.[] = []
codes (String.◌∷◌ c s) = code c ∷ codes s

-- a == b on strings
unfoldable pub bytes_eq : Bytes → Bytes → Bool
bytes_eq [] [] = true
bytes_eq [] (b ∷ t) = false
bytes_eq (a ∷ s) [] = false
bytes_eq (a ∷ s) (b ∷ t) = a == b && bytes_eq s t

bytes_eq_sound : (s t : Bytes) → bytes_eq s t ≡ true → s ≡ t
unfolding bytes_eq
bytes_eq_sound [] [] h = refl
bytes_eq_sound [] (b ∷ t) h = ground arith
bytes_eq_sound (a ∷ s) [] h = ground arith
bytes_eq_sound (a ∷ s) (b ∷ t) h = ground (arith, bytes_eq_sound s t)

pub bytes_eq_refl : (s : Bytes) → bytes_eq s s ≡ true
unfolding bytes_eq
bytes_eq_refl [] = refl
bytes_eq_refl (a ∷ s) = ground (arith, bytes_eq_refl s)

bytes_eq_complete : (s t : Bytes) → s ≡ t → bytes_eq s t ≡ true
bytes_eq_complete s t h = rw (← h) (bytes_eq_refl s)

pub bytes_eq_iff : (s t : Bytes) → (bytes_eq s t ≡ true) ↔ (s ≡ t)
bytes_eq_iff s t = (bytes_eq_sound s t, bytes_eq_complete s t)

pub bytes_eq_sym : (s t : Bytes) → bytes_eq s t ≡ bytes_eq t s
bytes_eq_sym s t = ground (arith, bytes_eq_iff s t, bytes_eq_iff t s)

pub bytes_eq_trans :
    (r s t : Bytes) → bytes_eq r s ≡ true → bytes_eq s t ≡ true → bytes_eq r t ≡ true
bytes_eq_trans r s t h k = ground (arith, bytes_eq_iff r s, bytes_eq_iff s t, bytes_eq_iff r t)

-- strings.HasPrefix(s, p), with the prefix first
unfoldable pub starts_with : Bytes → Bytes → Bool
starts_with [] s = true
starts_with (a ∷ p) [] = false
starts_with (a ∷ p) (b ∷ s) = a == b && starts_with p s

-- strings.HasSuffix(s, p), with the suffix first
unfoldable pub ends_with : Bytes → Bytes → Bool
unfolding starts_with
ends_with p s = starts_with (reverse p) (reverse s)

drop_prefix : Bytes → Bytes → Bytes
drop_prefix [] s = s
drop_prefix (a ∷ p) [] = []
drop_prefix (a ∷ p) (b ∷ s) = drop_prefix p s

-- strings.TrimPrefix(s, p)
unfoldable pub trim_prefix : Bytes → Bytes → Bytes
unfolding starts_with drop_prefix
trim_prefix p s = if starts_with p s then drop_prefix p s else s

-- strings.TrimSuffix(s, p)
unfoldable pub trim_suffix : Bytes → Bytes → Bytes
unfolding trim_prefix
trim_suffix p s = reverse (trim_prefix (reverse p) (reverse s))

add_head : ℕ → Option (Bytes × Bytes) → Option (Bytes × Bytes)
add_head a none = none
add_head a (some (s, t)) = some (a ∷ s, t)

-- strings.Cut(s, sep) for a separator of one byte
unfoldable pub cut : ℕ → Bytes → Option (Bytes × Bytes)
unfolding add_head
cut sep [] = none
cut sep (a ∷ s) = if a == sep then some ([], s) else add_head a (cut sep s)

-- strings.Contains(s, sep) for one byte
unfoldable pub contains_byte : ℕ → Bytes → Bool
contains_byte sep [] = false
contains_byte sep (a ∷ s) = a == sep || contains_byte sep s

starts_with-append : (p s : Bytes) → starts_with p (p ++ s) ≡ true
unfolding starts_with
starts_with-append [] s = refl
starts_with-append (a ∷ p) s = ground (arith, starts_with-append p s)

drop_prefix-append : (p s : Bytes) → drop_prefix p (p ++ s) ≡ s
unfolding drop_prefix
drop_prefix-append [] s = refl
drop_prefix-append (a ∷ p) s = drop_prefix-append p s

pub trim_prefix-append : (p s : Bytes) → trim_prefix p (p ++ s) ≡ s
unfolding trim_prefix
trim_prefix-append p s = rw (starts_with-append p s) (drop_prefix-append p s)

-- A suffix that was appended is trimmed off.
pub trim_suffix-append : (p s : Bytes) → trim_suffix p (s ++ p) ≡ s
unfolding trim_suffix
trim_suffix-append p s =
    rw (reverse-append s p, trim_prefix-append (reverse p) (reverse s)) (reverse-reverse s)

-- A string without the suffix is unchanged.
pub trim_suffix_none : (p s : Bytes) → ends_with p s ≡ false → trim_suffix p s ≡ s
unfolding trim_suffix ends_with
trim_suffix_none p s h = rw h (reverse-reverse s)

pub ends_with-append : (p s : Bytes) → ends_with p (s ++ p) ≡ true
unfolding ends_with
ends_with-append p s = rw (reverse-append s p) (starts_with-append (reverse p) (reverse s))

append-drop_prefix : (p s : Bytes) → starts_with p s ≡ true → p ++ drop_prefix p s ≡ s
unfolding starts_with drop_prefix
append-drop_prefix [] s h = refl
append-drop_prefix (a ∷ p) [] h = absurd (cc)
append-drop_prefix (a ∷ p) (b ∷ s) h = ground (arith, append-drop_prefix p s)

-- A suffix that is there is trimmed off.
pub append-trim_suffix : (p s : Bytes) → ends_with p s ≡ true → trim_suffix p s ++ p ≡ s
unfolding ends_with trim_suffix trim_prefix
append-trim_suffix p s h = rw h (
    ap (λ r. reverse (drop_prefix (reverse p) (reverse s)) ++ r) (sym (reverse-reverse p))
    ∙ sym (reverse-append (reverse p) (drop_prefix (reverse p) (reverse s)))
    ∙ ap reverse (append-drop_prefix (reverse p) (reverse s) h)
    ∙ reverse-reverse s)

-- The first separator is found.
pub cut-append :
    (sep : ℕ) (s t : Bytes) → contains_byte sep s ≡ false → cut sep (s ++ (sep ∷ t)) ≡ some (s, t)
unfolding cut contains_byte add_head
cut-append sep [] t h = ground arith
cut-append sep (a ∷ s) t h = ground (arith, cut-append sep s t)
