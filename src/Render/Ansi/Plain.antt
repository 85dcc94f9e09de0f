-- ===== src/Render/Ansi/Plain.antt =====
-- internal/render/ansi.go: what ANSI shows of a log.
use mathlib.Core.List.{append_assoc, append-nil}
use gitmote.Common.{
  ℕ, zero, suc, ◌+◌, ◌<◌, Bool, true, false, not, ◌&&◌, [], ◌∷◌, ◌++◌, Bytes, ◌==◌, length,
  if◌then◌else◌, Option, none, some, ◌≡◌, inl, inr, refl, ap, sym, ◌∙◌, arith, Bool-cases,
  Option-cases,
}
use gitmote.Render.Ansi.{
  HtmlStd, Style, no_style, is_final, scan_csi, piece, flush, apply_sgr, after_escape, ansi_loop,
  ansi,
}
use gitmote.Render.Ansi.Palette.{InPalette, InPalette-apply_sgr, Shows, nothing, Shows-piece}

-- Where a reader of a log stands: in text, after an escape byte, or in a control sequence.
pub data Mode : Type 0 where
  in_text after_esc in_csi : Mode

abbrev step : Mode → ℕ → Mode
step in_text c = if c == 0x1b then after_esc else in_text
step after_esc c = if c == b'[' then in_csi else if c == 0x1b then after_esc else in_text
step in_csi c = if is_final c then in_text else in_csi

abbrev is_shown : Mode → ℕ → Bool
is_shown in_text c = not (c == 0x1b)
is_shown after_esc c = not (c == b'[') && not (c == 0x1b)
is_shown in_csi c = false

-- The text of a log without its CSI sequences and its other escape bytes. What follows such a byte, as
-- in a sequence of another kind, stays.
unfoldable pub strip : Mode → Bytes → Bytes
strip m [] = []
strip m (c ∷ s) = let rest = strip (step m c) s in if is_shown m c then c ∷ rest else rest

strip_unterminated : (s : Bytes) → scan_csi s ≡ none → strip in_csi s ≡ []
unfolding strip scan_csi
strip_unterminated [] h = refl
strip_unterminated (c ∷ s) h = elim (Bool-cases (is_final c)) [
  | inl e ↦ absurd (ground arith)
  | inr e ↦ elim (Option-cases (scan_csi s)) [
    | inl n ↦ rw e (strip_unterminated s n)
    | inr (t, n) ↦ absurd (ground arith)
  ]
]

strip-scan_csi :
    (s params rest : Bytes) (final : ℕ)
    → scan_csi s ≡ some (params, final, rest)
    → (strip in_csi s ≡ strip in_text rest) × (length rest < length s)
unfolding strip scan_csi
strip-scan_csi [] params rest final h = absurd (cc)
strip-scan_csi (c ∷ s) params rest final h = elim (Bool-cases (is_final c)) [
  | inl e ↦
      (let at : s ≡ rest = ground arith in
        (rw e (ap (λ k. strip in_text k) at), rw at (omega arith)))
  | inr e ↦ elim (Option-cases (scan_csi s)) [
    | inl n ↦ absurd (ground arith)
    | inr ((p, f, r), n) ↦
        (let at : r ≡ rest = ground arith in
          let (same, shorter) = strip-scan_csi s p rest f (n ∙ ap (λ k. some (p, f, k)) at) in
          (rw e same, omega arith))
  ]
]

strip-after_esc :
    (c : ℕ) (s : Bytes) → (c == b'[') ≡ false → strip after_esc (c ∷ s) ≡ strip in_text (c ∷ s)
unfolding strip
strip-after_esc c s h = elim (Bool-cases (c == 0x1b)) [
  | inl e ↦ rw (h, e) refl
  | inr e ↦ rw (h, e) refl
]

strip-csi : (c : ℕ) (s : Bytes) → (c == b'[') ≡ true → strip after_esc (c ∷ s) ≡ strip in_csi s
unfolding strip
strip-csi c s h = rw h refl

module _ (std : HtmlStd) where
  InPalette-final :
      (st : Style) (params : Bytes) (final : ℕ)
      → InPalette st
      → InPalette (if final == b'm' then apply_sgr std params st else st)
  InPalette-final st params final p = elim (Bool-cases (final == b'm')) [
    | inl e ↦ rw e (InPalette-apply_sgr std params st p)
    | inr e ↦ rw e p
  ]

  -- What the loop returns: markup after `out` that shows the text.
  abbrev Adds : Option Bytes → (out text : Bytes) → Type 0
  Adds result out text = (html : Bytes) × (result ≡ some (out ++ html)) × Shows std html text

  Adds-flush :
      (st : Style) (out text shown : Bytes) (result : Option Bytes)
      → InPalette st
      → Adds result (flush std st out text) shown
      → Adds result out (text ++ shown)
  unfolding flush
  Adds-flush st out [] shown result p a = a
  Adds-flush st out (c ∷ text) shown result p (html, e, k) = (
    piece std st (c ∷ text) ++ html,
    e ∙ ap some (append_assoc out (piece std st (c ∷ text)) html),
    Shows-piece std st (c ∷ text) html shown p k,
  )

  Adds-after_escape :
      (fuel : ℕ) (next : Style → (out rest : Bytes) → Option Bytes)
      → ((st : Style) (out rest : Bytes)
          → length rest < fuel
          → InPalette st
          → Adds (next st out rest) out (strip in_text rest))
      → (st : Style) (out rest : Bytes) → length rest < fuel
      → InPalette st
      → Adds (after_escape std next st out rest) out (strip after_esc rest)
  unfolding after_escape
  Adds-after_escape fuel next k st out [] l p = unfold strip in k st out [] l p
  Adds-after_escape fuel next k st out (c ∷ rest) l p = elim (Bool-cases (c == b'[')) [
    | inl e ↦ elim (Option-cases (scan_csi rest)) [
      | inl n ↦
          rw (e, n, strip-csi c rest e, strip_unterminated rest n)
            ([], ap some (sym (append-nil out)), nothing)
      | inr ((params, final, after), n) ↦
          (let (same, shorter) = strip-scan_csi rest params after final n in
            rw (e, n, strip-csi c rest e, same)
              (k _ out after (omega arith) (InPalette-final st params final p)))
    ]
    | inr e ↦ rw (e, strip-after_esc c rest e) (k st out (c ∷ rest) l p)
  ]

  Adds-loop :
      (fuel : ℕ) (st : Style) (out text rest : Bytes)
      → length rest < fuel
      → InPalette st
      → Adds (ansi_loop std fuel st out text rest) out (text ++ strip in_text rest)
  unfolding ansi_loop strip
  Adds-loop zero st out text rest l p = absurd (omega arith)
  Adds-loop (suc fuel) st out text [] l p =
      Adds-flush st out text [] _ p ([], ap some (sym (append-nil _)), nothing)
  Adds-loop (suc fuel) st out text (c ∷ rest) l p = elim (Bool-cases (c == 0x1b)) [
    | inl e ↦ rw e (
        Adds-flush st out text _ _ p (
          Adds-after_escape fuel _ (λ st' out' rest'. Adds-loop fuel st' out' [] rest') st
            (flush std st out text) rest (omega arith) p))
    | inr e ↦
        rw (e, sym (append_assoc text (c ∷ []) (strip in_text rest)))
          (Adds-loop fuel st out (text ++ (c ∷ [])) rest (omega arith) p)
  ]

  -- ANSI returns on every log, and its result is markup that shows the log without its CSI sequences, the
  -- last of which may be cut short, and without its other escape bytes, but with what follows those:
  -- each part of that text escaped, alone or in a span whose style is bold or not and has no color or
  -- one of the palette.
  pub ansi-Shows :
      (b : Bytes) → (html : Bytes) × (ansi std b ≡ some html) × Shows std html (strip in_text b)
  unfolding ansi
  ansi-Shows b = Adds-loop (length b + 1) no_style [] [] b (omega arith) (inl refl)
