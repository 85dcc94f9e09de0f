-- ===== src/Render/Ansi/Tests.antt =====
-- internal/render/ansi.go: a log with a color, text to escape and a sequence that is dropped.
use gitmote.Common.{
  ℕ, [], ◌∷◌, ◌++◌, ◌+◌, ◌*◌, ◌-◌, Bytes, codes, ◌==◌, if◌then◌else◌, Option, none, some, ◌≡◌, refl,
}
use gitmote.Render.Ansi.{
  HtmlStd, ansi, ansi_loop, after_escape, scan_csi, flush, piece, apply_sgr, apply_params,
  split_params, apply_code, ansi_fg,
}
use gitmote.Render.Ansi.Palette.{Shows}
use gitmote.Render.Ansi.Plain.{in_text, strip, ansi-Shows}

abbrev escape_byte : ℕ → Bytes
escape_byte b = if b == b'<' then codes "&lt;" else b ∷ []

abbrev escape_all : Bytes → Bytes
escape_all [] = []
escape_all (b ∷ s) = escape_byte b ++ escape_all s

-- Numbers of two digits are enough here.
abbrev two_digits : Bytes → Option ℕ
two_digits (a ∷ (b ∷ [])) = some (10 * (a - b'0') + (b - b'0'))
two_digits s = none

abbrev html_std : HtmlStd
html_std = record { escape = escape_all; atoi = two_digits }

-- "a", the cursor moves home, then a red "<b"
abbrev log : Bytes
log = codes "a" ++ ((27 ∷ codes "[H") ++ ((27 ∷ codes "[31m") ++ codes "<b"))

shown : strip in_text log ≡ codes "a<b"
unfolding strip
shown = refl

page : ansi html_std log ≡ some (codes "a<span style=\"color:#c0392b;\">&lt;b</span>")
unfolding ansi ansi_loop after_escape scan_csi flush piece apply_sgr apply_params split_params
    apply_code ansi_fg
page = refl

ansi-Shows_example :
    (html : Bytes) × (ansi html_std log ≡ some html) × Shows html_std html (strip in_text log)
ansi-Shows_example = ansi-Shows html_std log
