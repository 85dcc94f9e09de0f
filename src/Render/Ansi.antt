-- ===== src/Render/Ansi.antt =====
-- internal/render/ansi.go: CI logs as HTML.
pub mod Palette
pub mod Plain
mod Tests
use gitmote.Common.{
  ℕ, zero, suc, Bool, true, false, not, ◌&&◌, ◌||◌, List, [], ◌∷◌, ◌++◌, Bytes, codes, ◌==◌, leb,
  ltb, if◌then◌else◌, is_empty, Option, none, some, length, ◌+◌,
}

-- What the package takes from the standard library: template.HTMLEscapeString, and Atoi on numbers
-- that are not negative; every other text is `none`, as it changes nothing.
pub record HtmlStd : Type 0 where
  pub escape : Bytes → Bytes
  pub atoi : Bytes → Option ℕ

-- ansiFG
unfoldable pub ansi_fg : ℕ → Option Bytes
ansi_fg code =
    if code == 30
    then some (codes "#555555")
    else if code == 31
    then some (codes "#c0392b")
    else if code == 32
    then some (codes "#27ae60")
    else if code == 33
    then some (codes "#b7950b")
    else if code == 34
    then some (codes "#2980b9")
    else if code == 35
    then some (codes "#8e44ad")
    else if code == 36
    then some (codes "#17a2a2")
    else if code == 37
    then some (codes "#aaaaaa")
    else if code == 90
    then some (codes "#7f8c8d")
    else if code == 91
    then some (codes "#e74c3c")
    else if code == 92
    then some (codes "#2ecc71")
    else if code == 93
    then some (codes "#f1c40f")
    else if code == 94
    then some (codes "#3498db")
    else if code == 95
    then some (codes "#9b59b6")
    else if code == 96
    then some (codes "#1abc9c")
    else if code == 97
    then some (codes "#ecf0f1")
    else none

-- the variables color and bold
pub record Style : Type 0 where
  pub color : Bytes
  pub bold : Bool

abbrev pub no_style : Style
no_style = record { color = []; bold = false }

-- strings.Split(params, ";")
abbrev add_to_first : ℕ → List Bytes → List Bytes
add_to_first b [] = (b ∷ []) ∷ []
add_to_first b (s ∷ ss) = (b ∷ s) ∷ ss

unfoldable pub split_params : Bytes → List Bytes
split_params [] = [] ∷ []
split_params (b ∷ s) =
    let rest = split_params s in if b == b';' then [] ∷ rest else add_to_first b rest

abbrev or_keep : Bytes → Option Bytes → Bytes
or_keep color none = color
or_keep color (some c) = c

-- the switch of applySGR
unfoldable pub apply_code : ℕ → Style → Style
apply_code code st =
    if code == 0
    then no_style
    else if code == 1
    then record st { bold = true }
    else if code == 22
    then record st { bold = false }
    else if code == 39
    then record st { color = [] }
    else record st { color = or_keep st.color (ansi_fg code) }

abbrev pub apply_atoi : Option ℕ → Style → Style
apply_atoi none st = st
apply_atoi (some code) st = apply_code code st

-- The bytes of a CSI sequence up to its final byte, with that byte and what follows.
abbrev pub is_final : ℕ → Bool
is_final c = leb 0x40 c && leb c 0x7e

abbrev add_param : ℕ → Option (Bytes × ℕ × Bytes) → Option (Bytes × ℕ × Bytes)
add_param c none = none
add_param c (some (params, final, rest)) = some (c ∷ params, final, rest)

unfoldable pub scan_csi : Bytes → Option (Bytes × ℕ × Bytes)
scan_csi [] = none
scan_csi (c ∷ s) = if is_final c then some ([], c, s) else add_param c (scan_csi s)

module _ (std : HtmlStd) where
  open std use {escape, atoi}

  unfoldable pub apply_params : List Bytes → Style → Style
  apply_params [] st = st
  apply_params (p ∷ ps) st = apply_params ps (apply_atoi (atoi p) st)

  -- applySGR
  unfoldable pub apply_sgr : Bytes → Style → Style
  apply_sgr params st = if is_empty params then no_style else apply_params (split_params params) st

  abbrev pub bold_css : Bool → Bytes
  bold_css true = codes "font-weight:bold;"
  bold_css false = []

  abbrev pub color_css : Bytes → Bytes
  color_css [] = []
  color_css (c ∷ color) = codes "color:" ++ ((c ∷ color) ++ codes ";")

  -- what flush writes for a text that is not empty
  unfoldable pub piece : Style → Bytes → Bytes
  piece st s =
      if is_empty st.color && not st.bold
      then escape s
      else codes "<span style=\""
        ++ (bold_css st.bold
            ++ (color_css st.color ++ (codes "\">" ++ (escape s ++ codes "</span>"))))

  unfoldable pub flush : Style → (out text : Bytes) → Bytes
  flush st out [] = out
  flush st out (c ∷ s) = out ++ piece st (c ∷ s)

  abbrev after_csi :
      (Style → (out rest : Bytes) → Option Bytes)
      → Style
      → (out : Bytes) → Option (Bytes × ℕ × Bytes)
      → Option Bytes
  after_csi next st out none = some out
  after_csi next st out (some (params, final, rest)) =
      next (if final == b'm' then apply_sgr params st else st) out rest

  -- the branches after an escape byte
  unfoldable pub after_escape :
      (Style → (out rest : Bytes) → Option Bytes) → Style → (out rest : Bytes) → Option Bytes
  after_escape next st out [] = next st out []
  after_escape next st out (c ∷ rest) =
      if c == b'[' then after_csi next st out (scan_csi rest) else next st out (c ∷ rest)

  -- The loop of ANSI: `text` is b[start:i] and `rest` b[i:]. The fuel bounds its turns.
  unfoldable pub ansi_loop : ℕ → Style → (out text rest : Bytes) → Option Bytes
  ansi_loop zero st out text rest = none
  ansi_loop (suc fuel) st out text [] = some (flush st out text)
  ansi_loop (suc fuel) st out text (c ∷ rest) =
      let skipped = ansi_loop fuel st out (text ++ (c ∷ [])) rest in
      let escaped =
        after_escape (λ st' out' rest'. ansi_loop fuel st' out' [] rest') st (flush st out text)
          rest in
      if c == 0x1b then escaped else skipped

  -- ANSI
  unfoldable pub ansi : Bytes → Option Bytes
  ansi b = ansi_loop (length b + 1) no_style [] [] b
