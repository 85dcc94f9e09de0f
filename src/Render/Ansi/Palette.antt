-- ===== src/Render/Ansi/Palette.antt =====
-- internal/render/ansi.go: the styles that a log may set, and the markup made of them.
use mathlib.Core.List.{append_assoc, append-nil}
use gitmote.Common.{
  ℕ, Bool, not, ◌&&◌, List, [], ◌∷◌, ◌++◌, Bytes, codes, ◌==◌, is_empty, Option, none, some, ◌≡◌,
  ◌⊎◌, inl, inr, refl, Bool-cases, Option-cases,
}
use gitmote.Render.Ansi.{
  HtmlStd, Style, ansi_fg, apply_code, apply_atoi, apply_params, apply_sgr, split_params, bold_css,
  color_css, piece,
}

-- The color is none or one of the table.
abbrev pub InPalette : Style → Type 0
InPalette st = (st.color ≡ []) ⊎ ((code : ℕ) × (ansi_fg code ≡ some st.color))

InPalette-apply_code : (code : ℕ) (st : Style) → InPalette st → InPalette (apply_code code st)
unfolding apply_code
InPalette-apply_code code st p = elim (Bool-cases (code == 0)) [
  | inl e ↦ rw e (inl refl)
  | inr e ↦ elim (Bool-cases (code == 1)) [
    | inl f ↦ rw (e, f) p
    | inr f ↦ elim (Bool-cases (code == 22)) [
      | inl g ↦ rw (e, f, g) p
      | inr g ↦ elim (Bool-cases (code == 39)) [
        | inl i ↦ rw (e, f, g, i) (inl refl)
        | inr i ↦ elim (Option-cases (ansi_fg code)) [
          | inl n ↦ rw (e, f, g, i, n) p
          | inr (c, n) ↦ rw (e, f, g, i, n) (inr (code, n))
        ]
      ]
    ]
  ]
]

InPalette-apply_atoi : (o : Option ℕ) (st : Style) → InPalette st → InPalette (apply_atoi o st)
InPalette-apply_atoi none st p = p
InPalette-apply_atoi (some code) st p = InPalette-apply_code code st p

module _ (std : HtmlStd) where
  InPalette-apply_params :
      (ps : List Bytes) (st : Style) → InPalette st → InPalette (apply_params std ps st)
  unfolding apply_params
  InPalette-apply_params [] st p = p
  InPalette-apply_params (s ∷ ps) st p =
      InPalette-apply_params ps (apply_atoi (std.atoi s) st)
        (InPalette-apply_atoi (std.atoi s) st p)

  pub InPalette-apply_sgr :
      (params : Bytes) (st : Style) → InPalette st → InPalette (apply_sgr std params st)
  unfolding apply_sgr
  InPalette-apply_sgr params st p = elim (Bool-cases (is_empty params)) [
    | inl e ↦ rw e (inl refl)
    | inr e ↦ rw e (InPalette-apply_params (split_params params) st p)
  ]

  -- The CSS of the package: bold or not, and a color of the table or none.
  pub data IsCss : Bytes → Type 0 where
    plain_css : (bold : Bool) {css : Bytes} → css ≡ bold_css std bold → IsCss css
    colored_css :
        (bold : Bool) (code : ℕ) (color : Bytes) {css : Bytes}
        → ansi_fg code ≡ some color
        → css ≡ bold_css std bold ++ (codes "color:" ++ (color ++ codes ";"))
        → IsCss css

  -- The markup that shows a text: escaped texts, each alone or in a span with CSS of the package.
  pub data Shows : (html text : Bytes) → Type 0 where
    nothing : Shows [] []
    bare :
        {html text : Bytes} (s h t : Bytes)
        → Shows h t
        → html ≡ std.escape s ++ h
        → text ≡ s ++ t
        → Shows html text
    spanned :
        {html text : Bytes} (css s h t : Bytes)
        → IsCss css
        → Shows h t
        → html
          ≡ codes "<span style=\""
            ++ (css ++ (codes "\">" ++ (std.escape s ++ (codes "</span>" ++ h))))
        → text ≡ s ++ t
        → Shows html text

  IsCss-color_css :
      (bold : Bool) (color : Bytes)
      → (color ≡ []) ⊎ ((code : ℕ) × (ansi_fg code ≡ some color))
      → IsCss (bold_css std bold ++ color_css std color)
  IsCss-color_css bold [] p = plain_css bold (append-nil (bold_css std bold))
  IsCss-color_css bold (c ∷ color) (inl e) = absurd (cc)
  IsCss-color_css bold (c ∷ color) (inr (code, e)) = colored_css bold code (c ∷ color) e refl

  pub Shows-piece :
      (st : Style) (s h t : Bytes) → InPalette st → Shows h t → Shows (piece std st s ++ h) (s ++ t)
  unfolding piece
  Shows-piece st s h t p k = elim (Bool-cases (is_empty st.color && not st.bold)) [
    | inl e ↦ rw e (bare s h t k refl refl)
    | inr e ↦ rw e (
        spanned (bold_css std st.bold ++ color_css std st.color) s h t
          (IsCss-color_css st.bold st.color p) k (simp append_assoc) refl)
  ]
