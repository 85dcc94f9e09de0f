-- ===== src/Webui/Session/Cookie.antt =====
-- internal/webui/session.go: which cookies verify.
use mathlib.Core.List.{append_assoc}
use gitmote.Common.{
  ℕ, ◌+◌, ◌<◌, false, List, [], ◌∷◌, Bytes, bytes_eq_iff, bytes_eq_refl, leb, ◌==◌, if◌then◌else◌,
  contains_byte, Option, none, some, ◌≡◌, ◌≢◌, refl, sym, ap, ◌∙◌, arith, Option-cases, Bool-cases,
  inl, inr,
}
use gitmote.Webui.Session.{
  SessionStd, session_ttl, add_to_first, split_dots, three, split_cookie, joined, payload_of, issue,
  verify_parts, verify_session,
}

split_dots_one : (s : Bytes) → contains_byte b'.' s ≡ false → split_dots s ≡ s ∷ []
unfolding split_dots contains_byte add_to_first
split_dots_one [] h = refl
split_dots_one (b ∷ s) h = ground (arith, split_dots_one s)

split_dots-joined :
    (a b : Bytes) → contains_byte b'.' a ≡ false → split_dots (joined a b) ≡ a ∷ split_dots b
unfolding split_dots contains_byte add_to_first
split_dots-joined [] b h = ground arith
split_dots-joined (c ∷ a) b h = ground (arith, split_dots-joined a b)

-- The parts of a split, with the dots back between them.
unjoin : List Bytes → Bytes
unjoin [] = []
unjoin (s ∷ []) = s
unjoin (s ∷ t ∷ ss) = joined s (unjoin (t ∷ ss))

unjoin-add_to_first : (b : ℕ) (ss : List Bytes) → unjoin (add_to_first b ss) ≡ b ∷ unjoin ss
unfolding unjoin add_to_first
unjoin-add_to_first b [] = refl
unjoin-add_to_first b (s ∷ []) = refl
unjoin-add_to_first b (s ∷ t ∷ ss) = refl

add_to_first_some : (b : ℕ) (ss : List Bytes) → add_to_first b ss ≢ []
unfolding add_to_first
add_to_first_some b [] h = cc
add_to_first_some b (s ∷ ss) h = cc

split_dots_some : (v : Bytes) → split_dots v ≢ []
unfolding split_dots
split_dots_some [] h = cc
split_dots_some (b ∷ s) h = elim (Bool-cases (b == b'.')) [
  | inl e ↦ absurd (ground arith)
  | inr e ↦ add_to_first_some b (split_dots s) (rw e at h)
]

unjoin-nil : (ss : List Bytes) → ss ≢ [] → unjoin ([] ∷ ss) ≡ b'.' ∷ unjoin ss
unfolding unjoin
unjoin-nil [] h = absurd (h refl)
unjoin-nil (s ∷ ss) h = refl

unjoin-split_dots : (v : Bytes) → unjoin (split_dots v) ≡ v
unfolding split_dots unjoin
unjoin-split_dots [] = refl
unjoin-split_dots (b ∷ s) = elim (Bool-cases (b == b'.')) [
  | inl e ↦ rw e (
      unjoin-nil (split_dots s) (split_dots_some s)
      ∙ ap (λ r. b'.' ∷ r) (unjoin-split_dots s)
      ∙ ap (λ c. c ∷ s) (ground arith))
  | inr e ↦ rw e (unjoin-add_to_first b (split_dots s) ∙ ap (λ r. b ∷ r) (unjoin-split_dots s))
]

three-some :
    (ss : List Bytes) (uid exp mac : Bytes)
    → three ss ≡ some (uid, exp, mac)
    → ss ≡ uid ∷ exp ∷ mac ∷ []
three-some [] uid exp mac h = absurd (cc)
three-some (a ∷ []) uid exp mac h = absurd (cc)
three-some (a ∷ b ∷ []) uid exp mac h = absurd (cc)
three-some (a ∷ b ∷ c ∷ []) uid exp mac h = ground arith
three-some (a ∷ b ∷ c ∷ d ∷ ss) uid exp mac h = absurd (cc)

-- A cookie that splits is its three parts with dots between.
split_cookie_sound :
    (v uid exp mac : Bytes)
    → split_cookie v ≡ some (uid, exp, mac)
    → v ≡ joined (joined uid exp) mac
unfolding split_cookie unjoin
split_cookie_sound v uid exp mac h =
    sym (unjoin-split_dots v)
    ∙ ap unjoin (three-some (split_dots v) uid exp mac h)
    ∙ sym (append_assoc uid (b'.' ∷ exp) (b'.' ∷ mac))

module _ (std : SessionStd) where
  open std use {sign, format_int, parse_int, parse-format, format_no_dot, sign_no_dot}

  split_cookie-issue :
      (id now : ℕ)
      → split_cookie (issue std id now)
        ≡ some (
          format_int id,
          format_int (now + session_ttl),
          sign (payload_of std id (now + session_ttl)),
        )
  unfolding split_cookie issue
  split_cookie-issue id now =
      let e = now + session_ttl in
      let mac = sign (payload_of std id e) in
      ap three (
        ap split_dots (append_assoc (format_int id) (b'.' ∷ format_int e) (b'.' ∷ mac))
        ∙ split_dots-joined (format_int id) (joined (format_int e) mac) (format_no_dot id)
        ∙ ap (λ r. format_int id ∷ r)
            (split_dots-joined (format_int e) mac (format_no_dot e)
              ∙ ap (λ r. format_int e ∷ r)
                  (split_dots_one mac (sign_no_dot (payload_of std id e)))))

  -- A session that was issued verifies as its user for 12 hours, and as nobody from then on.
  pub verify_session-issue :
      (id now later : ℕ)
      → verify_session std (some (issue std id now)) later
        ≡ (if leb (now + session_ttl) later then none else some id)
  unfolding verify_session
  verify_session-issue id now later =
      rw
        (
          split_cookie-issue id now,
          bytes_eq_refl (sign (payload_of std id (now + session_ttl))),
          parse-format (now + session_ttl),
          parse-format id,
        )
        refl

  -- A cookie that verifies as a user is signed by the server: it consists of two parts and the server's
  -- own signature of them, the first part is the user's id, and the second a time still to come.
  pub verify_session_sound :
      (cookie : Option Bytes) (now id : ℕ)
      → verify_session std cookie now ≡ some id
      → (uid exp : Bytes) × (e : ℕ) × (cookie
          ≡ some (joined (joined uid exp) (sign (joined uid exp))))
        × (parse_int uid ≡ some id)
        × (parse_int exp ≡ some e)
        × (now < e)
  unfolding verify_session
  verify_session_sound none now id h = absurd (cc)
  verify_session_sound (some v) now id h = by_parts (split_cookie v) refl h
    where
      by_parts :
          (o : Option (Bytes × Bytes × Bytes))
          → split_cookie v ≡ o
          → verify_parts std now o ≡ some id
          → (uid exp : Bytes) × (e : ℕ) × (some v
              ≡ some (joined (joined uid exp) (sign (joined uid exp))))
            × (parse_int uid ≡ some id)
            × (parse_int exp ≡ some e)
            × (now < e)
      by_parts none s k = absurd (cc)
      by_parts (some (uid, exp, mac)) s k = elim (Option-cases (parse_int exp)) [
        | inl n ↦ absurd (ground arith)
        | inr (e, n) ↦
            let whole = split_cookie_sound v uid exp mac s in
            let signed : mac ≡ sign (joined uid exp) =
              ground (arith, bytes_eq_iff mac (sign (joined uid exp))) in
            (
              uid,
              exp,
              e,
              ap some (whole ∙ ap (joined (joined uid exp)) signed),
              ground arith,
              n,
              ground arith,
            )
      ]
