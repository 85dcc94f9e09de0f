-- ===== src/Webui/Tests.antt =====
-- A session with a stand-in for the signature, and the theorems of the package at that input.
use gitmote.Common.{
  ℕ, ap, ◌+◌, ◌-◌, ◌<◌, false, [], ◌∷◌, Bytes, codes, leb, if◌then◌else◌, contains_byte, bytes_eq,
  Option, none, some, ◌≡◌, refl, arith,
}
use gitmote.Webui.Session.{
  SessionStd, session_ttl, joined, issue, split_cookie, split_dots, verify_session,
}
use gitmote.Webui.Session.Cookie.{verify_session-issue, verify_session_sound}

-- A number as one byte, past those of the dot.
abbrev pub one_byte : ℕ → Bytes
one_byte n = (n + 47) ∷ []

abbrev pub byte_value : Bytes → Option ℕ
byte_value [] = none
byte_value (b ∷ s) = some (b - 47)

pub byte_value-one_byte : (n : ℕ) → byte_value (one_byte n) ≡ some n
byte_value-one_byte n = ap some (omega arith)

pub one_byte_no_dot : (n : ℕ) → contains_byte b'.' (one_byte n) ≡ false
unfolding contains_byte
one_byte_no_dot n = ground arith

pub f5_no_dot : contains_byte b'.' (codes "5f") ≡ false
unfolding contains_byte
f5_no_dot = refl

-- The signature is the same for all.
abbrev pub std : SessionStd
std = record {
  sign = λ payload. codes "5f";
  format_int = one_byte;
  parse_int = byte_value;
  parse-format = byte_value-one_byte;
  format_no_dot = one_byte_no_dot;
  sign_no_dot = λ payload. f5_no_dot;
}

verify_session-issue_example :
    verify_session std (some (issue std 7 100)) 200
    ≡ (if leb (100 + session_ttl) 200 then none else some 7)
verify_session-issue_example = verify_session-issue std 7 100 200

still_valid : verify_session std (some (issue std 7 100)) 200 ≡ some 7
unfolding verify_session issue split_cookie split_dots bytes_eq
still_valid = refl

verify_session_sound_example :
    (uid exp : Bytes) × (e : ℕ) × (some (issue std 7 100)
      ≡ some (joined (joined uid exp) (codes "5f")))
    × (byte_value uid ≡ some 7)
    × (byte_value exp ≡ some e)
    × (200 < e)
verify_session_sound_example = verify_session_sound std (some (issue std 7 100)) 200 7 still_valid
