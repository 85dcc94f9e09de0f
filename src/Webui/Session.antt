-- ===== src/Webui/Session.antt =====
-- internal/webui/session.go: the session as a signed cookie.
pub mod Cookie
use gitmote.Common.{
  ℕ, ◌+◌, Bool, true, false, not, List, [], ◌∷◌, ◌++◌, Bytes, bytes_eq, leb, ◌==◌, if◌then◌else◌,
  contains_byte, Option, none, some, ◌≡◌,
}

-- What the sessions take from the standard library: the hexadecimal HMAC-SHA256 under the server's key,
-- strconv.FormatInt and ParseInt in base 10 on numbers that are not negative.
pub record SessionStd : Type 0 where
  pub sign : Bytes → Bytes
  pub format_int : ℕ → Bytes
  pub parse_int : Bytes → Option ℕ
  pub parse-format : (n : ℕ) → parse_int (format_int n) ≡ some n
  pub format_no_dot : (n : ℕ) → contains_byte b'.' (format_int n) ≡ false
  pub sign_no_dot : (payload : Bytes) → contains_byte b'.' (sign payload) ≡ false

-- sessionTTL in seconds, 12 hours
abbrev pub session_ttl : ℕ
session_ttl = 43200

add_to_first : ℕ → List Bytes → List Bytes
add_to_first b [] = (b ∷ []) ∷ []
add_to_first b (s ∷ ss) = (b ∷ s) ∷ ss

-- strings.Split(v, ".")
unfoldable pub split_dots : Bytes → List Bytes
unfolding add_to_first
split_dots [] = [] ∷ []
split_dots (b ∷ s) = let rest = split_dots s in if b == b'.' then [] ∷ rest else add_to_first b rest

abbrev three : List Bytes → Option (Bytes × Bytes × Bytes)
three (uid ∷ exp ∷ mac ∷ []) = some (uid, exp, mac)
three parts = none

unfoldable pub split_cookie : Bytes → Option (Bytes × Bytes × Bytes)
split_cookie v = three (split_dots v)

abbrev pub joined : Bytes → Bytes → Bytes
joined a b = a ++ (b'.' ∷ b)

module _ (std : SessionStd) where
  open std use {sign, format_int, parse_int}

  abbrev payload_of : ℕ → ℕ → Bytes
  payload_of user_id exp = joined (format_int user_id) (format_int exp)

  -- the value of the cookie that issue sets, at a time in Unix seconds
  unfoldable pub issue : (user_id now : ℕ) → Bytes
  issue user_id now =
      let payload = payload_of user_id (now + session_ttl) in joined payload (sign payload)

  abbrev unexpired : (now : ℕ) → Option ℕ → Option ℕ → Option ℕ
  unexpired now none id = none
  unexpired now (some exp) id = if leb exp now then none else id

  abbrev verify_parts : (now : ℕ) → Option (Bytes × Bytes × Bytes) → Option ℕ
  verify_parts now none = none
  verify_parts now (some (uid, exp, mac)) =
      if bytes_eq mac (sign (joined uid exp))
      then unexpired now (parse_int exp) (parse_int uid)
      else none

  abbrev verify_value : (now : ℕ) → Option Bytes → Option ℕ
  verify_value now none = none
  verify_value now (some v) = verify_parts now (split_cookie v)

  -- The cookie of the request, if it has one.
  unfoldable pub verify_session : Option Bytes → (now : ℕ) → Option ℕ
  verify_session cookie now = verify_value now cookie
