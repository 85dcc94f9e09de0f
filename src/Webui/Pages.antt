-- ===== src/Webui/Pages.antt =====
-- internal/webui: what requests carry, what pages show, and the dashboard.
use gitmote.Common.{
  ℕ, Bool, true, false, ◌&&◌, ◌||◌, List, [], ◌∷◌, Bytes, ◌==◌, leb, if◌then◌else◌, Option, none,
  some, Result, ok, err, Error, not_found,
}
use gitmote.Meta.Schema.{Repo, User}
use gitmote.Meta.Sql.{World, Sql}
use gitmote.Meta.Repos.{list_repos, list_repos_for_viewer}
use gitmote.Meta.Acls.{Grant}
use gitmote.Meta.Users.{Token}
use gitmote.Webui.Session.{SessionStd}

-- SecretsAdmin; SetSecret returns the text of its error.
pub record SecretsAdmin : Type 0 where
  pub enabled : Bool
  pub set_secret : (repo_id : ℕ) (name value : Bytes) → World → Option Bytes × World
  pub list_secret_names : ℕ → Sql (List Bytes)
  pub delete_secret : ℕ → Bytes → Sql (Unit {0})

-- The Handler: the session cookies, the secrets, which may be nil, and what it takes from the
-- standard library: strings.TrimSpace, ParseInt on numbers that are not negative, the hexadecimal
-- SHA-256, the texts of errors, and RFC3339Nano.
pub record Handler : Type 0 where
  pub sess : SessionStd
  pub secrets : Option SecretsAdmin
  pub trim_space : Bytes → Bytes
  pub parse_id : Bytes → Option ℕ
  pub sha256_hex : Bytes → Bytes
  pub error_text : Error → Bytes
  pub time_text : ℕ → Bytes

-- What a request carries: its method, the value of the session cookie, the repo segment of its path,
-- and its form, in which a missing field is empty. The random bytes of a new token are inputs.
pub record Request : Type 0 where
  pub is_get : Bool
  pub cookie : Option Bytes
  pub repo : Bytes
  pub form : Bytes → Bytes
  pub selector_bytes : Bytes
  pub secret_bytes : Bytes

-- base, as far as the viewer and the messages
pub record Base : Type 0 where
  pub me : Bytes
  pub is_admin : Bool
  pub flash : Bytes
  pub problem : Bytes

-- The answers: a redirect to the login, the error statuses, a panic, which the
-- server recovers from, and the pages with their data.
pub data Reply : Type 0 where
  to_login unauthorized_reply forbidden_reply missing server_error panicked : Reply
  dashboard_page : Base → List Repo → Reply
  settings_page : Base → Repo → Reply
  users_page : Base → List User → Reply
  tokens_page : Base → List User → (selected : Bytes) → List Token → (new_token : Bytes) → Reply
  access_page : Base → Bytes → List Grant → Reply
  secrets_page : Base → Bytes → (enabled : Bool) → List Bytes → Reply

abbrev pub Handling : Type 0
Handling = World → Reply × World

-- `if err != nil { serverError; return }`
abbrev pub answer {ℓ} : {A : Type ℓ} → (A → Handling) → Result A → Handling
answer next (ok a) w = next a w
answer next (err e) w = (server_error, w)

unfoldable pub or_server_error {ℓ} : {A : Type ℓ} → Sql A → (A → Handling) → Handling
or_server_error m next w = let (r, w') = m w in answer next r w'

-- the same, where ErrNotFound has an answer of its own
abbrev pub answer_found {ℓ} : {A : Type ℓ} → Handling → (A → Handling) → Result A → Handling
answer_found absent next (ok a) w = next a w
answer_found absent next (err not_found) w = absent w
answer_found absent next (err e) w = (server_error, w)

unfoldable pub when_found {ℓ} : {A : Type ℓ} → Sql A → Handling → (A → Handling) → Handling
when_found m absent next w = let (r, w') = m w in answer_found absent next r w'

-- the same, where any error has an answer that shows it
abbrev pub answer_shown {ℓ} :
    {A : Type ℓ} → (Error → Handling) → (A → Handling) → Result A → Handling
answer_shown shown next (ok a) w = next a w
answer_shown shown next (err e) w = shown e w

unfoldable pub or_show {ℓ} : {A : Type ℓ} → Sql A → (Error → Handling) → (A → Handling) → Handling
or_show m shown next w = let (r, w') = m w in answer_shown shown next r w'

unfoldable pub reply : Reply → Handling
reply r w = (r, w)

abbrev is_alnum : ℕ → Bool
is_alnum c = (leb b'a' c && leb c b'z') || (leb b'A' c && leb c b'Z') || (leb b'0' c && leb c b'9')

abbrev all_name : Bytes → Bool
all_name [] = true
all_name (c ∷ s) = (is_alnum c || c == b'.' || c == b'_' || c == b'-') && all_name s

-- nameSegment.MatchString
unfoldable pub is_name_segment : Bytes → Bool
is_name_segment [] = false
is_name_segment (c ∷ s) = is_alnum c && all_name s

-- baseFor, for a viewer who is known
abbrev pub base_for : User → (flash problem : Bytes) → Base
base_for u flash problem = record {
  me = u.handle;
  is_admin = u.is_admin;
  flash = flash;
  problem = problem;
}

abbrev base_of : Option User → (flash problem : Bytes) → Base
base_of none flash problem = record { me = []; is_admin = false; flash = flash; problem = problem }
base_of (some u) flash problem = base_for u flash problem

unfoldable pub repos_for : Option User → Sql (List Repo)
repos_for none = list_repos_for_viewer 0
repos_for (some u) = if u.is_admin then list_repos else list_repos_for_viewer u.id

-- renderDashboard, once the viewer is known
unfoldable pub render_dashboard : Option User → (flash problem : Bytes) → Handling
render_dashboard viewer flash problem =
    or_server_error (repos_for viewer)
      (λ repos. reply (dashboard_page (base_of viewer flash problem) repos))
