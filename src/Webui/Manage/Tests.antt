-- ===== src/Webui/Manage/Tests.antt =====
-- A form that an admin sends, and the theorem on management routes at that input.
use gitmote.Common.{
  true, false, [], ◌∷◌, bytes_eq, codes, none, some, ◌≡◌, ◌⊎◌, refl, if◌then◌else◌,
}
use gitmote.Meta.Schema.{Db, User}
use gitmote.Meta.Sql.{World, next_fault, later}
use gitmote.Meta.Tests
use gitmote.Meta.Users.{
  get_user_by_id, user_with_id, create_user, create_user_row, has_handle, next_user_id, list_users,
}
use gitmote.Webui.Session.{issue, verify_session, split_cookie, split_dots}
use gitmote.Webui.Pages.{
  Handler, Request, or_show, or_server_error, when_found, is_name_segment, reply,
}
use gitmote.Webui.Forms.{post_user, render_users}
use gitmote.Webui.Manage.{create_user_route, serve_route, require_admin, manage}
use gitmote.Webui.Manage.Gate.{ByAdmin, Within, serve_route-ByAdmin}
use gitmote.Webui.Tests.{std}

abbrev handler : Handler
handler = record {
  sess = std;
  secrets = none;
  trim_space = λ s. s;
  parse_id = λ s. none;
  sha256_hex = λ s. s;
  error_text = λ e. [];
  time_text = λ t. t ∷ [];
}

abbrev root : User
root = record { id = 7; handle = codes "root"; is_admin = true; created_at = 0 }

abbrev with_admin : World
with_admin = record Tests.running { db = record Tests.forge { users = root ∷ [] } }

-- The form of the page of users, with the handle bob.
abbrev adds_bob : Request
adds_bob = record {
  is_get = false;
  cookie = some (issue std 7 100);
  repo = [];
  form = λ name. if bytes_eq name (codes "handle") then codes "bob" else [];
  selector_bytes = [];
  secret_bytes = [];
}

bob_added :
    (serve_route create_user_route handler adds_bob 200 with_admin).1.db ≡ record with_admin.db {
      users =
          record { id = 8; handle = codes "bob"; is_admin = false; created_at = 10 } ∷ root ∷ [];
    }
unfolding serve_route require_admin verify_session issue split_cookie split_dots bytes_eq when_found
    get_user_by_id user_with_id next_fault later manage post_user is_name_segment or_show
    create_user create_user_row has_handle next_user_id render_users or_server_error list_users
    reply
bob_added = refl

abbrev after_bob : Db
after_bob = (serve_route create_user_route handler adds_bob 200 with_admin).1.db

serve_route-ByAdmin_example :
    (after_bob ≡ with_admin.db)
    ⊎ (ByAdmin handler adds_bob 200 with_admin.db
        × Within create_user_route with_admin.db after_bob)
serve_route-ByAdmin_example =
    serve_route-ByAdmin create_user_route handler adds_bob 200 with_admin tt
