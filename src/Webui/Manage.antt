-- ===== src/Webui/Manage.antt =====
-- internal/webui/webui.go: the routes of the management pages and who may use them.
pub mod Tables
pub mod Handlers
pub mod Gate
pub mod Tests
use gitmote.Common.{
  ℕ, Bool, true, false, not, ◌&&◌, ◌||◌, List, [], ◌∷◌, ◌++◌, Bytes, bytes_eq, codes, ◌==◌, leb,
  if◌then◌else◌, is_empty, Option, none, some, Result, ok, err, Error, not_found,
}
use gitmote.Meta.Schema.{Repo, User, Perm, perm_read, perm_write, perm_admin}
use gitmote.Meta.Sql.{World, Sql}
use gitmote.Meta.Repos.{
  create_repo, get_repo, list_repos, list_repos_for_viewer, set_visibility, set_default_branch,
  visibility_private,
}
use gitmote.Meta.Acls.{Grant, set_acl, delete_acl, list_acls, visibility_public}
use gitmote.Meta.Users.{
  Token, create_user, create_admin, get_user, get_user_by_id, list_users, create_token,
  delete_token, list_tokens,
}
use gitmote.Auth.Token.{mint}
use gitmote.Webui.Session.{SessionStd, verify_session}
use gitmote.Webui.Pages.{
  Handling, when_found, reply, render_dashboard, Handler, Request, to_login, unauthorized_reply,
  forbidden_reply,
}
use gitmote.Webui.Forms.{
  post_repo, render_settings, post_settings, render_users, post_user, render_tokens, post_token,
  post_revoke_token, render_access, post_access, post_revoke_access, render_secrets, post_secret,
  post_delete_secret,
}

-- The routes behind requireAdmin.
pub data Route : Type 0 where
  create_repo_route users_route create_user_route tokens_route create_token_route : Route
  revoke_token_route settings_route set_settings_route access_route grant_route : Route
  revoke_access_route secrets_route set_secret_route delete_secret_route : Route

-- the handlers that Register mounts behind requireAdmin
unfoldable pub manage : Route → Handler → Request → User → Handling
manage create_repo_route h req me = post_repo h req me
manage users_route h req me = render_users h req me [] []
manage create_user_route h req me = post_user h req me
manage tokens_route h req me = render_tokens h req me [] [] []
manage create_token_route h req me = post_token h req me
manage revoke_token_route h req me = post_revoke_token h req me
manage settings_route h req me = render_settings h req me req.repo [] []
manage set_settings_route h req me = post_settings h req me
manage access_route h req me = render_access h req me req.repo [] []
manage grant_route h req me = post_access h req me
manage revoke_access_route h req me = post_revoke_access h req me
manage secrets_route h req me = render_secrets h req me req.repo [] []
manage set_secret_route h req me = post_secret h req me
manage delete_secret_route h req me = post_delete_secret h req me

unfoldable pub deny_unauth : Request → Handling
deny_unauth req = if req.is_get then reply to_login else reply unauthorized_reply

abbrev admitted : (User → Handling) → User → Handling
admitted next user = if user.is_admin then next user else reply forbidden_reply

abbrev session_user : Request → (User → Handling) → Option ℕ → Handling
session_user req next none = deny_unauth req
session_user req next (some uid) = when_found (get_user_by_id uid) (deny_unauth req) (admitted next)

unfoldable pub require_admin : Handler → Request → (now : ℕ) → (User → Handling) → Handling
require_admin h req now next = session_user req next (verify_session h.sess req.cookie now)

-- a request on a management route
unfoldable pub serve_route : Route → Handler → Request → (now : ℕ) → Handling
serve_route route h req now = require_admin h req now (manage route h req)

abbrev found_viewer : Result User → Option User
found_viewer (ok u) = some u
found_viewer (err e) = none

-- viewer, on a route without requireAdmin
abbrev viewer_of : Option ℕ → World → Option User × World
viewer_of none w = (none, w)
viewer_of (some id) w = let (r, w') = get_user_by_id id w in (found_viewer r, w')

unfoldable pub get_dashboard : Handler → Request → (now : ℕ) → Handling
get_dashboard h req now w =
    let (viewer, w') = viewer_of (verify_session h.sess req.cookie now) w in
    render_dashboard viewer [] [] w'
