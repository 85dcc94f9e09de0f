-- ===== src/Webui/Forms.antt =====
-- internal/webui/webui.go: the management pages and their forms, for a user who was let in.
use gitmote.Common.{
  ℕ, true, false, not, ◌&&◌, [], ◌++◌, Bytes, bytes_eq, codes, if◌then◌else◌, is_empty, Option,
  none, some,
}
use gitmote.Meta.Schema.{Repo, User, perm_read, perm_write, perm_admin}
use gitmote.Meta.Sql.{World}
use gitmote.Meta.Repos.{
  create_repo, get_repo, set_visibility, set_default_branch, visibility_private,
}
use gitmote.Meta.Acls.{set_acl, delete_acl, list_acls, visibility_public}
use gitmote.Meta.Users.{
  create_user, create_admin, get_user, list_users, create_token, delete_token, list_tokens,
}
use gitmote.Auth.Token.{mint}
use gitmote.Webui.Pages.{
  Handling, or_server_error, when_found, or_show, reply, is_name_segment, base_for,
  render_dashboard, SecretsAdmin, Handler, Request, Reply, missing, panicked, settings_page,
  users_page, tokens_page, access_page, secrets_page,
}

module _ (h : Handler) (req : Request) (me : User) where
  open h use {trim_space, parse_id, sha256_hex, error_text}

  abbrev pub field : Bytes → Bytes
  field name = trim_space (req.form name)

  unfoldable pub post_repo : Handling
  post_repo =
      let name = field (codes "name") in
      let branch = field (codes "default_branch") in
      if not (is_name_segment name)
      then render_dashboard (some me) []
          (codes "name must be alphanumeric (._- allowed, not leading)")
      else or_show (create_repo name branch)
          (λ e. render_dashboard (some me) [] (codes "create repo: " ++ error_text e))
          (λ repo.
            or_server_error (set_acl repo.id me.id perm_admin)
              (λ _. render_dashboard (some me) (codes "created " ++ name) []))

  unfoldable pub render_settings : (name flash problem : Bytes) → Handling
  render_settings name flash problem =
      when_found (get_repo name) (reply missing)
        (λ rp. reply (settings_page (base_for me flash problem) rp))

  unfoldable pub set_visibility_form : Repo → Bytes → Handling
  set_visibility_form rp v =
      if not (bytes_eq v visibility_private) && not (bytes_eq v visibility_public)
      then render_settings req.repo [] (codes "visibility must be private or public")
      else or_server_error (set_visibility rp.id v)
          (λ _. render_settings req.repo (codes "visibility set to " ++ v) [])

  unfoldable pub set_branch_form : Repo → Bytes → Handling
  set_branch_form rp branch =
      if is_empty branch
      then render_settings req.repo [] (codes "default branch cannot be empty")
      else or_server_error (set_default_branch rp.id branch)
          (λ _. render_settings req.repo (codes "default branch set to " ++ branch) [])

  unfoldable pub post_settings : Handling
  post_settings = when_found (get_repo req.repo) (reply missing) (λ rp.
      let v = field (codes "visibility") in
      if is_empty v
      then set_branch_form rp (field (codes "default_branch"))
      else set_visibility_form rp v)

  unfoldable pub render_users : (flash problem : Bytes) → Handling
  render_users flash problem =
      or_server_error list_users (λ users. reply (users_page (base_for me flash problem) users))

  unfoldable pub post_user : Handling
  post_user =
      let handle = field (codes "handle") in
      if not (is_name_segment handle)
      then render_users [] (codes "handle must be alphanumeric (._- allowed, not leading)")
      else or_show
          (if is_empty (req.form (codes "is_admin"))
            then create_user handle
            else create_admin handle)
          (λ e. render_users [] (codes "create user: " ++ error_text e))
          (λ _. render_users (codes "created user " ++ handle) [])

  -- renderTokens, once the user to show is known
  unfoldable pub render_tokens_of : (selected new_raw problem : Bytes) → Handling
  render_tokens_of selected new_raw problem = or_server_error list_users (λ users.
      if is_empty selected
      then reply (tokens_page (base_for me [] problem) users selected [] new_raw)
      else when_found (get_user selected)
          (reply (
            tokens_page (base_for me [] (codes "no such user: " ++ selected)) users selected []
              new_raw))
          (λ u.
            or_server_error (list_tokens h.time_text u.id)
              (λ toks. reply (tokens_page (base_for me [] problem) users selected toks new_raw))))

  unfoldable pub render_tokens : (selected new_raw problem : Bytes) → Handling
  render_tokens selected new_raw problem =
      render_tokens_of (if is_empty selected then field (codes "user") else selected) new_raw
        problem

  unfoldable pub post_token : Handling
  post_token =
      let handle = field (codes "user") in
      let label = field (codes "label") in
      when_found (get_user handle) (render_tokens handle [] (codes "no such user: " ++ handle))
        (λ u.
          let m = mint sha256_hex req.selector_bytes req.secret_bytes in
          or_server_error (create_token u.id m.selector m.verifier label)
            (λ _. render_tokens handle m.raw []))

  unfoldable pub revoke : (handle : Bytes) → Option ℕ → Handling
  revoke handle none = render_tokens handle [] (codes "bad token id")
  revoke handle (some id) = or_server_error (delete_token id) (λ _. render_tokens handle [] [])

  unfoldable pub post_revoke_token : Handling
  post_revoke_token = revoke (field (codes "user")) (parse_id (req.form (codes "id")))

  unfoldable pub render_access : (name flash problem : Bytes) → Handling
  render_access name flash problem = when_found (get_repo name) (reply missing) (λ rp.
      or_server_error (list_acls rp.id)
        (λ acls. reply (access_page (base_for me flash problem) rp.name acls)))

  unfoldable pub post_access : Handling
  post_access =
      let handle = field (codes "handle") in
      let perm = field (codes "perm") in
      if not (bytes_eq perm perm_read)
        && not (bytes_eq perm perm_write)
        && not (bytes_eq perm perm_admin)
      then render_access req.repo [] (codes "permission must be read, write, or admin")
      else when_found (get_repo req.repo) (reply missing) (λ rp.
        when_found (get_user handle) (render_access req.repo [] (codes "no such user: " ++ handle))
          (λ u. or_server_error (set_acl rp.id u.id perm) (λ _.
            render_access req.repo (codes "granted " ++ (perm ++ (codes " to " ++ handle))) [])))

  unfoldable pub revoke_access : Option ℕ → Handling
  revoke_access none = render_access req.repo [] (codes "bad user id")
  revoke_access (some uid) = when_found (get_repo req.repo) (reply missing) (λ rp.
      or_server_error (delete_acl rp.id uid) (λ _. render_access req.repo (codes "revoked") []))

  unfoldable pub post_revoke_access : Handling
  post_revoke_access = revoke_access (parse_id (req.form (codes "user_id")))

  unfoldable pub secrets_listed : Repo → (flash problem : Bytes) → Option SecretsAdmin → Handling
  secrets_listed rp flash problem none =
      reply (secrets_page (base_for me flash problem) rp.name false [])
  secrets_listed rp flash problem (some s) =
      if s.enabled
      then or_server_error (s.list_secret_names rp.id)
          (λ names. reply (secrets_page (base_for me flash problem) rp.name true names))
      else reply (secrets_page (base_for me flash problem) rp.name false [])

  unfoldable pub render_secrets : (name flash problem : Bytes) → Handling
  render_secrets name flash problem =
      when_found (get_repo name) (reply missing) (λ rp. secrets_listed rp flash problem h.secrets)

  unfoldable pub secret_set : (secret_name : Bytes) → Option Bytes × World → Reply × World
  secret_set secret_name (none, w) =
      render_secrets req.repo (codes "saved secret " ++ secret_name) [] w
  secret_set secret_name (some text, w) =
      render_secrets req.repo [] (codes "set secret: " ++ text) w

  unfoldable pub set_secret_form : (secret_name value : Bytes) → SecretsAdmin → Handling
  set_secret_form secret_name value s =
      if is_empty value
      then render_secrets req.repo [] (codes "value cannot be empty")
      else when_found (get_repo req.repo) (reply missing)
          (λ rp w. secret_set secret_name (s.set_secret rp.id secret_name value w))

  unfoldable pub disabled : Handling
  disabled = render_secrets req.repo [] (codes "secrets are disabled: set GITMOTE_CI_SECRET_KEY_V1")

  unfoldable pub post_secret_to : Option SecretsAdmin → Handling
  post_secret_to none = disabled
  post_secret_to (some s) =
      if s.enabled
      then set_secret_form (field (codes "name")) (req.form (codes "value")) s
      else disabled

  unfoldable pub post_secret : Handling
  post_secret = post_secret_to h.secrets

  unfoldable pub delete_from : Option SecretsAdmin → Repo → Handling
  delete_from none rp = reply panicked
  delete_from (some s) rp =
      let secret_name = field (codes "name") in
      or_server_error (s.delete_secret rp.id secret_name)
        (λ _. render_secrets req.repo (codes "deleted secret " ++ secret_name) [])

  unfoldable pub post_delete_secret : Handling
  post_delete_secret = when_found (get_repo req.repo) (reply missing) (delete_from h.secrets)
