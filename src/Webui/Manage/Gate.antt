-- ===== src/Webui/Manage/Gate.antt =====
-- internal/webui/webui.go: who changes what through the management routes.
use gitmote.Common.{
  [], ℕ, Bool, true, false, Option, none, some, Result, ok, err, not_found, ◌≡◌, ◌⊎◌, inl, inr,
  refl, sym, if◌then◌else◌, arith, Bool-cases,
}
use mathlib.Core.Path.{subst}
use gitmote.Meta.Schema.{Db, User}
use gitmote.Meta.Sql.{World}
use gitmote.Meta.Users.{get_user_by_id, user_with_id}
use gitmote.Webui.Session.{verify_session}
use gitmote.Webui.Pages.{Handler, Request, Handling, reply, when_found, answer_found}
use gitmote.Webui.Manage.{
  Route, create_repo_route, users_route, create_user_route, tokens_route, create_token_route,
  revoke_token_route, settings_route, set_settings_route, access_route, grant_route,
  revoke_access_route, secrets_route, set_secret_route, delete_secret_route, manage, deny_unauth,
  admitted, session_user, require_admin, serve_route,
}
use gitmote.Webui.Manage.Tables.{Reads-get_user_by_id, run_Keeps}
use gitmote.Webui.Manage.Handlers.{
  AreWired, Keeps-render_users, Keeps-render_tokens, Keeps-render_settings, Keeps-render_access,
  Keeps-render_secrets, Keeps-post_repo, Keeps-post_user, Keeps-post_token, Keeps-post_revoke_token,
  Keeps-post_settings, Keeps-post_access, Keeps-post_revoke_access, Keeps-post_secret,
  Keeps-post_delete_secret,
}

-- The tables that a route may change.
abbrev pub Within : Route → (before after : Db) → Type 0
Within create_repo_route a b = b ≡ record a { repos = b.repos; acls = b.acls }
Within create_user_route a b = b ≡ record a { users = b.users }
Within create_token_route a b = b ≡ record a { tokens = b.tokens }
Within revoke_token_route a b = b ≡ record a { tokens = b.tokens }
Within set_settings_route a b = b ≡ record a { repos = b.repos }
Within grant_route a b = b ≡ record a { acls = b.acls }
Within revoke_access_route a b = b ≡ record a { acls = b.acls }
Within set_secret_route a b = b ≡ record a { ci_secrets = b.ci_secrets }
Within delete_secret_route a b = b ≡ record a { ci_secrets = b.ci_secrets }
Within route a b = b ≡ a

module _ (h : Handler) (req : Request) (me : User) (wired : AreWired h.secrets) (w : World) where
  Within-manage : (route : Route) → Within route w.db (manage route h req me w).1.db
  unfolding manage
  Within-manage create_repo_route =
      run_Keeps
        (Keeps-post_repo (λ b. b ≡ record w.db { repos = b.repos; acls = b.acls }) h req me
          (λ a b p e. ground arith) (λ a b p e. ground arith))
        w refl
  Within-manage users_route = run_Keeps (Keeps-render_users (λ b. b ≡ w.db) h req me [] []) w refl
  Within-manage tokens_route =
      run_Keeps (Keeps-render_tokens (λ b. b ≡ w.db) h req me [] [] []) w refl
  Within-manage settings_route =
      run_Keeps (Keeps-render_settings (λ b. b ≡ w.db) h req me req.repo [] []) w refl
  Within-manage access_route =
      run_Keeps (Keeps-render_access (λ b. b ≡ w.db) h req me req.repo [] []) w refl
  Within-manage secrets_route =
      run_Keeps (Keeps-render_secrets (λ b. b ≡ w.db) h req me wired req.repo [] []) w refl
  Within-manage create_user_route =
      run_Keeps
        (Keeps-post_user (λ b. b ≡ record w.db { users = b.users }) h req me
          (λ a b p e. ground arith))
        w refl
  Within-manage create_token_route =
      run_Keeps
        (Keeps-post_token (λ b. b ≡ record w.db { tokens = b.tokens }) h req me
          (λ a b p e. ground arith))
        w refl
  Within-manage revoke_token_route =
      run_Keeps
        (Keeps-post_revoke_token (λ b. b ≡ record w.db { tokens = b.tokens }) h req me
          (λ a b p e. ground arith))
        w refl
  Within-manage set_settings_route =
      run_Keeps
        (Keeps-post_settings (λ b. b ≡ record w.db { repos = b.repos }) h req me
          (λ a b p e. ground arith))
        w refl
  Within-manage grant_route =
      run_Keeps
        (Keeps-post_access (λ b. b ≡ record w.db { acls = b.acls }) h req me
          (λ a b p e. ground arith))
        w refl
  Within-manage revoke_access_route =
      run_Keeps
        (Keeps-post_revoke_access (λ b. b ≡ record w.db { acls = b.acls }) h req me
          (λ a b p e. ground arith))
        w refl
  Within-manage set_secret_route =
      run_Keeps
        (Keeps-post_secret (λ b. b ≡ record w.db { ci_secrets = b.ci_secrets }) h req me wired
          (λ a b p e. ground arith))
        w refl
  Within-manage delete_secret_route =
      run_Keeps
        (Keeps-post_delete_secret (λ b. b ≡ record w.db { ci_secrets = b.ci_secrets }) h req me
          wired (λ a b p e. ground arith))
        w refl

-- The session of a current admin, who made the change.
pub record ByAdmin (h : Handler) (req : Request) (now : ℕ) (db : Db) : Type 0 where
  pub uid : ℕ
  pub user : User
  pub session : verify_session h.sess req.cookie now ≡ some uid
  pub current : user_with_id uid db.users ≡ some user
  pub admin : user.is_admin ≡ true

chosen : (b : Bool) (m n : Handling) → b ≡ true → (if b then m else n) ≡ m
chosen true m n e = refl
chosen false m n e = absurd (cc)

get_user_by_id_sound :
    (uid : ℕ) (w : World) (u : User)
    → (get_user_by_id uid w).0 ≡ ok u
    → user_with_id uid w.db.users ≡ some u
unfolding get_user_by_id
get_user_by_id_sound uid w u e = ground arith

module _ (route : Route) (h : Handler) (req : Request) (now : ℕ) (w : World)
    (wired : AreWired h.secrets) where
  -- Nothing has changed, or an admin changed the tables of the route.
  abbrev Gated : Db → Type 0
  Gated after = (after ≡ w.db) ⊎ (ByAdmin h req now w.db × Within route w.db after)

  denied : (v : World) → v.db ≡ w.db → Gated (deny_unauth req v).1.db
  unfolding deny_unauth reply
  denied v e = elim (Bool-cases req.is_get) [ inl g ↦ rw g (inl e) | inr g ↦ rw g (inl e) ]

  Gated-found :
      (uid : ℕ) (r : Result User) (v : World)
      → verify_session h.sess req.cookie now ≡ some uid
      → ((u : User) → r ≡ ok u → user_with_id uid w.db.users ≡ some u)
      → v.db ≡ w.db
      → Gated (answer_found (deny_unauth req) (admitted (manage route h req)) r v).1.db
  unfolding reply
  Gated-found uid (ok u) v s f e = elim (Bool-cases u.is_admin) [
    | inl a ↦
        let who : ByAdmin h req now w.db = record {
          uid = uid;
          user = u;
          session = s;
          current = f u refl;
          admin = a;
        } in
        subst (λ (m : Handling). Gated (m v).1.db) (sym (chosen u.is_admin _ _ a))
          (inr (
            who,
            subst (λ d. Within route d (manage route h req u v).1.db) e
                (Within-manage h req u wired v route),
          ))
    | inr a ↦ rw a (inl e)
  ]
  Gated-found uid (err not_found) v s f e = denied v e
  Gated-found uid (err x) v s f e = inl e

  Gated-session :
      (o : Option ℕ)
      → verify_session h.sess req.cookie now ≡ o
      → Gated (session_user req (manage route h req) o w).1.db
  unfolding when_found
  Gated-session none s = denied w refl
  Gated-session (some uid) s =
      Gated-found uid (get_user_by_id uid w).0 (get_user_by_id uid w).1 s
        (get_user_by_id_sound uid w) (Reads-get_user_by_id uid w)

  -- Whatever statement fails, a request on a management route changes nothing, or it bears the session
  -- of a user who is an admin in the tables at that time, and only the tables of the route change: the
  -- grants and the repos on the creation of a repo, the users, the tokens, the repos, the grants or the
  -- secrets on the other forms, and nothing on a page.
  pub serve_route-ByAdmin :
      ((serve_route route h req now w).1.db ≡ w.db)
      ⊎ (ByAdmin h req now w.db × Within route w.db (serve_route route h req now w).1.db)
  unfolding serve_route require_admin
  serve_route-ByAdmin = Gated-session (verify_session h.sess req.cookie now) refl
