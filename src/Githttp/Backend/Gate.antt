-- ===== src/Githttp/Backend/Gate.antt =====
-- internal/githttp/backend.go: what a request that is served has passed.
use gitmote.Common.{
  true, false, not, ◌&&◌, Bytes, bytes_eq, bytes_eq_iff, codes, Option, none, some, Result, ok, err,
  ◌≡◌, ◌≢◌, ◌⊎◌, inl, inr, refl, arith, Bool-cases, ap, ◌∙◌,
}
use gitmote.Meta.Schema.{User, perm_read, perm_write}
use gitmote.Meta.Sql.{World}
use gitmote.Auth.Guard.{Std, authorize}
use gitmote.Auth.Guard.Policy.{Authorized, anonymous, bearer}
use gitmote.Auth.Guard.Sound.{authorize_sound}
use gitmote.Githttp.Backend.{
  Endpoint, info_refs, git_upload_pack, git_receive_pack, parse_git_path, GitRequest, Access,
  classify, Route, receive_pack, serve, Instance, admitted, guarded, parsed, serve_http, refs_only,
}

pub data Service : Type 0 where
  fetching advertised pushed : Service

-- What git's protocol makes of a request: it asks for the refs in order to fetch or in order to push,
-- it fetches, or it pushes. Both of a push are for those who may write.
pub data Asks (ep : Endpoint) (r : GitRequest) : Service → Type 0 where
  refs_to_fetch :
      ep ≡ info_refs
      → r.method ≡ codes "GET"
      → r.service ≡ codes "git-upload-pack"
      → Asks ep r fetching
  refs_to_push :
      ep ≡ info_refs
      → r.method ≡ codes "GET"
      → r.service ≡ codes "git-receive-pack"
      → Asks ep r advertised
  objects_to_fetch : ep ≡ git_upload_pack → r.method ≡ codes "POST" → Asks ep r fetching
  push : ep ≡ git_receive_pack → r.method ≡ codes "POST" → Asks ep r pushed

-- The access that a service needs, with the level: a reader fetches, and a writer pushes.
abbrev pub needed : Service → Access
needed fetching = record { perm = perm_read; is_receive = false; is_push = false }
needed advertised = record { perm = perm_write; is_receive = true; is_push = false }
needed pushed = record { perm = perm_write; is_receive = true; is_push = true }

classify-Asks :
    (ep : Endpoint) (r : GitRequest) (a : Access)
    → classify ep r ≡ some a
    → (service : Service) × Asks ep r service × (a ≡ needed service)
unfolding classify
classify-Asks info_refs r a h = elim (Bool-cases (bytes_eq r.method (codes "GET"))) [
  | inr m ↦ absurd (ground arith)
  | inl m ↦ elim (Bool-cases (bytes_eq r.service (codes "git-upload-pack"))) [
    | inl u ↦ (
      fetching,
      refs_to_fetch refl ((bytes_eq_iff r.method (codes "GET")).0 m)
          ((bytes_eq_iff r.service (codes "git-upload-pack")).0 u),
      ground arith,
    )
    | inr u ↦ elim (Bool-cases (bytes_eq r.service (codes "git-receive-pack"))) [
      | inr v ↦ absurd (ground arith)
      | inl v ↦ (
        advertised,
        refs_to_push refl ((bytes_eq_iff r.method (codes "GET")).0 m)
            ((bytes_eq_iff r.service (codes "git-receive-pack")).0 v),
        ground arith,
      )
    ]
  ]
]
classify-Asks git_upload_pack r a h = elim (Bool-cases (bytes_eq r.method (codes "POST"))) [
  | inr m ↦ absurd (ground arith)
  | inl m ↦
      (fetching, objects_to_fetch refl ((bytes_eq_iff r.method (codes "POST")).0 m), ground arith)
]
classify-Asks git_receive_pack r a h = elim (Bool-cases (bytes_eq r.method (codes "POST"))) [
  | inr m ↦ absurd (ground arith)
  | inl m ↦ (pushed, push refl ((bytes_eq_iff r.method (codes "POST")).0 m), ground arith)
]

refs_only_cases :
    (ep : Endpoint)
    → ((ep ≡ info_refs) × (refs_only ep ≡ true)) ⊎ ((ep ≢ info_refs) × (refs_only ep ≡ false))
refs_only_cases info_refs = inl (refl, refl)
refs_only_cases git_upload_pack = inr (λ e. cc, refl)
refs_only_cases git_receive_pack = inr (λ e. cc, refl)

-- Only a reader is anonymous.
writer_known :
    (std : Std) (w : World) (header name : Bytes) (u : Option User)
    → Authorized std w header name perm_write u
    → (user : User) × (u ≡ some user)
writer_known std w header name u (anonymous repo _ _ p _ _) = absurd (cc)
writer_known std w header name u (bearer repo raw ta _ _ _ _ e) = (ta.user, e)

module _ (std : Std) (inst : Instance) (r : GitRequest) (w : World) where
  -- What holds of a route that leads to a repo.
  abbrev pub Passed : Route → Type 0
  Passed (receive_pack name user) =
      (inst.has_writer ≡ true)
      × (inst.is_writable ≡ true)
      × (r.method ≡ codes "POST")
      × (parse_git_path r.url_path ≡ some (name, git_receive_pack))
      × ((u : User) × (user ≡ some u) × Authorized std w r.authorization name perm_write (some u))
  Passed (serve name only is_receive) =
      (service : Service) × (ep : Endpoint) × (parse_git_path r.url_path ≡ some (name, ep))
      × Asks ep r service
      × (((ep ≡ info_refs) × (only ≡ true)) ⊎ ((ep ≢ info_refs) × (only ≡ false)))
      × (is_receive ≡ (needed service).is_receive)
      × ((service ≡ fetching)
          ⊎ ((service ≡ advertised) × (inst.has_writer ≡ true) × (inst.is_writable ≡ true)))
      × ((u : Option User) × Authorized std w r.authorization name (needed service).perm u)
  Passed route = Unit

  admitted-Passed :
      (name : Bytes) (ep : Endpoint) (service : Service) (u : Result (Option User))
      → parse_git_path r.url_path ≡ some (name, ep)
      → Asks ep r service
      → ((needed service).is_receive ≡ true → (inst.has_writer ≡ true) × (inst.is_writable ≡ true))
      → ((user : Option User)
          → u ≡ ok user
          → Authorized std w r.authorization name (needed service).perm user)
      → Passed (admitted name ep (needed service) u)
  admitted-Passed name ep service (err e) p c g may = tt
  admitted-Passed name ep fetching (ok user) p c g may =
      (fetching, ep, p, c, refs_only_cases ep, refl, inl refl, (user, may user refl))
  admitted-Passed name ep advertised (ok user) p c g may = (
    advertised,
    ep,
    p,
    c,
    refs_only_cases ep,
    refl,
    inr (refl, (g refl).0, (g refl).1),
    (user, may user refl),
  )
  admitted-Passed name ep pushed (ok user) p (push ends post) g may =
      let (u, known) = writer_known std w r.authorization name user (may user refl) in
      (
        (g refl).0,
        (g refl).1,
        post,
        p ∙ ap (λ (e : Endpoint). some (name, e)) ends,
        (u, known, rw (← known) (may user refl)),
      )

  guarded-Passed :
      (name : Bytes) (ep : Endpoint) (o : Option Access)
      → parse_git_path r.url_path ≡ some (name, ep)
      → classify ep r ≡ o
      → Passed (guarded std inst r name ep o w).0
  guarded-Passed name ep none p c = tt
  guarded-Passed name ep (some a) p c = elim (Bool-cases (a.is_receive && not inst.has_writer)) [
    | inl e ↦ rw e tt
    | inr e ↦ elim (Bool-cases (a.is_receive && not inst.is_writable)) [
      | inl f ↦ rw (e, f) tt
      | inr f ↦
          let (service, asks, same) = classify-Asks ep r a c in
          rw (e, f)
            (rw same (
              admitted-Passed name ep service
                (authorize std r.authorization name (needed service).perm w).0 p asks
                (λ receives. (ground arith, ground arith))
                (λ user h.
                  authorize_sound std w r.authorization name (needed service).perm user h)))
    ]
  ]

  -- A request reaches git only through all the gates, at the level that git's protocol asks for. It is
  -- served as a push only by an instance that has a writer and holds the lease, on a POST to
  -- receive-pack, for a user who is known and may write to the repo. Otherwise it is served only as a
  -- fetch, a GET of the refs for upload-pack or a POST to upload-pack, for whom the rules let read, or as
  -- a GET of the refs for receive-pack, by an instance as above, for whom they let write; the refs alone
  -- are materialized exactly for info/refs.
  pub serve_http-Passed : Passed (serve_http std inst r w).0
  unfolding serve_http
  serve_http-Passed = by_path (parse_git_path r.url_path) refl
    where
      by_path :
          (o : Option (Bytes × Endpoint))
          → parse_git_path r.url_path ≡ o
          → Passed (parsed std inst r o w).0
      by_path none e = tt
      by_path (some (name, ep)) e = guarded-Passed name ep (classify ep r) e refl
