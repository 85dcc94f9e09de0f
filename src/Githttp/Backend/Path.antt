-- ===== src/Githttp/Backend/Path.antt =====
-- internal/githttp/backend.go: parseGitPath, both ways.
use mathlib.Core.List.{reverse-append}
use gitmote.Common.{
  true, false, List, [], ◌∷◌, ◌++◌, Bytes, codes, starts_with, ends_with, trim_prefix, trim_suffix,
  trim_suffix-append, some, ◌≡◌, ◌≢◌, refl, arith, ends_with-append, append-trim_suffix, ◌↔◌,
  Bool-cases, inl, inr, ap, ◌∙◌,
}
use gitmote.Githttp.Backend.{
  Endpoint, info_refs, git_upload_pack, git_receive_pack, suffix, named, find_endpoint,
  parse_git_path,
}

-- No endpoint's suffix ends in another's.
other_suffix :
    (name : Bytes)
    → (ends_with (suffix info_refs) (name ++ suffix git_upload_pack) ≡ false)
      × (ends_with (suffix info_refs) (name ++ suffix git_receive_pack) ≡ false)
      × (ends_with (suffix git_upload_pack) (name ++ suffix git_receive_pack) ≡ false)
unfolding ends_with starts_with
other_suffix name = (
  rw (reverse-append name (suffix git_upload_pack)) refl,
  rw (reverse-append name (suffix git_receive_pack)) refl,
  rw (reverse-append name (suffix git_receive_pack)) refl,
)

abbrev all : List Endpoint
all = info_refs ∷ git_upload_pack ∷ git_receive_pack ∷ []

named-some :
    (p name : Bytes) (ep found : Endpoint)
    → ends_with (suffix ep) p ≡ true
    → named (trim_suffix (suffix ep) p) ep ≡ some (name, found)
    → (name ≢ []) × (p ≡ name ++ suffix found)
named-some p name ep found h e = ground (arith, append-trim_suffix (suffix ep) p)

find_endpoint_sound :
    (p name : Bytes) (found : Endpoint) (eps : List Endpoint)
    → find_endpoint p eps ≡ some (name, found)
    → (name ≢ []) × (p ≡ name ++ suffix found)
unfolding find_endpoint
find_endpoint_sound p name found [] h = absurd (cc)
find_endpoint_sound p name found (ep ∷ eps) h = elim (Bool-cases (ends_with (suffix ep) p)) [
  | inl e ↦ named-some p name ep found e (rw e at h)
  | inr e ↦ find_endpoint_sound p name found eps (rw e at h)
]

find_endpoint_complete :
    (name : Bytes) (ep : Endpoint)
    → name ≢ []
    → find_endpoint (name ++ suffix ep) all ≡ some (name, ep)
unfolding find_endpoint
find_endpoint_complete [] ep h = absurd (h refl)
find_endpoint_complete (a ∷ n) info_refs h =
    rw (ends_with-append (suffix info_refs) (a ∷ n), trim_suffix-append (suffix info_refs) (a ∷ n))
      refl
find_endpoint_complete (a ∷ n) git_upload_pack h =
    rw
      (
        (other_suffix (a ∷ n)).0,
        ends_with-append (suffix git_upload_pack) (a ∷ n),
        trim_suffix-append (suffix git_upload_pack) (a ∷ n),
      )
      refl
find_endpoint_complete (a ∷ n) git_receive_pack h =
    rw
      (
        (other_suffix (a ∷ n)).1,
        (other_suffix (a ∷ n)).2,
        ends_with-append (suffix git_receive_pack) (a ∷ n),
        trim_suffix-append (suffix git_receive_pack) (a ∷ n),
      )
      refl

-- parseGitPath takes a path apart into a name and an endpoint exactly when the name is not empty and
-- the path, less one leading slash, is the name and the suffix of the endpoint.
pub parse_git_path_iff :
    (path name : Bytes) (ep : Endpoint)
    → (parse_git_path path ≡ some (name, ep))
      ↔ ((name ≢ []) × (trim_prefix (codes "/") path ≡ name ++ suffix ep))
unfolding parse_git_path
parse_git_path_iff path name ep = (
  λ h. find_endpoint_sound (trim_prefix (codes "/") path) name ep all h,
  λ h. ap (λ p. find_endpoint p all) h.1 ∙ find_endpoint_complete name ep h.0,
)
