-- ===== src/Githttp/Writer/Content.antt =====
-- internal/githttp/receive.go: putObjects, and what is in the store after it.
use gitmote.Common.{Bool, true, false, List, [], ◌∷◌, Bytes, ◌≡◌, refl, ◌∙◌, Bool-cases, inl, inr}
use gitmote.Store.{ObjectStore}
use gitmote.Githttp.Writer.{
  Visit, directory, file, unreadable, is_object_path, object_key, put_next, put_objects,
}

module _ (store : ObjectStore) where
  open store use {Objects, put, exists}

  -- Every object of the quarantine is in the store, under the prefix of the repo name.
  abbrev pub Durable : Bytes → List Visit → Objects → Type 0
  Durable repo_name [] s = Unit
  Durable repo_name (file rel content ∷ vs) s =
      (is_object_path rel ≡ true → exists (object_key repo_name rel) s ≡ true)
      × Durable repo_name vs s
  Durable repo_name (_ ∷ vs) s = Durable repo_name vs s

  module _ (repo_name rel content : Bytes) (vs : List Visit) (s : Objects) where
    put_objects-other :
        is_object_path rel ≡ false
        → put_objects store repo_name (file rel content ∷ vs) s ≡ put_objects store repo_name vs s
    unfolding put_objects
    put_objects-other e = rw (e, put_objects)

    put_objects-directory :
        put_objects store repo_name (directory ∷ vs) s ≡ put_objects store repo_name vs s
    unfolding put_objects
    put_objects-directory = refl

    put_objects-object :
        is_object_path rel ≡ true
        → put_objects store repo_name (file rel content ∷ vs) s
          ≡ put_next store
              (put_objects store repo_name vs)
              (put (object_key repo_name rel) content s)
    unfolding put_objects
    put_objects-object e = rw (e, put_objects)

  put_next-kept :
      (j : Bytes) (rest : Objects → Bool × Objects) (p : Bool × Objects)
      → exists j p.1 ≡ true
      → ((s : Objects) → exists j s ≡ true → exists j (rest s).1 ≡ true)
      → exists j (put_next store rest p).1 ≡ true
  put_next-kept j rest (true, s) h k = k s h
  put_next-kept j rest (false, s) h k = h

  pub put_objects-kept :
      (repo_name j : Bytes) (vs : List Visit) (s : Objects)
      → exists j s ≡ true
      → exists j (put_objects store repo_name vs s).1 ≡ true
  put_objects-kept repo_name j [] s h = unfold put_objects in h
  put_objects-kept repo_name j (directory ∷ vs) s h =
      rw (put_objects-directory repo_name [] [] vs s) (put_objects-kept repo_name j vs s h)
  put_objects-kept repo_name j (unreadable ∷ vs) s h = unfold put_objects in h
  put_objects-kept repo_name j (file rel content ∷ vs) s h =
      elim (Bool-cases (is_object_path rel)) [
        | inr skip ↦
            rw (put_objects-other repo_name rel content vs s skip)
              (put_objects-kept repo_name j vs s h)
        | inl object ↦ rw (put_objects-object repo_name rel content vs s object) (
            put_next-kept j (put_objects store repo_name vs)
              (put (object_key repo_name rel) content s)
              (store.exists-put_kept (object_key repo_name rel) j content s h)
              (λ t k. put_objects-kept repo_name j vs t k))
      ]

  put_next-true :
      (rest : Objects → Bool × Objects) (p : Bool × Objects)
      → (put_next store rest p).0 ≡ true
      → (p.0 ≡ true) × (put_next store rest p ≡ rest p.1)
  put_next-true rest (true, s) h = (refl, refl)
  put_next-true rest (false, s) h = absurd (cc)

  pub put_objects-Durable :
      (repo_name : Bytes) (vs : List Visit) (s : Objects)
      → (put_objects store repo_name vs s).0 ≡ true
      → Durable repo_name vs (put_objects store repo_name vs s).1
  put_objects-Durable repo_name [] s h = tt
  put_objects-Durable repo_name (directory ∷ vs) s h =
      let same = put_objects-directory repo_name [] [] vs s in
      rw same (put_objects-Durable repo_name vs s (rw same at h))
  put_objects-Durable repo_name (unreadable ∷ vs) s h = unfold put_objects in absurd (cc)
  put_objects-Durable repo_name (file rel content ∷ vs) s h =
      elim (Bool-cases (is_object_path rel)) [
        | inr skip ↦
            let same = put_objects-other repo_name rel content vs s skip in
            rw same (λ e. cc, put_objects-Durable repo_name vs s (rw same at h))
        | inl object ↦
            let key = object_key repo_name rel in
            let same = put_objects-object repo_name rel content vs s object in
            let (done, next) =
              put_next-true (put_objects store repo_name vs) (put key content s) (rw same at h) in
            let whole = same ∙ next in
            rw whole (
              (λ _.
                  put_objects-kept repo_name key vs (put key content s).1
                    (store.exists-put_self key content s done)),
              put_objects-Durable repo_name vs (put key content s).1 (rw whole at h),
            )
      ]
