-- ===== src/Minio/Buckets.antt =====
-- What Push and Delete of pkg/minio do to an object store that answers.
use knuu.Prelude.{
  ◌≡◌, refl, ap, ◌∙◌, Bool, true, false, ◌&&◌, if◌then◌else◌, inl, inr, Option, none, some, List,
  Bool-cases,
}
use knuu.Prelude.Text.{Text, text_eq, text_eq_iff}
use knuu.Errors.{Result, Fault, ok, err, wrapped, foreign, minio_code}
use knuu.Errors.Minio.{minio_failed_to_find_file_before_deletion}
use knuu.Action.{pure, gets, modify, ◌>>=◌}
use knuu.Action.Stops.{bind_of_ok, bind_of_err, wrapping_of_ok, wrapping_of_err}
use knuu.Host.{Foreign, Call}
use knuu.K8s.Cluster.{Client}
use knuu.Minio.{
  ObjectStore, Session, call, with_mutex, ensure_bucket, create_bucket_if_not_exists, with_client,
  push, delete,
}

module _ {S : Type 0} where
  abbrev pub found : S → Fault → Option Text → S × Result (Unit {0})
  found x missing none = (x, err (foreign missing))
  found x missing (some content) = (x, ok tt)

abbrev pub is_same : Text × Text → Text × Text → Bool
is_same (a, b) (c, d) = text_eq a c && text_eq b d

module _ ⦃f : Foreign⦄ ⦃s : ObjectStore⦄ where
  -- A store that answers: `objects` and `buckets` read it off the outside, the others change it.
  pub record IsAnswering (h : s.Handle) : Type 0 where
    pub buckets : f.Outside → Text → Bool
    pub objects : f.Outside → Text × Text → Option Text
    pub make : Text → f.Outside → f.Outside
    pub put : Text × Text → Text → f.Outside → f.Outside
    pub drop : Text × Text → f.Outside → f.Outside
    pub missing : Fault
    pub buckets_make :
        (b : Text) (x : f.Outside) (n : Text)
        → buckets (make b x) n ≡ (if text_eq b n then true else buckets x n)
    pub objects_make :
        (b : Text) (x : f.Outside) (k : Text × Text) → objects (make b x) k ≡ objects x k
    pub objects_put :
        (j : Text × Text) (content : Text) (x : f.Outside) (k : Text × Text)
        → objects (put j content x) k ≡ (if is_same j k then some content else objects x k)
    pub objects_drop :
        (j : Text × Text) (x : f.Outside) (k : Text × Text)
        → objects (drop j x) k ≡ (if is_same j k then none else objects x k)
    pub exists_lem : (b : Text) (x : f.Outside) → s.bucket_exists h b x ≡ (x, ok (buckets x b))
    pub make_lem :
        (b : Text) (x : f.Outside) → buckets x b ≡ false → s.make_bucket h b x ≡ (make b x, ok tt)
    pub put_lem :
        (b p content : Text) (x : f.Outside)
        → buckets x b ≡ true
        → s.put_object h b p content x ≡ (put (b, p) content x, ok tt)
    pub stat_lem :
        (b p : Text) (x : f.Outside) → s.stat_object h b p x ≡ found x missing (objects x (b, p))
    pub remove_lem : (b p : Text) (x : f.Outside) → s.remove_object h b p x ≡ (drop (b, p) x, ok tt)

  module _ (h : s.Handle) (a : IsAnswering h) (c : Client) (bucket : Text) where
    abbrev pub session : Option (List Text) → f.Outside → Session
    session ms x = record {
      minio = record { client = some h; k8s_client = c; mutexes = ms };
      outside = x;
    }

    abbrev pub with_bucket : f.Outside → f.Outside
    with_bucket x = if a.buckets x bucket then x else a.make bucket x

    call_of_ok :
        {A : Type 0} (g : Call A) (r : A) (ms : Option (List Text)) (x y : f.Outside)
        → g x ≡ (y, ok r)
        → call g (session ms x) ≡ (session ms y, ok r)
    unfolding call
    call_of_ok g r ms x y e = λ i. let (z, q) = e i in (session ms z, q)

    call_of_err :
        {A : Type 0} (g : Call A) (fault : Fault) (ms : Option (List Text)) (x : f.Outside)
        → g x ≡ (x, err (foreign fault))
        → call g (session ms x) ≡ (session ms x, err (foreign fault))
    unfolding call
    call_of_err g fault ms x e = λ i. let (z, q) = e i in (session ms z, q)

    has_bucket : (x : f.Outside) → a.buckets (with_bucket x) bucket ≡ true
    has_bucket x = elim (Bool-cases (a.buckets x bucket)) [
      | inl e ↦ rw e e
      | inr e ↦ rw e (a.buckets_make bucket x bucket ∙ rw ((text_eq_iff bucket bucket).1 refl) refl)
    ]

    made_lem :
        (ms : Option (List Text)) (x : f.Outside)
        → (if a.buckets x bucket then pure tt else call (s.make_bucket h bucket)) (session ms x)
          ≡ (session ms (with_bucket x), ok tt)
    unfolding pure
    made_lem ms x = elim (Bool-cases (a.buckets x bucket)) [
      | inl e ↦ rw e refl
      | inr e ↦ rw e (call_of_ok (s.make_bucket h bucket) tt ms x _ (a.make_lem bucket x e))
    ]

    ensure_lem :
        (ms : Option (List Text)) (x : f.Outside)
        → ensure_bucket bucket h (session ms x) ≡ (session ms (with_bucket x), ok tt)
    unfolding ensure_bucket
    ensure_lem ms x =
        bind_of_ok _ _ (session ms x) (session ms x) (a.buckets x bucket) (
          wrapping_of_ok _ _ (session ms x) (session ms x) (a.buckets x bucket)
            (call_of_ok (s.bucket_exists h bucket) _ ms x x (a.exists_lem bucket x)))
        ∙ made_lem ms x

    create_lem :
        (ms : Option (List Text)) (x : f.Outside)
        → create_bucket_if_not_exists bucket (session ms x)
          ≡ (session (with_mutex bucket ms) (with_bucket x), ok tt)
    unfolding create_bucket_if_not_exists gets pure modify ◌>>=◌
    create_lem ms x = ensure_lem (with_mutex bucket ms) x

    objects_with_bucket :
        (x : f.Outside) (k : Text × Text) → a.objects (with_bucket x) k ≡ a.objects x k
    objects_with_bucket x k = elim (Bool-cases (a.buckets x bucket)) [
      | inl e ↦ rw e refl
      | inr e ↦ rw e (a.objects_make bucket x k)
    ]

    with_client_of_ok :
        {A : Type 0} (g : s.Handle → Call A) (r : A) (ms : Option (List Text)) (x y : f.Outside)
        → g h x ≡ (y, ok r)
        → with_client g (session ms x) ≡ (session ms y, ok r)
    unfolding gets ◌>>=◌
    with_client_of_ok g r ms x y e = call_of_ok (g h) r ms x y e

    with_client_of_err :
        {A : Type 0} (g : s.Handle → Call A) (fault : Fault) (ms : Option (List Text))
        (x : f.Outside)
        → g h x ≡ (x, err (foreign fault))
        → with_client g (session ms x) ≡ (session ms x, err (foreign fault))
    unfolding gets ◌>>=◌
    with_client_of_err g fault ms x e = call_of_err (g h) fault ms x e

    module _ (path : Text) (ms : Option (List Text)) (x : f.Outside) where
      pub push_lem :
          (content : Text)
          → push content path bucket (session ms x)
            ≡ (session (with_mutex bucket ms) (a.put (bucket, path) content (with_bucket x)), ok tt)
      unfolding push
      push_lem content =
          let more = with_mutex bucket ms in
          let y = with_bucket x in
          bind_of_ok _ _ (session ms x) (session more y) tt
            (wrapping_of_ok _ _ (session ms x) (session more y) tt (create_lem ms x))
          ∙ wrapping_of_ok _ _ (session more y) (session more (a.put (bucket, path) content y)) tt (
              with_client_of_ok (λ g. s.put_object g bucket path content) tt more y _
                (a.put_lem bucket path content y (has_bucket x)))

      delete_of_some :
          (content : Text)
          → a.objects x (bucket, path) ≡ some content
          → delete path bucket (session ms x) ≡ (session ms (a.drop (bucket, path) x), ok tt)
      unfolding delete
      delete_of_some content e =
          bind_of_ok _ _ (session ms x) (session ms x) tt (
            wrapping_of_ok _ _ (session ms x) (session ms x) tt (
              with_client_of_ok (λ g. s.stat_object g bucket path) tt ms x x
                (a.stat_lem bucket path x ∙ ap (found x a.missing) e)))
          ∙ wrapping_of_ok _ _ (session ms x) (session ms (a.drop (bucket, path) x)) tt (
              with_client_of_ok (λ g. s.remove_object g bucket path) tt ms x _
                (a.remove_lem bucket path x))

      delete_of_none :
          a.objects x (bucket, path) ≡ none
          → delete path bucket (session ms x) ≡ (
            session ms x,
            err (
                wrapped (minio_code minio_failed_to_find_file_before_deletion) (foreign a.missing)),
          )
      unfolding delete
      delete_of_none e = bind_of_err _ _ (session ms x) (session ms x) _ (
          wrapping_of_err _ _ (session ms x) (session ms x) _ (
            with_client_of_err (λ g. s.stat_object g bucket path) a.missing ms x
              (a.stat_lem bucket path x ∙ ap (found x a.missing) e)))

    same_refl : (path : Text) → is_same (bucket, path) (bucket, path) ≡ true
    same_refl path = rw ((text_eq_iff bucket bucket).1 refl, (text_eq_iff path path).1 refl) refl

    again :
        (b : Bool) (content : Text) (o : Option Text)
        → (if b then none else if b then some content else o) ≡ (if b then none else o)
    again true content o = refl
    again false content o = refl

    objects_pushed :
        (content path : Text) (x : f.Outside) (k : Text × Text)
        → a.objects (a.put (bucket, path) content (with_bucket x)) k
          ≡ (if is_same (bucket, path) k then some content else a.objects x k)
    objects_pushed content path x k =
        a.objects_put (bucket, path) content (with_bucket x) k
        ∙ ap (λ o. if is_same (bucket, path) k then some content else o) (objects_with_bucket x k)

    stored_lem :
        (content path : Text) (x : f.Outside)
        → a.objects (a.put (bucket, path) content (with_bucket x)) (bucket, path) ≡ some content
    stored_lem content path x =
        objects_pushed content path x (bucket, path)
        ∙ ap (λ b. if b then some content else a.objects x (bucket, path)) (same_refl path)

    -- On a store that answers, whether it has the bucket or not: Push succeeds and stores the content
    -- under its path and nothing else; a Delete after it succeeds and takes just that away again; and
    -- another Delete fails for want of the file.
    pub push-delete :
        (content path : Text) (ms : Option (List Text)) (x : f.Outside)
        → let (pushed, r) = push content path bucket (session ms x) in
          let (deleted, q) = delete path bucket pushed in
          ((r ≡ ok tt) × (q ≡ ok tt))
          × (((k : Text × Text)
                → a.objects pushed.outside k
                  ≡ (if is_same (bucket, path) k then some content else a.objects x k))
              × (((k : Text × Text)
                    → a.objects deleted.outside k
                      ≡ (if is_same (bucket, path) k then none else a.objects x k))
                  × ((delete path bucket deleted).1
                      ≡ err (
                          wrapped
                            (minio_code minio_failed_to_find_file_before_deletion)
                            (foreign a.missing)))))
    push-delete content path ms x =
        let more = with_mutex bucket ms in
        let y = a.put (bucket, path) content (with_bucket x) in
        let z = a.drop (bucket, path) y in
        let p = push_lem path ms x content in
        let q = delete_of_some path more y content (stored_lem content path x) in
        let gone : a.objects z (bucket, path) ≡ none =
          a.objects_drop (bucket, path) y (bucket, path)
          ∙ ap (λ b. if b then none else a.objects y (bucket, path)) (same_refl path) in
        let r = delete_of_none path more z gone in
        rw (p, q, r)
          (
            (refl, refl),
            (
              objects_pushed content path x,
              (
                λ k.
                    a.objects_drop (bucket, path) y k
                    ∙ (ap (λ o. if is_same (bucket, path) k then none else o)
                          (objects_pushed content path x k)
                        ∙ again (is_same (bucket, path) k) content (a.objects x k)),
                refl,
              ),
            ),
          )
