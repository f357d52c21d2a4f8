-- ===== src/Minio/Deploying/Serving.antt =====
-- The service of Minio on a server without faults that may assign fields of it.
use knuu.Prelude.{[], ◌≡◌, refl, ap, ◌∙◌, if◌then◌else◌, inl, inr, none, some, Option-cases}
use knuu.Prelude.Text.{Text, text_eq}
use knuu.Errors.{ok, foreign, not_found}
use knuu.Action.{pure}
use knuu.Action.Stops.{bind_of_ok, wrapping_of_ok}
use knuu.Host.{Foreign}
use knuu.K8s.Objects.{ServiceObject}
use knuu.K8s.Cluster.{Client}
use knuu.K8s.Cluster.Services.{services}
use knuu.K8s.Cluster.Services.Kept.{Keeps, Keeps-version}
use knuu.K8s.Cluster.Outcomes.{on_error_of_err, on_error_of_ok}
use knuu.K8s.Cluster.Store.{IsServer, got, created}
use knuu.Minio.Deploying.{service_name, minio_service, create_or_update_service}

module _ ⦃f : Foreign⦄ (c : Client) (st : IsServer (services c) (λ srv. srv.meta.name))
    (keeps : (a : ServiceObject) (x : f.Outside) → Keeps a (st.admitted a x))
    (updates : (a old : ServiceObject) (x : f.Outside)
      → st.view x a.meta.name ≡ some old
      → a.resource_version ≡ old.resource_version
      → (services c).update a x ≡ (st.put a x, ok (st.admitted a x)))
    (x : f.Outside) where
  -- The service of Minio, in a version.
  abbrev versioned : Text → ServiceObject
  versioned version = record (minio_service c.namespace) { resource_version = version }

  -- It was put there in some version.
  abbrev Stores : Type 0
  Stores = (version : Text) × (create_or_update_service c x ≡ (st.put (versioned version) x, ok tt))

  create_lem : st.view x service_name ≡ none → Stores
  unfolding create_or_update_service pure
  create_lem e =
      let srv = versioned [] in
      (
        [],
        on_error_of_err _ _ _ x x (foreign not_found) (st.get_lem service_name x ∙ ap (got x) e)
            ∙ bind_of_ok _ _ x (st.put srv x) (st.admitted srv x) (
                wrapping_of_ok _ _ x (st.put srv x) (st.admitted srv x)
                  (st.create_lem srv x ∙ ap (created x (st.put srv x) (st.admitted srv x)) e)),
      )

  update_lem : (old : ServiceObject) → st.view x service_name ≡ some old → Stores
  unfolding create_or_update_service pure
  update_lem old e =
      let srv = versioned old.resource_version in
      (
        old.resource_version,
        on_error_of_ok _ _ _ x x old (st.get_lem service_name x ∙ ap (got x) e)
            ∙ bind_of_ok _ _ x (st.put srv x) (st.admitted srv x) (
                wrapping_of_ok _ _ x (st.put srv x) (st.admitted srv x) (updates srv old x e refl)),
      )

  stores_lem : Stores
  stores_lem = elim (Option-cases (st.view x service_name)) [
    | inl e ↦ create_lem e
    | inr (old, e) ↦ update_lem old e
  ]

  -- On a server without faults, which may assign fields of a service, and which takes an update in the
  -- version of the service that it has, createOrUpdateService succeeds, whether there is a service of
  -- Minio or not. Then that name has a service with what is asked for of the one of Minio, and every
  -- other name has what it had.
  pub create_or_update_service-stores :
      ((create_or_update_service c x).1 ≡ ok tt)
      × ((stored : ServiceObject) × (Keeps (minio_service c.namespace) stored
            × ((n : Text)
                → st.view (create_or_update_service c x).0 n
                  ≡ (if text_eq service_name n then some stored else st.view x n))))
  create_or_update_service-stores =
      let (version, h) = stores_lem in
      let srv = versioned version in
      (
        ap (λ p. p.1) h,
        (
          st.admitted srv x,
          (
            Keeps-version (minio_service c.namespace) _ version (keeps srv x),
            λ n. ap (λ p. st.view p.0 n) h ∙ st.view_put srv x n,
          ),
        ),
      )
