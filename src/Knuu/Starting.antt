-- ===== src/Knuu/Starting.antt =====
-- knuu.go of pkg/knuu: New, with the client and the proxy that it sets up, and CleanUp. How the client
-- of pkg/k8s implements KubeManager is a parameter, as is the image builder that is taken if none is
-- given.
use knuu.Prelude.{ℕ, zero, suc, Bool, true, false, if◌then◌else◌, Option, none, some, List, [], ◌∷◌}
use knuu.Prelude.Text.{Text, codes, is_empty}
use knuu.Errors.{Result, knuu_code}
use knuu.Errors.Knuu.{
  KnuuCode, cannot_initialize_k8s, cannot_deploy_traefik, cannot_get_traefik_endpoint,
  traefik_api_not_available,
}
use knuu.Action.{Action, pure, crash, modify, require, ◌>>=◌, ◌>>◌}
use knuu.Host.{Foreign, Os, Parser, Call}
use knuu.K8s.Types.{KubeManager}
use knuu.K8s.Validate.{Validation}
use knuu.K8s.Cluster.{Client}
use knuu.K8s.Cluster.Connecting.{Connector, new_client}
use knuu.K8s.Cluster.Namespaces.{delete_namespace, with_cluster_domain}
use knuu.K8s.Cluster.Services.Waiting.{Dialer}
use knuu.Traefik.{Traefik, proxy_endpoint, is_traefik_api_available}
use knuu.Traefik.Deploying.{deploy}
use knuu.Instance.World.{World, SidecarManager, call}
use knuu.Knuu.{in_case, validate_options, set_scope, handle_timeout}

module _ ⦃f : Foreign⦄ where
  -- The timeout is in nanoseconds. Whether there is an image builder is in Os.
  pub record Options : Type 0 where
    pub k8s_client : Option Client
    pub has_minio : Bool
    pub scope : Text
    pub proxy_enabled : Bool
    pub timeout : ℕ
    pub cluster_domain : Text

  -- The system's other dependencies are in the World.
  pub record Knuu : Type 0 where
    pub k8s_client : Client
    pub proxy : Option Traefik

  abbrev pub namespace_of : Option Client → Option Text
  namespace_of none = none
  namespace_of (some c) = some c.namespace

  abbrev pub settled : {A : Type 0} → Result A → Action World A
  settled r w = (w, r)

  abbrev pub some_or_panic : Option Text → Action World Text
  some_or_panic none = crash
  some_or_panic (some t) = pure t

  abbrev pub timeout_or_default : ℕ → ℕ
  timeout_or_default zero = 3600000000000
  timeout_or_default (suc n) = suc n

  unfoldable pub clean_up : Client → Text → Call (Unit {0})
  clean_up c scope = delete_namespace c scope

  module _ ⦃v : Validation⦄ where
    abbrev pub domain_options : Text → List (Text → Text)
    domain_options domain = if is_empty domain then [] else with_cluster_domain domain ∷ []

    abbrev pub client_or_new : ⦃n : Connector⦄ → Option Client → Text → Text → Action World Client
    unfolding new_client
    client_or_new (some c) scope domain = pure c
    client_or_new none scope domain =
        in_case cannot_initialize_k8s (call (new_client scope (domain_options domain)))

    -- Validation of the options, the scope and the client. The start time is that of time.Now().
    unfoldable pub set_defaults : ⦃n : Connector⦄ → Options → Text → Text → Action World Client
    unfolding set_scope validate_options
    set_defaults opts default_scope start_time = do
      let namespace = namespace_of opts.k8s_client
      settled (validate_options opts.has_minio namespace opts.scope)
      scope ← some_or_panic (set_scope namespace opts.scope default_scope)
      modify (λ w. record w { scope = scope; start_time = start_time; instance_names = [] })
      client_or_new opts.k8s_client scope opts.cluster_domain

    module _ ⦃o : Os⦄ ⦃d : Dialer⦄ ⦃p : Parser⦄ where
      -- none means that the rounds ran out.
      unfoldable pub setup_proxy : ℕ → Client → Action World (Option Traefik)
      unfolding is_traefik_api_available deploy proxy_endpoint
      setup_proxy rounds c = do
        let proxy : Traefik = record { k8s_client = some c; endpoint = [] }
        available ← call (is_traefik_api_available proxy)
        require available (knuu_code traefik_api_not_available)
        deployed ← in_case cannot_deploy_traefik (call (deploy rounds proxy))
        elim deployed [
          | none ↦ pure none
          | some u ↦ do
            in_case cannot_get_traefik_endpoint (call (proxy_endpoint proxy))
            pure (some proxy)
        ]

      abbrev pub with_proxy : ℕ → Bool → Client → Action World (Option Knuu)
      unfolding setup_proxy
      with_proxy rounds false c = pure (some (record { k8s_client = c; proxy = none }))
      with_proxy rounds true c = do
        proxy ← setup_proxy rounds c
        elim proxy [
          | none ↦ pure none
          | some t ↦ pure (some (record { k8s_client = c; proxy = some t }))
        ]

      unfoldable pub new_knuu :
          ⦃n : Connector⦄ ⦃m : SidecarManager⦄
          → (Client → KubeManager)
          → ℕ
          → Options
          → Text
          → Text
          → Action World (Option Knuu)
      unfolding set_defaults handle_timeout
      new_knuu manager rounds opts default_scope start_time = do
        c ← set_defaults opts default_scope start_time
        handled ← in_case KnuuCode.handle_timeout (
            handle_timeout ⦃k = manager c⦄ rounds (timeout_or_default opts.timeout)
              (codes "timeout-handler"))
        elim handled [ none ↦ pure none | some u ↦ with_proxy rounds opts.proxy_enabled c ]
