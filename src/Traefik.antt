-- ===== src/Traefik.antt =====
-- pkg/traefik: the reverse proxy in the cluster, and the routes to the instances.
pub mod Deploying
pub mod Available
use knuu.Prelude.{Bool, true, false, if◌then◌else◌, Option, none, some, List, [], ◌∷◌, ◌++◌, map}
use knuu.Prelude.Text.{Text, codes, is_empty, text_eq}
use knuu.Prelude.Int.{ℤ}
use knuu.Errors.{Error, Result, ok, err, panic, raised, wrapped, traefik_code}
use knuu.Errors.Traefik.{
  TraefikCode, traefik_client_not_initialized, traefik_ip_not_found,
  traefik_middleware_creation_failed, traefik_ingress_route_creation_failed,
}
use knuu.Action.{Action, pure, raise, crash, wrapping, ◌>>=◌, ◌>>◌}
use knuu.Host.{Foreign, Call}
use knuu.K8s.Custom.{
  GroupVersionResource, ApiResource, Value, text, number, list, object, Values, Fields, no_field,
  field, one, unstructured,
}
use knuu.K8s.Sanitize.{sanitize_name}
use knuu.K8s.Cluster.{on_error, Client}
use knuu.K8s.Cluster.Services.{get_service_ip, get_service_endpoint}

abbrev pub traefik_service_name : Text
traefik_service_name = codes "traefik"

abbrev pub api_version : Text
api_version = codes "traefik.io/v1alpha1"

abbrev pub traefik_resource : Text → GroupVersionResource
traefik_resource resource = record {
  group = codes "traefik.io";
  version = codes "v1alpha1";
  resource = resource;
}

abbrev pub middleware_spec : Text → Value
middleware_spec prefix = object (
    field (codes "stripPrefix")
      (object (field (codes "prefixes") (one (text (codes "/" ++ prefix))) no_field)) no_field)

abbrev pub route_spec : Text → Text → Text → Text → ℤ → Value
route_spec namespace service_name prefix middleware_name port = object (
    field (codes "entryPoints") (one (text (codes "web"))) (
      field (codes "routes")
        (one (
          object (
            field (codes "match") (text (codes "PathPrefix(`/" ++ (prefix ++ codes "`)"))) (
              field (codes "kind") (text (codes "Rule")) (
                field (codes "services")
                  (one (
                    object (
                      field (codes "name") (text service_name) (
                        field (codes "namespace") (text namespace)
                          (field (codes "port") (number port) no_field)))))
                  (field (codes "middlewares")
                    (one (
                      object (
                        field (codes "name") (text middleware_name)
                          (field (codes "namespace") (text namespace) no_field))))
                    no_field))))))
        no_field))

-- The loop over requiredResources for one resource: it drops the first of its name and stops.
abbrev pub drop_resource : Text → List Text → List Text
drop_resource name [] = []
drop_resource name (required ∷ more) =
    let rest = drop_resource name more in if text_eq name required then more else required ∷ rest

abbrev pub still_required : List Text → List Text → List Text
still_required required [] = required
still_required required (name ∷ names) = still_required (drop_resource name required) names

abbrev pub required_resources : List Text
required_resources = codes "middlewares" ∷ codes "ingressroutes" ∷ []

abbrev pub is_none_left : List Text → Bool
is_none_left [] = true
is_none_left (t ∷ ts) = false

-- A pointer to a client that may be nil, and the endpoint that URL keeps.
module _ ⦃f : Foreign⦄ where
  pub record Traefik : Type 0 where
    pub k8s_client : Option Client
    pub endpoint : Text

  -- if t.K8sClient == nil { return ErrTraefikClientNotInitialized }
  abbrev pub with_client : {A : Type 0} → Option Client → (Client → Call A) → Call A
  with_client none g = raise (traefik_code traefik_client_not_initialized)
  with_client (some c) g = g c

  abbrev pub client_of : {A : Type 0} → Option Client → (Client → Call A) → Call A
  client_of none g = crash
  client_of (some c) g = g c

  unfoldable pub ip : Traefik → Call Text
  ip t = with_client t.k8s_client λ c. get_service_ip c traefik_service_name

  unfoldable pub proxy_endpoint : Traefik → Call Text
  proxy_endpoint t = with_client t.k8s_client λ c. get_service_endpoint c traefik_service_name

  abbrev pub url_of : Text → Text → Text
  url_of endpoint prefix = codes "http://" ++ (endpoint ++ (codes "/" ++ prefix))

  -- The proxy with the endpoint that it keeps, beside the URL. A query that fails leaves the endpoint
  -- empty.
  abbrev pub found_url : Traefik → Text → Call (Traefik × Text)
  unfolding proxy_endpoint
  found_url t prefix = do
    endpoint ← wrapping (traefik_code traefik_ip_not_found) (proxy_endpoint t)
    pure (record t { endpoint = endpoint }, url_of endpoint prefix)

  unfoldable pub url : Traefik → Text → Call (Traefik × Text)
  url t prefix =
      if is_empty t.endpoint then found_url t prefix else pure (t, url_of t.endpoint prefix)

  unfoldable pub create_middleware : Client → Text → Text → Call (Unit {0})
  create_middleware c prefix middleware_name =
      wrapping (traefik_code traefik_middleware_creation_failed) (
        c.clientset.create_object (traefik_resource (codes "middlewares")) c.namespace (
          unstructured api_version (codes "Middleware") middleware_name c.namespace
            (middleware_spec prefix)))

  -- SanitizeName panics on some names.
  abbrev pub sanitized : Text → Call Text
  sanitized name = elim (sanitize_name name) [ none ↦ crash | some s ↦ pure s ]

  unfoldable pub create_ingress_route : Client → Text → Text → Text → ℤ → Call (Unit {0})
  create_ingress_route c service_name prefix middleware_name port = do
    name ← sanitized (prefix ++ codes "-ing-route")
    wrapping (traefik_code traefik_ingress_route_creation_failed) (
        c.clientset.create_object (traefik_resource (codes "ingressroutes")) c.namespace (
          unstructured api_version (codes "IngressRoute") name c.namespace
            (route_spec c.namespace service_name prefix middleware_name port)))

  unfoldable pub add_host : Traefik → Text → Text → ℤ → Call (Unit {0})
  unfolding create_middleware create_ingress_route
  add_host t service_name prefix port = do
    middleware_name ← sanitized (prefix ++ codes "-strip")
    client_of t.k8s_client λ c. do
      create_middleware c prefix middleware_name
      create_ingress_route c service_name prefix middleware_name port

  -- An error of the query is logged.
  unfoldable pub is_traefik_api_available : Traefik → Call Bool
  is_traefik_api_available t = client_of t.k8s_client λ c.
      on_error (c.clientset.server_resources api_version) (λ e. pure false)
        (λ rs. pure (is_none_left (still_required required_resources (map (λ r. r.name) rs))))
