-- ===== src/Traefik/Deploying.antt =====
-- pkg/traefik/traefik.go: what Deploy puts in the cluster.
use knuu.Prelude.{ℕ, Option, none, some, List, [], ◌∷◌, ◌++◌}
use knuu.Prelude.Text.{Text, codes}
use knuu.Prelude.Int.{pos}
use knuu.Errors.{traefik_code}
use knuu.Errors.Traefik.{
  TraefikCode, failed_to_create_service_account, traefik_role_creation_failed,
  traefik_role_binding_creation_failed, traefik_failed_to_parse_quantity,
  traefik_deployment_creation_failed, traefik_failed_to_create_service,
}
use knuu.Action.{pure, wrapping, ◌>>=◌, ◌>>◌}
use knuu.Host.{Foreign, Os, Parser, PolicyRule, Call}
use knuu.K8s.Types.{Labels}
use knuu.K8s.Objects.{ServicePort, ServiceObject, load_balancer_service, Container, Deployment}
use knuu.K8s.Validate.{Validation}
use knuu.K8s.Cluster.{Client}
use knuu.K8s.Cluster.Access.{
  ignore, create_service_account, create_cluster_role, create_cluster_role_binding,
}
use knuu.K8s.Cluster.Services.{services}
use knuu.K8s.Cluster.Services.Waiting.{Dialer, wait_for_service}
use knuu.K8s.Cluster.Deployments.{wait_for_deployment}
use knuu.Traefik.{Traefik, with_client, sanitized, traefik_service_name}

abbrev pub service_account_name : Text
service_account_name = codes "traefik-service-account"

abbrev pub deployment_name : Text
deployment_name = codes "traefik-deployment"

abbrev pub app_labels : Labels
app_labels = (codes "app", codes "traefik") ∷ []

abbrev pub reading_rule : Text → List Text → PolicyRule
reading_rule group resources = record {
  verbs = codes "get" ∷ codes "list" ∷ codes "watch" ∷ [];
  api_groups = group ∷ [];
  resources = resources;
  resource_names = [];
  non_resource_urls = [];
}

abbrev pub traefik_rules : List PolicyRule
traefik_rules =
    reading_rule [] (codes "pods" ∷ codes "endpoints" ∷ codes "secrets" ∷ codes "services" ∷ [])
    ∷ reading_rule (codes "traefik.io") (
        codes "ingressroutes"
        ∷ codes "middlewares"
        ∷ codes "tlsstores"
        ∷ codes "serverstransporttcps"
        ∷ codes "traefikservices"
        ∷ codes "ingressrouteudps"
        ∷ codes "middlewaretcps"
        ∷ codes "tlsoptions"
        ∷ codes "serverstransports"
        ∷ codes "ingressroutetcps"
        ∷ [])
    ∷ reading_rule (codes "networking.k8s.io") (codes "ingresses" ∷ codes "ingressclasses" ∷ [])
    ∷ []

abbrev pub traefik_port : Text → ℕ → ServicePort
traefik_port name port = record {
  name = name;
  protocol = codes "TCP";
  port = pos port;
  target_port = pos port;
  node_port = pos 0;
}

abbrev pub traefik_service : Text → ServiceObject
traefik_service namespace = record {
  meta = record {
    namespace = namespace;
    name = traefik_service_name;
    labels = app_labels;
    annotations = [];
  };
  ports = traefik_port (codes "web") 80 ∷ traefik_port (codes "websecure") 443 ∷ [];
  selector = app_labels;
  service_type = load_balancer_service;
  cluster_ip = [];
  external_ips = [];
  ingress_ips = [];
  resource_version = [];
}

module _ ⦃f : Foreign⦄ where
  abbrev pub in_case : {A : Type 0} → TraefikCode → Call A → Call A
  in_case c m = wrapping (traefik_code c) m

  abbrev pub traefik_container : f.Quantity → f.Quantity → f.Quantity → Container
  traefik_container cpu memory max_memory = record {
    name = codes "traefik";
    image = codes "traefik:v3.0";
    image_pull_policy = [];
    command = [];
    args =
        codes "--api.insecure=true"
        ∷ codes "--providers.kubernetesIngress"
        ∷ codes "--providers.kubernetesCRD"
        ∷ codes "--entrypoints.web.Address=:80"
        ∷ codes "--entrypoints.websecure.Address=:443"
        ∷ [];
    env = [];
    mounts = [];
    resources =
        some (record { memory_request = memory; cpu_request = cpu; memory_limit = max_memory });
    ports =
        record { name = codes "web"; protocol = []; container_port = pos 80 }
        ∷ record { name = codes "websecure"; protocol = []; container_port = pos 443 }
        ∷ [];
    liveness_probe = none;
    readiness_probe = none;
    startup_probe = none;
    security_context = none;
    run_as_user = none;
  }

  abbrev pub traefik_deployment :
      Text → f.Quantity → f.Quantity → f.Quantity → f.Quantity → Deployment
  traefik_deployment namespace cpu memory max_cpu max_memory = record {
    meta = record {
      namespace = namespace;
      name = deployment_name;
      labels = app_labels;
      annotations = [];
    };
    replicas = some (pos 1);
    service_account_name = service_account_name;
    cpu_limit = some max_cpu;
    selector = app_labels;
    template_labels = app_labels;
    containers = traefik_container cpu memory max_memory ∷ [];
    volumes = [];
    ready_replicas = pos 0;
  }

  unfoldable pub create_traefik_service : Client → Call (Unit {0})
  create_traefik_service c =
      ignore (
        in_case traefik_failed_to_create_service
          ((services c).create (traefik_service c.namespace)))

  module _ ⦃p : Parser⦄ where
    abbrev pub quantity : Text → Call f.Quantity
    quantity t = in_case traefik_failed_to_parse_quantity (p.parse_quantity t)

    unfoldable pub create_traefik_deployment : Client → Call (Unit {0})
    create_traefik_deployment c = do
      cpu ← quantity (codes "500m")
      memory ← quantity (codes "500Mi")
      max_cpu ← quantity (codes "1000m")
      max_memory ← quantity (codes "750Mi")
      ignore (
          in_case traefik_deployment_creation_failed (
            (c.clientset.deployments c.namespace).create
              (traefik_deployment c.namespace cpu memory max_cpu max_memory)))

    module _ ⦃v : Validation⦄ ⦃o : Os⦄ ⦃n : Dialer⦄ where
      unfoldable pub create_access : Client → Call (Unit {0})
      create_access c = do
        in_case failed_to_create_service_account (create_service_account c service_account_name [])
        role ← sanitized (c.namespace ++ codes "-traefik-role")
        in_case traefik_role_creation_failed (create_cluster_role c role [] traefik_rules)
        in_case traefik_role_binding_creation_failed
            (create_cluster_role_binding c role [] role service_account_name)

      -- `rounds` bound each of the two waits; none means that they ran out.
      unfoldable pub deploy : ℕ → Traefik → Call (Option (Unit {0}))
      unfolding create_access create_traefik_deployment create_traefik_service
      deploy rounds t = with_client t.k8s_client λ c. do
        create_access c
        create_traefik_deployment c
        ready ← wait_for_deployment rounds c deployment_name
        elim ready [
          | none ↦ pure none
          | some u ↦ do create_traefik_service c; wait_for_service rounds c traefik_service_name
        ]
