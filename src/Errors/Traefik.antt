-- ===== src/Errors/Traefik.antt =====
-- The error variables of pkg/traefik/errors.go, without the leading `Err`.

pub data TraefikCode : Type 0 where
  traefik_deployment_creation_failed traefik_service_creation_failed : TraefikCode
  traefik_client_not_initialized traefik_ip_not_found : TraefikCode
  traefik_failed_to_get_service traefik_load_balancer_ip_not_available : TraefikCode
  traefik_failed_to_get_nodes traefik_no_nodes_found : TraefikCode
  traefik_timeout_waiting_for_ready traefik_failed_to_create_service : TraefikCode
  traefik_role_creation_failed traefik_role_binding_creation_failed : TraefikCode
  failed_to_create_service_account traefik_middleware_creation_failed : TraefikCode
  traefik_ingress_route_creation_failed generating_random_k8s_name : TraefikCode
  traefik_failed_to_parse_quantity : TraefikCode
