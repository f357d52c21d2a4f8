-- ===== src/K8s/Cluster/Services.antt =====
-- service.go of pkg/k8s, but for the wait.
pub mod Waiting
pub mod Ports
pub mod Kept
pub mod Created
use knuu.Prelude.{
  zero, suc, Bool, true, false, ◌||◌, ◌&&◌, not, if◌then◌else◌, Option, none, some, List, [], ◌∷◌,
  ◌++◌, map, any,
}
use knuu.Prelude.Text.{Text, codes, is_empty, text_eq}
use knuu.Prelude.Strings.{show_int}
use knuu.Prelude.Int.{ℤ, pos, negsuc}
use knuu.Errors.{Error, Code, Result, ok, err, panic, raised, wrapped, is_missing, k8s_code}
use knuu.Errors.Codes.{
  K8sCode, preparing_service, creating_service, K8sCode.patching_service, deleting_service,
  load_balancer_ip_not_available, headless_service, getting_nodes, no_nodes_found,
  no_valid_node_ip_found, no_ports_found_for_load_balancer_service, no_node_port_found_for_service,
  no_ports_found_for_service, getting_pods_for_service, failed_to_connect, namespace_required,
  service_name_required, no_ports_specified,
}
use knuu.Action.{pure, raise, throw, crash, wrapping, ◌>>=◌, ◌>>◌}
use knuu.Host.{Foreign, Call}
use knuu.K8s.Types.{Labels, ServiceOptions}
use knuu.K8s.Objects.{
  ServiceType, cluster_ip_service, node_port_service, load_balancer_service, other_service,
  ServicePort, ServiceObject, AddressType, external_ip, internal_ip, other_address, Node, PodObject,
}
use knuu.K8s.Pods.{int32}
use knuu.K8s.Validate.{Validation, validate_service_name, validate_service_options, is_nil}
use knuu.K8s.Cluster.{on_error, check, Api, Client, alive}

abbrev pub cluster_ip_none : Text
cluster_ip_none = codes "None"

abbrev pub service_port_of : Text → Text → ℤ → ServicePort
service_port_of prefix protocol port = record {
  name = prefix ++ show_int port;
  protocol = protocol;
  port = int32 port;
  target_port = int32 port;
  node_port = pos 0;
}

unfoldable pub build_ports : List ℤ → List ℤ → List ServicePort
build_ports tcp_ports udp_ports =
    map (service_port_of (codes "tcp-") (codes "TCP")) tcp_ports
    ++ map (service_port_of (codes "udp-") (codes "UDP")) udp_ports

abbrev pub is_headless_service : ServiceObject → Bool
is_headless_service srv = text_eq srv.cluster_ip cluster_ip_none

-- The address of the first entry of a type that serves.
abbrev pub is_node_address : AddressType → Bool
is_node_address external_ip = true
is_node_address internal_ip = true
is_node_address other_address = false

abbrev pub is_external : AddressType → Bool
is_external external_ip = true
is_external internal_ip = false
is_external other_address = false

abbrev pub node_ip : List (AddressType × Text) → Text
node_ip [] = []
node_ip ((t, address) ∷ addresses) = if is_node_address t then address else node_ip addresses

abbrev pub has_external_ip : Node → Bool
has_external_ip node = any (λ (t, address). is_external t && not (is_empty address)) node.addresses

module _ ⦃f : Foreign⦄ where
  abbrev pub service_of : Text → Text → ServiceOptions → List ServicePort → ServiceObject
  service_of namespace name opts ports = record {
    meta = record { namespace = namespace; name = name; labels = opts.labels; annotations = [] };
    ports = ports;
    selector = opts.selector_map;
    service_type = cluster_ip_service;
    cluster_ip = if opts.not_headless then [] else cluster_ip_none;
    external_ips = [];
    ingress_ips = [];
    resource_version = [];
  }

  unfoldable pub prepare_service : Text → Text → ServiceOptions → Result ServiceObject
  unfolding build_ports
  prepare_service namespace name opts =
      if is_empty namespace
      then err (raised (k8s_code namespace_required))
      else if is_empty name
      then err (raised (k8s_code service_name_required))
      else if is_nil (build_ports opts.tcp_ports opts.udp_ports)
      then err (raised (k8s_code no_ports_specified))
      else ok (service_of namespace name opts (build_ports opts.tcp_ports opts.udp_ports))

  -- The result of a function that calls nothing outside.
  abbrev pub from_result : {A : Type 0} → Result A → Call A
  from_result r x = (x, r)

  abbrev pub services : Client → Api ServiceObject
  services c = c.clientset.services c.namespace

  unfoldable pub get_service : Client → Text → Call ServiceObject
  get_service c name = do alive c; (services c).get name

  unfoldable pub delete_service : Client → Text → Call (Unit {0})
  unfolding get_service
  delete_service c name =
      on_error (get_service c name)
        (λ e.
          if is_missing e then pure tt else throw (wrapped (k8s_code K8sCode.getting_service) e))
        (λ srv. wrapping (k8s_code deleting_service) ((services c).delete name none))

  abbrev pub ingress_ip : List Text → Call Text
  ingress_ip [] = raise (k8s_code load_balancer_ip_not_available)
  ingress_ip (ip ∷ ips) = pure ip

  abbrev pub first_node_ip : List Node → Call Text
  first_node_ip [] = raise (k8s_code no_nodes_found)
  first_node_ip (node ∷ nodes) =
      if is_empty (node_ip node.addresses)
      then raise (k8s_code no_valid_node_ip_found)
      else pure (node_ip node.addresses)

  abbrev pub ip_of_service : Client → ServiceObject → ServiceType → Call Text
  ip_of_service c srv load_balancer_service = ingress_ip srv.ingress_ips
  ip_of_service c srv node_port_service = do
    nodes ← wrapping (k8s_code getting_nodes) c.clientset.list_nodes
    first_node_ip nodes
  ip_of_service c srv cluster_ip_service =
      if is_headless_service srv then raise (k8s_code headless_service) else pure srv.cluster_ip
  ip_of_service c srv other_service =
      if is_headless_service srv then raise (k8s_code headless_service) else pure srv.cluster_ip

  unfoldable pub get_service_ip : Client → Text → Call Text
  unfolding get_service
  get_service_ip c name = do
    srv ← wrapping (k8s_code K8sCode.getting_service) (get_service c name)
    ip_of_service c srv srv.service_type

  abbrev pub first_port : Code → List ServicePort → Call ℤ
  first_port missing [] = raise missing
  first_port missing (p ∷ ports) = pure p.port

  abbrev pub is_zero_port : ℤ → Bool
  is_zero_port (pos zero) = true
  is_zero_port (pos (suc n)) = false
  is_zero_port (negsuc n) = false

  abbrev pub first_node_port : List ServicePort → Call ℤ
  first_node_port [] = raise (k8s_code no_node_port_found_for_service)
  first_node_port (p ∷ ports) =
      if is_zero_port p.node_port
      then raise (k8s_code no_node_port_found_for_service)
      else pure p.node_port

  abbrev pub port_of_service : ServiceObject → ServiceType → Call ℤ
  port_of_service svc load_balancer_service =
      first_port (k8s_code no_ports_found_for_load_balancer_service) svc.ports
  port_of_service svc node_port_service = first_node_port svc.ports
  port_of_service svc cluster_ip_service =
      first_port (k8s_code no_ports_found_for_service) svc.ports
  port_of_service svc other_service = first_port (k8s_code no_ports_found_for_service) svc.ports

  unfoldable pub service_port : Client → Text → Call ℤ
  unfolding get_service
  service_port c name = do
    svc ← wrapping (k8s_code K8sCode.getting_service) (get_service c name)
    port_of_service svc svc.service_type

  unfoldable pub get_service_endpoint : Client → Text → Call Text
  unfolding get_service_ip service_port
  get_service_endpoint c name = do
    ip ← wrapping (k8s_code K8sCode.getting_service_ip) (get_service_ip c name)
    port ← wrapping (k8s_code K8sCode.getting_service) (service_port c name)
    pure (ip ++ (codes ":" ++ show_int port))

  abbrev pub service_dns : Client → Text → Text
  service_dns c name = name ++ (codes "." ++ (c.namespace ++ (codes ".svc." ++ c.cluster_domain)))

  module _ ⦃v : Validation⦄ where
    unfoldable pub create_service : Client → Text → ServiceOptions → Call ServiceObject
    unfolding prepare_service
    create_service c name opts = do
      alive c
      check (validate_service_name name)
      check (validate_service_options opts)
      svc ←
          wrapping (k8s_code preparing_service)
            (from_result (prepare_service c.namespace name opts))
      wrapping (k8s_code creating_service) ((services c).create svc)

    unfoldable pub patch_service : Client → Text → ServiceOptions → Call ServiceObject
    unfolding prepare_service
    patch_service c name opts = do
      alive c
      check (validate_service_name name)
      check (validate_service_options opts)
      svc ←
          wrapping (k8s_code preparing_service)
            (from_result (prepare_service c.namespace name opts))
      wrapping (k8s_code K8sCode.patching_service) ((services c).update svc)
