-- ===== src/Minio/Deploying.antt =====
-- pkg/minio/minio.go: the deployment, the service, the storage and the endpoint of Minio in the cluster.

pub mod Serving
pub mod Waiting
use knuu.Prelude.{
  ℕ, zero, suc, Bool, true, false, if◌then◌else◌, Option, none, some, List, [], ◌∷◌, ◌++◌,
}
use knuu.Prelude.Text.{Text, codes}
use knuu.Prelude.Strings.{show_int}
use knuu.Prelude.Int.{ℤ, pos, ltb_ℤ}
use knuu.Errors.{wrapped, is_missing, minio_code}
use knuu.Errors.Minio.{
  MinioCode, minio_failed_to_start, minio_failed_to_be_ready,
  minio_failed_to_create_or_update_service, minio_failed_to_be_ready_service,
  minio_failed_to_create_pvc, minio_failed_to_create_deployment, minio_failed_to_get_deployment,
  minio_failed_to_update_deployment, minio_failed_to_get_service, minio_failed_to_update_service,
  minio_failed_to_create_service, minio_load_balancer_ip_not_available, minio_failed_to_get_nodes,
  minio_no_nodes_found, minio_timeout_waiting_for_ready, minio_failed_to_list_persistent_volumes,
  minio_failed_to_create_persistent_volume, minio_failed_to_create_persistent_volume_claim,
}
use knuu.Action.{Action, pure, raise, throw, crash, wrapping, when, ◌>>=◌, ◌>>◌}
use knuu.Host.{Foreign, Os, Call}
use knuu.K8s.Types.{Labels}
use knuu.K8s.Objects.{
  Meta, ServiceType, cluster_ip_service, node_port_service, load_balancer_service, other_service,
  ServicePort, ServiceObject, AddressType, Node, claim, Container, Deployment, PersistentVolume,
  VolumeClaim,
}
use knuu.K8s.Cluster.{on_error, Api, Client}
use knuu.K8s.Cluster.Access.{ignore}
use knuu.K8s.Cluster.Services.{services, is_external}
use knuu.K8s.Cluster.Services.Waiting.{Dialer, wait_for_service}

abbrev pub service_name : Text
service_name = codes "minio-service"

abbrev pub deployment_name : Text
deployment_name = codes "minio"

abbrev pub volume_claim_name : Text
volume_claim_name = codes "minio-data"

abbrev pub volume_mount_path : Text
volume_mount_path = codes "/data"

abbrev pub root_user : Text
root_user = codes "minioUser"

abbrev pub root_password : Text
root_password = codes "minioPassword"

abbrev pub app_labels : Labels
app_labels = (codes "app", codes "minio") ∷ []

abbrev pub in_case : {S A : Type 0} → MinioCode → Action S A → Action S A
in_case c m = wrapping (minio_code c) m

abbrev pub named : Text → Text → Meta
named namespace name = record { namespace = namespace; name = name; labels = []; annotations = [] }

abbrev pub tcp_port : Text → ℕ → ServicePort
tcp_port name port = record {
  name = name;
  protocol = codes "TCP";
  port = pos port;
  target_port = pos port;
  node_port = pos 0;
}

abbrev pub minio_service : Text → ServiceObject
minio_service namespace = record {
  meta = named namespace service_name;
  ports = tcp_port (codes "api") 9000 ∷ tcp_port (codes "webui") 9001 ∷ [];
  selector = app_labels;
  service_type = load_balancer_service;
  cluster_ip = [];
  external_ips = [];
  ingress_ips = [];
  resource_version = [];
}

-- The address of the first entry of the type ExternalIP, the empty text if there is none.
abbrev pub first_external_ip : List (AddressType × Text) → Text
first_external_ip [] = []
first_external_ip ((t, address) ∷ addresses) =
    if is_external t then address else first_external_ip addresses

module _ ⦃f : Foreign⦄ where
  abbrev pub storage_size : f.Quantity
  storage_size = f.must_parse (codes "1Gi")

  abbrev pub minio_container : Container
  minio_container = record {
    name = deployment_name;
    image = codes "minio/minio:RELEASE.2024-03-30T09-41-56Z";
    image_pull_policy = [];
    command =
        codes "minio" ∷ codes "server" ∷ volume_mount_path ∷ codes "--console-address=:9001" ∷ [];
    args = [];
    env = (codes "MINIO_ROOT_USER", root_user) ∷ (codes "MINIO_ROOT_PASSWORD", root_password) ∷ [];
    mounts =
        record { name = volume_claim_name; mount_path = volume_mount_path; sub_path = [] } ∷ [];
    resources = none;
    ports =
        record { name = []; protocol = []; container_port = pos 9000 }
        ∷ record { name = []; protocol = []; container_port = pos 9001 }
        ∷ [];
    liveness_probe = none;
    readiness_probe = none;
    startup_probe = none;
    security_context = none;
    run_as_user = none;
  }

  abbrev pub minio_deployment : Text → Deployment
  minio_deployment namespace = record {
    meta = named namespace deployment_name;
    replicas = none;
    service_account_name = [];
    cpu_limit = none;
    selector = app_labels;
    template_labels = app_labels;
    containers = minio_container ∷ [];
    volumes = record { name = volume_claim_name; source = claim volume_claim_name } ∷ [];
    ready_replicas = pos 0;
  }

  abbrev pub fitting : f.Quantity → List PersistentVolume → Option PersistentVolume
  fitting size [] = none
  fitting size (volume ∷ volumes) =
      if f.equal_quantity volume.capacity size then some volume else fitting size volumes

  abbrev pub simple_volume : f.Quantity → PersistentVolume
  simple_volume size = record {
    name = [];
    generate_name = codes "minio-pv-";
    capacity = size;
    access_modes = codes "ReadWriteOnce" ∷ [];
    host_path = codes "/tmp/minio-pv";
  }

  abbrev pub simple_claim : Text → Text → f.Quantity → VolumeClaim
  simple_claim namespace name size = record {
    meta = named namespace name;
    access_modes = codes "ReadWriteOnce" ∷ [];
    storage = size;
  }

  -- The volume that is made is not kept: the name of existingPV, nil then, is read for the log.
  abbrev pub ensure_volume : Client → f.Quantity → Option PersistentVolume → Call (Unit {0})
  ensure_volume c size (some volume) = pure tt
  ensure_volume c size none = do
    in_case minio_failed_to_create_persistent_volume
        (c.clientset.create_volume (simple_volume size))
    crash

  unfoldable pub create_pvc : Client → Text → f.Quantity → Call (Unit {0})
  create_pvc c name size =
      let claims = c.clientset.volume_claims c.namespace in
      on_error (claims.get name)
        (λ e. do
          volumes ← in_case minio_failed_to_list_persistent_volumes c.clientset.list_volumes
          ensure_volume c size (fitting size volumes)
          ignore (
              in_case minio_failed_to_create_persistent_volume_claim
                (claims.create (simple_claim c.namespace name size))))
        (λ pvc. pure tt)

  abbrev pub deployments : Client → Api Deployment
  deployments c = c.clientset.deployments c.namespace

  unfoldable pub create_or_update_deployment : Client → Call (Unit {0})
  unfolding create_pvc
  create_or_update_deployment c =
      on_error ((deployments c).get deployment_name)
        (λ e.
          if is_missing e
          then in_case minio_failed_to_create_pvc (create_pvc c volume_claim_name storage_size)
            >> ignore (
                in_case minio_failed_to_create_deployment
                  ((deployments c).create (minio_deployment c.namespace)))
          else throw (wrapped (minio_code minio_failed_to_get_deployment) e))
        (λ d. ignore (
          in_case minio_failed_to_update_deployment
            ((deployments c).update (minio_deployment c.namespace))))

  -- Every error of the query counts as a missing service.
  unfoldable pub create_or_update_service : Client → Call (Unit {0})
  create_or_update_service c =
      on_error ((services c).get service_name)
        (λ e. ignore (
          in_case minio_failed_to_create_service ((services c).create (minio_service c.namespace))))
        (λ existing. ignore (
          in_case minio_failed_to_update_service (
            (services c).update (record (minio_service c.namespace) {
              resource_version = existing.resource_version;
            }))))

  -- Spec.Ports[0], read without a test that there is one.
  abbrev pub with_port : Text → (ServicePort → ℤ) → List ServicePort → Call Text
  with_port host number [] = crash
  with_port host number (p ∷ ports) = pure (host ++ (codes ":" ++ show_int (number p)))

  abbrev pub node_endpoint : List Node → List ServicePort → Call Text
  node_endpoint [] ports = raise (minio_code minio_no_nodes_found)
  node_endpoint (node ∷ nodes) ports =
      with_port (first_external_ip node.addresses) (λ p. p.node_port) ports

  abbrev pub ingress_endpoint : List Text → List ServicePort → Call Text
  ingress_endpoint [] ports = raise (minio_code minio_load_balancer_ip_not_available)
  ingress_endpoint (ip ∷ ips) ports = with_port ip (λ p. p.port) ports

  abbrev pub endpoint_of : Client → ServiceObject → ServiceType → Call Text
  endpoint_of c svc load_balancer_service = ingress_endpoint svc.ingress_ips svc.ports
  endpoint_of c svc node_port_service = do
    nodes ← in_case minio_failed_to_get_nodes c.clientset.list_nodes
    node_endpoint nodes svc.ports
  endpoint_of c svc cluster_ip_service = with_port svc.cluster_ip (λ p. p.port) svc.ports
  endpoint_of c svc other_service = with_port svc.cluster_ip (λ p. p.port) svc.ports

  unfoldable pub get_endpoint : Client → Call Text
  get_endpoint c = do
    svc ← in_case minio_failed_to_get_service ((services c).get service_name)
    endpoint_of c svc svc.service_type

  module _ ⦃o : Os⦄ where
    abbrev pub is_ready : Deployment → Bool
    is_ready d = ltb_ℤ (pos 0) d.ready_replicas

    -- select { case <-ctx.Done(): … case <-time.After(waitRetry): }
    abbrev pub pause : Call (Option (Unit {0})) → Call (Option (Unit {0}))
    pause rest = do
      done ← o.select_done
      when done (raise (minio_code minio_timeout_waiting_for_ready)) rest

    -- none means that the rounds ran out.
    unfoldable pub wait_for_minio : ℕ → Client → Call (Option (Unit {0}))
    wait_for_minio zero c = pure none
    wait_for_minio (suc rounds) c =
        let rest = wait_for_minio rounds c in
        on_error ((deployments c).get deployment_name) (λ e. pause rest)
          (λ d. when (is_ready d) (pure (some tt)) (pause rest))

    unfoldable pub deploy_minio : ⦃n : Dialer⦄ → ℕ → Client → Call (Option (Unit {0}))
    unfolding create_or_update_deployment wait_for_minio create_or_update_service
    deploy_minio rounds c = do
      in_case minio_failed_to_start (create_or_update_deployment c)
      ready ← in_case minio_failed_to_be_ready (wait_for_minio rounds c)
      elim ready [
        | none ↦ pure none
        | some u ↦ do
          in_case minio_failed_to_create_or_update_service (create_or_update_service c)
          in_case minio_failed_to_be_ready_service (wait_for_service rounds c service_name)
      ]
