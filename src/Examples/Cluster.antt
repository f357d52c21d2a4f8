-- ===== src/Examples/Cluster.antt =====
-- The theorems on the client of the cluster at concrete inputs.
use knuu.Prelude.{
  ◌≤◌, arith, map, some, Option, false, ◌≡◌, ◌≢◌, refl, true, none, List, [], ◌∷◌, arith,
}
use knuu.Prelude.Text.{Text, codes, join}
use knuu.Prelude.Int.{pos}
use knuu.Errors.{ok, err, raised, wrapped, k8s_code}
use knuu.Errors.Codes.{
  cannot_connect_to_headless_service, updating_configmap, invalid_config_map_name,
}
use knuu.K8s.Types.{ServiceOptions, File, Volume, PodConfig, ContainerConfig}
use knuu.K8s.Objects.{PodObject}
use knuu.K8s.Pods.{and_then, build_init_container_command, prepare_pod_spec}
use knuu.K8s.Pods.Mounts.{IsClosed, prepare_pod_spec-IsClosed}
use knuu.K8s.Pods.InitCommand.{all_steps, build_init_container_command-join}
use knuu.K8s.Sanitize.{sanitize_name}
use knuu.K8s.Sanitize.Laws.{IsDnsLabel}
use knuu.K8s.Cluster.Store.{IsStore, IsServer, got}
use knuu.K8s.Cluster.Refusal.{put_config_map, send, send_refused}
use knuu.K8s.Cluster.Namespaces.{new_client_custom, client_in}
use knuu.K8s.Cluster.Namespaces.Entering.{with_namespace, new_client_custom-enters}
use knuu.K8s.Cluster.ConfigMaps.Model.{
  ConfigOp, create, store, remove, ask, specified, in_turn, run_config,
}
use knuu.K8s.Cluster.ConfigMaps.Refines.{run_configs-specified}
use knuu.K8s.Cluster.Services.{build_ports, create_service, service_port}
use knuu.K8s.Cluster.Services.Waiting.{wait_for_service}
use knuu.K8s.Cluster.Services.Created.{create_service-answers}
use knuu.K8s.Cluster.Services.Ports.{numbers, build_ports-exact}
use knuu.K8s.Cluster.Workloads.{wait_for_pod_deletion}
use knuu.K8s.Cluster.Workloads.Waiting.{wait_for_pod_deletion-ends}
use knuu.Preloader.{Preloader}
use knuu.Preloader.Images.{images_of, remove, run_change, run_change-HasNoDuplicates}
use knuu.Preloader.Removing.{HasNoDuplicates}
use knuu.Examples.Server.{
  Contents, held, machine, validation, map_api, namespace_api, network, pod_shown, list_store,
  list_server, services_server, services_kept, find, server, client, nothing, select_done-falls,
}

send_refused_example : send client (put_config_map [] [] []) nothing ≡ (
  nothing,
  err (wrapped (k8s_code updating_configmap) (raised (k8s_code invalid_config_map_name))),
)
send_refused_example =
    send_refused client invalid_config_map_name nothing (put_config_map [] [] []) refl

abbrev maps_store : IsStore map_api (λ cm. cm.meta.name)
maps_store =
    list_store _ (λ x. x.config_maps) (λ xs x. record x { config_maps = xs }) (λ xs x. refl)

abbrev some_ops : List ConfigOp
some_ops =
    create (codes "a") [] []
    ∷ create (codes "a") [] []
    ∷ store (codes "a") [] ((codes "key", codes "value") ∷ [])
    ∷ ConfigOp.remove (codes "a")
    ∷ ask (codes "a")
    ∷ []

run_configs-specified_example :
    (
      maps_store.view (in_turn (run_config client) some_ops nothing).0,
      (in_turn (run_config client) some_ops nothing).1,
    )
    ≡ in_turn (specified (codes "test")) some_ops (maps_store.view nothing)
run_configs-specified_example =
    run_configs-specified client refl maps_store some_ops nothing
      (refl, (refl, (refl, (tt, (tt, tt)))))

abbrev namespaces_server : IsServer namespace_api (λ ns. ns.name)
namespaces_server =
    list_server _ (λ x. x.namespaces) (λ xs x. record x { namespaces = xs }) (λ xs x. refl)

accepts_labels : (t : Text) → IsDnsLabel t → validation.is_dns1123_label t ≡ []
accepts_labels [] h = absurd (omega (arith, h.some_char))
accepts_labels (c ∷ s) h = refl

new_client_custom-enters_example :
    ((new_client_custom server (codes "My_test") [] nothing).1
      ≡ ok (client_in server (codes "cluster.local") (codes "my-test")))
    × ((n : Text)
        → namespaces_server.view (new_client_custom server (codes "My_test") [] nothing).0 n
          ≡ with_namespace
              (codes "my-test")
              (namespaces_server.view nothing)
              (namespaces_server.view nothing (codes "my-test"))
              n)
unfolding sanitize_name
new_client_custom-enters_example =
    new_client_custom-enters server namespaces_server (λ ns x. refl) (codes "My_test")
      (codes "my-test") [] nothing accepts_labels refl refl

build_ports-exact_example :
    numbers (build_ports (pos 80 ∷ pos 443 ∷ []) (pos 65535 ∷ []))
    ≡ pos 80 ∷ pos 443 ∷ pos 65535 ∷ []
build_ports-exact_example = build_ports-exact (pos 80 ∷ pos 443 ∷ []) (pos 65535 ∷ []) refl refl

got-waits : (x : Contents) (o : Option PodObject) → (got x o).0.waits ≤ x.waits
got-waits x none = omega arith
got-waits x (some pod) = omega arith

wait_for_pod_deletion-ends_example :
    (wait_for_pod_deletion 4 client (codes "pod") nothing).1 ≢ ok none
wait_for_pod_deletion-ends_example =
    wait_for_pod_deletion-ends (λ x. x.waits) client (codes "pod") select_done-falls
      (λ x. got-waits x (find (λ pod. pod.meta.name) (map pod_shown x.pods) (codes "pod"))) 4
      nothing (omega arith)

abbrev volume : Volume
volume = record { path = codes "/data"; size = 1; owner = pos 0 }

abbrev file : File
file = record { source = codes "a"; dest = codes "/etc/a"; chown = codes "0:0"; permission = [] }

abbrev app : ContainerConfig
app = record {
  name = codes "app";
  image = codes "app:1";
  image_pull_policy = [];
  command = [];
  args = [];
  env = [];
  volumes = volume ∷ [];
  memory_request = 1;
  memory_limit = 1;
  cpu_request = 1;
  liveness_probe = none;
  readiness_probe = none;
  startup_probe = none;
  files = file ∷ [];
  security_context = none;
  tcp_ports = pos 80 ∷ [];
  udp_ports = [];
}

abbrev pub pod : PodConfig
pod = record {
  namespace = codes "test";
  name = codes "app";
  labels = [];
  service_account_name = codes "app";
  fs_group = pos 0;
  container_config = app;
  sidecar_configs = record app { name = codes "side" } ∷ [];
  annotations = [];
  node_selector = [];
}

prepare_pod_spec-IsClosed_example : IsClosed (prepare_pod_spec pod true)
prepare_pod_spec-IsClosed_example = prepare_pod_spec-IsClosed pod true

build_init_container_command-join_example :
    build_init_container_command (volume ∷ []) (file ∷ [])
    ≡ codes "sh"
      ∷ codes "-c"
      ∷ join and_then (codes "set -xe" ∷ all_steps (volume ∷ []) (file ∷ []))
      ∷ []
build_init_container_command-join_example =
    build_init_container_command-join (volume ∷ []) (file ∷ [])

abbrev preloader : Preloader
preloader = record {
  name = codes "images";
  images = codes "a" ∷ codes "b" ∷ codes "c" ∷ [];
  scope = codes "scope";
  start_time = codes "now";
}

run_change-HasNoDuplicates_example :
    (images_of client (run_change client (remove (codes "b")) (preloader, nothing)).0
      ≡ codes "a" ∷ codes "c" ∷ [])
    × HasNoDuplicates
        (images_of client (run_change client (remove (codes "b")) (preloader, nothing)).0)
run_change-HasNoDuplicates_example =
    run_change-HasNoDuplicates client (remove (codes "b")) preloader nothing
      ((refl, (refl, tt)), ((refl, tt), (tt, tt)))

-- A headless service of one port.
abbrev web : ServiceOptions
web = record {
  labels = [];
  selector_map = [];
  tcp_ports = pos 80 ∷ [];
  udp_ports = [];
  not_headless = false;
}

create_service-answers_example :
    (service_port client (codes "web") (create_service client (codes "web") web nothing).0
      ≡ ((create_service client (codes "web") web nothing).0, ok (pos 80)))
    × (wait_for_service 7 client (codes "web") (create_service client (codes "web") web nothing).0
        ≡ (
          (create_service client (codes "web") web nothing).0,
          err (raised (k8s_code cannot_connect_to_headless_service)),
        ))
create_service-answers_example =
    create_service-answers client refl services_server services_kept (codes "web") [] [] (pos 80) []
      [] nothing refl refl refl refl refl 7 false
