-- ===== src/K8s/Types.antt =====
-- The structs of pkg/k8s (pod.go, replicaset.go, service.go) and the interface KubeManager
-- (types.go), as pkg/instance calls it.
use knuu.Prelude.{Bool, List, Option}
use knuu.Prelude.Text.{Text}
use knuu.Prelude.Int.{ℤ}
use knuu.Host.{Foreign, Pod, PolicyRule, Call}

-- A Go map of strings. The program only builds it, looks keys up and walks it.
abbrev pub Labels : Type 0
Labels = List (Text × Text)

-- v1.SecurityContext: the fields that the program sets. A nil `Privileged` is false here, as it is
-- set only to true.
pub record SecurityContext : Type 0 where
  pub privileged : Bool
  pub capabilities_add : List Text

pub record File : Type 0 where
  pub source : Text
  pub dest : Text
  pub chown : Text
  pub permission : Text

module _ ⦃f : Foreign⦄ where
  pub record Volume : Type 0 where
    pub path : Text
    pub size : f.Quantity
    pub owner : ℤ

  pub record ContainerConfig : Type 0 where
    pub name : Text
    pub image : Text
    pub image_pull_policy : Text
    pub command : List Text
    pub args : List Text
    pub env : Labels
    pub volumes : List Volume
    pub memory_request : f.Quantity
    pub memory_limit : f.Quantity
    pub cpu_request : f.Quantity
    pub liveness_probe : Option f.Probe
    pub readiness_probe : Option f.Probe
    pub startup_probe : Option f.Probe
    pub files : List File
    pub security_context : Option SecurityContext
    pub tcp_ports : List ℤ
    pub udp_ports : List ℤ

  pub record PodConfig : Type 0 where
    pub namespace : Text
    pub name : Text
    pub labels : Labels
    pub service_account_name : Text
    pub fs_group : ℤ
    pub container_config : ContainerConfig
    pub sidecar_configs : List ContainerConfig
    pub annotations : Labels
    pub node_selector : Labels

  pub record ReplicaSetConfig : Type 0 where
    pub name : Text
    pub namespace : Text
    pub labels : Labels
    pub replicas : ℤ
    pub pod_config : PodConfig

  pub record ServiceOptions : Type 0 where
    pub labels : Labels
    pub selector_map : Labels
    pub tcp_ports : List ℤ
    pub udp_ports : List ℤ
    pub not_headless : Bool

  -- The methods of KubeManager that pkg/instance calls, each a call of the outside. A pointer that
  -- may be nil is an Option.
  pub record KubeManager : Type 0 where
    pub namespace : Text
    pub get_service : Text → Call (Option f.Service)
    pub create_service : Text → ServiceOptions → Call f.Service
    pub patch_service : Text → ServiceOptions → Call f.Service
    pub delete_service : Text → Call (Unit {0})
    pub create_network_policy : Text → Labels → Call (Unit {0})
    pub delete_network_policy : Text → Call (Unit {0})
    pub network_policy_exists : Text → Call Bool
    pub get_first_pod : Text → Call (Option Pod)
    pub run_command_in_pod : Text → Text → List Text → Call Text
    pub port_forward_pod : Text → ℤ → ℤ → Call (Unit {0})
    pub volume_claim_exists : Text → Call Bool
    pub create_volume_claim : Text → Labels → f.Quantity → Call (Unit {0})
    pub delete_volume_claim : Text → Call (Unit {0})
    pub create_or_update_config_map : Text → Labels → Labels → Call (Unit {0})
    pub delete_config_map : Text → Call (Unit {0})
    pub create_service_account : Text → Labels → Call (Unit {0})
    pub delete_service_account : Text → Call (Unit {0})
    pub create_role : Text → Labels → List PolicyRule → Call (Unit {0})
    pub create_role_binding : Text → Labels → Text → Text → Call (Unit {0})
    pub delete_role : Text → Call (Unit {0})
    pub delete_role_binding : Text → Call (Unit {0})
    pub create_replica_set : ReplicaSetConfig → Bool → Call f.ReplicaSet
    pub delete_replica_set : Text → Call (Unit {0})
    pub is_replica_set_running : Text → Call Bool
