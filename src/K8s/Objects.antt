-- ===== src/K8s/Objects.antt =====
-- The objects of the Kubernetes API that pkg/k8s builds: the fields that it sets or reads. Their types
-- are those of k8s.io/api.
use knuu.Prelude.{ℕ, Bool, Option, List}
use knuu.Prelude.Text.{Text}
use knuu.Prelude.Int.{ℤ}
use knuu.Host.{Foreign, PolicyRule}
use knuu.K8s.Types.{Labels, SecurityContext}

pub record Meta : Type 0 where
  pub namespace : Text
  pub name : Text
  pub labels : Labels
  pub annotations : Labels

pub record ConfigMap : Type 0 where
  pub meta : Meta
  pub contents : Labels

-- A rule of a policy selects its peers by labels.
pub record NetworkPolicy : Type 0 where
  pub meta : Meta
  pub pod_selector : Labels
  pub policy_types : List Text
  pub ingress : List Labels
  pub egress : List Labels

pub record Role : Type 0 where
  pub meta : Meta
  pub rules : List PolicyRule

pub record Subject : Type 0 where
  pub kind : Text
  pub name : Text
  pub namespace : Text

pub record RoleBinding : Type 0 where
  pub meta : Meta
  pub role_kind : Text
  pub role_name : Text
  pub subjects : List Subject

pub record ServiceAccount : Type 0 where
  pub meta : Meta

pub record Namespace : Type 0 where
  pub name : Text

pub record ClusterRole : Type 0 where
  pub name : Text
  pub labels : Labels
  pub rules : List PolicyRule

pub record ClusterRoleBinding : Type 0 where
  pub name : Text
  pub labels : Labels
  pub role_kind : Text
  pub role_name : Text
  pub role_api_group : Text
  pub subjects : List Subject

pub data ServiceType : Type 0 where
  cluster_ip_service node_port_service load_balancer_service other_service : ServiceType

pub record ServicePort : Type 0 where
  pub name : Text
  pub protocol : Text
  pub port : ℤ
  pub target_port : ℤ
  pub node_port : ℤ

-- `ingress_ips` are the addresses of status.loadBalancer.ingress; `resource_version` is of the metadata.
pub record ServiceObject : Type 0 where
  pub meta : Meta
  pub ports : List ServicePort
  pub selector : Labels
  pub service_type : ServiceType
  pub cluster_ip : Text
  pub external_ips : List Text
  pub ingress_ips : List Text
  pub resource_version : Text

pub data AddressType : Type 0 where
  external_ip internal_ip other_address : AddressType

pub record Node : Type 0 where
  pub addresses : List (AddressType × Text)

pub record Mount : Type 0 where
  pub name : Text
  pub mount_path : Text
  pub sub_path : Text

-- A claim by its name, an empty directory, or a config map by its name and mode.
pub data VolumeSource : Type 0 where
  claim : Text → VolumeSource
  empty_dir : VolumeSource
  from_config_map : Text → ℕ → VolumeSource

pub record PodVolume : Type 0 where
  pub name : Text
  pub source : VolumeSource

pub record ContainerPort : Type 0 where
  pub name : Text
  pub protocol : Text
  pub container_port : ℤ

module _ ⦃f : Foreign⦄ where
  pub record VolumeClaim : Type 0 where
    pub meta : Meta
    pub access_modes : List Text
    pub storage : f.Quantity

  -- `resources` is none where the container has no requests and limits.
  pub record ResourceRequirements : Type 0 where
    pub memory_request : f.Quantity
    pub cpu_request : f.Quantity
    pub memory_limit : f.Quantity

  pub record Container : Type 0 where
    pub name : Text
    pub image : Text
    pub image_pull_policy : Text
    pub command : List Text
    pub args : List Text
    pub env : List (Text × Text)
    pub mounts : List Mount
    pub resources : Option ResourceRequirements
    pub ports : List ContainerPort
    pub liveness_probe : Option f.Probe
    pub readiness_probe : Option f.Probe
    pub startup_probe : Option f.Probe
    pub security_context : Option SecurityContext
    pub run_as_user : Option ℕ

  pub record PodSpec : Type 0 where
    pub service_account_name : Text
    pub init_containers : List Container
    pub containers : List Container
    pub volumes : List PodVolume
    pub node_selector : Labels

  -- `created` is metadata.creationTimestamp in nanoseconds, none for its zero value; `phase` is
  -- status.phase and `ready` the flags of status.containerStatuses.
  pub record PodObject : Type 0 where
    pub meta : Meta
    pub created : Option ℤ
    pub spec : PodSpec
    pub phase : Text
    pub ready : List Bool

  -- `ready_replicas` is of the status.
  pub record ReplicaSetObject : Type 0 where
    pub meta : Meta
    pub replicas : ℤ
    pub selector : Labels
    pub template_meta : Meta
    pub template : PodSpec
    pub ready_replicas : ℤ

  pub record DaemonSet : Type 0 where
    pub meta : Meta
    pub selector : Labels
    pub template_labels : Labels
    pub init_containers : List Container
    pub containers : List Container

  -- `replicas` is none for the nil pointer, `cpu_limit` the limit of the first container, if it has
  -- one; `ready_replicas` is of the status.
  pub record Deployment : Type 0 where
    pub meta : Meta
    pub replicas : Option ℤ
    pub service_account_name : Text
    pub cpu_limit : Option f.Quantity
    pub selector : Labels
    pub template_labels : Labels
    pub containers : List Container
    pub volumes : List PodVolume
    pub ready_replicas : ℤ

  -- `capacity` is that of the storage, zero where the volume has none.
  pub record PersistentVolume : Type 0 where
    pub name : Text
    pub generate_name : Text
    pub capacity : f.Quantity
    pub access_modes : List Text
    pub host_path : Text

  -- `ephemeral_storage` is the request of the first container; `succeeded` and `failed` are of the
  -- status.
  pub record Job : Type 0 where
    pub name : Text
    pub parallelism : ℤ
    pub backoff_limit : ℤ
    pub init_containers : List Container
    pub containers : List Container
    pub ephemeral_storage : f.Quantity
    pub restart_policy : Text
    pub volumes : List PodVolume
    pub succeeded : ℤ
    pub failed : ℤ

  -- What a select on the channel of a watch and on the end of the context takes: the channel was
  -- closed, an event with an object of another type, an event with a job, or the end.
  pub data JobEvent : Type 0 where
    channel_closed other_object context_done : JobEvent
    job_event : Job → JobEvent
