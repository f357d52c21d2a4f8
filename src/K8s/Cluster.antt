-- ===== src/K8s/Cluster.antt =====
-- k8s.go of pkg/k8s: the client of a cluster. The calls of the API server are parameters.
pub mod Namespaces
pub mod ConfigMaps
pub mod Access
pub mod Volumes
pub mod Services
pub mod Workloads
pub mod Daemons
pub mod Status
pub mod Outcomes
pub mod Refusal
pub mod Store
pub mod Custom
pub mod Connecting
pub mod Deployments
use knuu.Prelude.{Bool, true, false, if◌then◌else◌, Option, none, some, List}
use knuu.Prelude.Text.{Text, codes}
use knuu.Prelude.Int.{ℤ}
use knuu.Errors.{
  Error, Fault, Code, Result, ok, err, panic, raised, wrapped, foreign, already_exists, k8s_code,
}
use knuu.Errors.Codes.{
  K8sCode, client_terminated, invalid_cluster_domain, configmap_does_not_exist, creating_namespace,
}
use knuu.Action.{Action, pure, raise, throw, wrapping, ◌>>=◌, ◌>>◌}
use knuu.Host.{Foreign, Call}
use knuu.K8s.Types.{Labels}
use knuu.K8s.Objects.{
  Deployment, PersistentVolume, Job, JobEvent, ConfigMap, NetworkPolicy, Role, ClusterRole,
  RoleBinding, ClusterRoleBinding, ServiceAccount, Namespace, ServiceObject, Node, VolumeClaim,
  PodObject, ReplicaSetObject, DaemonSet,
}
use knuu.K8s.Custom.{GroupVersionResource, ApiResource, Value}
use knuu.K8s.Sanitize.{sanitize_name}
use knuu.K8s.Validate.{
  Validation, Verdict, ◌⨾◌, fails_if, validate_dns1123_subdomain, validate_namespace,
}

-- The errors that CreateOrUpdateConfigMap and CreateNamespace look for: errors.Is compares the code of
-- the outermost error, as Error has no Unwrap.
abbrev pub is_config_map_missing : Error → Bool
is_config_map_missing (raised (k8s_code configmap_does_not_exist)) = true
is_config_map_missing (wrapped (k8s_code configmap_does_not_exist) e) = true
is_config_map_missing _ = false

abbrev pub is_existing : Error → Bool
is_existing (foreign already_exists) = true
is_existing _ = false

module _ {S A B : Type 0} where
  abbrev pub settled : Result A → (A → Action S B) → (Error → Action S B) → Action S B
  settled (ok a) g h s = g a s
  settled (err e) g h s = h e s
  settled panic g h s = (s, panic)

  -- x, err := m; if err != nil { h(err) } else { g(x) }
  unfoldable pub on_error : Action S A → (Error → Action S B) → (A → Action S B) → Action S B
  on_error m h g s = let (s', r) = m s in settled r g h s'

module _ {S : Type 0} where
  -- if err := v; err != nil { return err }
  abbrev pub check : Verdict → Action S (Unit {0})
  check none = pure tt
  check (some c) = raise (k8s_code c)

module _ ⦃f : Foreign⦄ where
  -- The objects of a kind, in a namespace if the kind has them. Deletion takes the grace period.
  pub record Api (Obj : Type 0) : Type 0 where
    pub get : Text → Call Obj
    pub create : Obj → Call Obj
    pub update : Obj → Call Obj
    pub delete : Text → Option ℤ → Call (Unit {0})

  -- kubernetes.Interface. Nodes and pods are listed, pods by a label selector.
  pub record Clientset : Type 0 where
    pub config_maps : Text → Api ConfigMap
    pub services : Text → Api ServiceObject
    pub network_policies : Text → Api NetworkPolicy
    pub roles : Text → Api Role
    pub cluster_roles : Api ClusterRole
    pub role_bindings : Text → Api RoleBinding
    pub cluster_role_bindings : Api ClusterRoleBinding
    pub service_accounts : Text → Api ServiceAccount
    pub namespaces : Api Namespace
    pub volume_claims : Text → Api VolumeClaim
    pub pods : Text → Api PodObject
    pub replica_sets : Text → Api ReplicaSetObject
    pub daemon_sets : Text → Api DaemonSet
    pub list_nodes : Call (List Node)
    pub list_pods : Text → Text → Call (List PodObject)
    pub deployments : Text → Api Deployment
    pub list_volumes : Call (List PersistentVolume)
    pub create_volume : PersistentVolume → Call PersistentVolume
    -- Jobs of a namespace: Create, a watch by a field selector and what comes from it; and the logs of
    -- a container of a pod.
    pub create_job : Text → Job → Call Job
    pub watch_jobs : Text → Text → Call (Unit {0})
    pub next_job_event : Call JobEvent
    pub pod_logs : Text → Text → Text → Call Text
    -- The dynamic client: Create of an object of a resource in a namespace; the discovery client:
    -- ServerResourcesForGroupVersion.
    pub create_object : GroupVersionResource → Text → Value → Call (Unit {0})
    pub server_resources : Text → Call (List ApiResource)
    -- the stream of the logs of a container of a pod, as its text; none where it is the only one
    pub log_stream : Text → Text → Option Text → Call Text

  pub record Client : Type 0 where
    pub clientset : Clientset
    pub namespace : Text
    pub cluster_domain : Text
    pub terminated : Bool
    pub max_pending_duration : ℤ

  abbrev pub terminate : Client → Client
  terminate c = record c { terminated = true }

  abbrev pub set_max_pending_duration : Client → ℤ → Client
  set_max_pending_duration c duration = record c { max_pending_duration = duration }

  -- if c.terminated { return ErrClientTerminated }
  abbrev pub alive : Client → Call (Unit {0})
  alive c = check (fails_if c.terminated client_terminated)
