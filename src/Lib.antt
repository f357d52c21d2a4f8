-- ===== src/Lib.antt =====
-- A model of knuu, a Go framework that runs the instances of a test in a Kubernetes cluster, and what
-- holds of it.
--
-- The program. A test makes instances (pkg/instance). An instance has parts: its image (build.go), its
-- resources, network, storage, monitoring and security settings, its sidecars, and its execution in the
-- cluster. It goes through the states of state.go: SetImage makes it Preparing, Commit builds
-- the image with a BuilderFactory (pkg/container/docker.go) and makes it Committed, StartAsync deploys
-- it, Stop takes its pod down, Destroy takes everything down. The names of the instances are kept apart
-- by a registry (pkg/system/dependencies.go) and made fit for Kubernetes by SanitizeName
-- (pkg/k8s/utils.go). The cluster is behind the interface KubeManager (pkg/k8s/types.go).
--
-- The model. An operation is an Action on a World (Action, Instance.World): it takes the memory of the
-- program and the outside to a result, and the state that it leaves, also when it fails. A pointer to
-- an instance or a factory is a number, and the World says what stands there, so that sharing
-- between an instance and its sidecars is kept. A nil pointer that is read and a panic are the result
-- `panic`. The calls of KubeManager, of the operating system and of the image builder are
-- parameters (Host, K8s.Types): each is a function on the outside.
--
-- The files.
-- - Prelude and below: names of the libraries, lists, association lists for Go's maps, texts as lists
--   of code points, Go's int.
-- - Errors: the error variables of the errors.go files and what wraps them. Action: the monad, and
--   rules on what an action keeps (Moves), on its failures (Failures), on its successes (Outcomes) and
--   on loops that count their rounds (Rounds).
-- - Host, K8s.Types: the outside and the records that are passed to it.
-- - K8s.Sanitize: SanitizeName of pkg/k8s/utils.go. K8s.Validate: pkg/k8s/validate.go. K8s.Objects: the
--   fields that pkg/k8s sets or reads of the objects of the API.
-- - K8s.Pods: the functions of pkg/k8s/pod.go that build the specification of a pod. Mounts and
--   InitCommand below are about its volumes and the command of its init container.
-- - K8s.Cluster: the client of pkg/k8s/k8s.go. Namespaces, ConfigMaps, Volumes, Services and Daemons:
--   namespace.go, configmap.go, pvc.go, service.go and daemonset.go. Access: networkpolicy.go, role.go,
--   rolebinding.go and serviceaccount.go. Workloads: what pod.go and replicaset.go do in the cluster.
--   Status: pod_status.go. Custom, Deployments and Connecting: custom_resource.go, deployment.go and
--   logs.go, and NewClient. Refusal has the requests that make or change objects after checks, as
--   data; Store has servers without faults. The API server is a record of calls.
-- - Builder: pkg/builder/git.go, dir.go, args.go and builder.go. Container: pkg/container/docker.go.
--   Builder.Kaniko and Builder.Docker: pkg/builder/kaniko and pkg/builder/docker. Preloader:
--   pkg/preloader/preloader.go. Names: pkg/names/names.go. Knuu: pkg/knuu/knuu.go and instance.go;
--   Knuu.Starting has New and CleanUp. Traefik: pkg/traefik/traefik.go, with Deploy in Deploying.
-- - Instance.State, World, Access: pkg/instance/state.go, type.go, the records, and the checks of the
--   state. Instance.Build, Storage, Network, Resources, Monitoring, Security, Sidecars and Execution: the
--   files of pkg/instance with those names, one function for each method, named as it is. The module
--   Frame below each says what its methods leave alone. Instance.Execution.Deployment is the part of
--   execution.go that deploys a pod, Batch below it has BatchDestroy and StartWithCallback.
--   Instance.Network.Proxy: proxy.go.
-- - Minio: pkg/minio/minio.go. Minio.Deploying has what it puts in the cluster, Minio.Locking the steps
--   of goroutines that share it.
-- - Sidecars: pkg/sidecars. Schema and Otel: otel.go of observability, the configuration of its
--   collector, and Resolved what its pipelines name. Observability, Tshark and Netshaper: the other files
--   of the three sidecars, as structs that are changed beside the World.
-- - Instance.Naming: New, SetName and CloneWithName of instance.go, and the registry of names.
-- - Instance.Operation: the methods as data, the states that allow them, and what all of them keep.
-- - Examples: a cluster with which the theorems are applied.
--
-- pkg/instance calls the cluster through KubeManager, which stays a parameter there, as an
-- implementation of it need not be the client of pkg/k8s.
--
-- Loops. PortForwardTCP makes a fixed number of attempts, 5. WaitInstanceIsRunning,
-- WaitInstanceIsStopped, WaitForService, WaitForDeployment, the waits of pkg/minio and of Kaniko
-- and the waits for a deletion run until the context is done, so that their models take a number of
-- rounds; a number above the rounds that the context has left is enough.
--
-- Not modelled: RunCommandInPod and PortForwardPod of pkg/k8s, which open streams to the cluster,
-- the goroutine that watches pending pods, the handler of signals of pkg/knuu, which ends the
-- process, and the settings of the logger. pkg/instance takes any sidecars, so that they are a
-- parameter there (SidecarManager); that those of pkg/sidecars fill it is not stated. Go's memory
-- limits and the sharing of slices between copies are left out, but for the slice that RemoveImage
-- of the preloader ranges over.
pub mod Prelude
pub mod Errors
pub mod Action
pub mod Host
pub mod K8s
pub mod Builder
pub mod Preloader
pub mod Container
pub mod Instance
pub mod Knuu
pub mod Minio
pub mod Names
pub mod Sidecars
pub mod Traefik
pub mod Examples
