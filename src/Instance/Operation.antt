-- ===== src/Instance/Operation.antt =====
-- The operations on an instance as data, and the states in which each of them is allowed: those of the
-- tests that open the methods. The comments of SetImage, AddFile and Destroy name fewer.
pub mod Refusal
pub mod Steps
pub mod Succeeding
pub mod WellFormed
pub mod Batch
pub mod Failing
pub mod Lifecycle
use knuu.Prelude.{Bool, List, [], ◌∷◌, Option}
use knuu.Prelude.Text.{Text}
use knuu.Prelude.Int.{ℤ}
use knuu.Action.{Action, pure, ◌>>=◌, ◌>>◌}
use knuu.Host.{Foreign, Os, PolicyRule}
use knuu.K8s.Types.{KubeManager, Labels}
use knuu.Instance.State
use knuu.Instance.State.{State}
use knuu.Instance.World.{Ref, World, SidecarManager}
use knuu.Instance.Access.{configurable}
use knuu.Instance.Build
use knuu.Instance.Storage
use knuu.Instance.Network
use knuu.Instance.Resources
use knuu.Instance.Monitoring
use knuu.Instance.Security
use knuu.Instance.Execution

module _ ⦃f : Foreign⦄ where
  pub data Operation : Type 0 where
    set_image : Text → Labels → Operation
    set_start_command set_args build_command : List Text → Operation
    set_user : Text → Operation
    set_node_selector : Labels → Operation
    set_environment_variable : Text → Text → Operation
    commit : Operation
    add_file add_folder add_file_bytes : Text → Text → Text → Operation
    add_volume : Text → f.Quantity → Operation
    add_volume_with_owner : Text → f.Quantity → ℤ → Operation
    add_port_tcp add_port_udp : ℤ → Operation
    set_memory : f.Quantity → f.Quantity → Operation
    set_cpu : f.Quantity → Operation
    set_liveness_probe set_readiness_probe set_startup_probe : Option f.Probe → Operation
    add_policy_rule : PolicyRule → Operation
    set_privileged : Bool → Operation
    add_capability : Text → Operation
    add_capabilities : List Text → Operation
    disable_network enable_network : Operation
    execute_command : List Text → Operation
    start_async stop destroy : Operation

  unfoldable pub run :
      ⦃k : KubeManager⦄ ⦃o : Os⦄ ⦃m : SidecarManager⦄ → Operation → Ref → Action World (Unit {0})
  run (set_image image args) i = Build.set_image i image args
  run (set_start_command c) i = Build.set_start_command i c
  run (set_args args) i = Build.set_args i args
  run (build_command c) i = Build.execute_command i c
  run (set_user user) i = Build.set_user i user
  run (set_node_selector s) i = Build.set_node_selector i s
  run (set_environment_variable key value) i = Build.set_environment_variable i key value
  run commit i = Build.commit i
  run (add_file src dest chown) i = Storage.add_file i src dest chown
  run (add_folder src dest chown) i = Storage.add_folder i src dest chown
  run (add_file_bytes content dest chown) i = Storage.add_file_bytes i content dest chown
  run (add_volume path size) i = Storage.add_volume i path size
  run (add_volume_with_owner path size owner) i = Storage.add_volume_with_owner i path size owner
  run (add_port_tcp port) i = Network.add_port_tcp i port
  run (add_port_udp port) i = Network.add_port_udp i port
  run (set_memory request limit) i = Resources.set_memory i request limit
  run (set_cpu request) i = Resources.set_cpu i request
  run (set_liveness_probe p) i = Monitoring.set_liveness_probe i p
  run (set_readiness_probe p) i = Monitoring.set_readiness_probe i p
  run (set_startup_probe p) i = Monitoring.set_startup_probe i p
  run (add_policy_rule rule) i = Security.add_policy_rule i rule
  run (set_privileged p) i = Security.set_privileged i p
  run (add_capability c) i = Security.add_kubernetes_capability i c
  run (add_capabilities cs) i = Security.add_kubernetes_capabilities i cs
  run disable_network i = Network.disable i
  run enable_network i = Network.enable i
  run (execute_command c) i = do Execution.execute_command i c; pure tt
  run start_async i = Execution.start_async i
  run stop i = Execution.stop i
  run destroy i = Execution.destroy i

  -- The states in which an operation is allowed.
  unfoldable pub allowed : Operation → List State
  allowed (set_image image args) = State.none ∷ State.preparing ∷ State.stopped ∷ []
  allowed (build_command c) = State.preparing ∷ []
  allowed (set_user user) = State.preparing ∷ []
  allowed commit = State.preparing ∷ []
  allowed (set_node_selector s) = State.preparing ∷ State.committed ∷ []
  allowed disable_network = State.started ∷ []
  allowed enable_network = State.started ∷ []
  allowed (execute_command c) = State.started ∷ []
  allowed start_async = State.committed ∷ State.stopped ∷ []
  allowed stop = State.started ∷ []
  allowed destroy = State.started ∷ State.stopped ∷ State.destroyed ∷ []
  allowed _ = configurable
