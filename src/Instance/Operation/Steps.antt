-- ===== src/Instance/Operation/Steps.antt =====
-- What each operation does to the parts of the instances, from what its steps do. `target` is the
-- state that an operation sets.
use knuu.Prelude.{◌≡◌, refl, Option, none, some}
use knuu.Prelude.Text.{Text}
use knuu.Prelude.Int.{ℤ}
use knuu.Action.Moves.{Moves, moves_rules}
use knuu.Host.{Foreign, Os}
use knuu.K8s.Types.{KubeManager}
use knuu.Instance.State.{State}
use knuu.Instance.World.{Ref, Instance, SidecarManager}
use knuu.Instance.Access.Frame.{Frame, Each, frame_rules}
use knuu.Instance.Build.Frame as BuildFrame
use knuu.Instance.Storage
use knuu.Instance.Storage.Frame as StorageFrame
use knuu.Instance.Network
use knuu.Instance.Network.Frame as NetworkFrame
use knuu.Instance.Resources.Frame as ResourcesFrame
use knuu.Instance.Monitoring.Frame as MonitoringFrame
use knuu.Instance.Security.Frame as SecurityFrame
use knuu.Instance.Execution.Frame as ExecutionFrame
use knuu.Instance.Operation.{
  Operation, run, set_image, set_start_command, set_args, build_command, set_user,
  set_node_selector, set_environment_variable, commit, add_file, add_folder, add_file_bytes,
  add_volume, add_volume_with_owner, add_port_tcp, add_port_udp, set_memory, set_cpu,
  set_liveness_probe, set_readiness_probe, set_startup_probe, add_policy_rule, set_privileged,
  add_capability, add_capabilities, disable_network, enable_network, execute_command, start_async,
  stop, destroy,
}

module _ ⦃f : Foreign⦄ where
  abbrev pub target : Operation → Option State
  target (set_image image args) = some State.preparing
  target commit = some State.committed
  target start_async = some State.started
  target stop = some State.stopped
  target destroy = some State.destroyed
  target _ = none

  -- What the operations on ports and volumes do has to be said apart, as does PreStart.
  pub record Rest (Q : Instance → Instance → Type 0) ⦃m : SidecarManager⦄ : Type 0 where
    pub tcp : (i : Ref) (port : ℤ) → Moves (Each Q) (Network.add_port_tcp i port)
    pub udp : (i : Ref) (port : ℤ) → Moves (Each Q) (Network.add_port_udp i port)
    pub volume :
        (i : Ref) (path : Text) (size : f.Quantity)
        → Moves (Each Q) (Storage.add_volume i path size)
    pub owned_volume :
        (i : Ref) (path : Text) (size : f.Quantity) (owner : ℤ)
        → Moves (Each Q) (Storage.add_volume_with_owner i path size owner)
    pub pre_start : (sc : f.Manager) → Moves (Each Q) (m.pre_start sc)

  module _ ⦃k : KubeManager⦄ ⦃o : Os⦄ ⦃m : SidecarManager⦄ {Q : Instance → Instance → Type 0}
      (q : Frame Q) (r : Rest Q) where
    pub run-Each :
        (op : Operation) (i : Ref)
        → ((s : State) → target op ≡ some s → (a : Instance) → Q a (record a { state = s }))
        → Moves (Each Q) (run op i)
    unfolding run
    run-Each (set_image image args) i sets =
        BuildFrame.set_image-Each q i (sets State.preparing refl) image args
    run-Each (set_start_command c) i sets = BuildFrame.set_start_command-Each q i c
    run-Each (set_args args) i sets = BuildFrame.set_args-Each q i args
    run-Each (build_command c) i sets = BuildFrame.execute_command-Each q i c
    run-Each (set_user user) i sets = BuildFrame.set_user-Each q i user
    run-Each (set_node_selector s) i sets = BuildFrame.set_node_selector-Each q i s
    run-Each (set_environment_variable key value) i sets =
        BuildFrame.set_environment_variable-Each q i key value
    run-Each commit i sets = BuildFrame.commit-Each q i (sets State.committed refl)
    run-Each (add_file src dest chown) i sets = StorageFrame.add_file-Each q i src dest chown
    run-Each (add_folder src dest chown) i sets = StorageFrame.add_folder-Each q i src dest chown
    run-Each (add_file_bytes content dest chown) i sets =
        StorageFrame.add_file_bytes-Each q i content dest chown
    run-Each (add_volume path size) i sets = r.volume i path size
    run-Each (add_volume_with_owner path size owner) i sets = r.owned_volume i path size owner
    run-Each (add_port_tcp port) i sets = r.tcp i port
    run-Each (add_port_udp port) i sets = r.udp i port
    run-Each (set_memory request limit) i sets = ResourcesFrame.set_memory-Each q i request limit
    run-Each (set_cpu request) i sets = ResourcesFrame.set_cpu-Each q i request
    run-Each (set_liveness_probe p) i sets = MonitoringFrame.set_liveness_probe-Each q i p
    run-Each (set_readiness_probe p) i sets = MonitoringFrame.set_readiness_probe-Each q i p
    run-Each (set_startup_probe p) i sets = MonitoringFrame.set_startup_probe-Each q i p
    run-Each (add_policy_rule rule) i sets = SecurityFrame.add_policy_rule-Each q i rule
    run-Each (set_privileged p) i sets = SecurityFrame.set_privileged-Each q i p
    run-Each (add_capability c) i sets = SecurityFrame.add_capability-Each q i c
    run-Each (add_capabilities cs) i sets = SecurityFrame.add_capabilities-Each q i cs
    run-Each disable_network i sets = NetworkFrame.disable-Each q i
    run-Each enable_network i sets = NetworkFrame.enable-Each q i
    run-Each (execute_command c) i sets =
        search (moves_rules, frame_rules, ExecutionFrame.execute_command-Each) depth 12
    run-Each start_async i sets =
        ExecutionFrame.start_async-Each q i r.pre_start (sets State.started refl)
    run-Each stop i sets = ExecutionFrame.stop-Each q i (sets State.stopped refl)
    run-Each destroy i sets = ExecutionFrame.destroy-Each q i (sets State.destroyed refl)
