-- ===== src/Instance/Execution/Deployment.antt =====
-- execution.go: the configuration of an instance's replica set, its pod, and the state of the instance
-- and its sidecars.
use knuu.Prelude.{true, some, List, [], ◌∷◌}
use knuu.Prelude.Text.{Text}
use knuu.Prelude.Int.{pos}
use knuu.Errors.Codes.{
  failed_to_create_service_account, failed_to_create_role, failed_to_create_role_binding,
  failed_to_deploy_pod, failed_to_delete_pod, failed_to_delete_service_account,
  failed_to_delete_role, failed_to_delete_role_binding,
}
use knuu.Action.{Action, pure, when, ◌>>=◌, ◌>>◌}
use knuu.Host.{Foreign}
use knuu.K8s.Types.{KubeManager, ContainerConfig, ReplicaSetConfig}
use knuu.Instance.State.{State}
use knuu.Instance.World.{Ref, World, Instance, call}
use knuu.Instance.Access.{or_wrap, self, edit, set_state, labels}
use knuu.Instance.Security.{prepare_security_context}
use knuu.Instance.Storage.{no_volumes}
use knuu.Instance.Sidecars.{sidecar, set_state_for_sidecars}

module _ ⦃f : Foreign⦄ where
  -- The container of an instance, with the given pull policy; that of a sidecar has none.
  unfoldable pub container_config : Text → Instance → ContainerConfig
  container_config pull_policy inst = record {
    name = inst.name;
    image = inst.build.image_name;
    image_pull_policy = pull_policy;
    command = inst.build.command;
    args = inst.build.args;
    env = inst.build.env;
    volumes = inst.storage.volumes;
    memory_request = inst.resources.memory_request;
    memory_limit = inst.resources.memory_limit;
    cpu_request = inst.resources.cpu_request;
    liveness_probe = inst.monitoring.liveness_probe;
    readiness_probe = inst.monitoring.readiness_probe;
    startup_probe = inst.monitoring.startup_probe;
    files = inst.storage.files;
    security_context = some (prepare_security_context inst.security);
    tcp_ports = inst.network.ports_tcp;
    udp_ports = inst.network.ports_udp;
  }

  unfoldable pub sidecar_configs : List f.Manager → Action World (List ContainerConfig)
  unfolding container_config
  sidecar_configs [] = pure []
  sidecar_configs (sc ∷ scs) = do
    j ← sidecar sc
    side ← self j
    rest ← sidecar_configs scs
    pure (container_config [] side ∷ rest)

  -- SetState of the instance, and then setStateForSidecars: the last step of StartAsync, Stop and
  -- Destroy.
  unfoldable pub set_state_of_all : Ref → State → Action World (Unit {0})
  set_state_of_all i s = do
    set_state i s
    inst ← self i
    set_state_for_sidecars inst.sidecars.sidecars s

  module _ ⦃k : KubeManager⦄ where
    unfoldable pub prepare_replica_set_config : Ref → Action World ReplicaSetConfig
    unfolding container_config sidecar_configs
    prepare_replica_set_config i = do
      inst ← self i
      configs ← sidecar_configs inst.sidecars.sidecars
      ls ← labels i
      pure (record {
        namespace = k.namespace;
        name = inst.name;
        labels = ls;
        replicas = pos 1;
        pod_config = record {
          namespace = k.namespace;
          name = inst.name;
          labels = ls;
          service_account_name = inst.name;
          fs_group = pos 0;
          container_config = container_config inst.build.image_pull_policy inst;
          sidecar_configs = configs;
          annotations = [];
          node_selector = inst.build.node_selector;
        };
      })

    unfoldable pub deploy_pod : Ref → Action World (Unit {0})
    unfolding prepare_replica_set_config
    deploy_pod i = do
      inst ← self i
      ls ← labels i
      or_wrap failed_to_create_service_account (call (k.create_service_account inst.name ls))
      when (no_volumes inst.security.policy_rules) (pure tt) do
        or_wrap failed_to_create_role (call (k.create_role inst.name ls inst.security.policy_rules))
        or_wrap failed_to_create_role_binding
            (call (k.create_role_binding inst.name ls inst.name inst.name))
      config ← prepare_replica_set_config i
      replica_set ← or_wrap failed_to_deploy_pod (call (k.create_replica_set config true))
      edit i (λ a. record a { kubernetes_replica_set = some replica_set })

    unfoldable pub destroy_pod : Ref → Action World (Unit {0})
    destroy_pod i = do
      inst ← self i
      or_wrap failed_to_delete_pod (call (k.delete_replica_set inst.name))
      or_wrap failed_to_delete_service_account (call (k.delete_service_account inst.name))
      when (no_volumes inst.security.policy_rules) (pure tt) do
        or_wrap failed_to_delete_role (call (k.delete_role inst.name))
        or_wrap failed_to_delete_role_binding (call (k.delete_role_binding inst.name))
