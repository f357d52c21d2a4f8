-- ===== src/Instance/Operation/Refusal.antt =====
-- An operation that the state of its instance does not allow: it returns an error and changes nothing.
use knuu.Prelude.{false, List, [], ◌∷◌, ◌≡◌, refl, Bool-cases, inl, inr}
use knuu.Errors.{Code, instance_code, raised, err}
use knuu.Errors.Codes.{
  InstanceCode, starting_not_allowed, setting_image_not_allowed,
  setting_image_not_allowed_for_sidecars_started, adding_volume_not_allowed,
  maximum_volumes_exceeded, executing_command_not_allowed, destroying_not_allowed,
}
use knuu.Action.{Action, ◌>>=◌}
use knuu.Action.Stops.{bind_of_err, require_of_false}
use knuu.Host.{Foreign, Os}
use knuu.K8s.Types.{KubeManager}
use knuu.Instance.State.{State, is_in_state, state_eq}
use knuu.Instance.World.{Ref, World, SidecarManager}
use knuu.Instance.Access.{require_state, self}
use knuu.Instance.Build
use knuu.Instance.Storage
use knuu.Instance.Storage.{no_volumes}
use knuu.Instance.Network
use knuu.Instance.Resources
use knuu.Instance.Monitoring
use knuu.Instance.Security
use knuu.Instance.Execution
use knuu.Instance.Operation.{
  Operation, run, allowed, set_image, set_start_command, set_args, build_command, set_user,
  set_node_selector, set_environment_variable, commit, add_file, add_folder, add_file_bytes,
  add_volume, add_volume_with_owner, add_port_tcp, add_port_udp, set_memory, set_cpu,
  set_liveness_probe, set_readiness_probe, set_startup_probe, add_policy_rule, set_privileged,
  add_capability, add_capabilities, disable_network, enable_network, execute_command, start_async,
  stop, destroy,
}

not_destroyed :
    (s : State)
    → is_in_state s (State.started ∷ State.stopped ∷ State.destroyed ∷ []) ≡ false
    → (state_eq s State.destroyed ≡ false)
      × (is_in_state s (State.started ∷ State.stopped ∷ []) ≡ false)
not_destroyed State.none h = (refl, refl)
not_destroyed State.preparing h = (refl, refl)
not_destroyed State.committed h = (refl, refl)
not_destroyed State.started h = cc
not_destroyed State.stopped h = cc
not_destroyed State.destroyed h = cc

module _ ⦃f : Foreign⦄ where
  pub require_state-refused :
      (i : Ref) (states : List State) (c : InstanceCode) (w : World)
      → is_in_state (w.instances i).state states ≡ false
      → require_state i states c w ≡ (w, err (raised (instance_code c)))
  unfolding require_state self ◌>>=◌
  require_state-refused i states c w h =
      require_of_false (is_in_state (w.instances i).state states) (instance_code c) w h

  refused :
      {A : Type 0} (i : Ref) (states : List State) (c : InstanceCode)
      (rest : Unit {0} → Action World A) (w : World)
      → is_in_state (w.instances i).state states ≡ false
      → (require_state i states c >>= rest) w ≡ (w, err (raised (instance_code c)))
  refused i states c rest w h =
      bind_of_err (require_state i states c) rest w w (raised (instance_code c))
        (require_state-refused i states c w h)

  image_refused :
      ⦃o : Os⦄ (i : Ref) (w : World)
      → is_in_state (w.instances i).state (State.none ∷ State.preparing ∷ State.stopped ∷ [])
        ≡ false
      → (c : Code) × (Build.image_not_allowed i w ≡ (w, err (raised c)))
  unfolding Build.image_not_allowed self ◌>>=◌
  image_refused i w h = elim (Bool-cases (w.instances i).sidecars.is_sidecar) [
    | inl e ↦ (instance_code setting_image_not_allowed_for_sidecars_started, rw (h, e) refl)
    | inr e ↦ (instance_code setting_image_not_allowed, rw (h, e) refl)
  ]

  module _ ⦃k : KubeManager⦄ ⦃o : Os⦄ ⦃m : SidecarManager⦄ where
    -- In a state that the operation does not allow, it returns an error of its own and leaves the
    -- world, the outside included, as it was.
    pub run_refused :
        (op : Operation) (i : Ref) (w : World)
        → is_in_state (w.instances i).state (allowed op) ≡ false
        → (c : Code) × (run op i w ≡ (w, err (raised c)))
    unfolding run allowed ◌>>=◌ self Storage.add_volume Build.set_image Execution.execute_command
        Execution.destroy Build.set_start_command Build.set_args Build.execute_command
        Build.set_user Build.set_node_selector Build.set_environment_variable Build.commit
        Storage.add_file Storage.add_folder Storage.add_file_bytes
        Storage.check_state_for_adding_file Storage.add_volume_with_owner Network.add_port_tcp
        Network.add_port_udp Resources.set_memory Resources.set_cpu Monitoring.set_liveness_probe
        Monitoring.check_state_for_probe Monitoring.set_readiness_probe Monitoring.set_startup_probe
        Security.add_policy_rule Security.set_privileged Security.add_kubernetes_capability
        Security.add_kubernetes_capabilities Network.disable Network.enable Execution.start_async
        Execution.ready_to_start Execution.stop
    run_refused (set_start_command c) i w h = (_, refused i _ _ _ w h)
    run_refused (set_args args) i w h = (_, refused i _ _ _ w h)
    run_refused (build_command c) i w h = (_, refused i _ _ _ w h)
    run_refused (set_user user) i w h = (_, refused i _ _ _ w h)
    run_refused (set_node_selector s) i w h = (_, refused i _ _ _ w h)
    run_refused (set_environment_variable key value) i w h = (_, refused i _ _ _ w h)
    run_refused commit i w h = (_, refused i _ _ _ w h)
    run_refused (add_file src dest chown) i w h = (_, refused i _ _ _ w h)
    run_refused (add_folder src dest chown) i w h = (_, refused i _ _ _ w h)
    run_refused (add_file_bytes content dest chown) i w h = (_, refused i _ _ _ w h)
    run_refused (add_volume_with_owner path size owner) i w h = (_, refused i _ _ _ w h)
    run_refused (add_port_tcp port) i w h = (_, refused i _ _ _ w h)
    run_refused (add_port_udp port) i w h = (_, refused i _ _ _ w h)
    run_refused (set_memory request limit) i w h = (_, refused i _ _ _ w h)
    run_refused (set_cpu request) i w h = (_, refused i _ _ _ w h)
    run_refused (set_liveness_probe p) i w h = (_, refused i _ _ _ w h)
    run_refused (set_readiness_probe p) i w h = (_, refused i _ _ _ w h)
    run_refused (set_startup_probe p) i w h = (_, refused i _ _ _ w h)
    run_refused (add_policy_rule rule) i w h = (_, refused i _ _ _ w h)
    run_refused (set_privileged p) i w h = (_, refused i _ _ _ w h)
    run_refused (add_capability c) i w h = (_, refused i _ _ _ w h)
    run_refused (add_capabilities cs) i w h = (_, refused i _ _ _ w h)
    run_refused disable_network i w h = (_, refused i _ _ _ w h)
    run_refused enable_network i w h = (_, refused i _ _ _ w h)
    run_refused start_async i w h =
        let c = instance_code starting_not_allowed in
        let e : Execution.ready_to_start i w ≡ (w, err (raised c)) = refused i _ _ _ w h in
        (c, bind_of_err (Execution.ready_to_start i) _ w w (raised c) e)
    run_refused stop i w h = (_, refused i _ _ _ w h)
    run_refused (set_image image args) i w h =
        let (c, e) = image_refused i w h in
        (c, bind_of_err (Build.image_not_allowed i) _ w w (raised c) e)
    run_refused (add_volume path size) i w h =
        elim (Bool-cases (no_volumes (w.instances i).storage.volumes)) [
          | inl e ↦ (instance_code adding_volume_not_allowed, rw e (refused i _ _ _ w h))
          | inr e ↦ (instance_code maximum_volumes_exceeded, rw e refl)
        ]
    run_refused (execute_command command) i w h =
        let c = instance_code executing_command_not_allowed in
        let e : Execution.execute_command i command w ≡ (w, err (raised c)) = refused i _ _ _ w h in
        (c, bind_of_err (Execution.execute_command i command) _ w w (raised c) e)
    run_refused destroy i w h =
        let (e, h') = not_destroyed (w.instances i).state h in
        (instance_code destroying_not_allowed, rw e (refused i _ _ _ w h'))
