-- ===== src/Instance/Execution/Frame.antt =====
-- What starting, stopping and destroying leave alone. Where `Q` does not look at the state, that is
-- all that `Q` sees; `PreStart` of the sidecars must keep `Q` too.
use knuu.Prelude.{ℕ, zero, suc, List, [], ◌∷◌}
use knuu.Prelude.Text.{Text}
use knuu.Action.Moves.{Moves, moves_rules}
use knuu.Host.{Foreign, Os}
use knuu.K8s.Types.{KubeManager}
use knuu.Instance.State.{State}
use knuu.Instance.World.{Ref, Instance, SidecarManager}
use knuu.Instance.Access.Frame.{Frame, Each, set_state-Each, frame_rules}
use knuu.Instance.Sidecars.Frame.{
  sidecar-Each, verify_sidecars_states-Each, apply_function-Each, set_state_for_sidecars-Each,
}
use knuu.Instance.Resources.Frame.{deploy_resources-Each, destroy_resources-Each}
use knuu.Instance.Execution.{
  sidecar_configs, prepare_replica_set_config, deploy_pod, destroy_pod, execute_command, is_running,
  stop, destroy_all, destroy, deploy_resources_for_committed_state, ready_to_start, deploy_started,
  set_state_of_all, start_async, wait_running, wait_instance_is_running, start,
}

module _ ⦃f : Foreign⦄ {Q : Instance → Instance → Type 0} (q : Frame Q) where
  sidecar_configs-Each : (scs : List f.Manager) → Moves (Each Q) (sidecar_configs scs)
  unfolding sidecar_configs
  sidecar_configs-Each [] = search (moves_rules, frame_rules)
  sidecar_configs-Each (sc ∷ scs) =
      let rest : Moves (Each Q) (sidecar_configs scs) = sidecar_configs-Each scs in
      search (moves_rules, frame_rules, sidecar-Each) depth 12

  module _ ⦃k : KubeManager⦄ (i : Ref) where
    prepare_config-Each : Moves (Each Q) (prepare_replica_set_config i)
    unfolding prepare_replica_set_config
    prepare_config-Each = search (moves_rules, frame_rules, sidecar_configs-Each) depth 12

    pub deploy_pod-Each : Moves (Each Q) (deploy_pod i)
    unfolding deploy_pod
    deploy_pod-Each = search (moves_rules, frame_rules, prepare_config-Each, q.replica_set) depth 20

    pub destroy_pod-Each : Moves (Each Q) (destroy_pod i)
    unfolding destroy_pod
    destroy_pod-Each = search (moves_rules, frame_rules) depth 20

    pub execute_command-Each : (command : List Text) → Moves (Each Q) (execute_command i command)
    unfolding execute_command
    execute_command-Each command = search (moves_rules, frame_rules) depth 20

    pub is_running-Each : Moves (Each Q) (is_running i)
    unfolding is_running
    is_running-Each = search (moves_rules, frame_rules) depth 12

    module _ ⦃o : Os⦄ where
      wait_running-Each : (rounds : ℕ) → Moves (Each Q) (wait_running rounds i)
      unfolding wait_running
      wait_running-Each zero = search (moves_rules, frame_rules)
      wait_running-Each (suc rounds) =
          let rest : Moves (Each Q) (wait_running rounds i) = wait_running-Each rounds in
          search (moves_rules, frame_rules, is_running-Each) depth 12

      pub wait_instance_is_running-Each :
          (rounds : ℕ) → Moves (Each Q) (wait_instance_is_running rounds i)
      unfolding wait_instance_is_running
      wait_instance_is_running-Each rounds = search (moves_rules, frame_rules, wait_running-Each)

      module _ ⦃m : SidecarManager⦄
          (safe : (sc : f.Manager) → Moves (Each Q) (m.pre_start sc)) where
        deploy_committed-Each : Moves (Each Q) (deploy_resources_for_committed_state i)
        unfolding deploy_resources_for_committed_state
        deploy_committed-Each =
            search
              (
                moves_rules, frame_rules, sidecar-Each, deploy_resources-Each, apply_function-Each,
                safe,
              )
              depth 16

        pub ready_to_start-Each : Moves (Each Q) (ready_to_start i)
        unfolding ready_to_start
        ready_to_start-Each =
            search
              (
                moves_rules, frame_rules, sidecar-Each, verify_sidecars_states-Each,
                apply_function-Each,
              )
              depth 20

        pub deploy_started-Each : Moves (Each Q) (deploy_started i)
        unfolding deploy_started
        deploy_started-Each =
            search (moves_rules, frame_rules, deploy_committed-Each, deploy_pod-Each) depth 20

module _ ⦃f : Foreign⦄ {Q : Instance → Instance → Type 0} (q : Frame Q) (i : Ref) where
  pub set_state_of_all-Each :
      (s : State)
      → ((a : Instance) → Q a (record a { state = s }))
      → Moves (Each Q) (set_state_of_all i s)
  unfolding set_state_of_all
  set_state_of_all-Each s sets =
      search (moves_rules, frame_rules, set_state-Each q s sets, set_state_for_sidecars-Each, sets)
        depth 12

  module _ ⦃k : KubeManager⦄ where
    pub stop-Each :
        ((a : Instance) → Q a (record a { state = State.stopped })) → Moves (Each Q) (stop i)
    unfolding stop
    stop-Each sets =
        let last : Moves (Each Q) (set_state_of_all i State.stopped) =
          set_state_of_all-Each State.stopped sets in
        search (moves_rules, frame_rules, destroy_pod-Each) depth 16

    pub destroy_all-Each : Moves (Each Q) (destroy_all i)
    unfolding destroy_all
    destroy_all-Each =
        search
          (
            moves_rules, frame_rules, destroy_pod-Each, destroy_resources-Each, apply_function-Each,
            sidecar-Each,
          )
          depth 20

    pub destroy-Each :
        ((a : Instance) → Q a (record a { state = State.destroyed })) → Moves (Each Q) (destroy i)
    unfolding destroy
    destroy-Each sets =
        let last : Moves (Each Q) (set_state_of_all i State.destroyed) =
          set_state_of_all-Each State.destroyed sets in
        search (moves_rules, frame_rules, destroy_all-Each) depth 20

    module _ ⦃o : Os⦄ ⦃m : SidecarManager⦄
        (safe : (sc : f.Manager) → Moves (Each Q) (m.pre_start sc))
        (sets : (a : Instance) → Q a (record a { state = State.started })) where
      pub start_async-Each : Moves (Each Q) (start_async i)
      unfolding start_async
      start_async-Each =
          let last : Moves (Each Q) (set_state_of_all i State.started) =
            set_state_of_all-Each State.started sets in
          search (moves_rules, frame_rules, ready_to_start-Each, deploy_started-Each) depth 16

      pub start-Each : (rounds : ℕ) → Moves (Each Q) (start rounds i)
      unfolding start
      start-Each rounds =
          search (moves_rules, frame_rules, start_async-Each, wait_instance_is_running-Each) depth
            12
