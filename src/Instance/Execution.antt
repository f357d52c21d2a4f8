-- ===== src/Instance/Execution.antt =====
-- execution.go: an instance is started, watched, stopped and destroyed. StartWithCallback
-- and BatchDestroy are in Batch.
pub mod Frame
pub mod Waiting
pub mod Together
pub mod Deployment
pub mod Batch
unfoldable pub use Deployment.*
use knuu.Prelude.{
  ℕ, zero, suc, ◌+◌, Bool, true, false, not, Option, none, some, List, [], ◌∷◌, ◌++◌, map,
  if◌then◌else◌,
}
use knuu.Prelude.Text.{Text, codes, join}
use knuu.Prelude.Int.{ℤ, pos}
use knuu.Errors.{foreign, Result, ok, err, panic, raised, wrapped, instance_code}
use knuu.Errors.Codes.{
  InstanceCode, executing_command_not_allowed, executing_command_in_sidecar,
  executing_command_in_instance, getting_pod_from_replica_set, starting_not_allowed,
  starting_not_allowed_for_sidecar, starting_sidecar_not_allowed, deploying_resources_for_instance,
  deploying_pod_for_instance, waiting_for_instance_running,
  checking_if_instance_running_not_allowed, waiting_for_instance_not_allowed,
  checking_if_instance_running, waiting_for_instance_timeout,
  waiting_for_instance_stopped_not_allowed, checking_if_instance_stopped, stopping_not_allowed,
  destroying_pod, destroying_not_allowed, destroying_resources_for_instance,
  destroying_resources_for_sidecars, deploying_resources_for_sidecars,
  failed_to_create_service_account, failed_to_create_role, failed_to_create_role_binding,
  failed_to_deploy_pod, failed_to_delete_pod, failed_to_delete_service_account,
  failed_to_delete_role, failed_to_delete_role_binding,
}
use knuu.Action.{Action, pure, gets, attempt, when, each, throw, crash, ◌>>=◌, ◌>>◌}
use knuu.Host.{Foreign, Os, Pod}
use knuu.K8s.Types.{KubeManager, ContainerConfig, PodConfig, ReplicaSetConfig}
use knuu.Instance.State
use knuu.Instance.State.{State, state_eq, is_in_state}
use knuu.Instance.World.{Ref, World, Instance, SidecarManager, call}
use knuu.Instance.Access.{fail, or_wrap, guard, deref, self, edit, require_state, set_state, labels}
use knuu.Instance.Security.{prepare_security_context}
use knuu.Instance.Storage.{no_volumes}
use knuu.Instance.Resources.{deploy_resources, destroy_resources}
use knuu.Instance.Sidecars.{
  sidecar, verify_sidecars_states, apply_function_to_sidecars, set_state_for_sidecars,
}

module _ ⦃f : Foreign⦄ where
  module _ ⦃k : KubeManager⦄ where
    -- The instance whose pod runs a command: for a sidecar its parent.
    abbrev pod_owner : Instance → Action World Text
    pod_owner inst =
        when inst.sidecars.is_sidecar
          (do p ← deref inst.parent_instance; parent ← self p; pure parent.name) (pure inst.name)

    abbrev command_error : Instance → InstanceCode
    command_error inst =
        if inst.sidecars.is_sidecar
        then executing_command_in_sidecar
        else executing_command_in_instance

    unfoldable pub execute_command : Ref → List Text → Action World Text
    execute_command i command = do
      require_state i (State.started ∷ []) executing_command_not_allowed
      inst ← self i
      owner ← pod_owner inst
      found ← or_wrap getting_pod_from_replica_set (call (k.get_first_pod owner))
      pod ← deref found
      or_wrap (command_error inst) (
          call (
            k.run_command_in_pod pod.name inst.name
              (codes "/bin/sh" ∷ codes "-c" ∷ join (codes " ") command ∷ [])))

    unfoldable pub is_running : Ref → Action World Bool
    is_running i = do
      require_state i (State.started ∷ State.stopped ∷ []) checking_if_instance_running_not_allowed
      inst ← self i
      call (k.is_replica_set_running inst.name)

    unfoldable pub stop : Ref → Action World (Unit {0})
    stop i = do
      require_state i (State.started ∷ []) stopping_not_allowed
      or_wrap destroying_pod (destroy_pod i)
      set_state_of_all i State.stopped

    -- What Destroy takes down: the pod, the resources, and those of the sidecars.
    unfoldable pub destroy_all : Ref → Action World (Unit {0})
    destroy_all i = do
      or_wrap destroying_pod (destroy_pod i)
      or_wrap destroying_resources_for_instance (destroy_resources i)
      inst ← self i
      or_wrap destroying_resources_for_sidecars (
          apply_function_to_sidecars (λ sc. do j ← sidecar sc; destroy_resources j)
            inst.sidecars.sidecars)

    unfoldable pub destroy : Ref → Action World (Unit {0})
    unfolding destroy_all
    destroy i = do
      inst ← self i
      when (state_eq inst.state State.destroyed) (pure tt) do
        require_state i (State.started ∷ State.stopped ∷ []) destroying_not_allowed
        destroy_all i
        set_state_of_all i State.destroyed

    module _ ⦃o : Os⦄ where
      -- ErrWaitingForInstanceTimeout, wrapped round the error of the context.
      abbrev pub timed_out : Action World (Option (Unit {0}))
      timed_out =
          throw (wrapped (instance_code waiting_for_instance_timeout) (foreign o.context_error))

      -- The loop of WaitInstanceIsRunning; `none` means that the rounds ran out.
      unfoldable pub wait_running : ℕ → Ref → Action World (Option (Unit {0}))
      wait_running zero i = pure none
      wait_running (suc rounds) i = do
        let rest = wait_running rounds i
        running ← or_wrap checking_if_instance_running (is_running i)
        when running (pure (some tt)) do done ← call o.select_done; when done timed_out rest

      pub wait_instance_is_running : ℕ → Ref → Action World (Option (Unit {0}))
      unfolding wait_running
      wait_instance_is_running rounds i = do
        require_state i (State.started ∷ []) waiting_for_instance_not_allowed
        wait_running rounds i

      -- What the loop of WaitInstanceIsStopped sees: IsRunning returns false beside an error, and
      -- the test on `running` comes first.
      abbrev seen_running : Result Bool → Bool
      seen_running (ok running) = running
      seen_running (err e) = false
      seen_running panic = false

      pub wait_stopped : ℕ → Ref → Action World (Option (Unit {0}))
      wait_stopped zero i = pure none
      wait_stopped (suc rounds) i = do
        let rest = wait_stopped rounds i
        seen ← attempt (is_running i)
        when (not (seen_running seen)) (pure (some tt))
            do done ← call o.select_done; when done timed_out rest

      pub wait_instance_is_stopped : ℕ → Ref → Action World (Option (Unit {0}))
      unfolding wait_stopped
      wait_instance_is_stopped rounds i = do
        require_state i (State.stopped ∷ []) waiting_for_instance_stopped_not_allowed
        wait_stopped rounds i

      module _ ⦃m : SidecarManager⦄ where
        pub deploy_resources_for_committed_state : Ref → Action World (Unit {0})
        deploy_resources_for_committed_state i = do
          or_wrap deploying_resources_for_instance (deploy_resources i)
          inst ← self i
          or_wrap deploying_resources_for_sidecars (
              apply_function_to_sidecars
                (λ sc. do m.pre_start sc; j ← sidecar sc; deploy_resources j)
                inst.sidecars.sidecars)

        -- The checks that open StartAsync.
        unfoldable pub ready_to_start : Ref → Action World (Unit {0})
        ready_to_start i = do
          require_state i (State.committed ∷ State.stopped ∷ []) starting_not_allowed
          inst ← self i
          verify_sidecars_states inst.sidecars.sidecars
          apply_function_to_sidecars
              (λ sc. do
                j ← sidecar sc
                side ← self j
                guard (is_in_state side.state (State.committed ∷ State.stopped ∷ []))
                    starting_not_allowed_for_sidecar)
              inst.sidecars.sidecars
          guard (not inst.sidecars.is_sidecar) starting_sidecar_not_allowed

        -- What StartAsync deploys.
        unfoldable pub deploy_started : Ref → Action World (Unit {0})
        unfolding deploy_resources_for_committed_state
        deploy_started i = do
          inst ← self i
          when (state_eq inst.state State.committed)
              (or_wrap deploying_resources_for_instance (deploy_resources_for_committed_state i))
              (pure tt)
          or_wrap deploying_pod_for_instance (deploy_pod i)

        unfoldable pub start_async : Ref → Action World (Unit {0})
        unfolding ready_to_start deploy_started
        start_async i = do ready_to_start i; deploy_started i; set_state_of_all i State.started

        pub start : ℕ → Ref → Action World (Option (Unit {0}))
        unfolding start_async wait_instance_is_running
        start rounds i = do
          start_async i
          or_wrap waiting_for_instance_running (wait_instance_is_running rounds i)
