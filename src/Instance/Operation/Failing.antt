-- ===== src/Instance/Operation/Failing.antt =====
-- An operation that returns an error has left the states of all instances as they were: the state is
-- the last thing that an operation writes.
use knuu.Prelude.{◌≡◌, refl, Option, none, some, List}
use knuu.Prelude.Text.{Text}
use knuu.Action.Moves.{Moves, moves_rules}
use knuu.Action.Failures.{FailsIn, NoError, failure_rules}
use knuu.Host.{Foreign, Os}
use knuu.K8s.Types.{KubeManager, Labels}
use knuu.Instance.Build.Frame.{factory_rules}
use knuu.Instance.State.{State}
use knuu.Instance.World.{Ref, World, Instance, SidecarManager}
use knuu.Instance.Access.{edit, self, set_state, deref}
use knuu.Instance.Access.Frame.{Frame, Each, frame_rules}
use knuu.Instance.Build
use knuu.Instance.Build.{use_cache, committed_as}
use knuu.Instance.Build.Frame.{image_not_allowed-Each, get_image_registry-Each, get_build_dir-Each}
use knuu.Instance.Sidecars.{sidecar, instance_of, set_state_for_sidecars}
use knuu.Instance.Execution.{
  destroy_pod, destroy_all, ready_to_start, deploy_started, set_state_of_all, start_async, stop,
  destroy,
}
use knuu.Instance.Execution.Frame.{
  ready_to_start-Each, deploy_started-Each, destroy_pod-Each, destroy_all-Each,
}

module _ ⦃f : Foreign⦄ where
  abbrev pub SameState : Instance → Instance → Type 0
  SameState a b = b.state ≡ a.state

  pub SameState-Frame : Frame SameState
  SameState-Frame = record {
    same = λ a. refl;
    chain = λ {a} {b} {c} r s. cc;
    build = λ a x. refl;
    resources = λ a x. refl;
    monitoring = λ a x. refl;
    security = λ a x. refl;
    service = λ a x. refl;
    files = λ a x. refl;
    replica_set = λ a x. refl;
    parent = λ a x. refl;
  }

  edit-NoError : (i : Ref) (g : Instance → Instance) → NoError (edit i g)
  unfolding edit
  edit-NoError i g = search failure_rules

  self-NoError : (i : Ref) → NoError (self i)
  unfolding self
  self-NoError i = search failure_rules

  set_state-NoError : (i : Ref) (s : State) → NoError (set_state i s)
  unfolding set_state
  set_state-NoError i s = edit-NoError i _

  deref-NoError : {A : Type 0} (a : Option A) → NoError (deref {S = World} a)
  unfolding deref
  deref-NoError none = search failure_rules
  deref-NoError (some a) = search failure_rules

  sidecar-NoError : (sc : f.Manager) → NoError (sidecar sc)
  unfolding sidecar instance_of
  sidecar-NoError sc = search (failure_rules, deref-NoError)

  set_state_for_sidecars-NoError :
      (scs : List f.Manager) (s : State) → NoError (set_state_for_sidecars scs s)
  unfolding set_state_for_sidecars
  set_state_for_sidecars-NoError scs s = search (failure_rules, sidecar-NoError, edit-NoError)

  set_state_of_all-NoError : (i : Ref) (s : State) → NoError (set_state_of_all i s)
  unfolding set_state_of_all
  set_state_of_all-NoError i s =
      search (failure_rules, set_state-NoError, self-NoError, set_state_for_sidecars-NoError) depth
        12

  module _ ⦃k : KubeManager⦄ (i : Ref) where
    pub stop-FailsIn : FailsIn (Each SameState) (stop i)
    unfolding stop
    stop-FailsIn =
        let pod : Moves (Each SameState) (destroy_pod i) = destroy_pod-Each SameState-Frame i in
        search (failure_rules, moves_rules, frame_rules, SameState-Frame, set_state_of_all-NoError)
          depth 12

    pub destroy-FailsIn : FailsIn (Each SameState) (destroy i)
    unfolding destroy
    destroy-FailsIn =
        let all : Moves (Each SameState) (destroy_all i) = destroy_all-Each SameState-Frame i in
        search (failure_rules, moves_rules, frame_rules, SameState-Frame, set_state_of_all-NoError)
          depth 16

    module _ ⦃o : Os⦄ ⦃m : SidecarManager⦄
        (safe : (sc : f.Manager) → Moves (Each SameState) (m.pre_start sc)) where
      pub start_async-FailsIn : FailsIn (Each SameState) (start_async i)
      unfolding start_async
      start_async-FailsIn =
          let ready : Moves (Each SameState) (ready_to_start i) =
            ready_to_start-Each SameState-Frame i safe in
          let deployed : Moves (Each SameState) (deploy_started i) =
            deploy_started-Each SameState-Frame i safe in
          search
            (failure_rules, moves_rules, frame_rules, SameState-Frame, set_state_of_all-NoError)
            depth 12

  module _ ⦃o : Os⦄ (i : Ref) where
    pub set_image-FailsIn :
        (image : Text) (args : Labels) → FailsIn (Each SameState) (Build.set_image i image args)
    unfolding Build.set_image
    set_image-FailsIn image args =
        search
          (
            failure_rules, moves_rules, frame_rules, factory_rules, SameState-Frame,
            image_not_allowed-Each, get_build_dir-Each, edit-NoError, set_state-NoError,
          )
          depth 16

    use_cache-FailsIn :
        (b : Ref) (h name : Text) (cached : Option Text)
        → FailsIn (Each SameState) (use_cache i b h name cached)
    use_cache-FailsIn b h name none =
        search
          (
            failure_rules, moves_rules, frame_rules, factory_rules, SameState-Frame, edit-NoError,
            set_state-NoError,
          )
          depth 16
    use_cache-FailsIn b h name (some cached) =
        search (failure_rules, edit-NoError, set_state-NoError) depth 16

    pub commit-FailsIn : FailsIn (Each SameState) (Build.commit i)
    unfolding Build.commit
    commit-FailsIn =
        search
          (
            failure_rules, moves_rules, frame_rules, factory_rules, SameState-Frame,
            get_image_registry-Each, use_cache-FailsIn, edit-NoError, set_state-NoError,
          )
          depth 24
