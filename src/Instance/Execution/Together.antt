-- ===== src/Instance/Execution/Together.antt =====
-- An instance is started together with its sidecars.
use knuu.Prelude.{◌≡◌}
use knuu.Errors.{ok}
use knuu.Action.{◌>>=◌}
use knuu.Action.Outcomes.{Ensures, Ensures-on_ok, outcome_rules}
use knuu.Host.{Foreign, Os}
use knuu.K8s.Types.{KubeManager}
use knuu.Instance.State.{State}
use knuu.Instance.World.{Ref, World, SidecarManager}
use knuu.Instance.Access.{self, edit, set_state}
use knuu.Instance.Sidecars.{set_state_for_sidecars}
use knuu.Instance.Sidecars.States.{SidecarsHave, set_state_for_sidecars-Ensures}
use knuu.Instance.Execution.{set_state_of_all, start_async}

module _ ⦃f : Foreign⦄ where
  set_state_of_all-Ensures :
      (i : Ref) (s : State) → Ensures (SidecarsHave s i) (set_state_of_all i s)
  unfolding set_state_of_all set_state self edit set_state_for_sidecars ◌>>=◌
  set_state_of_all-Ensures i s = record {
    at = λ w. set_state_for_sidecars-Ensures s i (set_state i s w).0;
  }

  module _ ⦃k : KubeManager⦄ (i : Ref) where
    start_async-Ensures :
        ⦃o : Os⦄ ⦃m : SidecarManager⦄ → Ensures (SidecarsHave State.started i) (start_async i)
    unfolding start_async
    start_async-Ensures = search (outcome_rules, set_state_of_all-Ensures) depth 12

    -- When StartAsync returns no error, each sidecar of the instance has an instance, in the state
    -- Started.
    pub start_async-SidecarsHave :
        ⦃o : Os⦄ ⦃m : SidecarManager⦄ (w w' : World)
        → start_async i w ≡ (w', ok tt)
        → SidecarsHave State.started i w'
    start_async-SidecarsHave w w' h =
        Ensures-on_ok (SidecarsHave State.started i) start_async-Ensures w w' tt h
