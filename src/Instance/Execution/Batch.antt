-- ===== src/Instance/Execution/Batch.antt =====
-- execution.go: StartWithCallback, whose goroutine is an action that it returns, and BatchDestroy.
use knuu.Prelude.{ℕ, Option, none, some, List, [], ◌∷◌}
use knuu.Prelude.Text.{codes, text_eq}
use knuu.Errors.{Result, ok, err, panic}
use knuu.Action.{Action, pure, crash, attempt, when, ◌>>=◌, ◌>>◌}
use knuu.Host.{Foreign, Os}
use knuu.K8s.Types.{KubeManager}
use knuu.Instance.World.{Ref, World, SidecarManager}
use knuu.Instance.Execution.{start_async, destroy, wait_instance_is_running}

module _ ⦃f : Foreign⦄ ⦃k : KubeManager⦄ ⦃o : Os⦄ where
  -- A nil pointer among the instances is passed over.
  unfoldable pub destroy_each : List (Option Ref) → Action World (Unit {0})
  destroy_each [] = pure tt
  destroy_each (none ∷ instances) = destroy_each instances
  destroy_each (some i ∷ instances) = do destroy i; destroy_each instances

  unfoldable pub batch_destroy : List (Option Ref) → Action World (Unit {0})
  unfolding destroy_each
  batch_destroy instances =
      when (text_eq (o.getenv (codes "KNUU_SKIP_CLEANUP")) (codes "true")) (pure tt)
        (destroy_each instances)

  module _ ⦃m : SidecarManager⦄ where
    -- What the goroutine does when the wait is over; an error of it is only logged.
    abbrev pub call_back :
        Action World (Unit {0}) → Result (Option (Unit {0})) → Action World (Unit {0})
    call_back callback (ok (some u)) = callback
    call_back callback (ok none) = pure tt
    call_back callback (err e) = pure tt
    call_back callback panic = crash

    unfoldable pub start_with_callback :
        ℕ → Ref → Action World (Unit {0}) → Action World (Action World (Unit {0}))
    start_with_callback rounds i callback = do
      start_async i
      pure do waited ← attempt (wait_instance_is_running rounds i); call_back callback waited
