-- ===== src/Instance/Operation/Batch.antt =====
-- BatchDestroy destroys all of the instances.
use knuu.Prelude.{◌≡◌, refl, false, Option, none, some, List, [], ◌∷◌}
use knuu.Prelude.Text.{codes, text_eq}
use knuu.Errors.{ok}
use knuu.Action.{pure, when}
use knuu.Action.Moves.{Moves, Moves-bind, Moves-pure}
use knuu.Action.Outcomes.{Ensures, Ensures-on_ok, Ensures-both}
use knuu.Host.{Foreign, Os}
use knuu.K8s.Types.{KubeManager}
use knuu.Instance.State.{State}
use knuu.Instance.World.{Ref, World}
use knuu.Instance.Access.Frame.{Each, Each-preorder}
use knuu.Instance.Execution.Frame.{destroy-Each}
use knuu.Instance.Execution.Batch.{destroy_each, batch_destroy}
use knuu.Instance.Operation.Succeeding.{Has, KeepsHas, KeepsHas-Frame, destroy-Ensures}

module _ ⦃f : Foreign⦄ where
  -- The instances among the pointers are all destroyed.
  abbrev pub AllDestroyed : List (Option Ref) → World → Type 0
  AllDestroyed [] w = Unit
  AllDestroyed (none ∷ instances) w = AllDestroyed instances w
  AllDestroyed (some i ∷ instances) w = Has i State.destroyed w × AllDestroyed instances w

  abbrev Keeping : World → World → Type 0
  Keeping = Each (KeepsHas State.destroyed)

  module _ ⦃k : KubeManager⦄ ⦃o : Os⦄ where
    destroy_each-Keeping : (instances : List (Option Ref)) → Moves Keeping (destroy_each instances)
    unfolding destroy_each
    destroy_each-Keeping [] = Moves-pure (Each-preorder (KeepsHas-Frame State.destroyed)) tt
    destroy_each-Keeping (none ∷ instances) = destroy_each-Keeping instances
    destroy_each-Keeping (some i ∷ instances) =
        Moves-bind (Each-preorder (KeepsHas-Frame State.destroyed)) _ _
          (destroy-Each (KeepsHas-Frame State.destroyed) i (λ a h. refl))
          (λ u. destroy_each-Keeping instances)

    destroy_each-Ensures :
        (instances : List (Option Ref)) → Ensures (AllDestroyed instances) (destroy_each instances)
    unfolding destroy_each pure
    destroy_each-Ensures [] = record { at = λ w. tt }
    destroy_each-Ensures (none ∷ instances) = destroy_each-Ensures instances
    destroy_each-Ensures (some i ∷ instances) =
        Ensures-both (Has i State.destroyed) (AllDestroyed instances) Keeping _ _
          (λ s t r h. r.at i h) (destroy-Ensures i) (λ u. destroy_each-Ensures instances)
          (λ u. destroy_each-Keeping instances)

    -- When BatchDestroy returns no error, and the environment does not tell it to skip the cleanup, all
    -- of the instances that it is given are destroyed, also those that were destroyed before.
    pub batch_destroy-AllDestroyed :
        (instances : List (Option Ref)) (w w' : World)
        → text_eq (o.getenv (codes "KNUU_SKIP_CLEANUP")) (codes "true") ≡ false
        → batch_destroy instances w ≡ (w', ok tt)
        → AllDestroyed instances w'
    unfolding batch_destroy when
    batch_destroy-AllDestroyed instances w w' no_skip h =
        Ensures-on_ok (AllDestroyed instances) (destroy_each-Ensures instances) w w' tt
          (rw no_skip at h)
