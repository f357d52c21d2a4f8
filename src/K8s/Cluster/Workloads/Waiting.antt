-- ===== src/K8s/Cluster/Workloads/Waiting.antt =====
-- The loop that waits for a pod's deletion ends: a context with a deadline bounds its rounds.
use knuu.Prelude.{ℕ, zero, suc, ◌≤◌, ◌<◌, ◌≡◌, ◌≢◌, true, false, Option, none, some, arith, ap, ◌∙◌}
use knuu.Prelude.Text.{Text}
use knuu.Errors.{is_missing, ok, foreign}
use knuu.Action.{pure, throw}
use knuu.Action.Rounds.{bind_not_none, when_not_none}
use knuu.Action.Moves.{IsPreorder, Moves, Moves-bind, Moves-pure, Moves-throw}
use knuu.Host.{Foreign, Os}
use knuu.K8s.Cluster.{Client}
use knuu.K8s.Cluster.Outcomes.{Moves-on_error, Moves-check, Moves-if}
use knuu.K8s.Cluster.Workloads.{pods, get_pod, pod_is_gone, wait_for_pod_deletion}

module _ ⦃f : Foreign⦄ ⦃o : Os⦄ (remaining : f.Outside → ℕ) (c : Client) (name : Text) where
  abbrev NoLater : f.Outside → f.Outside → Type 0
  NoLater x y = remaining y ≤ remaining x

  NoLater-preorder : IsPreorder NoLater
  NoLater-preorder = record { same = λ s. omega arith; chain = λ r s. omega arith }

  module _
      (falls : (x : f.Outside)
        → (o.select_done x).1 ≡ ok false
        → remaining (o.select_done x).0 < remaining x)
      (stays : (x : f.Outside) → remaining ((pods c).get name x).0 ≤ remaining x) where
    get_pod-NoLater : Moves NoLater (get_pod c name)
    unfolding get_pod
    get_pod-NoLater =
        Moves-bind NoLater-preorder _ _ (Moves-check NoLater-preorder _) λ u. record { at = stays }

    pod_is_gone-NoLater : Moves NoLater (pod_is_gone c name)
    unfolding pod_is_gone
    pod_is_gone-NoLater =
        Moves-on_error NoLater-preorder _ _ _ get_pod-NoLater
          (λ e.
            Moves-if (is_missing e) _ _ (Moves-pure NoLater-preorder true)
              (Moves-throw NoLater-preorder _))
          (λ pod. Moves-pure NoLater-preorder false)

    finished : (x : f.Outside) → (pure {S = f.Outside} (some tt) x).1 ≢ ok none
    unfolding pure
    finished x e = cc

    cancelled :
        (x : f.Outside)
        → (throw {S = f.Outside} {A = Option (Unit {0})} (foreign o.context_error) x).1 ≢ ok none
    unfolding throw
    cancelled x e = cc

    -- Where a measure of the outside falls at each wait that does not find the context done, and no
    -- request for the pod raises it, more rounds than the measure are enough: the loop does not run
    -- out of them.
    pub wait_for_pod_deletion-ends :
        (rounds : ℕ) (x : f.Outside)
        → remaining x < rounds
        → (wait_for_pod_deletion rounds c name x).1 ≢ ok none
    unfolding wait_for_pod_deletion
    wait_for_pod_deletion-ends zero x h = absurd (omega (arith, h))
    wait_for_pod_deletion-ends (suc rounds) x h =
        let y = (o.select_done x).0 in
        bind_not_none _ o.select_done x λ done d.
          when_not_none done _ _ y (λ d'. cancelled y)
            λ d'. bind_not_none _ (pod_is_gone c name) y λ gone g.
              let z = (pod_is_gone c name y).0 in
              let later : remaining z ≤ remaining y = pod_is_gone-NoLater.at y in
              when_not_none gone _ _ z (λ g'. finished z)
                λ g'.
                  wait_for_pod_deletion-ends rounds z
                    (omega (arith, falls x (d ∙ ap ok d'), later, h))
